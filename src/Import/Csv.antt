-- ===== src/Import/Csv.antt =====
-- The CSV parser, `RowIter`. The characters that it looks for are ASCII, and a byte of ASCII in
-- UTF-8 stands for nothing else: characters are read as bytes.
pub mod Rows
pub mod RoundTrip
use passport_passwords.Base.{
  ℕ, zero, suc, Text, List, [], ◌∷◌, ◌++◌, Bool, true, false, Option, none, some, ◌==◌, is_empty,
  all, length, if◌then◌else◌,
}

-- The variables of the loop of `RowIter::next`.
pub record Cursor : Type 0 where
  pub fields : List Text
  pub cur : Text
  pub in_quotes : Bool

-- What one character does: the loop goes on, it goes on behind the next character, or it returns
-- the row, with the next character read or not.
pub data Move : Type 0 where
  go skip : Cursor → Move
  row row_skip : List Text → Move

abbrev take_cur : Cursor → List Text
take_cur c = c.fields ++ c.cur ∷ []

abbrev pub push_char : Cursor → ℕ → Cursor
push_char c ch = record c { cur = c.cur ++ ch ∷ [] }

abbrev pub followed_by : ℕ → Option ℕ → Bool
followed_by b none = false
followed_by b (some p) = p == b

-- The body of the loop at the character `ch`, with the next one in sight.
unfoldable pub step : Cursor → ℕ → Option ℕ → Move
step c ch peek =
    if c.in_quotes
    then (if ch == b'"'
        then (if followed_by b'"' peek
            then skip (push_char c b'"')
            else go (record c { in_quotes = false }))
        else go (push_char c ch))
    else if ch == b'"'
    then go (record c { in_quotes = true })
    else if ch == b','
    then go (record c { fields = take_cur c; cur = [] })
    else if ch == b'\n'
    then row (take_cur c)
    else if ch == b'\r'
    then (if followed_by b'\n' peek then row_skip (take_cur c) else row (take_cur c))
    else go (push_char c ch)

-- The end of the file, after at least one character
abbrev pub flush : Cursor → Option (List Text)
flush c = let fields = take_cur c in if all is_empty fields then none else some fields

-- The loop, with the text that is left
unfoldable pub read_row : Cursor → Text → Option (List Text) × Text
unfolding step
read_row c [] = (flush c, [])
read_row c (ch ∷ []) = elim (step c ch none) [
  | go d ↦ (flush d, [])
  | skip d ↦ (flush d, [])
  | row r ↦ (some r, [])
  | row_skip r ↦ (some r, [])
]
read_row c (ch ∷ p ∷ s) = elim (step c ch (some p)) [
  | go d ↦ read_row d (p ∷ s)
  | skip d ↦ read_row d s
  | row r ↦ (some r, p ∷ s)
  | row_skip r ↦ (some r, s)
]

abbrev pub row_start : Cursor
row_start = record { fields = []; cur = []; in_quotes = false }

-- `RowIter::next`: the row, if there is one, and the text behind it
unfoldable pub next : Text → Option (List Text) × Text
unfolding read_row
next [] = (none, [])
next (ch ∷ s) = read_row row_start (ch ∷ s)

-- The rows up to the first `None`, with as much fuel as there are rows or more.
unfoldable pub rows_fuel : ℕ → Text → List (List Text)
unfolding next
rows_fuel zero text = []
rows_fuel (suc fuel) text = elim (next text).0 [
  | none ↦ []
  | some r ↦ r ∷ rows_fuel fuel (next text).1
]

-- `parse_rows`: each row takes at least a character.
unfoldable pub parse_rows : Text → List (List Text)
unfolding rows_fuel
parse_rows text = rows_fuel (suc (length text)) text
