-- ===== src/Import/Csv/RoundTrip.antt =====
-- What the CSV parser reads of a file in the format: the rows that were written.
use passport_passwords.Base.{
  ℕ, Text, List, [], ◌∷◌, ◌++◌, ◌≡◌, refl, ◌⊎◌, inl, inr, ap, ◌∙◌, Bool, true, false, not, ◌&&◌,
  none, some, ◌==◌, all, is_empty, map, append-nil, append_assoc, arith, if◌then◌else◌, Bool-cases,
}
use passport_passwords.Import.Csv.{Cursor, step, read_row, row_start, next, parse_rows, followed_by}
use passport_passwords.Import.Csv.Rows.{
  first, read_row-go, read_row-skip, read_row-row, read_row-row_skip, parse_rows-none,
  parse_rows-some,
}

-- A field of a file, and whether its writer puts it in quotes.
pub record Cell : Type 0 where
  pub quoted : Bool
  pub value : Text

-- A line that ends in LF, or in CRLF: at least one field.
pub record Line : Type 0 where
  pub head : Cell
  pub more : List Cell
  pub crlf : Bool

abbrev pub is_plain : ℕ → Bool
is_plain b = not (b == b'"') && not (b == b',') && not (b == b'\n') && not (b == b'\r')

-- What a writer keeps to: a field without quotes has no character with a meaning.
abbrev pub IsWritten : Cell → Type 0
IsWritten c = (c.quoted ≡ true) ⊎ (all is_plain c.value ≡ true)

abbrev pub All {ℓ κ} : {A : Type ℓ} → (A → Type κ) → List A → Type κ
All P [] = Unit
All P (x ∷ xs) = P x × All P xs

-- Each quote is doubled.
abbrev pub escape : Text → Text
escape [] = []
escape (b ∷ s) = if b == b'"' then b'"' ∷ b'"' ∷ escape s else b ∷ escape s

abbrev pub print_cell : Cell → Text
print_cell c = if c.quoted then b'"' ∷ (escape c.value ++ b'"' ∷ []) else c.value

abbrev pub print_row : Cell → List Cell → Text
print_row c [] = print_cell c
print_row c (d ∷ cs) = print_cell c ++ b',' ∷ print_row d cs

abbrev pub line_end : Bool → Text
line_end crlf = if crlf then b'\r' ∷ b'\n' ∷ [] else b'\n' ∷ []

abbrev pub print_file : List Line → Text
print_file [] = []
print_file (l ∷ ls) = print_row l.head l.more ++ (line_end l.crlf ++ print_file ls)

abbrev pub values : Cell → List Cell → List Text
values c cs = c.value ∷ map (λ d. d.value) cs

abbrev pub line_values : Line → List Text
line_values l = values l.head l.more

abbrev pub LineIsWritten : Line → Type 0
LineIsWritten l = IsWritten l.head × All IsWritten l.more

abbrev at : List Text → Text → Bool → Cursor
at fs cur q = record { fields = fs; cur = cur; in_quotes = q }

read_row-plain :
    (s rest : Text) (fs : List Text) (cur : Text)
    → all is_plain s ≡ true
    → read_row (at fs cur false) (s ++ rest) ≡ read_row (at fs (cur ++ s) false) rest
unfolding step
read_row-plain [] rest fs cur h = rw (append-nil cur)
read_row-plain (b ∷ s) rest fs cur h =
    read_row-go (at fs cur false) b (s ++ rest) {d = at fs (cur ++ b ∷ []) false} (ground arith)
    ∙ read_row-plain s rest fs (cur ++ b ∷ []) (ground arith)
    ∙ rw (append_assoc cur (b ∷ []) s)

read_row-escape :
    (s rest : Text) (fs : List Text) (cur : Text)
    → followed_by b'"' (first rest) ≡ false
    → read_row (at fs cur true) (escape s ++ b'"' ∷ rest) ≡ read_row (at fs (cur ++ s) false) rest
unfolding step
read_row-escape [] rest fs cur h =
    rw (append-nil cur)
      (read_row-go (at fs cur true) b'"' rest {d = at fs cur false} (ground arith))
read_row-escape (b ∷ s) rest fs cur h = elim (Bool-cases (b == b'"')) [
  | inl e ↦
      rw (e, (let q : b ≡ b'"' = ground arith in q))
        (read_row-skip (at fs cur true) b'"' b'"' (escape s ++ b'"' ∷ rest)
            {d = at fs (cur ++ b'"' ∷ []) true} (ground arith)
          ∙ read_row-escape s rest fs (cur ++ b'"' ∷ []) h
          ∙ rw (append_assoc cur (b'"' ∷ []) s))
  | inr e ↦ rw e (
      read_row-go (at fs cur true) b (escape s ++ b'"' ∷ rest) {d = at fs (cur ++ b ∷ []) true}
        (ground arith)
      ∙ read_row-escape s rest fs (cur ++ b ∷ []) h
      ∙ rw (append_assoc cur (b ∷ []) s))
]

read_row-cell :
    (c : Cell) (rest : Text) (fs : List Text)
    → IsWritten c
    → followed_by b'"' (first rest) ≡ false
    → read_row (at fs [] false) (print_cell c ++ rest) ≡ read_row (at fs c.value false) rest
unfolding step
read_row-cell c rest fs w h = elim (Bool-cases c.quoted) [
  | inl e ↦
      rw (e, append_assoc (escape c.value) (b'"' ∷ []) rest)
        (read_row-go (at fs [] false) b'"' (escape c.value ++ b'"' ∷ rest) {d = at fs [] true}
            (ground arith)
          ∙ read_row-escape c.value rest fs [] h)
  | inr e ↦ rw e (read_row-plain c.value rest fs [] (ground arith))
]

-- Where the loop stands behind a row: the fields are those of the row.
record Behind (fs vs : List Text) (c : Cursor) : Type 0 where
  bare : c.in_quotes ≡ false
  taken : c.fields ++ c.cur ∷ [] ≡ fs ++ vs

read_row-print_row :
    (c : Cell) (cs : List Cell) (rest : Text) (fs : List Text)
    → IsWritten c
    → All IsWritten cs
    → followed_by b'"' (first rest) ≡ false
    → (d : Cursor) × (read_row (at fs [] false) (print_row c cs ++ rest) ≡ read_row d rest)
      × Behind fs (values c cs) d
unfolding step
read_row-print_row c [] rest fs w ws h =
    (at fs c.value false, read_row-cell c rest fs w h, record { bare = cc; taken = cc })
read_row-print_row c (d ∷ cs) rest fs w ws h =
    let (e, same, behind) = read_row-print_row d cs rest (fs ++ c.value ∷ []) ws.0 ws.1 h in
    (
      e,
      rw (append_assoc (print_cell c) (b',' ∷ print_row d cs) rest) (
          read_row-cell c (b',' ∷ (print_row d cs ++ rest)) fs w (ground arith)
          ∙ read_row-go (at fs c.value false) b',' (print_row d cs ++ rest)
              {d = at (fs ++ c.value ∷ []) [] false} (ground arith)
          ∙ same),
      record {
        bare = behind.bare;
        taken = behind.taken ∙ append_assoc fs (c.value ∷ []) (values d cs);
      },
    )

next-read_row : (s : Text) → next s ≡ read_row row_start s
unfolding next read_row
next-read_row [] = refl
next-read_row (ch ∷ s) = refl

next-line :
    (l : Line) (rest : Text)
    → LineIsWritten l
    → next (print_row l.head l.more ++ (line_end l.crlf ++ rest)) ≡ (some (line_values l), rest)
unfolding step
next-line l rest w =
    let behind = line_end l.crlf ++ rest in
    let (d, same, b) =
      read_row-print_row l.head l.more behind [] w.0 w.1
        (elim (Bool-cases l.crlf) [ inl e ↦ rw e (ground arith) | inr e ↦ rw e (ground arith) ]) in
    next-read_row (print_row l.head l.more ++ behind) ∙ same ∙ elim (Bool-cases l.crlf) [
      | inl e ↦ rw e (
          read_row-row_skip d b'\r' b'\n' rest {r = line_values l}
            (ground (arith, b.bare, b.taken)))
      | inr e ↦
          rw e (read_row-row d b'\n' rest {r = line_values l} (ground (arith, b.bare, b.taken)))
    ]

-- The end of the file behind a row
next-last :
    (c : Cell) (cs : List Cell)
    → IsWritten c
    → All IsWritten cs
    → next (print_row c cs)
      ≡ ((if all is_empty (values c cs) then none else some (values c cs)), [])
unfolding read_row
next-last c cs w ws =
    let (d, same, b) = read_row-print_row c cs [] [] w ws (ground arith) in
    next-read_row (print_row c cs) ∙ (rw (append-nil (print_row c cs)) at same) ∙ rw b.taken

-- A file of lines, each of them at least one field with a comma between two and with LF or CRLF at
-- its end, and of a last row without an end, parses to the rows of fields that were written, the
-- last one left out if all its fields are empty. A field may be in quotes, with each quote in it
-- doubled; it has to be where it has a quote, a comma, a carriage return or a line feed.
pub parse_rows-print_file :
    (ls : List Line) (c : Cell) (cs : List Cell)
    → All LineIsWritten ls
    → IsWritten c
    → All IsWritten cs
    → parse_rows (print_file ls ++ print_row c cs)
      ≡ map line_values ls ++ (if all is_empty (values c cs) then [] else values c cs ∷ [])
unfolding parse_rows
parse_rows-print_file [] c cs hs w ws =
    let last = next-last c cs w ws in
    elim (Bool-cases (all is_empty (values c cs))) [
      | inl e ↦ rw e (parse_rows-none (print_row c cs) (ap (λ p. p.0) last ∙ rw e))
      | inr e ↦ rw e (parse_rows-some (print_row c cs) [] (last ∙ rw e))
    ]
parse_rows-print_file (l ∷ ls) c cs hs w ws =
    let rest = print_file ls ++ print_row c cs in
    rw
      (
        append_assoc (print_row l.head l.more) (line_end l.crlf ++ print_file ls) (print_row c cs),
        append_assoc (line_end l.crlf) (print_file ls) (print_row c cs),
      )
      (parse_rows-some (print_row l.head l.more ++ (line_end l.crlf ++ rest)) rest
          (next-line l rest hs.0)
        ∙ ap (◌∷◌ (line_values l)) (parse_rows-print_file ls c cs hs.1 w ws))
