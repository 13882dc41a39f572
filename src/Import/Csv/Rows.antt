-- ===== src/Import/Csv/Rows.antt =====
-- How the loop of `RowIter::next` runs, and that there is enough fuel for all rows.
use passport_passwords.Base.{
  ℕ, zero, suc, ◌-◌, ◌≤◌, ◌<◌, ◌⊎◌, Text, List, [], ◌∷◌, ◌≡◌, Option, none, some, length,
  Option-cases, inl, inr, arith, ap, ◌∙◌,
}
use passport_passwords.Import.Csv.{
  Cursor, go, skip, row, row_skip, step, read_row, row_start, next, rows_fuel, parse_rows,
}

abbrev pub first : Text → Option ℕ
first [] = none
first (b ∷ s) = some b

pub read_row-go :
    (c : Cursor) (ch : ℕ) (s : Text) {d : Cursor}
    → step c ch (first s) ≡ go d
    → read_row c (ch ∷ s) ≡ read_row d s
unfolding read_row
read_row-go c ch [] h = rw (h, read_row)
read_row-go c ch (p ∷ s) h = rw (h, read_row)

pub read_row-skip :
    (c : Cursor) (ch p : ℕ) (s : Text) {d : Cursor}
    → step c ch (some p) ≡ skip d
    → read_row c (ch ∷ p ∷ s) ≡ read_row d s
unfolding read_row
read_row-skip c ch p s h = rw (h, read_row)

pub read_row-row :
    (c : Cursor) (ch : ℕ) (s : Text) {r : List Text}
    → step c ch (first s) ≡ row r
    → read_row c (ch ∷ s) ≡ (some r, s)
unfolding read_row
read_row-row c ch [] h = rw (h, read_row)
read_row-row c ch (p ∷ s) h = rw (h, read_row)

pub read_row-row_skip :
    (c : Cursor) (ch p : ℕ) (s : Text) {r : List Text}
    → step c ch (some p) ≡ row_skip r
    → read_row c (ch ∷ p ∷ s) ≡ (some r, s)
unfolding read_row
read_row-row_skip c ch p s h = rw (h, read_row)

-- The loop reads at least a character.
read_row-le : (c : Cursor) (s : Text) → length (read_row c s).1 ≤ length s - 1
unfolding read_row
read_row-le c [] = omega arith
read_row-le c (ch ∷ []) = ground arith
read_row-le c (ch ∷ p ∷ s) =
    elim (step c ch (some p))
      as (λ m.
        length
          (elim m as (λ _. Option (List Text) × Text) [
            | go d ↦ read_row d (p ∷ s)
            | skip d ↦ read_row d s
            | row r ↦ (some r, p ∷ s)
            | row_skip r ↦ (some r, s)
          ]).1
        ≤ length (ch ∷ p ∷ s) - 1) [
          | go d ↦ omega (arith, read_row-le d (p ∷ s))
          | skip d ↦ omega (arith, read_row-le d s)
          | row r ↦ omega arith
          | row_skip r ↦ omega arith
        ]

-- A row takes at least a character of the text.
next-lt : (s : Text) {r : List Text} → (next s).0 ≡ some r → length (next s).1 < length s
unfolding next
next-lt [] h = cc
next-lt (ch ∷ s) h = omega (arith, read_row-le row_start (ch ∷ s))

rows_fuel-enough :
    (f g : ℕ) (s : Text) → length s < f → length s < g → rows_fuel f s ≡ rows_fuel g s
unfolding rows_fuel
rows_fuel-enough zero g s hf hg = absurd (omega arith)
rows_fuel-enough (suc f) zero s hf hg = absurd (omega arith)
rows_fuel-enough (suc f) (suc g) s hf hg = elim (Option-cases (next s).0) [
  | inl e ↦ rw (e, rows_fuel)
  | inr (r, e) ↦
      let lt = next-lt s e in
      rw (e, rows_fuel) (ap (◌∷◌ r) (rows_fuel-enough f g (next s).1 (omega arith) (omega arith)))
]

-- The rows of a text are what the iterator gives until its first `None`: the fuel never runs out.
-- No row where `next` gives none, and where it gives a row, that row and then the rows of the text
-- behind it, which is shorter.
pub parse_rows-next :
    (s : Text)
    → (((next s).0 ≡ none) × (parse_rows s ≡ []))
      ⊎ ((r : List Text) × ((next s).0 ≡ some r)
          × (parse_rows s ≡ r ∷ parse_rows (next s).1)
          × (length (next s).1 < length s))
unfolding parse_rows rows_fuel
parse_rows-next s = elim (Option-cases (next s).0) [
  | inl e ↦ inl (e, rw (e, rows_fuel))
  | inr (r, e) ↦
      let lt = next-lt s e in
      inr (
        r,
        e,
        rw (e, rows_fuel)
            (ap (◌∷◌ r)
              (rows_fuel-enough (length s) (suc (length (next s).1)) (next s).1 lt (omega arith))),
        lt,
      )
]

pub parse_rows-none : (s : Text) → (next s).0 ≡ none → parse_rows s ≡ []
unfolding parse_rows rows_fuel
parse_rows-none s h = rw (h, rows_fuel)

pub parse_rows-some :
    (s rest : Text) {r : List Text} → next s ≡ (some r, rest) → parse_rows s ≡ r ∷ parse_rows rest
parse_rows-some s rest {r} h = elim (parse_rows-next s) [
  | inl (e, _) ↦ ground arith
  | inr (r', e, f, _) ↦ let same : r' ≡ r = ground arith in f ∙ rw (same, ap (λ p. p.1) h)
]
