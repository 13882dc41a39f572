-- ===== src/Import/Columns.antt =====
-- What the detection of the source promises the mapping of the columns.
use passport_passwords.Base.{
  ℕ, suc, ◌<◌, ◌≡◌, ◌≢◌, ◌⊎◌, inl, inr, refl, sym, ◌∙◌, Text, text, String, List, [], ◌∷◌, Bool,
  true, false, Option, some, any, map, text_eq, length, arith, Bool-cases,
}
use passport_passwords.Base.Trim.{trim}
use passport_passwords.Origin.{to_lower, to_ascii_lowercase}
use passport_passwords.Import.Header.{
  Source, google, proton, one_password, bitwarden, apple_keychain, lastpass, generic, has,
  lower_names, detect_lower, detect_source, position, find_column, column_mapping,
}

-- A column that is there.
abbrev pub Found : List Text → Option ℕ → Type 0
Found header o = (i : ℕ) × (o ≡ some i) × (i < length header)

position-Found {ℓ} :
    {A : Type ℓ} (p : A → Bool) (xs : List A)
    → any p xs ≡ true
    → (i : ℕ) × (position p xs ≡ some i) × (i < length xs)
position-Found p [] h = absurd (cc)
position-Found p (x ∷ xs) h = elim (Bool-cases (p x)) [
  | inl e ↦ (0, rw e, omega arith)
  | inr e ↦
      let (i, found, lt) = position-Found p xs (ground arith) in (suc i, ground arith, omega arith)
]

any-map {ℓ κ} :
    {A : Type ℓ} {B : Type κ} (f : A → B) (p : B → Bool) (xs : List A)
    → any p (map f xs) ≡ any (λ x. p (f x)) xs
any-map f p [] = refl
any-map f p (x ∷ xs) = ground (arith, any-map f p xs)

-- The names that the code looks for are in lower case.
find_column-Found :
    (header : List Text) (needle : String)
    → to_ascii_lowercase (text needle) ≡ text needle
    → has (lower_names header) needle ≡ true
    → Found header (find_column header needle)
find_column-Found header needle low h = rw low (
    position-Found (λ c. text_eq (to_ascii_lowercase (trim c)) (text needle)) header
      (sym (any-map _ (λ c. text_eq c (text needle)) header) ∙ h))

-- The tests that each source has passed, on the names of the columns of its secrets.
abbrev Passed : List Text → Source → Type 0
Passed lc bitwarden =
    (has lc "login_uri" ≡ true)
    × (has lc "login_username" ≡ true)
    × (has lc "login_password" ≡ true)
Passed lc proton = (has lc "url" ≡ true) × (has lc "password" ≡ true)
Passed lc s = (has lc "url" ≡ true) × (has lc "username" ≡ true) × (has lc "password" ≡ true)

detect_lower-Passed : (lc : List Text) (s : Source) → detect_lower lc ≡ some s → Passed lc s
unfolding detect_lower
detect_lower-Passed lc google h = ground arith
detect_lower-Passed lc proton h = ground arith
detect_lower-Passed lc one_password h = ground arith
detect_lower-Passed lc bitwarden h = ground arith
detect_lower-Passed lc apple_keychain h = ground arith
detect_lower-Passed lc lastpass h = ground arith
detect_lower-Passed lc generic h = ground arith

-- The columns of a source that calls them by their plain names
plain_columns :
    (header : List Text) (s : Source)
    → (has (lower_names header) "url" ≡ true)
      × (has (lower_names header) "username" ≡ true)
      × (has (lower_names header) "password" ≡ true)
    → Found header (find_column header "url")
      × Found header (find_column header "password")
      × ((s ≡ proton) ⊎ Found header (find_column header "username"))
unfolding to_lower
plain_columns header s p = (
  find_column-Found header "url" refl p.0,
  find_column-Found header "password" refl p.2,
  inr (find_column-Found header "username" refl p.1),
)

detect_lower-apple_keychain :
    (lc : List Text) → detect_lower lc ≡ some apple_keychain → has lc "notes" ≡ false
unfolding detect_lower
detect_lower-apple_keychain lc h = ground arith

-- A header that is recognised has the columns that are read for it: the column of the URL and the
-- column of the password are found within the header, and so is the column of the user name unless
-- the source is Proton Pass. A header with a column called `notes` is never taken for one of Apple
-- Keychain.
pub detect_source-columns :
    (header : List Text) (s : Source)
    → detect_source header ≡ some s
    → Found header (column_mapping s header).url
      × Found header (column_mapping s header).password
      × ((s ≡ proton) ⊎ Found header (column_mapping s header).username)
      × ((s ≢ apple_keychain) ⊎ (has (lower_names header) "notes" ≡ false))
unfolding detect_source column_mapping to_lower
detect_source-columns header google h =
    let (u, w, n) =
      plain_columns header google (detect_lower-Passed (lower_names header) google h) in
    (u, w, n, inl (λ e. cc))
detect_source-columns header one_password h =
    let (u, w, n) =
      plain_columns header one_password (detect_lower-Passed (lower_names header) one_password h) in
    (u, w, n, inl (λ e. cc))
detect_source-columns header lastpass h =
    let (u, w, n) =
      plain_columns header lastpass (detect_lower-Passed (lower_names header) lastpass h) in
    (u, w, n, inl (λ e. cc))
detect_source-columns header generic h =
    let (u, w, n) =
      plain_columns header generic (detect_lower-Passed (lower_names header) generic h) in
    (u, w, n, inl (λ e. cc))
detect_source-columns header apple_keychain h =
    let (u, w, n) =
      plain_columns header apple_keychain
        (detect_lower-Passed (lower_names header) apple_keychain h) in
    (u, w, n, inr (detect_lower-apple_keychain (lower_names header) h))
detect_source-columns header proton h =
    let p = detect_lower-Passed (lower_names header) proton h in
    (
      find_column-Found header "url" refl p.0,
      find_column-Found header "password" refl p.1,
      inl refl,
      inl (λ e. cc),
    )
detect_source-columns header bitwarden h =
    let p = detect_lower-Passed (lower_names header) bitwarden h in
    (
      find_column-Found header "login_uri" refl p.0,
      find_column-Found header "login_password" refl p.2,
      inr (find_column-Found header "login_username" refl p.1),
      inl (λ e. cc),
    )
