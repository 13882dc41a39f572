-- ===== src/Import/Header.antt =====
-- Which password manager an export is from, by its header row, and which of its columns holds what.
use passport_passwords.Base.{
  ℕ, suc, Text, text, String, List, [], ◌∷◌, Bool, ◌&&◌, ◌||◌, Option, none, some, map, any,
  text_eq, if◌then◌else◌,
}
use passport_passwords.Base.Trim.{trim}
use passport_passwords.Origin.{to_lower, to_ascii_lowercase}

pub data Source : Type 0 where
  google proton one_password bitwarden apple_keychain lastpass generic : Source

-- `Source::label`
unfoldable pub source_label : Source → String
source_label google = "Google Passwords"
source_label proton = "Proton Pass"
source_label one_password = "1Password"
source_label bitwarden = "Bitwarden"
source_label apple_keychain = "Apple Keychain"
source_label lastpass = "LastPass"
source_label generic = "Generic CSV"

-- The columns of what is read, by their places.
pub record Mapping : Type 0 where
  pub name : Option ℕ
  pub url : Option ℕ
  pub username : Option ℕ
  pub password : Option ℕ
  pub notes : Option ℕ

-- The closure `has` of `detect_source`, on the names in lower case
abbrev pub has : List Text → String → Bool
has lc needle = any (λ c. text_eq c (text needle)) lc

abbrev pub lower_names : List Text → List Text
lower_names = map (λ s. to_ascii_lowercase (trim s))

-- The chain of tests, on the names in lower case
unfoldable pub detect_lower : List Text → Option Source
detect_lower lc =
    if has lc "name" && has lc "url" && has lc "username" && has lc "password" && has lc "note"
    then some google
    else if has lc "name" && has lc "url" && has lc "password" && (has lc "email" || has lc "note")
    then some proton
    else if has lc "title"
        && has lc "url"
        && has lc "username"
        && has lc "password"
        && has lc "notes"
    then some one_password
    else if has lc "login_uri" && has lc "login_username" && has lc "login_password"
    then some bitwarden
    else if has lc "title" && has lc "url" && has lc "username" && has lc "password"
    then some apple_keychain
    else if has lc "url"
        && has lc "username"
        && has lc "password"
        && has lc "extra"
        && has lc "grouping"
    then some lastpass
    else if has lc "url" && has lc "username" && has lc "password"
    then some generic
    else none

unfoldable pub detect_source : List Text → Option Source
unfolding detect_lower to_lower trim
detect_source header = detect_lower (lower_names header)

abbrev pub position {ℓ} : {A : Type ℓ} → (A → Bool) → List A → Option ℕ
position p [] = none
position p (x ∷ xs) =
    if p x then some 0 else elim (position p xs) [ none ↦ none | some i ↦ some (suc i) ]

abbrev pub eq_ignore_ascii_case : Text → Text → Bool
eq_ignore_ascii_case s t = text_eq (to_ascii_lowercase s) (to_ascii_lowercase t)

-- The closure `find` of `column_mapping`
abbrev pub find_column : List Text → String → Option ℕ
find_column header needle = position (λ c. eq_ignore_ascii_case (trim c) (text needle)) header

-- `Option::or_else`
abbrev pub or_else {ℓ} : {A : Type ℓ} → Option A → Option A → Option A
or_else none o = o
or_else (some a) o = some a

unfoldable pub column_mapping : Source → List Text → Mapping
unfolding to_lower trim
column_mapping google header = record {
  name = find_column header "name";
  url = find_column header "url";
  username = find_column header "username";
  password = find_column header "password";
  notes = find_column header "note";
}
column_mapping proton header = record {
  name = find_column header "name";
  url = find_column header "url";
  username = or_else (find_column header "username") (find_column header "email");
  password = find_column header "password";
  notes = or_else (find_column header "note") (find_column header "notes");
}
column_mapping one_password header = record {
  name = find_column header "title";
  url = find_column header "url";
  username = find_column header "username";
  password = find_column header "password";
  notes = find_column header "notes";
}
column_mapping bitwarden header = record {
  name = find_column header "name";
  url = find_column header "login_uri";
  username = find_column header "login_username";
  password = find_column header "login_password";
  notes = find_column header "notes";
}
column_mapping apple_keychain header = record {
  name = find_column header "title";
  url = find_column header "url";
  username = find_column header "username";
  password = find_column header "password";
  notes = find_column header "notes";
}
column_mapping lastpass header = record {
  name = find_column header "name";
  url = find_column header "url";
  username = find_column header "username";
  password = find_column header "password";
  notes = find_column header "extra";
}
column_mapping generic header = record {
  name = or_else (find_column header "name") (find_column header "title");
  url = find_column header "url";
  username = find_column header "username";
  password = find_column header "password";
  notes = or_else (find_column header "notes") (find_column header "note");
}
