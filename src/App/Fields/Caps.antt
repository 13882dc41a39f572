-- ===== src/App/Fields/Caps.antt =====
-- What fields that pass have in common.
use passport_passwords.Base.{
  ◌≤◌, ◌≡◌, refl, Text, [], ◌∷◌, false, true, ok, is_empty, length, arith, Result-cases, inl, inr,
}
use passport_passwords.Base.Trim.{trim}
use passport_passwords.Engine.{max_username_bytes, max_label_bytes, max_password_bytes}
use passport_passwords.Origin.{UrlParser, parse}
use passport_passwords.App.Fields.{validate_edit_fields, validate_new_fields}

pub record Fits (label username password : Text) : Type 0 where
  pub label_cap : length label ≤ max_label_bytes
  pub username_cap : length username ≤ max_username_bytes
  pub password_cap : length password ≤ max_password_bytes
  pub username_given : is_empty username ≡ false

trim-empty : is_empty (trim []) ≡ true
unfolding trim
trim-empty = refl

username_given : (u : Text) → is_empty (trim u) ≡ false → is_empty u ≡ false
username_given [] h = absurd (cc (trim-empty))
username_given (b ∷ u) h = refl

pub validate_edit_fields-Fits :
    (label username password : Text)
    → validate_edit_fields label username password ≡ ok tt
    → Fits label username password
unfolding validate_edit_fields
validate_edit_fields-Fits label username password h = record {
  label_cap = ground arith;
  username_cap = ground arith;
  password_cap = ground arith;
  username_given = username_given username (ground arith);
}

pub validate_new_fields-Fits :
    (url_parse : UrlParser) (origin username password label : Text)
    → validate_new_fields url_parse origin username password label ≡ ok tt
    → Fits label username password × (is_empty password ≡ false)
unfolding validate_new_fields
validate_new_fields-Fits url_parse origin username password label h =
    elim (Result-cases (parse url_parse origin)) [
      | inl (e, f) ↦ absurd (ground arith)
      | inr (o, f) ↦
          (validate_edit_fields-Fits label username password (ground arith), ground arith)
    ]
