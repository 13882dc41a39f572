-- ===== src/App/Fields.antt =====
-- src/src/main.rs: the tests of the fields that the user fills in.
pub mod Caps
use passport_passwords.Base.{
  ℕ, Text, text, [], ◌++◌, Bool, Option, none, some, Result, ok, err, ◌>>=◌, ◌>>◌, ltb, is_empty,
  length, if◌then◌else◌,
}
use passport_passwords.Base.Trim.{trim}
use passport_passwords.Engine.{
  max_origin_bytes, max_username_bytes, max_label_bytes, max_password_bytes,
}
use passport_passwords.Origin.{
  UrlParser, OriginError, invalid_url, unsupported_scheme, missing_host, user_info_not_allowed,
  parse,
}

pub record FieldError : Type 0 where
  pub field : Text
  pub message : Text

-- `Display for OriginError`
unfoldable pub origin_message : OriginError → Text
origin_message (invalid_url e) = text "invalid url: " ++ e
origin_message (unsupported_scheme s) = text "scheme must be http or https, got " ++ s
origin_message missing_host = text "url is missing a host"
origin_message user_info_not_allowed = text "url contains userinfo, which is forbidden"

-- An early `return Err(..)`.
abbrev pub fail_if : Bool → Text → Text → Result FieldError (Unit {0})
fail_if b field message = if b then err (record { field = field; message = message }) else ok tt

unfoldable pub validate_edit_fields : Text → Text → Text → Result FieldError (Unit {0})
validate_edit_fields label username password = do
  fail_if (ltb max_label_bytes (length label)) (text "label") (text "Label is too long.")
  fail_if (is_empty (trim username)) (text "username") (text "Username is required.")
  fail_if (ltb max_username_bytes (length username)) (text "username")
      (text "Username is too long.")
  fail_if (ltb max_password_bytes (length password)) (text "password")
      (text "Password is too long.")

-- `if let Err(e) = Origin::parse(origin) { return Err(..) }`
abbrev pub fail_origin : Result OriginError Text → Result FieldError (Unit {0})
fail_origin (ok _) = ok tt
fail_origin (err e) = err (record { field = text "website"; message = origin_message e })

unfoldable pub validate_new_fields :
    UrlParser → Text → Text → Text → Text → Result FieldError (Unit {0})
unfolding validate_edit_fields origin_message
validate_new_fields url_parse origin username password label = do
  fail_if (is_empty (trim origin)) (text "website") (text "Website is required.")
  fail_if (ltb max_origin_bytes (length origin)) (text "website") (text "Website is too long.")
  fail_origin (parse url_parse origin)
  validate_edit_fields label username password
  fail_if (is_empty password) (text "password") (text "Password is required.")

-- The validators that run while the user types; no text is no complaint.
unfoldable pub validate_origin : UrlParser → Text → Text
unfolding origin_message
validate_origin url_parse s =
    if ltb max_origin_bytes (length s)
    then text "Origin too long"
    else elim (parse url_parse s) [ ok _ ↦ [] | err e ↦ origin_message e ]

unfoldable pub validate_label : Text → Text
validate_label s = if ltb max_label_bytes (length s) then text "Label too long" else []
