-- ===== src/Tests/ImportRuns.antt =====
-- Runs of the import of CSV files.
use passport_passwords.Base.{
  ◌<◌, Text, text, List, [], ◌∷◌, ◌++◌, ◌≡◌, ◌⊎◌, inl, inr, ◌≢◌, refl, true, false, none, some, ok,
  err, arith, length, text_eq,
}
use passport_passwords.Base.Trim.{trim}
use passport_passwords.Base.Utf8.{valid_utf8}
use passport_passwords.Origin.{Url, UrlParser, parse, origin_of, to_lower, to_ascii_lowercase}
use passport_passwords.Import.{
  parse_export, canonicalise_origin, unrecognised_header, parse_body, strip_bom,
}
use passport_passwords.Import.Csv.{next, parse_rows}
use passport_passwords.Import.Csv.Rows.{parse_rows-next}
use passport_passwords.Import.Csv.RoundTrip.{Line, print_file, parse_rows-print_file}
use passport_passwords.Import.Header.{
  google, proton, one_password, apple_keychain, has, lower_names, detect_source, detect_lower,
  column_mapping,
}
use passport_passwords.Import.Columns.{Found, detect_source-columns}
use passport_passwords.Import.Export.{
  Entry, Writer, google_export, imported_entry, parse_export-google_export,
}
use passport_passwords.Import.Origins.{canonicalise_origin-parse}

rows_run : parse_rows (text "a,b\r\n\"x,\"\"y\n\",\n,\nlast") ≡ (
    (text "a" ∷ text "b" ∷ [])
    ∷ (text "x,\"y\n" ∷ [] ∷ [])
    ∷ ([] ∷ [] ∷ [])
    ∷ (text "last" ∷ [])
    ∷ [])
unfolding parse_rows
rows_run = refl

abbrev quoted_line : Line
quoted_line = record {
  head = record { quoted = true; value = text "a\"b" };
  more = record { quoted = false; value = [] } ∷ [];
  crlf = true;
}

parse_rows-print_file_example :
    parse_rows (print_file (quoted_line ∷ []) ++ text "end")
    ≡ (text "a\"b" ∷ [] ∷ []) ∷ (text "end" ∷ []) ∷ []
parse_rows-print_file_example =
    parse_rows-print_file (quoted_line ∷ []) (record { quoted = false; value = text "end" }) []
      ((inl refl, (inr refl, tt)), tt) (inr refl) tt

parse_rows-next_example :
    (((next (text "a,b\nc")).0 ≡ none) × (parse_rows (text "a,b\nc") ≡ []))
    ⊎ ((r : List Text) × ((next (text "a,b\nc")).0 ≡ some r)
        × (parse_rows (text "a,b\nc") ≡ r ∷ parse_rows (next (text "a,b\nc")).1)
        × (length (next (text "a,b\nc")).1 < length (text "a,b\nc")))
parse_rows-next_example = parse_rows-next (text "a,b\nc")

abbrev github : Entry
github = record {
  name = text "GitHub";
  url = text "https://github.com/login";
  username = text "alice";
  password = text "a,\"b";
  note = [];
}

-- A parser of URLs that knows one of them.
abbrev one_url : UrlParser
one_url s = elim s [
  | [] ↦ err (text "empty")
  | b ∷ _ ↦ ok (record {
    scheme = text "https";
    username = [];
    password = none;
    host_str = some (text "github.com");
    port = none;
  })
]

-- All fields in quotes, lines that end in LF.
abbrev quoting : Writer
quoting = record { quotes = λ s. true; crlf = false; written = λ s. inl refl }

github_valid : valid_utf8 (google_export quoting (github ∷ [])) ≡ true
unfolding valid_utf8
github_valid = refl

parse_export-google_export_example :
    parse_export one_url (google_export quoting (github ∷ []))
    ≡ ok (record { source = google; records = imported_entry one_url github ∷ [] })
parse_export-google_export_example =
    parse_export-google_export one_url quoting github [] github_valid (refl, tt)

abbrev one_password_names : List Text
one_password_names =
    text "Title"
    ∷ text " URL"
    ∷ text "Username"
    ∷ text "Password"
    ∷ text "Notes"
    ∷ text "OTPAuth"
    ∷ []

one_password_detected : detect_source one_password_names ≡ some one_password
unfolding detect_source detect_lower to_lower trim text_eq
one_password_detected = refl

detect_source-columns_example :
    Found one_password_names (column_mapping one_password one_password_names).url
    × Found one_password_names (column_mapping one_password one_password_names).password
    × ((one_password ≡ proton)
        ⊎ Found one_password_names (column_mapping one_password one_password_names).username)
    × ((one_password ≢ apple_keychain) ⊎ (has (lower_names one_password_names) "notes" ≡ false))
detect_source-columns_example =
    detect_source-columns one_password_names one_password one_password_detected

abbrev safari_names : List Text
safari_names = text "Title" ∷ text "URL" ∷ text "Username" ∷ text "Password" ∷ []

safari_detected : detect_source safari_names ≡ some apple_keychain
unfolding detect_source detect_lower to_lower trim text_eq
safari_detected = refl

unrecognised_run : parse_export one_url (text "a,b\nc,d\n") ≡ err unrecognised_header
unfolding parse_export parse_rows parse_body detect_source detect_lower text_eq valid_utf8 strip_bom
    trim to_lower
unrecognised_run = refl

one_url_refuses : (u : Url) → one_url [] ≢ ok u
one_url_refuses u e = cc

one_url_lower :
    (s host : Text) (u : Url)
    → one_url s ≡ ok u
    → (u.scheme ≡ text "http") ⊎ (u.scheme ≡ text "https")
    → u.host_str ≡ some host
    → to_ascii_lowercase host ≡ host
unfolding to_lower
one_url_lower [] host u e web h = cc
one_url_lower (b ∷ s) host u e web h =
    let named : host ≡ text "github.com" = ground arith in rw named refl

canonicalise_origin-parse_example :
    canonicalise_origin one_url (text " github.com ") ≡ text "https://github.com"
unfolding parse origin_of trim text_eq to_lower
canonicalise_origin-parse_example =
    canonicalise_origin-parse one_url one_url_refuses one_url_lower (text " github.com ") refl
