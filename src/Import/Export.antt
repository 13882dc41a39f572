-- ===== src/Import/Export.antt =====
-- An export of Google Passwords, as a writer of CSV prints it, and what `parse` reads of it.
use passport_passwords.Base.{
  ℕ, Text, text, List, [], ◌∷◌, ◌≡◌, ◌≢◌, ◌⊎◌, inl, inr, refl, sym, ap, text_eq, ◌∙◌, Bool, true,
  false, ◌&&◌, some, ok, arith, Bool-cases, ◌==◌, is_empty, all, map, append-nil,
}
use passport_passwords.Base.Utf8.{valid_utf8}
use passport_passwords.Origin.{UrlParser, to_lower}
use passport_passwords.Base.Trim.{trim}
use passport_passwords.Import.Csv.{parse_rows}
use passport_passwords.Import.Csv.RoundTrip.{
  Cell, Line, is_plain, All, LineIsWritten, print_file, line_values, parse_rows-print_file,
}
use passport_passwords.Import.Header.{
  Source, Mapping, google, detect_source, detect_lower, column_mapping,
}
use passport_passwords.Import.{
  ImportedRecord, strip_bom, canonicalise_origin, build_record, collect, parse_body, parse_export,
}

pub record Entry : Type 0 where
  pub name : Text
  pub url : Text
  pub username : Text
  pub password : Text
  pub note : Text

-- A writer's choice of the fields that it puts in quotes, and of the ends of its lines.
pub record Writer : Type 0 where
  pub quotes : Text → Bool
  pub crlf : Bool
  pub written : (s : Text) → (quotes s ≡ true) ⊎ (all is_plain s ≡ true)

abbrev pub cell : Writer → Text → Cell
cell w s = record { quoted = w.quotes s; value = s }

abbrev pub google_line : Writer → Entry → Line
google_line w e = record {
  head = cell w e.name;
  more = cell w e.url ∷ cell w e.username ∷ cell w e.password ∷ cell w e.note ∷ [];
  crlf = w.crlf;
}

abbrev pub google_header : Entry
google_header = record {
  name = text "name";
  url = text "url";
  username = text "username";
  password = text "password";
  note = text "note";
}

abbrev pub google_export : Writer → List Entry → Text
google_export w es = print_file (google_line w google_header ∷ map (google_line w) es)

-- What the device makes of an entry.
abbrev pub imported_entry : UrlParser → Entry → ImportedRecord
imported_entry url_parse e = record {
  origin = canonicalise_origin url_parse e.url;
  username = e.username;
  password = e.password;
  label = e.name;
  notes = e.note;
}

abbrev pub HasSecret : Entry → Type 0
HasSecret e = is_empty e.password && is_empty e.username ≡ false

google_lines-written : (w : Writer) (es : List Entry) → All LineIsWritten (map (google_line w) es)
google_lines-written w [] = tt
google_lines-written w (e ∷ es) = (
  (
    w.written e.name,
    (w.written e.url, (w.written e.username, (w.written e.password, (w.written e.note, tt)))),
  ),
  google_lines-written w es,
)

strip_bom-other : (b : ℕ) (s : Text) → (b == 0xef) ≡ false → strip_bom (b ∷ s) ≡ b ∷ s
unfolding strip_bom
strip_bom-other b [] h = refl
strip_bom-other b (c ∷ []) h = refl
strip_bom-other b (c ∷ d ∷ s) h = rw h

strip_bom-google_export :
    (w : Writer) (es : List Entry) → strip_bom (google_export w es) ≡ google_export w es
strip_bom-google_export w es = elim (Bool-cases (w.quotes (text "name"))) [
  | inl e ↦ rw e (strip_bom-other b'"' _ refl)
  | inr e ↦ rw e (strip_bom-other b'n' _ refl)
]

rows-nil : {r : List Text} {rs : List (List Text)} → parse_rows [] ≢ r ∷ rs
unfolding parse_rows
rows-nil h = cc

parse_export-parse_body :
    (url_parse : UrlParser) (s : Text) (header : List Text) (rows : List (List Text))
    → strip_bom s ≡ s
    → valid_utf8 s ≡ true
    → parse_rows s ≡ header ∷ rows
    → parse_export url_parse s ≡ parse_body url_parse header rows
unfolding parse_export
parse_export-parse_body url_parse [] header rows bare valid h = absurd (rows-nil h)
parse_export-parse_body url_parse (b ∷ s) header rows bare valid h = rw (bare, valid, h)

abbrev google_names : List Text
google_names = text "name" ∷ text "url" ∷ text "username" ∷ text "password" ∷ text "note" ∷ []

abbrev google_columns : Mapping
google_columns = record {
  name = some 0;
  url = some 1;
  username = some 2;
  password = some 3;
  notes = some 4;
}

google_detected : detect_source google_names ≡ some google
unfolding detect_source detect_lower to_lower trim text_eq
google_detected = refl

google_mapped : column_mapping google google_names ≡ google_columns
unfolding column_mapping to_lower trim text_eq
google_mapped = refl

collect-google :
    (url_parse : UrlParser) (w : Writer) (es : List Entry)
    → All HasSecret es
    → collect url_parse google_columns (map line_values (map (google_line w) es))
      ≡ map (imported_entry url_parse) es
unfolding collect build_record
collect-google url_parse w [] h = refl
collect-google url_parse w (e ∷ es) h = ground (arith, collect-google url_parse w es h.1)

parse_body-eq-ok :
    (url_parse : UrlParser) (header : List Text) (rows : List (List Text)) {source : Source}
    {r : ImportedRecord} {rs : List ImportedRecord}
    → detect_source header ≡ some source
    → collect url_parse (column_mapping source header) rows ≡ r ∷ rs
    → parse_body url_parse header rows ≡ ok (record { source = source; records = r ∷ rs })
unfolding parse_body
parse_body-eq-ok url_parse header rows d c = rw (d, parse_body) (rw (c, parse_body))

-- What a writer of CSV exports for Google Passwords, with any choice of the fields in quotes and
-- either end of a line, is recognised as such, and gives the entries in their order: each has its
-- user name, password, name and note byte for byte, and the canonical origin of its URL. The file
-- has to be UTF-8, with at least an entry, and each entry with a user name or a password.
pub parse_export-google_export :
    (url_parse : UrlParser) (w : Writer) (e : Entry) (es : List Entry)
    → valid_utf8 (google_export w (e ∷ es)) ≡ true
    → All HasSecret (e ∷ es)
    → parse_export url_parse (google_export w (e ∷ es))
      ≡ ok (record { source = google; records = map (imported_entry url_parse) (e ∷ es) })
parse_export-google_export url_parse w e es valid h =
    let lines = google_line w google_header ∷ map (google_line w) (e ∷ es) in
    let bare : Cell = record { quoted = false; value = [] } in
    let rows : parse_rows (google_export w (e ∷ es)) ≡ map line_values lines =
      ap parse_rows (sym (append-nil (google_export w (e ∷ es))))
      ∙ parse_rows-print_file lines bare [] (google_lines-written w (google_header ∷ e ∷ es))
          (inr refl) tt
      ∙ append-nil (map line_values lines) in
    parse_export-parse_body url_parse (google_export w (e ∷ es)) google_names
      (map line_values (map (google_line w) (e ∷ es))) (strip_bom-google_export w (e ∷ es)) valid
      rows
    ∙ parse_body-eq-ok url_parse google_names (map line_values (map (google_line w) (e ∷ es)))
        google_detected
        (ap (λ m. collect url_parse m (map line_values (map (google_line w) (e ∷ es))))
            google_mapped
          ∙ collect-google url_parse w (e ∷ es) h)
