-- ===== src/Import.antt =====
-- logic/vaults-bridge-import/src/lib.rs: an export of another password manager, read as CSV.
pub mod Csv
pub mod Header
pub mod Columns
pub mod Export
pub mod Origins
use passport_passwords.Base.{
  ℕ, Text, text, List, [], ◌∷◌, ◌++◌, Bool, not, ◌&&◌, Option, none, some, Result, ok, err, ◌==◌,
  is_empty, all, any, drop, get_elem?, text_eq, if◌then◌else◌,
}
use passport_passwords.Base.Utf8.{valid_utf8}
use passport_passwords.Base.Trim.{trim}
use passport_passwords.Origin.{UrlParser, port_suffix, decimal_fuel}
use passport_passwords.Import.Csv.{parse_rows}
use passport_passwords.Import.Header.{Source, Mapping, detect_source, column_mapping}

pub data ImportError : Type 0 where
  empty_file not_utf8 unrecognised_header no_rows : ImportError

pub record ImportedRecord : Type 0 where
  pub origin : Text
  pub username : Text
  pub password : Text
  pub label : Text
  pub notes : Text

pub record Imported : Type 0 where
  pub source : Source
  pub records : List ImportedRecord

unfoldable pub strip_bom : Text → Text
strip_bom [] = []
strip_bom (a ∷ []) = a ∷ []
strip_bom (a ∷ b ∷ []) = a ∷ b ∷ []
strip_bom (a ∷ b ∷ c ∷ s) = if a == 0xef && b == 0xbb && c == 0xbf then s else a ∷ b ∷ c ∷ s

-- The `https://` in front of a bare domain, the text itself otherwise
abbrev assume_https : Text → Text
assume_https raw =
    if any (λ b. b == b'.') raw && not (any (λ b. b == b' ') raw)
    then text "https://" ++ raw
    else raw

-- `canonicalise_origin`, on the trimmed text
unfoldable pub canonicalise_trimmed : UrlParser → Text → Text
unfolding decimal_fuel
canonicalise_trimmed url_parse raw = if is_empty raw then [] else elim (url_parse raw) [
  | err _ ↦ assume_https raw
  | ok u ↦ elim u.host_str [
    | none ↦ assume_https raw
    | some host ↦ u.scheme ++ (text "://" ++ (host ++ port_suffix u.port))
  ]
]

unfoldable pub canonicalise_origin : UrlParser → Text → Text
unfolding canonicalise_trimmed trim
canonicalise_origin url_parse raw = canonicalise_trimmed url_parse (trim raw)

-- The closure `pick`: an absent column or a short row gives the empty text.
abbrev pub pick : List Text → Option ℕ → Text
pick row none = []
pick row (some i) = elim (get_elem? row i) [ none ↦ [] | some s ↦ s ]

unfoldable pub build_record : UrlParser → List Text → Mapping → ImportedRecord
unfolding canonicalise_origin
build_record url_parse row m = record {
  origin = canonicalise_origin url_parse (pick row m.url);
  username = pick row m.username;
  password = pick row m.password;
  label = pick row m.name;
  notes = pick row m.notes;
}

-- The loop over the rows
unfoldable pub collect : UrlParser → Mapping → List (List Text) → List ImportedRecord
unfolding build_record
collect url_parse m [] = []
collect url_parse m (row ∷ rows) =
    let rest = collect url_parse m rows in
    let rec = build_record url_parse row m in
    if all is_empty row
    then rest
    else if is_empty rec.password && is_empty rec.username
    then rest
    else rec ∷ rest

-- `parse` behind the header row
unfoldable pub parse_body : UrlParser → List Text → List (List Text) → Result ImportError Imported
parse_body url_parse header rows = elim (detect_source header) [
  | none ↦ err unrecognised_header
  | some source ↦ elim (collect url_parse (column_mapping source header) rows) [
    | [] ↦ err no_rows
    | rec ∷ records ↦ ok (record { source = source; records = rec ∷ records })
  ]
]

-- `parse`
unfoldable pub parse_export : UrlParser → Text → Result ImportError Imported
parse_export url_parse [] = err empty_file
parse_export url_parse (b ∷ bytes) =
    let body = strip_bom (b ∷ bytes) in
    if valid_utf8 body
    then elim (parse_rows body) [
      | [] ↦ err empty_file
      | header ∷ rows ↦ parse_body url_parse header rows
    ]
    else err not_utf8
