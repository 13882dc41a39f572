-- ===== src/Origin.antt =====
-- logic/vaults-bridge-core/src/origin.rs: strict origins, over the parser of the `url` crate.
pub mod Domain
use passport_passwords.Base.{
  ℕ, zero, suc, ◌+◌, ◌/◌, ◌%◌, Text, text, [], ◌∷◌, ◌++◌, map, Bool, true, false, not, ◌&&◌, ◌||◌,
  Option, none, some, Result, ok, err, leb, ltb, if◌then◌else◌, text_eq, is_empty,
}

-- What the source reads of a `url::Url`.
pub record Url : Type 0 where
  pub scheme : Text
  pub username : Text
  pub password : Option Text
  pub host_str : Option Text
  pub port : Option ℕ

-- `Url::parse`; its error is shown as a text.
abbrev pub UrlParser : Type 0
UrlParser = Text → Result Text Url

pub data OriginError : Type 0 where
  invalid_url unsupported_scheme : Text → OriginError
  missing_host user_info_not_allowed : OriginError

-- `to_ascii_lowercase`, on one byte and on a text
unfoldable pub to_lower : ℕ → ℕ
to_lower c = if leb b'A' c && leb c b'Z' then c + 32 else c

abbrev pub to_ascii_lowercase : Text → Text
to_ascii_lowercase = map to_lower

-- The decimal digits of a number, with as much fuel as it has digits or more.
unfoldable pub decimal_fuel : ℕ → ℕ → Text
decimal_fuel zero n = []
decimal_fuel (suc fuel) n =
    let rest = decimal_fuel fuel (n / 10) in
    if ltb n 10 then (b'0' + n) ∷ [] else rest ++ (b'0' + n % 10) ∷ []

abbrev pub decimal : ℕ → Text
decimal n = decimal_fuel (suc n) n

-- `:port`, where there is one
abbrev pub port_suffix : Option ℕ → Text
port_suffix none = []
port_suffix (some port) = b':' ∷ decimal port

abbrev pub is_some {ℓ} : {A : Type ℓ} → Option A → Bool
is_some none = false
is_some (some _) = true

-- The tests and the text of `Origin::parse`, on the parsed URL.
unfoldable pub origin_of : Url → Result OriginError Text
unfolding to_lower decimal_fuel
origin_of url =
    if not (text_eq url.scheme (text "http")) && not (text_eq url.scheme (text "https"))
    then err (unsupported_scheme url.scheme)
    else if not (is_empty url.username) || is_some url.password
    then err user_info_not_allowed
    else elim url.host_str [
      | none ↦ err missing_host
      | some host ↦
          ok (url.scheme ++ (text "://" ++ (to_ascii_lowercase host ++ port_suffix url.port)))
    ]

-- `Origin::parse`, as the text of the origin
unfoldable pub parse : UrlParser → Text → Result OriginError Text
unfolding origin_of
parse url_parse input = elim (url_parse input) [
  | err e ↦ err (invalid_url e)
  | ok url ↦ origin_of url
]
