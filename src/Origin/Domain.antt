-- ===== src/Origin/Domain.antt =====
-- `registrable_domain` and `origin_match_key` of logic/vaults-bridge-core/src/origin.rs. The test
-- `host.parse::<std::net::IpAddr>().is_ok()` is the parameter `is_ip_addr`.
pub mod Label
pub mod Parts
pub mod Suffixes
use passport_passwords.Base.{
  ℕ, ◌+◌, ◌-◌, Text, text, List, [], ◌∷◌, ◌++◌, Bool, true, false, not, ◌&&◌, ◌||◌, Option, none,
  some, Result, ok, err, ◌==◌, leb, if◌then◌else◌, length, take, drop, any, text_eq, is_empty,
}
use passport_passwords.Origin.{UrlParser}

-- `MULTI_LABEL_SUFFIXES`
abbrev pub multi_label_suffixes : List Text
multi_label_suffixes =
    text "co.uk"
    ∷ text "org.uk"
    ∷ text "net.uk"
    ∷ text "ac.uk"
    ∷ text "gov.uk"
    ∷ text "me.uk"
    ∷ text "ltd.uk"
    ∷ text "plc.uk"
    ∷ text "nhs.uk"
    ∷ text "sch.uk"
    ∷ text "com.au"
    ∷ text "net.au"
    ∷ text "org.au"
    ∷ text "edu.au"
    ∷ text "gov.au"
    ∷ text "id.au"
    ∷ text "asn.au"
    ∷ text "co.nz"
    ∷ text "net.nz"
    ∷ text "org.nz"
    ∷ text "govt.nz"
    ∷ text "ac.nz"
    ∷ text "co.jp"
    ∷ text "ne.jp"
    ∷ text "or.jp"
    ∷ text "ac.jp"
    ∷ text "ad.jp"
    ∷ text "go.jp"
    ∷ text "lg.jp"
    ∷ text "co.kr"
    ∷ text "ne.kr"
    ∷ text "or.kr"
    ∷ text "go.kr"
    ∷ text "ac.kr"
    ∷ text "com.cn"
    ∷ text "net.cn"
    ∷ text "org.cn"
    ∷ text "gov.cn"
    ∷ text "edu.cn"
    ∷ text "com.hk"
    ∷ text "net.hk"
    ∷ text "org.hk"
    ∷ text "edu.hk"
    ∷ text "gov.hk"
    ∷ text "com.tw"
    ∷ text "com.sg"
    ∷ text "com.ph"
    ∷ text "com.my"
    ∷ text "com.vn"
    ∷ text "co.th"
    ∷ text "co.id"
    ∷ text "co.in"
    ∷ text "net.in"
    ∷ text "org.in"
    ∷ text "ac.in"
    ∷ text "gov.in"
    ∷ text "com.br"
    ∷ text "net.br"
    ∷ text "org.br"
    ∷ text "gov.br"
    ∷ text "edu.br"
    ∷ text "com.mx"
    ∷ text "co.za"
    ∷ text "co.il"
    ∷ text "com.tr"
    ∷ text "com.ar"
    ∷ text "com.eg"
    ∷ text "com.sa"
    ∷ text "github.io"
    ∷ text "gitlab.io"
    ∷ text "pages.dev"
    ∷ text "vercel.app"
    ∷ text "netlify.app"
    ∷ []

-- `s.strip_suffix(suffix)`
unfoldable pub strip_suffix : Text → Text → Option Text
strip_suffix s suffix =
    let n = length s - length suffix in
    if leb (length suffix) (length s) && text_eq (drop n s) suffix then some (take n s) else none

abbrev pub has_dot : Text → Bool
has_dot s = any (λ b. b == b'.') s

-- `s.rsplit('.').next()`
unfoldable pub last_part : Text → Text
last_part [] = []
last_part (b ∷ s) =
    let rest = last_part s in if has_dot s then rest else if b == b'.' then s else b ∷ s

-- What stands before the last dot.
unfoldable pub before_last : Text → Option Text
before_last [] = none
before_last (b ∷ s) = elim (before_last s) [
  | some t ↦ some (b ∷ t)
  | none ↦ if b == b'.' then some [] else none
]

abbrev pub starts_with_bracket : Text → Bool
starts_with_bracket [] = false
starts_with_bracket (b ∷ _) = b == b'['

-- One round of the loop over the suffixes; `none` goes on with the next.
unfoldable pub try_suffix : Text → Text → Option (Option Text)
unfolding strip_suffix last_part
try_suffix host suffix = elim (strip_suffix host suffix) [
  | none ↦ none
  | some prefix ↦ if is_empty prefix then some none else elim (strip_suffix prefix (text ".")) [
    | none ↦ none
    | some rest ↦
        let last = last_part rest in
        if is_empty last
        then none
        else some (some (drop (length host - length last - 1 - length suffix) host))
  ]
]

unfoldable pub try_suffixes : Text → List Text → Option (Option Text)
unfolding try_suffix
try_suffixes host [] = none
try_suffixes host (suffix ∷ suffixes) =
    let rest = try_suffixes host suffixes in
    elim (try_suffix host suffix) [ some found ↦ some found | none ↦ rest ]

-- What follows the loop: the last two labels.
unfoldable pub last_two : Text → Option Text
unfolding last_part before_last
last_two host = elim (before_last host) [
  | none ↦ none
  | some before ↦
      let tld = last_part host in
      let sld = last_part before in
      if is_empty tld || is_empty sld
      then none
      else some (drop (length host - length tld - 1 - length sld) host)
]

module _ (is_ip_addr : Text → Bool) where
  -- `registrable_domain`
  unfoldable pub registrable_domain : Text → Option Text
  unfolding try_suffixes last_two
  registrable_domain host =
      if is_empty host || starts_with_bracket host || is_ip_addr host
      then none
      else elim (try_suffixes host multi_label_suffixes) [
        | some found ↦ found
        | none ↦ last_two host
      ]

  abbrev pub host_or_empty : Option Text → Text
  host_or_empty none = []
  host_or_empty (some host) = host

  -- `origin_match_key`
  unfoldable pub origin_match_key : UrlParser → Text → Text
  unfolding registrable_domain
  origin_match_key url_parse canonical_origin = elim (url_parse canonical_origin) [
    | err _ ↦ canonical_origin
    | ok url ↦ elim (registrable_domain (host_or_empty url.host_str)) [
      | some domain ↦ url.scheme ++ (text "://" ++ domain)
      | none ↦ canonical_origin
    ]
  ]
