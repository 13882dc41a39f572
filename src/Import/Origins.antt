-- ===== src/Import/Origins.antt =====
-- The origin that the importer makes of a URL, beside `Origin::parse`.
use passport_passwords.Base.{
  Text, text, [], ◌∷◌, ◌++◌, ◌≡◌, ◌≢◌, ◌⊎◌, text_eq_iff, some, ok, arith, Result-cases,
  Option-cases, inl, inr,
}
use passport_passwords.Base.Trim.{trim}
use passport_passwords.Origin.{Url, UrlParser, origin_of, parse, to_ascii_lowercase, port_suffix}
use passport_passwords.Import.{canonicalise_trimmed, canonicalise_origin}

origin_of-eq-ok :
    (u : Url) {o : Text}
    → origin_of u ≡ ok o
    → (host : Text) × (u.host_str ≡ some host)
      × ((u.scheme ≡ text "http") ⊎ (u.scheme ≡ text "https"))
      × (o ≡ u.scheme ++ (text "://" ++ (to_ascii_lowercase host ++ port_suffix u.port)))
unfolding origin_of
origin_of-eq-ok u {o} h = elim (Option-cases u.host_str) [
  | inl e ↦ absurd (ground arith)
  | inr (host, e) ↦ (
    host,
    e,
    ground (arith, text_eq_iff u.scheme (text "http"), text_eq_iff u.scheme (text "https")),
    ground arith,
  )
]

module _ (url_parse : UrlParser) (refuses : (u : Url) → url_parse [] ≢ ok u)
    (lower : (s host : Text) (u : Url)
      → url_parse s ≡ ok u
      → (u.scheme ≡ text "http") ⊎ (u.scheme ≡ text "https")
      → u.host_str ≡ some host
      → to_ascii_lowercase host ≡ host) where
  parse-eq-ok :
      (s : Text) {o : Text}
      → parse url_parse s ≡ ok o
      → (u : Url) × (url_parse s ≡ ok u) × (origin_of u ≡ ok o)
  unfolding parse
  parse-eq-ok s h = elim (Result-cases (url_parse s)) [
    | inl (e, q) ↦ absurd (ground arith)
    | inr (u, q) ↦ (u, q, ground arith)
  ]

  canonicalise_trimmed-parse :
      (s : Text) {o : Text} → parse url_parse s ≡ ok o → canonicalise_trimmed url_parse s ≡ o
  unfolding canonicalise_trimmed
  canonicalise_trimmed-parse [] h = let (u, q, _) = parse-eq-ok [] h in absurd (refuses u q)
  canonicalise_trimmed-parse (b ∷ s) h =
      let (u, q, parsed) = parse-eq-ok (b ∷ s) h in
      let (host, named, web, e) = origin_of-eq-ok u parsed in
      ground (arith, lower (b ∷ s) host u q web named)

  -- Where `Origin::parse` takes a URL, the importer makes the same origin of it, white space
  -- around it dropped: for a parser of URLs that refuses the empty text and gives the host of a
  -- URL of http or https in lower case.
  pub canonicalise_origin-parse :
      (raw : Text) {o : Text}
      → parse url_parse (trim raw) ≡ ok o
      → canonicalise_origin url_parse raw ≡ o
  unfolding canonicalise_origin
  canonicalise_origin-parse raw h = canonicalise_trimmed-parse (trim raw) h
