-- ===== src/Origin/Domain/Suffixes.antt =====
-- The second levels that the registries of the countries delegate, and the hosting services whose
-- customers are sites of their own: what the table of origin.rs is to hold.
use mathlib.Core.List.{Mem}
use passport_passwords.Base.{
  Option, none, some, Bool, true, false, all, text_eq, List, [], ◌∷◌, ◌++◌, map, Text, text, ◌≡◌,
  refl,
}
use passport_passwords.Base.Find.{all-Mem}
use passport_passwords.Origin.Domain.{
  multi_label_suffixes, try_suffixes, try_suffix, strip_suffix, last_part,
}

-- The names of a registry, in front of its top level.
abbrev under : Text → List Text → List Text
under top names = map (λ name. name ++ b'.' ∷ top) names

abbrev pub delegated : List Text
delegated =
    under (text "uk") (
      text "co"
      ∷ text "org"
      ∷ text "net"
      ∷ text "ac"
      ∷ text "gov"
      ∷ text "me"
      ∷ text "ltd"
      ∷ text "plc"
      ∷ text "nhs"
      ∷ text "sch"
      ∷ [])
    ++ under (text "au") (
        text "com"
        ∷ text "net"
        ∷ text "org"
        ∷ text "edu"
        ∷ text "gov"
        ∷ text "id"
        ∷ text "asn"
        ∷ [])
    ++ under (text "nz") (text "co" ∷ text "net" ∷ text "org" ∷ text "govt" ∷ text "ac" ∷ [])
    ++ under (text "jp")
        (text "co" ∷ text "ne" ∷ text "or" ∷ text "ac" ∷ text "ad" ∷ text "go" ∷ text "lg" ∷ [])
    ++ under (text "kr") (text "co" ∷ text "ne" ∷ text "or" ∷ text "go" ∷ text "ac" ∷ [])
    ++ under (text "cn") (text "com" ∷ text "net" ∷ text "org" ∷ text "gov" ∷ text "edu" ∷ [])
    ++ under (text "hk") (text "com" ∷ text "net" ∷ text "org" ∷ text "edu" ∷ text "gov" ∷ [])
    ++ under (text "tw") (text "com" ∷ [])
    ++ under (text "sg") (text "com" ∷ [])
    ++ under (text "ph") (text "com" ∷ [])
    ++ under (text "my") (text "com" ∷ [])
    ++ under (text "vn") (text "com" ∷ [])
    ++ under (text "th") (text "co" ∷ [])
    ++ under (text "id") (text "co" ∷ [])
    ++ under (text "in") (text "co" ∷ text "net" ∷ text "org" ∷ text "ac" ∷ text "gov" ∷ [])
    ++ under (text "br") (text "com" ∷ text "net" ∷ text "org" ∷ text "gov" ∷ text "edu" ∷ [])
    ++ under (text "mx") (text "com" ∷ [])
    ++ under (text "za") (text "co" ∷ [])
    ++ under (text "il") (text "co" ∷ [])
    ++ under (text "tr") (text "com" ∷ [])
    ++ under (text "ar") (text "com" ∷ [])
    ++ under (text "eg") (text "com" ∷ [])
    ++ under (text "sa") (text "com" ∷ [])
    ++ under (text "io") (text "github" ∷ text "gitlab" ∷ [])
    ++ under (text "dev") (text "pages" ∷ [])
    ++ under (text "app") (text "vercel" ∷ text "netlify" ∷ [])

-- The table of the source holds them and no others.
pub multi_label_suffixes-delegated : multi_label_suffixes ≡ delegated
multi_label_suffixes-delegated = refl

abbrev is_refused : Option (Option Text) → Bool
is_refused none = false
is_refused (some none) = true
is_refused (some (some _)) = false

is_refused-eq-true : (found : Option (Option Text)) → is_refused found ≡ true → found ≡ some none
is_refused-eq-true none h = cc
is_refused-eq-true (some none) h = refl
is_refused-eq-true (some (some _)) h = cc

delegated_refused : all (λ s. is_refused (try_suffixes s delegated)) delegated ≡ true
unfolding try_suffixes try_suffix strip_suffix last_part text_eq
delegated_refused = refl

-- A suffix of the table has no registrable domain.
pub try_suffixes-delegated :
    (s : Text) → Mem s delegated → try_suffixes s multi_label_suffixes ≡ some none
try_suffixes-delegated s m =
    is_refused-eq-true (try_suffixes s delegated)
      (all-Mem (λ s. is_refused (try_suffixes s delegated)) delegated m delegated_refused)
