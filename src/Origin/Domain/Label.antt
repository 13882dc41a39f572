-- ===== src/Origin/Domain/Label.antt =====
-- A registrable domain is one label and a public suffix, at the end of the host.
use mathlib.Core.List.{Mem}
use mathlib.Core.Logic.Or
use passport_passwords.Base.{◌≡◌, ◌≢◌, ◌⊎◌, Text, text, List, [], ◌∷◌, ◌++◌, false}
use passport_passwords.Origin.Domain.{has_dot}

-- A label in front of a suffix, at the end of a host.
pub record Labelled (host suffix : Text) : Type 0 where
  pub front : Text
  pub label : Text
  pub whole : host ≡ front ++ (label ++ b'.' ∷ suffix)
  pub label_ne_nil : label ≢ []
  pub no_dot : has_dot label ≡ false

-- The suffix that a host is cut at: one of the list, or the top level, where the host has no label
-- in front of any suffix of the list.
abbrev pub IsSuffixOf : List Text → Text → Text → Type 0
IsSuffixOf suffixes host suffix =
    Mem suffix suffixes
    ⊎ ((suffix ≢ []) × (has_dot suffix ≡ false) × ((s : Text) → Mem s suffixes → ¬ Labelled host s))

-- A label without a dot, and such a suffix, at the end of a host, from its start or from a dot on.
pub record IsDomainOf (suffixes : List Text) (host domain : Text) : Type 0 where
  pub front : Text
  pub label : Text
  pub suffix : Text
  pub whole : host ≡ front ++ domain
  pub parts : domain ≡ label ++ b'.' ∷ suffix
  pub label_ne_nil : label ≢ []
  pub no_dot : has_dot label ≡ false
  pub front_ends : (front ≡ []) ⊎ ((f : Text) × (front ≡ f ++ text "."))
  pub longest : IsSuffixOf suffixes host suffix
