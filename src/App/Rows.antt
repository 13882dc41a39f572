-- ===== src/App/Rows.antt =====
-- src/src/state.rs: the rows of the list of credentials, made from the keystore.
use passport_passwords.Base.{
  ℤ, ℕ, ◌-◌, ◌/◌, Text, text, List, [], ◌∷◌, ◌++◌, Bool, true, false, not, ◌&&◌, ◌||◌, Option, none,
  some, ◌==◌, ltb, is_empty, filter, map, if◌then◌else◌,
}
use passport_passwords.Origin.{decimal, decimal_fuel}
use passport_passwords.Record.{CredentialRecord}
use passport_passwords.Keystore.{Keystore}

pub record StoredCredential : Type 0 where
  pub uuid : Text
  pub label : Text
  pub origin : Text
  pub host : Text
  pub username : Text
  pub color : ℤ
  pub archived : Bool
  pub last_used : Text

-- `strip_prefix`
unfoldable pub strip_prefix : Text → Text → Option Text
strip_prefix [] s = some s
strip_prefix (p ∷ ps) [] = none
strip_prefix (p ∷ ps) (b ∷ s) = let rest = strip_prefix ps s in if p == b then rest else none

unfoldable pub host_from_origin : Text → Text
unfolding strip_prefix
host_from_origin origin = elim (strip_prefix (text "https://") origin) [
  | some host ↦ host
  | none ↦ elim (strip_prefix (text "http://") origin) [ some host ↦ host | none ↦ origin ]
]

-- One unit of time is spelled out, more are counted.
abbrev ago : ℕ → Text → Text → Text
unfolding decimal_fuel
ago n one many = if n == 1 then one else decimal n ++ many

-- `format_last_used`, at a reading `now` of the clock
unfoldable pub format_last_used : ℕ → ℕ → Text
unfolding decimal_fuel
format_last_used now secs =
    let elapsed = now - secs in
    if secs == 0
    then []
    else if ltb elapsed 30
    then text "Just now"
    else if ltb elapsed 60
    then decimal elapsed ++ text " seconds ago"
    else if ltb elapsed 3600
    then ago (elapsed / 60) (text "1 minute ago") (text " minutes ago")
    else if ltb elapsed 86400
    then ago (elapsed / 3600) (text "1 hour ago") (text " hours ago")
    else if ltb elapsed 604800
    then ago (elapsed / 86400) (text "Yesterday") (text " days ago")
    else if ltb elapsed 2592000
    then ago (elapsed / 604800) (text "1 week ago") (text " weeks ago")
    else ago (elapsed / 2592000) (text "1 month ago") (text " months ago")

-- `contains` of a text: it starts somewhere.
unfoldable pub contains : Text → Text → Bool
unfolding strip_prefix
contains [] needle = is_empty needle
contains (b ∷ s) needle = elim (strip_prefix needle (b ∷ s)) [
  | some _ ↦ true
  | none ↦ contains s needle
]

-- The parts of the standard library and of the crate `uuid` that the rows need: `to_lowercase` of
-- Unicode, and `Display for Uuid`.
pub record Display : Type 0 where
  pub to_lowercase : Text → Text
  pub show_uuid : ℕ → Text

module _ (d : Display) where
  unfoldable pub matches_search : CredentialRecord → Text → Bool
  unfolding contains
  matches_search r q =
      if is_empty q
      then true
      else contains (d.to_lowercase r.label) q
        || contains (d.to_lowercase r.username) q
        || contains (d.to_lowercase r.origin) q

  unfoldable pub record_to_view : ℕ → CredentialRecord → StoredCredential
  unfolding host_from_origin format_last_used
  record_to_view now r = record {
    uuid = d.show_uuid r.id;
    label = r.label;
    origin = r.origin;
    host = host_from_origin r.origin;
    username = r.username;
    color = r.color;
    archived = r.archived;
    last_used = format_last_used now r.last_used_at;
  }

  abbrev same_bool : Bool → Bool → Bool
  same_bool true b = b
  same_bool false b = not b

  -- The rows of `refresh_credentials`, at one reading of the clock
  unfoldable pub rows_of : Keystore → Bool → Text → ℕ → List StoredCredential
  unfolding matches_search record_to_view
  rows_of ks archive_mode q now =
      map (record_to_view now)
        (filter (λ r. same_bool r.archived archive_mode && matches_search r q) ks.records)
