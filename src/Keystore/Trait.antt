-- ===== src/Keystore/Trait.antt =====
-- `impl CredentialStore for Keystore` of logic/vaults-bridge-keystore/src/lib.rs.
pub mod Contract
pub mod Listing
use passport_passwords.Base.{
  ℕ, ◌+◌, Text, List, [], ◌∷◌, ◌++◌, Bool, false, not, ◌&&◌, Option, none, some, Result, ok,
  text_eq, text_lt, if◌then◌else◌, filter, find, map, update_first,
}
use passport_passwords.Base.Sort.{sort_by}
use passport_passwords.Record
use passport_passwords.Record.{CredentialRecord, Ambient}
use passport_passwords.Store.{
  CredentialMatch, CredentialSummary, ExistingCredential, absent, live, archived, StoreError,
  CredentialStore,
}
use passport_passwords.Keystore
use passport_passwords.Keystore.{Keystore, has_login, next_automatic_color}

-- A keystore and the place on the tapes that its next new record reads.
pub record KeystoreState : Type 0 where
  pub keystore : Keystore
  pub at : ℕ

-- `!r.archived && r.origin == origin`
abbrev pub live_at : Text → CredentialRecord → Bool
live_at origin r = not r.archived && text_eq r.origin origin

-- An insertion into a `BTreeSet`: in order, and nothing twice.
unfoldable pub set_insert : Text → List Text → List Text
set_insert x [] = x ∷ []
set_insert x (y ∷ ys) =
    if text_lt x y then x ∷ y ∷ ys else if text_eq x y then y ∷ ys else y ∷ set_insert x ys

unfoldable pub to_set : List Text → List Text
unfolding set_insert
to_set [] = []
to_set (x ∷ xs) = set_insert x (to_set xs)

-- `a <= b` on texts
abbrev pub text_le : Text → Text → Bool
text_le x y = not (text_lt y x)

-- `Vec::<String>::sort`
abbrev pub sort_texts : List Text → List Text
sort_texts = sort_by text_le

unfoldable pub list_origins : List CredentialRecord → List Text
unfolding to_set
list_origins records =
    sort_texts (to_set (map (λ r. r.origin) (filter (λ r. not r.archived) records)))

unfoldable pub list_credentials_for_origin : List CredentialRecord → Text → List CredentialSummary
list_credentials_for_origin records origin =
    map (λ r. record { username = r.username; label = r.label; last_used_at = r.last_used_at })
      (filter (live_at origin) records)

unfoldable pub find_by_origin : List CredentialRecord → Text → List CredentialMatch
find_by_origin records origin =
    map (λ r. record { username = r.username; password = r.password })
      (filter (live_at origin) records)

-- The state of the record that a probe finds.
abbrev pub state_of : Option CredentialRecord → ExistingCredential
state_of none = absent
state_of (some r) = if r.archived then archived else live

unfoldable pub probe : List CredentialRecord → Text → Text → ExistingCredential
probe records origin username = state_of (find (has_login origin username) records)

-- `if let Some(l) = label { rec.label = l }`
abbrev pub relabel : Option Text → Text → Text
relabel none old = old
relabel (some l) old = l

-- The assignments of `upsert` to the record that it finds.
abbrev pub refresh : Text → Option Text → ℕ → CredentialRecord → CredentialRecord
refresh password label now r = record r {
  password = password;
  label = relabel label r.label;
  archived = false;
  last_used_at = now;
}

module _ (env : Ambient) where
  -- The record that `upsert` adds: its clock is read once before, and once by `new`.
  unfoldable pub fresh_record :
      List CredentialRecord → Text → Text → Text → Option Text → ℕ → CredentialRecord
  unfolding Record.new
  fresh_record records origin username password label at =
      let made = Record.new env (at + 1) origin username password in
      record made {
        color = next_automatic_color records;
        label = relabel label made.label;
        last_used_at = env.now_secs at;
      }

  -- `upsert`: the records afterwards, and the place on the tapes.
  unfoldable pub upsert_records :
      List CredentialRecord → Text → Text → Text → Option Text → ℕ → List CredentialRecord × ℕ
  unfolding fresh_record
  upsert_records records origin username password label at =
      elim (find (has_login origin username) records) [
        | some _ ↦ (
          update_first (has_login origin username) (refresh password label (env.now_secs at))
              records,
          at + 1,
        )
        | none ↦ (records ++ fresh_record records origin username password label at ∷ [], at + 2)
      ]

  unfoldable pub upsert :
      KeystoreState
      → Text
      → Text
      → Text
      → Option Text
      → Result StoreError (Unit {0}) × KeystoreState
  unfolding upsert_records
  upsert s origin username password label =
      let (records, at) = upsert_records s.keystore.records origin username password label s.at in
      (ok tt, record { keystore = record s.keystore { records = records }; at = at })

  -- The keystore as the engine sees it.
  abbrev pub keystore_store : CredentialStore
  keystore_store = record {
    Store = KeystoreState;
    Snapshot = List CredentialRecord;
    list_origins = λ s. list_origins s.keystore.records;
    list_credentials_for_origin = λ s. list_credentials_for_origin s.keystore.records;
    find_by_origin = λ s. find_by_origin s.keystore.records;
    snapshot = λ s. Keystore.snapshot s.keystore;
    restore_snapshot =
        λ s records. record s { keystore = Keystore.restore_snapshot s.keystore records };
    probe = λ s. probe s.keystore.records;
    upsert = upsert;
  }
