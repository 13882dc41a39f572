-- ===== src/Store.antt =====
-- logic/vaults-bridge-core/src/store.rs: what the engine needs of a store of credentials. The
-- trait is an interface of operations, with the contract that its documentation states.
use passport_passwords.Base.{
  ℕ, String, Text, List, Option, some, ◌≡◌, ◌≢◌, ◌⊎◌, Result, ok, text_eq, find,
}

pub record CredentialMatch : Type 0 where
  pub username : Text
  pub password : Text

pub record CredentialSummary : Type 0 where
  pub username : Text
  pub label : Text
  pub last_used_at : ℕ

pub data ExistingCredential : Type 0 where
  absent live archived : ExistingCredential

pub data StoreError : Type 0 where
  backend : String → StoreError

pub record CredentialStore : Type 1 where
  pub Store : Type 0
  pub Snapshot : Type 0
  pub list_origins : Store → List Text
  pub list_credentials_for_origin : Store → Text → List CredentialSummary
  pub find_by_origin : Store → Text → List CredentialMatch
  pub snapshot : Store → Snapshot
  pub restore_snapshot : Store → Snapshot → Store
  pub probe : Store → Text → Text → ExistingCredential
  -- origin, username, password, label
  pub upsert : Store → Text → Text → Text → Option Text → Result StoreError (Unit {0}) × Store

-- What a host can see of two stores is the same.
pub record SameView (c : CredentialStore) (s t : c.Store) : Type 0 where
  pub origins : c.list_origins s ≡ c.list_origins t
  pub summaries : (o : Text) → c.list_credentials_for_origin s o ≡ c.list_credentials_for_origin t o
  pub matches : (o : Text) → c.find_by_origin s o ≡ c.find_by_origin t o
  pub probes : (o u : Text) → c.probe s o u ≡ c.probe t o u

-- The match that a release with the username `u` chooses.
abbrev pub chosen : (c : CredentialStore) → c.Store → Text → Text → Option CredentialMatch
chosen c s o u = find (λ m. text_eq m.username u) (c.find_by_origin s o)

pub record IsCredentialStore (c : CredentialStore) : Type 0 where
  pub restore-snapshot : (s t : c.Store) → SameView c (c.restore_snapshot t (c.snapshot s)) s
  pub probe-upsert :
      (s : c.Store) (o u p : Text) (l : Option Text) {t : c.Store}
      → c.upsert s o u p l ≡ (ok tt, t)
      → c.probe t o u ≡ live
  pub chosen-upsert :
      (s : c.Store) (o u p : Text) (l : Option Text) {t : c.Store}
      → c.upsert s o u p l ≡ (ok tt, t)
      → chosen c t o u ≡ some (record { username = u; password = p })
  pub find-upsert_ne :
      (s : c.Store) (o u p : Text) (l : Option Text) {t : c.Store}
      → c.upsert s o u p l ≡ (ok tt, t)
      → (o' : Text) → o' ≢ o
      → c.find_by_origin t o' ≡ c.find_by_origin s o'
  pub list-upsert_ne :
      (s : c.Store) (o u p : Text) (l : Option Text) {t : c.Store}
      → c.upsert s o u p l ≡ (ok tt, t)
      → (o' : Text) → o' ≢ o
      → c.list_credentials_for_origin t o' ≡ c.list_credentials_for_origin s o'
  pub probe-upsert_ne :
      (s : c.Store) (o u p : Text) (l : Option Text) {t : c.Store}
      → c.upsert s o u p l ≡ (ok tt, t)
      → (o' u' : Text) → (o' ≢ o) ⊎ (u' ≢ u)
      → c.probe t o' u' ≡ c.probe s o' u'
