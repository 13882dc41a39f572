-- ===== src/Engine/Commit.antt =====
-- `commit_store_mutation`: what a mutation that is reported has done.
use passport_passwords.Base.{◌≡◌, ◌≢◌, ◌⊎◌, sym, ◌∙◌, ap, Text, Bool, true, Option, some, ok, arith}
use passport_passwords.Store.{CredentialStore, IsCredentialStore, live, chosen}
use passport_passwords.Engine.{World, Engine, commit_upsert}

module _ {C : CredentialStore} (E : Engine C) where
  abbrev W : Type 0
  W = World C.Store E.Outer

  -- The hook that persists the store leaves it as it is.
  abbrev pub HookKeepsStore : Type 0
  HookKeepsStore = (w : W) → (E.on_write w).1.store ≡ w.store

  pub commit_upsert-eq-ok :
      (o u p : Text) (l : Option Text) (w : W) {w' : W}
      → commit_upsert E o u p l w ≡ (ok tt, w')
      → (s : C.Store) × (C.upsert w.store o u p l ≡ (ok tt, s))
        × (E.on_write (record w { store = s }) ≡ (true, w'))
  unfolding commit_upsert
  commit_upsert-eq-ok o u p l w h = ((C.upsert w.store o u p l).1, ground arith, ground arith)

  -- What a reported write has done: the login is live with the new password, and what a host
  -- sees of every other origin, and the state of every other login, are as they were.
  pub record Written (o u p : Text) (before after : C.Store) : Type 0 where
    pub is_live : C.probe after o u ≡ live
    pub is_chosen : chosen C after o u ≡ some (record { username = u; password = p })
    pub elsewhere : (o' : Text) → o' ≢ o → C.find_by_origin after o' ≡ C.find_by_origin before o'
    pub listed_elsewhere :
        (o' : Text)
        → o' ≢ o
        → C.list_credentials_for_origin after o' ≡ C.list_credentials_for_origin before o'
    pub others : (o' u' : Text) → (o' ≢ o) ⊎ (u' ≢ u) → C.probe after o' u' ≡ C.probe before o' u'

  pub commit_upsert-Written :
      IsCredentialStore C
      → HookKeepsStore
      → (o u p : Text) (l : Option Text) (w : W) {w' : W} → commit_upsert E o u p l w ≡ (ok tt, w')
      → Written o u p w.store w'.store
  commit_upsert-Written laws keeps o u p l w {w'} h =
      let (s, upserted, persisted) = commit_upsert-eq-ok o u p l w h in
      let same : w'.store ≡ s =
        ap (λ (r : Bool × W). r.1.store) (sym persisted) ∙ keeps (record w { store = s }) in
      rw same (record {
        is_live = laws.probe-upsert w.store o u p l upserted;
        is_chosen = laws.chosen-upsert w.store o u p l upserted;
        elsewhere = λ o'. laws.find-upsert_ne w.store o u p l upserted o';
        listed_elsewhere = λ o'. laws.list-upsert_ne w.store o u p l upserted o';
        others = λ o' u'. laws.probe-upsert_ne w.store o u p l upserted o' u';
      })
