-- ===== src/Keystore/Trait/Contract.antt =====
-- The keystore keeps the contract of `CredentialStore`.
use passport_passwords.Base.{
  ℕ, ◌≡◌, ◌≢◌, refl, ◌∙◌, ap, Text, List, [], ◌∷◌, ◌++◌, Bool, true, false, not, ◌&&◌, Option, none,
  some, ok, text_eq, text_eq_iff, text_eq_refl, find, filter, map, update_first, ◌⊎◌, Option-cases,
  inl, inr, arith,
}
use passport_passwords.Base.Find.{
  find-update_first, filter-update_first_ne, find-append_none, find-append_false,
  find-update_first_ne, filter-append_false, find_sound,
}
use passport_passwords.Record.{CredentialRecord, Ambient}
use passport_passwords.Store.{CredentialMatch, live, IsCredentialStore}
use passport_passwords.Keystore.{has_login}
use passport_passwords.Keystore.Trait.{
  KeystoreState, live_at, find_by_origin, list_credentials_for_origin, probe, refresh, fresh_record,
  upsert_records, upsert, keystore_store, state_of,
}

abbrev by_username : Text → CredentialMatch → Bool
by_username u m = text_eq m.username u

-- A live record for a login.
abbrev live_login : Text → Text → CredentialRecord → Bool
live_login o u r = not r.archived && has_login o u r

-- A record of another login.
abbrev pub is_other : Text → Text → CredentialRecord → Bool
is_other o u r = not (has_login o u r)

abbrev match_of : Option CredentialRecord → Option CredentialMatch
match_of none = none
match_of (some r) = some (record { username = r.username; password = r.password })

-- The match chosen for a release is the first live record for the login.
chosen-find :
    (rs : List CredentialRecord) (o u : Text)
    → find (by_username u) (find_by_origin rs o) ≡ match_of (find (live_login o u) rs)
unfolding find_by_origin
chosen-find [] o u = refl
chosen-find (r ∷ rs) o u = ground (arith, chosen-find rs o u)

module _ (env : Ambient) (rs : List CredentialRecord) (o u p : Text) (l : Option Text)
    (at : ℕ) where
  abbrev after : List CredentialRecord
  after = (upsert_records env rs o u p l at).0

  after_found :
      {r : CredentialRecord}
      → find (has_login o u) rs ≡ some r
      → after ≡ update_first (has_login o u) (refresh p l (env.now_secs at)) rs
  unfolding upsert_records
  after_found e = ground arith

  after_absent : find (has_login o u) rs ≡ none → after ≡ rs ++ fresh_record env rs o u p l at ∷ []
  unfolding upsert_records
  after_absent e = ground arith

  has_login-fresh_record : has_login o u (fresh_record env rs o u p l at) ≡ true
  unfolding fresh_record
  has_login-fresh_record = ground (arith, text_eq_refl o, text_eq_refl u)

  -- Any search for live records of this login finds the written one first.
  find-after :
      (q : CredentialRecord → Bool)
      → ((x : CredentialRecord) → q x ≡ true → has_login o u x ≡ true)
      → ((x : CredentialRecord) → has_login o u x ≡ true → x.archived ≡ false → q x ≡ true)
      → (r : CredentialRecord) × (find q after ≡ some r)
        × (has_login o u r ≡ true)
        × (r.archived ≡ false)
        × (r.password ≡ p)
  unfolding fresh_record
  find-after q h k = elim (Option-cases (find (has_login o u) rs)) [
    | inl e ↦ (
      fresh_record env rs o u p l at,
      rw (after_absent e)
          (find-append_none (has_login o u) q rs _ h e (k _ has_login-fresh_record refl)),
      has_login-fresh_record,
      refl,
      refl,
    )
    | inr (r, e) ↦ (
      refresh p l (env.now_secs at) r,
      rw (after_found e) (find-update_first (has_login o u) q _ rs (λ x t. k _ t refl) h e),
      find_sound (has_login o u) rs e,
      refl,
      refl,
    )
  ]

  probe-upsert_records : probe after o u ≡ live
  unfolding probe
  probe-upsert_records =
      let (r, e, _, alive, _) = find-after (has_login o u) (λ x t. t) (λ x t _. t) in
      rw (e, state_of) (rw alive)

  chosen-upsert_records :
      find (by_username u) (find_by_origin after o) ≡ some (record { username = u; password = p })
  chosen-upsert_records =
      let (r, e, same, alive, password) =
        find-after (live_login o u) (λ x t. ground arith) (λ x t a. ground arith) in
      chosen-find after o u ∙ ground (arith, text_eq_iff r.username u)

  live-upsert_records_ne : (o' : Text) → o' ≢ o → filter (live_at o') after ≡ filter (live_at o') rs
  unfolding upsert_records
  live-upsert_records_ne o' ne = elim (Option-cases (find (has_login o u) rs)) [
    | inl e ↦ rw (after_absent e) (
        filter-append_false (live_at o') rs _
          (unfold fresh_record in ground (arith, text_eq_iff o o')))
    | inr (r, e) ↦ rw (after_found e) (
        filter-update_first_ne (has_login o u) (live_at o') _ rs
          (λ x t. ground (arith, text_eq_iff x.origin o, text_eq_iff x.origin o'))
          (λ x t. ground (arith, text_eq_iff x.origin o, text_eq_iff x.origin o')))
  ]

  find-upsert_records_ne : (o' : Text) → o' ≢ o → find_by_origin after o' ≡ find_by_origin rs o'
  unfolding find_by_origin
  find-upsert_records_ne o' ne = ap (map _) (live-upsert_records_ne o' ne)

  list-upsert_records_ne :
      (o' : Text)
      → o' ≢ o
      → list_credentials_for_origin after o' ≡ list_credentials_for_origin rs o'
  unfolding list_credentials_for_origin
  list-upsert_records_ne o' ne = ap (map _) (live-upsert_records_ne o' ne)

  has_login_ne :
      (o' u' : Text)
      → (o' ≢ o) ⊎ (u' ≢ u)
      → (x : CredentialRecord) → has_login o u x ≡ true
      → has_login o' u' x ≡ false
  has_login_ne o' u' ne x t = ground (
    arith,
    text_eq_iff x.origin o,
    text_eq_iff x.origin o',
    text_eq_iff x.username u,
    text_eq_iff x.username u',
  )

  probe-upsert_records_ne :
      (o' u' : Text) → (o' ≢ o) ⊎ (u' ≢ u) → probe after o' u' ≡ probe rs o' u'
  unfolding probe upsert_records
  probe-upsert_records_ne o' u' ne =
      let other = has_login_ne o' u' ne in
      ap state_of (elim (Option-cases (find (has_login o u) rs)) [
        | inl e ↦ rw (after_absent e) (
            find-append_false (has_login o' u') rs _
              (other (fresh_record env rs o u p l at) has_login-fresh_record))
        | inr (r, e) ↦
            rw (after_found e)
              (find-update_first_ne (has_login o u) (has_login o' u') _ rs other (λ x t. other x t))
      ])

  -- Every other record stays as it is, all of its fields included, and in its place.
  other-upsert_records : filter (is_other o u) after ≡ filter (is_other o u) rs
  unfolding upsert_records
  other-upsert_records = elim (Option-cases (find (has_login o u) rs)) [
    | inl e ↦
        rw (after_absent e)
          (filter-append_false (is_other o u) rs _ (ground (arith, has_login-fresh_record)))
    | inr (r, e) ↦ rw (after_found e) (
        filter-update_first_ne (has_login o u) (is_other o u) _ rs (λ x t. ground arith)
          (λ x t. ground arith))
  ]

records-upsert :
    (env : Ambient) (s : KeystoreState) (o u p : Text) (l : Option Text) {t : KeystoreState}
    → upsert env s o u p l ≡ (ok tt, t)
    → t.keystore.records ≡ (upsert_records env s.keystore.records o u p l s.at).0
unfolding upsert
records-upsert env s o u p l e = ground arith

pub keystore_store-IsCredentialStore : (env : Ambient) → IsCredentialStore (keystore_store env)
unfolding upsert
keystore_store-IsCredentialStore env = record {
  restore-snapshot = λ s t. record {
    origins = refl;
    summaries = λ o. refl;
    matches = λ o. refl;
    probes = λ o u. refl;
  };
  probe-upsert = λ s o u p l {t} e.
      rw (records-upsert env s o u p l e)
        (probe-upsert_records env s.keystore.records o u p l s.at);
  chosen-upsert = λ s o u p l {t} e.
      rw (records-upsert env s o u p l e)
        (chosen-upsert_records env s.keystore.records o u p l s.at);
  find-upsert_ne = λ s o u p l {t} e o' ne.
      rw (records-upsert env s o u p l e)
        (find-upsert_records_ne env s.keystore.records o u p l s.at o' ne);
  list-upsert_ne = λ s o u p l {t} e o' ne.
      rw (records-upsert env s o u p l e)
        (list-upsert_records_ne env s.keystore.records o u p l s.at o' ne);
  probe-upsert_ne = λ s o u p l {t} e o' u' ne.
      rw (records-upsert env s o u p l e)
        (probe-upsert_records_ne env s.keystore.records o u p l s.at o' u' ne);
}

-- A keystore is a store of credentials as the engine expects it: a snapshot comes back as the host
-- saw it, and after a write the login is live, a release with its username chooses the new
-- password, what a host sees of every other origin is as it was, and so is the state of every
-- other login. More than that: a write that succeeds leaves every record of another login as it
-- was, all of its fields included, and their order.
pub keystore_store_lem :
    (env : Ambient) (s t : KeystoreState) (o u p : Text) (l : Option Text)
    → upsert env s o u p l ≡ (ok tt, t)
    → IsCredentialStore (keystore_store env)
      × (filter (is_other o u) t.keystore.records ≡ filter (is_other o u) s.keystore.records)
keystore_store_lem env s t o u p l e = (
  keystore_store-IsCredentialStore env,
  rw (records-upsert env s o u p l e) (other-upsert_records env s.keystore.records o u p l s.at),
)
