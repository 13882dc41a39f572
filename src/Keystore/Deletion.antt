-- ===== src/Keystore/Deletion.antt =====
-- `delete_forever`: only an archived record goes, and nothing else does.
use passport_passwords.Base.{
  ℕ, ◌≡◌, ◌≢◌, ◌⊎◌, refl, List, [], ◌∷◌, true, false, ◌==◌, ==_iff, Option, none, some, ok, err,
  arith, length, find, remove_first, Bool-cases, inl, inr, suc,
}
use passport_passwords.Record.{CredentialRecord}
use passport_passwords.Keystore.{
  Keystore, not_found, not_archived, has_id, id_taken, get, delete_forever,
}
use passport_passwords.Keystore.Bulk.Ids.{DistinctIds}

find-none :
    (rs : List CredentialRecord) (id : ℕ) → id_taken rs id ≡ false → find (has_id id) rs ≡ none
find-none [] id h = refl
find-none (r ∷ rs) id h = ground (arith, find-none rs id)

find-remove_first :
    (rs : List CredentialRecord) (id : ℕ) {r : CredentialRecord}
    → DistinctIds rs
    → find (has_id id) rs ≡ some r
    → find (has_id id) (remove_first (has_id id) rs) ≡ none
find-remove_first [] id d e = cc
find-remove_first (s ∷ rs) id {r} d e =
    ground (arith, find-none rs id, find-remove_first rs id {r = r} d.1)

find-remove_first_ne :
    (rs : List CredentialRecord) (id other : ℕ)
    → other ≢ id
    → find (has_id other) (remove_first (has_id id) rs) ≡ find (has_id other) rs
find-remove_first_ne [] id other ne = refl
find-remove_first_ne (s ∷ rs) id other ne = ground (arith, find-remove_first_ne rs id other ne)

length-remove_first :
    (rs : List CredentialRecord) (id : ℕ) {r : CredentialRecord}
    → find (has_id id) rs ≡ some r
    → suc (length (remove_first (has_id id) rs)) ≡ length rs
length-remove_first [] id e = cc
length-remove_first (s ∷ rs) id {r} e = ground (arith, length-remove_first rs id {r = r})

-- What a deletion does, by the record that it finds.
abbrev Deletion : Keystore → ℕ → Option CredentialRecord → Type 0
Deletion ks id none = delete_forever ks id ≡ (err not_found, ks)
Deletion ks id (some r) = elim r.archived [
  | false ↦ delete_forever ks id ≡ (err not_archived, ks)
  | true ↦
      ((delete_forever ks id).0 ≡ ok tt)
      × (get (delete_forever ks id).1 id ≡ none)
      × ((other : ℕ) → (other ≡ id) ⊎ (get (delete_forever ks id).1 other ≡ get ks other))
      × (suc (length (delete_forever ks id).1.records) ≡ length ks.records)
]

elsewhere :
    (rs : List CredentialRecord) (id other : ℕ)
    → (other ≡ id) ⊎ (find (has_id other) (remove_first (has_id id) rs) ≡ find (has_id other) rs)
elsewhere rs id other = elim (Bool-cases (other == id)) [
  | inl same ↦ inl ((==_iff other id).0 same)
  | inr differs ↦ inr (find-remove_first_ne rs id other λ e. ground arith)
]

delete_forever-Deletion :
    (ks : Keystore) (id : ℕ) (o : Option CredentialRecord)
    → DistinctIds ks.records
    → find (has_id id) ks.records ≡ o
    → Deletion ks id o
unfolding delete_forever get
delete_forever-Deletion ks id none d e = rw (e, delete_forever) refl
delete_forever-Deletion ks id (some r) d e = elim (Bool-cases r.archived) [
  | inr shown ↦ rw shown (rw (e, delete_forever) (rw shown refl))
  | inl gone ↦
      let deleted : delete_forever ks id
          ≡ (ok tt, record ks { records = remove_first (has_id id) ks.records }) =
        rw (e, delete_forever) (rw gone refl) in
      rw gone (
        rw deleted (
          refl,
          find-remove_first ks.records id {r = r} d e,
          (λ other. elsewhere ks.records id other),
          length-remove_first ks.records id {r = r} e,
        ))
]

-- Where the ids are distinct: a deletion of an id that no record has, and one of a record that is
-- not archived, fail and change nothing; that of an archived record succeeds, its id is then gone,
-- every other id finds the record that it found, and there is one record less.
delete_forever_lem : (ks : Keystore) (id : ℕ) → DistinctIds ks.records → Deletion ks id (get ks id)
unfolding delete_forever get
delete_forever_lem ks id d = delete_forever-Deletion ks id (get ks id) d refl
