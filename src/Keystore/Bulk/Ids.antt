-- ===== src/Keystore/Bulk/Ids.antt =====
-- `unique_record_id` finds an id that no record has, as long as `Uuid::new_v4` does not repeat
-- itself.
use passport_passwords.Base.{
  ℕ, zero, suc, ◌+◌, ◌≤◌, ◌≡◌, ◌≢◌, refl, ◌∙◌, List, [], ◌∷◌, ◌++◌, Bool, true, false, ◌==◌, ◌||◌,
  none, some, arith, length, remove_first, update_first, Bool-cases, Option-cases, inl, inr,
}
use passport_passwords.Record.{CredentialRecord, Ambient}
use passport_passwords.Keystore.{has_id, id_taken}
use passport_passwords.Keystore.Bulk.{draw_id, unique_record_id}

-- No two records have the same id.
abbrev pub DistinctIds : List CredentialRecord → Type 0
DistinctIds [] = Unit
DistinctIds (r ∷ rs) = (id_taken rs r.id ≡ false) × DistinctIds rs

-- The tape of UUIDs never repeats itself.
abbrev pub NeverRepeats : Ambient → Type 0
NeverRepeats env = (i j : ℕ) → env.uuid_v4 i ≡ env.uuid_v4 j → i ≡ j

length-remove_first :
    (rs : List CredentialRecord) (id : ℕ)
    → id_taken rs id ≡ true
    → suc (length (remove_first (has_id id) rs)) ≡ length rs
length-remove_first [] id h = cc
length-remove_first (r ∷ rs) id h = ground (arith, length-remove_first rs id)

id_taken-remove_first :
    (rs : List CredentialRecord) (id other : ℕ)
    → other ≢ id
    → id_taken (remove_first (has_id id) rs) other ≡ id_taken rs other
id_taken-remove_first [] id other h = refl
id_taken-remove_first (r ∷ rs) id other h = ground (arith, id_taken-remove_first rs id other h)

module _ (env : Ambient) where
  -- Only the drawn ids matter.
  draw_id_cong :
      (fuel : ℕ) (rs ss : List CredentialRecord) (at : ℕ)
      → ((i : ℕ) → at ≤ i → id_taken rs (env.uuid_v4 i) ≡ id_taken ss (env.uuid_v4 i))
      → draw_id env fuel rs at ≡ draw_id env fuel ss at
  unfolding draw_id
  draw_id_cong zero rs ss at h = refl
  draw_id_cong (suc fuel) rs ss at h =
      rw (h at (omega arith), draw_id_cong fuel rs ss (at + 1) (λ i le. h i (omega arith))) refl

  -- A draw that fails has tried more ids than there are records only if one came twice.
  draw_id-none :
      NeverRepeats env
      → (fuel : ℕ) (rs : List CredentialRecord) (at : ℕ) → draw_id env fuel rs at ≡ none
      → fuel ≤ length rs
  unfolding draw_id
  draw_id-none fresh zero rs at h = omega arith
  draw_id-none fresh (suc fuel) rs at h = elim (Bool-cases (id_taken rs (env.uuid_v4 at))) [
    | inr free ↦ absurd (ground arith)
    | inl taken ↦
        let rest = remove_first (has_id (env.uuid_v4 at)) rs in
        let same = draw_id_cong fuel rest rs (at + 1) λ i le.
          id_taken-remove_first rs (env.uuid_v4 at) (env.uuid_v4 i)
            λ e. (let twice = fresh i at e in omega arith) in
        let fewer = draw_id-none fresh fuel rest (at + 1) (same ∙ ground arith) in
        omega (arith, length-remove_first rs (env.uuid_v4 at) taken)
  ]

  draw_id-free :
      (fuel : ℕ) (rs : List CredentialRecord) (at : ℕ) {id at' : ℕ}
      → draw_id env fuel rs at ≡ some (id, at')
      → id_taken rs id ≡ false
  unfolding draw_id
  draw_id-free zero rs at h = cc
  draw_id-free (suc fuel) rs at {id} {at'} h =
      ground (arith, draw_id-free fuel rs (at + 1) {id = id} {at' = at'})

  -- The id that is found is free.
  pub unique_record_id_lem :
      NeverRepeats env
      → (rs : List CredentialRecord) (preferred at : ℕ)
      → (id at' : ℕ) × (unique_record_id env rs preferred at ≡ some (id, at'))
        × (id_taken rs id ≡ false)
  unfolding unique_record_id
  unique_record_id_lem fresh rs preferred at = elim (Bool-cases (id_taken rs preferred)) [
    | inr free ↦ (preferred, at, rw free refl, free)
    | inl taken ↦ elim (Option-cases (draw_id env (suc (length rs)) rs at)) [
      | inl out ↦ absurd (omega (arith, draw_id-none fresh (suc (length rs)) rs at out))
      | inr ((id, at'), e) ↦ (id, at', rw taken e, draw_id-free (suc (length rs)) rs at e)
    ]
  ]

id_taken-append :
    (rs : List CredentialRecord) (r : CredentialRecord) (id : ℕ)
    → id_taken (rs ++ r ∷ []) id ≡ (id_taken rs id || r.id == id)
id_taken-append [] r id = ground arith
id_taken-append (s ∷ rs) r id = ground (arith, id_taken-append rs r id)

pub DistinctIds-append :
    (rs : List CredentialRecord) (r : CredentialRecord)
    → DistinctIds rs
    → id_taken rs r.id ≡ false
    → DistinctIds (rs ++ r ∷ [])
DistinctIds-append [] r d free = (refl, tt)
DistinctIds-append (s ∷ rs) r d free =
    (ground (arith, id_taken-append rs r s.id), DistinctIds-append rs r d.1 (ground arith))

module _ (p : CredentialRecord → Bool) (f : CredentialRecord → CredentialRecord)
    (same : (r : CredentialRecord) → (f r).id ≡ r.id) where
  id_taken-update_first :
      (rs : List CredentialRecord) (id : ℕ) → id_taken (update_first p f rs) id ≡ id_taken rs id
  id_taken-update_first [] id = refl
  id_taken-update_first (r ∷ rs) id = ground (arith, id_taken-update_first rs id, same r)

  -- A change that keeps the id of a record keeps the ids distinct.
  pub DistinctIds-update_first :
      (rs : List CredentialRecord) → DistinctIds rs → DistinctIds (update_first p f rs)
  DistinctIds-update_first [] d = tt
  DistinctIds-update_first (r ∷ rs) d = elim (Bool-cases (p r)) [
    | inl first ↦ rw (first, DistinctIds) (ground (arith, same r), d.1)
    | inr later ↦
        rw (later, DistinctIds)
          (ground (arith, id_taken-update_first rs r.id), DistinctIds-update_first rs d.1)
  ]
