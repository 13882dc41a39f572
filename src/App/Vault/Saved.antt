-- ===== src/App/Vault/Saved.antt =====
-- The sizes of what the forms put into the keystore.
use passport_passwords.Base.{
  ℤ, ℕ, ◌+◌, Text, List, [], ◌∷◌, ◌++◌, Bool, false, some, ◌≡◌, Result-cases, Option-cases,
  Bool-cases, inl, inr, arith, is_empty, find, update_first, if◌then◌else◌,
}
use passport_passwords.Origin.{parse}
use passport_passwords.Record
use passport_passwords.Record.{CredentialRecord}
use passport_passwords.Keystore.{Keystore, snapshot, add, edit, get, modify, has_id}
use passport_passwords.App.Disk.{persist_keystore}
use passport_passwords.App.Fields.{validate_new_fields, validate_edit_fields}
use passport_passwords.App.Fields.Caps.{Fits, validate_edit_fields-Fits, validate_new_fields-Fits}
use passport_passwords.App.Vault.{
  Platform, App, refresh_credentials, set_editing_error, finish_editing, commit, save_canonical,
  on_save_new, kept_password, save_edit, on_edit_save,
}
use passport_passwords.App.Vault.Capped.{All}

-- A record whose label, user name and password are within the caps of the engine, with a user name
-- and a password.
abbrev pub IsCapped : CredentialRecord → Type 0
IsCapped r = Fits r.label r.username r.password × (is_empty r.password ≡ false)

All-append {ℓ κ} :
    {A : Type ℓ} (P : A → Type κ) (xs : List A) (x : A) → All P xs → P x → All P (xs ++ x ∷ [])
All-append P [] x h k = (k, tt)
All-append P (y ∷ xs) x h k = (h.0, All-append P xs x h.1 k)

All-find {ℓ κ} :
    {A : Type ℓ} (P : A → Type κ) (q : A → Bool) (xs : List A) {x : A}
    → All P xs
    → find q xs ≡ some x
    → P x
All-find P q [] h e = absurd (cc)
All-find P q (y ∷ xs) {x} h e = elim (Bool-cases (q y)) [
  | inl t ↦ let same : y ≡ x = ground arith in rw same at (h.0)
  | inr f ↦ All-find P q xs h.1 (ground arith)
]

-- An update of the first match to something that has the property.
All-update_first {ℓ κ} :
    {A : Type ℓ} (P : A → Type κ) (q : A → Bool) (f : A → A) (xs : List A)
    → ((x : A) → P x → P (f x))
    → All P xs
    → All P (update_first q f xs)
All-update_first P q f [] h k = tt
All-update_first P q f (x ∷ xs) h k = elim (Bool-cases (q x)) [
  | inl t ↦ rw t (h x k.0, k.1)
  | inr e ↦ rw e (k.0, All-update_first P q f xs h k.1)
]

module _ (p : Platform) where
  abbrev pub Capped : App p → Type 0
  Capped a = All IsCapped a.keystore.records

  commit-Capped :
      (ks : Keystore) (a : App p)
      → All IsCapped ks.records
      → Capped a
      → Capped (commit p (snapshot a.keystore) ks a).1
  unfolding commit
  commit-Capped ks a h k =
      let (done, disk, rng) = persist_keystore p.crypto p.json p.store ks a.disk a.rng in
      elim (Bool-cases done) [ inl e ↦ rw e h | inr e ↦ rw e k ]

  screen-Capped : (a b : App p) → a.keystore ≡ b.keystore → Capped b → Capped a
  screen-Capped a b e h = rw e h

  refresh-Capped : (a : App p) → Capped a → Capped (refresh_credentials p a)
  unfolding refresh_credentials
  refresh-Capped a h = screen-Capped (refresh_credentials p a) a (ground arith) h

  set_editing_error-Capped :
      (field m : Text) (a : App p) → Capped a → Capped (set_editing_error p field m a)
  unfolding set_editing_error
  set_editing_error-Capped field m a h =
      screen-Capped (set_editing_error p field m a) a (ground arith) h

  finish_editing-Capped : (a : App p) → Capped a → Capped (finish_editing p a)
  unfolding finish_editing
  finish_editing-Capped a h =
      screen-Capped (finish_editing p a) (refresh_credentials p a) (ground arith)
        (refresh-Capped a h)

  save_canonical-Capped :
      (o u w l : Text) (color : ℤ) (a : App p)
      → Fits l u w
      → is_empty w ≡ false
      → Capped a
      → Capped (save_canonical p o u w l color a)
  unfolding save_canonical add Record.new
  save_canonical-Capped o u w l color a fits given h =
      let rec = record (Record.new p.env a.at o u w) { label = l; color = color } in
      let ks = add a.keystore rec in
      let start : App p = record a { at = a.at + 1 } in
      let (done, b) = commit p (snapshot a.keystore) ks start in
      let kept : Capped b =
        commit-Capped ks start (All-append IsCapped a.keystore.records rec h (fits, given)) h in
      elim (Bool-cases done) [
        | inl e ↦ rw e (finish_editing-Capped b kept)
        | inr e ↦ rw e (set_editing_error-Capped _ _ b kept)
      ]

  on_save_new-Capped :
      (o u w l : Text) (color : ℤ) (a : App p) → Capped a → Capped (on_save_new p o u w l color a)
  unfolding on_save_new
  on_save_new-Capped o u w l color a h =
      elim (Result-cases (validate_new_fields p.url_parse o u w l)) [
        | inl (f, e) ↦ rw (e, on_save_new) (set_editing_error-Capped _ _ a h)
        | inr (tt, e) ↦
            let (fits, given) = validate_new_fields-Fits p.url_parse o u w l e in
            elim (Result-cases (parse p.url_parse o)) [
              | inl (f, g) ↦ rw (e, g, on_save_new) (set_editing_error-Capped _ _ a h)
              | inr (c, g) ↦
                  rw (e, g, on_save_new) (save_canonical-Capped c u w l color a fits given h)
            ]
      ]

  -- The password that an edit stores
  edited-Fits :
      (id : ℕ) (l u w : Text) (a : App p) {r : CredentialRecord}
      → Fits l u w
      → Capped a
      → get a.keystore id ≡ some r
      → let new = if is_empty w then kept_password p a.keystore id else w in
        Fits l u new × (is_empty new ≡ false)
  unfolding get
  edited-Fits id l u w a {r} fits h found = elim (Bool-cases (is_empty w)) [
    | inr e ↦ rw e (fits, e)
    | inl e ↦
        let old = All-find IsCapped (has_id id) a.keystore.records {x = r} h found in
        let kept : (if is_empty w then kept_password p a.keystore id else w) ≡ r.password =
          ground arith in
        rw kept (
          record {
            label_cap = fits.label_cap;
            username_cap = fits.username_cap;
            password_cap = old.0.password_cap;
            username_given = fits.username_given;
          },
          old.1,
        )
  ]

  modify-Capped :
      (ks : Keystore) (id : ℕ) (f : CredentialRecord → CredentialRecord)
      → ((r : CredentialRecord)
          → find (has_id id) ks.records ≡ some r
          → (x : CredentialRecord) → IsCapped (f x))
      → All IsCapped ks.records
      → All IsCapped (modify ks id f).1.records
  unfolding modify
  modify-Capped ks id f good h = elim (Option-cases (find (has_id id) ks.records)) [
    | inl e ↦ rw (e, modify) h
    | inr (r, e) ↦
        rw (e, modify) (All-update_first IsCapped (has_id id) f ks.records (λ x c. good r e x) h)
  ]

  edit-Capped :
      (id : ℕ) (l : Text) (color : ℤ) (u w : Text) (a : App p)
      → Fits l u w
      → Capped a
      → let new = if is_empty w then kept_password p a.keystore id else w in
        All IsCapped (edit a.keystore id l color u new).1.records
  unfolding edit get
  edit-Capped id l color u w a fits h =
      modify-Capped a.keystore id _ (λ r found x. edited-Fits id l u w a {r = r} fits h found) h

  save_edit-Capped :
      (id : ℕ) (l : Text) (color : ℤ) (u w : Text) (a : App p)
      → Fits l u w
      → Capped a
      → Capped (save_edit p id l color u w a)
  unfolding save_edit
  save_edit-Capped id l color u w a fits h =
      let new = if is_empty w then kept_password p a.keystore id else w in
      let (result, ks) = edit a.keystore id l color u new in
      let (done, b) = commit p (snapshot a.keystore) ks a in
      elim (Result-cases result) [
        | inl (f, e) ↦ rw (e, save_edit) h
        | inr (_, e) ↦
            let kept : Capped b = commit-Capped ks a (edit-Capped id l color u w a fits h) h in
            elim (Bool-cases done) [
              | inl d ↦ rw (e, d, save_edit) (finish_editing-Capped b kept)
              | inr d ↦ rw (e, d, save_edit) (set_editing_error-Capped _ _ b kept)
            ]
      ]

  on_edit_save-Capped :
      (uuid l : Text) (color : ℤ) (u w : Text) (a : App p)
      → Capped a
      → Capped (on_edit_save p uuid l color u w a)
  unfolding on_edit_save
  on_edit_save-Capped uuid l color u w a h = elim (Option-cases (p.parse_uuid uuid)) [
    | inl e ↦ rw (e, on_edit_save) h
    | inr (id, e) ↦ elim (Result-cases (validate_edit_fields l u w)) [
      | inl (f, g) ↦ rw (e, g, on_edit_save) (set_editing_error-Capped f.field f.message a h)
      | inr (tt, g) ↦
          rw (e, g, on_edit_save)
            (save_edit-Capped id l color u w a (validate_edit_fields-Fits l u w g) h)
    ]
  ]

  -- The forms keep the sizes of the records within the caps: if every record has a label of at
  -- most 128, a user name of at most 256 and a password of at most 512 bytes, and neither of the
  -- last two is empty, then the same holds after a new credential is saved and after one is
  -- edited, whatever is entered, also where the edit leaves the password out and keeps the old one.
  pub forms-Capped :
      (origin username password label uuid : Text) (color : ℤ) (a : App p)
      → All IsCapped a.keystore.records
      → All IsCapped (on_save_new p origin username password label color a).keystore.records
        × All IsCapped (on_edit_save p uuid label color username password a).keystore.records
  forms-Capped origin username password label uuid color a h = (
    on_save_new-Capped origin username password label color a h,
    on_edit_save-Capped uuid label color username password a h,
  )
