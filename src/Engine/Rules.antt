-- ===== src/Engine/Rules.antt =====
-- Rules for reasoning about handlers: what a successful bind has done, and which handlers fail.
use passport_passwords.Base.{◌≡◌, refl, Result, ok, err}
use passport_passwords.Store.{CredentialStore}
use passport_passwords.Engine.{Failure, World, Engine, Handler, continue, ◌>>=◌, lift, gets}

module _ {C : CredentialStore} (E : Engine C) where
  abbrev W : Type 0
  W = World C.Store E.Outer

  -- What the two halves of a successful bind have done.
  abbrev pub Halves {ℓ κ} :
      {A : Type ℓ} {B : Type κ} → Handler E A → (A → Handler E B) → W → B → W → Type (ℓ ⊔ κ)
  Halves {A} m f w b w' = (a : A) × (w1 : W) × (m w ≡ (ok a, w1)) × (f a w1 ≡ (ok b, w'))

  continue-eq-ok {ℓ κ} :
      {A : Type ℓ} {B : Type κ} (m : Handler E A) (f : A → Handler E B) {w w' : W} {b : B}
      (r : Result Failure A) (w1 : W)
      → m w ≡ (r, w1)
      → continue E r w1 f ≡ (ok b, w')
      → Halves m f w b w'
  continue-eq-ok m f (ok a) w1 e h = (a, w1, e, h)
  continue-eq-ok m f (err why) w1 e h = cc

  -- A handler that succeeds in a bind has succeeded in both halves.
  pub bind-eq-ok {ℓ κ} :
      {A : Type ℓ} {B : Type κ} (m : Handler E A) (f : A → Handler E B) {w w' : W} {b : B}
      → ◌>>=◌ E m f w ≡ (ok b, w')
      → Halves m f w b w'
  unfolding ◌>>=◌
  bind-eq-ok m f {w} h = continue-eq-ok m f (m w).0 (m w).1 refl h

  -- The same, for a proof that goes on with what the halves have done.
  pub by_bind {ℓ κ μ} :
      {A : Type ℓ} {B : Type κ} {P : Type μ} (m : Handler E A) (f : A → Handler E B) {w w' : W}
      {b : B}
      → ◌>>=◌ E m f w ≡ (ok b, w')
      → ((a : A) (w1 : W) → m w ≡ (ok a, w1) → f a w1 ≡ (ok b, w') → P)
      → P
  by_bind m f {w} h go = let (a, w1, e, k) = bind-eq-ok m f {w = w} h in go a w1 e k

  pub by_lift {ℓ κ μ} :
      {A : Type ℓ} {B : Type κ} {P : Type μ} (r : Result Failure A) (f : A → Handler E B) {w w' : W}
      {b : B}
      → ◌>>=◌ E (lift E r) f w ≡ (ok b, w')
      → ((a : A) → r ≡ ok a → f a w ≡ (ok b, w') → P)
      → P
  unfolding ◌>>=◌
  by_lift (ok a) f h go = go a refl h
  by_lift (err e) f h go = cc

  pub by_gets {ℓ κ μ} :
      {A : Type ℓ} {B : Type κ} {P : Type μ} (g : C.Store → A) (f : A → Handler E B) {w w' : W}
      {b : B}
      → ◌>>=◌ E (gets E g) f w ≡ (ok b, w')
      → (f (g w.store) w ≡ (ok b, w') → P)
      → P
  unfolding ◌>>=◌
  by_gets g f h go = go h
