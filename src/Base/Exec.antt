-- ===== src/Base/Exec.antt =====
-- Calls that change a state and may fail: what was changed before an error stays changed.
use mathlib.Core.Path.{◌≡◌, refl, ap}
use mathlib.Core.Bool.{Bool, true, false}
use mathlib.Core.List.{List, [], ◌∷◌}
use Prim.Native.Nat.{ℕ, ◌+◌}
use trillian_serverless.Base.Results.{Result, ok, err}

abbrev pub Exec {ℓ ε κ} : Type ℓ → Type ε → Type κ → Type (ℓ ⊔ ε ⊔ κ)
Exec S E A = S → Result E A × S

module _ {ℓ ε κ} {S : Type ℓ} {E : Type ε} {A : Type κ} where
  abbrev pub pure : A → Exec S E A
  pure a s = (ok a, s)

  abbrev pub raise : E → Exec S E A
  raise e s = (err e, s)

  -- A pure result.
  abbrev pub lift : Result E A → Exec S E A
  lift r s = (r, s)

  -- The same call, with other errors.
  abbrev pub recast {δ} : {D : Type δ} → Exec S D A → (D → E) → Exec S E A
  recast m f s = let (r, t) = m s in (elim r [ ok a ↦ ok a | err d ↦ err (f d) ], t)

module _ {ℓ ε κ μ} {S : Type ℓ} {E : Type ε} {A : Type κ} {B : Type μ} where
  abbrev continue : Result E A → (A → Exec S E B) → Exec S E B
  continue (ok a) f s = f a s
  continue (err e) f s = (err e, s)

  infixl 5 ◌>>=◌
  abbrev pub ◌>>=◌ : Exec S E A → (A → Exec S E B) → Exec S E B
  (m >>= f) s = let (r, t) = m s in continue r f t

  pub step :
      (m : Exec S E A) (f : A → Exec S E B) (s t : S) (a : A)
      → m s ≡ (ok a, t)
      → (m >>= f) s ≡ f a t
  step m f s t a h = rw h

  pub stop :
      (m : Exec S E A) (f : A → Exec S E B) (s t : S) (e : E)
      → m s ≡ (err e, t)
      → (m >>= f) s ≡ (err e, t)
  stop m f s t e h = rw h

infixl 5 ◌>>◌
abbrev pub ◌>>◌ {ℓ ε μ} :
    {S : Type ℓ} {E : Type ε} {B : Type μ} → Exec S E (Unit {0}) → Exec S E B → Exec S E B
m >> k = m >>= λ _. k

-- `if cond { return err }`
abbrev pub guard {ℓ ε} : {S : Type ℓ} {E : Type ε} → Bool → E → Exec S E (Unit {0})
guard true e s = (err e, s)
guard false e s = (ok tt, s)

module _ {ℓ ε κ μ ν} {S : Type ℓ} {E : Type ε} {A : Type κ} {B : Type μ} {C : Type ν} where
  continue_regroup :
      (r : Result E A) (f : A → Exec S E B) (k : B → Exec S E C) (g : A → Exec S E C) (s : S)
      → ((a : A) (t : S) → g a t ≡ (f a >>= k) t)
      → continue r g s ≡ (let (q, t) = continue r f s in continue q k t)
  continue_regroup (ok a) f k g s h = h a s
  continue_regroup (err e) f k g s h = refl

  -- Calls in a row, grouped the other way.
  pub bind_regroup :
      (m : Exec S E A) (f : A → Exec S E B) (k : B → Exec S E C) (g : A → Exec S E C) (s : S)
      → ((a : A) (t : S) → g a t ≡ (f a >>= k) t)
      → (m >>= g) s ≡ ((m >>= f) >>= k) s
  bind_regroup m f k g s h = continue_regroup (m s).0 f k g (m s).1 h

-- The calls of `f` on the items, from a number on, up to the first that fails.
unfoldable pub each_entry {ℓ ε κ} :
    {S : Type ℓ} {E : Type ε} {A : Type κ}
    → (ℕ → A → Exec S E (Unit {0}))
    → ℕ
    → List A
    → Exec S E (Unit {0})
each_entry f i [] = pure tt
each_entry f i (a ∷ l) = f i a >>= λ _. each_entry f (i + 1) l

-- Where a call gives a result, each step of it did.
module _ {ℓ ε κ μ} {S : Type ℓ} {E : Type ε} {A : Type κ} {B : Type μ} where
  continue_ok :
      (p : Result E A × S) (f : A → Exec S E B) (b : B) (u : S)
      → ((λ _. p) >>= f) p.1 ≡ (ok b, u)
      → (a : A) × (t : S) × (p ≡ (ok a, t)) × (f a t ≡ (ok b, u))
  continue_ok (ok a, t) f b u h = (a, t, refl, h)
  continue_ok (err e, t) f b u h = absurd (cc (ap (λ q. q.0) h))

  pub bind_ok :
      (m : Exec S E A) (f : A → Exec S E B) (s u : S) (b : B)
      → (m >>= f) s ≡ (ok b, u)
      → (a : A) × (t : S) × (m s ≡ (ok a, t)) × (f a t ≡ (ok b, u))
  bind_ok m f s u b h = continue_ok (m s) f b u h
