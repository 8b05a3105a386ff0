-- ===== src/Base/Results.antt =====
-- Go's `(value, error)` results, for any type of errors, with `do` notation.
use mathlib.Core.Path.{◌≡◌, refl, sym, ap}
use mathlib.Core.Logic.{◌⊎◌, inl, inr}
use mathlib.Core.Bool.{Bool, true, false}
use mathlib.Core.Option.{Option, none, some}

pub data Result {ℓ κ} (E : Type ℓ) (A : Type κ) : Type (ℓ ⊔ κ) where
  ok : A → Result E A
  err : E → Result E A

infixl 5 ◌>>=◌ ◌>>◌
abbrev pub ◌>>=◌ {ℓ κ μ} :
    {E : Type ℓ} {A : Type κ} {B : Type μ} → Result E A → (A → Result E B) → Result E B
ok a >>= f = f a
err e >>= f = err e

abbrev pub ◌>>◌ {ℓ μ} : {E : Type ℓ} {B : Type μ} → Result E (Unit {0}) → Result E B → Result E B
m >> k = m >>= λ _. k

-- `if cond { return err }`
abbrev pub fail_if {ℓ} : {E : Type ℓ} → Bool → E → Result E (Unit {0})
fail_if true e = err e
fail_if false e = ok tt

-- `if err != nil { return fmt.Errorf(...) }`
abbrev pub or_fail {ℓ ε κ} :
    {D : Type ε} {E : Type ℓ} {A : Type κ} → Result D A → (D → E) → Result E A
or_fail (ok a) f = ok a
or_fail (err d) f = err (f d)

-- A comma-ok read.
abbrev pub expect {ℓ κ} : {E : Type ℓ} {A : Type κ} → Option A → E → Result E A
expect none e = err e
expect (some a) e = ok a

pub Result-cases {ℓ κ} :
    {E : Type ℓ} {A : Type κ} (r : Result E A) → ((a : A) × (r ≡ ok a)) ⊎ ((e : E) × (r ≡ err e))
Result-cases (ok a) = inl (a, refl)
Result-cases (err e) = inr (e, refl)

pub ok-injective {ℓ κ} :
    {E : Type ℓ} {A : Type κ} (a b : A) → ◌≡◌ {A = Result E A} (ok a) (ok b) → a ≡ b
ok-injective a b h = cc

pub ok-ne-err {ℓ κ} :
    {E : Type ℓ} {A : Type κ} (a : A) (e : E) → ◌≡◌ {A = Result E A} (ok a) (err e) → ⊥
ok-ne-err a e h = cc

pub bind-ok {ℓ κ μ} :
    {E : Type ℓ} {A : Type κ} {B : Type μ} (r : Result E A) (f : A → Result E B) (b : B)
    → (r >>= f) ≡ ok b
    → (a : A) × (r ≡ ok a) × (f a ≡ ok b)
bind-ok (ok a) f b h = (a, refl, h)
bind-ok (err e) f b h = absurd (ok-ne-err b e (sym h))

pub expect-ok {ℓ κ} :
    {E : Type ℓ} {A : Type κ} (o : Option A) (e : E) (a : A) → expect o e ≡ ok a → o ≡ some a
expect-ok none e a h = absurd (ok-ne-err a e (sym h))
expect-ok (some b) e a h = ap some (ok-injective b a h)

pub or_fail-ok {ℓ ε κ} :
    {D : Type ε} {E : Type ℓ} {A : Type κ} (r : Result D A) (f : D → E) (a : A)
    → or_fail r f ≡ ok a
    → r ≡ ok a
or_fail-ok (ok b) f a h = ap ok (ok-injective b a h)
or_fail-ok (err d) f a h = absurd (ok-ne-err a (f d) (sym h))

pub fail_if-ok {ℓ} : {E : Type ℓ} (b : Bool) (e : E) (u : Unit {0}) → fail_if b e ≡ ok u → b ≡ false
fail_if-ok true e u h = absurd (ok-ne-err u e (sym h))
fail_if-ok false e u h = refl
