-- ===== src/Base/Lists.antt =====
-- Lists measured and indexed by the native numbers, under the library's names.
use Prim.Native.Nat.{ℕ, zero, suc, ◌+◌, ◌<◌, ◌≤◌}
use mathlib.Core.Path.{◌≡◌, refl, ap}
use mathlib.Core.Logic.{◌≢◌, ◌⊎◌, inl, inr}
use mathlib.Core.List.{List, [], ◌∷◌, ◌++◌, map}
use mathlib.Core.Option.{Option, none, some}
use native.Mathlib.Omega.{arith}

module _ {ℓ} {A : Type ℓ} where
  abbrev pub length : List A → ℕ
  length [] = 0
  length (_ ∷ xs) = suc (length xs)

  abbrev pub get_elem? : List A → ℕ → Option A
  get_elem? [] i = none
  get_elem? (x ∷ xs) zero = some x
  get_elem? (x ∷ xs) (suc i) = get_elem? xs i

  -- A write out of bounds changes nothing.
  abbrev pub set : List A → ℕ → A → List A
  set [] i v = []
  set (x ∷ xs) zero v = v ∷ xs
  set (x ∷ xs) (suc i) v = x ∷ set xs i v

  abbrev pub take : ℕ → List A → List A
  take zero xs = []
  take (suc n) [] = []
  take (suc n) (x ∷ xs) = x ∷ take n xs

  abbrev pub drop : ℕ → List A → List A
  drop zero xs = xs
  drop (suc n) [] = []
  drop (suc n) (x ∷ xs) = drop n xs

  abbrev pub replicate : ℕ → A → List A
  replicate zero a = []
  replicate (suc n) a = a ∷ replicate n a

  pub length-append : (xs ys : List A) → length (xs ++ ys) ≡ length xs + length ys
  length-append [] ys = omega arith
  length-append (x ∷ xs) ys = omega (arith, length-append xs ys)

  pub length-set : (xs : List A) (i : ℕ) (v : A) → length (set xs i v) ≡ length xs
  length-set [] i v = refl
  length-set (x ∷ xs) zero v = refl
  length-set (x ∷ xs) (suc i) v = ap suc (length-set xs i v)

  pub length-replicate : (n : ℕ) (a : A) → length (replicate n a) ≡ n
  length-replicate zero a = refl
  length-replicate (suc n) a = ap suc (length-replicate n a)

  pub get_elem?-set_self :
      (xs : List A) (i : ℕ) (v : A) → i < length xs → get_elem? (set xs i v) i ≡ some v
  get_elem?-set_self [] i v h = elim h [ ]
  get_elem?-set_self (x ∷ xs) zero v h = refl
  get_elem?-set_self (x ∷ xs) (suc i) v h = get_elem?-set_self xs i v (omega arith)

  pub get_elem?-append_left :
      (xs ys : List A) (i : ℕ) → i < length xs → get_elem? (xs ++ ys) i ≡ get_elem? xs i
  get_elem?-append_left [] ys i h = elim h [ ]
  get_elem?-append_left (x ∷ xs) ys zero h = refl
  get_elem?-append_left (x ∷ xs) ys (suc i) h = get_elem?-append_left xs ys i (omega arith)

  pub get_elem?-append_last :
      (xs : List A) (y : A) (i : ℕ) → i ≡ length xs → get_elem? (xs ++ y ∷ []) i ≡ some y
  get_elem?-append_last [] y zero h = refl
  get_elem?-append_last [] y (suc i) h = absurd (omega arith)
  get_elem?-append_last (x ∷ xs) y zero h = absurd (omega arith)
  get_elem?-append_last (x ∷ xs) y (suc i) h = get_elem?-append_last xs y i (omega arith)

  pub get_elem?-some : (xs : List A) (i : ℕ) → i < length xs → (a : A) × (get_elem? xs i ≡ some a)
  get_elem?-some [] i h = elim h [ ]
  get_elem?-some (x ∷ xs) zero h = (x, refl)
  get_elem?-some (x ∷ xs) (suc i) h = get_elem?-some xs i (omega arith)

  pub get_elem?-ge : (xs : List A) (i : ℕ) → length xs ≤ i → get_elem? xs i ≡ none
  get_elem?-ge [] i h = refl
  get_elem?-ge (x ∷ xs) zero h = elim h [ ]
  get_elem?-ge (x ∷ xs) (suc i) h = get_elem?-ge xs i (omega arith)

module _ {ℓ} {A : Type ℓ} where
  pub get_elem?-set_ne :
      (xs : List A) (i j : ℕ) (v : A) → i ≢ j → get_elem? (set xs i v) j ≡ get_elem? xs j
  get_elem?-set_ne [] i j v h = refl
  get_elem?-set_ne (x ∷ xs) zero zero v h = absurd (h refl)
  get_elem?-set_ne (x ∷ xs) zero (suc j) v h = refl
  get_elem?-set_ne (x ∷ xs) (suc i) zero v h = refl
  get_elem?-set_ne (x ∷ xs) (suc i) (suc j) v h = get_elem?-set_ne xs i j v (λ e. h (ap suc e))

pub drop_all {ℓ} : {A : Type ℓ} (l : List A) → drop (length l) l ≡ []
drop_all [] = refl
drop_all (x ∷ xs) = drop_all xs

pub drop_cons {ℓ} :
    {A : Type ℓ} (l : List A) (i : ℕ) (a : A)
    → get_elem? l i ≡ some a
    → drop i l ≡ a ∷ drop (i + 1) l
drop_cons [] i a h = absurd (cc h)
drop_cons (x ∷ xs) zero a h = cc h
drop_cons (x ∷ xs) (suc i) a h =
    let p : suc i + 1 ≡ suc (i + 1) = omega arith in rw p (drop_cons xs i a h)

-- An item of a list, by its place.
abbrev pub In : {A : Type 0} → A → List A → Type 0
In a [] = ⊥
In a (b ∷ l) = (a ≡ b) ⊎ In a l

pub In-map : {A B : Type 0} (f : A → B) (a : A) (l : List A) → In a l → In (f a) (map f l)
In-map f a [] i = elim i [ ]
In-map f a (b ∷ l) (inl e) = inl (ap f e)
In-map f a (b ∷ l) (inr i) = inr (In-map f a l i)

pub take_append_drop {ℓ} : {A : Type ℓ} (n : ℕ) (l : List A) → take n l ++ drop n l ≡ l
take_append_drop zero l = refl
take_append_drop (suc n) [] = refl
take_append_drop (suc n) (x ∷ l) = ap (λ t. x ∷ t) (take_append_drop n l)
