-- ===== src/SumDb/Service/Levels.antt =====
-- How many levels of tiles there are.
use native.Mathlib.Nat.{le-div_iff_mul-le, pow-suc, pow-zero, mul_assoc, div-le_self}
use trillian_serverless.Base.{
  ℕ, zero, suc, ◌+◌, ◌*◌, ◌/◌, ◌^◌, ◌≤◌, ◌<◌, ◌≡◌, sym, ◌∙◌, ap, ltb, leb, arith, Bool-cases, inl,
  inr,
}
use trillian_serverless.Std.Numbers.{below}
use trillian_serverless.SumDb.Service.{levels_from, level_count}

pub pow_add : (a m n : ℕ) → a ^ (m + n) ≡ a ^ m * a ^ n
pow_add a m zero =
    let e : m + 0 ≡ m = omega arith in
    let f : a ^ m ≡ a ^ m * 1 = omega arith in
    ap (λ x. a ^ x) e ∙ f ∙ ap (λ x. a ^ m * x) (sym (pow-zero a))
pow_add a m (suc n) =
    let e : m + suc n ≡ suc (m + n) = omega arith in
    ap (λ x. a ^ x) e
    ∙ pow-suc a (m + n)
    ∙ ap (λ x. x * a) (pow_add a m n)
    ∙ mul_assoc (a ^ m) (a ^ n) a
    ∙ ap (λ x. a ^ m * x) (sym (pow-suc a n))

pub pow_pos : (n : ℕ) → 0 < 2 ^ n
pow_pos zero = omega arith
pow_pos (suc n) = omega (arith, pow-suc 2 n, pow_pos n)

two_le : (n : ℕ) → 0 < n → 2 ≤ 2 ^ n
two_le zero pos = absurd (omega (arith, pos))
two_le (suc n) pos = omega (arith, pow-suc 2 n, pow_pos n)

-- A comparison moves a factor to the other side.
leb-div : (w : ℕ) → 0 < w → (x c : ℕ) → leb x (c / w) ≡ leb (x * w) c
leb-div w pos x c =
    let i = le-div_iff_mul-le {k = w} {x = x} {y = c} pos in
    elim (Bool-cases (leb (x * w) c)) [
      | inl le ↦ ground (arith, i.1 (ground (arith, le)))
      | inr gt ↦
          let far : ((h : x ≤ c / w) → ⊥) = λ h. ground (arith, i.0 h, gt) in
          ground (arith, gt, far)
    ]

levels_from-ltb :
    (height fuel covered k : ℕ)
    → 0 < height
    → covered < 2 ^ fuel
    → ltb k (levels_from height fuel covered) ≡ leb (2 ^ (height * k)) covered
unfolding levels_from
levels_from-ltb height zero covered k pos lt = ground (arith, pow_pos (height * k), lt)
levels_from-ltb height (suc fuel) covered zero pos lt =
    let e : height * 0 ≡ 0 = omega arith in
    let f = ap (λ x. 2 ^ x) e ∙ pow-zero 2 in ground (arith, f)
levels_from-ltb height (suc fuel) covered (suc k) pos lt =
    let ih =
      levels_from-ltb height fuel (covered / 2 ^ height) k pos
        (below fuel covered (2 ^ height) (two_le height pos) lt) in
    let e = leb-div (2 ^ height) (pow_pos height) (2 ^ (height * k)) covered in
    let f : 2 ^ (height * suc k) ≡ 2 ^ (height * k) * 2 ^ height =
      let m : height * suc k ≡ height * k + height = omega arith in
      ap (λ x. 2 ^ x) m ∙ pow_add 2 (height * k) height in
    let moved = ih ∙ e ∙ ap (λ x. leb x covered) (sym f) in
    ground (arith, moved, pow_pos (height * suc k))

-- For tiles of more than one leaf and a log of less than 2^64 leaves, there are as many levels as
-- there are numbers k for which a tile of level k, with its 2^(height * (k + 1)) leaves, fits in
-- the log: the loop ends, and it neither misses a level nor counts one too many.
pub level_count-ltb :
    (height leaves k : ℕ)
    → 0 < height
    → leaves < 2 ^ 64
    → ltb k (level_count height leaves) ≡ leb (2 ^ (height * (k + 1))) leaves
unfolding level_count
level_count-ltb height leaves k pos lt =
    let f : 2 ^ (height * (k + 1)) ≡ 2 ^ (height * k) * 2 ^ height =
      let m : height * (k + 1) ≡ height * k + height = omega arith in
      ap (λ x. 2 ^ x) m ∙ pow_add 2 (height * k) height in
    let small : leaves / 2 ^ height < 2 ^ 64 = omega (arith, div-le_self leaves (2 ^ height), lt) in
    levels_from-ltb height 64 (leaves / 2 ^ height) k pos small
    ∙ leb-div (2 ^ height) (pow_pos height) (2 ^ (height * k)) leaves
    ∙ ap (λ x. leb x leaves) (sym f)
