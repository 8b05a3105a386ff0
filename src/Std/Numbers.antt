-- ===== src/Std/Numbers.antt =====
-- Numbers as text: `strconv.ParseUint`, `strconv.FormatUint` and `fmt`'s `%d` and `%0nx`.
use native.Mathlib.Nat.{mod-lt, div-add-mod, div-lt_iff_lt-mul, pow-suc}
use trillian_serverless.Std.Lines.{IsPlain}
use trillian_serverless.Base.{
  ℕ, zero, suc, ◌+◌, ◌-◌, ◌*◌, ◌/◌, ◌%◌, ◌^◌, ◌<◌, ◌≤◌, ◌≡◌, refl, ap, ◌∙◌, true, false, ◌&&◌, [],
  ◌∷◌, ◌++◌, Option, none, some, arith, ltb, leb, if◌then◌else◌, Bool-cases, inl, inr, Bytes,
  length, replicate,
}

-- A digit of a base up to 16, in lower case.
unfoldable pub digit : ℕ → ℕ
digit n = if ltb n 10 then n + 48 else n + 87

-- The value of a digit, in either case.
unfoldable pub digit_value : ℕ → Option ℕ
digit_value c =
    if leb 48 c && leb c 57
    then some (c - 48)
    else if leb 97 c && leb c 122
    then some (c - 87)
    else if leb 65 c && leb c 90
    then some (c - 55)
    else none

-- The digits of a number, put before those of its lower part. `fuel` bounds their count.
unfoldable pub digits_onto : ℕ → ℕ → ℕ → Bytes → Bytes
digits_onto base zero n acc = acc
digits_onto base (suc fuel) n acc =
    let rest = digits_onto base fuel (n / base) (digit (n % base) ∷ acc) in
    if ltb n base then digit n ∷ acc else rest

-- 64 digits are enough for a uint64 in any base.
unfoldable pub format_uint : ℕ → ℕ → Bytes
format_uint base n = digits_onto base 64 n []

-- `%0wx`: padded with zeros to the width.
unfoldable pub format_padded : ℕ → ℕ → Bytes
format_padded width n = let ds = format_uint 16 n in replicate (width - length ds) 48 ++ ds

-- `ParseUint(s, base, bits)`: the digits, read from the left.
unfoldable pub parse_digits : ℕ → ℕ → Bytes → Option ℕ
parse_digits base acc [] = some acc
parse_digits base acc (c ∷ cs) = elim (digit_value c) [
  | none ↦ none
  | some v ↦ if ltb v base then parse_digits base (acc * base + v) cs else none
]

abbrev in_range : ℕ → Option ℕ → Option ℕ
in_range bits none = none
in_range bits (some n) = if ltb n (2 ^ bits) then some n else none

unfoldable pub parse_uint : ℕ → ℕ → Bytes → Option ℕ
unfolding parse_digits digit_value
parse_uint base bits [] = none
parse_uint base bits (c ∷ cs) = in_range bits (parse_digits base 0 (c ∷ cs))

pub digit_value-digit : (n : ℕ) → n < 16 → digit_value (digit n) ≡ some n
unfolding digit digit_value
digit_value-digit n h = ground arith

-- One more digit.
pub parse_digits-digit :
    (base acc n : ℕ) (cs : Bytes)
    → base ≤ 16
    → n < base
    → parse_digits base acc (digit n ∷ cs) ≡ parse_digits base (acc * base + n) cs
unfolding parse_digits
parse_digits-digit base acc n cs b h =
    rw (digit_value-digit n (omega arith), parse_digits) (ground arith)

-- The last digit to be written, and any other.
digits_onto-last :
    (base fuel n : ℕ) (acc : Bytes)
    → ltb n base ≡ true
    → digits_onto base (suc fuel) n acc ≡ digit n ∷ acc
unfolding digits_onto
digits_onto-last base fuel n acc h = rw h

digits_onto-more :
    (base fuel n : ℕ) (acc : Bytes)
    → ltb n base ≡ false
    → digits_onto base (suc fuel) n acc ≡ digits_onto base fuel (n / base) (digit (n % base) ∷ acc)
unfolding digits_onto
digits_onto-more base fuel n acc h = rw h

format_uint-small : (n : ℕ) → n < 16 → format_uint 16 n ≡ digit n ∷ []
format_uint-small n h = unfold format_uint in digits_onto-last 16 63 n [] (ground arith)

format_uint-byte :
    (n : ℕ) → 16 ≤ n → n < 256 → format_uint 16 n ≡ digit (n / 16) ∷ digit (n % 16) ∷ []
format_uint-byte n l h =
    unfold format_uint in
    digits_onto-more 16 63 n [] (ground arith)
    ∙ digits_onto-last 16 62 (n / 16) (digit (n % 16) ∷ []) (ground arith)

-- A number below 256 has two hexadecimal digits when it is padded to two.
pub format_padded-byte :
    (n : ℕ) → n < 256 → format_padded 2 n ≡ digit (n / 16) ∷ digit (n % 16) ∷ []
format_padded-byte n h = elim (Bool-cases (ltb n 16)) [
  | inl small ↦
      let e : n / 16 ≡ 0 = ground arith in
      let f : n % 16 ≡ n = ground arith in
      unfold format_padded in
      rw (format_uint-small n (ground arith)) (rw (e, f) (unfold digit in refl))
  | inr large ↦ unfold format_padded in rw (format_uint-byte n (ground arith) h)
]

pub below : (f n base : ℕ) → 2 ≤ base → n < 2 ^ suc f → n / base < 2 ^ f
below f n base l h =
    let e : 2 ^ suc f ≡ 2 ^ f * 2 = pow-suc 2 f in
    (div-lt_iff_lt-mul (omega arith)).1 (grind (arith, e))

-- Reading back the digits that were written gives the number.
parse_digits-digits_onto :
    (base fuel n : ℕ) (acc : Bytes)
    → 2 ≤ base
    → base ≤ 16
    → n < 2 ^ fuel
    → parse_digits base 0 (digits_onto base fuel n acc) ≡ parse_digits base n acc
parse_digits-digits_onto base zero n acc l u h =
    unfold digits_onto in ap (λ x. parse_digits base x acc) (omega arith)
parse_digits-digits_onto base (suc f) n acc l u h = elim (Bool-cases (ltb n base)) [
  | inl last ↦ rw (digits_onto-last base f n acc last) (
      parse_digits-digit base 0 n acc u (ground arith)
      ∙ ap (λ x. parse_digits base x acc) (omega arith))
  | inr more ↦ rw (digits_onto-more base f n acc more) (
      parse_digits-digits_onto base f (n / base) (digit (n % base) ∷ acc) l u (below f n base l h)
      ∙ (parse_digits-digit base (n / base) (n % base) acc u (mod-lt n (omega arith))
          ∙ ap (λ x. parse_digits base x acc) (grind (arith, div-add-mod n base))))
]

digits_onto_cons :
    (base fuel n c : ℕ) (acc : Bytes)
    → (d : ℕ) × (ds : Bytes) × (digits_onto base fuel n (c ∷ acc) ≡ d ∷ ds)
digits_onto_cons base zero n c acc = (c, acc, unfold digits_onto in refl)
digits_onto_cons base (suc f) n c acc = elim (Bool-cases (ltb n base)) [
  | inl last ↦ (digit n, c ∷ acc, digits_onto-last base f n (c ∷ acc) last)
  | inr more ↦
      let (d, ds, e) = digits_onto_cons base f (n / base) (digit (n % base)) (c ∷ acc) in
      (d, ds, digits_onto-more base f n (c ∷ acc) more ∙ e)
]

-- A printed number has a digit.
pub format_uint_cons : (base n : ℕ) → (d : ℕ) × (ds : Bytes) × (format_uint base n ≡ d ∷ ds)
format_uint_cons base n = elim (Bool-cases (ltb n base)) [
  | inl last ↦ (digit n, [], unfold format_uint in digits_onto-last base 63 n [] last)
  | inr more ↦
      let (d, ds, e) = digits_onto_cons base 63 (n / base) (digit (n % base)) [] in
      (d, ds, unfold format_uint in (digits_onto-more base 63 n [] more ∙ e))
]

parse_digits-nil : (base acc : ℕ) → parse_digits base acc [] ≡ some acc
unfolding parse_digits
parse_digits-nil base acc = refl

-- A number of at most 64 bits is read back from its digits, in base 2 to 16.
pub parse_uint-format_uint :
    (base bits n : ℕ)
    → 2 ≤ base
    → base ≤ 16
    → n < 2 ^ 64
    → n < 2 ^ bits
    → parse_uint base bits (format_uint base n) ≡ some n
parse_uint-format_uint base bits n l u h k =
    let (d, ds, e) = format_uint_cons base n in
    let whole : parse_digits base 0 (format_uint base n) ≡ some n =
      unfold format_uint in
      (parse_digits-digits_onto base 64 n [] l u h ∙ parse_digits-nil base n) in
    rw e (unfold parse_uint in rw (← e) (rw whole (ground arith)))

digit-visible : (n : ℕ) → 32 < digit n
unfolding digit
digit-visible n = ground arith

digits_onto-IsPlain :
    (base fuel n : ℕ) (acc : Bytes) → IsPlain acc → IsPlain (digits_onto base fuel n acc)
unfolding digits_onto
digits_onto-IsPlain base zero n acc h = h
digits_onto-IsPlain base (suc f) n acc h = ground (
  arith,
  digit-visible n,
  digits_onto-IsPlain base f (n / base) (digit (n % base) ∷ acc) (digit-visible (n % base), h),
)

pub format_uint-IsPlain : (base n : ℕ) → IsPlain (format_uint base n)
format_uint-IsPlain base n = unfold format_uint in digits_onto-IsPlain base 64 n [] tt
