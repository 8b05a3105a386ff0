-- ===== src/Feeder/SumDb/Partial.antt =====
-- The broker asks for as much of a tile as the layout of serverless logs says there is.
use native.Mathlib.Nat.{div-div-eq-div-mul, div-lt_iff_lt-mul, zero-div}
use trillian_serverless.Base.{
  ℕ, zero, suc, ◌+◌, ◌*◌, ◌/◌, ◌%◌, ◌^◌, ◌≤◌, ◌<◌, ◌≡◌, refl, sym, ◌∙◌, ap, subst, ◌≢◌, inl, inr,
  Bool-cases, false, ltb, ◌==◌, if◌then◌else◌, none, some, [], arith,
}
use trillian_serverless.Base.Dict.{Dict, lookup, insert, lookup-insert}
use trillian_serverless.SumDb.Service.Levels.{pow_add}
use trillian_serverless.Serverless.Layout.Tile.{u64, shr, partial_tile_size}
use trillian_serverless.Feeder.SumDb.{
  TileIndex, tile_index_eq, partial_tiles, new_tile_broker, partial, or_zero,
}

abbrev key : ℕ → ℕ → TileIndex
key level offset = record { level = level; offset = offset }

lookup_other :
    (j k : TileIndex) (v : ℕ) (d : Dict TileIndex ℕ) → j ≢ k → lookup j (insert k v d) ≡ lookup j d
lookup_other j k v d ne = rw (lookup-insert j k v d) (ground arith)

lookup_self : (k : TileIndex) (v : ℕ) (d : Dict TileIndex ℕ) → lookup k (insert k v d) ≡ some v
lookup_self k v d = rw (lookup-insert k k v d) (ground arith)

-- The levels below the loop's are not in the map.
absent_below : (fuel l t o m i : ℕ) → m < l → lookup (key m i) (partial_tiles fuel l t o) ≡ none
unfolding partial_tiles lookup
absent_below zero l t o m i lt = refl
absent_below (suc fuel) l t o m i lt =
    let above = partial_tiles fuel (l + 1) (t / 256) (t % 256) in
    let ne : key m i ≢ key l t = λ e. ne_of_lt m l lt (ap (λ k. k.level) e) in
    lookup_other (key m i) (key l t) o (if t == 0 then [] else above) ne
    ∙ elim (Bool-cases (t == 0)) [
      | inl none_above ↦ rw none_above refl
      | inr some_above ↦
          rw some_above (absent_below fuel (l + 1) (t / 256) (t % 256) m i (omega (arith, lt)))
    ]
  where
    ne_of_lt : (a b : ℕ) → a < b → a ≢ b
    ne_of_lt a b lt e = omega (arith, lt, e)

-- The hashes of a log of this size at the level above these levels.
abbrev at_level : ℕ → ℕ → ℕ
at_level size k = size / 2 ^ (k * 8)

abbrev expected : ℕ → ℕ → ℕ
expected hashes i = if ltb i (hashes / 256) then 0 else hashes % 256

at_level-suc : (size k : ℕ) → at_level size (suc k) ≡ at_level (size / 256) k
at_level-suc size k =
    let e : suc k * 8 ≡ 8 + k * 8 = omega arith in
    let f : 2 ^ (suc k * 8) ≡ 256 * 2 ^ (k * 8) = ap (λ x. 2 ^ x) e ∙ pow_add 2 8 (k * 8) in
    ap (λ x. size / x) f ∙ sym (div-div-eq-div-mul size 256 (2 ^ (k * 8)))

expected_none : (hashes i : ℕ) → hashes ≡ 0 → expected hashes i ≡ 0
expected_none hashes i e = ground (arith, e)

expected_less : (hashes i : ℕ) → i < hashes / 256 → expected hashes i ≡ 0
expected_less hashes i lt = ground (arith, lt)

expected_last : (hashes i : ℕ) → i ≡ hashes / 256 → expected hashes i ≡ hashes % 256
expected_last hashes i e = ground (arith, e)

ne_of_level : (a b i j : ℕ) → a ≢ b → key a i ≢ key b j
ne_of_level a b i j ne e = ne (ap (λ k. k.level) e)

partial_tiles_lem :
    (fuel l size k i : ℕ)
    → size < 2 ^ (fuel * 8)
    → i ≤ at_level size k / 256
    → partial (partial_tiles fuel l (size / 256) (size % 256)) (key (l + k) i)
      ≡ expected (at_level size k) i
unfolding partial partial_tiles lookup
partial_tiles_lem zero l size k i lt le =
    let none_left : size ≡ 0 = omega (arith, lt) in
    sym (
      expected_none (at_level size k) i
        (ap (λ x. x / 2 ^ (k * 8)) none_left ∙ zero-div (2 ^ (k * 8))))
partial_tiles_lem (suc fuel) l size zero i lt le =
    let t = size / 256 in
    let above = partial_tiles fuel (l + 1) (t / 256) (t % 256) in
    let rest = if t == 0 then [] else above in
    let here : l + 0 ≡ l = omega arith in
    let whole : at_level size 0 ≡ size = omega arith in
    ap (λ x. partial (insert (key l t) (size % 256) rest) (key x i)) here
    ∙ elim (Bool-cases (ltb i t)) [
      | inl below ↦
          let less : i < t = ground (arith, below) in
          let ne : key l i ≢ key l t = λ e. different i t less (ap (λ k. k.offset) e) in
          let positive : (t == 0) ≡ false = ground (arith, less) in
          ap or_zero (lookup_other (key l i) (key l t) (size % 256) rest ne)
          ∙ ap (λ b. or_zero (lookup (key l i) (if b then [] else above))) positive
          ∙ ap or_zero (absent_below fuel (l + 1) (t / 256) (t % 256) l i (omega arith))
          ∙ sym (ap (λ x. expected x i) whole ∙ expected_less size i less)
      | inr last ↦
          let same : i ≡ t = ground (arith, last, le, whole) in
          ap (λ x. partial (insert (key l t) (size % 256) rest) (key l x)) same
          ∙ ap or_zero (lookup_self (key l t) (size % 256) rest)
          ∙ sym (ap (λ x. expected x i) whole ∙ expected_last size i same)
    ]
  where
    different : (a b : ℕ) → a < b → a ≢ b
    different a b lt e = omega (arith, lt, e)
partial_tiles_lem (suc fuel) l size (suc k) i lt le =
    let t = size / 256 in
    let above = partial_tiles fuel (l + 1) (t / 256) (t % 256) in
    let rest = if t == 0 then [] else above in
    let up = at_level-suc size k in
    let ne : key (l + suc k) i ≢ key l t = ne_of_level (l + suc k) l i t (λ e. omega (arith, e)) in
    ap or_zero (lookup_other (key (l + suc k) i) (key l t) (size % 256) rest ne)
    ∙ elim (Bool-cases (t == 0)) [
      | inl empty ↦
          let none_left : t ≡ 0 = ground (arith, empty) in
          ap (λ b. or_zero (lookup (key (l + suc k) i) (if b then [] else above))) empty
          ∙ sym (
              expected_none (at_level size (suc k)) i
                (up ∙ ap (λ x. x / 2 ^ (k * 8)) none_left ∙ zero-div (2 ^ (k * 8))))
      | inr held ↦
          let e : l + suc k ≡ (l + 1) + k = omega arith in
          let small : t < 2 ^ (fuel * 8) =
            let more : suc fuel * 8 ≡ fuel * 8 + 8 = omega arith in
            let bound = ap (λ x. 2 ^ x) more ∙ pow_add 2 (fuel * 8) 8 in
            (div-lt_iff_lt-mul (omega arith)).1 (subst (λ x. size < x) bound lt) in
          ap (λ b. or_zero (lookup (key (l + suc k) i) (if b then [] else above))) held
          ∙ ap (λ x. partial above (key x i)) e
          ∙ partial_tiles_lem fuel (l + 1) t k i small (subst (λ x. i ≤ x / 256) up le)
          ∙ sym (ap (λ x. expected x i) up)
    ]

-- For a tile of the log, or the one behind its last full tile, the broker asks for the partial size
-- that the layout of serverless logs gives.
pub new_tile_broker-partial_tile_size :
    (level index size : ℕ)
    → level < 8
    → size < 2 ^ 64
    → index ≤ size / 2 ^ (level * 8) / 256
    → partial (new_tile_broker size) (key level index) ≡ partial_tile_size level index size
unfolding new_tile_broker partial_tile_size
new_tile_broker-partial_tile_size level index size low lt le =
    let count : u64 (level * 8) ≡ level * 8 = omega (arith, low) in
    let first : 0 + level ≡ level = omega arith in
    ap (λ x. partial (new_tile_broker size) (key x index)) (sym first)
    ∙ partial_tiles_lem 8 0 size level index lt le
    ∙ sym (ap (λ x. expected (shr size x) index) count)
