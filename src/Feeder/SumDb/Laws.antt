-- ===== src/Feeder/SumDb/Laws.antt =====
-- A node is looked up where the layout of serverless logs has it.
use native.Mathlib.Nat.{
  div-div-eq-div-mul, add-mul-div_left, add-mul-mod_self_left, mul-add, add-mul, mul_assoc,
  mul_comm, mul-le-mul, mul-le-mul_left, mod-lt, mod-add-div, mod-eq_of_lt, div-eq_of_lt,
  le-div_iff_mul-le, div-lt_iff_lt-mul, pow-le-pow_right, mul-div-le,
}
use trillian_serverless.Base.{
  ℕ, ◌+◌, ◌-◌, ◌*◌, ◌/◌, ◌%◌, ◌^◌, ◌≤◌, ◌<◌, ◌≡◌, sym, ◌∙◌, ap, subst, arith,
}
use trillian_serverless.SumDb.Service.Levels.{pow_add, pow_pos}
use trillian_serverless.Serverless.Layout.Tile.{
  u64, shl, node_coords_to_tile_address, partial_tile_size,
}
use trillian_serverless.Feeder.SumDb.Partial.{new_tile_broker-partial_tile_size}
use trillian_serverless.Feeder.SumDb.{
  NodeId, TileIndex, tile_index_eq, convert_to_sum_db_tiles, new_tile_broker, partial,
}

-- The last leaf below a node, in units of the node.
last_leaf_div : (w i : ℕ) → 0 < w → (w * (i + 1) - 1) / w ≡ i
last_leaf_div w i pos =
    let e : w * (i + 1) - 1 ≡ (w - 1) + w * i = grind (arith, mul-add w i 1) in
    let f = add-mul-div_left (w - 1) i {y = w} pos in
    let z : (w - 1) / w ≡ 0 = div-eq_of_lt (omega (arith, pos)) in
    ap (λ x. x / w) e ∙ f ∙ (omega (arith, z))

-- The part of a number within a block, in units.
mod-div : (x a b : ℕ) → 0 < a → 0 < b → x % (a * b) / a ≡ x / a % b
mod-div x a b pa pb =
    let m = x % (a * b) in
    let q = x / (a * b) in
    let e : x ≡ m + a * (b * q) = sym (mod-add-div x (a * b)) ∙ ap (λ y. m + y) (mul_assoc a b q) in
    let f = ap (λ y. y / a) e ∙ add-mul-div_left m (b * q) {y = a} pa in
    let whole : 0 < a * b = mul-le-mul pa pb in
    let inside : m < b * a = omega (arith, mod-lt x whole, mul_comm a b) in
    let small : m / a < b = (div-lt_iff_lt-mul pa).1 inside in
    let g = ap (λ y. y % b) f ∙ add-mul-mod_self_left (m / a) b q in sym (g ∙ mod-eq_of_lt small)

-- The parts of the conversion.
abbrev converted : ℕ → ℕ → ℕ → ℕ → ℕ → TileIndex × NodeId
converted level inner last_leaf tile_leaves w = (
  record { level = level; offset = last_leaf / tile_leaves },
  record { level = inner; index = last_leaf % tile_leaves / w },
)

abbrev placed : ℕ → ℕ → ℕ → ℕ → TileIndex × NodeId
placed level inner offset index =
    (record { level = level; offset = offset }, record { level = inner; index = index })

step_up : (i : ℕ) → 1 ≤ i + 1
step_up i = omega arith

-- `- 1`, with its wrap-around.
one_less : (x : ℕ) → 0 < x → x < 2 ^ 64 → u64 (x + (2 ^ 64 - 1)) ≡ x - 1
one_less x pos lt = omega arith

small_power : (k : ℕ) → k ≤ 63 → shl 1 k ≡ 2 ^ k
small_power k h =
    let le : 2 ^ k ≤ 2 ^ 63 = pow-le-pow_right {n = 2} (omega arith) h in
    let e : 1 * 2 ^ k ≡ 2 ^ k = omega arith in
    ap (λ x. x % 2 ^ 64) e ∙ mod-eq_of_lt (omega (arith, le))

-- The node is in the tile, and at the place in it, that the layout of serverless logs gives.
convert_to_sum_db_tiles_lem :
    (n : NodeId)
    → n.level < 56
    → (n.index + 1) * 2 ^ n.level < 2 ^ 64
    → let a = node_coords_to_tile_address n.level n.index in
      convert_to_sum_db_tiles n ≡ (
        record { level = a.tile_level; offset = a.tile_index },
        record { level = a.node_level; index = a.node_index },
      )
unfolding convert_to_sum_db_tiles node_coords_to_tile_address
convert_to_sum_db_tiles_lem n low fits =
    let l = n.level in
    let i = n.index in
    let s = l / 8 in
    let inner = l % 8 in
    let w = 2 ^ l in
    let row = 2 ^ (8 - inner) in
    let pos = pow_pos l in
    let node : shl 1 l ≡ w = small_power l (omega (arith, low)) in
    let wide : 2 ^ ((1 + s) * 8) ≡ w * row =
      let e : (1 + s) * 8 ≡ l + (8 - inner) = omega arith in
      ap (λ k. 2 ^ k) e ∙ pow_add 2 l (8 - inner) in
    let tile_leaves : shl 1 ((1 + s) * 8) ≡ w * row =
      small_power ((1 + s) * 8) (omega (arith, low)) ∙ wide in
    let across : shl 1 (8 - inner) ≡ row = small_power (8 - inner) (omega arith) in
    let count : i + 1 < 2 ^ 64 = omega (arith, fits, mul-le-mul_left (i + 1) pos) in
    let leaves : w * (i + 1) < 2 ^ 64 = omega (arith, fits, mul_comm (i + 1) w) in
    let some_leaf : 0 < w * (i + 1) = omega (arith, mul-le-mul_left w (step_up i), pos) in
    let last : u64 (u64 (shl 1 l * u64 (i + 1)) + (2 ^ 64 - 1)) ≡ w * (i + 1) - 1 =
      let e : shl 1 l * u64 (i + 1) ≡ w * (i + 1) =
        ap (λ x. x * u64 (i + 1)) node ∙ ap (λ x. w * x) (mod-eq_of_lt count) in
      ap (λ x. u64 (u64 x + (2 ^ 64 - 1))) e
      ∙ ap (λ x. u64 (x + (2 ^ 64 - 1))) (mod-eq_of_lt leaves)
      ∙ one_less (w * (i + 1)) some_leaf leaves in
    let unit = last_leaf_div w i pos in
    let offset = sym (div-div-eq-div-mul (w * (i + 1) - 1) w row) ∙ ap (λ x. x / row) unit in
    let index =
      mod-div (w * (i + 1) - 1) w row pos (pow_pos (8 - inner)) ∙ ap (λ x. x % row) unit in
    ap (λ x. converted s inner x (shl 1 ((1 + s) * 8)) (shl 1 l)) last
    ∙ ap (λ x. converted s inner (w * (i + 1) - 1) x (shl 1 l)) tile_leaves
    ∙ ap (λ x. converted s inner (w * (i + 1) - 1) (w * row) x) node
    ∙ ap (λ x. placed s inner x ((w * (i + 1) - 1) % (w * row) / w)) offset
    ∙ ap (λ x. placed s inner (i / row) x) index
    ∙ ap (λ x. placed s inner (i / x) (i % x)) (sym across)

tile_in_log :
    (l i size : ℕ) → (i + 1) * 2 ^ l ≤ size → i / 2 ^ (8 - l % 8) ≤ size / 2 ^ (l / 8 * 8) / 256
tile_in_log l i size fits =
    let w = 2 ^ l in
    let row = 2 ^ (8 - l % 8) in
    let e : l / 8 * 8 + 8 ≡ l + (8 - l % 8) = omega arith in
    let f : 2 ^ (l / 8 * 8) * 256 ≡ w * row =
      sym (pow_add 2 (l / 8 * 8) 8) ∙ ap (λ x. 2 ^ x) e ∙ pow_add 2 l (8 - l % 8) in
    let g : size / 2 ^ (l / 8 * 8) / 256 ≡ size / w / row =
      div-div-eq-div-mul size (2 ^ (l / 8 * 8)) 256
      ∙ ap (λ x. size / x) f
      ∙ sym (div-div-eq-div-mul size w row) in
    let before : i * w ≤ size = grind (arith, add-mul i 1 w) in
    let h : i ≤ size / w = (le-div_iff_mul-le (pow_pos l)).1 before in
    let floor : i / row * row ≤ size / w =
      omega (arith, mul-div-le i row, mul_comm (i / row) row, h) in
    subst (λ x. i / row ≤ x) (sym g) ((le-div_iff_mul-le (pow_pos (8 - l % 8))).1 floor)

-- For a node of a log of `size` entries, below level 56: the feeder finds it in the tile, and at
-- the place in the tile, that the layout of serverless logs has for it, and it asks for the partial
-- size that this layout has for the tile.
pub convert_to_sum_db_tiles-node_coords_to_tile_address :
    (n : NodeId) (size : ℕ)
    → n.level < 56
    → (n.index + 1) * 2 ^ n.level ≤ size
    → size < 2 ^ 64
    → let a = node_coords_to_tile_address n.level n.index in
      let i : TileIndex = record { level = a.tile_level; offset = a.tile_index } in
      (convert_to_sum_db_tiles n ≡ (i, record { level = a.node_level; index = a.node_index }))
      × (partial (new_tile_broker size) i ≡ partial_tile_size a.tile_level a.tile_index size)
unfolding node_coords_to_tile_address
convert_to_sum_db_tiles-node_coords_to_tile_address n size low fits lt =
    let across = small_power (8 - n.level % 8) (omega arith) in
    let within = tile_in_log n.level n.index size fits in
    (
      convert_to_sum_db_tiles_lem n low (omega (arith, fits, lt)),
      new_tile_broker-partial_tile_size (n.level / 8) (n.index / shl 1 (8 - n.level % 8)) size
          (omega (arith, low)) lt
          (subst (λ x. n.index / x ≤ size / 2 ^ (n.level / 8 * 8) / 256) (sym across) within),
    )
