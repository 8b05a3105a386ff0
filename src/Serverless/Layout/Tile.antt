-- ===== src/Serverless/Layout/Tile.antt =====
-- Tile coordinates (serverless/api/layout/tile.go, and `TileNodeKey` of serverless/api/state.go).
-- Every number is a uint64 or a uint, with its wrap-around.
use trillian_serverless.Base.{
  ℕ, zero, suc, ◌+◌, ◌-◌, ◌*◌, ◌/◌, ◌%◌, ◌^◌, ◌<◌, min, ◌≡◌, refl, sym, ◌∙◌, arith, ltb, ◌==◌,
  if◌then◌else◌,
}

abbrev pub u64 : ℕ → ℕ
u64 x = x % 2 ^ 64

-- The shifts of a uint64: a count of 64 or more gives 0.
abbrev pub shl : ℕ → ℕ → ℕ
shl x k = u64 (x * 2 ^ k)

abbrev pub shr : ℕ → ℕ → ℕ
shr x k = x / 2 ^ k

unfoldable pub partial_tile_size : ℕ → ℕ → ℕ → ℕ
partial_tile_size level index log_size =
    let size_at_level = shr log_size (u64 (level * 8)) in
    let full_tiles = size_at_level / 256 in if ltb index full_tiles then 0 else size_at_level % 256

pub record TileAddress : Type 0 where
  pub tile_level : ℕ
  pub tile_index : ℕ
  pub node_level : ℕ
  pub node_index : ℕ

unfoldable pub node_coords_to_tile_address : ℕ → ℕ → TileAddress
node_coords_to_tile_address tree_level tree_index =
    let tile_row_width = shl 1 (8 - tree_level % 8) in
    record {
      tile_level = tree_level / 8;
      tile_index = tree_index / tile_row_width;
      node_level = tree_level % 8;
      node_index = tree_index % tile_row_width;
    }

unfoldable pub tile_node_key : ℕ → ℕ → ℕ
tile_node_key level index = u64 (u64 (shl 1 (level + 1) * index) + shl 1 level + (2 ^ 64 - 1))

-- The tile at `index` of a level that holds `size` hashes has this many of them.
abbrev pub tile_width : ℕ → ℕ → ℕ
tile_width size index = min 256 (size - 256 * index)

partial_width :
    (size index : ℕ)
    → 256 * index < size
    → let p = if ltb index (size / 256) then 0 else size % 256 in
      (if p == 0 then 256 else p) ≡ tile_width size index
partial_width size index h = ground arith

-- For a tile that holds at least one hash of a log of `log_size` entries, the partial size is the
-- number of its hashes, and 0 stands for a full tile.
pub partial_tile_size_lem :
    (level index log_size : ℕ)
    → level < 8
    → 256 * index < log_size / 2 ^ (level * 8)
    → let p = partial_tile_size level index log_size in
      (if p == 0 then 256 else p) ≡ tile_width (log_size / 2 ^ (level * 8)) index
partial_tile_size_lem level index log_size h k =
    let e : u64 (level * 8) ≡ level * 8 = omega arith in
    unfold partial_tile_size in rw e (partial_width (log_size / 2 ^ (level * 8)) index k)

-- A statement about the levels within a tile, level by level.
below_eight :
    (P : ℕ → Type 0) → P 0 → P 1 → P 2 → P 3 → P 4 → P 5 → P 6 → P 7 → (l : ℕ) → l < 8 → P l
below_eight P a b c d e f g h zero _ = a
below_eight P a b c d e f g h (suc zero) _ = b
below_eight P a b c d e f g h (suc (suc zero)) _ = c
below_eight P a b c d e f g h (suc (suc (suc zero))) _ = d
below_eight P a b c d e f g h (suc (suc (suc (suc zero)))) _ = e
below_eight P a b c d e f g h (suc (suc (suc (suc (suc zero))))) _ = f
below_eight P a b c d e f g h (suc (suc (suc (suc (suc (suc zero)))))) _ = g
below_eight P a b c d e f g h (suc (suc (suc (suc (suc (suc (suc zero))))))) _ = h
below_eight P a b c d e f g h (suc (suc (suc (suc (suc (suc (suc (suc l)))))))) k =
    absurd (omega arith)

row_width : (l : ℕ) → l < 8 → shl 1 (8 - l) ≡ 2 ^ (8 - l)
row_width = below_eight (λ l. shl 1 (8 - l) ≡ 2 ^ (8 - l)) refl refl refl refl refl refl refl refl

-- The position of a node in the in-order numbering of a tile: a leaf has an even key, and going
-- up a level doubles and adds one.
abbrev pub in_order : ℕ → ℕ → ℕ
in_order zero i = 2 * i
in_order (suc l) i = 2 * in_order l i + 1

KeysInOrder : ℕ → Type 0
KeysInOrder l =
    (i : ℕ) → i < 2 ^ (8 - l) → (tile_node_key l i ≡ in_order l i) × (in_order l i < 511)

-- Within a tile the key is the in-order number, and it is below 511: nothing wraps around.
pub tile_node_key-in_order :
    (l i : ℕ) → l < 8 → i < 2 ^ (8 - l) → (tile_node_key l i ≡ in_order l i) × (in_order l i < 511)
unfolding KeysInOrder tile_node_key
tile_node_key-in_order l i h k =
    below_eight KeysInOrder (λ i h. omega arith) (λ i h. omega arith) (λ i h. omega arith)
      (λ i h. omega arith) (λ i h. omega arith) (λ i h. omega arith) (λ i h. omega arith)
      (λ i h. omega arith) l h i k

in_order-injective : (l m i j : ℕ) → in_order l i ≡ in_order m j → (l ≡ m) × (i ≡ j)
in_order-injective zero zero i j e = (refl, omega arith)
in_order-injective zero (suc m) i j e = absurd (omega arith)
in_order-injective (suc l) zero i j e = absurd (omega arith)
in_order-injective (suc l) (suc m) i j e =
    let (p, q) = in_order-injective l m i j (omega arith) in (omega arith, q)

-- Two nodes of a tile have the same key only if they are the same node.
pub tile_node_key-injective :
    (l m i j : ℕ)
    → l < 8
    → m < 8
    → i < 2 ^ (8 - l)
    → j < 2 ^ (8 - m)
    → tile_node_key l i ≡ tile_node_key m j
    → (l ≡ m) × (i ≡ j)
tile_node_key-injective l m i j hl hm hi hj e =
    in_order-injective l m i j
      (sym (tile_node_key-in_order l i hl hi).0 ∙ (e ∙ (tile_node_key-in_order m j hm hj).0))

-- The address of a node says where it is: its level and its index in the tree come back, the
-- level within the tile is below 8, and the index within the tile is below the width of its row.
pub node_coords_to_tile_address_lem :
    (tree_level tree_index : ℕ)
    → let a = node_coords_to_tile_address tree_level tree_index in
      (a.tile_level * 8 + a.node_level ≡ tree_level)
      × (a.tile_index * 2 ^ (8 - a.node_level) + a.node_index ≡ tree_index)
      × (a.node_level < 8)
      × (a.node_index < 2 ^ (8 - a.node_level))
unfolding node_coords_to_tile_address
node_coords_to_tile_address_lem tree_level tree_index =
    let low : tree_level % 8 < 8 = omega arith in
    (
      omega arith,
      rw (row_width (tree_level % 8) low) (split (tree_level % 8) tree_index low).0,
      low,
      rw (row_width (tree_level % 8) low) (split (tree_level % 8) tree_index low).1,
    )
  where
    Split : ℕ → Type 0
    Split l =
        (i : ℕ)
        → (i / 2 ^ (8 - l) * 2 ^ (8 - l) + i % 2 ^ (8 - l) ≡ i) × (i % 2 ^ (8 - l) < 2 ^ (8 - l))

    split :
        (l i : ℕ)
        → l < 8
        → (i / 2 ^ (8 - l) * 2 ^ (8 - l) + i % 2 ^ (8 - l) ≡ i) × (i % 2 ^ (8 - l) < 2 ^ (8 - l))
    split l i h =
        below_eight Split (λ i. omega arith) (λ i. omega arith) (λ i. omega arith)
          (λ i. omega arith) (λ i. omega arith) (λ i. omega arith) (λ i. omega arith)
          (λ i. omega arith) l h i

-- No two nodes of the tree share a place: the same tile and the same key within it mean the same
-- level and the same index in the tree.
pub tile_address-injective :
    (l m i j : ℕ)
    → let a = node_coords_to_tile_address l i in
      let b = node_coords_to_tile_address m j in
      a.tile_level ≡ b.tile_level
      → a.tile_index ≡ b.tile_index
      → tile_node_key a.node_level a.node_index ≡ tile_node_key b.node_level b.node_index
      → (l ≡ m) × (i ≡ j)
tile_address-injective l m i j p q e =
    let a = node_coords_to_tile_address l i in
    let b = node_coords_to_tile_address m j in
    let (al, ai, ah, ak) = node_coords_to_tile_address_lem l i in
    let (bl, bi, bh, bk) = node_coords_to_tile_address_lem m j in
    let (x, y) =
      tile_node_key-injective a.node_level b.node_level a.node_index b.node_index ah bh ak bk e in
    (omega arith, cc (ai, bi, x, y, q))
