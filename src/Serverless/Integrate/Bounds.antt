-- ===== src/Serverless/Integrate/Bounds.antt =====
-- The tiles of the integration have the size that the storage asks for.
use trillian_serverless.Base.{
  ℕ, zero, suc, ◌+◌, ◌-◌, ◌*◌, ◌^◌, ◌≤◌, ◌<◌, ◌==◌, ◌≡◌, ◌≢◌, ◌∙◌, inl, inr, false, ◌&&◌, [], ◌∷◌,
  Bytes, none, some, ◌=?◌, if◌then◌else◌, leb, length, length-set, arith, Bool-cases,
}
use trillian_serverless.Base.Dict.{insert}
use trillian_serverless.Serverless.Api.{Tile}
use trillian_serverless.Serverless.Client.{TileKey, tile_key_eq}
use trillian_serverless.Serverless.Layout.Tile.{
  node_coords_to_tile_address_lem, tile_node_key, tile_node_key-in_order, in_order,
}
use trillian_serverless.Serverless.Integrate.{ReadTile, Tiles, Visits, with_room, set_node, visits}
use trillian_serverless.Serverless.Integrate.Cache.{
  hash_at, hash_at-set_node, length-with_room_le, key_of, viewed, updated, Readable, visit_lem,
  viewed-insert,
}

-- At most 256 leaves and 511 nodes, and no leaf has a hash beyond the number of leaves.
pub record Fit (t : Tile) : Type 0 where
  pub few_leaves : t.num_leaves ≤ 256
  pub few_nodes : length t.nodes ≤ 511
  pub counted : (i : ℕ) → t.num_leaves ≤ i → hash_at t (2 * i) ≡ none

module _ (l i : ℕ) (h : Bytes) (t : Tile) (low : l < 8) (within : i < 2 ^ (8 - l))
    (fit : Fit t) where
  set_node-leaves : (set_node l i h t).num_leaves ≤ 256
  unfolding set_node
  set_node-leaves = leaves l within
    where
      leaves :
          (l : ℕ)
          → i < 2 ^ (8 - l)
          → (if l == 0 && leb t.num_leaves i then i + 1 else t.num_leaves) ≤ 256
      leaves zero k = ground (arith, fit.few_leaves, k)
      leaves (suc l) k = ground (arith, fit.few_leaves)

  set_node-nodes : length (set_node l i h t).nodes ≤ 511
  unfolding set_node
  set_node-nodes =
      let (key, small) = tile_node_key-in_order l i low within in
      let idx = tile_node_key l i in
      rw (length-set (with_room idx t.nodes) idx (some h))
        (length-with_room_le idx 511 t.nodes (omega (arith, key, small)) fit.few_nodes)

  -- A leaf beyond the new count is not the node that is set.
  other_key :
      (j : ℕ) → (set_node l i h t).num_leaves ≤ j → (in_order l i ≢ 2 * j) × (t.num_leaves ≤ j)
  unfolding set_node
  other_key j = other l
    where
      other :
          (l : ℕ)
          → (if l == 0 && leb t.num_leaves i then i + 1 else t.num_leaves) ≤ j
          → (in_order l i ≢ 2 * j) × (t.num_leaves ≤ j)
      other zero k = ((λ e. ground (arith, k, e)), ground (arith, k))
      other (suc l) k = ((λ e. absurd (omega (arith, e))), ground (arith, k))

  set_node-Fit : Fit (set_node l i h t)
  set_node-Fit = record {
    few_leaves = set_node-leaves;
    few_nodes = set_node-nodes;
    counted = λ j k.
        let (ne, old) = other_key j k in
        let key = (tile_node_key-in_order l i low within).0 in
        let miss : (tile_node_key l i == 2 * j) ≡ false = ground (arith, ne, key) in
        hash_at-set_node l i (2 * j) h t ∙ rw miss (fit.counted j old);
  }

-- Every tile, in the cache over the storage, fits.
abbrev pub AllFit : ReadTile → Tiles → Type 0
AllFit read tiles = (k : TileKey) → Fit (viewed read k tiles)

-- Visits keep every tile within its bounds, if the storage's tiles are and each can be read or is
-- missing.
pub visits-AllFit :
    (read : ReadTile) (vs : Visits) (tiles : Tiles)
    → Readable read
    → AllFit read tiles
    → AllFit read (visits read vs tiles).1
unfolding visits
visits-AllFit read [] tiles h fit = fit
visits-AllFit read ((id, hash) ∷ vs) tiles h fit = rw (visit_lem read id hash tiles h) (
    visits-AllFit read vs (insert (key_of id) (updated read id hash tiles) tiles) h (λ k.
      rw (viewed-insert read k (key_of id) (updated read id hash tiles) tiles)
        (elim (Bool-cases (k =? key_of id)) [
          | inl same ↦
              let (a, b, low, within) = node_coords_to_tile_address_lem id.level id.index in
              rw same
                (set_node-Fit _ _ hash (viewed read (key_of id) tiles) low within (fit (key_of id)))
          | inr other ↦ rw other (fit k)
        ])))
