-- ===== src/MapVerifier.antt =====
-- The check that a map commits to a key and a value
-- (experimental/batchmap/sumdb/verification/inclusion.go). The tiles, the hashes and HStar3 of the
-- Trillian repository are parameters.
pub mod Laws
pub mod Complete
mod Tests
use trillian_serverless.Base.{
  ℕ, zero, suc, ◌+◌, ◌*◌, ◌-◌, String, Bool, not, List, [], ◌∷◌, ◌++◌, map, Bytes, Option, none,
  some, Result, ok, err, ◌>>=◌, ◌>>◌, fail_if, or_fail, expect, if◌then◌else◌, ltb, ◌=?◌, bytes_eq,
  length, take, drop,
}

-- `batchmap.TileLeaf` and `batchmap.Tile`
pub record TileLeaf : Type 0 where
  pub path : Bytes
  pub hash : Bytes

pub record Tile : Type 0 where
  pub path : Bytes
  pub leaves : List TileLeaf
  pub root_hash : Bytes

-- `smt.Node`: the path of its identifier, whose depth is its length in bits, and its hash.
pub record Node : Type 0 where
  pub path : Bytes
  pub hash : Bytes

-- How a check ends without a root: a slice out of range, or an error.
pub data MapError : Type 0 where
  panic : MapError
  failed : String → MapError

-- `TileFetch`
abbrev pub TileFetch : Type 0
TileFetch = ℕ → Bytes → Result String Tile

-- The fields of a `MapVerifier`, and what is called with its tree identifier: the hash of keys,
-- that of leaves, `NewHStar3` for an empty tree at a depth up to a top, and its `Update`.
pub record MapVerifier : Type 1 where
  pub tile_fetch : TileFetch
  pub prefix_strata : ℕ
  pub hash_key : Bytes → Bytes
  pub hash_leaf : Bytes → Bytes → Bytes
  pub HStar3 : Type 0
  pub new_h_star3 : List Node → ℕ → ℕ → Result String HStar3
  pub update : HStar3 → Result String (List Node)

unfoldable pub to_node : Bytes → TileLeaf → Node
to_node prefix l = record { path = prefix ++ l.path; hash = l.hash }

-- `key[:n]`: beyond the length of the key it is a panic, for a slice with no room behind it.
abbrev pub slice_to : Bytes → ℕ → Result MapError Bytes
slice_to key n = if ltb (length key) n then err panic else ok (take n key)

-- The leaf that the loop over the leaves ends with: the last one at the path.
unfoldable pub find_leaf : List TileLeaf → Bytes → Option TileLeaf
find_leaf [] need = none
find_leaf (l ∷ ls) need = elim (find_leaf ls need) [
  | some later ↦ some later
  | none ↦ if l.path =? need then some l else none
]

-- The hash of the one root.
abbrev pub one_root : List Node → Result MapError Bytes
one_root [] = err (failed "wrong number of roots")
one_root (n ∷ []) = ok n.hash
one_root (_ ∷ _ ∷ _) = err (failed "wrong number of roots")

module _ (v : MapVerifier) where
  -- `getTilesForKey`: the tiles for the prefixes from `i` bytes on, of which `left` are left.
  unfoldable pub get_tiles_from : ℕ → Bytes → ℕ → ℕ → Result MapError (List Tile)
  get_tiles_from rev key zero i = ok []
  get_tiles_from rev key (suc left) i = do
    tile_path ← slice_to key i
    tile ← or_fail (v.tile_fetch rev tile_path) (λ _. failed "failed to read tile")
    tiles ← get_tiles_from rev key left (i + 1)
    ok (tile ∷ tiles)

  unfoldable pub get_tiles_for_key : ℕ → Bytes → Result MapError (List Tile)
  get_tiles_for_key rev key = get_tiles_from rev key (v.prefix_strata + 1) 0

  -- The root that a tile's leaves hash to; `leaf` gives the depth.
  unfoldable pub hash_tile : Tile → TileLeaf → Result MapError Bytes
  unfolding to_node
  hash_tile tile leaf = do
    let nodes = map (to_node tile.path) tile.leaves
    hs ←
        or_fail
          (v.new_h_star3 nodes ((length tile.path + length leaf.path) * 8) (length tile.path * 8))
          (λ _. failed "failed to create HStar3")
    res ← or_fail (v.update hs) (λ _. failed "failed to hash tile")
    one_root res

  -- A round of the loop: the path and the value that the tile above must have.
  unfoldable pub check_tile : Tile → Bytes × Bytes → Result MapError (Bytes × Bytes)
  unfolding find_leaf
  check_tile tile need = do
    want ← slice_to need.0 (length tile.path)
    fail_if (not (tile.path =? want)) (failed "wrong tile found")
    let need_leaf_path = drop (length tile.path) need.0
    leaf ← expect (find_leaf tile.leaves need_leaf_path) (failed "couldn't find expected leaf")
    fail_if (not (leaf.hash =? need.1)) (failed "wrong leaf value")
    root ← hash_tile tile leaf
    fail_if (not (root =? tile.root_hash)) (failed "wrong root hash")
    ok (tile.path, root)

  -- The loop over the tiles, from the last to the first.
  unfoldable pub check_tiles : List Tile → Bytes × Bytes → Result MapError (Bytes × Bytes)
  check_tiles [] need = ok need
  check_tiles (tile ∷ tiles) need = check_tiles tiles need >>= check_tile tile

  unfoldable pub check_inclusion : ℕ → Bytes → Bytes → Result MapError Bytes
  check_inclusion rev key value = do
    let key_path = v.hash_key key
    tiles ← get_tiles_for_key rev key_path
    top ← check_tiles tiles (key_path, v.hash_leaf key_path value)
    ok top.1
