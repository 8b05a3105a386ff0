-- ===== src/Serverless/Integrate.antt =====
-- The integration of sequenced entries (serverless/pkg/log/integrate.go). The Merkle functions are
-- parameters; where the library calls a visitor, its model gives the nodes in the order of the
-- calls.
pub mod Cache
pub mod Laws
pub mod Bounds
pub mod Tests
use trillian_serverless.Base.{
  ℕ, zero, suc, ◌+◌, ◌-◌, String, Bool, true, false, ◌&&◌, not, List, [], ◌∷◌, ◌++◌, Bytes, Option,
  none, some, Result, ok, err, or_fail, Eq, ◌=?◌, bytes_eq, if◌then◌else◌, ltb, leb, ◌==◌, length,
  get_elem?, set, replicate,
}
use trillian_serverless.Base.Dict.{Dict, lookup, insert}
use trillian_serverless.Base.Exec.{Exec, pure, raise, lift, recast, ◌>>=◌, ◌>>◌}
use trillian_serverless.Formats.{Checkpoint, Hashes}
use trillian_serverless.Std.Files.{Files}
use trillian_serverless.Serverless.Api.{Tile}
use trillian_serverless.Serverless.Client.{
  ClientError, GetTileFunc, Merkle, NodeId, TileKey, tile_key_eq, fetch_range_nodes,
}
use trillian_serverless.Serverless.Layout.Tile.{node_coords_to_tile_address, tile_node_key}
use trillian_serverless.Serverless.Storage.{
  StorageError, missing, panic, failed, Store, get_tile, store_tile, write_checkpoint, sequence,
  scan_sequenced,
}

-- `Storage`
pub record LogStorage (S : Type 0) : Type 1 where
  pub read_tile : ℕ → ℕ → ℕ → S → Result StorageError Tile
  pub put_tile : ℕ → ℕ → Tile → Exec S StorageError (Unit {0})
  pub put_checkpoint : Bytes → Exec S StorageError (Unit {0})
  pub sequence_leaf : Bytes → Bytes → Exec S StorageError ℕ
  pub scan :
      {V : Type 0} → ℕ → (ℕ → Bytes → Exec V StorageError (Unit {0})) → S → Exec V StorageError ℕ

-- The storage in files, with fuel for its two loops.
abbrev pub file_storage : (F : Files) → ℕ → LogStorage (Store F)
file_storage F fuel = record {
  read_tile = get_tile F;
  put_tile = store_tile F;
  put_checkpoint = write_checkpoint F;
  sequence_leaf = sequence F fuel;
  scan = scan_sequenced F fuel;
}

-- `tileCache`: the tiles that are to be written; the function that reads a tile is passed beside
-- it.
abbrev pub Tiles : Type 0
Tiles = Dict TileKey Tile

abbrev pub ReadTile : Type 0
ReadTile = ℕ → ℕ → Result StorageError Tile

abbrev pub Visits : Type 0
Visits = List (NodeId × Bytes)

abbrev pub no_tile : Tile
no_tile = record { num_leaves = 0; nodes = [] }

-- The tile that `Visit` works on: from the cache, read, or a new one.
unfoldable pub visited_tile : ReadTile → TileKey → Tiles → Result StorageError Tile
visited_tile read key tiles = elim (lookup key tiles) [
  | some t ↦ ok t
  | none ↦ elim (read key.tile_level key.tile_index) [
    | ok t ↦ ok t
    | err missing ↦ ok no_tile
    | err _ ↦ err panic
  ]
]

-- The nodes with room for an index: as many nil nodes as are wanting.
abbrev pub with_room : ℕ → List (Option Bytes) → List (Option Bytes)
with_room i nodes =
    if leb (length nodes) i then nodes ++ replicate (i - length nodes + 1) none else nodes

unfoldable pub set_node : ℕ → ℕ → Bytes → Tile → Tile
set_node node_level node_index hash t =
    let idx = tile_node_key node_level node_index in
    record {
      num_leaves =
          if node_level == 0 && leb t.num_leaves node_index then node_index + 1 else t.num_leaves;
      nodes = set (with_room idx t.nodes) idx (some hash);
    }

unfoldable pub visit : ReadTile → NodeId → Bytes → Exec Tiles StorageError (Unit {0})
visit read id hash tiles =
    let a = node_coords_to_tile_address id.level id.index in
    let key : TileKey = record { tile_level = a.tile_level; tile_index = a.tile_index } in
    elim (visited_tile read key tiles) [
      | err e ↦ (err e, tiles)
      | ok t ↦ (ok tt, insert key (set_node a.node_level a.node_index hash t) tiles)
    ]

-- The visits that a call of the Merkle library makes.
unfoldable pub visits : ReadTile → Visits → Exec Tiles StorageError (Unit {0})
visits read [] = pure tt
visits read ((id, hash) ∷ vs) = visit read id hash >> visits read vs

-- What `Integrate` calls of the Merkle library besides. `Append` gives the range and the visits,
-- and its error is not looked at; `AppendRange` gives both, whether it fails or not.
pub record Builder (Range : Type 0) : Type 0 where
  pub merkle : Merkle Range
  pub hash_leaf : Bytes → Bytes
  pub new_empty_range : ℕ → Range
  pub append : Range → Bytes → Range × Visits
  pub append_range : Range → Range → Range × Visits × Result String (Unit {0})
  pub end : Range → ℕ

-- An error that `%w` wraps.
abbrev pub wrap : String → StorageError → StorageError
wrap m missing = missing
wrap m panic = panic
wrap m _ = failed m

abbrev pub client_error : StorageError → ClientError
client_error missing = ClientError.not_found
client_error panic = ClientError.panic
client_error _ = ClientError.failed "failed to get tile"

abbrev pub fetch_error : ClientError → StorageError
fetch_error ClientError.not_found = missing
fetch_error ClientError.panic = panic
fetch_error _ = failed "failed to fetch compact range nodes"

unfoldable pub store_tiles :
    {S : Type 0} → LogStorage S → List (TileKey × Tile) → Exec S StorageError (Unit {0})
store_tiles st [] = pure tt
store_tiles st ((k, t) ∷ ts) = do
  recast (st.put_tile k.tile_level k.tile_index t) (wrap "failed to store tile")
  store_tiles st ts

module _ {Range : Type 0} (b : Builder Range) where
  -- The range over the log as it is stored, if its root can be had.
  unfoldable pub base_range : ℕ → ReadTile → Result StorageError Range
  base_range size read =
      elim (fetch_range_nodes b.merkle size (λ l i. or_fail (read l i) client_error)) [
        | err e ↦ err (fetch_error e)
        | ok hashes ↦ elim (b.merkle.compact.new_range 0 size hashes) [
          | err e ↦ err (failed e)
          | ok base ↦ elim (b.merkle.compact.get_root_hash base) [
            | err e ↦ err (failed e)
            | ok _ ↦ ok base
          ]
        ]
      ]

  -- The function that `ScanSequenced` calls.
  unfoldable pub integrate_entry :
      ReadTile → ℕ → Bytes → Exec (Range × Tiles) StorageError (Unit {0})
  integrate_entry read seq entry (r, tiles) =
      let (grown, vs) = b.append r (b.hash_leaf entry) in
      let (result, t) = visits read vs tiles in (result, (grown, t))

  -- The new range merged into the old one: the new checkpoint.
  unfoldable pub merge : ReadTile → Range → Range → Exec Tiles StorageError Checkpoint
  merge read base new tiles =
      let (merged, vs, result) = b.append_range base new in
      (do
        visits read vs
        lift (or_fail result failed)
        root ← lift (or_fail (b.merkle.compact.get_root_hash merged) failed)
        pure (record { origin = ""; size = b.end merged; hash = root }))
        tiles

  module _ {S : Type 0} (st : LogStorage S) (order : Tiles → List (TileKey × Tile)) where
    -- The tiles are stored once all is computed.
    abbrev pub store_merged :
        Result StorageError Checkpoint × Tiles → Exec S StorageError (Option Checkpoint)
    store_merged (err e, tiles) s = (err e, s)
    store_merged (ok new_cp, tiles) s = (store_tiles st (order tiles) >>= λ _. pure (some new_cp)) s

    -- `Integrate` once the entries are scanned.
    abbrev pub integrate_scanned :
        ReadTile
        → Range
        → Result StorageError ℕ × (Range × Tiles)
        → Exec S StorageError (Option Checkpoint)
    integrate_scanned read base (err e, v) s = (err (wrap "error while integrating" e), s)
    integrate_scanned read base (ok n, (new, tiles)) s =
        if n == 0 then (ok none, s) else store_merged (merge read base new tiles) s

    -- `order` is the order in which Go goes through the map of tiles.
    unfoldable pub integrate : Checkpoint → Exec S StorageError (Option Checkpoint)
    integrate cp s =
        let read : ReadTile = λ l i. st.read_tile l i cp.size s in
        elim (base_range cp.size read) [
          | err e ↦ (err e, s)
          | ok base ↦
              integrate_scanned read base
                (st.scan cp.size (integrate_entry read) s (b.new_empty_range cp.size, [])) s
        ]
