-- ===== src/Feeder/SumDb.antt =====
-- The feeder for the Go checksum database (internal/feeder/sumdb/sumdb_feeder.go): its proofs are
-- made of hashes in tiles. Numbers are uint64 or int, with the wrap-around of the shifts; a tile's
-- width does not wrap to 0, since levels stay below 56. The Merkle functions are parameters.
pub mod Laws
pub mod Partial
mod Tests
use trillian_serverless.Base.{
  ℕ, zero, suc, ◌+◌, ◌-◌, ◌*◌, ◌/◌, ◌%◌, ◌^◌, String, Bool, List, [], ◌∷◌, Bytes, Option, none,
  some, Result, ok, err, or_fail, Eq, ℕ_discrete, if◌then◌else◌, ltb, ◌==◌, length, take, drop,
}
use trillian_serverless.Base.Dict.{Dict, lookup, insert}
use trillian_serverless.Base.Exec.{Exec, pure, lift, guard, ◌>>=◌, ◌>>◌}
use trillian_serverless.Formats.{Hashes}
use trillian_serverless.Serverless.Layout.Tile.{shl, u64}
use trillian_serverless.SumDb.Client.{
  AuditError, failed, panic, Client, latest_checkpoint, tile_hashes,
}

abbrev pub tile_height : ℕ
tile_height = 8

abbrev pub leaves_per_tile : ℕ
leaves_per_tile = 256

-- `compact.NodeID`
pub record NodeId : Type 0 where
  pub level : ℕ
  pub index : ℕ

pub record TileIndex : Type 0 where
  pub level : ℕ
  pub offset : ℕ

instance unfoldable pub tile_index_eq : Eq TileIndex
unfolding ℕ_discrete
tile_index_eq = record { dec = hlevel ℕ_discrete }

unfoldable pub convert_to_sum_db_tiles : NodeId → TileIndex × NodeId
convert_to_sum_db_tiles n =
    let sdb_level = n.level / tile_height in
    let r_level = n.level % tile_height in
    let last_leaf = u64 (u64 (shl 1 n.level * u64 (n.index + 1)) + (2 ^ 64 - 1)) in
    let tile_leaves = shl 1 ((1 + sdb_level) * tile_height) in
    let sdb_offset = last_leaf / tile_leaves in
    let r_leaves = last_leaf % tile_leaves in
    let r_index = r_leaves / shl 1 n.level in
    (record { level = sdb_level; offset = sdb_offset }, record { level = r_level; index = r_index })

-- The loop of `newTileBroker`, for the level `l`: 8 rounds are enough for a uint64.
unfoldable pub partial_tiles : ℕ → ℕ → ℕ → ℕ → Dict TileIndex ℕ
partial_tiles zero l t o = []
partial_tiles (suc fuel) l t o =
    let above = partial_tiles fuel (l + 1) (t / leaves_per_tile) (t % leaves_per_tile) in
    insert (record { level = l; offset = t }) o (if t == 0 then [] else above)

-- `pts` of `newTileBroker`
unfoldable pub new_tile_broker : ℕ → Dict TileIndex ℕ
new_tile_broker size = partial_tiles 8 0 (size / leaves_per_tile) (size % leaves_per_tile)

-- A key that is missing in a map of numbers reads as 0.
abbrev pub or_zero : Option ℕ → ℕ
or_zero none = 0
or_zero (some n) = n

unfoldable pub partial : Dict TileIndex ℕ → TileIndex → ℕ
partial pts i = or_zero (lookup i pts)

-- The Merkle functions of `hash`, for the hasher of RFC 6962, and `compact.RangeNodes`.
pub record Ranges (Range : Type 0) : Type 0 where
  pub new_empty_range : ℕ → Range
  pub append : Range → Bytes → Range
  pub get_root_hash : Range → Result String Bytes
  pub range_nodes : ℕ → ℕ → List NodeId

module _ {Range : Type 0} (r : Ranges Range) (c : Client) where
  unfoldable pub append_leaves : Hashes → Range → Range
  append_leaves [] cr = cr
  append_leaves (l ∷ ls) cr = append_leaves ls (r.append cr l)

  unfoldable pub hash : Hashes → NodeId → Result AuditError Bytes
  hash leaves n =
      let left = shl n.index n.level in
      let right = shl (n.index + 1) n.level in
      if ltb (length leaves) right
      then err panic
      else or_fail
          (r.get_root_hash
            (append_leaves (take (right - left) (drop left leaves)) (r.new_empty_range 0)))
          (λ e. panic)

  -- The tile of the broker, with its cache as the state.
  unfoldable pub tile :
      Dict TileIndex ℕ → TileIndex → Exec (Dict TileIndex Hashes) AuditError Hashes
  tile pts i ts = elim (lookup i ts) [
    | some t ↦ (ok t, ts)
    | none ↦ elim (tile_hashes c i.level i.offset (partial pts i)) [
      | err e ↦ (err (failed "lookup failed"), ts)
      | ok hs ↦ (ok hs, insert i hs ts)
    ]
  ]

  -- The hashes of the nodes, one after the other.
  unfoldable pub node_hashes :
      Dict TileIndex ℕ → List NodeId → Exec (Dict TileIndex Hashes) AuditError Hashes
  node_hashes pts [] = pure []
  node_hashes pts (n ∷ ns) =
      let (i, inner) = convert_to_sum_db_tiles n in
      do t ← tile pts i; h ← lift (hash t inner); hs ← node_hashes pts ns; pure (h ∷ hs)

  unfoldable pub fetch_proof : ℕ → ℕ → Result AuditError Hashes
  fetch_proof from to = (node_hashes (new_tile_broker to) (r.range_nodes from to) []).0

  unfoldable pub fetch_checkpoint : Result AuditError Bytes
  fetch_checkpoint = elim (latest_checkpoint c) [
    | ok cp ↦ ok cp.raw
    | err e ↦ err (failed "failed to get latest checkpoint")
  ]
