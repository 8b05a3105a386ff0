-- ===== src/Serverless/Client.antt =====
-- The client of a serverless log (serverless/client/client.go). The fetcher, the Merkle functions
-- and the checkpoint parser are parameters.
pub mod Tracker
pub mod Consistency
use trillian_serverless.Base.{
  ℕ, zero, suc, ◌+◌, ◌-◌, ◌≤◌, ◌<◌, String, Bool, true, false, not, ◌≡◌, refl, List, [], ◌∷◌, ◌++◌,
  Bytes, Option, none, some, Result, ok, err, ◌>>=◌, ◌>>◌, fail_if, or_fail, expect, Eq, ◌=?◌,
  bytes_eq, ℕ_discrete, if◌then◌else◌, ltb, leb, ◌==◌, length, get_elem?,
}
use trillian_serverless.Base.Dict.{Dict, lookup, insert}
use trillian_serverless.Formats.{
  Checkpoint, Note, Verifier, Hashes, ParseCheckpoint, VerifyConsistency, Compact,
}
use trillian_serverless.Std.Numbers.{parse_uint}
use trillian_serverless.Std.Paths.{ascii, join_path}
use trillian_serverless.Serverless.Layout.Tile.{
  node_coords_to_tile_address, tile_node_key, partial_tile_size,
}
use trillian_serverless.Serverless.Layout.Paths.{seq_path, leaf_path, tile_path}
use trillian_serverless.Serverless.Api.{Tile, TextError, unmarshal_text}

-- How a call ends without a result. `not_found` is the error that wraps os.ErrNotExist.
pub data ClientError : Type 0 where
  not_found : ClientError
  failed : String → ClientError
  -- The smaller and the larger raw checkpoint, and the proof that does not hold.
  inconsistency : Bytes → Bytes → Hashes → ClientError
  -- An index out of range.
  panic : ClientError

-- `Fetcher`: the file at a path.
abbrev pub Fetcher : Type 0
Fetcher = Bytes → Result ClientError Bytes

-- `compact.NodeID`
pub record NodeId : Type 0 where
  pub level : ℕ
  pub index : ℕ

instance unfoldable pub node_id_eq : Eq NodeId
unfolding ℕ_discrete
node_id_eq = record { dec = hlevel ℕ_discrete }

-- `tileKey`
pub record TileKey : Type 0 where
  pub tile_level : ℕ
  pub tile_index : ℕ

instance unfoldable pub tile_key_eq : Eq TileKey
unfolding ℕ_discrete
tile_key_eq = record { dec = hlevel ℕ_discrete }

abbrev pub GetTileFunc : Type 0
GetTileFunc = ℕ → ℕ → Result ClientError Tile

-- `nodeCache`; the function that fetches tiles is passed beside it.
pub record NodeCache : Type 0 where
  pub log_size : ℕ
  pub ephemeral : Dict NodeId Bytes
  pub tiles : Dict TileKey Tile

unfoldable pub new_node_cache : ℕ → NodeCache
new_node_cache log_size = record { log_size = log_size; ephemeral = []; tiles = [] }

unfoldable pub set_ephemeral_node : NodeId → Bytes → NodeCache → NodeCache
set_ephemeral_node id h n = record n { ephemeral = insert id h n.ephemeral }

-- The ephemeral hash that is set for a node; an empty one counts as none.
abbrev ephemeral_hash : NodeId → NodeCache → Option Bytes
ephemeral_hash id n = elim (lookup id n.ephemeral) [
  | none ↦ none
  | some e ↦ if length e == 0 then none else some e
]

-- The node of a tile that `GetNode` has found.
unfoldable pub tile_node : Tile → ℕ → Result ClientError Bytes
tile_node t key = elim (get_elem? t.nodes key) [
  | none ↦ err (failed "node outside populated tile nodes")
  | some none ↦ err (failed "node unknown")
  | some (some h) ↦ ok h
]

-- The tile from the cache, or fetched and cached.
unfoldable pub cached_tile : GetTileFunc → ℕ → ℕ → NodeCache → Result ClientError Tile × NodeCache
cached_tile get_tile level index n =
    let key : TileKey = record { tile_level = level; tile_index = index } in
    elim (lookup key n.tiles) [
      | some t ↦ (ok t, n)
      | none ↦ elim (get_tile level index) [
        | err e ↦ (err e, n)
        | ok t ↦ (ok t, record n { tiles = insert key t n.tiles })
      ]
    ]

unfoldable pub get_node : GetTileFunc → NodeId → NodeCache → Result ClientError Bytes × NodeCache
get_node get_tile id n = elim (ephemeral_hash id n) [
  | some e ↦ (ok e, n)
  | none ↦
      let a = node_coords_to_tile_address id.level id.index in
      let (r, n') = cached_tile get_tile a.tile_level a.tile_index n in
      (r >>= (λ t. tile_node t (tile_node_key a.node_level a.node_index)), n')
]

-- The loop of `fetchNodes` and of `FetchRangeNodes`: the nodes in order, up to the first that
-- cannot be had.
unfoldable pub get_nodes :
    GetTileFunc → List NodeId → NodeCache → Result ClientError Hashes × NodeCache
get_nodes get_tile [] n = (ok [], n)
get_nodes get_tile (id ∷ ids) n =
    let (r, n') = get_node get_tile id n in
    let rest = get_nodes get_tile ids n' in
    elim r [
      | err e ↦ (err e, n')
      | ok h ↦ (elim rest.0 [ err e ↦ err e | ok hs ↦ ok (h ∷ hs) ], rest.1)
    ]

-- A panic of `UnmarshalText` is a panic of its caller.
abbrev text_error : TextError → ClientError
text_error TextError.panic = panic
text_error _ = failed "failed to parse tile"

unfoldable pub new_tile_fetcher : Fetcher → ℕ → GetTileFunc
new_tile_fetcher f log_size level index = do
  let size = partial_tile_size level index log_size
  let p = tile_path [] level index size
  t ← f (join_path (p.0 ∷ p.1 ∷ []))
  or_fail (unmarshal_text t) text_error

-- `proof.Nodes`: the nodes of a proof, and how their hashes are put together.
pub record Nodes : Type 0 where
  pub ids : List NodeId
  pub rehash : Hashes → Result String Hashes

-- What the client calls of the Merkle library, for the hasher at hand. `root_nodes` is
-- `GetRootHash` with a visitor: the root, and the ephemeral nodes in the order of the visits.
pub record Merkle (Range : Type 0) : Type 0 where
  pub compact : Compact Range
  pub range_nodes : ℕ → ℕ → List NodeId
  pub root_nodes : Range → Result String (Bytes × List (NodeId × Bytes))
  pub inclusion : ℕ → ℕ → Result String Nodes
  pub consistency : ℕ → ℕ → Result String Nodes
  pub verify_consistency : VerifyConsistency

-- `ProofBuilder`
pub record ProofBuilder : Type 0 where
  pub cp : Checkpoint
  pub node_cache : NodeCache

-- The visitor of `NewProofBuilder`.
unfoldable pub set_ephemeral_nodes : List (NodeId × Bytes) → NodeCache → NodeCache
unfolding set_ephemeral_node
set_ephemeral_nodes [] n = n
set_ephemeral_nodes ((id, h) ∷ ids) n = set_ephemeral_nodes ids (set_ephemeral_node id h n)

module _ {Range : Type 0} (m : Merkle Range) where
  -- It has a node cache of its own.
  unfoldable pub fetch_range_nodes : ℕ → GetTileFunc → Result ClientError Hashes
  fetch_range_nodes s gt = (get_nodes gt (m.range_nodes 0 s) (new_node_cache s)).0

  unfoldable pub new_proof_builder : Checkpoint → Fetcher → Result ClientError ProofBuilder
  new_proof_builder cp f = do
    let tf = new_tile_fetcher f cp.size
    hashes ← fetch_range_nodes cp.size tf
    r ← or_fail (m.compact.new_range 0 cp.size hashes) failed
    root ← or_fail (m.root_nodes r) failed
    fail_if (not (cp.hash =? root.0)) (failed "invalid checkpoint hash")
    ok (record { cp = cp; node_cache = set_ephemeral_nodes root.1 (new_node_cache cp.size) })

  -- The proof, and the builder with what it has cached.
  unfoldable pub fetch_nodes :
      Fetcher → Nodes → ProofBuilder → Result ClientError Hashes × ProofBuilder
  fetch_nodes f nodes pb =
      let (r, n) = get_nodes (new_tile_fetcher f pb.cp.size) nodes.ids pb.node_cache in
      (r >>= (λ hs. or_fail (nodes.rehash hs) failed), record pb { node_cache = n })

  unfoldable pub inclusion_proof :
      Fetcher → ℕ → ProofBuilder → Result ClientError Hashes × ProofBuilder
  inclusion_proof f index pb = elim (m.inclusion index pb.cp.size) [
    | err e ↦ (err (failed e), pb)
    | ok nodes ↦ fetch_nodes f nodes pb
  ]

  unfoldable pub consistency_proof :
      Fetcher → ℕ → ℕ → ProofBuilder → Result ClientError Hashes × ProofBuilder
  consistency_proof f smaller larger pb = elim (m.consistency smaller larger) [
    | err e ↦ (err (failed e), pb)
    | ok nodes ↦ fetch_nodes f nodes pb
  ]
