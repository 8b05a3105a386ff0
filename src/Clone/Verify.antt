-- ===== src/Clone/Verify.antt =====
-- The Merkle root of a cloned log (clone/internal/verify/verify.go). The Merkle functions and the
-- database's statements are parameters. A stream of leaves that ends with an error gives no root;
-- the code then returns that error, or waits for ever where it gets no further leaf.
pub mod Laws
mod Tests
use trillian_serverless.Base.{
  ℕ, ◌+◌, String, true, false, not, List, [], ◌∷◌, Bytes, Option, none, some, Result, ok, err,
  if◌then◌else◌, leb, ◌==◌, length,
}
use trillian_serverless.Formats.{Hashes, Compact}
use trillian_serverless.Clone.Cloner.{DbError, no_data, other}
use trillian_serverless.Clone.Database.{Sql, get_latest_checkpoint, stream_leaves}

-- What `MerkleRoot` calls of the Merkle library.
pub record Ranges (Range : Type 0) : Type 0 where
  pub compact : Compact Range
  pub new_empty_range : ℕ → Range
  pub append : Range → Bytes → Range

-- `LeafHashFn`
abbrev pub LeafHashFn : Type 0
LeafHashFn = ℕ → Bytes → Bytes

module _ {Range : Type 0} (q : Sql) (lh : LeafHashFn) (m : Ranges Range) where
  -- The loop over the leaves from a number on.
  unfoldable pub append_leaves : ℕ → List Bytes → Range → Range
  append_leaves index [] cr = cr
  append_leaves index (leaf ∷ leaves) cr =
      append_leaves (index + 1) leaves (m.append cr (lh index leaf))

  abbrev pub root_and_hashes : Range → Result String (Bytes × Hashes)
  root_and_hashes cr = elim (m.compact.get_root_hash cr) [
    | err e ↦ err e
    | ok root ↦ ok (root, m.compact.hashes cr)
  ]

  -- The streamed leaves appended to a range up to `start`.
  abbrev pub root_streamed :
      ℕ → Range → ℕ → List Bytes × Option String → Result String (Bytes × Hashes)
  root_streamed start cr size (leaves, some _) = err "failed to get leaves from DB"
  root_streamed start cr size (leaves, none) =
      if not (start + length leaves == size)
      then err "expected to receive other number of leaves"
      else root_and_hashes (append_leaves start leaves cr)

  -- `MerkleRoot` once it has a range up to `start`.
  unfoldable pub root_from : ℕ → Range → ℕ → q.State → Result String (Bytes × Hashes)
  root_from start cr size s = root_streamed start cr size (stream_leaves q start size s)

  unfoldable pub merkle_root : ℕ → q.State → Result String (Bytes × Hashes)
  merkle_root size s = elim (get_latest_checkpoint q s) [
    | err no_data ↦ root_from 0 (m.new_empty_range 0) size s
    | err (other e) ↦ err e
    | ok (cp_size, _, range) ↦
        if leb cp_size size
        then elim (m.compact.new_range 0 cp_size range) [
          | err e ↦ err e
          | ok cr ↦ root_from cp_size cr size s
        ]
        else root_from 0 (m.new_empty_range 0) size s
  ]
