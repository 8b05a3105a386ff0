-- ===== src/Serverless/Client/Consistency.antt =====
-- `CheckConsistency` (serverless/client/client.go), and the reads of leaves.
pub mod Laws
use trillian_serverless.Base.{
  ℕ, zero, suc, ◌+◌, ◌-◌, ◌%◌, ◌^◌, String, Bool, not, List, [], ◌∷◌, Bytes, Option, none, some,
  Result, ok, err, ◌>>=◌, ◌>>◌, or_fail, expect, Eq, ◌=?◌, bytes_eq, if◌then◌else◌, ltb, leb, ◌==◌,
  length, get_elem?,
}
use trillian_serverless.Formats.{Checkpoint, Hashes}
use trillian_serverless.Std.Numbers.{parse_uint}
use trillian_serverless.Std.Paths.{join_path}
use trillian_serverless.Serverless.Layout.Paths.{leaf_path, seq_path}
use trillian_serverless.Serverless.Client.{
  ClientError, not_found, failed, panic, Fetcher, Merkle, ProofBuilder, NodeCache, NodeId,
  GetTileFunc, new_proof_builder, consistency_proof, get_node, new_node_cache, new_tile_fetcher,
}

-- `sort.Slice` by size; for checkpoints of one size it promises no order, and this keeps theirs.
unfoldable pub insert_by_size : Checkpoint → List Checkpoint → List Checkpoint
insert_by_size c [] = c ∷ []
insert_by_size c (d ∷ ds) = if leb c.size d.size then c ∷ d ∷ ds else d ∷ insert_by_size c ds

unfoldable pub sort_by_size : List Checkpoint → List Checkpoint
unfolding insert_by_size
sort_by_size [] = []
sort_by_size (c ∷ cs) = insert_by_size c (sort_by_size cs)

-- `cp[i], cp[i+1]`
unfoldable pub pair_at : List Checkpoint → ℕ → Option (Checkpoint × Checkpoint)
pair_at cp i = elim (get_elem? cp i) [
  | none ↦ none
  | some a ↦ elim (get_elem? cp (i + 1)) [ none ↦ none | some b ↦ some (a, b) ]
]

module _ {Range : Type 0} (m : Merkle Range) (f : Fetcher) where
  -- The body of the loop, for one pair.
  unfoldable pub check_pair :
      Checkpoint → Checkpoint → ProofBuilder → Result ClientError (Unit {0}) × ProofBuilder
  check_pair a b pb =
      if a.size == b.size
      then (if a.hash =? b.hash
          then (ok tt, pb)
          else (err (failed "two checkpoints with same size but different hashes"), pb))
      else if ltb 0 a.size
      then (let (r, pb') = consistency_proof m f a.size b.size pb in
          (
            r >>= (λ p.
                or_fail (m.verify_consistency a.size b.size p a.hash b.hash)
                  (λ _. failed "invalid consistency proof")),
            pb',
          ))
      else (ok tt, pb)

  -- The loop: `rounds` are left, `i` is the loop's variable, and `a` and `b` are the pair at hand.
  -- The step reads the next pair at `i`, the value before it is raised.
  unfoldable pub check_loop :
      ℕ
      → ℕ
      → Checkpoint
      → Checkpoint
      → List Checkpoint
      → ProofBuilder
      → Result ClientError (Unit {0})
  check_loop zero i a b cp pb = ok tt
  check_loop (suc rounds) i a b cp pb =
      let (r, pb') = check_pair a b pb in
      elim r [
        | err e ↦ err e
        | ok _ ↦ elim (pair_at cp i) [
          | none ↦ err panic
          | some (a', b') ↦ check_loop rounds (i + 1) a' b' cp pb'
        ]
      ]

  unfoldable pub check_sorted : List Checkpoint → Result ClientError (Unit {0})
  check_sorted cp = do
    last ← expect (get_elem? cp (length cp - 1)) panic
    pb ← new_proof_builder m last f
    a ← expect (get_elem? cp 0) panic
    b ← expect (get_elem? cp 1) panic
    check_loop (length cp - 1) 0 a b cp pb

  unfoldable pub check_consistency : List Checkpoint → Result ClientError (Unit {0})
  check_consistency cp =
      if ltb (length cp) 2 then err (failed "need at least 2") else check_sorted (sort_by_size cp)

-- The loop of `FetchLeafHashes`.
unfoldable pub fetch_leaf_nodes : GetTileFunc → ℕ → ℕ → NodeCache → Result ClientError Hashes
fetch_leaf_nodes gt zero seq n = ok []
fetch_leaf_nodes gt (suc left) seq n =
    let (r, n') = get_node gt (record { level = 0; index = seq }) n in
    let rest = fetch_leaf_nodes gt left ((seq + 1) % 2 ^ 64) n' in
    (do h ← r; hs ← rest; ok (h ∷ hs))

unfoldable pub fetch_leaf_hashes : Fetcher → ℕ → ℕ → ℕ → Result ClientError Hashes
fetch_leaf_hashes f first n log_size =
    fetch_leaf_nodes (new_tile_fetcher f log_size) n first (new_node_cache log_size)

-- A missing file keeps its kind; the messages differ.
unfoldable pub lookup_index : Fetcher → Bytes → Result ClientError ℕ
lookup_index f lh = do
  p ← or_fail (leaf_path [] lh) (λ _. panic)
  raw ← f (join_path (p.0 ∷ p.1 ∷ []))
  expect (parse_uint 16 64 raw) (failed "not a number")

unfoldable pub get_leaf : Fetcher → ℕ → Result ClientError Bytes
get_leaf f i = let p = seq_path [] i in f (join_path (p.0 ∷ p.1 ∷ []))
