-- ===== src/SumDb/Service/Sync.antt =====
-- The cloning of leaves, the hashing of tiles and what `Sync` does with them
-- (sumdbaudit/audit/service.go). The levels are hashed one after the other: where one fails, its
-- error is the result here, while the code may wait for ever for the levels next to it.
use trillian_serverless.Base.{
  ℕ, zero, suc, ◌+◌, ◌-◌, ◌*◌, ◌/◌, ◌^◌, Bool, false, not, List, [], ◌∷◌, Bytes, Option, none, some,
  Result, ok, err, or_fail, if◌then◌else◌, expect, ◌=?◌, bytes_eq, ltb, ◌==◌, length, map,
}
use trillian_serverless.Base.Exec.{Exec, pure, raise, lift, guard, recast, ◌>>=◌, ◌>>◌}
use trillian_serverless.Formats.{Hashes}
use trillian_serverless.SumDb.Client.{
  AuditError, panic, blocked, failed, Checkpoint, Client, parse_checkpoint_note,
  full_leaves_at_offset, tile_hashes,
}
use trillian_serverless.SumDb.Database.{
  Sql, head, golden_checkpoint, set_golden_checkpoint, write_leaves, get_leaves, get_tile, set_tile,
}
use trillian_serverless.SumDb.Service.{
  Ranges, wrapped, or_none, level_count, to_hash, tile_blob, append_all, check_root_hash,
  check_stored_golden,
}

-- `Hashes()[0]`
abbrev pub first_hash : Hashes → Option Bytes
first_hash [] = none
first_hash (h ∷ _) = some h

-- The hash that a stored tile has at this place, if there is a tile.
abbrev pub differs : Option (List Bytes) → Bytes → Bool
differs none h = false
differs (some []) h = false
differs (some (t ∷ _)) h = not (t =? h)

abbrev pub rest_of : Option (List Bytes) → Option (List Bytes)
rest_of none = none
rest_of (some []) = some []
rest_of (some (_ ∷ ts)) = some ts

-- The loop over the hashes of a local tile: each is copied into an array and compared with the
-- remote one, whose index may be out of range.
unfoldable pub compare_hashes : List Bytes → List Bytes → Result AuditError (Unit {0})
compare_hashes [] remote = ok tt
compare_hashes (_ ∷ _) [] = err panic
compare_hashes (h ∷ hs) (o ∷ os) =
    let rest = compare_hashes hs os in
    if to_hash h =? o then rest else err (failed "found mismatched hash")

-- The number of leaves that `Head` stands for.
abbrev pub local_leaves : Option ℕ → ℕ
local_leaves none = 0
local_leaves (some last) = last + 1

abbrev pub beyond : Option ℕ → ℕ → Bool
beyond none size = false
beyond (some last) size = ltb size last

module _ {Range : Type 0} (q : Sql) (r : Ranges Range) (c : Client) (height : ℕ) where
  abbrev Audit : Type 0 → Type 0
  Audit A = Exec q.State AuditError A

  -- The tiles of leaves from an offset on, fetched and written in order.
  unfoldable pub clone_chunks : ℕ → ℕ → Audit (Unit {0})
  clone_chunks zero offset = pure tt
  clone_chunks (suc n) offset = do
    leaves ← lift (full_leaves_at_offset c offset)
    recast (write_leaves q (offset * 2 ^ height) leaves) (wrapped "WriteLeaves")
    clone_chunks n (offset + 1)

  unfoldable pub clone_leaf_tiles : Checkpoint → Audit (Unit {0})
  clone_leaf_tiles cp = do
    last ← recast (or_none (head q)) (wrapped "failed to query for head of local log")
    guard (beyond last cp.size) (failed "illegal state; more leaves locally than in SumDB")
    clone_chunks ((cp.size - local_leaves last) / 2 ^ height) (local_leaves last / 2 ^ height)

  unfoldable pub hash_leaf_tile : ℕ → Audit (List Bytes)
  hash_leaf_tile offset = do
    leaves ←
        recast (get_leaves q (2 ^ height * offset) (2 ^ height))
          (wrapped "failed to get leaves from DB")
    set_tile q height 0 offset (tile_blob (map r.record_hash leaves))
    pure (map r.record_hash leaves)

  -- The tile of leaf hashes: the one that is stored, if there is one.
  unfoldable pub leaf_tile : ℕ → Audit (List Bytes)
  leaf_tile offset = do
    stored ← or_none (get_tile q height 0 offset)
    (elim stored [ none ↦ hash_leaf_tile offset | some hashes ↦ pure hashes ])

  -- A range of these hashes, which has one root.
  unfoldable pub single_root : ℕ → List Bytes → Audit Range
  single_root start hashes =
      let cr = append_all q r c height hashes (r.new_empty_range start) in
      do guard (not (length (r.hashes cr) == 1)) (failed "expected single root hash"); pure cr

  unfoldable pub hash_leaf_level : ℕ → ℕ → Audit (List Range)
  hash_leaf_level zero offset = pure []
  hash_leaf_level (suc n) offset = do
    hashes ← leaf_tile offset
    cr ← single_root (offset * 2 ^ height) hashes
    roots ← hash_leaf_level n (offset + 1)
    pure (cr ∷ roots)

  -- The roots of one tile, each compared with the stored tile where there is one.
  unfoldable pub take_roots : ℕ → Option (List Bytes) → List Range → Audit (List Bytes × List Range)
  take_roots zero stored roots = pure ([], roots)
  take_roots (suc n) stored [] = raise blocked
  take_roots (suc n) stored (cr ∷ roots) = do
    h ← lift (expect (first_hash (r.hashes cr)) panic)
    guard (differs stored h) (failed "got diffence in hash")
    taken ← take_roots n (rest_of stored) roots
    pure (h ∷ taken.0, taken.1)

  unfoldable pub store_missing : ℕ → ℕ → Option (List Bytes) → List Bytes → Audit (Unit {0})
  store_missing level offset (some _) hashes = pure tt
  store_missing level offset none hashes =
      recast (set_tile q height level offset (tile_blob hashes)) (λ _. failed "failed to set tile")

  -- `n` tiles of a level above the leaves, from an offset on, out of the roots of the level below.
  unfoldable pub hash_upper_level : ℕ → ℕ → ℕ → List Range → Audit (List Range)
  hash_upper_level level zero offset roots = pure []
  hash_upper_level level (suc n) offset roots = do
    stored ← or_none (get_tile q height level offset)
    taken ← take_roots (2 ^ height) stored roots
    store_missing level offset stored (taken.0)
    cr ← single_root (offset * 2 ^ height) (taken.0)
    above ← hash_upper_level level n (offset + 1) (taken.1)
    pure (cr ∷ above)

  -- `n` levels, from a level on, above a level of so many tiles.
  unfoldable pub hash_levels : ℕ → ℕ → ℕ → List Range → Audit (Unit {0})
  hash_levels zero level count roots = pure tt
  hash_levels (suc n) level count roots = do
    above ← hash_upper_level level (count / 2 ^ height) 0 roots
    hash_levels n (level + 1) (count / 2 ^ height) above

  unfoldable pub hash_tiles : Checkpoint → Audit (Unit {0})
  hash_tiles cp =
      let count = cp.size / 2 ^ height in
      recast
        (do
          roots ← hash_leaf_level count 0
          hash_levels (level_count height cp.size - 1) 1 count roots)
        (wrapped "failed to hash")

  unfoldable pub sync : Checkpoint → Audit (Unit {0})
  sync cp = do
    recast (clone_leaf_tiles cp) (wrapped "cloneLeafTiles")
    recast (hash_tiles cp) (wrapped "hashTiles")
    recast (check_stored_golden q r c height) (wrapped "checkConsistency")
    recast (check_root_hash q r c height cp) (wrapped "checkRootHash")
    set_golden_checkpoint q cp

  -- The exported `GoldenCheckpoint`: any error gives nil.
  unfoldable pub stored_golden : q.State → Option Checkpoint
  stored_golden s = elim ((golden_checkpoint q (parse_checkpoint_note c) s).0) [
    | ok cp ↦ some cp
    | err _ ↦ none
  ]

  -- A level of `VerifyTiles`: at most `fuel` tiles from an offset on.
  unfoldable pub verify_level : ℕ → ℕ → ℕ → Audit (Unit {0})
  verify_level zero level offset = raise blocked
  verify_level (suc fuel) level offset = do
    stored ← or_none (recast (get_tile q height level offset) (wrapped "failed to get tile hashes"))
    (elim stored [
      | none ↦ pure tt
      | some hashes ↦ do
        remote ← lift (or_fail (tile_hashes c level offset 0) (wrapped "failed to get tile hashes"))
        lift (compare_hashes hashes remote)
        verify_level fuel level (offset + 1)
    ])

  unfoldable pub verify_levels : ℕ → ℕ → ℕ → Audit (Unit {0})
  verify_levels fuel zero level = pure tt
  verify_levels fuel (suc n) level = do verify_level fuel level 0; verify_levels fuel n (level + 1)

  unfoldable pub verify_tiles : ℕ → Checkpoint → Audit (Unit {0})
  verify_tiles fuel cp = verify_levels fuel (level_count height cp.size) 0
