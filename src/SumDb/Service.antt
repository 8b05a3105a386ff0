-- ===== src/SumDb/Service.antt =====
-- The auditor (sumdbaudit/audit/service.go). The Merkle functions are parameters. The levels of
-- tiles are hashed one after the other, where the code hashes them at the same time: they touch
-- different tiles. The retries of a fetch are inside the fetcher.
pub mod Sync
pub mod Leaf
pub mod Process
pub mod Levels
pub mod Frame
pub mod Records
pub mod Reads
pub mod Outcome
pub mod Slices
pub mod Cloned
pub mod Hashed
pub mod Accepts
pub mod Verified
use trillian_serverless.Base.{
  ℕ, zero, suc, ◌+◌, ◌-◌, ◌*◌, ◌/◌, ◌^◌, String, Bool, true, false, not, List, [], ◌∷◌, ◌++◌, Bytes,
  Option, none, some, Result, ok, err, or_fail, Eq, ◌=?◌, bytes_eq, if◌then◌else◌, ltb, leb, ◌==◌,
  length, take, replicate, map,
}
use trillian_serverless.Base.Exec.{Exec, pure, raise, lift, guard, recast, ◌>>=◌, ◌>>◌}
use trillian_serverless.Formats.{Hashes}
use trillian_serverless.SumDb.Client.{
  AuditError, no_data, too_fresh, inconsistent, panic, blocked, failed, Checkpoint, Client,
  hash_len_bytes, parse_checkpoint_note, full_leaves_at_offset, partial_leaves_at_offset,
  tile_hashes,
}
use trillian_serverless.SumDb.Database.{
  Sql, head, golden_checkpoint, set_golden_checkpoint, write_leaves, get_leaves, set_leaf_metadata,
  max_leaf_metadata, get_tile, set_tile,
}

-- What the code calls of the Merkle library, for the hash function of `NewService`, and
-- `tlog.RecordHash`. The errors of the two appends are not looked at.
pub record Ranges (Range : Type 0) : Type 0 where
  pub new_empty_range : ℕ → Range
  pub append : Range → Bytes → Range
  pub append_range : Range → Range → Range
  pub new_range : ℕ → ℕ → Hashes → Result String Range
  pub hashes : Range → Hashes
  pub get_root_hash : Range → Result String Bytes
  pub end : Range → ℕ
  pub record_hash : Bytes → Bytes

-- An error that `%w` wraps, and one that is only shown.
abbrev pub wrapped : String → AuditError → AuditError
wrapped m (failed _) = failed m
wrapped m e = e

abbrev pub shown : String → AuditError → AuditError
shown m panic = panic
shown m blocked = blocked
shown m _ = failed m

abbrev pub disagrees : Checkpoint → Checkpoint → AuditError → AuditError
disagrees golden cp panic = panic
disagrees golden cp blocked = blocked
disagrees golden cp _ = inconsistent golden cp

abbrev pub or_none {ℓ} :
    {S : Type ℓ} {A : Type 0} → Exec S AuditError A → Exec S AuditError (Option A)
or_none m s =
    let (x, t) = m s in
    elim x [ ok a ↦ (ok (some a), t) | err no_data ↦ (ok none, t) | err e ↦ (err e, t) ]

-- The loop of `getLevelsForLeafCount`; 64 rounds are enough for an int64 if tiles have more than
-- one leaf, and for no number if they have one.
unfoldable pub levels_from : ℕ → ℕ → ℕ → ℕ
levels_from height zero covered = 0
levels_from height (suc fuel) covered =
    let rest = levels_from height fuel (covered / 2 ^ height) in
    if covered == 0 then 0 else suc rest

-- One more than `getLevelsForLeafCount`, which gives -1 where there is no level.
unfoldable pub level_count : ℕ → ℕ → ℕ
level_count height leaves = levels_from height 64 (leaves / 2 ^ height)

-- A copy into an array of 32 bytes.
unfoldable pub to_hash : Bytes → Bytes
to_hash bs = take hash_len_bytes (bs ++ replicate hash_len_bytes 0)

-- The hashes of a tile as they are stored: each is copied to its place.
unfoldable pub tile_blob : List Bytes → Bytes
tile_blob [] = []
tile_blob (h ∷ hs) = to_hash h ++ tile_blob hs

-- The first elements, if there are that many.
unfoldable pub first_of : ℕ → List Bytes → Option (List Bytes × List Bytes)
first_of zero l = some ([], l)
first_of (suc n) [] = none
first_of (suc n) (x ∷ l) = elim (first_of n l) [
  | none ↦ none
  | some (xs, rest) ↦ some (x ∷ xs, rest)
]

module _ {Range : Type 0} (q : Sql) (r : Ranges Range) (c : Client) (height : ℕ) where
  -- A call over the database.
  abbrev pub Audit : Type 0 → Type 0
  Audit A = Exec q.State AuditError A

  unfoldable pub append_all : List Bytes → Range → Range
  append_all [] cr = cr
  append_all (h ∷ hs) cr = append_all hs (r.append cr h)

  -- One tile of a level, taken as a subtree.
  unfoldable pub append_tile : ℕ → ℕ → Range → Audit Range
  append_tile level offset log_range =
      let tile_leaf_count = 2 ^ ((level + 1) * height) in
      do
        t_hashes ← recast (get_tile q height level offset) (shown "failed to get tile")
        tree_range ← lift (
            or_fail
              (r.new_range (offset * tile_leaf_count) ((offset + 1) * tile_leaf_count)
                (r.hashes (append_all t_hashes (r.new_empty_range 0))))
              failed)
        pure (r.append_range log_range tree_range)

  -- `n` tiles of a level, from an offset on.
  unfoldable pub append_tiles : ℕ → ℕ → ℕ → Range → Audit Range
  append_tiles zero level offset log_range = pure log_range
  append_tiles (suc n) level offset log_range = do
    grown ← append_tile level offset log_range
    append_tiles n level (offset + 1) grown

  -- The levels below `levels`, from the highest down.
  unfoldable pub append_levels : ℕ → ℕ → Range → Audit Range
  append_levels size zero log_range = pure log_range
  append_levels size (suc level) log_range =
      let tile_leaf_count = 2 ^ ((level + 1) * height) in
      let first_tile = r.end log_range / tile_leaf_count in
      do
        grown ← append_tiles (size / tile_leaf_count - first_tile) level first_tile log_range
        append_levels size level grown

  unfoldable pub append_stragglers : ℕ → (ℕ → Audit (List Bytes)) → Range → Audit Range
  append_stragglers size get_stragglers log_range =
      let count = size - r.end log_range in
      if count == 0 then pure log_range else (do
        stragglers ← recast (get_stragglers count) (wrapped "failed to get stragglers")
        (elim (first_of count stragglers) [
          | none ↦ raise panic
          | some (needed, _) ↦ pure (append_all needed log_range)
        ]))

  unfoldable pub check_root : Checkpoint → Range → Audit (Unit {0})
  check_root cp log_range = do
    guard (not (r.end log_range == cp.size)) (failed "calculation error")
    root ← lift (or_fail (r.get_root_hash log_range) failed)
    guard (not (to_hash root =? cp.hash)) (failed "log root mismatch")

  unfoldable pub check_checkpoint : Checkpoint → (ℕ → Audit (List Bytes)) → Audit (Unit {0})
  check_checkpoint cp get_stragglers = do
    tiled ← append_levels cp.size (level_count height cp.size) (r.new_empty_range 0)
    whole ← append_stragglers cp.size get_stragglers tiled
    check_root cp whole

  -- The stragglers of a size that is held locally, and those that are fetched.
  unfoldable pub local_stragglers : ℕ → ℕ → Audit (List Bytes)
  local_stragglers size count = get_tile q height 0 (size / 2 ^ height)

  -- `res[i] = …` fails beyond the count; what is not filled stays nil.
  unfoldable pub remote_stragglers : ℕ → ℕ → Audit (List Bytes)
  remote_stragglers size count = do
    stragglers ← lift (
        or_fail (partial_leaves_at_offset c (size / 2 ^ height) count)
          (wrapped "failed to get stragglers"))
    guard (ltb count (length stragglers)) panic
    pure (map r.record_hash stragglers ++ replicate (count - length stragglers) [])

  unfoldable pub check_root_hash : Checkpoint → Audit (Unit {0})
  check_root_hash cp =
      recast (check_checkpoint cp (remote_stragglers cp.size))
        (wrapped "local log does not match the SumDB checkpoint")

  -- `checkConsistency`, with the golden checkpoint that is stored, if any.
  unfoldable pub check_golden : Option Checkpoint → Audit (Unit {0})
  check_golden none = pure tt
  check_golden (some golden) = do
    last ← recast (head q) (wrapped "cannot find head of local log")
    (if ltb last golden.size
        then pure tt
        else recast (check_checkpoint golden (local_stragglers golden.size))
            (wrapped "local log failed consistency"))

  unfoldable pub check_stored_golden : Audit (Unit {0})
  check_stored_golden = do
    golden ← or_none (golden_checkpoint q (parse_checkpoint_note c))
    check_golden golden

  -- `CheckConsistency` of a checkpoint that is not the golden one.
  unfoldable pub check_older : Checkpoint → Checkpoint → Audit (Unit {0})
  check_older golden cp = do
    last ← recast (head q) (wrapped "cannot find head of local log")
    (if ltb last cp.size
        then raise (too_fresh cp.size last)
        else recast (check_checkpoint cp (local_stragglers cp.size)) (disagrees golden cp))

  -- The exported `CheckConsistency`.
  unfoldable pub check_consistency : Checkpoint → Audit (Unit {0})
  check_consistency cp = do
    golden ←
        recast (golden_checkpoint q (parse_checkpoint_note c))
          (wrapped "failed to query for golden checkpoint")
    (if cp.raw =? golden.raw then pure tt else check_older golden cp)
