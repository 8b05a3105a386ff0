-- ===== src/SumDb/Database.antt =====
-- The auditor's database (sumdbaudit/audit/database.go). Its SQL statements are those of an `Sql`;
-- a statement in a transaction works on the transaction's view.
pub mod Tiles
use trillian_serverless.Base.{
  ℕ, zero, suc, ◌+◌, ◌-◌, ◌*◌, ◌^◌, String, Bool, true, false, not, List, [], ◌∷◌, ◌++◌, Bytes,
  Option, none, some, Result, ok, err, or_fail, expect, Eq, ◌=?◌, ℕ_discrete, if◌then◌else◌, ltb,
  ◌==◌, length,
}
use trillian_serverless.Base.Dict.{Dict, lookup, insert}
use trillian_serverless.Base.Exec.{Exec, pure, raise, lift, guard, ◌>>=◌, ◌>>◌}
use trillian_serverless.Clone.Database.{nat_eq, max_key, insert_new, rows_from}
use trillian_serverless.SumDb.Client.{
  AuditError, no_data, failed, panic, Checkpoint, hash_len_bytes, split_hashes,
}

pub record Metadata : Type 0 where
  pub module_path : Bytes
  pub version : Bytes
  pub repo_hash : Bytes
  pub mod_hash : Bytes

pub record Duplicate : Type 0 where
  pub module_path : Bytes
  pub version : Bytes
  pub count : ℕ

-- The statements that the code makes. A query of one row gives none where the row, or the value in
-- it, is missing; where the code does not look at a statement's error, only the view after it is
-- given. `insert_checkpoint` takes the time itself.
pub record Sql : Type 1 where
  pub State : Type 0
  pub begin : State → Result String State
  pub commit : State → State → Result String State
  pub max_leaf : State → Result String (Option ℕ)
  pub insert_leaf : ℕ → Bytes → State → State
  pub select_leaves : ℕ → ℕ → State → Result String (List Bytes)
  pub latest_checkpoint : State → Result String (Option Bytes)
  pub insert_checkpoint : Bytes → State → Result String State
  pub max_metadata : State → Result String (Option ℕ)
  pub insert_metadata : ℕ → Metadata → State → State
  pub select_tile : ℕ → ℕ → ℕ → State → Result String (Option Bytes)
  pub insert_tile : ℕ → ℕ → ℕ → Bytes → State → Result String State
  pub select_duplicates : State → Result String (List Duplicate)

-- `SplitTile`: a blob that is too short is an index out of range.
unfoldable pub split_tile : Bytes → ℕ → Result AuditError (List Bytes)
split_tile hashes height =
    if ltb (length hashes) (2 ^ height * hash_len_bytes)
    then err panic
    else ok (split_hashes (2 ^ height) hashes)

module _ (q : Sql) where
  -- A query, and a statement or a commit that may fail.
  abbrev pub query {κ} : {A : Type κ} → (q.State → Result String A) → Exec q.State AuditError A
  query m s = (or_fail (m s) failed, s)

  abbrev pub execute : (q.State → Result String q.State) → Exec q.State AuditError (Unit {0})
  execute m s = elim (m s) [ err e ↦ (err (failed e), s) | ok t ↦ (ok tt, t) ]

  unfoldable pub head : Exec q.State AuditError ℕ
  head = do max ← query q.max_leaf; lift (expect max no_data)

  unfoldable pub golden_checkpoint :
      (Bytes → Result AuditError Checkpoint) → Exec q.State AuditError Checkpoint
  golden_checkpoint parse = do
    row ← query q.latest_checkpoint
    bs ← lift (expect row no_data)
    lift (parse bs)

  unfoldable pub set_golden_checkpoint : Checkpoint → Exec q.State AuditError (Unit {0})
  set_golden_checkpoint cp = execute (q.insert_checkpoint cp.raw)

  unfoldable pub insert_leaves : ℕ → List Bytes → q.State → q.State
  insert_leaves lidx [] tx = tx
  insert_leaves lidx (l ∷ ls) tx = insert_leaves (lidx + 1) ls (q.insert_leaf lidx l tx)

  unfoldable pub write_leaves : ℕ → List Bytes → Exec q.State AuditError (Unit {0})
  write_leaves start leaves = do
    tx ← query q.begin
    execute (q.commit (insert_leaves start leaves tx))

  unfoldable pub get_leaves : ℕ → ℕ → Exec q.State AuditError (List Bytes)
  get_leaves start count = do
    res ← query (q.select_leaves start (start + count))
    guard (not (length res == count)) (failed "failed to read leaves")
    pure res

  unfoldable pub insert_metadata : ℕ → List Metadata → q.State → q.State
  insert_metadata midx [] tx = tx
  insert_metadata midx (m ∷ ms) tx = insert_metadata (midx + 1) ms (q.insert_metadata midx m tx)

  unfoldable pub set_leaf_metadata : ℕ → List Metadata → Exec q.State AuditError (Unit {0})
  set_leaf_metadata start metadata = do
    tx ← query q.begin
    execute (q.commit (insert_metadata start metadata tx))

  unfoldable pub max_leaf_metadata : Exec q.State AuditError ℕ
  max_leaf_metadata = do max ← query q.max_metadata; lift (expect max no_data)

  unfoldable pub get_tile : ℕ → ℕ → ℕ → Exec q.State AuditError (List Bytes)
  get_tile height level offset = do
    row ← query (q.select_tile height level offset)
    bs ← lift (expect row no_data)
    lift (split_tile bs height)

  unfoldable pub set_tile : ℕ → ℕ → ℕ → Bytes → Exec q.State AuditError (Unit {0})
  set_tile height level offset hashes = do
    guard (not (length hashes == 2 ^ height * hash_len_bytes))
        (failed "unexpected number of tile hash bytes")
    execute (q.insert_tile height level offset hashes)

  unfoldable pub duplicates : Exec q.State AuditError (List Duplicate)
  duplicates = query q.select_duplicates

-- The primary key of the tiles.
pub record TileId : Type 0 where
  pub height : ℕ
  pub level : ℕ
  pub offset : ℕ

instance unfoldable pub tile_id_eq : Eq TileId
unfolding ℕ_discrete
tile_id_eq = record { dec = hlevel ℕ_discrete }

-- Tables in memory; the checkpoints stand with the latest first.
pub record Tables : Type 0 where
  pub leaves : Dict ℕ Bytes
  pub tiles : Dict TileId Bytes
  pub checkpoints : List Bytes
  pub metadata : Dict ℕ Metadata

abbrev first : List Bytes → Option Bytes
first [] = none
first (b ∷ _) = some b

abbrev add_tile : TileId → Bytes → Tables → Result String Tables
add_tile k bs s = elim (lookup k s.tiles) [
  | none ↦ ok (record s { tiles = insert k bs s.tiles })
  | some _ ↦ err "UNIQUE constraint failed"
]

abbrev pub tables : (Dict ℕ Metadata → List Duplicate) → Sql
tables grouped = record {
  State = Tables;
  begin = λ s. ok s;
  commit = λ tx s. ok tx;
  max_leaf = λ s. ok (max_key s.leaves);
  insert_leaf = λ i l s. record s { leaves = insert_new i l s.leaves };
  select_leaves = λ start end s. ok (rows_from (end - start) start s.leaves);
  latest_checkpoint = λ s. ok (first s.checkpoints);
  insert_checkpoint = λ cp s. ok (record s { checkpoints = cp ∷ s.checkpoints });
  max_metadata = λ s. ok (max_key s.metadata);
  insert_metadata = λ i m s. record s { metadata = insert_new i m s.metadata };
  select_tile = λ h l o s. ok (lookup (record { height = h; level = l; offset = o }) s.tiles);
  insert_tile = λ h l o bs s. add_tile (record { height = h; level = l; offset = o }) bs s;
  select_duplicates = λ s. ok (grouped s.metadata);
}
