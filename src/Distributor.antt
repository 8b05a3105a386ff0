-- ===== src/Distributor.antt =====
-- The distributor (distributor/cmd/internal/distributor/distributor.go): `Distribute` and the read
-- of one witness's checkpoint. The SQL database and the checkpoint parser are parameters; the calls
-- on one database are one transaction each, which are serialised.
pub mod Laws
pub mod Witnessed
mod Tests
use trillian_serverless.Base.{
  ℕ, String, Bool, not, List, [], ◌∷◌, Bytes, Option, none, some, Result, ok, err, ◌>>=◌, ◌>>◌,
  fail_if, or_fail, expect, Eq, ◌=?◌, string_eq, bytes_eq, if◌then◌else◌, ltb, ◌==◌, length,
}
use trillian_serverless.Base.Dict.{Dict, lookup}
use trillian_serverless.Formats.{Checkpoint, Note, Verifier, ParseCheckpoint}

pub record LogInfo : Type 0 where
  pub origin : String
  pub verifier : Verifier

-- How a read of the table ends without a row: `no_rows` is `sql.ErrNoRows`.
pub data DbError : Type 0 where
  no_rows : DbError
  other : String → DbError

-- The table `chkpts`: the row of a log and a witness, and `INSERT OR REPLACE` with its commit.
pub record Table : Type 1 where
  pub State : Type 0
  pub select_chkpt : State → String → String → Result DbError Bytes
  pub save_chkpt : State → String → String → ℕ → Bytes → Result String State

-- `Distributor`; the state of its table is passed beside it.
pub record Distributor : Type 0 where
  pub ws : Dict String Verifier
  pub ls : Dict String LogInfo

-- A status NotFound, or any other error.
pub data Failure : Type 0 where
  not_found : Failure
  failed : String → Failure

module _ (parse_checkpoint : ParseCheckpoint) (db : Table) where
  unfoldable pub get_latest_checkpoint : db.State → String → String → Result Failure Bytes
  get_latest_checkpoint s log_id wit_id = elim (db.select_chkpt s log_id wit_id) [
    | ok b ↦ ok b
    | err no_rows ↦ err not_found
    | err (other e) ↦ err (failed e)
  ]

  unfoldable pub get_checkpoint_witness : String → String → db.State → Result Failure Bytes
  get_checkpoint_witness log_id wit_id s = get_latest_checkpoint s log_id wit_id

  -- The checks on the new checkpoint, before the database is read.
  unfoldable pub check_next :
      Distributor → String → String → Bytes → Result Failure (LogInfo × Verifier × Checkpoint)
  check_next d log_id wit_id next_raw = do
    l ← expect (lookup log_id d.ls) (failed "unknown log ID")
    wv ← expect (lookup wit_id d.ws) (failed "unknown witness ID")
    parsed ← or_fail (parse_checkpoint next_raw l.origin l.verifier (wv ∷ [])) failed
    fail_if (not (length parsed.1.sigs == 2)) (failed "failed to verify log and witness signatures")
    ok (l, wv, parsed.0)

  -- `saveCheckpointFn`
  unfoldable pub save_checkpoint :
      String → String → Checkpoint → Bytes → db.State → Result Failure (Unit {0}) × db.State
  save_checkpoint log_id wit_id new_cp next_raw s =
      elim (db.save_chkpt s log_id wit_id new_cp.size next_raw) [
        | err e ↦ (err (failed e), s)
        | ok t ↦ (ok tt, t)
      ]

  -- The comparison with the checkpoint that is held.
  unfoldable pub replace_checkpoint :
      String
      → String
      → Checkpoint
      → Bytes
      → Checkpoint
      → db.State
      → Result Failure (Unit {0}) × db.State
  replace_checkpoint log_id wit_id new_cp next_raw old_cp s =
      if ltb new_cp.size old_cp.size
      then (err (failed "cannot update to smaller size"), s)
      else if new_cp.size == old_cp.size
      then (if not (new_cp.hash =? old_cp.hash)
          then (err (failed "old checkpoint for tree size had another hash"), s)
          else (ok tt, s))
      else save_checkpoint log_id wit_id new_cp next_raw s

  unfoldable pub distribute_checked :
      String
      → String
      → Bytes
      → LogInfo × Verifier × Checkpoint
      → db.State
      → Result Failure (Unit {0}) × db.State
  distribute_checked log_id wit_id next_raw (l, wv, new_cp) s =
      elim (get_latest_checkpoint s log_id wit_id) [
        | err not_found ↦ save_checkpoint log_id wit_id new_cp next_raw s
        | err (failed e) ↦ (err (failed e), s)
        | ok old_bs ↦ elim (parse_checkpoint old_bs l.origin l.verifier (wv ∷ [])) [
          | err e ↦ (err (failed e), s)
          | ok (old_cp, _) ↦ replace_checkpoint log_id wit_id new_cp next_raw old_cp s
        ]
      ]

  unfoldable pub distribute :
      Distributor → String → String → Bytes → db.State → Result Failure (Unit {0}) × db.State
  distribute d log_id wit_id next_raw s = elim (check_next d log_id wit_id next_raw) [
    | err e ↦ (err e, s)
    | ok checked ↦ distribute_checked log_id wit_id next_raw checked s
  ]
