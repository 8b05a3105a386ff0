-- ===== src/SumDb/Service/Process.antt =====
-- `ProcessMetadata` of the auditor (sumdbaudit/audit/service.go).
use trillian_serverless.Base.{ℕ, zero, suc, ◌+◌, ◌-◌, ◌*◌, ◌/◌, ◌^◌}
use trillian_serverless.Base.Exec.{Exec, pure, lift, recast, ◌>>=◌, ◌>>◌}
use trillian_serverless.SumDb.Client.{AuditError, Checkpoint}
use trillian_serverless.SumDb.Database.{Sql, get_leaves, set_leaf_metadata, max_leaf_metadata}
use trillian_serverless.SumDb.Service.{wrapped, or_none}
use trillian_serverless.SumDb.Service.Sync.{local_leaves}
use trillian_serverless.SumDb.Service.Leaf.{parse_leaves}

module _ (q : Sql) (height : ℕ) where
  abbrev Audit : Type 0 → Type 0
  Audit A = Exec q.State AuditError A

  unfoldable pub process_tiles : ℕ → ℕ → Audit (Unit {0})
  process_tiles zero offset = pure tt
  process_tiles (suc n) offset = do
    leaves ← get_leaves q (offset * 2 ^ height) (2 ^ height)
    metadata ← lift (parse_leaves leaves)
    set_leaf_metadata q (offset * 2 ^ height) metadata
    process_tiles n (offset + 1)

  unfoldable pub process_metadata : Checkpoint → Audit (Unit {0})
  process_metadata cp = do
    latest ← recast (or_none (max_leaf_metadata q)) (wrapped "MaxLeafMetadata()")
    process_tiles (cp.size / 2 ^ height - local_leaves latest / 2 ^ height)
        (local_leaves latest / 2 ^ height)
