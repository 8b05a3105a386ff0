-- ===== src/SumDb/Service/Outcome.antt =====
-- How a sync ends, on tables in memory.
use trillian_serverless.Base.{
  ℕ, ◌≡◌, refl, sym, ◌∙◌, ap, subst, if◌then◌else◌, ◌=?◌, bytes_eq, arith, true, Option, some, none,
  List, ◌∷◌, Result, ok, err, ◌⊎◌, inl, inr,
}
use trillian_serverless.Base.Dict.{Dict}
use trillian_serverless.Base.Exec.{Exec, pure, recast, step, ◌>>◌}
use trillian_serverless.SumDb.Client.{AuditError, Checkpoint, Client, parse_checkpoint_note}
use trillian_serverless.SumDb.Database.{
  Metadata, Duplicate, Sql, Tables, tables, golden_checkpoint, set_golden_checkpoint,
}
use trillian_serverless.SumDb.Service.{
  Ranges, wrapped, remote_stragglers, check_root_hash, check_stored_golden, check_older,
  check_consistency,
}
use trillian_serverless.SumDb.Service.Accepts.{
  Certified, GoldenPasses, check_stored_golden_ok, check_root_hash_ok,
}
use trillian_serverless.SumDb.Service.Records.{
  Keeps, next, Stays, clone_leaf_tiles-Keeps, hash_tiles-Keeps,
}
use trillian_serverless.SumDb.Service.Reads.{
  Reads-same, check_root_hash-Reads, check_stored_golden-Reads,
}
use trillian_serverless.SumDb.Service.Sync.{clone_leaf_tiles, hash_tiles, sync, stored_golden}

module _ (grouped : Dict ℕ Metadata → List Duplicate) {Range : Type 0} (r : Ranges Range)
    (c : Client) (height : ℕ) (cp : Checkpoint) where
  abbrev db : Sql
  db = tables grouped

  -- The tables with this golden checkpoint.
  abbrev pub with_golden : Tables → Tables
  with_golden u = record u { checkpoints = cp.raw ∷ u.checkpoints }

  -- On tables that hold all that there was: a golden checkpoint that is stored, and whose size the
  -- local log's head reaches, is matched by the stored tiles, and so is the new checkpoint, with the
  -- stragglers that are fetched. These tables are left with the new golden checkpoint.
  abbrev pub Succeeds : Tables → Result AuditError (Unit {0}) × Tables → Type 0
  Succeeds s p =
      (u : Tables) × Keeps s u
      × GoldenPasses db r c height u
      × Certified db r c height cp (remote_stragglers db r c height cp.size) u
      × (p ≡ (ok tt, with_golden u))

  -- An error, with tables that hold all that there was.
  abbrev pub Fails : Tables → Result AuditError (Unit {0}) × Tables → Type 0
  Fails s p = (e : AuditError) × (u : Tables) × Keeps s u × (p ≡ (err e, u))

  abbrev Outcome : Tables → Result AuditError (Unit {0}) × Tables → Type 0
  Outcome s p = Succeeds s p ⊎ Fails s p

  abbrev Call : Type 0
  Call = Exec Tables AuditError (Unit {0})

  abbrev store : Call
  store = set_golden_checkpoint db cp

  abbrev check_root_then : Call
  check_root_then = recast (check_root_hash db r c height cp) (wrapped "checkRootHash") >> store

  abbrev check_golden_then : Call
  check_golden_then =
      recast (check_stored_golden db r c height) (wrapped "checkConsistency") >> check_root_then

  abbrev hash_then : Call
  hash_then = recast (hash_tiles db r c height cp) (wrapped "hashTiles") >> check_golden_then

  root_checked :
      (s u : Tables)
      → Keeps s u
      → GoldenPasses db r c height u
      → (p : Result AuditError (Unit {0}) × Tables) → check_root_hash db r c height cp u ≡ p
      → Outcome s ((recast (λ _. p) (wrapped "checkRootHash") >> store) u)
  unfolding set_golden_checkpoint
  root_checked s u h g (ok x, v) e =
      let same_tables =
        Reads-same (check_root_hash db r c height cp) (check_root_hash-Reads db r c height cp) u v
          (ok tt) e in
      inl (
        u,
        h,
        g,
        check_root_hash_ok db r c height cp u v e,
        ap (λ w. (ok tt, with_golden w)) same_tables,
      )
  root_checked s u h g (err f, v) e =
      let same_tables =
        Reads-same (check_root_hash db r c height cp) (check_root_hash-Reads db r c height cp) u v
          (err f) e in
      inr (
        wrapped "checkRootHash" f,
        u,
        h,
        ap (λ w. (err (wrapped "checkRootHash" f), w)) same_tables,
      )

  golden_checked :
      (s u : Tables)
      → Keeps s u
      → (p : Result AuditError (Unit {0}) × Tables) → check_stored_golden db r c height u ≡ p
      → Outcome s ((recast (λ _. p) (wrapped "checkConsistency") >> check_root_then) u)
  golden_checked s u h (ok x, v) e =
      let same_tables =
        Reads-same (check_stored_golden db r c height) (check_stored_golden-Reads db r c height) u v
          (ok tt) e in
      let g = check_stored_golden_ok db r c height u v e in
      subst (λ w. Outcome s (check_root_then w)) (sym same_tables)
        (root_checked s u h g (check_root_hash db r c height cp u) refl)
  golden_checked s u h (err f, v) e =
      let same_tables =
        Reads-same (check_stored_golden db r c height) (check_stored_golden-Reads db r c height) u v
          (err f) e in
      inr (
        wrapped "checkConsistency" f,
        u,
        h,
        ap (λ w. (err (wrapped "checkConsistency" f), w)) same_tables,
      )

  hashed :
      (s u : Tables) (p : Result AuditError (Unit {0}) × Tables)
      → Keeps s (p.1)
      → Outcome s ((recast (λ _. p) (wrapped "hashTiles") >> check_golden_then) u)
  hashed s u (ok x, v) h = golden_checked s v h (check_stored_golden db r c height v) refl
  hashed s u (err f, v) h = inr (wrapped "hashTiles" f, v, h, refl)

  cloned :
      (s u : Tables) (p : Result AuditError (Unit {0}) × Tables)
      → Keeps s (p.1)
      → Outcome s ((recast (λ _. p) (wrapped "cloneLeafTiles") >> hash_then) u)
  unfolding Stays
  cloned s u (ok x, v) h =
      hashed s v (hash_tiles db r c height cp v)
        (next s v ((hash_tiles db r c height cp v).1) h (hash_tiles-Keeps grouped r c height cp v))
  cloned s u (err f, v) h = inr (wrapped "cloneLeafTiles" f, v, h, refl)

  -- On tables in memory, a sync either fails, or it stores its checkpoint on tables for which this
  -- holds: the stored tiles with the stragglers that are fetched give a range of the checkpoint's
  -- size with its root hash; and there is no golden checkpoint, or the local log's head is below the
  -- golden checkpoint's size, or the stored tiles give a range of the golden checkpoint's size with
  -- its root hash. In both cases all the leaves and tiles that were stored are as they were, and the
  -- golden checkpoint of a sync that fails is still the one of before.
  pub sync-set_golden_checkpoint :
      (s : Tables) → Succeeds s (sync db r c height cp s) ⊎ Fails s (sync db r c height cp s)
  unfolding sync Stays
  sync-set_golden_checkpoint s =
      cloned s s (clone_leaf_tiles db r c height cp s)
        (clone_leaf_tiles-Keeps grouped r c height cp s)

  abbrev or_nil : Result AuditError Checkpoint → Option Checkpoint
  or_nil x = elim x [ ok golden ↦ some golden | err _ ↦ none ]

  golden_lem :
      (u : Tables)
      → parse_checkpoint_note c cp.raw ≡ ok cp
      → golden_checkpoint db (parse_checkpoint_note c) (with_golden u) ≡ (ok cp, with_golden u)
  unfolding golden_checkpoint
  golden_lem u parsed = ap (λ x. (x, with_golden u)) parsed

  accepted :
      (u : Tables)
      → parse_checkpoint_note c cp.raw ≡ ok cp
      → check_consistency db r c height cp (with_golden u) ≡ (ok tt, with_golden u)
  unfolding check_consistency
  accepted u parsed =
      let find = golden_checkpoint db (parse_checkpoint_note c) in
      let rest : Checkpoint → Call =
        λ golden. if cp.raw =? golden.raw then pure tt else check_older db r c height golden cp in
      let found =
        ap (λ p. recast (λ _. p) (wrapped "failed to query for golden checkpoint") (with_golden u))
          (golden_lem u parsed) in
      step (recast find (wrapped "failed to query for golden checkpoint")) rest (with_golden u)
        (with_golden u) cp found
      ∙ (let equal : (cp.raw =? cp.raw) ≡ true = ground arith in rw equal refl)

  -- A sync that succeeds has stored its checkpoint, if that is what its text is parsed to: it is
  -- the golden checkpoint that is read back, and the one that `CheckConsistency` accepts.
  pub sync-check_consistency :
      (s t : Tables)
      → parse_checkpoint_note c cp.raw ≡ ok cp
      → sync db r c height cp s ≡ (ok tt, t)
      → (stored_golden db r c height t ≡ some cp)
        × (check_consistency db r c height cp t ≡ (ok tt, t))
  unfolding stored_golden
  sync-check_consistency s t parsed done = elim (sync-set_golden_checkpoint s) [
    | inl (u, h, g, k, e) ↦
        let same_tables : with_golden u ≡ t = ap (λ p. p.1) (sym e ∙ done) in
        subst
          (λ v.
            (stored_golden db r c height v ≡ some cp)
            × (check_consistency db r c height cp v ≡ (ok tt, v)))
          same_tables (ap (λ p. or_nil (p.0)) (golden_lem u parsed), accepted u parsed)
    | inr (e, u, h, failing) ↦ absurd (cc (ap (λ p. p.0) (sym failing ∙ done)))
  ]
