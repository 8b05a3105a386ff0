-- ===== src/Serverless/Client/Tracker.antt =====
-- `LogStateTracker` (serverless/client/client.go): the client's view of a log, and its update.
pub mod Laws
use trillian_serverless.Base.{
  ℕ, String, Bool, ◌&&◌, List, [], ◌∷◌, Bytes, Option, none, some, Result, ok, err, ◌>>=◌, ◌>>◌,
  or_fail, if◌then◌else◌, ltb, ◌==◌, length,
}
use trillian_serverless.Formats.{Checkpoint, Note, Verifier, Hashes, ParseCheckpoint}
use trillian_serverless.Std.Paths.{ascii}
use trillian_serverless.Serverless.Client.{
  ClientError, failed, inconsistency, Fetcher, Merkle, new_proof_builder, consistency_proof,
}

-- What a consensus function finds: the checkpoint, its bytes and its note.
pub record Found : Type 0 where
  pub cp : Checkpoint
  pub raw : Bytes
  pub note : Note

-- `ConsensusCheckpointFunc`
abbrev pub ConsensusFunc : Type 0
ConsensusFunc = Verifier → String → Result ClientError Found

unfoldable pub fetch_checkpoint : ParseCheckpoint → Fetcher → ConsensusFunc
fetch_checkpoint parse_checkpoint f v origin = do
  raw ← f (ascii "checkpoint")
  parsed ← or_fail (parse_checkpoint raw origin v []) failed
  ok (record { cp = parsed.0; raw = raw; note = parsed.1 })

unfoldable pub unilateral_consensus : ParseCheckpoint → Fetcher → ConsensusFunc
unfolding fetch_checkpoint
unilateral_consensus parse_checkpoint f = fetch_checkpoint parse_checkpoint f

pub record Tracker : Type 0 where
  pub origin : String
  pub cp_sig_verifier : Verifier
  pub latest_consistent_raw : Bytes
  pub latest_consistent : Checkpoint
  pub checkpoint_note : Option Note

-- What `Update` returns beside its error: the old bytes, the proof and the new bytes.
pub record Updated : Type 0 where
  pub old_raw : Bytes
  pub proof : Hashes
  pub new_raw : Bytes

-- The zero value of a checkpoint.
abbrev pub zero_checkpoint : Checkpoint
zero_checkpoint = record { origin = ""; size = 0; hash = [] }

module _ {Range : Type 0} (m : Merkle Range) (f : Fetcher) where
  -- The proof that `Update` asks for, checked.
  unfoldable pub prove_growth : Tracker → Found → Result ClientError Hashes
  prove_growth t c =
      let old = t.latest_consistent in
      if ltb 0 old.size && ltb old.size c.cp.size
      then (do
        builder ← new_proof_builder m c.cp f
        p ← (consistency_proof m f old.size c.cp.size builder).0
        or_fail (m.verify_consistency old.size c.cp.size p old.hash c.cp.hash)
            (λ _. inconsistency t.latest_consistent_raw c.raw p)
        ok p)
      else ok []

  unfoldable pub update : ConsensusFunc → Tracker → Result ClientError Updated × Tracker
  update consensus t = elim (consensus t.cp_sig_verifier t.origin) [
    | err e ↦ (err e, t)
    | ok c ↦ elim (prove_growth t c) [
      | err e ↦ (err e, t)
      | ok p ↦ (
        ok (record { old_raw = t.latest_consistent_raw; proof = p; new_raw = c.raw }),
        record t {
          latest_consistent_raw = c.raw;
          latest_consistent = c.cp;
          checkpoint_note = some c.note;
        },
      )
    ]
  ]

  -- The tracker comes back with an error too.
  unfoldable pub new_log_state_tracker :
      ParseCheckpoint
      → Bytes
      → Verifier
      → String
      → ConsensusFunc
      → Result ClientError (Unit {0}) × Tracker
  new_log_state_tracker parse_checkpoint checkpoint_raw v origin consensus =
      let ret : Tracker = record {
        origin = origin;
        cp_sig_verifier = v;
        latest_consistent_raw = [];
        latest_consistent = zero_checkpoint;
        checkpoint_note = none;
      } in
      if ltb 0 (length checkpoint_raw)
      then (let ret' = record ret { latest_consistent_raw = checkpoint_raw } in
          elim (parse_checkpoint checkpoint_raw origin v []) [
            | err e ↦ (err (failed e), ret')
            | ok (cp, _) ↦ (ok tt, record ret' { latest_consistent = cp })
          ])
      else (let (r, t) = update consensus ret in (r >>= (λ _. ok tt), t))
