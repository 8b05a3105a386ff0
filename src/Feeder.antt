-- ===== src/Feeder.antt =====
-- The feeder (internal/feeder/feeder.go): one checkpoint is offered to a witness until it is taken.
pub mod Laws
pub mod SumDb
mod Tests
use trillian_serverless.Base.{
  ℕ, zero, suc, String, Bool, ◌&&◌, List, [], ◌∷◌, Bytes, Option, none, some, Result, ok, err,
  ◌>>=◌, ◌>>◌, or_fail, Eq, ◌=?◌, bytes_eq, if◌then◌else◌, ltb, ◌==◌, length,
}
use trillian_serverless.Formats.{Checkpoint, Note, Verifier, Hashes, ParseCheckpoint}

-- The error of `GetLatestCheckpoint`: os.ErrNotExist, or any other.
pub data WitnessError : Type 0 where
  not_exist : WitnessError
  other : String → WitnessError

-- `feeder.Witness`, with the state that it keeps.
pub record WitnessApi : Type 1 where
  pub State : Type 0
  -- The bytes may come with an error too, and are empty where there are none.
  pub get_latest_checkpoint : State → String → Bytes × Option WitnessError
  pub update : State → String → Bytes → Hashes → Result String Bytes × State

-- `FeedOpts`, but for the witness.
pub record FeedOpts : Type 0 where
  pub log_id : String
  pub fetch_checkpoint : Result String Bytes
  pub fetch_proof : Checkpoint → Checkpoint → Result String Hashes
  pub log_sig_verifier : Verifier
  pub log_origin : String

-- How one attempt ends: with the witness's checkpoint, with an error after which `backoff.Retry`
-- tries again, or with one after which it does not.
pub data Attempt : Type 0 where
  done : Bytes → Attempt
  again : String → Attempt
  permanent : String → Attempt

abbrev pub zero_checkpoint : Checkpoint
zero_checkpoint = record { origin = ""; size = 0; hash = [] }

module _ (parse_checkpoint : ParseCheckpoint) (w : WitnessApi) (opts : FeedOpts) (cp_raw : Bytes)
    (cp_submit : Checkpoint) where
  open opts use {log_id, fetch_proof, log_sig_verifier, log_origin}

  -- The part of the attempt that sends the checkpoint.
  unfoldable pub send : Checkpoint → w.State → Attempt × w.State
  send latest s = elim (fetch_proof latest cp_submit) [
    | err e ↦ (again e, s)
    | ok con_p ↦
        let (r, t) = w.update s log_id cp_raw con_p in
        (elim r [ err e ↦ again e | ok b ↦ done b ], t)
  ]

  -- The part after the witness has said what it holds.
  unfoldable pub compare_latest : Bytes → w.State → Attempt × w.State
  compare_latest latest_raw s =
      if ltb 0 (length latest_raw)
      then elim (parse_checkpoint latest_raw log_origin log_sig_verifier []) [
        | err e ↦ (again e, s)
        | ok (latest, _) ↦
            if ltb cp_submit.size latest.size
            then (permanent "witness checkpoint size > submit checkpoint size", s)
            else if latest.size == cp_submit.size && latest.hash =? cp_submit.hash
            then (done latest_raw, s)
            else send latest s
      ]
      else send zero_checkpoint s

  -- `submitOp`
  unfoldable pub submit_op : w.State → Attempt × w.State
  submit_op s = elim (w.get_latest_checkpoint s log_id).1 [
    | some (other e) ↦ (again e, s)
    | some not_exist ↦ compare_latest (w.get_latest_checkpoint s log_id).0 s
    | none ↦ compare_latest (w.get_latest_checkpoint s log_id).0 s
  ]

  -- Where an attempt leads: `rest` is what comes of further attempts.
  abbrev pub after_attempt :
      Attempt → w.State → Result String Bytes × w.State → Result String Bytes × w.State
  after_attempt (done b) t rest = (ok b, t)
  after_attempt (permanent e) t rest = (err e, t)
  after_attempt (again e) t rest = rest

  -- `backoff.Retry`: `tries` attempts are made before the context is done; then an error is
  -- returned.
  unfoldable pub submit_to_witness : ℕ → w.State → Result String Bytes × w.State
  submit_to_witness zero s = (err "context done", s)
  submit_to_witness (suc tries) s =
      let (a, t) = submit_op s in after_attempt a t (submit_to_witness tries t)

unfoldable pub feed_once :
    ParseCheckpoint → (w : WitnessApi) → FeedOpts → ℕ → w.State → Result String Bytes × w.State
feed_once parse_checkpoint w opts tries s = elim opts.fetch_checkpoint [
  | err _ ↦ (err "failed to read input checkpoint", s)
  | ok cp ↦ elim (parse_checkpoint cp opts.log_origin opts.log_sig_verifier []) [
    | err _ ↦ (err "failed to parse checkpoint", s)
    | ok (cp_submit, _) ↦ submit_to_witness parse_checkpoint w opts cp cp_submit tries s
  ]
]
