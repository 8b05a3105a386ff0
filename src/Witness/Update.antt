-- ===== src/Witness/Update.antt =====
-- The witness's methods (witness/golang/internal/witness/witness.go), over any persistence.
-- `note.Sign`, `log.ParseCheckpoint` and the Merkle functions are parameters.
pub mod Growth
pub mod Outcomes
pub mod History
use trillian_serverless.Base.{
  ℕ, String, Bool, not, ◌≡◌, List, [], ◌∷◌, Bytes, Option, none, some, Result, ok, err, ◌>>=◌, ◌>>◌,
  fail_if, or_fail, expect, Eq, ◌=?◌, string_eq, bytes_eq, if◌then◌else◌, ltb, ◌==◌,
}
use trillian_serverless.Base.Dict.{Dict, lookup}
use trillian_serverless.Formats.{
  Checkpoint, Note, Verifier, Signer, Hashes, ParseCheckpoint, VerifyConsistency, Compact,
}
use trillian_serverless.Witness.Proof.{marshal, unmarshal}
use trillian_serverless.Witness.Status.{
  Status, Code, internal, invalid_argument, already_exists, failed_precondition, unknown,
  is_not_found, errorf,
}
use trillian_serverless.Witness.Status
use trillian_serverless.Witness.Persistence.{Persistence}

-- What a witness calls in other modules.
pub record Libraries : Type 1 where
  pub Range : Type 0
  pub parse_checkpoint : ParseCheckpoint
  pub sign : Note → Signer → Result String Bytes

-- The result `([]byte, error)` of a call: both may be given.
pub record Reply : Type 0 where
  pub body : Option Bytes
  pub error : Option Status

abbrev pub fail : Code → String → Reply
fail c m = record { body = none; error = some (errorf c m) }

-- An error that comes with the checkpoint that is held.
abbrev pub refuse : Bytes → Code → String → Reply
refuse prev c m = record { body = some prev; error = some (errorf c m) }

abbrev pub accept : Bytes → Reply
accept b = record { body = some b; error = none }

-- `LogInfo`; the hasher is given by the functions that use it.
pub record LogInfo (Range : Type 0) : Type 0 where
  pub sig_v : Verifier
  pub origin : String
  pub verify_consistency : VerifyConsistency
  pub compact : Compact Range
  pub use_compact : Bool

-- `Witness`; its persistence's state is passed beside it.
pub record Witness (L : Libraries) : Type 0 where
  pub signer : Signer
  pub logs : Dict String (LogInfo L.Range)

module _ {Range : Type 0} (rf : Compact Range) where
  unfoldable pub verify_range_hash : Bytes → Range → Result String (Unit {0})
  verify_range_hash root_hash rng = do
    h ← or_fail (rf.get_root_hash rng) (λ _. "can't get root hash for range")
    fail_if (not (root_hash =? h)) "hashes aren't equal"

  -- The error of `AppendRange` is dropped here, as in the source.
  unfoldable pub verify_range : Checkpoint → Checkpoint → Hashes → Hashes → Result String Hashes
  verify_range next prev rng_raw delta_raw = do
    rng ← or_fail (rf.new_range 0 prev.size rng_raw) (λ _. "can't form current compact range")
    or_fail (verify_range_hash prev.hash rng) (λ _. "old root hash doesn't verify")
    delta ←
        or_fail (rf.new_range prev.size next.size delta_raw) (λ _. "can't form delta compact range")
    let merged = (rf.append_range rng delta).0
    or_fail (verify_range_hash next.hash merged) (λ _. "new root hash doesn't verify")
    ok (rf.hashes merged)

module _ (L : Libraries) where
  open L use {Range, parse_checkpoint, sign}

  unfoldable pub parse : Witness L → Bytes → String → Result String (Checkpoint × Note)
  parse w chkpt_raw log_id = do
    info ← expect (lookup log_id w.logs) "log not found"
    parse_checkpoint chkpt_raw info.origin info.sig_v []

  unfoldable pub sign_chkpt : Witness L → Note → Result String Bytes
  sign_chkpt w n = or_fail (sign n w.signer) (λ _. "couldn't sign checkpoint")

  -- The check that an initial range fits the checkpoint, and the range to store with it.
  unfoldable pub init_range : LogInfo Range → Checkpoint → Hashes → Result String Bytes
  init_range info c rng_raw =
      if info.use_compact
      then (do
        rng ← or_fail (info.compact.new_range 0 c.size rng_raw) (λ _. "can't form compact range")
        or_fail (verify_range_hash info.compact c.hash rng) (λ _. "input root hash doesn't verify")
        ok (marshal rng_raw))
      else ok []

module _ (L : Libraries) (P : Persistence) where
  open L use {Range}

  unfoldable pub get_logs : P.State → List String
  get_logs s = P.logs s

  unfoldable pub get_checkpoint : String → P.State → Result Status Bytes
  get_checkpoint log_id s = do
    read ← or_fail (P.read_ops s log_id) (λ _. errorf unknown "ReadOps()")
    latest ← P.get_latest read
    ok latest.0

  unfoldable pub set_init_chkpt_data :
      LogInfo Range
      → Checkpoint
      → Bytes
      → Hashes
      → P.Ops
      → P.State
      → Result String (Unit {0}) × P.State
  set_init_chkpt_data info c c_raw rng_raw write s = elim (init_range L info c rng_raw) [
    | err e ↦ (err e, s)
    | ok r ↦ P.set_latest write c_raw r s
  ]

  -- A cosigned checkpoint is stored with its range.
  unfoldable pub store_signed : Witness L → Note → Bytes → P.Ops → P.State → Reply × P.State
  store_signed w n r write s = elim (sign_chkpt L w n) [
    | err _ ↦ (fail internal "couldn't sign input checkpoint", s)
    | ok signed ↦
        let (res, s') = P.set_latest write signed r s in
        (
          elim res [
            | err _ ↦ fail internal "failed to store new checkpoint"
            | ok _ ↦ accept signed
          ],
          s',
        )
  ]

  -- `Update` where nothing is stored for the log: trust on first use.
  unfoldable pub trust_first :
      Witness L → LogInfo Range → Checkpoint → Note → Hashes → P.Ops → P.State → Reply × P.State
  trust_first w info next next_note c_proof write s = elim (sign_chkpt L w next_note) [
    | err _ ↦ (fail internal "couldn't sign input checkpoint", s)
    | ok signed ↦
        let (res, s') = set_init_chkpt_data info next signed c_proof write s in
        (
          elim res [ err _ ↦ fail internal "couldn't set TOFU checkpoint" | ok _ ↦ accept signed ],
          s',
        )
  ]

  -- `Update` where the tree has grown: the range to store, if the proof is good.
  unfoldable pub check_growth :
      LogInfo Range → Checkpoint → Checkpoint → Hashes → Hashes → Result String Bytes
  check_growth info prev next prev_range c_proof =
      if info.use_compact
      then (do
        next_range ←
            or_fail (verify_range info.compact next prev prev_range c_proof)
              (λ _. "failed to verify compact range")
        ok (marshal next_range))
      else (do
        or_fail (info.verify_consistency prev.size next.size c_proof prev.hash next.hash)
            (λ _. "failed to verify consistency proof")
        ok [])

  -- `Update` from the comparison of the sizes on.
  unfoldable pub advance :
      Witness L
      → LogInfo Range
      → Checkpoint
      → Note
      → Hashes
      → P.Ops
      → Bytes
      → Checkpoint
      → Hashes
      → P.State
      → Reply × P.State
  advance w info next next_note c_proof write prev_raw prev prev_range s =
      if ltb next.size prev.size
      then (refuse prev_raw already_exists "cannot prove consistency backwards", s)
      else if next.size == prev.size
      then (if not (next.hash =? prev.hash)
          then (
            refuse prev_raw failed_precondition "checkpoint for same size log with differing hash",
            s,
          )
          else (accept prev_raw, s))
      else elim (check_growth info prev next prev_range c_proof) [
        | err m ↦ (refuse prev_raw failed_precondition m, s)
        | ok r ↦ store_signed w next_note r write s
      ]

  -- The range of the stored checkpoint, where the log uses one.
  unfoldable pub stored_range : LogInfo Range → Bytes → Result String Hashes
  stored_range info range_raw = if info.use_compact then unmarshal range_raw else ok []

  -- `Update` from `write.GetLatest` on.
  unfoldable pub finish :
      Witness L
      → String
      → LogInfo Range
      → Checkpoint
      → Note
      → Hashes
      → P.Ops
      → P.State
      → Reply × P.State
  finish w log_id info next next_note c_proof write s = elim (P.get_latest write) [
    | err e ↦
        if is_not_found e
        then trust_first w info next next_note c_proof write s
        else (fail internal "couldn't retrieve latest checkpoint", s)
    | ok (prev_raw, range_raw) ↦ elim (parse L w prev_raw log_id) [
      | err _ ↦ (fail internal "couldn't parse stored checkpoint", s)
      | ok (prev, _) ↦ elim (stored_range info range_raw) [
        | err _ ↦ (fail invalid_argument "couldn't unmarshal proof", s)
        | ok prev_range ↦ advance w info next next_note c_proof write prev_raw prev prev_range s
      ]
    ]
  ]

  -- What `Update` has found out when it holds the write operations.
  pub record Prepared : Type 0 where
    pub info : LogInfo Range
    pub next : Checkpoint
    pub next_note : Note
    pub write : P.Ops

  -- `Update` up to `WriteOps`.
  unfoldable pub prepare : Witness L → String → Bytes → P.State → Result Status Prepared
  prepare w log_id next_raw s = do
    info ← expect (lookup log_id w.logs) (errorf Code.not_found "log not found")
    parsed ←
        or_fail (parse L w next_raw log_id)
          (λ _. errorf invalid_argument "couldn't parse input checkpoint")
    write ← or_fail (P.write_ops s log_id) (λ _. errorf unknown "WriteOps()")
    ok (record { info = info; next = parsed.0; next_note = parsed.1; write = write })

  unfoldable pub finish_prepared :
      Witness L → String → Hashes → Prepared → P.State → Reply × P.State
  finish_prepared w log_id c_proof p s = finish w log_id p.info p.next p.next_note c_proof p.write s

  unfoldable pub update : Witness L → String → Bytes → Hashes → P.State → Reply × P.State
  update w log_id next_raw c_proof s = elim (prepare w log_id next_raw s) [
    | err e ↦ (record { body = none; error = some e }, s)
    | ok p ↦ finish_prepared w log_id c_proof p s
  ]
