-- ===== src/Firmware/Follower.antt =====
-- The follower of the firmware log (binary_transparency/firmware/internal/client/follower.go,
-- ClaimantForType of internal/crypto/signature.go). What a goroutine sends on its channels is a
-- list of values and the error that follows them; the log may answer differently at each tick.
pub mod Laws
pub mod Entries
pub mod Tests
use trillian_serverless.Base.{
  ℕ, zero, suc, ◌+◌, ◌-◌, String, List, [], ◌∷◌, ◌++◌, Bytes, Option, none, some, Result, ok, err,
  if◌then◌else◌, ltb, leb, ◌==◌, or_fail, ◌>>=◌, ◌>>◌,
}
use trillian_serverless.Formats.{Hashes, VerifyConsistency}
use trillian_serverless.Firmware.{SignedStatement, firmware_metadata_type}
use trillian_serverless.Firmware.Log.{
  Formats, LogCheckpoint, ManifestEntry, HttpGet, get_checkpoint, get_consistency_proof,
  get_manifest_entry_and_proof,
}

-- The claimants of `crypto`, by the keys that they sign with.
pub data Claimant : Type 0 where
  publisher annotator_malware : Claimant

-- `MalwareStatementType`: 'm'
abbrev pub malware_statement_type : ℕ
malware_statement_type = 109

unfoldable pub claimant_for_type : ℕ → Result String Claimant
claimant_for_type t =
    if t == firmware_metadata_type
    then ok publisher
    else if t == malware_statement_type
    then ok annotator_malware
    else err "Unknown Claimant type"

-- `LogEntry`
pub record LogEntry : Type 0 where
  pub root : LogCheckpoint
  pub index : ℕ
  pub value : SignedStatement

-- The errors that the follower sends: `ErrConsistency`, `ErrInclusion`, that of the context, or any
-- other.
pub data FollowError : Type 0 where
  cancelled : FollowError
  inconsistent : LogCheckpoint → LogCheckpoint → FollowError
  not_included : LogCheckpoint → ManifestEntry → FollowError
  failed : String → FollowError

-- What the code calls: the decoders, the Merkle functions, and the check of a claimant's signature
-- of a message.
pub record Calls : Type 0 where
  pub formats : Formats
  pub read_statement : Bytes → Result String SignedStatement
  pub verify_pss : Claimant → Bytes → Bytes → Result String (Unit {0})
  pub hash_leaf : Bytes → Bytes
  pub verify_inclusion : ℕ → ℕ → Bytes → Hashes → Bytes → Result String (Unit {0})
  pub verify_consistency : VerifyConsistency

-- A turn of the `select`: a tick, with the log as it answers then, or the end of the context.
pub data Event : Type 0 where
  tick : HttpGet → Event
  done : Event

-- What a tick leads to.
pub data Polled : Type 0 where
  retry : Polled
  newer : LogCheckpoint → Polled
  stop : FollowError → Polled

-- What one checkpoint led to, and then the later ones unless it ended in an error.
abbrev pub and_then :
    List LogEntry × Option FollowError
    → List LogEntry × Option FollowError
    → List LogEntry × Option FollowError
and_then (sent, some e) rest = (sent, some e)
and_then (sent, none) (later, e) = (sent ++ later, e)

module _ (c : Calls) where
  abbrev pub verify_from : LogCheckpoint → LogCheckpoint → Hashes → Result String (Unit {0})
  verify_from golden cp proof =
      c.verify_consistency golden.checkpoint.size cp.checkpoint.size proof golden.checkpoint.hash
        cp.checkpoint.hash

  -- The consistency check of a larger checkpoint; none if the golden one is empty.
  unfoldable pub compare_golden : HttpGet → LogCheckpoint → LogCheckpoint → Polled
  compare_golden get golden cp =
      if golden.checkpoint.size == 0
      then newer cp
      else elim (get_consistency_proof c.formats get golden.checkpoint.size cp.checkpoint.size) [
        | err _ ↦ retry
        | ok proof ↦ elim (verify_from golden cp proof) [
          | err _ ↦ stop (inconsistent golden cp)
          | ok _ ↦ newer cp
        ]
      ]

  unfoldable pub poll_log : HttpGet → LogCheckpoint → Polled
  poll_log get golden = elim (get_checkpoint c.formats get) [
    | err _ ↦ retry
    | ok cp ↦
        if leb cp.checkpoint.size golden.checkpoint.size
        then retry
        else compare_golden get golden cp
  ]

  -- The loop: what it sends until the events end, and its error.
  unfoldable pub follow : List Event → LogCheckpoint → List LogCheckpoint × Option FollowError
  follow [] golden = ([], none)
  follow (done ∷ _) golden = ([], some cancelled)
  follow (tick get ∷ events) golden = elim (poll_log get golden) [
    | retry ↦ follow events golden
    | newer cp ↦ let (sent, e) = follow events cp in (cp ∷ sent, e)
    | stop e ↦ ([], some e)
  ]

  -- `Checkpoints`: the golden checkpoint is sent first.
  unfoldable pub checkpoints : List Event → LogCheckpoint → List LogCheckpoint × Option FollowError
  checkpoints events golden = let (sent, e) = follow events golden in (golden ∷ sent, e)

  -- The checks of an entry that was fetched.
  unfoldable pub check_statement : Bytes → Result FollowError SignedStatement
  unfolding claimant_for_type
  check_statement statement = do
    stmt ← or_fail (c.read_statement statement) (λ _. failed "failed to decode SignedStatement")
    claimant ← or_fail (claimant_for_type stmt.statement_type) failed
    or_fail (c.verify_pss claimant (stmt.statement_type ∷ stmt.statement) stmt.signature)
        (λ _. failed "failed to verify signature")
    ok stmt

  unfoldable pub check_entry : LogCheckpoint → ManifestEntry → Result FollowError SignedStatement
  unfolding check_statement
  check_entry cp ep = do
    or_fail
        (c.verify_inclusion ep.leaf_index cp.checkpoint.size (c.hash_leaf ep.value) ep.proof
          cp.checkpoint.hash)
        (λ _. not_included cp ep)
    check_statement ep.value

  -- The loop over the heads below the checkpoint's size, of which `left` are left. An entry that
  -- cannot be fetched is passed over.
  unfoldable pub entries_below :
      HttpGet → LogCheckpoint → ℕ → ℕ → List LogEntry × Option FollowError
  entries_below get cp zero head = ([], none)
  entries_below get cp (suc left) head =
      let (sent, e) = entries_below get cp left (head + 1) in
      elim (get_manifest_entry_and_proof c.formats get head cp.checkpoint.size) [
        | err _ ↦ (sent, e)
        | ok ep ↦ elim (check_entry cp ep) [
          | err f ↦ ([], some f)
          | ok stmt ↦ (record { root = cp; index = head; value = stmt } ∷ sent, e)
        ]
      ]

  -- `Entries`, over the checkpoints that arrive and the log as it answers while each is worked on.
  unfoldable pub entries : List (HttpGet × LogCheckpoint) → ℕ → List LogEntry × Option FollowError
  entries [] head = ([], none)
  entries ((get, cp) ∷ cps) head =
      let size = cp.checkpoint.size in
      and_then (entries_below get cp (size - head) head)
        (entries cps (if ltb head size then size else head))
