-- ===== src/Firmware.antt =====
-- The verification of firmware bundles (binary_transparency/firmware/internal/verify/bundle.go, and
-- VerifySignature of internal/crypto/signature.go). JSON, RSA and the Merkle proofs are parameters.
pub mod Log
pub mod Follower
pub mod Store
pub mod Witness
pub mod Laws
mod Tests
use trillian_serverless.Base.{
  ℕ, String, Bool, true, false, not, List, [], ◌∷◌, Bytes, Result, ok, err, ◌>>=◌, ◌>>◌, fail_if,
  or_fail, Eq, ◌=?◌, bytes_eq, if◌then◌else◌, ltb, ◌==◌,
}
use trillian_serverless.Formats.{Checkpoint, Hashes, VerifyConsistency}

-- `InclusionProof`; its value is not used here.
pub record InclusionProof : Type 0 where
  pub leaf_index : ℕ
  pub proof : Hashes

-- `ProofBundle`
pub record ProofBundle : Type 0 where
  pub manifest_statement : Bytes
  pub checkpoint : Bytes
  pub inclusion_proof : InclusionProof

-- `SignedStatement`, with the byte of its type.
pub record SignedStatement : Type 0 where
  pub statement_type : ℕ
  pub statement : Bytes
  pub signature : Bytes

-- `FirmwareMetadata`
pub record FirmwareMetadata : Type 0 where
  pub device_id : String
  pub firmware_revision : ℕ
  pub firmware_image_sha512 : Bytes
  pub expected_firmware_measurement : Bytes
  pub build_timestamp : String

-- `FirmwareMetadataType`: 'f'
abbrev pub firmware_metadata_type : ℕ
firmware_metadata_type = 102

-- What the code calls: the JSON decoders, the parser with its verifier, the check of a publisher's
-- signature of a message, and the Merkle functions.
pub record Calls : Type 0 where
  pub read_bundle : Bytes → Result String ProofBundle
  pub read_statement : Bytes → Result String SignedStatement
  pub read_metadata : Bytes → Result String FirmwareMetadata
  pub parse_checkpoint : Bytes → Result String Checkpoint
  pub verify_pss : Bytes → Bytes → Result String (Unit {0})
  pub hash_leaf : Bytes → Bytes
  pub verify_inclusion : ℕ → ℕ → Bytes → Hashes → Bytes → Result String (Unit {0})
  pub verify_consistency : VerifyConsistency

-- `ConsistencyProofFunc`
abbrev pub ConsistencyProofFunc : Type 0
ConsistencyProofFunc = ℕ → ℕ → Result String Hashes

module _ (c : Calls) where
  -- The signature is over the type and the statement.
  unfoldable pub verify_signature : SignedStatement → Result String (Unit {0})
  verify_signature s = c.verify_pss (s.statement_type ∷ s.statement) s.signature

  unfoldable pub verify_bundle : Bytes → Result String (ProofBundle × FirmwareMetadata)
  verify_bundle bundle_raw = do
    pb ← c.read_bundle bundle_raw
    bundle_cp ← c.parse_checkpoint pb.checkpoint
    fw_statement ← c.read_statement pb.manifest_statement
    verify_signature fw_statement
    fail_if (not (fw_statement.statement_type == firmware_metadata_type))
        "unexpected statement type"
    c.verify_inclusion pb.inclusion_proof.leaf_index bundle_cp.size
        (c.hash_leaf pb.manifest_statement) pb.inclusion_proof.proof bundle_cp.hash
    fw_meta ← c.read_metadata fw_statement.statement
    ok (pb, fw_meta)

  -- The device's checkpoint is not checked if it is empty.
  unfoldable pub verify_from : Checkpoint → Checkpoint → Hashes → Result String (Unit {0})
  verify_from dc pc c_proof =
      if ltb 0 dc.size then c.verify_consistency dc.size pc.size c_proof dc.hash pc.hash else ok tt

  -- `BundleForUpdate` once it has a proof, once it has the bundle's checkpoint, once the hash of
  -- the image is compared, and once the bundle is verified.
  unfoldable pub with_proof :
      Checkpoint
      → ProofBundle × FirmwareMetadata
      → Checkpoint
      → Hashes
      → Result String (ProofBundle × FirmwareMetadata)
  with_proof dc verified pc c_proof = verify_from dc pc c_proof >> ok verified

  unfoldable pub with_checkpoint :
      Checkpoint
      → ConsistencyProofFunc
      → ProofBundle × FirmwareMetadata
      → Checkpoint
      → Result String (ProofBundle × FirmwareMetadata)
  with_checkpoint dc cp_func verified pc = cp_func dc.size pc.size >>= with_proof dc verified pc

  unfoldable pub with_image :
      Checkpoint
      → ConsistencyProofFunc
      → ProofBundle × FirmwareMetadata
      → Result String (ProofBundle × FirmwareMetadata)
  with_image dc cp_func verified =
      c.parse_checkpoint verified.0.checkpoint >>= with_checkpoint dc cp_func verified

  unfoldable pub with_bundle :
      Bytes
      → Checkpoint
      → ConsistencyProofFunc
      → ProofBundle × FirmwareMetadata
      → Result String (ProofBundle × FirmwareMetadata)
  with_bundle fw_hash dc cp_func verified =
      fail_if (not (fw_hash =? verified.1.firmware_image_sha512))
        "firmware update image hash does not match metadata"
      >> with_image dc cp_func verified

  unfoldable pub bundle_for_update :
      Bytes
      → Bytes
      → Checkpoint
      → ConsistencyProofFunc
      → Result String (ProofBundle × FirmwareMetadata)
  bundle_for_update bundle_raw fw_hash dc cp_func =
      verify_bundle bundle_raw >>= with_bundle fw_hash dc cp_func

  -- From the smaller to the larger of the two checkpoints.
  unfoldable pub verify_between :
      Checkpoint → Checkpoint → ConsistencyProofFunc → Result String (Unit {0})
  verify_between from to cp_func = do
    c_proof ← cp_func from.size to.size
    c.verify_consistency from.size to.size c_proof from.hash to.hash

  unfoldable pub bundle_consistency :
      ProofBundle → Checkpoint → ConsistencyProofFunc → Result String (Unit {0})
  bundle_consistency pb rc cp_func = do
    fail_if (ltb rc.size pb.inclusion_proof.leaf_index) "remote verification failed"
    bundle_cp ← c.parse_checkpoint pb.checkpoint
    (if ltb bundle_cp.size rc.size
        then verify_between bundle_cp rc cp_func
        else verify_between rc bundle_cp cp_func)

  abbrev pub measured : Bytes → ProofBundle × FirmwareMetadata → Result String (Unit {0})
  measured measurement verified =
      fail_if (not (measurement =? verified.1.expected_firmware_measurement))
        "firmware measurement does not match metadata"

  unfoldable pub bundle_for_boot : Bytes → Bytes → Result String (Unit {0})
  bundle_for_boot bundle_raw measurement = verify_bundle bundle_raw >>= measured measurement
