-- ===== src/Firmware/Tests.antt =====
-- A bundle that is accepted, with proofs that always hold.
use trillian_serverless.Base.{
  ℕ, ◌≡◌, refl, [], ◌∷◌, Bytes, ok, err, bytes_eq, bytes_dec, ℕ_discrete,
}
use trillian_serverless.Formats.{Checkpoint}
use trillian_serverless.Firmware.{
  ProofBundle, FirmwareMetadata, Calls, ConsistencyProofFunc, verify_signature, verify_bundle,
  verify_from, with_proof, with_checkpoint, with_image, with_bundle, bundle_for_update,
  bundle_for_boot,
}
use trillian_serverless.Firmware.Laws.{Extends, bundle_for_update-boots}

abbrev checkpoint : ℕ → Checkpoint
checkpoint n = record { origin = "ft"; size = n; hash = [] }

abbrev bundle : ProofBundle
bundle = record {
  manifest_statement = 7 ∷ [];
  checkpoint = 4 ∷ [];
  inclusion_proof = record { leaf_index = 2; proof = [] };
}

abbrev metadata : FirmwareMetadata
metadata = record {
  device_id = "device";
  firmware_revision = 1;
  firmware_image_sha512 = 1 ∷ [];
  expected_firmware_measurement = 2 ∷ [];
  build_timestamp = "now";
}

abbrev calls : Calls
calls = record {
  read_bundle = λ raw. ok bundle;
  read_statement = λ raw. ok (record { statement_type = 102; statement = raw; signature = [] });
  read_metadata = λ raw. ok metadata;
  parse_checkpoint = λ raw. ok (checkpoint 4);
  verify_pss = λ message signature. ok tt;
  hash_leaf = λ leaf. leaf;
  verify_inclusion = λ i n leaf proof root. ok tt;
  verify_consistency = λ m n proof a b. ok tt;
}

abbrev prove : ConsistencyProofFunc
prove from to = ok []

accepted : bundle_for_update calls [] (1 ∷ []) (checkpoint 3) prove ≡ ok (bundle, metadata)
unfolding bundle_for_update verify_bundle verify_signature with_bundle with_image with_checkpoint
    with_proof verify_from bytes_eq bytes_dec ℕ_discrete
accepted = refl

refused :
    bundle_for_update calls [] (3 ∷ []) (checkpoint 3) prove
    ≡ err "firmware update image hash does not match metadata"
unfolding bundle_for_update verify_bundle verify_signature with_bundle bytes_eq bytes_dec ℕ_discrete
refused = refl

bundle_for_update-boots_example :
    (1 ∷ [] ≡ metadata.firmware_image_sha512)
    × ((pc : Checkpoint) × (calls.parse_checkpoint bundle.checkpoint ≡ ok pc)
        × Extends calls (checkpoint 3) pc prove)
    × (bundle_for_boot calls [] metadata.expected_firmware_measurement ≡ ok tt)
    × ((m : Bytes)
        → bundle_for_boot calls [] m ≡ ok tt
        → m ≡ metadata.expected_firmware_measurement)
bundle_for_update-boots_example =
    bundle_for_update-boots calls [] (1 ∷ []) (checkpoint 3) prove bundle metadata accepted
