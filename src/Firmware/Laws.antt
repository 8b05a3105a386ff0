-- ===== src/Firmware/Laws.antt =====
-- What the acceptance of an update means, and that an accepted update boots.
use trillian_serverless.Base.{
  same_bytes, ◌≡◌, refl, sym, ◌∙◌, ap, ◌⊎◌, inl, inr, String, Bool, false, not, Bytes, Result, ok,
  err, ◌>>◌, fail_if, fail_if-ok, bind-ok, ok-injective, ok-ne-err, ◌=?◌, bytes_eq, ltb, arith,
  Bool-cases,
}
use trillian_serverless.Formats.{Checkpoint, Hashes}
use trillian_serverless.Firmware.{
  ProofBundle, FirmwareMetadata, Calls, ConsistencyProofFunc, verify_bundle, verify_from,
  with_proof, with_checkpoint, with_image, with_bundle, bundle_for_update, measured,
  bundle_for_boot,
}

-- A check, and then a call.
then-ok :
    {A : Type 0} (r : Result String (Unit {0})) (k : Result String A) (a : A)
    → (r >> k) ≡ ok a
    → (r ≡ ok tt) × (k ≡ ok a)
then-ok (ok u) k a h = (refl, h)
then-ok (err e) k a h = absurd (ok-ne-err a e (sym h))

same_test : (a : Bytes) → not (a =? a) ≡ false
same_test a = ground arith

module _ (c : Calls) where
  -- The device's checkpoint is empty, or a proof that was checked leads from it to the other.
  abbrev pub Extends : Checkpoint → Checkpoint → ConsistencyProofFunc → Type 0
  Extends dc pc cp_func =
      (dc.size ≡ 0)
      ⊎ ((p : Hashes) × (cp_func dc.size pc.size ≡ ok p)
          × (c.verify_consistency dc.size pc.size p dc.hash pc.hash ≡ ok tt))

  verify_from-Extends :
      (dc pc : Checkpoint) (cp_func : ConsistencyProofFunc) (p : Hashes)
      → cp_func dc.size pc.size ≡ ok p
      → verify_from c dc pc p ≡ ok tt
      → Extends dc pc cp_func
  unfolding verify_from
  verify_from-Extends dc pc cp_func p h k = elim (Bool-cases (ltb 0 dc.size)) [
    | inl some_size ↦ inr (p, h, cc (k, some_size))
    | inr no_size ↦ inl (ground (arith, no_size))
  ]

  -- A bundle that is accepted for an update has the hash of the image in its metadata, and its
  -- checkpoint extends the device's, by a proof that was checked, unless the device's is empty. It
  -- is accepted for booting with the measurement in its metadata, and with no other.
  pub bundle_for_update-boots :
      (raw fw_hash : Bytes) (dc : Checkpoint) (cp_func : ConsistencyProofFunc) (pb : ProofBundle)
      (meta : FirmwareMetadata)
      → bundle_for_update c raw fw_hash dc cp_func ≡ ok (pb, meta)
      → (fw_hash ≡ meta.firmware_image_sha512)
        × ((pc : Checkpoint) × (c.parse_checkpoint pb.checkpoint ≡ ok pc) × Extends dc pc cp_func)
        × (bundle_for_boot c raw meta.expected_firmware_measurement ≡ ok tt)
        × ((m : Bytes) → bundle_for_boot c raw m ≡ ok tt → m ≡ meta.expected_firmware_measurement)
  unfolding bundle_for_update with_bundle with_image with_checkpoint with_proof bundle_for_boot
  bundle_for_update-boots raw fw_hash dc cp_func pb meta h =
      let done : ProofBundle × FirmwareMetadata = (pb, meta) in
      let (v, h1, k1) = bind-ok (verify_bundle c raw) (with_bundle c fw_hash dc cp_func) done h in
      let image : Bool = not (fw_hash =? v.1.firmware_image_sha512) in
      let why : String = "firmware update image hash does not match metadata" in
      let (h2, k2) = then-ok (fail_if image why) (with_image c dc cp_func v) done k1 in
      let (pc, h3, k3) =
        bind-ok (c.parse_checkpoint v.0.checkpoint) (with_checkpoint c dc cp_func v) done k2 in
      let (p, h4, k4) = bind-ok (cp_func dc.size pc.size) (with_proof c dc v pc) done k3 in
      let (h5, k5) = then-ok (verify_from c dc pc p) (ok v) done k4 in
      let same : v ≡ done = ok-injective v done k5 in
      let verified : verify_bundle c raw ≡ ok done = h1 ∙ ap ok same in
      (
        same_bytes fw_hash v.1.firmware_image_sha512 (fail_if-ok image why tt h2)
            ∙ ap (λ x. x.1.firmware_image_sha512) same,
        (
          pc,
          ap (λ x. c.parse_checkpoint x.0.checkpoint) (sym same) ∙ h3,
          verify_from-Extends dc pc cp_func p h4 h5,
        ),
        rw verified (rw (same_test meta.expected_firmware_measurement) refl),
        λ m boots.
            let (x, e, k) = bind-ok (verify_bundle c raw) (measured c m) tt boots in
            let other : x ≡ done = ok-injective x done (sym e ∙ verified) in
            same_bytes m x.1.expected_firmware_measurement (fail_if-ok _ _ tt k)
            ∙ ap (λ y. y.1.expected_firmware_measurement) other,
      )
