-- ===== src/Serverless/Client/Tracker/Laws.antt =====
-- When the tracked state moves, and when it moves without a proof.
use trillian_serverless.Base.{
  ◌≤◌, ◌<◌, ◌≡◌, refl, ◌⊎◌, inl, inr, [], some, ok, err, arith, Result-cases,
}
use trillian_serverless.Formats.{Hashes}
use trillian_serverless.Serverless.Client.{ClientError, Fetcher, Merkle}
use trillian_serverless.Serverless.Client.Tracker.{
  Found, ConsensusFunc, Tracker, prove_growth, update,
}

module _ {Range : Type 0} (m : Merkle Range) (f : Fetcher) where
  -- The tracker after it has moved on to `c`.
  abbrev pub moved : Tracker → Found → Tracker
  moved t c = record t {
    latest_consistent_raw = c.raw;
    latest_consistent = c.cp;
    checkpoint_note = some c.note;
  }

  -- The tracked checkpoint is smaller, not empty, and the proof that was returned shows that the
  -- new one extends it.
  abbrev pub Proven : Tracker → Found → Hashes → Type 0
  Proven t c p =
      (0 < t.latest_consistent.size)
      × (t.latest_consistent.size < c.cp.size)
      × (m.verify_consistency t.latest_consistent.size c.cp.size p t.latest_consistent.hash
            c.cp.hash
          ≡ ok tt)

  -- There was nothing to prove to this code: the tracked checkpoint is empty, or not smaller than
  -- the new one.
  abbrev pub Unproven : Tracker → Found → Hashes → Type 0
  Unproven t c p =
      ((t.latest_consistent.size ≡ 0) ⊎ (c.cp.size ≤ t.latest_consistent.size)) × (p ≡ [])

  prove_growth_lem :
      (t : Tracker) (c : Found) (p : Hashes)
      → prove_growth m f t c ≡ ok p
      → Proven t c p ⊎ Unproven t c p
  unfolding prove_growth
  prove_growth_lem t c p h = ground arith

  -- An update that fails leaves the tracker as it was. One that succeeds moves the tracker to the
  -- checkpoint that the consensus gave, and returns the bytes of both and the proof: a proof that
  -- was checked where the tracked checkpoint is not empty and the new one is larger, none
  -- otherwise.
  pub update-moved :
      (consensus : ConsensusFunc) (t : Tracker)
      → let (r, t') = update m f consensus t in
        ((e : ClientError) × (r ≡ err e) × (t' ≡ t))
        ⊎ ((c : Found) × (p : Hashes) × (consensus t.cp_sig_verifier t.origin ≡ ok c)
            × (r ≡ ok (record { old_raw = t.latest_consistent_raw; proof = p; new_raw = c.raw }))
            × (t' ≡ moved t c)
            × (Proven t c p ⊎ Unproven t c p))
  unfolding update
  update-moved consensus t = elim (Result-cases (consensus t.cp_sig_verifier t.origin)) [
    | inr (e, bad) ↦ rw (bad, update) (inl (e, refl, refl))
    | inl (c, good) ↦ elim (Result-cases (prove_growth m f t c)) [
      | inr (e, bad) ↦ rw (good, update) (rw bad (inl (e, refl, refl)))
      | inl (p, proved) ↦
          rw (good, update)
            (rw proved (inr (c, p, refl, refl, refl, prove_growth_lem t c p proved)))
    ]
  ]

  -- A checkpoint that is smaller than the tracked one, or of the same size with any hash, replaces
  -- it without a check: the update succeeds with no proof.
  pub update_not_larger :
      (consensus : ConsensusFunc) (t : Tracker) (c : Found)
      → consensus t.cp_sig_verifier t.origin ≡ ok c
      → c.cp.size ≤ t.latest_consistent.size
      → update m f consensus t ≡ (
        ok (record { old_raw = t.latest_consistent_raw; proof = []; new_raw = c.raw }),
        moved t c,
      )
  unfolding update
  update_not_larger consensus t c found h =
      let e : prove_growth m f t c ≡ ok [] = unfold prove_growth in ground arith in
      rw (found, update) (rw e)
