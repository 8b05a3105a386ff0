-- ===== src/Firmware/Witness/Laws.antt =====
-- What a request does to the firmware witness.
use trillian_serverless.Base.{◌≡◌, refl, ◌∙◌, ap, true, false, List, [], ◌∷◌, ◌++◌, arith}
use trillian_serverless.Firmware.Log.{Formats}
use trillian_serverless.Firmware.Store.{WitnessStore}
use trillian_serverless.Firmware.Witness.{
  Witness, Phase, selecting, holding, Action, receive, observe, cancel, keep, request, System, poll,
  act, run,
}

module _ (f : Formats) (S : WitnessStore) where
  poll-locked :
      (a : Action) (p : Phase) (s : System f S)
      → s.witness.locked ≡ true
      → let t = poll f S a p s in (t.witness ≡ s.witness) × (t.store ≡ s.store)
  unfolding poll
  poll-locked receive selecting s h = ground (arith, h)
  poll-locked observe selecting s h = ground (arith, h)
  poll-locked cancel selecting s h = (refl, refl)
  poll-locked keep (holding cp) s h = rw h (refl, refl)
  poll-locked _ _ s h = (refl, refl)

  act-locked :
      (a : Action) (s : System f S)
      → s.witness.locked ≡ true
      → let (t, replies) = act f S a s in
        (replies ≡ []) × (t.witness ≡ s.witness) × (t.store ≡ s.store)
  unfolding act
  act-locked request s h = rw h (refl, refl, refl)
  act-locked receive s h = let (same, kept) = poll-locked receive s.phase s h in (refl, same, kept)
  act-locked observe s h = let (same, kept) = poll-locked observe s.phase s h in (refl, same, kept)
  act-locked cancel s h = let (same, kept) = poll-locked cancel s.phase s h in (refl, same, kept)
  act-locked keep s h = let (same, kept) = poll-locked keep s.phase s h in (refl, same, kept)

  run-locked :
      (actions : List Action) (s : System f S)
      → s.witness.locked ≡ true
      → let (t, replies) = run f S actions s in
        (replies ≡ []) × (t.witness ≡ s.witness) × (t.store ≡ s.store)
  unfolding run
  run-locked [] s h = (refl, refl, refl)
  run-locked (a ∷ actions) s h =
      let (now, same, kept) = act-locked a s h in
      let t = (act f S a s).0 in
      let (later, same', kept') = run-locked actions t (ap (λ (w : Witness). w.locked) same ∙ h) in
      (ap (λ l. l ++ (run f S actions t).1) now ∙ later, same' ∙ same, kept' ∙ kept)

  -- A request that finds the mutex free is answered with the checkpoint that the witness holds;
  -- whatever happens after it, no other request is answered, and the witness and its store stay as
  -- they are.
  pub run-request :
      (actions : List Action) (s : System f S)
      → s.witness.locked ≡ false
      → let (t, replies) = run f S (request ∷ actions) s in
        (replies ≡ s.witness.gcp.envelope ∷ [])
        × (t.witness.gcp ≡ s.witness.gcp)
        × (t.store ≡ s.store)
  unfolding run
  run-request actions s h = rw h (
      let (none_later, same, kept) =
        run-locked actions (record s { witness = record s.witness { locked = true } }) refl in
      (ap (λ l. s.witness.gcp.envelope ∷ l) none_later, ap (λ (w : Witness). w.gcp) same, kept))
