-- ===== src/Witness/Update/Outcomes.antt =====
-- `Update` as a whole: its outcomes, for any lawful persistence.
use trillian_serverless.Base.{
  String, string_eq, ◌≡◌, refl, ◌≢◌, ◌⊎◌, inl, inr, Bytes, Option, none, some, ok, err, arith,
  Result-cases, Option-cases, subst,
}
use trillian_serverless.Base.Dict.{lookup}
use trillian_serverless.Formats.{Checkpoint, Note, Hashes}
use trillian_serverless.Witness.Status.{Status, not_found}
use trillian_serverless.Witness.Persistence.{Persistence, IsLawful, Reads}
use trillian_serverless.Witness.Update.{
  Libraries, Witness, LogInfo, parse, stored_range, finish, Prepared, prepare, finish_prepared,
  update,
}
use trillian_serverless.Witness.Update.Growth.{
  Same, Outcome, refused, first, trust_first-Stored, advance-Outcome,
}

module _ (L : Libraries) (P : Persistence)
    (stored : P.State → String → Option (Bytes × Bytes)) where
  open L use {Range}

  module _ (lawful : IsLawful P stored) (w : Witness L) (id : String) (s₀ : P.State) (o : P.Ops)
      (opened : P.write_ops s₀ id ≡ ok o) (info : LogInfo Range) (next : Checkpoint) (n : Note)
      (proof : Hashes) (s : P.State) where
    finish_not_found :
        (e : Status)
        → P.get_latest o ≡ err e
        → e.code ≡ not_found
        → stored s₀ id ≡ none
        → let (reply, t) = finish L P w id info next n proof o s in
          Outcome L P stored w id info next n proof (stored s₀ id) s t reply
    unfolding finish
    finish_not_found e missing code held =
        rw (missing, finish)
          (rw code
            (elim (trust_first-Stored L P stored lawful w id s₀ o opened info next n proof s) [
              | inl (same, bare, failed) ↦ refused same bare failed
              | inr (r, checked, wrote, done) ↦ first r held checked wrote done
            ]))

    finish_nothing_held :
        stored s₀ id ≡ none
        → let (reply, t) = finish L P w id info next n proof o s in
          Outcome L P stored w id info next n proof (stored s₀ id) s t reply
    finish_nothing_held held =
        let read : Reads none (P.get_latest o) =
          subst (λ x. Reads x (P.get_latest o)) held (lawful.get_latest-write_ops s₀ id o opened) in
        finish_not_found read.0 read.1 read.2 held

    finish_held :
        (prev_raw range_raw : Bytes)
        → stored s₀ id ≡ some (prev_raw, range_raw)
        → let (reply, t) = finish L P w id info next n proof o s in
          Outcome L P stored w id info next n proof (stored s₀ id) s t reply
    unfolding finish
    finish_held prev_raw range_raw held =
        let read : Reads (some (prev_raw, range_raw)) (P.get_latest o) =
          subst (λ x. Reads x (P.get_latest o)) held (lawful.get_latest-write_ops s₀ id o opened) in
        rw (read, finish)
          (elim (Result-cases (parse L w prev_raw id)) [
            | inr (e, bad) ↦ rw bad (refused (λ j. refl) refl (λ x. ground arith))
            | inl ((prev, m), parsed) ↦ elim (Result-cases (stored_range L P info range_raw)) [
              | inr (e, bad) ↦ rw parsed (rw bad (refused (λ j. refl) refl (λ x. ground arith)))
              | inl (prev_range, ranged) ↦ rw parsed (
                  rw ranged (
                    advance-Outcome L P stored lawful w id s₀ o opened info next n proof s prev_raw
                      range_raw prev m prev_range held parsed ranged))
            ]
          ])

    pub finish-Outcome :
        let (reply, t) = finish L P w id info next n proof o s in
        Outcome L P stored w id info next n proof (stored s₀ id) s t reply
    finish-Outcome = elim (Option-cases (stored s₀ id)) [
      | inl held ↦ finish_nothing_held held
      | inr ((prev_raw, range_raw), held) ↦ finish_held prev_raw range_raw held
    ]

  module _ (w : Witness L) (id : String) (raw : Bytes) (s : P.State) where
    -- What `prepare` has found out.
    pub prepare_found :
        (p : Prepared L P)
        → prepare L P w id raw s ≡ ok p
        → (lookup id w.logs ≡ some p.info)
          × (parse L w raw id ≡ ok (p.next, p.next_note))
          × (P.write_ops s id ≡ ok p.write)
    unfolding prepare
    prepare_found p h = ground arith

  -- Over a lawful persistence, an update that fails before the checkpoint is compared changes
  -- nothing. Else it ends in one of five ways. It fails with a reply without a checkpoint and
  -- changes nothing; it fails, replies with the checkpoint held and changes nothing; it finds a
  -- checkpoint of the same size and hash held, replies with it and changes nothing; nothing was
  -- held, the initial range was checked, and it stores the cosigned checkpoint with it and replies
  -- with what it stored; or a smaller checkpoint was held, the growth from it was checked, and it
  -- stores the cosigned checkpoint and replies with what it stored.
  pub update-Outcome :
      (w : Witness L) (id : String) (raw : Bytes) (proof : Hashes) (s : P.State)
      → IsLawful P stored
      → let (reply, t) = update L P w id raw proof s in
        (Same L P stored s t × (reply.error ≢ none))
        ⊎ ((p : Prepared L P) × (prepare L P w id raw s ≡ ok p)
            × Outcome L P stored w id p.info p.next p.next_note proof (stored s id) s t reply)
  unfolding update finish_prepared
  update-Outcome w id raw proof s lawful = elim (Result-cases (prepare L P w id raw s)) [
    | inr (e, bad) ↦ rw (bad, update) (inl (λ j. refl, λ x. ground arith))
    | inl (p, prepared) ↦
        rw (prepared, update)
          (inr (
            p,
            refl,
            finish-Outcome lawful w id s p.write (prepare_found w id raw s p prepared).2 p.info
                p.next p.next_note proof s,
          ))
  ]
