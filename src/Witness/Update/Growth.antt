-- ===== src/Witness/Update/Growth.antt =====
-- What `Update` can do to the store: a checkpoint moves on only by a proof that was checked.
use trillian_serverless.Base.{
  ◌<◌, String, ◌≡◌, refl, ◌≢◌, ◌⊎◌, inl, inr, Bytes, Option, none, some, Result, ok, err, ◌=?◌,
  string_eq, bytes_eq, if◌then◌else◌, ltb, ◌==◌, arith, Result-cases, Bool-cases,
}
use trillian_serverless.Formats.{Checkpoint, Note, Hashes}
use trillian_serverless.Witness.Status.{Code}
use trillian_serverless.Witness.Persistence.{Persistence, IsLawful, Writes}
use trillian_serverless.Witness.Update.{
  Libraries, fail, accept, Witness, LogInfo, Reply, parse, sign_chkpt, init_range, check_growth,
  stored_range, set_init_chkpt_data, store_signed, trust_first, advance,
}

module _ (L : Libraries) (P : Persistence)
    (stored : P.State → String → Option (Bytes × Bytes)) where
  open L use {Range}

  -- Nothing of the store has changed.
  abbrev pub Same : P.State → P.State → Type 0
  Same s t = (j : String) → stored t j ≡ stored s j

  -- Only `id` has changed, from `old` to a cosigned form of the note with the range `r`.
  pub record Wrote (w : Witness L) (id : String) (n : Note) (r : Bytes)
      (old : Option (Bytes × Bytes)) (s t : P.State) : Type 0 where
    pub signed : Bytes
    pub signed_by : sign_chkpt L w n ≡ ok signed
    pub was : stored s id ≡ old
    pub now : (j : String) → stored t j ≡ (if j =? id then some (signed, r) else stored s j)

  -- The reply is an error without a checkpoint, and nothing has changed; or it is what was stored.
  abbrev Stored :
      Witness L
      → String
      → Note
      → Bytes
      → Option (Bytes × Bytes)
      → P.State
      → P.State
      → Reply
      → Type 0
  Stored w id n r old s t reply =
      (Same s t × (reply.body ≡ none) × (reply.error ≢ none))
      ⊎ ((wrote : Wrote w id n r old s t) × (reply ≡ accept wrote.signed))

  module _ (lawful : IsLawful P stored) (w : Witness L) (id : String) (s₀ : P.State) (o : P.Ops)
      (opened : P.write_ops s₀ id ≡ ok o) where
    -- What a write by this handle leaves, with the reply that its result gives.
    write-Stored :
        (n : Note) (signed r : Bytes) (s t : P.State) (res : Result String (Unit {0})) (m : String)
        → sign_chkpt L w n ≡ ok signed
        → Writes id (signed, r) (stored s₀ id) (stored s) (stored t) res
        → Stored w id n r
            (stored s₀ id)
            s
            t
            (elim res [ err _ ↦ fail Code.internal m | ok _ ↦ accept signed ])
    write-Stored n signed r s t (ok _) m h (was, now) =
        inr (record { signed = signed; signed_by = h; was = was; now = now }, refl)
    write-Stored n signed r s t (err _) m h same = inl (same, refl, λ x. ground arith)

    store_signed-Stored :
        (n : Note) (r : Bytes) (s : P.State)
        → let (reply, t) = store_signed L P w n r o s in Stored w id n r (stored s₀ id) s t reply
    unfolding store_signed
    store_signed-Stored n r s = elim (Result-cases (sign_chkpt L w n)) [
      | inr (e, h) ↦ rw (h, store_signed) (inl (λ j. refl, refl, λ x. ground arith))
      | inl (signed, h) ↦
          rw (h, store_signed)
            (write-Stored n signed r s _ _ _ h
              (lawful.set_latest-write_ops s₀ s id o signed r opened))
    ]

    -- The first checkpoint of a log is stored only with a range that was checked against it.
    pub trust_first-Stored :
        (info : LogInfo Range) (next : Checkpoint) (n : Note) (proof : Hashes) (s : P.State)
        → let (reply, t) = trust_first L P w info next n proof o s in
          (Same s t × (reply.body ≡ none) × (reply.error ≢ none))
          ⊎ ((r : Bytes) × (init_range L info next proof ≡ ok r)
              × (wrote : Wrote w id n r (stored s₀ id) s t) × (reply ≡ accept wrote.signed))
    unfolding trust_first set_init_chkpt_data
    trust_first-Stored info next n proof s = elim (Result-cases (sign_chkpt L w n)) [
      | inr (e, h) ↦ rw (h, trust_first) (inl (λ j. refl, refl, λ x. ground arith))
      | inl (signed, h) ↦ elim (Result-cases (init_range L info next proof)) [
        | inr (e, k) ↦
            rw (h, trust_first)
              (rw (k, set_init_chkpt_data) (inl (λ j. refl, refl, λ x. ground arith)))
        | inl (r, k) ↦
            rw (h, trust_first)
              (rw (k, set_init_chkpt_data)
                (elim (write-Stored n signed r s _ _ "couldn't set TOFU checkpoint" h
                  (lawful.set_latest-write_ops s₀ s id o signed r opened)) [
                    | inl same ↦ inl same
                    | inr (wrote, e) ↦ inr (r, refl, wrote, e)
                  ]))
      ]
    ]

  -- The five ways in which an update of `id` by `next` ends, from what the handle read (`held`).
  pub data Outcome (w : Witness L) (id : String) (info : LogInfo Range) (next : Checkpoint)
      (n : Note) (proof : Hashes) (held : Option (Bytes × Bytes)) (s t : P.State) (reply : Reply)
      : Type 0 where
    refused :
        Same s t
        → reply.body ≡ none
        → reply.error ≢ none
        → Outcome w id info next n proof held s t reply
    disputed :
        (prev_raw range_raw : Bytes) (prev : Checkpoint) (m : Note)
        → held ≡ some (prev_raw, range_raw)
        → parse L w prev_raw id ≡ ok (prev, m)
        → Same s t
        → reply.body ≡ some prev_raw
        → reply.error ≢ none
        → Outcome w id info next n proof held s t reply
    current :
        (prev_raw range_raw : Bytes) (prev : Checkpoint) (m : Note)
        → held ≡ some (prev_raw, range_raw)
        → parse L w prev_raw id ≡ ok (prev, m)
        → next.size ≡ prev.size
        → next.hash ≡ prev.hash
        → Same s t
        → reply ≡ accept prev_raw
        → Outcome w id info next n proof held s t reply
    first :
        (range : Bytes)
        → held ≡ none
        → init_range L info next proof ≡ ok range
        → (wrote : Wrote w id n range held s t) → reply ≡ accept wrote.signed
        → Outcome w id info next n proof held s t reply
    grown :
        (prev_raw range_raw : Bytes) (prev : Checkpoint) (m : Note) (prev_range : Hashes)
        (range : Bytes)
        → held ≡ some (prev_raw, range_raw)
        → parse L w prev_raw id ≡ ok (prev, m)
        → stored_range L P info range_raw ≡ ok prev_range
        → prev.size < next.size
        → check_growth L P info prev next prev_range proof ≡ ok range
        → (wrote : Wrote w id n range held s t) → reply ≡ accept wrote.signed
        → Outcome w id info next n proof held s t reply

  module _ (lawful : IsLawful P stored) (w : Witness L) (id : String) (s₀ : P.State) (o : P.Ops)
      (opened : P.write_ops s₀ id ≡ ok o) (info : LogInfo Range) (next : Checkpoint) (n : Note)
      (proof : Hashes) (s : P.State) where
    pub advance-Outcome :
        (prev_raw range_raw : Bytes) (prev : Checkpoint) (m : Note) (prev_range : Hashes)
        → stored s₀ id ≡ some (prev_raw, range_raw)
        → parse L w prev_raw id ≡ ok (prev, m)
        → stored_range L P info range_raw ≡ ok prev_range
        → let (reply, t) = advance L P w info next n proof o prev_raw prev prev_range s in
          Outcome w id info next n proof (stored s₀ id) s t reply
    unfolding advance
    advance-Outcome prev_raw range_raw prev m prev_range held parsed ranged =
        elim (Bool-cases (ltb next.size prev.size)) [
          | inl back ↦
              rw (back) (
                disputed prev_raw range_raw prev m held parsed (λ j. refl) refl (λ x. ground arith))
          | inr forth ↦ elim (Bool-cases (next.size == prev.size)) [
            | inl same ↦ elim (Bool-cases (next.hash =? prev.hash)) [
              | inl agree ↦ rw forth (
                  rw same (
                    rw agree (
                      current prev_raw range_raw prev m held parsed (ground arith) (ground arith)
                        (λ j. refl) refl)))
              | inr fork ↦ rw forth (
                  rw same (
                    rw fork (
                      disputed prev_raw range_raw prev m held parsed (λ j. refl) refl
                        (λ x. ground arith))))
            ]
            | inr more ↦ elim (Result-cases (check_growth L P info prev next prev_range proof)) [
              | inr (e, bad) ↦ rw forth (
                  rw more (
                    rw bad (
                      disputed prev_raw range_raw prev m held parsed (λ j. refl) refl
                        (λ x. ground arith))))
              | inl (range, good) ↦ rw forth (
                  rw more (
                    rw good (elim (store_signed-Stored lawful w id s₀ o opened n range s) [
                      | inl (same, bare, failed) ↦ refused same bare failed
                      | inr (wrote, done) ↦
                          grown prev_raw range_raw prev m prev_range range held parsed ranged
                            (ground arith) good wrote done
                    ])))
            ]
          ]
        ]
