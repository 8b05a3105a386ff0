-- ===== src/Witness/Update/History.antt =====
-- Runs of many updates, also concurrent ones: each reads the store at some moment (`prepare`) and
-- writes at a later one (`finish_prepared`), and others may run in between.
use trillian_serverless.Base.{
  ◌≤◌, ◌<◌, String, ◌=?◌, string_eq, bytes_eq, false, ◌≡◌, sym, ◌∙◌, inl, inr, Bytes, [], Option,
  some, ok, arith, Bool-cases, subst,
}
use trillian_serverless.Base.Dict.{lookup}
use trillian_serverless.Formats.{Checkpoint, Note, Signer, Verifier, Hashes}
use trillian_serverless.Witness.Persistence.{Persistence, IsLawful}
use trillian_serverless.Witness.Update.{
  Libraries, Witness, LogInfo, Reply, parse, sign_chkpt, check_growth, Prepared, prepare,
  finish_prepared,
}
use trillian_serverless.Witness.Update.Growth.{
  Same, Wrote, Outcome, refused, disputed, current, first, grown,
}
use trillian_serverless.Witness.Update.Outcomes.{finish-Outcome, prepare_found}

-- Adding a signature to an opened checkpoint leaves the checkpoint as it is.
abbrev pub KeepsCheckpoint : Libraries → Type 0
KeepsCheckpoint L =
    (raw signed : Bytes) (origin : String) (v : Verifier) (signer : Signer) (c : Checkpoint)
    (n : Note)
    → L.parse_checkpoint raw origin v [] ≡ ok (c, n)
    → L.sign n signer ≡ ok signed
    → (m : Note) × (L.parse_checkpoint signed origin v [] ≡ ok (c, m))

module _ (L : Libraries) (P : Persistence) where
  open L use {Range}

  -- The second checkpoint is reached from the first by growth that was checked, step by step.
  pub data Descends (info : LogInfo Range) (a : Checkpoint) : Checkpoint → Type 0 where
    here : Descends info a a
    there :
        {b : Checkpoint} (c : Checkpoint) (prev_range proof : Hashes) (range : Bytes)
        → Descends info a b
        → b.size < c.size
        → check_growth L P info b c prev_range proof ≡ ok range
        → Descends info a c

  -- One update reaches its end. It has read the store in any earlier state.
  pub data Step (w : Witness L) (s t : P.State) : Type 0 where
    commit :
        (id : String) (raw : Bytes) (proof : Hashes) (s₀ : P.State) (p : Prepared L P)
        → prepare L P w id raw s₀ ≡ ok p
        → t ≡ (finish_prepared L P w id proof p s).1
        → Step w s t

  pub data Reach (w : Witness L) (s : P.State) : P.State → Type 0 where
    start : Reach w s s
    and_then : {t : P.State} (u : P.State) → Reach w s t → Step w t u → Reach w s u

  module _ (stored : P.State → String → Option (Bytes × Bytes)) (w : Witness L) (id : String)
      (info : LogInfo Range) (a : Checkpoint) where
    -- What is stored for `id` parses to a checkpoint that descends from `a`.
    pub record Tracks (t : P.State) : Type 0 where
      pub raw : Bytes
      pub range : Bytes
      pub checkpoint : Checkpoint
      pub note : Note
      pub held : stored t id ≡ some (raw, range)
      pub parsed : parse L w raw id ≡ ok (checkpoint, note)
      pub descends : Descends info a checkpoint

    module _ (keeps : KeepsCheckpoint L) (known : lookup id w.logs ≡ some info) where
      -- The cosigned form of a checkpoint parses to that checkpoint.
      parse-sign_chkpt :
          (raw signed : Bytes) (c : Checkpoint) (n : Note)
          → parse L w raw id ≡ ok (c, n)
          → sign_chkpt L w n ≡ ok signed
          → (m : Note) × (parse L w signed id ≡ ok (c, m))
      unfolding parse sign_chkpt
      parse-sign_chkpt raw signed c n parsed signed_by =
          rw (known, parse)
            (keeps raw signed info.origin info.sig_v w.signer c n (rw (known, parse) at parsed)
              (ground arith))

      Tracks-Same : {s t : P.State} → Tracks s → Same L P stored s t → Tracks t
      Tracks-Same k same = record {
        raw = k.raw;
        range = k.range;
        checkpoint = k.checkpoint;
        note = k.note;
        held = same id ∙ k.held;
        parsed = k.parsed;
        descends = k.descends;
      }

      -- A write for another log.
      Tracks-other :
          {s t : P.State} (j : String) (n : Note) (r : Bytes) (old : Option (Bytes × Bytes))
          → (id =? j) ≡ false
          → Tracks s
          → Wrote L P stored w j n r old s t
          → Tracks t
      Tracks-other j n r old differ k wrote = record {
        raw = k.raw;
        range = k.range;
        checkpoint = k.checkpoint;
        note = k.note;
        held = wrote.now id ∙ rw differ k.held;
        parsed = k.parsed;
        descends = k.descends;
      }

      Tracks-grown :
          {s t : P.State} (prev_raw range_raw raw : Bytes) (prev next : Checkpoint) (m n : Note)
          (prev_range proof : Hashes) (r : Bytes) (old : Option (Bytes × Bytes))
          → Tracks s
          → old ≡ some (prev_raw, range_raw)
          → parse L w prev_raw id ≡ ok (prev, m)
          → parse L w raw id ≡ ok (next, n)
          → prev.size < next.size
          → check_growth L P info prev next prev_range proof ≡ ok r
          → Wrote L P stored w id n r old s t
          → Tracks t
      Tracks-grown prev_raw range_raw raw prev next m n prev_range proof r old k held was_parsed
            parsed more good wrote =
          let (m', again) = parse-sign_chkpt raw wrote.signed next n parsed wrote.signed_by in
          let same : k.checkpoint ≡ prev = cc (k.held, wrote.was, held, k.parsed, was_parsed) in
          record {
            raw = wrote.signed;
            range = r;
            checkpoint = next;
            note = m';
            held = rw (wrote.now id) (ground arith);
            parsed = again;
            descends =
                there next prev_range proof r (subst (Descends info a) same k.descends) more good;
          }

      -- The update is of this log.
      Outcome-Tracks_self :
          {s t : P.State} (raw : Bytes) (next : Checkpoint) (n : Note) (proof : Hashes)
          (old : Option (Bytes × Bytes)) (reply : Reply)
          → Tracks s
          → parse L w raw id ≡ ok (next, n)
          → Outcome L P stored w id info next n proof old s t reply
          → Tracks t
      Outcome-Tracks_self raw next n proof old reply k parsed (refused same _ _) =
          Tracks-Same k same
      Outcome-Tracks_self raw next n proof old reply k parsed (disputed _ _ _ _ _ _ same _ _) =
          Tracks-Same k same
      Outcome-Tracks_self raw next n proof old reply k parsed (current _ _ _ _ _ _ _ _ same _) =
          Tracks-Same k same
      Outcome-Tracks_self raw next n proof old reply k parsed (first _ held _ wrote _) =
          absurd (cc (k.held, wrote.was, held))
      Outcome-Tracks_self raw next n proof old reply k parsed
            (grown prev_raw range_raw prev m prev_range r held was_parsed _ more good wrote _) =
          Tracks-grown prev_raw range_raw raw prev next m n prev_range proof r old k held was_parsed
            parsed more good wrote

      -- The update is of another log.
      Outcome-Tracks_other :
          {s t : P.State} (j : String) (info' : LogInfo Range) (next : Checkpoint) (n : Note)
          (proof : Hashes) (old : Option (Bytes × Bytes)) (reply : Reply)
          → (id =? j) ≡ false
          → Tracks s
          → Outcome L P stored w j info' next n proof old s t reply
          → Tracks t
      Outcome-Tracks_other j info' next n proof old reply differ k (refused same _ _) =
          Tracks-Same k same
      Outcome-Tracks_other j info' next n proof old reply differ k (disputed _ _ _ _ _ _ same _ _) =
          Tracks-Same k same
      Outcome-Tracks_other j info' next n proof old reply differ k
            (current _ _ _ _ _ _ _ _ same _) =
          Tracks-Same k same
      Outcome-Tracks_other j info' next n proof old reply differ k (first r _ _ wrote _) =
          Tracks-other j n r old differ k wrote
      Outcome-Tracks_other j info' next n proof old reply differ k
            (grown _ _ _ _ _ r _ _ _ _ _ wrote _) =
          Tracks-other j n r old differ k wrote

      Outcome-Tracks :
          {s t : P.State} (j : String) (raw : Bytes) (info' : LogInfo Range) (next : Checkpoint)
          (n : Note) (proof : Hashes) (old : Option (Bytes × Bytes)) (reply : Reply)
          → Tracks s
          → lookup j w.logs ≡ some info'
          → parse L w raw j ≡ ok (next, n)
          → Outcome L P stored w j info' next n proof old s t reply
          → Tracks t
      Outcome-Tracks {s} {t} j raw info' next n proof old reply k found parsed out =
          elim (Bool-cases (id =? j)) [
            | inr differ ↦ Outcome-Tracks_other j info' next n proof old reply differ k out
            | inl equal ↦
                let e : j ≡ id = ground arith in
                let f : info' ≡ info = cc (e, found, known) in
                Outcome-Tracks_self raw next n proof old reply k
                  (subst (λ i. parse L w raw i ≡ ok (next, n)) e parsed)
                  (subst (λ i. Outcome L P stored w id i next n proof old s t reply) f
                    (subst (λ i. Outcome L P stored w i info' next n proof old s t reply) e out))
          ]

      Step-Tracks : {s t : P.State} → IsLawful P stored → Step w s t → Tracks s → Tracks t
      unfolding finish_prepared
      Step-Tracks {s} lawful (commit j raw proof s₀ p prepared e) k =
          let (found, parsed, opened) = prepare_found L P stored w j raw s₀ p prepared in
          subst Tracks (sym e) (
            Outcome-Tracks j raw p.info p.next p.next_note proof _ _ k found parsed (
              finish-Outcome L P stored lawful w j s₀ p.write opened p.info p.next p.next_note proof
                s))

      -- Over a lawful persistence, with a signer that keeps the checkpoint, for a log that the
      -- witness knows: whatever updates run, and however they interleave, if the checkpoint held
      -- for the log descends from `a`, so does the one that is held afterwards.
      pub Reach-Tracks : {s t : P.State} → IsLawful P stored → Reach w s t → Tracks s → Tracks t
      Reach-Tracks lawful start k = k
      Reach-Tracks lawful (and_then u r st) k = Step-Tracks lawful st (Reach-Tracks lawful r k)

  -- So the size never goes down.
  pub Descends-le : {info : LogInfo Range} {a b : Checkpoint} → Descends info a b → a.size ≤ b.size
  Descends-le here = omega arith
  Descends-le (there c _ _ _ d more _) = omega (arith, Descends-le d)
