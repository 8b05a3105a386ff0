-- ===== src/Firmware/Witness/Restart.antt =====
-- A restart of the firmware witness from its file.
use trillian_serverless.Base.{
  ◌≤◌, ◌≡◌, refl, sym, ◌∙◌, ap, subst, String, Bool, true, false, List, [], ◌∷◌, Bytes, Option,
  none, some, Result, ok, err, bind-ok, ok-injective, ok-ne-err, arith, suc, lt→ltb, length,
  if◌then◌else◌, ltb,
}
use trillian_serverless.Firmware.Log.{LogCheckpoint, parse_checkpoint}
use trillian_serverless.Firmware.Log.Laws.{parse_checkpoint-envelope}
use trillian_serverless.Firmware.Follower.{FollowError, Event, Calls, checkpoints}
use trillian_serverless.Firmware.Follower.Laws.{Chain, checkpoints-Chain}
use trillian_serverless.Firmware.Store.{
  WitnessStore, one_file, file_store, retrieve_cp, store_cp, overwrite_longer,
}
use trillian_serverless.Firmware.Witness.{
  no_checkpoint, Witness, Phase, selecting, holding, returned, Action, receive, observe, cancel,
  keep, request, open_stored, new_witness, System, start, take_checkpoint, take_error,
  keep_checkpoint, get_checkpoint, poll, act, run,
}

abbrev pub files : WitnessStore
files = file_store one_file

-- No envelope is shorter than the one before it.
abbrev pub NeverShorter : Bytes → List LogCheckpoint → Type 0
NeverShorter raw [] = Unit
NeverShorter raw (cp ∷ cps) = (length raw ≤ length cp.envelope) × NeverShorter cp.envelope cps

-- The file takes a checkpoint that is no shorter than what it holds.
pub store_longer :
    (raw wcp : Bytes) → length raw ≤ length wcp → files.store_cp wcp (some raw) ≡ (ok tt, some wcp)
unfolding store_cp
store_longer raw wcp h = ap (λ b. (ok tt, some b)) (overwrite_longer raw wcp h)

module _ (c : Calls) (why : String) (refused : c.formats.parse_log [] ≡ err why) where
  -- A checkpoint that is read back from what is stored for it.
  abbrev Good : LogCheckpoint → Type 0
  Good cp = open_stored c.formats cp.envelope ≡ ok cp

  abbrev AllGood : List LogCheckpoint → Type 0
  AllGood [] = Unit
  AllGood (cp ∷ cps) = Good cp × AllGood cps

  -- What Poll may come to hold, from what is stored on.
  abbrev Coming : Phase → Bytes → List LogCheckpoint → Type 0
  Coming selecting raw cps = NeverShorter raw cps × AllGood cps
  Coming (holding cp) raw cps = NeverShorter raw (cp ∷ cps) × AllGood (cp ∷ cps)
  Coming (returned e) raw cps = Unit

  -- The file holds the envelope of what the witness holds, all that Poll may come to hold can be
  -- read back, and the follower has not ended.
  record Steady (s : System c.formats files) : Type 0 where
    good : Good s.witness.gcp
    held : s.store ≡ some s.witness.gcp.envelope
    coming : Coming s.phase s.witness.gcp.envelope s.pending
    follows : s.failure ≡ none

  Good-parsed :
      (raw : Bytes) (cp : LogCheckpoint)
      → parse_checkpoint c.formats raw ≡ ok cp
      → open_stored c.formats raw ≡ ok cp
  unfolding open_stored parse_checkpoint
  Good-parsed [] cp h =
      let (p, e, _) = bind-ok (c.formats.parse_log []) _ cp h in
      absurd (ok-ne-err p why (sym e ∙ refused))
  Good-parsed (b ∷ raw) cp h = rw (lt→ltb 0 (suc (length raw)) (omega arith)) h

  Chain-AllGood :
      (events : List Event) (golden : LogCheckpoint) (cps : List LogCheckpoint)
      (e : Option FollowError)
      → Chain c events golden cps e
      → AllGood cps
  Chain-AllGood events golden [] e h = tt
  Chain-AllGood events golden (cp ∷ cps) e (after, (_, _, _, larger, _), rest) =
      (Good-parsed cp.envelope cp larger.1, Chain-AllGood after cp cps e rest)

  keep_checkpoint-Steady :
      (cp : LogCheckpoint) (s : System c.formats files)
      → s.phase ≡ holding cp
      → Steady s
      → Steady (keep_checkpoint c.formats files cp s)
  unfolding keep_checkpoint
  keep_checkpoint-Steady cp s at h =
      let coming : Coming (holding cp) s.witness.gcp.envelope s.pending =
        subst (λ p. Coming p s.witness.gcp.envelope s.pending) at h.coming in
      let written =
        ap (λ t. files.store_cp cp.envelope t) h.held
        ∙ store_longer s.witness.gcp.envelope cp.envelope coming.0.0 in
      rw (written, keep_checkpoint)
        (record {
          good = coming.1.0;
          held = ap (λ (q : Result String (Unit {0}) × Option Bytes). q.1) written;
          coming = (coming.0.1, coming.1.1);
          follows = h.follows;
        })

  if-Steady :
      (b : Bool) (s t : System c.formats files) → Steady s → Steady t → Steady (if b then s else t)
  if-Steady true s t h k = h
  if-Steady false s t h k = k

  -- A turn of the `select` by what the follower has left.
  taken-Steady :
      (cps : List LogCheckpoint) (e : Option FollowError) (s : System c.formats files)
      → s.phase ≡ selecting
      → s.pending ≡ cps
      → s.failure ≡ e
      → Steady s
      → Steady (elim cps [
        | cp ∷ rest ↦ record s { phase = holding cp; pending = rest }
        | [] ↦ elim e [ none ↦ s | some _ ↦ record s { phase = holding (no_checkpoint []) } ]
      ])
  taken-Steady [] none s at left ending h = h
  taken-Steady [] (some e) s at left ending h = absurd (cc (ending, h.follows))
  taken-Steady (cp ∷ rest) e s at left ending h =
      let coming : Coming s.phase s.witness.gcp.envelope (cp ∷ rest) =
        subst (λ l. Coming s.phase s.witness.gcp.envelope l) left h.coming in
      record {
        good = h.good;
        held = h.held;
        coming = subst (λ p. Coming p s.witness.gcp.envelope (cp ∷ rest)) at coming;
        follows = h.follows;
      }

  failed-Steady :
      (e : Option FollowError) (s : System c.formats files)
      → s.failure ≡ e
      → Steady s
      → Steady (elim e [
        | none ↦ s
        | some e ↦ if ltb 1 (length s.pending) then s else record s { phase = returned e }
      ])
  failed-Steady none s ending h = h
  failed-Steady (some e) s ending h = absurd (cc (ending, h.follows))

  poll-Steady :
      (a : Action) (p : Phase) (s : System c.formats files)
      → s.phase ≡ p
      → Steady s
      → Steady (poll c.formats files a p s)
  unfolding poll take_checkpoint take_error
  poll-Steady receive selecting s at h = taken-Steady s.pending s.failure s at refl refl h
  poll-Steady observe selecting s at h = failed-Steady s.failure s refl h
  poll-Steady cancel selecting s at h = record {
    good = h.good;
    held = h.held;
    coming = tt;
    follows = h.follows;
  }
  poll-Steady keep (holding cp) s at h =
      if-Steady s.witness.locked s (keep_checkpoint c.formats files cp s) h
        (keep_checkpoint-Steady cp s at h)
  poll-Steady _ _ s at h = h

  answered-Steady :
      (b : Bool) (s : System c.formats files) (reply : Bytes)
      → Steady s
      → Steady (
          let answered : System c.formats files × List Bytes =
            if b
            then (s, [])
            else (record s { witness = record s.witness { locked = true } }, reply ∷ []) in
          answered.0)
  answered-Steady true s reply h = h
  answered-Steady false s reply h = record {
    good = h.good;
    held = h.held;
    coming = h.coming;
    follows = h.follows;
  }

  act-Steady :
      (a : Action) (s : System c.formats files) → Steady s → Steady (act c.formats files a s).0
  unfolding act get_checkpoint
  act-Steady request s h = answered-Steady s.witness.locked s s.witness.gcp.envelope h
  act-Steady receive s h = poll-Steady receive s.phase s refl h
  act-Steady observe s h = poll-Steady observe s.phase s refl h
  act-Steady cancel s h = poll-Steady cancel s.phase s refl h
  act-Steady keep s h = poll-Steady keep s.phase s refl h

  run-Steady :
      (actions : List Action) (s : System c.formats files)
      → Steady s
      → Steady (run c.formats files actions s).0
  unfolding run
  run-Steady [] s h = h
  run-Steady (a ∷ actions) s h = run-Steady actions (act c.formats files a s).0 (act-Steady a s h)

  opened-envelope :
      (raw : Bytes) (cp : LogCheckpoint) → open_stored c.formats raw ≡ ok cp → cp.envelope ≡ raw
  unfolding open_stored
  opened-envelope [] cp h =
      sym (ap (λ (l : LogCheckpoint). l.envelope) (ok-injective (no_checkpoint []) cp h))
  opened-envelope (b ∷ raw) cp h =
      parse_checkpoint-envelope c.formats (b ∷ raw) cp
        (sym (rw (lt→ltb 0 (suc (length raw)) (omega arith)) refl) ∙ h)

  started-Steady :
      (events : List Event) (raw : Bytes) (gcp : LogCheckpoint)
      → open_stored c.formats raw ≡ ok gcp
      → NeverShorter raw (checkpoints c events gcp).0
      → (checkpoints c events gcp).1 ≡ none
      → Steady (start c.formats files c events (record { gcp = gcp; locked = false }) (some raw))
  unfolding start
  started-Steady events raw gcp opened longer follows =
      let same = opened-envelope raw gcp opened in
      let good : Good gcp = ap (open_stored c.formats) same ∙ opened in
      let (sent, e, eq, chain) = checkpoints-Chain c events gcp in
      record {
        good = good;
        held = ap some (sym same);
        coming = (
          subst (λ b. NeverShorter b (checkpoints c events gcp).0) (sym same) longer,
          subst (λ (p : List LogCheckpoint × Option FollowError). AllGood p.0) (sym eq)
              (good, Chain-AllGood events gcp sent e chain),
        );
        follows = follows;
      }

  -- A witness is started from its file, as long as no checkpoint is parsed from nothing. Where the
  -- follower does not end and none of the envelopes that it sends is shorter than the one before it:
  -- whatever the log answers, and however Poll, its channels and the requests interleave, a witness
  -- that is started anew from the file holds the checkpoint that this one holds.
  pub run-new_witness :
      (events : List Event) (actions : List Action) (raw : Bytes) (gcp : LogCheckpoint)
      → new_witness c.formats files (some raw) ≡ ok (record { gcp = gcp; locked = false })
      → NeverShorter raw (checkpoints c events gcp).0
      → (checkpoints c events gcp).1 ≡ none
      → let w : Witness = record { gcp = gcp; locked = false } in
        let t = (run c.formats files actions (start c.formats files c events w (some raw))).0 in
        new_witness c.formats files t.store ≡ ok (record { gcp = t.witness.gcp; locked = false })
  unfolding new_witness retrieve_cp
  run-new_witness events actions raw gcp h longer follows =
      let (cp, opened, h2) = bind-ok (open_stored c.formats raw) _ _ h in
      let same : cp ≡ gcp = ap (λ (w : Witness). w.gcp) (ok-injective _ _ h2) in
      let begun = started-Steady events raw gcp (opened ∙ ap ok same) longer follows in
      let w : Witness = record { gcp = gcp; locked = false } in
      let steady = run-Steady actions (start c.formats files c events w (some raw)) begun in
      rw (steady.held) (rw (steady.good) refl)
