-- ===== src/Firmware/Witness/Progress.antt =====
-- The firmware witness comes to hold and to store what its follower sends.
use trillian_serverless.Base.{
  ◌≡◌, ◌≤◌, refl, ◌∙◌, ap, String, Result, false, List, [], ◌∷◌, Bytes, Option, some, length,
}
use trillian_serverless.Firmware.Log.{Formats, LogCheckpoint}
use trillian_serverless.Firmware.Follower.{FollowError}
use trillian_serverless.Firmware.Store.{WitnessStore}
use trillian_serverless.Firmware.Witness.{
  selecting, Action, receive, keep, System, take_checkpoint, keep_checkpoint, poll, act, run,
}
use trillian_serverless.Firmware.Witness.Restart.{files, NeverShorter, store_longer}

-- Poll's turns for the checkpoints that are sent.
abbrev pub turns : List LogCheckpoint → List Action
turns [] = []
turns (_ ∷ cps) = receive ∷ keep ∷ turns cps

abbrev pub last : LogCheckpoint → List LogCheckpoint → LogCheckpoint
last cp [] = cp
last cp (next ∷ cps) = last next cps

module _ (f : Formats) (S : WitnessStore) (e : Option FollowError) where
  -- Poll at its `select`, and the mutex free.
  abbrev pub ready : LogCheckpoint → S.State → List LogCheckpoint → System f S
  ready gcp s cps = record {
    witness = record { gcp = gcp; locked = false };
    store = s;
    phase = selecting;
    pending = cps;
    failure = e;
  }

module _ (f : Formats) (e : Option FollowError) where
  run-turn :
      (gcp cp : LogCheckpoint) (b : Bytes) (cps : List LogCheckpoint) (rest : List Action)
      → length b ≤ length cp.envelope
      → run f files (receive ∷ keep ∷ rest) (ready f files e gcp (some b) (cp ∷ cps))
        ≡ run f files rest (ready f files e cp (some cp.envelope) cps)
  unfolding run act poll take_checkpoint keep_checkpoint
  run-turn gcp cp b cps rest h =
      let stored = store_longer b cp.envelope h in
      rw (stored, keep_checkpoint)
        (ap
          (λ (q : Result String (Unit {0}) × Option Bytes).
            run f files rest (ready f files e cp q.1 cps))
          stored)

  -- A witness on its file, without a request: where no envelope that is sent is shorter than the one
  -- before it, after its turns for them the witness holds the last checkpoint that was sent, its
  -- file is that one's envelope, and Poll is ready for more.
  pub run-turns :
      (cps : List LogCheckpoint) (gcp : LogCheckpoint)
      → NeverShorter gcp.envelope cps
      → run f files (turns cps) (ready f files e gcp (some gcp.envelope) cps)
        ≡ (ready f files e (last gcp cps) (some (last gcp cps).envelope) [], [])
  unfolding run
  run-turns [] gcp h = refl
  run-turns (cp ∷ cps) gcp (longer, rest) =
      run-turn gcp cp gcp.envelope cps (turns cps) longer ∙ run-turns cps cp rest
