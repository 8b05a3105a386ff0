-- ===== src/Firmware/Witness/Tests.antt =====
-- Runs of the firmware witness with a store that is one checkpoint, and on a file.
use trillian_serverless.Base.{
  none, ◌≡◌, ◌≤◌, ◌↔◌, refl, ap, arith, Option, Bool, true, false, List, [], ◌∷◌, Bytes, some, ok,
}
use trillian_serverless.Firmware.Log.{
  LogCheckpoint, parse_checkpoint, get_checkpoint, get_consistency_proof,
}
use trillian_serverless.Firmware.Follower.{
  FollowError, cancelled, Event, tick, done, poll_log, compare_golden, follow, checkpoints,
}
use trillian_serverless.Firmware.Follower.Tests.{formats, calls, at_size, log_at}
use trillian_serverless.Firmware.Store.{
  WitnessStore, one_file, store_cp, retrieve_cp, retrieve_cp-store_cp,
}
use trillian_serverless.Firmware.Witness.{
  Witness, holding, Action, receive, observe, keep, request, open_stored, new_witness, System,
  start, run,
}
use trillian_serverless.Firmware.Witness.Laws.{run-request}
use trillian_serverless.Firmware.Witness.Progress.{turns, ready, run-turns}
use trillian_serverless.Firmware.Witness.Restart.{files, NeverShorter, run-new_witness}

abbrev one_checkpoint : WitnessStore
one_checkpoint = record { State = Bytes; store_cp = λ cp s. (ok tt, cp); retrieve_cp = λ s. ok s }

abbrev held : LogCheckpoint → Bool → Witness
held cp locked = record { gcp = cp; locked = locked }

abbrev events : List Event
events = tick (log_at 3) ∷ tick (log_at 4) ∷ done ∷ []

-- Two checkpoints are kept, then a request is answered, and the next checkpoint is stuck.
abbrev actions : List Action
actions = receive ∷ keep ∷ receive ∷ keep ∷ request ∷ receive ∷ keep ∷ request ∷ observe ∷ []

stuck :
    run formats one_checkpoint actions
      (start formats one_checkpoint calls events (held (at_size 2) false) (2 ∷ []))
    ≡ (
      record {
        witness = held (at_size 3) true;
        store = 3 ∷ [];
        phase = holding (at_size 4);
        pending = [];
        failure = some cancelled;
      },
      (3 ∷ []) ∷ [],
    )
unfolding run start checkpoints follow poll_log compare_golden get_checkpoint parse_checkpoint
    get_consistency_proof
stuck = refl

-- After the error the channel of checkpoints is closed, and its zero value takes the place of what
-- was held.
forgotten :
    let (t, replies) =
      run formats one_checkpoint
        (receive ∷ keep ∷ receive ∷ keep ∷ request ∷ [])
        (start formats one_checkpoint calls (done ∷ []) (held (at_size 2) false) (2 ∷ [])) in
    replies ≡ [] ∷ []
unfolding run start checkpoints follow
forgotten = refl

abbrev at_two : Witness
at_two = held (at_size 2) false

abbrev growing : List Event
growing = tick (log_at 3) ∷ tick (log_at 4) ∷ []

opened_file : new_witness formats files (some (2 ∷ [])) ≡ ok at_two
unfolding new_witness open_stored parse_checkpoint retrieve_cp
opened_file = refl

follows : checkpoints calls growing (at_size 2) ≡ (at_size 2 ∷ at_size 3 ∷ at_size 4 ∷ [], none)
unfolding checkpoints follow poll_log compare_golden get_checkpoint parse_checkpoint
    get_consistency_proof
follows = refl

longer : NeverShorter (2 ∷ []) (checkpoints calls growing (at_size 2)).0
unfolding checkpoints follow poll_log compare_golden get_checkpoint parse_checkpoint
    get_consistency_proof
longer = ((omega arith), ((omega arith), ((omega arith), tt)))

run-new_witness_example :
    let t =
      (run formats files actions (start formats files calls growing at_two (some (2 ∷ [])))).0 in
    new_witness formats files t.store ≡ ok (held t.witness.gcp false)
run-new_witness_example =
    run-new_witness calls "malformed note" refl growing actions (2 ∷ []) (at_size 2) opened_file
      longer (ap (λ (p : List LogCheckpoint × Option FollowError). p.1) follows)

abbrev waiting : System formats one_checkpoint
waiting = record {
  witness = held (at_size 3) false;
  store = 3 ∷ [];
  phase = holding (at_size 4);
  pending = [];
  failure = some cancelled;
}

run-request_example :
    let (t, replies) = run formats one_checkpoint (request ∷ actions) waiting in
    (replies ≡ (3 ∷ []) ∷ []) × (t.witness.gcp ≡ at_size 3) × (t.store ≡ 3 ∷ [])
run-request_example = run-request formats one_checkpoint actions waiting refl

retrieve_cp-store_cp_example :
    let (r, s) = store_cp one_file (1 ∷ []) (some (2 ∷ 3 ∷ [])) in
    (r ≡ ok tt) × ((retrieve_cp one_file s ≡ ok (1 ∷ [])) ↔ (2 ≤ 1))
retrieve_cp-store_cp_example = retrieve_cp-store_cp (2 ∷ 3 ∷ []) (1 ∷ [])

run-turns_example :
    let cps = at_size 3 ∷ at_size 4 ∷ [] in
    run formats files (turns cps) (ready formats files none (at_size 2) (some (2 ∷ [])) cps)
    ≡ (ready formats files none (at_size 4) (some (4 ∷ [])) [], [])
run-turns_example =
    run-turns formats none (at_size 3 ∷ at_size 4 ∷ []) (at_size 2)
      ((omega arith), ((omega arith), tt))
