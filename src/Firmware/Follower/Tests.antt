-- ===== src/Firmware/Follower/Tests.antt =====
-- Runs of the follower over a log whose checkpoints are one byte, the size.
use trillian_serverless.Base.{
  inr, ℕ, ◌≡◌, refl, String, List, [], ◌∷◌, Bytes, Option, none, some, Result, ok, err, ltb,
  if◌then◌else◌, arith,
}
use trillian_serverless.Formats.{Checkpoint}
use trillian_serverless.Firmware.Log.{
  LogCheckpoint, ManifestEntry, Formats, HttpGet, parse_checkpoint, get_checkpoint,
  get_consistency_proof, get_manifest_entry_and_proof,
}
use trillian_serverless.Firmware.Follower.{
  LogEntry, FollowError, inconsistent, Calls, Event, tick, done, poll_log, compare_golden, follow,
  checkpoints, check_entry, entries_below, entries,
}
use trillian_serverless.Firmware.Follower.Laws.{Chain, checkpoints-Chain, checkpoints-Offers}
use trillian_serverless.Firmware.Follower.Entries.{Rising, NotAt, entries-Rising, entries-NotAt}

-- The other data is "7\n".
abbrev parse_byte : Bytes → Result String (Checkpoint × Bytes)
parse_byte [] = err "malformed note"
parse_byte (n ∷ _) = ok (record { origin = "ft"; size = n; hash = [] }, 55 ∷ 10 ∷ [])

abbrev read_byte : Result String Bytes → Result String ManifestEntry
read_byte (err e) = err e
read_byte (ok b) = ok (record { value = b; leaf_index = 0; proof = [] })

abbrev pub formats : Formats
formats = record { parse_log = parse_byte; read_entry = read_byte; read_proof = λ body. ok [] }

abbrev pub at_size : ℕ → LogCheckpoint
at_size n = record {
  checkpoint = record { origin = "ft"; size = n; hash = [] };
  timestamp_nanos = 7;
  envelope = n ∷ [];
}

-- Consistency is refused from 5 on.
abbrev pub calls : Calls
calls = record {
  formats = formats;
  read_statement = λ raw. ok (record { statement_type = 102; statement = raw; signature = [] });
  verify_pss = λ k message signature. ok tt;
  hash_leaf = λ leaf. leaf;
  verify_inclusion = λ i n leaf proof root. ok tt;
  verify_consistency = λ m n proof a b. if ltb m 5 then ok tt else err "root mismatch";
}

-- A log that answers everything with one byte, and one that does not answer.
abbrev pub log_at : ℕ → HttpGet
log_at n path = ok (record { status_code = 200; body = ok (n ∷ []) })

abbrev unavailable : HttpGet
unavailable path = ok (record { status_code = 503; body = ok [] })

abbrev events : List Event
events =
    tick (log_at 3)
    ∷ tick unavailable
    ∷ tick (log_at 2)
    ∷ tick (log_at 5)
    ∷ tick (log_at 6)
    ∷ done
    ∷ []

followed :
    checkpoints calls events (at_size 1)
    ≡ (at_size 1 ∷ at_size 3 ∷ at_size 5 ∷ [], some (inconsistent (at_size 5) (at_size 6)))
unfolding checkpoints follow poll_log compare_golden get_checkpoint parse_checkpoint
    get_consistency_proof
followed = refl

checkpoints-Chain_example :
    (sent : List LogCheckpoint) × (e : Option FollowError) × (checkpoints calls events (at_size 1)
      ≡ (at_size 1 ∷ sent, e))
    × Chain calls events (at_size 1) sent e
checkpoints-Chain_example = checkpoints-Chain calls events (at_size 1)

abbrev arrived : List (HttpGet × LogCheckpoint)
arrived = (log_at 9, at_size 2) ∷ (unavailable, at_size 3) ∷ (log_at 9, at_size 4) ∷ []

abbrev entry : ℕ → ℕ → LogEntry
entry n i = record {
  root = at_size n;
  index = i;
  value = record { statement_type = 102; statement = 9 ∷ []; signature = [] };
}

-- The entry with the index 2 is lost.
entries_sent : entries calls arrived 0 ≡ (entry 2 0 ∷ entry 2 1 ∷ entry 4 3 ∷ [], none)
unfolding entries entries_below check_entry get_manifest_entry_and_proof
entries_sent = refl

entries-Rising_example : (high : ℕ) × Rising calls arrived 0 high (entries calls arrived 0).0
entries-Rising_example = entries-Rising calls arrived 0

entries-NotAt_example :
    NotAt 2 (entries calls ((unavailable, at_size 3) ∷ (log_at 9, at_size 4) ∷ []) 2).0
unfolding get_manifest_entry_and_proof
entries-NotAt_example =
    entries-NotAt calls unavailable (at_size 3) ((log_at 9, at_size 4) ∷ []) 2 2
      "failed to fetch entry and proof" (omega arith) refl

checkpoints-Offers_example :
    let (sent, e) = checkpoints calls (done ∷ []) (at_size 3) in
    checkpoints calls (tick (log_at 3) ∷ done ∷ []) (at_size 1) ≡ (at_size 1 ∷ sent, e)
unfolding get_checkpoint parse_checkpoint get_consistency_proof
checkpoints-Offers_example =
    checkpoints-Offers calls (log_at 3) (done ∷ []) (at_size 1) (at_size 3)
      (refl, omega arith, inr ([], refl, refl))
