-- ===== src/Witness/Tests.antt =====
-- The witness at concrete data: a toy library in which a checkpoint is its size and its hash, and
-- a consistency proof is good if it is not empty.
use trillian_serverless.Base.{
  String, string_eq, bytes_eq, false, ◌≡◌, ◌≢◌, ◌⊎◌, refl, [], ◌∷◌, Bytes, none, some, ok, err,
  arith,
}
use trillian_serverless.Base.Dict.{lookup, insert}
use trillian_serverless.Formats.{Checkpoint, Hashes, ParseCheckpoint, VerifyConsistency, Compact}
use trillian_serverless.Std.Base64.{encode, symbol}
use trillian_serverless.Witness.Proof.{marshal, unmarshal, unmarshal-marshal}
use trillian_serverless.Witness.Status.{Code, errorf}
use trillian_serverless.Witness.Persistence.InMemory.{
  set_latest-unchanged, Checkpoints, in_memory, stored, in_memory-IsLawful, get_latest, read_ops,
  write_ops, set_latest,
}
use trillian_serverless.Witness.Update.{
  Libraries, LogInfo, Witness, Reply, update, get_checkpoint, accept, prepare, finish_prepared,
  finish, trust_first, advance, store_signed, sign_chkpt, parse, stored_range, check_growth,
  init_range, set_init_chkpt_data, Prepared,
}
use trillian_serverless.Witness.Http.{Json, client_update, read_checkpoint, serve_checkpoint}
use trillian_serverless.Witness.Http.Laws.{
  deliver, Learns, client_update-Learns, Sees, serve_checkpoint-Sees,
}
use trillian_serverless.Witness.Update.Growth.{Same, Outcome}
use trillian_serverless.Witness.Update.Outcomes.{update-Outcome}
use trillian_serverless.Witness.Update.History.{
  KeepsCheckpoint, start, and_then, commit, Tracks, here, Reach-Tracks,
}

abbrev parse_toy : ParseCheckpoint
parse_toy [] origin v vs = err "malformed"
parse_toy (size ∷ hash) origin v vs = ok (
  record { origin = origin; size = size; hash = hash },
  record { text = size ∷ hash; sigs = []; unverified = [] },
)

abbrev toy : Libraries
toy = record { Range = Hashes; parse_checkpoint = parse_toy; sign = λ n s. ok n.text }

toy-KeepsCheckpoint : KeepsCheckpoint toy
toy-KeepsCheckpoint [] signed origin v signer c n h k = cc
toy-KeepsCheckpoint (size ∷ hash) signed origin v signer c n h k =
    let e : signed ≡ size ∷ hash = cc (h, k) in (n, rw e h)

abbrev consistent : VerifyConsistency
consistent _ _ [] _ _ = err "no proof"
consistent _ _ (_ ∷ _) _ _ = ok tt

abbrev ranges : Compact Hashes
ranges = record {
  new_range = λ b e hs. ok hs;
  get_root_hash = λ r. ok [];
  append_range = λ r d. (d, ok tt);
  hashes = λ r. r;
}

abbrev info : LogInfo Hashes
info = record {
  sig_v = record { name = "log"; key_hash = 1; key = [] };
  origin = "log";
  verify_consistency = consistent;
  compact = ranges;
  use_compact = false;
}

abbrev witness : Witness toy
witness = record {
  signer = record { name = "w"; key_hash = 2; secret = [] };
  logs = ("a", info) ∷ ("b", info) ∷ [];
}

abbrev held : Checkpoints
held = ("a", record { raw_chkpt = 4 ∷ 9 ∷ []; compact_range = [] }) ∷ []

run : String → Bytes → Hashes → Checkpoints → Reply × Checkpoints
unfolding update prepare finish_prepared finish trust_first advance store_signed sign_chkpt parse
    stored_range check_growth init_range set_init_chkpt_data lookup insert string_eq bytes_eq
    read_ops write_ops get_latest set_latest
run = update toy in_memory witness

grows :
    run "a" (6 ∷ 1 ∷ []) ((7 ∷ []) ∷ []) held
    ≡ (accept (6 ∷ 1 ∷ []), ("a", record { raw_chkpt = 6 ∷ 1 ∷ []; compact_range = [] }) ∷ [])
unfolding run
grows = refl

-- A different hash at the same size is refused, with the checkpoint that is held.
forks : run "a" (4 ∷ 1 ∷ []) [] held ≡ (
  record {
    body = some (4 ∷ 9 ∷ []);
    error =
        some (errorf Code.failed_precondition "checkpoint for same size log with differing hash");
  },
  held,
)
unfolding run
forks = refl

proof_text : marshal ((1 ∷ 2 ∷ 3 ∷ 4 ∷ []) ∷ []) ≡ 65 ∷ 81 ∷ 73 ∷ 68 ∷ 66 ∷ 65 ∷ 61 ∷ 61 ∷ 10 ∷ []
unfolding marshal encode symbol
proof_text = refl

unmarshal-marshal_example :
    (unmarshal (marshal ((1 ∷ 255 ∷ []) ∷ [] ∷ [])) ≡ ok ((1 ∷ 255 ∷ []) ∷ [] ∷ []))
    × (unmarshal (marshal []) ≡ err "data should have trailing newline on last hash too")
unmarshal-marshal_example = unmarshal-marshal (1 ∷ 255 ∷ []) ([] ∷ []) (omega arith)

update-Outcome_example :
    let (reply, t) = update toy in_memory witness "a" (6 ∷ 1 ∷ []) ((7 ∷ []) ∷ []) held in
    (Same toy in_memory stored held t × (reply.error ≢ none))
    ⊎ ((p : Prepared toy in_memory) × (prepare toy in_memory witness "a" (6 ∷ 1 ∷ []) held ≡ ok p)
        × Outcome toy in_memory stored witness "a" p.info p.next p.next_note
            ((7 ∷ []) ∷ [])
            (stored held "a")
            held
            t
            reply)
update-Outcome_example =
    update-Outcome toy in_memory stored witness "a" (6 ∷ 1 ∷ []) ((7 ∷ []) ∷ []) held
      in_memory-IsLawful

abbrev prepared : Prepared toy in_memory
prepared = record {
  info = info;
  next = record { origin = "log"; size = 6; hash = 1 ∷ [] };
  next_note = record { text = 6 ∷ 1 ∷ []; sigs = []; unverified = [] };
  write = record {
    write = some "a";
    read = some (record { raw_chkpt = 4 ∷ 9 ∷ []; compact_range = [] });
  };
}

prepares : prepare toy in_memory witness "a" (6 ∷ 1 ∷ []) held ≡ ok prepared
unfolding prepare parse lookup string_eq write_ops
prepares = refl

abbrev four : Checkpoint
four = record { origin = "log"; size = 4; hash = 9 ∷ [] }

known : lookup "a" witness.logs ≡ some info
unfolding lookup string_eq
known = refl

held-Tracks : Tracks toy in_memory stored witness "a" info four held
unfolding lookup string_eq parse
held-Tracks = record {
  raw = 4 ∷ 9 ∷ [];
  range = [];
  checkpoint = four;
  note = record { text = 4 ∷ 9 ∷ []; sigs = []; unverified = [] };
  held = refl;
  parsed = refl;
  descends = here;
}

-- Two updates that read the same state: the second finds that the log has moved on.
abbrev after : Checkpoints
after = (finish_prepared toy in_memory witness "a" ((7 ∷ []) ∷ []) prepared held).1

abbrev later : Checkpoints
later = (finish_prepared toy in_memory witness "a" ((8 ∷ []) ∷ []) prepared after).1

Reach-Tracks_example : Tracks toy in_memory stored witness "a" info four later
Reach-Tracks_example =
    Reach-Tracks toy in_memory stored witness "a" info four toy-KeepsCheckpoint known {s = held}
      {t = later} in_memory-IsLawful
      (and_then later
        (and_then after start (commit "a" (6 ∷ 1 ∷ []) ((7 ∷ []) ∷ []) held prepared prepares refl))
        (commit "a" (6 ∷ 1 ∷ []) ((8 ∷ []) ∷ []) held prepared prepares refl))
      held-Tracks

-- JSON that puts the checkpoint alone into the body.
abbrev json : Json
json = record {
  marshal_request = λ r. ok r.checkpoint;
  unmarshal_request = λ b. ok (record { checkpoint = b; proof = (7 ∷ []) ∷ [] });
  marshal_logs = λ ls. ok [];
}

client_update-Learns_example :
    let (reply, t) = update toy in_memory witness "a" (6 ∷ 1 ∷ []) ((7 ∷ []) ∷ []) held in
    let (r, u) =
      client_update json
        (deliver toy in_memory json witness)
        "a"
        (6 ∷ 1 ∷ [])
        ((7 ∷ []) ∷ [])
        held in
    (u ≡ t) × Learns reply r
client_update-Learns_example =
    client_update-Learns toy in_memory json witness "a" (6 ∷ 1 ∷ []) (6 ∷ 1 ∷ []) ((7 ∷ []) ∷ [])
      held refl refl

serve_checkpoint-Sees_example :
    Sees
      (get_checkpoint toy in_memory "a" held)
      (read_checkpoint (ok (serve_checkpoint toy in_memory json witness "a" held)))
serve_checkpoint-Sees_example = serve_checkpoint-Sees toy in_memory json witness "a" held

-- The next write through a handle whose entry has not changed goes through.
set_latest-unchanged_example :
    let (r, t) =
      set_latest (record { write = some "a"; read = lookup "a" held }) (5 ∷ []) [] held in
    (r ≡ ok tt) × (stored t "a" ≡ some (5 ∷ [], []))
set_latest-unchanged_example = set_latest-unchanged "a" (5 ∷ []) [] held held refl
