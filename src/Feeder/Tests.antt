-- ===== src/Feeder/Tests.antt =====
-- The feeder at concrete data: a witness that holds one checkpoint, the bytes of its size.
use trillian_serverless.Base.{◌≡◌, refl, String, [], ◌∷◌, Bytes, none, Result, ok, err, bytes_eq}
use trillian_serverless.Formats.{Hashes, ParseCheckpoint}
use trillian_serverless.Feeder.{
  WitnessApi, FeedOpts, feed_once, submit_to_witness, submit_op, compare_latest, send,
}
use trillian_serverless.Feeder.Laws.{Fed, feed_once-Run}

abbrev parse_toy : ParseCheckpoint
parse_toy [] origin v vs = err "malformed"
parse_toy (size ∷ hash) origin v vs = ok (
  record { origin = origin; size = size; hash = hash },
  record { text = size ∷ hash; sigs = []; unverified = [] },
)

-- It takes any proof that is not empty.
abbrev take_proof : Bytes → Bytes → Hashes → Result String Bytes × Bytes
take_proof held raw [] = (err "no proof", held)
take_proof held raw (p ∷ ps) = (ok raw, raw)

abbrev toy_witness : WitnessApi
toy_witness = record {
  State = Bytes;
  get_latest_checkpoint = λ held id. (held, none);
  update = λ held id raw proof. take_proof held raw proof;
}

abbrev opts : FeedOpts
opts = record {
  log_id = "a";
  fetch_checkpoint = ok (6 ∷ 1 ∷ []);
  fetch_proof = λ from to. ok ((from.size ∷ []) ∷ []);
  log_sig_verifier = record { name = "log"; key_hash = 1; key = [] };
  log_origin = "log";
}

feeds : feed_once parse_toy toy_witness opts 3 (4 ∷ []) ≡ (ok (6 ∷ 1 ∷ []), 6 ∷ 1 ∷ [])
unfolding feed_once submit_to_witness submit_op compare_latest send bytes_eq
feeds = refl

-- A witness that is ahead is left alone.
ahead :
    feed_once parse_toy toy_witness opts 3 (7 ∷ [])
    ≡ (err "witness checkpoint size > submit checkpoint size", 7 ∷ [])
unfolding feed_once submit_to_witness submit_op compare_latest send bytes_eq
ahead = refl

feed_once-Run_example :
    Fed parse_toy toy_witness opts (4 ∷ []) (feed_once parse_toy toy_witness opts 3 (4 ∷ []))
feed_once-Run_example = feed_once-Run parse_toy toy_witness opts 3 (4 ∷ [])
