-- ===== src/Serverless/Slots/Tests.antt =====
-- The slots of a distributor, with a note format in which a text is a size and the keys that
-- signed.
use trillian_serverless.Base.{
  ℕ, ℕ_discrete, bytes_eq, bytes_dec, ◌+◌, ◌≤◌, ◌≡◌, refl, ◌⊎◌, Bool, true, false, List, [], ◌∷◌,
  map, Bytes, Option, none, some, ok, err, ◌==◌, if◌then◌else◌, length, get_elem?,
}
use trillian_serverless.Base.Dict.{Dict, lookup, insert}
use trillian_serverless.Formats.{Note, Signature, Verifier, ParseCheckpoint}
use trillian_serverless.Checkpoints.{
  Notes, CombineError, hash_eq, combine, combine_loop, first_note, open_witnessed, gather,
  sort_signatures, comes_first,
}
use trillian_serverless.Serverless.Client.Tracker.{Found}
use trillian_serverless.Serverless.Slots.{
  UpdateOpts, resize, group, combine_bodies, sort_by_size, insert_by_size, advance, fill,
  update_state,
}
use trillian_serverless.Serverless.Slots.Laws.{Slot, combined_all, update_state-Slot}

abbrev signature : ℕ → Signature
signature key = record { name = "key"; key_hash = key; base64 = [] }

abbrev verifier : ℕ → Verifier
verifier key = record { name = "key"; key_hash = key; key = [] }

abbrev known : List (Option Verifier) → ℕ → Bool
known [] key = false
known (none ∷ vs) key = known vs key
known (some v ∷ vs) key = if v.key_hash == key then true else known vs key

abbrev signed_by : List (Option Verifier) → List ℕ → List Signature
signed_by vs [] = []
signed_by vs (k ∷ ks) = if known vs k then signature k ∷ signed_by vs ks else signed_by vs ks

abbrev opened : Bytes → List (Option Verifier) → Note
opened [] vs = record { text = []; sigs = []; unverified = [] }
opened (size ∷ keys) vs = record { text = size ∷ []; sigs = signed_by vs keys; unverified = [] }

abbrev size_of : Bytes → ℕ
size_of [] = 0
size_of (n ∷ _) = n

abbrev notes : Notes
notes = record {
  open_note = λ raw vs. ok (opened raw vs);
  sign_note = λ n. ok (size_of n.text ∷ map (λ s. s.key_hash) n.sigs);
}

abbrev parse : ParseCheckpoint
parse raw origin v vs =
    ok
      (record { origin = origin; size = size_of raw; hash = [] }, opened raw (some v ∷ map some vs))

abbrev opts : UpdateOpts
opts = record {
  log_sig_v = verifier 9;
  log_origin = "log";
  witnesses = verifier 1 ∷ verifier 2 ∷ [];
  max_witness_signatures = 2;
}

abbrev bodies : Dict Bytes (List Bytes) → List (List Bytes)
bodies [] = []
bodies ((_, raws) ∷ d) = raws ∷ bodies d

-- Size 5 with a signature of each witness, and size 7 with the log's alone.
abbrev three : List Bytes
three = (5 ∷ 9 ∷ 1 ∷ []) ∷ (7 ∷ 9 ∷ []) ∷ (5 ∷ 9 ∷ 2 ∷ []) ∷ []

update_state-Slot_example :
    ((e : CombineError) × (combined_all notes parse bodies [] three opts ≡ err e)
      × (update_state notes parse bodies [] three opts ≡ err e))
    ⊎ ((combined : List Found) × (slots : List Bytes) × (combined_all notes parse bodies [] three
            opts
          ≡ ok combined)
        × (update_state notes parse bodies [] three opts ≡ ok slots)
        × (length slots ≡ 2 + 1)
        × ((k : ℕ) → k ≤ 2 → (raw : Bytes) × (get_elem? slots k ≡ some raw) × Slot k raw combined))
update_state-Slot_example = update_state-Slot notes parse bodies [] three opts

updates :
    update_state notes parse bodies [] three opts
    ≡ ok ((7 ∷ 9 ∷ []) ∷ (5 ∷ 9 ∷ 1 ∷ 2 ∷ []) ∷ (5 ∷ 9 ∷ 1 ∷ 2 ∷ []) ∷ [])
unfolding update_state group resize combine_bodies insert lookup bytes_eq bytes_dec ℕ_discrete
    hash_eq combine combine_loop first_note open_witnessed gather sort_signatures comes_first fill
    advance sort_by_size insert_by_size
updates = refl
