-- ===== src/Distributor/Tests.antt =====
-- The distributor at concrete data: a table of one row, and notes with as many signatures as their
-- last byte says.
use trillian_serverless.Base.{
  ℕ, String, ◌<◌, List, length, arith, ◌≤◌, ◌≡◌, ◌⊎◌, refl, [], ◌∷◌, Bytes, Option, none, some,
  Result, ok, err, bytes_eq, string_eq, replicate,
}
use trillian_serverless.Base.Dict.{lookup}
use trillian_serverless.Formats.{Checkpoint, Verifier, Signature, ParseCheckpoint}
use trillian_serverless.Distributor.{
  LogInfo, DbError, no_rows, Table, Distributor, Failure, distribute, distribute_checked,
  check_next, get_latest_checkpoint, replace_checkpoint, save_checkpoint,
}
use trillian_serverless.Checkpoints.{Notes, CombineError, combine}
use trillian_serverless.Distributor.Witnessed.{Row, collect, push_row, get_checkpoint_n}
use trillian_serverless.Distributor.Witnessed.Loop.{of_size, wits_of, start}
use trillian_serverless.Distributor.Witnessed.Laws.{get_checkpoint_n-largest}
use trillian_serverless.Distributor.Laws.{Accepted, Held, Replaceable, distribute_lem}

abbrev signature : Signature
signature = record { name = "s"; key_hash = 0; base64 = [] }

abbrev parse_toy : ParseCheckpoint
parse_toy (size ∷ hash ∷ n ∷ []) origin v vs = ok (
  record { origin = origin; size = size; hash = hash ∷ [] },
  record { text = size ∷ []; sigs = replicate n signature; unverified = [] },
)
parse_toy _ origin v vs = err "malformed"

abbrev row : Option Bytes → Result DbError Bytes
row none = err no_rows
row (some b) = ok b

abbrev table : Table
table = record {
  State = Option Bytes;
  select_chkpt = λ s l w. row s;
  save_chkpt = λ s l w size raw. ok (some raw);
}

abbrev verifier : Verifier
verifier = record { name = "v"; key_hash = 1; key = [] }

abbrev distributor : Distributor
distributor = record {
  ws = ("w", verifier) ∷ [];
  ls = ("a", record { origin = "log"; verifier = verifier }) ∷ [];
}

saves :
    distribute parse_toy table distributor "a" "w" (6 ∷ 1 ∷ 2 ∷ []) (some (4 ∷ 9 ∷ 2 ∷ []))
    ≡ (ok tt, some (6 ∷ 1 ∷ 2 ∷ []))
unfolding distribute distribute_checked check_next get_latest_checkpoint replace_checkpoint
    save_checkpoint lookup string_eq bytes_eq
saves = refl

-- A third signature is one too many.
too_many :
    distribute parse_toy table distributor "a" "w" (6 ∷ 1 ∷ 3 ∷ []) none
    ≡ (err (Failure.failed "failed to verify log and witness signatures"), none)
unfolding distribute distribute_checked check_next get_latest_checkpoint replace_checkpoint
    save_checkpoint lookup string_eq bytes_eq
too_many = refl

distribute_lem_example :
    let s : Option Bytes = some (4 ∷ 9 ∷ 2 ∷ []) in
    let raw : Bytes = 6 ∷ 1 ∷ 2 ∷ [] in
    let (r, t) = distribute parse_toy table distributor "a" "w" raw s in
    ((e : Failure) × (r ≡ err e) × (t ≡ s))
    ⊎ ((l : LogInfo) × (wv : Verifier) × (c : Checkpoint) × Accepted parse_toy table distributor "a"
          "w" raw l wv c
        × (r ≡ ok tt)
        × ((Held parse_toy table "a" "w" l wv c s × (t ≡ s))
            ⊎ (Replaceable parse_toy table "a" "w" l wv c s
                × (table.save_chkpt s "a" "w" c.size raw ≡ ok t))))
distribute_lem_example =
    distribute_lem parse_toy table distributor "a" "w" (6 ∷ 1 ∷ 2 ∷ []) (some (4 ∷ 9 ∷ 2 ∷ []))

-- Notes that are their own text, signed by anyone.
abbrev notes : Notes
notes = record {
  open_note = λ b vs. ok (record { text = []; sigs = signature ∷ []; unverified = [] });
  sign_note = λ n. ok (length n.sigs ∷ n.text);
}

abbrev row_of : ℕ → String → Row
row_of size w = record { size = size; wit_id = w; chkpt = size ∷ [] }

abbrev some_rows : List Row
some_rows = row_of 9 "w" ∷ row_of 7 "w" ∷ row_of 7 "x" ∷ row_of 5 "w" ∷ []

-- Two witnesses at size 7, one at size 9.
two_at_seven : (collect distributor 2 some_rows start).0.cps ≡ (7 ∷ []) ∷ (7 ∷ []) ∷ []
unfolding collect push_row lookup string_eq
two_at_seven = refl

known : lookup "a" distributor.ls ≡ some (record { origin = "log"; verifier = verifier })
unfolding lookup string_eq
known = refl

get_checkpoint_n-largest_example :
    let answer =
      get_checkpoint_n notes distributor "a" 2 (ok (record { rows = some_rows; error = none })) in
    ((k : ℕ) × (answer
        ≡ combine notes (of_size k some_rows) verifier (wits_of distributor k some_rows))
      × (2 ≤ length (of_size k some_rows))
      × ((j : ℕ) → k < j → length (of_size j some_rows) < 2))
    ⊎ ((e : CombineError) × (answer ≡ err e) × ((k : ℕ) → length (of_size k some_rows) < 2))
get_checkpoint_n-largest_example =
    get_checkpoint_n-largest notes distributor "a" (record { origin = "log"; verifier = verifier })
      2 some_rows known (omega arith)
      (
        (omega arith, (omega arith, (omega arith, tt))),
        ((omega arith, (omega arith, tt)), ((omega arith, tt), (tt, tt))),
      )
