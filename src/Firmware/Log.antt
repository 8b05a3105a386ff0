-- ===== src/Firmware/Log.antt =====
-- The checkpoints of the firmware log and the calls of its HTTP API that a follower makes
-- (binary_transparency/firmware/api/http.go, internal/client/client.go). The transport, the JSON
-- decoders and `log.ParseCheckpoint` are parameters.
pub mod Laws
use trillian_serverless.Base.{
  ℕ, String, Bool, not, List, [], ◌∷◌, ◌++◌, Bytes, Option, Result, ok, err, ◌>>=◌, ◌>>◌, fail_if,
  or_fail, expect, if◌then◌else◌, ◌==◌, length,
}
use trillian_serverless.Formats.{Checkpoint, Hashes}
use trillian_serverless.Std.Lines.{newline, split_lines}
use trillian_serverless.Std.Numbers.{format_uint, parse_uint}
use trillian_serverless.Std.Paths.{ascii}

-- `LogCheckpoint`
pub record LogCheckpoint : Type 0 where
  pub checkpoint : Checkpoint
  pub timestamp_nanos : ℕ
  pub envelope : Bytes

-- `api.InclusionProof`, with the value that the proof is for.
pub record ManifestEntry : Type 0 where
  pub value : Bytes
  pub leaf_index : ℕ
  pub proof : Hashes

-- The response to a GET: its status, and what reading its body gives.
pub record Response : Type 0 where
  pub status_code : ℕ
  pub body : Result String Bytes

-- `http.Get` of a path below the log's URL.
abbrev pub HttpGet : Type 0
HttpGet = Bytes → Result String Response

-- `log.ParseCheckpoint(chkpt, FTLogOrigin, logVerifier)`, with the other data after the checkpoint,
-- and the JSON decoders of a body.
pub record Formats : Type 0 where
  pub parse_log : Bytes → Result String (Checkpoint × Bytes)
  pub read_entry : Result String Bytes → Result String ManifestEntry
  pub read_proof : Result String Bytes → Result String Hashes

-- A byte in front of a text that is trimmed.
abbrev keep_byte : ℕ → Bytes → Bytes
keep_byte c [] = if c == newline then [] else c ∷ []
keep_byte c (d ∷ ds) = c ∷ d ∷ ds

-- `strings.TrimRight(s, "\n")`
unfoldable pub trim_newlines : Bytes → Bytes
trim_newlines [] = []
trim_newlines (c ∷ cs) = keep_byte c (trim_newlines cs)

abbrev pub first_line : List Bytes → Bytes
first_line [] = []
first_line (l ∷ _) = l

-- The time stamp in the other data.
unfoldable pub parse_timestamp : Bytes → Result String ℕ
unfolding trim_newlines split_lines parse_uint
parse_timestamp other_data = do
  let lines = split_lines (trim_newlines other_data)
  fail_if (not (length lines == 1)) "expected 1 line of other data"
  expect (parse_uint 10 64 (first_line lines)) "failed to parse timestamp"

-- `LogCheckpoint.Marshal`, given that of the checkpoint.
abbrev pub timestamp_line : ℕ → Bytes
timestamp_line ts = format_uint 10 ts ++ newline ∷ []

unfoldable pub marshal_checkpoint : (Checkpoint → Bytes) → LogCheckpoint → Bytes
marshal_checkpoint marshal l = marshal l.checkpoint ++ timestamp_line l.timestamp_nanos

-- The body of a response with the status 200.
abbrev pub fetch : HttpGet → Bytes → String → Result String (Result String Bytes)
fetch get path why = do r ← get path; fail_if (not (r.status_code == 200)) why; ok r.body

module _ (f : Formats) where
  unfoldable pub parse_checkpoint : Bytes → Result String LogCheckpoint
  unfolding parse_timestamp
  parse_checkpoint chkpt = do
    parsed ← f.parse_log chkpt
    ts ← parse_timestamp parsed.1
    ok (record { checkpoint = parsed.0; timestamp_nanos = ts; envelope = chkpt })

  unfoldable pub get_checkpoint : HttpGet → Result String LogCheckpoint
  get_checkpoint get = do
    body ← fetch get (ascii "ft/v0/get-root") "failed to fetch checkpoint"
    b ← body
    parse_checkpoint b

  unfoldable pub get_manifest_entry_and_proof : HttpGet → ℕ → ℕ → Result String ManifestEntry
  get_manifest_entry_and_proof get index tree_size = do
    let path =
        ascii "ft/v0/get-firmware-manifest-entry-and-proof/at/"
        ++ format_uint 10 index
        ++ ascii "/in-tree-of/"
        ++ format_uint 10 tree_size
    body ← fetch get path "failed to fetch entry and proof"
    f.read_entry body

  unfoldable pub get_consistency_proof : HttpGet → ℕ → ℕ → Result String Hashes
  get_consistency_proof get from to = do
    let path =
        ascii "ft/v0/get-consistency/from/"
        ++ format_uint 10 from
        ++ ascii "/to/"
        ++ format_uint 10 to
    body ← fetch get path "failed to fetch consistency proof"
    f.read_proof body
