-- ===== src/Serverless/Consensus.antt =====
-- The consensus over distributors (serverless/client/witness/consensus.go). The distributors answer
-- in any order: the list of their fetchers stands in the order in which they do.
pub mod Laws
use trillian_serverless.Base.{
  ℕ, ◌-◌, ◌+◌, ◌≤◌, ◌≡◌, refl, ◌⊎◌, inl, inr, String, Bool, List, [], ◌∷◌, ◌++◌, Bytes, Option,
  none, some, Result, ok, err, ◌>>=◌, ◌>>◌, or_fail, if◌then◌else◌, ltb, leb, ◌==◌, length, arith,
  Bool-cases,
}
use trillian_serverless.Formats.{Checkpoint, Note, Verifier, ParseCheckpoint}
use trillian_serverless.Std.Numbers.{format_uint}
use trillian_serverless.Std.Paths.{ascii, join_path}
use trillian_serverless.Serverless.Client.{ClientError, failed, Fetcher}
use trillian_serverless.Serverless.Client.Tracker.{Found, ConsensusFunc}

-- `getCheckpointN`
unfoldable pub get_checkpoint_n :
    ParseCheckpoint → Fetcher → Bytes → ℕ → List Verifier → ConsensusFunc
get_checkpoint_n parse_checkpoint f log_id n wit_sig_vs log_sig_v origin = do
  raw ← f (join_path (ascii "logs" ∷ log_id ∷ (ascii "checkpoint." ++ format_uint 10 n) ∷ []))
  parsed ← or_fail (parse_checkpoint raw origin log_sig_v wit_sig_vs) failed
  ok (record { cp = parsed.0; raw = raw; note = parsed.1 })

-- What the distributors sent before the channel was closed: those that failed sent nothing.
unfoldable pub sent : List (Result ClientError Found) → List Found
sent [] = []
sent (err _ ∷ rs) = sent rs
sent (ok c ∷ rs) = c ∷ sent rs

-- `numWitSigs < N`; a note that was opened has at least one signature.
abbrev pub too_few : ℕ → Found → Bool
too_few n c = ltb (length c.note.sigs) (n + 1)

abbrev pub better : Option Found → Found → Option Found
better none c = some c
better (some b) c = if ltb b.cp.size c.cp.size then some c else some b

-- The loop over the channel.
unfoldable pub best_of : ℕ → List Found → Option Found → Option Found
best_of n [] best = best
best_of n (c ∷ cs) best = best_of n cs (if too_few n c then best else better best c)

abbrev pub picked : Option Found → Result ClientError Found
picked none = err (failed "unable to identify suitable checkpoint")
picked (some c) = ok c

-- What the distributors answer, each once.
unfoldable pub answers :
    ParseCheckpoint
    → Bytes
    → List Verifier
    → ℕ
    → List Fetcher
    → Verifier
    → String
    → List (Result ClientError Found)
answers parse_checkpoint log_id witnesses n [] v o = []
answers parse_checkpoint log_id witnesses n (f ∷ fs) v o =
    get_checkpoint_n parse_checkpoint f log_id n witnesses v o
    ∷ answers parse_checkpoint log_id witnesses n fs v o

unfoldable pub checkpoint_n_consensus :
    ParseCheckpoint → Bytes → List Verifier → ℕ → Result String (List Fetcher → ConsensusFunc)
checkpoint_n_consensus parse_checkpoint log_id witnesses n =
    if ltb (length witnesses) n
    then err "consensus would always fail"
    else ok (λ fs log_sig_v origin.
      picked
        (best_of n (sent (answers parse_checkpoint log_id witnesses n fs log_sig_v origin)) none))
