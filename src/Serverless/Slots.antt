-- ===== src/Serverless/Slots.antt =====
-- The slots of a distributor on GitHub
-- (serverless/deploy/github/distributor/combine_witness_signatures/internal/distributor/state.go).
-- An empty text stands for a nil checkpoint. The note format and the parser are parameters.
pub mod Order
pub mod Laws
mod Tests
use trillian_serverless.Base.{
  ℕ, zero, suc, ◌+◌, ◌-◌, String, Bool, true, false, List, [], ◌∷◌, ◌++◌, map, Bytes, Option, none,
  some, Result, ok, err, ◌>>=◌, or_fail, Eq, ◌=?◌, bytes_eq, if◌then◌else◌, ltb, leb, ◌==◌, length,
  take, replicate,
}
use trillian_serverless.Base.Dict.{Dict, lookup, insert}
use trillian_serverless.Formats.{Verifier, ParseCheckpoint}
use trillian_serverless.Checkpoints.{Notes, OpenError, CombineError, failed, combine}
use trillian_serverless.Serverless.Client.Tracker.{Found}

-- `UpdateOpts`
pub record UpdateOpts : Type 0 where
  pub log_sig_v : Verifier
  pub log_origin : String
  pub witnesses : List Verifier
  pub max_witness_signatures : ℕ

-- As many slots as are required.
unfoldable pub resize : ℕ → List Bytes → List Bytes
resize required state =
    if ltb required (length state)
    then take required state
    else state ++ replicate (required - length state) []

-- The checkpoints of one body.
abbrev same_body : Bytes → Dict Bytes (List Bytes) → List Bytes
same_body text by_body = elim (lookup text by_body) [ none ↦ [] | some raws ↦ raws ]

unfoldable pub group :
    Notes
    → Verifier
    → List Bytes
    → Dict Bytes (List Bytes)
    → Result CombineError (Dict Bytes (List Bytes))
group notes log_v [] by_body = ok by_body
group notes log_v (raw ∷ raws) by_body =
    let skipped = group notes log_v raws by_body in
    if ltb 0 (length raw)
    then elim (notes.open_note raw (some log_v ∷ [])) [
      | err _ ↦ err (failed "failed to open checkpoint")
      | ok n ↦ group notes log_v raws (insert n.text (same_body n.text by_body ++ raw ∷ []) by_body)
    ]
    else skipped

-- One checkpoint for each body.
unfoldable pub combine_bodies :
    Notes → ParseCheckpoint → UpdateOpts → List (List Bytes) → Result CombineError (List Found)
combine_bodies notes parse opts [] = ok []
combine_bodies notes parse opts (v ∷ vs) = do
  raw ← combine notes v opts.log_sig_v (map some opts.witnesses)
  p ← or_fail (parse raw opts.log_origin opts.log_sig_v opts.witnesses) failed
  rest ← combine_bodies notes parse opts vs
  ok (record { cp = p.0; raw = raw; note = p.1 } ∷ rest)

-- `sort.Slice` by size, the largest first.
unfoldable pub insert_by_size : Found → List Found → List Found
insert_by_size c [] = c ∷ []
insert_by_size c (d ∷ ds) =
    let later = insert_by_size c ds in if leb d.cp.size c.cp.size then c ∷ d ∷ ds else d ∷ later

unfoldable pub sort_by_size : List Found → List Found
sort_by_size [] = []
sort_by_size (c ∷ cs) = insert_by_size c (sort_by_size cs)

-- `c++` up to a checkpoint with more than `i` signatures.
unfoldable pub advance : ℕ → List Found → List Found
advance i [] = []
advance i (c ∷ cs) = let rest = advance i cs in if ltb i (length c.note.sigs) then c ∷ cs else rest

abbrev pub front : List Found → Bytes
front [] = []
front (c ∷ cs) = c.raw

-- The loop over the slots: `n` are left, from `i` on.
unfoldable pub fill : ℕ → ℕ → List Found → List Bytes
fill zero i combined = []
fill (suc n) i combined = front (advance i combined) ∷ fill n (i + 1) (advance i combined)

-- `order` is the order in which Go goes through the map of bodies.
unfoldable pub update_state :
    Notes
    → ParseCheckpoint
    → (Dict Bytes (List Bytes) → List (List Bytes))
    → List Bytes
    → List Bytes
    → UpdateOpts
    → Result CombineError (List Bytes)
update_state notes parse order old incoming opts = do
  let state = resize (opts.max_witness_signatures + 1) old
  by_body ← group notes opts.log_sig_v (state ++ incoming) []
  combined ← combine_bodies notes parse opts (order by_body)
  ok (fill (length state) 0 (sort_by_size combined))
