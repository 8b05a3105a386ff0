-- ===== src/Distributor/Witnessed.antt =====
-- `GetLogs` and `GetCheckpointN` (distributor/cmd/internal/distributor/distributor.go): the largest
-- checkpoint of a log that enough witnesses have signed.
pub mod Loop
pub mod Laws
use trillian_serverless.Base.{
  ℕ, String, Bool, true, false, not, List, [], ◌∷◌, ◌++◌, Bytes, Option, none, some, Result, err,
  ◌>>=◌, ◌>>◌, or_fail, fail_if, expect, string_eq, if◌then◌else◌, leb, ◌==◌, length,
}
use trillian_serverless.Base.Dict.{lookup, keys}
use trillian_serverless.Formats.{Verifier}
use trillian_serverless.Checkpoints.{Notes, CombineError, combine}
use trillian_serverless.Distributor.{Distributor}

-- A row of `SELECT treeSize, witID, chkpt`.
pub record Row : Type 0 where
  pub size : ℕ
  pub wit_id : String
  pub chkpt : Bytes

-- The rows of a log, by their size from the largest on, as far as they can be read, and the error
-- that ends them, if any.
pub record Rows : Type 0 where
  pub rows : List Row
  pub error : Option String

-- `GetLogs`: `sort_strings` is `sort.Strings`.
unfoldable pub get_logs : (List String → List String) → Distributor → List String
get_logs sort_strings d = sort_strings (keys d.ls)

-- What the loop has found at the size at hand.
pub record AtSize : Type 0 where
  pub current_size : ℕ
  pub wits : List (Option Verifier)
  pub cps : List Bytes

unfoldable pub push_row : Distributor → Row → AtSize → AtSize
push_row d r a = record a {
  wits = a.wits ++ lookup r.wit_id d.ws ∷ [];
  cps = a.cps ++ r.chkpt ∷ [];
}

-- The loop over the rows: what it has found, and whether it stopped before the end.
unfoldable pub collect : Distributor → ℕ → List Row → AtSize → AtSize × Bool
collect d n [] a = (a, false)
collect d n (r ∷ rs) a =
    let same = collect d n rs (push_row d r a) in
    let other =
      collect d n rs (push_row d r (record { current_size = r.size; wits = []; cps = [] })) in
    if r.size == a.current_size then same else if leb n (length a.cps) then (a, true) else other

-- `GetCheckpointN`; `rows` is what the query gives, or the error of the transaction or the query.
unfoldable pub get_checkpoint_n :
    Notes → Distributor → String → ℕ → Result String Rows → Result CombineError Bytes
get_checkpoint_n notes d log_id n rows = do
  l ← expect (lookup log_id d.ls) (CombineError.failed "unknown log ID")
  rs ← or_fail rows CombineError.failed
  let (a, stopped) = collect d n rs.rows (record { current_size = 0; wits = []; cps = [] })
  fail_if (elim rs.error [ none ↦ false | some _ ↦ not stopped ])
      (CombineError.failed "failed to scan rows")
  if leb n (length a.cps)
      then combine notes a.cps l.verifier a.wits
      else err (CombineError.failed "no checkpoint with that many signatures found")
