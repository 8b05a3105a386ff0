-- ===== src/Witness/Persistence/Defs.antt =====
-- `LogStatePersistence`, `LogStateReadOps` and `LogStateWriteOps`
-- (witness/golang/internal/persistence/persistence.go) as one record of operations, and the laws
-- that a witness relies on.
use trillian_serverless.Base.{
  String, ◌≡◌, List, Bytes, Result, ok, err, Option, none, some, ◌=?◌, string_eq, if◌then◌else◌,
}
use trillian_serverless.Witness.Status.{Status, not_found}

pub record Persistence : Type 1 where
  -- What the implementation keeps, and the handle that `ReadOps` and `WriteOps` return.
  pub State : Type 0
  pub Ops : Type 0
  pub logs : State → List String
  pub read_ops : State → String → Result String Ops
  pub write_ops : State → String → Result String Ops
  -- The latest checkpoint and its compact range.
  pub get_latest : Ops → Result Status (Bytes × Bytes)
  -- How the write ended, and the state after it.
  pub set_latest : Ops → Bytes → Bytes → State → Result String (Unit {0}) × State

-- What a read of `found` returns: an error with the code NotFound if nothing is stored.
abbrev pub Reads : Option (Bytes × Bytes) → Result Status (Bytes × Bytes) → Type 0
Reads (some v) r = r ≡ ok v
Reads none r = (e : Status) × (r ≡ err e) × (e.code ≡ not_found)

-- What a write of `v` for `id` does: it succeeds only if what the handle read is still stored,
-- and then changes this log alone; it fails without a change.
abbrev pub Writes :
    String
    → Bytes × Bytes
    → Option (Bytes × Bytes)
    → (String → Option (Bytes × Bytes))
    → (String → Option (Bytes × Bytes))
    → Result String (Unit {0})
    → Type 0
Writes id v read before after (ok _) =
    (before id ≡ read) × ((j : String) → after j ≡ (if j =? id then some v else before j))
Writes id v read before after (err _) = (j : String) → after j ≡ before j

-- `stored` is what an implementation holds for each log. A handle may be opened in one state and
-- used in a later one.
pub record IsLawful (P : Persistence) (stored : P.State → String → Option (Bytes × Bytes))
    : Type 0 where
  pub get_latest-read_ops :
      (s : P.State) (id : String) (o : P.Ops)
      → P.read_ops s id ≡ ok o
      → Reads (stored s id) (P.get_latest o)
  pub get_latest-write_ops :
      (s : P.State) (id : String) (o : P.Ops)
      → P.write_ops s id ≡ ok o
      → Reads (stored s id) (P.get_latest o)
  pub set_latest-write_ops :
      (s t : P.State) (id : String) (o : P.Ops) (c r : Bytes)
      → P.write_ops s id ≡ ok o
      → Writes id
          (c, r)
          (stored s id)
          (stored t)
          (stored (P.set_latest o c r t).1)
          (P.set_latest o c r t).0
