-- ===== src/Clone/Database.antt =====
-- The database of a cloned log (clone/logdb/database.go). Its SQL statements are those of an `Sql`;
-- a statement in a transaction works on the transaction's view.
pub mod Rows
pub mod Checkpoints
pub mod Cloned
use trillian_serverless.Base.{
  ℕ, zero, suc, ◌+◌, ◌-◌, String, Bool, true, false, List, [], ◌∷◌, ◌++◌, Bytes, Option, none, some,
  Result, ok, err, Eq, ◌=?◌, ℕ_discrete, if◌then◌else◌, ltb, leb, ◌==◌,
}
use trillian_serverless.Base.Dict.{Dict, lookup, insert}
use trillian_serverless.Formats.{Hashes}
use trillian_serverless.Clone.Cloner.{DbError, no_data, other}

-- The statements that the code makes, and the encoding of a compact range by `gob`. A query of one
-- row gives none where the row, or the number in it, is missing; where the code does not look at a
-- statement's error, only the view after it is given.
pub record Sql : Type 1 where
  pub State : Type 0
  pub begin : State → Result String State
  pub commit : State → State → Result String State
  pub max_size : State → Result String (Option ℕ)
  pub latest : State → Result String (Option (ℕ × Bytes × Bytes))
  pub insert_checkpoint : ℕ → Bytes → Bytes → State → State
  pub insert_leaf : ℕ → Bytes → State → State
  pub select_leaves : ℕ → ℕ → State → List Bytes × Option String
  pub max_leaf : State → Result String (Option ℕ)
  pub encode : Hashes → Result String Bytes
  pub decode : Bytes → Result String Hashes

abbrev pub or_zero : Option ℕ → ℕ
or_zero none = 0
or_zero (some n) = n

module _ (q : Sql) where
  unfoldable pub write_checkpoint : ℕ → Bytes → Hashes → q.State → Result String q.State
  write_checkpoint size checkpoint compact_range s = elim (q.begin s) [
    | err _ ↦ err "BeginTx()"
    | ok tx ↦ elim (q.max_size tx) [
      | err _ ↦ err "Scan()"
      | ok max ↦ if leb size (or_zero max) then ok s else elim (q.encode compact_range) [
        | err _ ↦ err "Encode()"
        | ok srs ↦ q.commit (q.insert_checkpoint size checkpoint srs tx) s
      ]
    ]
  ]

  unfoldable pub get_latest_checkpoint : q.State → Result DbError (ℕ × Bytes × Hashes)
  get_latest_checkpoint s = elim (q.latest s) [
    | err _ ↦ err (other "Scan()")
    | ok none ↦ err no_data
    | ok (some (size, checkpoint, srs)) ↦ elim (q.decode srs) [
      | err _ ↦ err (other "Decode()")
      | ok compact_range ↦ ok (size, checkpoint, compact_range)
    ]
  ]

  unfoldable pub insert_leaves : ℕ → List Bytes → q.State → q.State
  insert_leaves lidx [] tx = tx
  insert_leaves lidx (l ∷ ls) tx = insert_leaves (lidx + 1) ls (q.insert_leaf lidx l tx)

  unfoldable pub write_leaves : ℕ → List Bytes → q.State → Result String q.State
  write_leaves start leaves s = elim (q.begin s) [
    | err _ ↦ err "BeginTx"
    | ok tx ↦ q.commit (insert_leaves start leaves tx) s
  ]

  -- The leaves that are sent, and the error that ends them.
  unfoldable pub stream_leaves : ℕ → ℕ → q.State → List Bytes × Option String
  stream_leaves start end = q.select_leaves start end

  unfoldable pub head : q.State → Result DbError ℕ
  head s = elim (q.max_leaf s) [
    | err _ ↦ err (other "failed to get max revision")
    | ok none ↦ err no_data
    | ok (some n) ↦ ok n
  ]

instance abbrev pub nat_eq : Eq ℕ
nat_eq = record { dec = ℕ_discrete }

-- Two tables in memory, by their primary keys.
pub record Tables : Type 0 where
  pub leaves : Dict ℕ Bytes
  pub checkpoints : Dict ℕ (Bytes × Bytes)

unfoldable pub max_key : {V : Type 0} → Dict ℕ V → Option ℕ
max_key [] = none
max_key ((k, _) ∷ d) =
    let rest = max_key d in
    elim rest [ none ↦ some k | some m ↦ if ltb m k then some k else some m ]

-- A row that is there already is not inserted.
abbrev pub insert_new : {V : Type 0} → ℕ → V → Dict ℕ V → Dict ℕ V
insert_new k v d = elim (lookup k d) [ none ↦ insert k v d | some _ ↦ d ]

abbrev pub push : Option Bytes → List Bytes → List Bytes
push none l = l
push (some b) l = b ∷ l

-- The rows of `n` keys from `i` on, in order.
unfoldable pub rows_from : ℕ → ℕ → Dict ℕ Bytes → List Bytes
rows_from zero i d = []
rows_from (suc n) i d = push (lookup i d) (rows_from n (i + 1) d)

abbrev pub row : Dict ℕ (Bytes × Bytes) → Option ℕ → Option (ℕ × Bytes × Bytes)
row d none = none
row d (some k) = elim (lookup k d) [ none ↦ none | some (cp, srs) ↦ some (k, cp, srs) ]

abbrev pub tables : (Hashes → Result String Bytes) → (Bytes → Result String Hashes) → Sql
tables encode decode = record {
  State = Tables;
  begin = λ s. ok s;
  commit = λ tx s. ok tx;
  max_size = λ s. ok (max_key s.checkpoints);
  latest = λ s. ok (row s.checkpoints (max_key s.checkpoints));
  insert_checkpoint =
      λ size cp srs s. record s { checkpoints = insert_new size (cp, srs) s.checkpoints };
  insert_leaf = λ i l s. record s { leaves = insert_new i l s.leaves };
  select_leaves = λ start end s. (rows_from (end - start) start s.leaves, none);
  max_leaf = λ s. ok (max_key s.leaves);
  encode = encode;
  decode = decode;
}
