-- ===== src/Witness/Persistence/InMemory.antt =====
-- The in-memory implementation (witness/golang/internal/persistence/inmemory/inmemory.go). The
-- lock makes each operation one step.
use trillian_serverless.Base.{
  String, ◌≡◌, refl, ap, Bool, true, false, List, [], Bytes, bytes_eq, Result, ok, err, Option,
  none, some, ◌=?◌, string_eq, Option-cases, Bool-cases, inl, inr, sym, ◌∙◌, subst, ok-injective,
  if◌then◌else◌, arith,
}
use trillian_serverless.Base.Dict.{Dict, lookup, insert, keys, lookup-insert}
use trillian_serverless.Witness.Status.{Status, not_found, errorf}
use trillian_serverless.Witness.Persistence.Defs.{Persistence, IsLawful, Reads, Writes}

pub record CheckpointState : Type 0 where
  pub raw_chkpt : Bytes
  pub compact_range : Bytes

-- The map of `inMemoryPersistence`.
abbrev pub Checkpoints : Type 0
Checkpoints = Dict String CheckpointState

abbrev pub new_persistence : Checkpoints
new_persistence = []

-- `init` makes no table: there is none.
abbrev pub init : Checkpoints → Result String (Unit {0}) × Checkpoints
init p = (ok tt, p)

-- A handle: the log and the state that was read when it was opened. Only a handle of `WriteOps`
-- can write.
pub record ReadWriter : Type 0 where
  pub write : Option String
  pub read : Option CheckpointState

unfoldable pub logs : Checkpoints → List String
unfolding keys
logs p = keys p

unfoldable pub read_ops : Checkpoints → String → Result String ReadWriter
read_ops p id = ok (record { write = none; read = lookup id p })

unfoldable pub write_ops : Checkpoints → String → Result String ReadWriter
write_ops p id = ok (record { write = some id; read = lookup id p })

-- `reflect.DeepEqual`. A nil slice is an empty one here: the ranges that are stored for one log are
-- all nil, or all not.
abbrev deep_equal : CheckpointState → CheckpointState → Bool
deep_equal a b = if a.raw_chkpt =? b.raw_chkpt then a.compact_range =? b.compact_range else false

-- The write goes through only if what is found is what was expected.
unfoldable pub expect_and_write :
    String
    → Option CheckpointState
    → CheckpointState
    → Checkpoints
    → Result String (Unit {0}) × Checkpoints
expect_and_write id old new p = elim (lookup id p) [
  | none ↦ elim old [
    | some _ ↦ (err "expected old state but no state found", p)
    | none ↦ (ok tt, insert id new p)
  ]
  | some got ↦ elim old [
    | some o ↦
        if deep_equal o got
        then (ok tt, insert id new p)
        else (err "expected old state but got another", p)
    | none ↦ (err "expected no state but found one", p)
  ]
]

unfoldable pub get_latest : ReadWriter → Result Status (Bytes × Bytes)
get_latest rw' = elim rw'.read [
  | none ↦ err (errorf not_found "no checkpoint found")
  | some c ↦ ok (c.raw_chkpt, c.compact_range)
]

-- On a handle of `ReadOps` the write function is nil; the interface does not offer the call.
unfoldable pub set_latest :
    ReadWriter → Bytes → Bytes → Checkpoints → Result String (Unit {0}) × Checkpoints
unfolding expect_and_write
set_latest rw' c rng p = elim rw'.write [
  | none ↦ (err "no write function", p)
  | some id ↦ expect_and_write id rw'.read (record { raw_chkpt = c; compact_range = rng }) p
]

abbrev pub in_memory : Persistence
in_memory = record {
  State = Checkpoints;
  Ops = ReadWriter;
  logs = logs;
  read_ops = read_ops;
  write_ops = write_ops;
  get_latest = get_latest;
  set_latest = set_latest;
}

abbrev as_pair : Option CheckpointState → Option (Bytes × Bytes)
as_pair none = none
as_pair (some c) = some (c.raw_chkpt, c.compact_range)

abbrev pub stored : Checkpoints → String → Option (Bytes × Bytes)
stored p id = as_pair (lookup id p)

read-Reads :
    (w : Option String) (found : Option CheckpointState)
    → Reads (as_pair found) (get_latest (record { write = w; read = found }))
unfolding get_latest
read-Reads w none = (errorf not_found "no checkpoint found", refl, refl)
read-Reads w (some c) = refl

deep_equal→eq : (a b : CheckpointState) → deep_equal a b ≡ true → a ≡ b
deep_equal→eq a b h = ground arith

-- The write of an entry that was expected.
insert-Writes :
    (id : String) (old : Option CheckpointState) (new : CheckpointState) (p : Checkpoints)
    → lookup id p ≡ old
    → Writes id
        (new.raw_chkpt, new.compact_range)
        (as_pair old)
        (stored p)
        (stored (insert id new p))
        (ok tt)
insert-Writes id old new p h = (ap as_pair h, λ j. rw (lookup-insert j id new p) (ground arith))

expect_and_write-Writes :
    (id : String) (old : Option CheckpointState) (new : CheckpointState) (p : Checkpoints)
    → Writes id
        (new.raw_chkpt, new.compact_range)
        (as_pair old)
        (stored p)
        (stored (expect_and_write id old new p).1)
        (expect_and_write id old new p).0
unfolding expect_and_write
expect_and_write-Writes id none new p = elim (Option-cases (lookup id p)) [
  | inl e ↦ rw (e, expect_and_write) (insert-Writes id none new p e)
  | inr (got, e) ↦ rw (e, expect_and_write) (λ j. refl)
]
expect_and_write-Writes id (some o) new p = elim (Option-cases (lookup id p)) [
  | inl e ↦ rw (e, expect_and_write) (λ j. refl)
  | inr (got, e) ↦ elim (Bool-cases (deep_equal o got)) [
    | inl same ↦
        rw (e, expect_and_write)
          (rw same (insert-Writes id (some o) new p (e ∙ ap some (sym (deep_equal→eq o got same)))))
    | inr differ ↦ rw (e, expect_and_write) (rw differ (λ j. refl))
  ]
]

-- The in-memory store keeps the promises of the interface: a handle reads what is stored when it
-- is opened, and a write through it succeeds only if that is still what is stored, changes only
-- its own log, and fails without a change.
pub in_memory-IsLawful : IsLawful in_memory stored
unfolding read_ops write_ops set_latest
in_memory-IsLawful = record {
  get_latest-read_ops = λ s id o h.
      subst (λ o. Reads (stored s id) (get_latest o)) (ok-injective _ o h)
        (read-Reads none (lookup id s));
  get_latest-write_ops = λ s id o h.
      subst (λ o. Reads (stored s id) (get_latest o)) (ok-injective _ o h)
        (read-Reads (some id) (lookup id s));
  set_latest-write_ops = λ s t id o c r h.
      subst
        (λ o.
          Writes id (c, r) (stored s id) (stored t) (stored (set_latest o c r t).1)
            (set_latest o c r t).0)
        (ok-injective _ o h)
        (expect_and_write-Writes id (lookup id s) (record { raw_chkpt = c; compact_range = r }) t);
}

deep_equal_refl : (a : CheckpointState) → deep_equal a a ≡ true
deep_equal_refl a = ground arith

expect_and_write-expected :
    (id : String) (old : Option CheckpointState) (new : CheckpointState) (p : Checkpoints)
    → lookup id p ≡ old
    → expect_and_write id old new p ≡ (ok tt, insert id new p)
unfolding expect_and_write
expect_and_write-expected id none new p h = rw (h, expect_and_write)
expect_and_write-expected id (some o) new p h = rw (h, expect_and_write) (rw (deep_equal_refl o))

stored-insert :
    (id : String) (new : CheckpointState) (p : Checkpoints)
    → stored (insert id new p) id ≡ some (new.raw_chkpt, new.compact_range)
stored-insert id new p = rw (lookup-insert id id new p) (ground arith)

-- A write through a handle that was opened in `s` goes through in every later `t` in which the log
-- has the entry that it had, and the log then holds what was written.
pub set_latest-unchanged :
    (id : String) (c rng : Bytes) (s t : Checkpoints)
    → lookup id t ≡ lookup id s
    → let (r, u) = set_latest (record { write = some id; read = lookup id s }) c rng t in
      (r ≡ ok tt) × (stored u id ≡ some (c, rng))
unfolding set_latest
set_latest-unchanged id c rng s t h =
    let new : CheckpointState = record { raw_chkpt = c; compact_range = rng } in
    rw (expect_and_write-expected id (lookup id s) new t h) (refl, stored-insert id new t)
