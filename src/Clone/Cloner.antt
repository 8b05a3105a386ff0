-- ===== src/Clone/Cloner.antt =====
-- The cloner (clone/internal/cloner/clone.go): downloaded leaves are written in batches. Progress
-- reports are left out; the database is an interface.
use trillian_serverless.Base.{
  ℕ, ◌+◌, ◌-◌, ◌%◌, ◌≤◌, ◌<◌, ◌≡◌, refl, sym, ap, String, true, false, List, [], ◌∷◌, ◌++◌,
  append_assoc, append-nil, Bytes, Option, none, some, Result, ok, err, if◌then◌else◌, ltb, leb,
  ◌==◌, arith, length, length-append, Bool-cases, inl, inr, ◌⊎◌, subst,
}
use native.Mathlib.Decide.{dec_lt}
use native.Mathlib.Nat.{mod_self}
use trillian_serverless.Clone.Bulk.{BatchFetch, bulk, bulk_lem, leaves_from}

-- `ErrNoDataFound`, and any other error.
pub data DbError : Type 0 where
  no_data : DbError
  other : String → DbError

-- The methods of `logdb.Database` that the cloner calls.
pub record Db : Type 1 where
  pub State : Type 0
  pub head : State → Result DbError ℕ
  pub latest_size : State → Result DbError ℕ
  pub write_leaves : ℕ → List Bytes → State → Result String State

-- Where a database holds a list of leaves, what its methods promise: the head is the last index,
-- and a chunk that begins behind the last leaf is put there.
pub record Appends (db : Db) (Has : db.State → List Bytes → Type 0) : Type 0 where
  pub head_none : (s : db.State) → Has s [] → db.head s ≡ err no_data
  pub head_some :
      (s : db.State) (l : Bytes) (ls : List Bytes) → Has s (l ∷ ls) → db.head s ≡ ok (length ls)
  pub written :
      (s : db.State) (held ls : List Bytes)
      → Has s held
      → (t : db.State) × (db.write_leaves (length held) ls s ≡ ok t) × Has t (held ++ ls)

module _ (db : Db) where
  unfoldable pub next_leaf : db.State → Result String ℕ
  next_leaf s = elim (db.head s) [
    | err no_data ↦ ok 0
    | err (other _) ↦ err "failed to query for head of local log"
    | ok h ↦ ok (h + 1)
  ]

  -- The last, maybe partial, batch.
  unfoldable pub write_rest : List Bytes → ℕ → db.State → db.State × Option String
  write_rest batch bs s =
      if ltb 0 (length batch)
      then elim (db.write_leaves bs batch s) [
        | err _ ↦ (s, some "failed to write to DB for final batch")
        | ok t ↦ (t, none)
      ]
      else (s, none)

  -- The loop over the downloaded leaves, which may end with an error. The batch holds the leaves
  -- from `bs` on that are not written yet.
  unfoldable pub clone_loop :
      ℕ → List Bytes → Option String → List Bytes → ℕ → ℕ → db.State → db.State × Option String
  clone_loop write_batch_size [] (some e) batch bs next s = (s, some "failed to get leaf")
  clone_loop write_batch_size [] none batch bs next s = write_rest batch bs s
  clone_loop write_batch_size (l ∷ ls) e batch bs next s =
      let more = clone_loop write_batch_size ls e (batch ++ l ∷ []) bs (next + 1) s in
      if (length batch + 1) % write_batch_size == 0
      then elim (db.write_leaves bs (batch ++ l ∷ []) s) [
        | err _ ↦ (s, some "failed to write to DB for batch")
        | ok t ↦ clone_loop write_batch_size ls e [] (next + 1) (next + 1) t
      ]
      else more

  -- The check that no more is verified than is stored.
  unfoldable pub check_verified : ℕ → db.State → Option String
  check_verified next s = elim (db.latest_size s) [
    | err no_data ↦ none
    | err (other _) ↦ some "failed to query for any checkpoints"
    | ok v ↦ if ltb next v then some "illegal state" else none
  ]

  -- `Cloner.Clone`; a write batch size of 0, or no workers, is a panic in Go.
  unfoldable pub clone : ℕ → ℕ → ℕ → ℕ → BatchFetch → db.State → db.State × Option String
  clone workers fetch_batch_size write_batch_size tree_size fetcher s = elim (next_leaf s) [
    | err _ ↦ (s, some "couldn't determine first leaf")
    | ok next ↦ if leb tree_size next then (s, none) else elim (check_verified next s) [
      | some e ↦ (s, some e)
      | none ↦
          let (leaves, e) = bulk next tree_size fetcher workers fetch_batch_size in
          clone_loop write_batch_size leaves e [] next next s
    ]
  ]

  module _ (Has : db.State → List Bytes → Type 0) (lawful : Appends db Has) (w : ℕ)
      (pos : 0 < w) where
    -- There is no error, and the database holds what it held, and these leaves behind it.
    Holds : List Bytes → List Bytes → db.State × Option String → Type 0
    Holds held ls r = (r.1 ≡ none) × Has r.0 (held ++ ls)

    Holds-after :
        (held chunk ls : List Bytes) (r : db.State × Option String)
        → Holds (held ++ chunk) ls r
        → Holds held (chunk ++ ls) r
    unfolding Holds
    Holds-after held chunk ls r h = (h.0, subst (Has r.0) (append_assoc held chunk ls) h.1)

    write_rest-Holds :
        (held batch : List Bytes) (s : db.State)
        → Has s held
        → Holds held batch (write_rest batch (length held) s)
    unfolding Holds
    write_rest-Holds held [] s has =
        unfold write_rest in (refl, subst (Has s) (sym (append-nil held)) has)
    write_rest-Holds held (l ∷ ls) s has =
        let (t, p, q) = lawful.written s held (l ∷ ls) has in
        let some_left : ltb 0 (length (l ∷ ls)) ≡ true = ground arith in
        unfold write_rest in rw p (rw some_left (refl, q))

    -- One leaf: it fills the batch, which is written, or it does not.
    clone_loop_full :
        (l : Bytes) (ls batch : List Bytes) (e : Option String) (bs next : ℕ) (s t : db.State)
        → ((length batch + 1) % w == 0) ≡ true
        → db.write_leaves bs (batch ++ l ∷ []) s ≡ ok t
        → clone_loop w (l ∷ ls) e batch bs next s ≡ clone_loop w ls e [] (next + 1) (next + 1) t
    unfolding clone_loop
    clone_loop_full l ls batch e bs next s t full p = rw (full, clone_loop) (rw p)

    clone_loop_part :
        (l : Bytes) (ls batch : List Bytes) (e : Option String) (bs next : ℕ) (s : db.State)
        → ((length batch + 1) % w == 0) ≡ false
        → clone_loop w (l ∷ ls) e batch bs next s
          ≡ clone_loop w ls e (batch ++ l ∷ []) bs (next + 1) s
    unfolding clone_loop
    clone_loop_part l ls batch e bs next s part = rw (part, clone_loop)

    -- A batch that is not full has room for one more leaf.
    part_iff : (n : ℕ) → n < w → ((n + 1) % w == 0) ≡ false → n + 1 < w
    part_iff n h e = elim (dec_lt (n + 1) w) [
      | yes inside ↦ inside
      | no end ↦
          let k : n + 1 ≡ w = omega arith in
          let m : (n + 1) % w ≡ 0 = rw k (mod_self w) in ground arith
    ]

    clone_loop-Holds :
        (ls held batch : List Bytes) (s : db.State) (next : ℕ)
        → Has s held
        → length batch < w
        → next ≡ length held + length batch
        → Holds held (batch ++ ls) (clone_loop w ls none batch (length held) next s)
    clone_loop-Holds [] held batch s next has h k =
        rw append-nil (unfold clone_loop in write_rest-Holds held batch s has)
    clone_loop-Holds (l ∷ ls) held batch s next has h k =
        elim (Bool-cases ((length batch + 1) % w == 0)) [
          | inl full ↦
              let (t, p, q) = lawful.written s held (batch ++ l ∷ []) has in
              let longer = held ++ (batch ++ l ∷ []) in
              let n : next + 1 ≡ length longer =
                omega (arith, length-append held (batch ++ l ∷ []), length-append batch (l ∷ [])) in
              let ih = clone_loop-Holds ls longer [] t (next + 1) q pos (omega (arith, n)) in
              rw (clone_loop_full l ls batch none (length held) next s t full p) (
                rw (← append_assoc batch (l ∷ []) ls) (
                  Holds-after held (batch ++ l ∷ []) ls _ (
                    subst (λ k. Holds longer ls (clone_loop w ls none [] k (next + 1) t)) (sym n)
                      ih)))
          | inr part ↦ rw (clone_loop_part l ls batch none (length held) next s part) (
              rw (← append_assoc batch (l ∷ []) ls) (
                clone_loop-Holds ls held (batch ++ l ∷ []) s (next + 1) has
                  (omega (arith, length-append batch (l ∷ []), part_iff (length batch) h part))
                  (omega (arith, length-append batch (l ∷ [])))))
        ]

    -- A database whose verified size is at most the leaves that it holds, if it has one.
    abbrev pub IsVerified : db.State → List Bytes → Type 0
    IsVerified s held =
        (db.latest_size s ≡ err no_data) ⊎ ((v : ℕ) × (db.latest_size s ≡ ok v) × (v ≤ length held))

    check_verified_lem :
        (s : db.State) (held : List Bytes)
        → IsVerified s held
        → check_verified (length held) s ≡ none
    unfolding check_verified
    check_verified_lem s held (inl e) = rw (e, check_verified)
    check_verified_lem s held (inr (v, e, h)) = rw (e, check_verified) (ground arith)

    next_leaf_at : (s : db.State) (held : List Bytes) → Has s held → next_leaf s ≡ ok (length held)
    unfolding next_leaf
    next_leaf_at s [] has = rw (lawful.head_none s has, next_leaf)
    next_leaf_at s (l ∷ ls) has = rw (lawful.head_some s l ls has, next_leaf) (ap ok (omega arith))

    -- Where the fetches give the leaves of the log, and a database that keeps the laws has verified
    -- no more than it holds: a clone to a larger tree ends without an error, and the database then
    -- holds what it held with the missing leaves of the log behind it, for any number of workers
    -- and any batch sizes but 0.
    pub clone_lem :
        (log : ℕ → Bytes) (workers b tree_size : ℕ) (fetch : BatchFetch) (s : db.State)
        (held : List Bytes)
        → ((i n : ℕ) → i + n ≤ tree_size → fetch i n ≡ ok (leaves_from log i n))
        → 0 < workers
        → 0 < b
        → Has s held
        → IsVerified s held
        → length held < tree_size
        → let r = clone workers b w tree_size fetch s in
          (r.1 ≡ none) × Has r.0 (held ++ leaves_from log (length held) (tree_size - length held))
    unfolding clone Holds
    clone_lem log workers b tree_size fetch s held right some_worker some_batch has verified small =
        let n = length held in
        let more : leb tree_size n ≡ false = ground arith in
        let downloaded =
          bulk_lem log tree_size b fetch right some_batch n workers small some_worker in
        rw (next_leaf_at s held has, clone)
          (rw more (
            rw (check_verified_lem s held verified) (
              rw downloaded (
                clone_loop-Holds (leaves_from log n (tree_size - n)) held [] s n has pos
                  (omega arith)))))
