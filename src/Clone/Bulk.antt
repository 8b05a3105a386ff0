-- ===== src/Clone/Bulk.antt =====
-- The bulk download (clone/internal/download/batch.go): workers that fetch every n-th batch, read
-- in turn. A cancelled context is not modelled; tree sizes stay far below 2^64, so nothing wraps.
use trillian_serverless.Base.{
  ℕ, zero, suc, ◌+◌, ◌-◌, ◌*◌, ◌≤◌, ◌<◌, min, String, ◌≡◌, refl, ap, ◌∙◌, List, [], ◌∷◌, ◌++◌,
  Bytes, Option, none, some, Result, ok, err, if◌then◌else◌, ltb, leb, arith, true, false, inl, inr,
  Bool-cases,
}

-- `BatchFetch` behind the retries: the leaves from an index on, as many as asked for, or the error
-- with which the retries ended.
abbrev pub BatchFetch : Type 0
BatchFetch = ℕ → ℕ → Result String (List Bytes)

-- `workerResult`: the start and the leaves.
pub record WorkerResult : Type 0 where
  pub start : ℕ
  pub leaves : List Bytes

module _ (tree_size batch_size : ℕ) (fetch : BatchFetch) where
  -- One round of `fetchWorker.run`, of a worker that stands at `start`. A worker that has passed
  -- the end closes its channel, and a read of that gives the zero value.
  unfoldable pub worker_result : ℕ → Result String WorkerResult
  worker_result start =
      if leb tree_size start
      then ok (record { start = 0; leaves = [] })
      else elim (fetch start (min batch_size (tree_size - start))) [
        | err e ↦ err e
        | ok ls ↦ ok (record { start = start; leaves = ls })
      ]

  -- The start of the last batch.
  abbrev pub last_start : ℕ
  last_start = if ltb batch_size tree_size then tree_size - batch_size else 0

  -- The round-robin loop: `starts` holds where the workers stand, the next to be read first. What
  -- has been sent on `rc`, and the error that was sent last, if any.
  unfoldable pub bulk_loop : ℕ → ℕ → List ℕ → List Bytes × Option String
  bulk_loop increment zero starts = ([], none)
  bulk_loop increment (suc fuel) [] = ([], none)
  bulk_loop increment (suc fuel) (s ∷ starts) = elim (worker_result s) [
    | err e ↦ ([], some e)
    | ok r ↦
        let rest = bulk_loop increment fuel (starts ++ (s + increment) ∷ []) in
        if leb last_start r.start then (r.leaves, none) else (r.leaves ++ rest.0, rest.1)
  ]

-- Where `n` workers start: one batch apart.
unfoldable pub worker_starts : ℕ → ℕ → ℕ → List ℕ
worker_starts batch_size first zero = []
worker_starts batch_size first (suc n) = first ∷ worker_starts batch_size (first + batch_size) n

-- Each round but the last sends at least one leaf, so as many rounds as there are leaves are
-- enough.
unfoldable pub bulk : ℕ → ℕ → BatchFetch → ℕ → ℕ → List Bytes × Option String
bulk first tree_size fetch workers batch_size =
    bulk_loop tree_size batch_size fetch (workers * batch_size) (suc (tree_size - first))
      (worker_starts batch_size first workers)

-- The `n` leaves of the log from an index on.
abbrev pub leaves_from : (ℕ → Bytes) → ℕ → ℕ → List Bytes
leaves_from log i zero = []
leaves_from log i (suc n) = log i ∷ leaves_from log (i + 1) n

leaves_from-add :
    (log : ℕ → Bytes) (i m n : ℕ)
    → leaves_from log i m ++ leaves_from log (i + m) n ≡ leaves_from log i (m + n)
leaves_from-add log i zero n =
    let p : i + 0 ≡ i = omega arith in let q : 0 + n ≡ n = omega arith in rw p (rw q)
leaves_from-add log i (suc m) n =
    let p : i + suc m ≡ i + 1 + m = omega arith in
    let q : suc m + n ≡ suc (m + n) = omega arith in
    rw p (rw q (ap (λ ls. log i ∷ ls) (leaves_from-add log (i + 1) m n)))

-- The queue after a turn is the queue that begins one batch further on.
worker_starts-rotate :
    (b first n : ℕ)
    → worker_starts b first n ++ (first + n * b) ∷ [] ≡ worker_starts b first (suc n)
unfolding worker_starts
worker_starts-rotate b first zero = let p : first + 0 * b ≡ first = omega arith in rw p
worker_starts-rotate b first (suc n) =
    let p : first + suc n * b ≡ first + b + n * b = grind arith in
    ap (λ ls. first ∷ ls) (rw p (worker_starts-rotate b (first + b) n))

-- One turn of the loop: the last, and any other.
module _ (tree_size b : ℕ) (fetch : BatchFetch) (inc fuel s : ℕ) (starts : List ℕ)
    (r : WorkerResult) (read : worker_result tree_size b fetch s ≡ ok r) where
  bulk_loop_last :
      leb (last_start tree_size b fetch) r.start ≡ true
      → bulk_loop tree_size b fetch inc (suc fuel) (s ∷ starts) ≡ (r.leaves, none)
  unfolding bulk_loop
  bulk_loop_last h = rw (read, bulk_loop) (rw h)

  bulk_loop_more :
      leb (last_start tree_size b fetch) r.start ≡ false
      → bulk_loop tree_size b fetch inc (suc fuel) (s ∷ starts) ≡ (
        r.leaves ++ (bulk_loop tree_size b fetch inc fuel (starts ++ (s + inc) ∷ [])).0,
        (bulk_loop tree_size b fetch inc fuel (starts ++ (s + inc) ∷ [])).1,
      )
  unfolding bulk_loop
  bulk_loop_more h = rw (read, bulk_loop) (rw h)

worker_starts_cons : (b s n : ℕ) → worker_starts b s (suc n) ≡ s ∷ worker_starts b (s + b) n
unfolding worker_starts
worker_starts_cons b s n = refl

module _ (log : ℕ → Bytes) (tree_size b : ℕ) (fetch : BatchFetch)
    (right : (s n : ℕ) → s + n ≤ tree_size → fetch s n ≡ ok (leaves_from log s n))
    (pos : 0 < b) where
  worker_result_lem :
      (s : ℕ)
      → s < tree_size
      → worker_result tree_size b fetch s
        ≡ ok (record { start = s; leaves = leaves_from log s (min b (tree_size - s)) })
  worker_result_lem s h =
      let p : leb tree_size s ≡ false = ground arith in
      unfold worker_result in rw p (rw (right s (min b (tree_size - s)) (omega arith)))

  -- The last batch is the one that reaches the end of the log.
  last_batch :
      (s : ℕ) → s < tree_size → leb (last_start tree_size b fetch) s ≡ leb (tree_size - s) b
  last_batch s h = ground arith

  bulk_loop_lem :
      (workers fuel s : ℕ)
      → s < tree_size
      → tree_size - s < fuel
      → bulk_loop tree_size b fetch (suc workers * b) fuel (worker_starts b s (suc workers))
        ≡ (leaves_from log s (tree_size - s), none)
  bulk_loop_lem workers zero s h k = absurd (omega arith)
  bulk_loop_lem workers (suc fuel) s h k = elim (Bool-cases (leb (tree_size - s) b)) [
    | inl last ↦
        let p : min b (tree_size - s) ≡ tree_size - s = ground arith in
        rw (worker_starts_cons b s workers) (
          bulk_loop_last tree_size b fetch (suc workers * b) fuel s _ _ (worker_result_lem s h)
            (last_batch s h ∙ last)
          ∙ ap (λ n. (leaves_from log s n, none)) p)
    | inr more ↦
        let p : min b (tree_size - s) ≡ b = ground arith in
        let q : s + suc workers * b ≡ s + b + workers * b = grind arith in
        let n : tree_size - s ≡ b + (tree_size - (s + b)) = ground arith in
        let ih = bulk_loop_lem workers fuel (s + b) (ground arith) (ground arith) in
        rw (worker_starts_cons b s workers) (
          bulk_loop_more tree_size b fetch (suc workers * b) fuel s _ _ (worker_result_lem s h)
            (last_batch s h ∙ more)
          ∙ rw q (
              rw (worker_starts-rotate b (s + b) workers)
                (rw ih (rw p (rw n (rw (leaves_from-add log s b _)))))))
  ]

  -- Where the fetches give the leaves of the log, the download sends exactly the leaves from the
  -- first asked for to the end of the tree, in order, and no error; whatever the number of workers.
  pub bulk_lem :
      (first workers : ℕ)
      → first < tree_size
      → 0 < workers
      → bulk first tree_size fetch workers b ≡ (leaves_from log first (tree_size - first), none)
  bulk_lem first zero h k = absurd (omega arith)
  bulk_lem first (suc workers) h k =
      unfold bulk in bulk_loop_lem workers (suc (tree_size - first)) first h (omega arith)
