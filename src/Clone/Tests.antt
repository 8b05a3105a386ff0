-- ===== src/Clone/Tests.antt =====
-- The cloner at concrete data: tables with one leaf, and a log of five leaves.
use trillian_serverless.Base.{
  ℕ, zero, suc, ◌≡◌, refl, [], ◌∷◌, Bytes, none, ok, arith, inr, ℕ_discrete,
}
use trillian_serverless.Base.Dict.{lookup}
use trillian_serverless.Clone.Bulk.{
  BatchFetch, bulk, bulk_loop, worker_result, worker_starts, leaves_from, bulk_lem,
}
use trillian_serverless.Clone.Cloner.{Db, clone}
use trillian_serverless.Clone.Database.{Tables, max_key, get_latest_checkpoint}
use trillian_serverless.Clone.Database.Rows.{Numbered}
use trillian_serverless.Clone.Database.Cloned.{database, clone-Numbered}

abbrev log : ℕ → Bytes
log i = i ∷ []

abbrev fetch : BatchFetch
fetch i n = ok (leaves_from log i n)

-- Two workers, batches of two, five leaves.
bulk_lem_example : bulk 0 5 fetch 2 2 ≡ (leaves_from log 0 5, none)
bulk_lem_example =
    bulk_lem log 5 2 fetch (λ s n h. refl) (omega arith) 0 2 (omega arith) (omega arith)

three : bulk 0 3 fetch 2 2 ≡ ((0 ∷ []) ∷ (1 ∷ []) ∷ (2 ∷ []) ∷ [], none)
unfolding bulk bulk_loop worker_result worker_starts
three = refl

abbrev db : Db
db = database (λ hs. ok []) (λ b. ok [])

-- Tables with one leaf, which is verified.
abbrev one_leaf : Tables
one_leaf = record { leaves = (0, 0 ∷ []) ∷ []; checkpoints = (1, (5 ∷ [], [])) ∷ [] }

one_leaf-Numbered : Numbered ((0 ∷ []) ∷ []) one_leaf.leaves
unfolding lookup ℕ_discrete
one_leaf-Numbered zero = refl
one_leaf-Numbered (suc i) = ground arith

verified : db.latest_size one_leaf ≡ ok 1
unfolding get_latest_checkpoint max_key lookup ℕ_discrete
verified = refl

clone-Numbered_example :
    let (t, e) = clone db 2 2 3 5 fetch one_leaf in
    (e ≡ none) × Numbered ((0 ∷ []) ∷ leaves_from log 1 4) t.leaves
clone-Numbered_example =
    clone-Numbered (λ hs. ok []) (λ b. ok []) log 2 2 3 5 fetch one_leaf ((0 ∷ []) ∷ [])
      (λ i n h. refl) (omega arith) (omega arith) (omega arith) one_leaf-Numbered
      (inr (1, verified, omega arith)) (omega arith)
