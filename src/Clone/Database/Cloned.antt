-- ===== src/Clone/Database/Cloned.antt =====
-- A clone into the cloner's database (clone/logdb/database.go), on tables in memory.
use trillian_serverless.Base.{
  ℕ, ◌+◌, ◌-◌, ◌≤◌, ◌<◌, ◌≡◌, ◌⊎◌, String, List, [], ◌∷◌, ◌++◌, Bytes, none, Result, ok, err,
  length,
}
use trillian_serverless.Formats.{Hashes}
use trillian_serverless.Clone.Bulk.{BatchFetch, leaves_from}
use trillian_serverless.Clone.Cloner.{DbError, no_data, Db, Appends, clone, clone_lem}
use trillian_serverless.Clone.Database.{Tables, tables, head, get_latest_checkpoint, write_leaves}
use trillian_serverless.Clone.Database.Rows.{Numbered, head_lem, write_leaves-stream_leaves}

abbrev size_of : Result DbError (ℕ × Bytes × Hashes) → Result DbError ℕ
size_of (ok (size, _, _)) = ok size
size_of (err e) = err e

module _ (encode : Hashes → Result String Bytes) (decode : Bytes → Result String Hashes) where
  -- The database that the cloner is given.
  abbrev pub database : Db
  database = record {
    State = Tables;
    head = head (tables encode decode);
    latest_size = λ s. size_of (get_latest_checkpoint (tables encode decode) s);
    write_leaves = write_leaves (tables encode decode);
  }

  database-Appends : Appends database (λ s held. Numbered held s.leaves)
  database-Appends = record {
    head_none = λ s h. head_lem encode decode [] s h;
    head_some = λ s l ls h. head_lem encode decode (l ∷ ls) s h;
    written = λ s held ls h.
        let (t, wrote, there, _, _, _) = write_leaves-stream_leaves encode decode held ls s h in
        (t, wrote, there);
  }

  -- On tables in memory, whose statements do not fail, which hold leaves from number 0 on, and whose
  -- latest checkpoint, if there is one, can be decoded and is of no more leaves than these: where
  -- the fetches give the leaves of the log, a clone to a larger tree ends without an error, and the
  -- table then holds exactly the leaves that it held with the missing ones of the log behind them,
  -- for any number of workers and any batch sizes but 0.
  pub clone-Numbered :
      (log : ℕ → Bytes) (workers b w tree_size : ℕ) (fetch : BatchFetch) (s : Tables)
      (held : List Bytes)
      → ((i n : ℕ) → i + n ≤ tree_size → fetch i n ≡ ok (leaves_from log i n))
      → 0 < workers
      → 0 < b
      → 0 < w
      → Numbered held s.leaves
      → ((database.latest_size s ≡ err no_data)
          ⊎ ((v : ℕ) × (database.latest_size s ≡ ok v) × (v ≤ length held)))
      → length held < tree_size
      → let (t, e) = clone database workers b w tree_size fetch s in
        (e ≡ none)
        × Numbered (held ++ leaves_from log (length held) (tree_size - length held)) t.leaves
  clone-Numbered log workers b w tree_size fetch s held right some_worker some_batch pos has
        verified small =
      clone_lem database (λ s held. Numbered held s.leaves) database-Appends w pos log workers b
        tree_size fetch s held right some_worker some_batch has verified small
