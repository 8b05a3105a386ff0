-- ===== src/Serverless/Storage/Tests.antt =====
-- The log in a file system on concrete files.
use trillian_serverless.Base.{
  ℕ, zero, suc, ◌-◌, ◌%◌, ◌<◌, ◌≡◌, refl, List, [], ◌∷◌, ◌++◌, Bytes, none, some, Result, ok, err,
  arith, length, drop, bytes_eq,
}
use trillian_serverless.Base.Dict.{lookup, insert}
use trillian_serverless.Base.Exec.{each_entry, Exec, pure, lift, ◌>>=◌}
use trillian_serverless.Std.Files.{file, Disk, memory}
use trillian_serverless.Std.Paths.{ascii}
use trillian_serverless.Serverless.Storage.{
  StorageError, dupe_leaf, Store, seq_file, pending_file, sequence, scan_sequenced, store_tile,
  get_tile,
}
use trillian_serverless.Serverless.Api.{Tile}
use trillian_serverless.Serverless.Api.TileText.{refill}
use trillian_serverless.Serverless.Layout.Tile.{partial_tile_size}
use trillian_serverless.Serverless.Storage.TileFiles.{store_tile-get_tile}
use trillian_serverless.Serverless.Storage.Names.{leaf_file, seq_file-injective}
use trillian_serverless.Serverless.Storage.Steps.{lookup_other, lookup_self}
use trillian_serverless.Serverless.Storage.Sequenced.{Holds}
use trillian_serverless.Serverless.Storage.Laws.{sequence-appends, scan_sequenced_lem}

-- The directory "/r", a leaf and its hash.
abbrev dir : Bytes
dir = 47 ∷ 114 ∷ []

abbrev leaf : Bytes
leaf = 9 ∷ []

abbrev hash : Bytes
hash = 1 ∷ 2 ∷ 3 ∷ 4 ∷ []

abbrev on : Disk → ℕ → Store memory
on disk next = record { files = disk; root_dir = dir; next_seq = next }

empty-Holds : Holds dir [] []
unfolding lookup
empty-Holds i h = refl

sequence-appends_example :
    (after : Disk) × (sequence memory 1 hash leaf (on [] 0) ≡ (ok 0, on after 0))
    × Holds dir (leaf ∷ []) after
    × (lookup (pending_file dir hash) after ≡ none)
    × (lookup (leaf_file dir 1 2 3 (4 ∷ []) ++ ascii ".tmp") after ≡ none)
    × ((fuel' next' : ℕ) (leaf' : Bytes)
        → sequence memory fuel' hash leaf' (on after next') ≡ (err (dupe_leaf 0), on after next'))
unfolding lookup
sequence-appends_example =
    sequence-appends 47 (114 ∷ []) 1 2 3 (4 ∷ []) [] 1 0 leaf [] (omega arith) empty-Holds
      (omega arith) (omega arith) (omega arith) refl refl refl

abbrev one_leaf : Disk
one_leaf = insert (seq_file dir 0) (file leaf) []

one_leaf-Holds : Holds dir (leaf ∷ []) one_leaf
unfolding lookup
one_leaf-Holds zero h = lookup_self (seq_file dir 0) (file leaf) []
one_leaf-Holds (suc i) h =
    lookup_other (seq_file dir (suc i)) (seq_file dir 0) (file leaf) []
      (λ e. absurd (omega (arith, seq_file-injective dir (suc i) 0 h (omega arith) e)))

-- Each entry is added to a list.
abbrev add_entry : ℕ → Bytes → Exec (List Bytes) StorageError (Unit {0})
add_entry i e found = (ok tt, found ++ e ∷ [])

scan_sequenced_lem_example :
    scan_sequenced memory 2 0 add_entry (on one_leaf 0) []
    ≡ (each_entry add_entry 0 (drop 0 (leaf ∷ [])) >>= λ _. pure (length (leaf ∷ []) - 0)) []
scan_sequenced_lem_example =
    scan_sequenced_lem add_entry (on one_leaf 0) (leaf ∷ []) one_leaf-Holds (omega arith) 2 0 []
      (omega arith) (omega arith)

abbrev two : Result StorageError ℕ
two = ok 2

gathers :
    ((each_entry add_entry 0 (leaf ∷ leaf ∷ []) >>= λ _. lift two) []) ≡ (two, leaf ∷ leaf ∷ [])
unfolding each_entry
gathers = refl

-- A full tile over files that have a partial one.
partial_zero : partial_tile_size 0 0 256 ≡ 256 % 256
unfolding partial_tile_size
partial_zero = refl

abbrev with_partial : Disk
with_partial = insert (dir ++ ascii "/tile/00/0000/00/00/00.02") (file (ascii "32")) []

abbrev full : Tile
full = record { num_leaves = 256; nodes = (none ∷ []) ++ some (7 ∷ []) ∷ [] }

store_tile-get_tile_example :
    let (result, after) = store_tile memory 0 0 full (on with_partial 0) in
    (get_tile memory 0 0 256 after
      ≡ ok (record { num_leaves = 256; nodes = refill (none ∷ []) ++ some (7 ∷ []) ∷ [] }))
    × (256 < 256 → result ≡ ok tt)
store_tile-get_tile_example =
    store_tile-get_tile 0 0 256 (none ∷ []) 7 [] (on with_partial 0) 256 (omega arith) (omega arith)
      partial_zero (tt, tt) (omega arith, tt)
