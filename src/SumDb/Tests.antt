-- ===== src/SumDb/Tests.antt =====
-- The auditor at concrete data: tiles of two leaves, and ranges that add up their hashes.
mod Verify
use trillian_serverless.Base.{
  zero, suc, ℕ, ◌+◌, ◌*◌, ◌^◌, ◌≡◌, ◌<◌, ◌≤◌, refl, ap, ℕ_discrete, bytes_eq, bytes_dec, ◌⊎◌, inl,
  ◌≢◌, ltb, leb, List, [], ◌∷◌, Bytes, some, ok, replicate, arith,
}
use trillian_serverless.Base.Dict.{Dict, lookup, insert}
use trillian_serverless.Std.Paths.{ascii}
use trillian_serverless.Clone.Database.{nat_eq, max_key, rows_from}
use trillian_serverless.Clone.Database.Rows.{insert_rows, insert_rows-Numbered}
use trillian_serverless.SumDb.Client.{
  no_data, tile_hashes, Checkpoint, Client, get, leaves_from, data_to_leaves, parse_checkpoint_note,
  full_leaves_at_offset, split_hashes,
}
use trillian_serverless.SumDb.Client.Leaves.{IsLeaf, joined, data_to_leaves-joined}
use trillian_serverless.SumDb.Database.{
  Metadata, Duplicate, TileId, tile_id_eq, Tables, tables, set_tile, get_tile, golden_checkpoint,
  head, write_leaves, insert_leaves, get_leaves, set_golden_checkpoint, split_tile,
}
use trillian_serverless.SumDb.Database.Tiles.{blob, set_tile-get_tile}
use trillian_serverless.SumDb.Service.{
  Ranges, levels_from, level_count, check_consistency, local_stragglers, append_all, append_levels,
  append_stragglers, append_tile, append_tiles, check_checkpoint, check_golden, check_root,
  check_root_hash, check_stored_golden, first_of, tile_blob, to_hash, check_older,
}
use trillian_serverless.SumDb.Service.Levels.{level_count-ltb}
use trillian_serverless.SumDb.Service.Leaf.{IsWord, parse_leaf, go_sum_leaf, parse_leaf-go_sum_leaf}
use trillian_serverless.SumDb.Service.Sync.{
  verify_tiles, sync, clone_leaf_tiles, clone_chunks, hash_tiles, hash_leaf_level, leaf_tile,
  hash_leaf_tile, hash_levels, hash_upper_level, single_root, store_missing, take_roots,
  stored_golden,
}
use trillian_serverless.SumDb.Service.Outcome.{
  Succeeds, Fails, sync-set_golden_checkpoint, sync-check_consistency,
}
use trillian_serverless.SumDb.Service.Cloned.{Holds, clone_leaf_tiles-Holds}
use trillian_serverless.SumDb.Service.Hashed.{roots, hash_leaf_level-get_tile}
use trillian_serverless.SumDb.Service.Accepts.{Certified, check_consistency-Certified}

level_count-ltb_example : ltb 1 (level_count 8 70000) ≡ leb (2 ^ (8 * (1 + 1))) 70000
level_count-ltb_example = level_count-ltb 8 70000 1 (omega arith) (omega arith)

three_levels : level_count 8 (2 ^ 24) ≡ 3
unfolding level_count levels_from
three_levels = refl

-- A hash that is a number and 31 zeros.
abbrev pub hash_of : ℕ → Bytes
hash_of n = n ∷ replicate 31 0

abbrev pub number : Bytes → ℕ
number [] = 0
number (n ∷ _) = n

abbrev pub total : List Bytes → ℕ
total [] = 0
total (h ∷ hs) = number h + total hs

-- A range is its end and the sum of its hashes.
abbrev pub sums : Ranges (ℕ × ℕ)
sums = record {
  new_empty_range = λ start. (start, 0);
  append = λ cr h. (cr.0 + 1, cr.1 + number h);
  append_range = λ cr other. (other.0, cr.1 + other.1);
  new_range = λ start end hs. ok (end, total hs);
  hashes = λ cr. hash_of (cr.1) ∷ [];
  get_root_hash = λ cr. ok (hash_of (cr.1));
  end = λ cr. cr.0;
  record_hash = λ l. hash_of (number l);
}

-- Each tile has the leaves "a" and "b".
abbrev two : List Bytes
two = ascii "a\n" ∷ ascii "b\n" ∷ []

abbrev pub client : Client
client = record {
  height = 1;
  get_data = λ path. ok (ascii "a\n\nb\n");
  open_note = λ note. ok note;
  parse_tree = λ text. ok (4, hash_of 390);
}

abbrev tree : Checkpoint
tree = record { size = 4; hash = hash_of 390; raw = 1 ∷ [] }

abbrev pub half : Checkpoint
half = record { size = 2; hash = hash_of 195; raw = 2 ∷ [] }

abbrev pub no_duplicates : Dict ℕ Metadata → List Duplicate
no_duplicates d = []

abbrev pub empty : Tables
empty = record { leaves = []; tiles = []; checkpoints = []; metadata = [] }

served : (o : ℕ) → full_leaves_at_offset client o ≡ ok two
unfolding full_leaves_at_offset get data_to_leaves leaves_from
served o = refl

data_to_leaves-joined_example : data_to_leaves (joined (ascii "a\n") (ascii "b\n" ∷ [])) ≡ two
unfolding IsLeaf
data_to_leaves-joined_example =
    data_to_leaves-joined (ascii "a\n") (ascii "b\n" ∷ []) (refl, (refl, refl))
      ((refl, (refl, refl)), tt)

set_tile-get_tile_example :
    (t : Tables) × (set_tile (tables no_duplicates) 1 0 5 (blob (hash_of 7 ∷ hash_of 8 ∷ [])) empty
      ≡ (ok tt, t))
    × (get_tile (tables no_duplicates) 1 0 5 t ≡ (ok (hash_of 7 ∷ hash_of 8 ∷ []), t))
    × ((j : TileId)
        → j ≢ record { height = 1; level = 0; offset = 5 }
        → lookup j t.tiles ≡ lookup j empty.tiles)
    × (t.leaves ≡ empty.leaves)
    × (t.checkpoints ≡ empty.checkpoints)
unfolding lookup
set_tile-get_tile_example =
    set_tile-get_tile no_duplicates 1 0 5 (hash_of 7 ∷ hash_of 8 ∷ []) empty refl (refl, (refl, tt))
      refl

abbrev entry : Metadata
entry = record {
  module_path = ascii "m";
  version = ascii "v";
  repo_hash = ascii "h";
  mod_hash = ascii "g";
}

letter : (c : ℕ) → 32 < c → IsWord (c ∷ [])
letter c h = (omega (arith, h), omega (arith, h), tt)

parse_leaf-go_sum_leaf_example : parse_leaf (go_sum_leaf entry (ascii "/")) ≡ ok entry
parse_leaf-go_sum_leaf_example =
    parse_leaf-go_sum_leaf entry (ascii "/")
      (
        letter 109 (omega arith),
        letter 118 (omega arith),
        letter 104 (omega arith),
        letter 103 (omega arith),
      )
      (letter 47 (omega arith))

sync-set_golden_checkpoint_example :
    Succeeds no_duplicates sums client 1 tree empty
      (sync (tables no_duplicates) sums client 1 tree empty)
    ⊎ Fails no_duplicates sums client 1 tree empty
        (sync (tables no_duplicates) sums client 1 tree empty)
sync-set_golden_checkpoint_example =
    sync-set_golden_checkpoint no_duplicates sums client 1 tree empty

-- The auditor's tables after the whole log was synced.
abbrev after_sync : Tables
after_sync = (sync (tables no_duplicates) sums client 1 tree empty).1

succeeded : (sync (tables no_duplicates) sums client 1 tree empty).0 ≡ ok tt
unfolding sync clone_leaf_tiles head max_key clone_chunks full_leaves_at_offset get write_leaves
    hash_tiles hash_leaf_level leaf_tile get_tile lookup insert_leaves data_to_leaves leaves_from
    hash_leaf_tile get_leaves parse_checkpoint_note golden_checkpoint set_golden_checkpoint set_tile
    split_tile split_hashes hash_levels hash_upper_level single_root store_missing take_roots
    append_all append_levels append_stragglers append_tile append_tiles check_checkpoint
    check_golden check_root check_root_hash check_stored_golden first_of level_count levels_from
    tile_blob to_hash rows_from insert tile_id_eq ℕ_discrete bytes_eq bytes_dec
succeeded = refl

synced : sync (tables no_duplicates) sums client 1 tree empty ≡ (ok tt, after_sync)
synced = ap (λ x. (x, after_sync)) succeeded

sync-check_consistency_example :
    (stored_golden (tables no_duplicates) sums client 1 after_sync ≡ some tree)
    × (check_consistency (tables no_duplicates) sums client 1 tree after_sync ≡ (ok tt, after_sync))
unfolding parse_checkpoint_note
sync-check_consistency_example =
    sync-check_consistency no_duplicates sums client 1 tree empty after_sync refl synced

-- A log of one whole tile and three more leaves is cloned into empty tables: two tiles.
clone_leaf_tiles-Holds_example :
    (t : Tables) × (clone_leaf_tiles (tables no_duplicates) sums client 1 tree empty ≡ (ok tt, t))
    × Holds no_duplicates sums client 1 (λ o. two) 2 empty t
unfolding lookup
clone_leaf_tiles-Holds_example =
    clone_leaf_tiles-Holds no_duplicates sums client 1 (λ o. two) 0 tree empty (omega arith)
      ((λ o. refl), (λ o h. served o)) (λ i. refl)

-- Tables with the leaves of one tile.
abbrev one_tile : Tables
one_tile = record empty { leaves = insert_rows 0 two [] }

hash_leaf_level-get_tile_example :
    (t : Tables) × (hash_leaf_level (tables no_duplicates) sums client 1 1 0 one_tile
      ≡ (ok (roots sums (λ l. refl) no_duplicates client 1 (λ o. two) (λ o. refl) 1 0), t))
    × ((j : ℕ)
        → j < 1
        → get_tile (tables no_duplicates) 1 0 j t ≡ (ok (hash_of 97 ∷ hash_of 98 ∷ []), t))
    × (t.leaves ≡ one_tile.leaves)
unfolding lookup append_all
hash_leaf_level-get_tile_example =
    hash_leaf_level-get_tile sums (λ l. refl) no_duplicates client 1 (λ o. two) (λ o. refl)
      (λ o. refl) 1 1 one_tile (omega arith) (insert_rows-Numbered [] two [] (λ i. refl))
      (λ o. inl refl)

half_accepted : (check_consistency (tables no_duplicates) sums client 1 half after_sync).0 ≡ ok tt
unfolding check_consistency check_older local_stragglers sync clone_leaf_tiles head max_key
    clone_chunks full_leaves_at_offset get write_leaves hash_tiles hash_leaf_level leaf_tile
    get_tile lookup insert_leaves data_to_leaves leaves_from hash_leaf_tile get_leaves
    parse_checkpoint_note golden_checkpoint set_golden_checkpoint set_tile split_tile split_hashes
    hash_levels hash_upper_level single_root store_missing take_roots append_all append_levels
    append_stragglers append_tile append_tiles check_checkpoint check_golden check_root
    check_root_hash check_stored_golden first_of level_count levels_from tile_blob to_hash rows_from
    insert tile_id_eq ℕ_discrete bytes_eq bytes_dec
half_accepted = refl

-- The checkpoint of the first half of the log.
check_consistency-Certified_example :
    (golden : Checkpoint) × (golden_checkpoint
        (tables no_duplicates)
        (parse_checkpoint_note client)
        after_sync
      ≡ (ok golden, after_sync))
    × ((half.raw ≡ golden.raw)
        ⊎ ((last : ℕ) × (head (tables no_duplicates) after_sync ≡ (ok last, after_sync))
            × (half.size ≤ last)
            × Certified
                (tables no_duplicates)
                sums
                client
                1
                half
                (local_stragglers (tables no_duplicates) sums client 1 half.size)
                after_sync))
check_consistency-Certified_example =
    check_consistency-Certified (tables no_duplicates) sums client 1 half after_sync
      ((check_consistency (tables no_duplicates) sums client 1 half after_sync).1)
      (ap (λ x. (x, (check_consistency (tables no_duplicates) sums client 1 half after_sync).1))
        half_accepted)
