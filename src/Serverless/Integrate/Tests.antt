-- ===== src/Serverless/Integrate/Tests.antt =====
-- The integration with a small Merkle library and a storage in memory.
use trillian_serverless.Base.{
  ◌≡◌, refl, inr, List, [], ◌∷◌, ◌++◌, Bytes, some, ok, err, length, arith,
}
use mathlib.Core.List.{Perm}
use mathlib.Core.List.Perm
use trillian_serverless.Base.Dict.{lookup, insert}
use trillian_serverless.Base.Exec.{pure, each_entry, ◌>>=◌}
use trillian_serverless.Formats.{Checkpoint, Hashes}
use trillian_serverless.Serverless.Client.{tile_key_eq, fetch_range_nodes, get_nodes}
use trillian_serverless.Serverless.Storage.{missing}
use trillian_serverless.Serverless.Integrate.{
  LogStorage, ReadTile, Tiles, Visits, Builder, base_range, integrate_entry, visited_tile, set_node,
  visit, visits, merge, store_tiles, integrate,
}
use trillian_serverless.Serverless.Layout.Tile.{node_coords_to_tile_address, tile_node_key}
use trillian_serverless.Serverless.Integrate.Laws.{grow}
use trillian_serverless.Serverless.Integrate.Bounds.{AllFit, visits-AllFit}

abbrev leaves : List Bytes
leaves = (7 ∷ []) ∷ (8 ∷ []) ∷ []

-- It holds the tiles that were stored; the leaves above are sequenced.
abbrev shelf : LogStorage Tiles
shelf = record {
  read_tile = λ level index size s. err missing;
  put_tile = λ level index t s. (ok tt, (record { tile_level = level; tile_index = index }, t) ∷ s);
  put_checkpoint = λ cp s. (ok tt, s);
  sequence_leaf = λ h l s. (ok 2, s);
  scan = λ begin f s. each_entry f begin leaves >>= λ _. pure 2;
}

-- A range is the list of its leaf hashes, and only leaves are visited.
abbrev toy : Builder Hashes
toy = record {
  merkle = record {
    compact = record {
      new_range = λ b e hs. ok hs;
      get_root_hash = λ r. ok (length r ∷ []);
      append_range = λ r d. (r ++ d, ok tt);
      hashes = λ r. r;
    };
    range_nodes = λ b e. [];
    root_nodes = λ r. ok ([], []);
    inclusion = λ i n. err "none";
    consistency = λ a b. err "none";
    verify_consistency = λ a b p r s. ok tt;
  };
  hash_leaf = λ l. 1 ∷ l;
  new_empty_range = λ begin. [];
  append = λ r h. (r ++ h ∷ [], (record { level = 0; index = length r }, h) ∷ []);
  append_range = λ r d. (r ++ d, (record { level = 1; index = 0 }, 9 ∷ []) ∷ [], ok tt);
  end = λ r. length r;
}

abbrev start : Checkpoint
start = record { origin = "log"; size = 0; hash = [] }

abbrev no_files : ReadTile
no_files level index = err missing

abbrev both : Visits
both = (grow toy [] leaves).1 ++ (record { level = 1; index = 0 }, 9 ∷ []) ∷ []

-- Two leaves and their parent, in one tile.
integrates : integrate toy shelf (λ t. t) start [] ≡ (
  ok (some (record { origin = ""; size = 2; hash = 2 ∷ [] })),
  (
    record { tile_level = 0; tile_index = 0 },
    record { num_leaves = 2; nodes = some (1 ∷ 7 ∷ []) ∷ some (9 ∷ []) ∷ some (1 ∷ 8 ∷ []) ∷ [] },
  )
      ∷ [],
)
unfolding integrate base_range fetch_range_nodes get_nodes each_entry integrate_entry visits visit
    visited_tile lookup insert tile_key_eq node_coords_to_tile_address merge store_tiles set_node
    tile_node_key
integrates = refl

nothing-AllFit : AllFit no_files []
unfolding lookup
nothing-AllFit k = record {
  few_leaves = omega arith;
  few_nodes = omega arith;
  counted = λ i h. refl;
}

visits-AllFit_example :
    AllFit no_files (visits no_files ((record { level = 0; index = 300 }, 5 ∷ []) ∷ []) []).1
visits-AllFit_example =
    visits-AllFit no_files ((record { level = 0; index = 300 }, 5 ∷ []) ∷ []) []
      (λ level index. inr refl) nothing-AllFit
