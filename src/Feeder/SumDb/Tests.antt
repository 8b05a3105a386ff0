-- ===== src/Feeder/SumDb/Tests.antt =====
-- A node of a log of 70000 entries.
use trillian_serverless.Base.{◌≡◌, refl, arith}
use trillian_serverless.Base.Dict.{lookup, insert}
use trillian_serverless.Serverless.Layout.Tile.{node_coords_to_tile_address, partial_tile_size}
use trillian_serverless.Feeder.SumDb.{
  NodeId, TileIndex, tile_index_eq, convert_to_sum_db_tiles, partial_tiles, new_tile_broker,
  partial,
}
use trillian_serverless.Feeder.SumDb.Laws.{convert_to_sum_db_tiles-node_coords_to_tile_address}

-- The last complete node of 512 leaves.
abbrev node : NodeId
node = record { level = 9; index = 135 }

convert_to_sum_db_tiles-node_coords_to_tile_address_example :
    let a = node_coords_to_tile_address node.level node.index in
    let i : TileIndex = record { level = a.tile_level; offset = a.tile_index } in
    (convert_to_sum_db_tiles node ≡ (i, record { level = a.node_level; index = a.node_index }))
    × (partial (new_tile_broker 70000) i ≡ partial_tile_size a.tile_level a.tile_index 70000)
convert_to_sum_db_tiles-node_coords_to_tile_address_example =
    convert_to_sum_db_tiles-node_coords_to_tile_address node 70000 (omega arith) (omega arith)
      (omega arith)

-- It is in the second tile of level 1, of which the log has 17 hashes.
second_tile :
    convert_to_sum_db_tiles node
    ≡ (record { level = 1; offset = 1 }, record { level = 1; index = 7 })
unfolding convert_to_sum_db_tiles
second_tile = refl

seventeen : partial (new_tile_broker 70000) (record { level = 1; offset = 1 }) ≡ 17
unfolding partial new_tile_broker partial_tiles lookup insert tile_index_eq
seventeen = refl
