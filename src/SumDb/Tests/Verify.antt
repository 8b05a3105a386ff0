-- ===== src/SumDb/Tests/Verify.antt =====
-- `VerifyTiles` at a log of two entries.
use trillian_serverless.Base.{
  ℕ, zero, suc, ◌<◌, ◌≡◌, refl, ℕ_discrete, List, [], ◌∷◌, ◌++◌, Bytes, Result, ok, err, arith,
}
use trillian_serverless.Base.Dict.{lookup, insert}
use trillian_serverless.SumDb.Client.{AuditError, no_data, Client, get, split_hashes, tile_hashes}
use trillian_serverless.SumDb.Database.{tile_id_eq, Tables, tables, get_tile, split_tile}
use trillian_serverless.SumDb.Service.{level_count, levels_from}
use trillian_serverless.SumDb.Service.Sync.{verify_tiles}
use trillian_serverless.SumDb.Service.Verified.{Verdict, Readable, verify_tiles_lem}
use trillian_serverless.SumDb.Tests.{hash_of, sums, client, empty, half, no_duplicates}

-- A client that serves one tile of hashes, and tables that hold it.
abbrev tile_client : Client
tile_client = record client { get_data = λ path. ok (hash_of 97 ++ hash_of 98) }

abbrev with_tile : Tables
with_tile = record empty {
  tiles = insert (record { height = 1; level = 0; offset = 0 }) (hash_of 97 ++ hash_of 98) [];
}

abbrev pair : List Bytes
pair = hash_of 97 ∷ hash_of 98 ∷ []

below_one : (P : ℕ → Type 0) → P 0 → (o : ℕ) → o < 1 → P o
below_one P h zero lt = h
below_one P h (suc o) lt = absurd (omega (arith, lt))

one_level : level_count 1 2 ≡ 1
unfolding level_count levels_from
one_level = refl

held : get_tile (tables no_duplicates) 1 0 0 with_tile ≡ (ok pair, with_tile)
unfolding get_tile split_tile split_hashes lookup insert tile_id_eq ℕ_discrete
held = refl

ended : get_tile (tables no_duplicates) 1 0 1 with_tile ≡ (err no_data, with_tile)
unfolding get_tile lookup insert tile_id_eq ℕ_discrete
ended = refl

fetched : tile_hashes tile_client 0 0 0 ≡ ok pair
unfolding tile_hashes get split_hashes
fetched = refl

verify_tiles_lem_example :
    (res : Result AuditError (Unit {0})) × (verify_tiles
        (tables no_duplicates)
        sums
        tile_client
        1
        5
        half
        with_tile
      ≡ (res, with_tile))
    × Verdict (λ l o. pair) (λ l o. pair) (λ l. 1) (level_count 1 half.size) 0 res
unfolding level_count levels_from
verify_tiles_lem_example =
    verify_tiles_lem (tables no_duplicates) sums tile_client 1 (λ l o. pair) (λ l o. pair) (λ l. 1)
      with_tile 5 half
      (below_one
        (Readable (tables no_duplicates) sums tile_client 1 (λ l o. pair) (λ l o. pair) (λ l. 1)
          with_tile)
        (
          below_one (λ o. get_tile (tables no_duplicates) 1 0 o with_tile ≡ (ok pair, with_tile))
              held,
          ended,
          below_one (λ o. tile_hashes tile_client 0 o 0 ≡ ok pair) fetched,
        ))
      (λ l lt. omega arith)
