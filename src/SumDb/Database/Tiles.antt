-- ===== src/SumDb/Database/Tiles.antt =====
-- A tile that is stored is read back.
use trillian_serverless.Base.{
  ℕ, zero, suc, ◌*◌, ◌^◌, ◌≡◌, refl, sym, ap, ◌≢◌, false, not, List, [], ◌∷◌, ◌++◌, Bytes, none,
  some, ok, ltb, ◌==◌, length, length-append, take, drop, arith,
}
use trillian_serverless.Base.Dict.{Dict, lookup, insert, lookup-insert}
use trillian_serverless.SumDb.Client.{hash_len_bytes, split_hashes}
use trillian_serverless.SumDb.Database.{
  Metadata, Duplicate, Sql, TileId, tile_id_eq, Tables, tables, split_tile, set_tile, get_tile,
}

-- The hashes one after the other.
unfoldable pub blob : List Bytes → Bytes
blob [] = []
blob (h ∷ hs) = h ++ blob hs

abbrev pub AreHashes : List Bytes → Type 0
AreHashes [] = Unit {0}
AreHashes (h ∷ hs) = (length h ≡ hash_len_bytes) × AreHashes hs

pub take-append : (n : ℕ) (x y : Bytes) → length x ≡ n → take n (x ++ y) ≡ x
take-append zero [] y h = refl
take-append zero (b ∷ x) y h = absurd (omega (arith, h))
take-append (suc n) [] y h = absurd (omega (arith, h))
take-append (suc n) (b ∷ x) y h = ap (λ l. b ∷ l) (take-append n x y (omega (arith, h)))

pub drop-append : (n : ℕ) (x y : Bytes) → length x ≡ n → drop n (x ++ y) ≡ y
drop-append zero [] y h = refl
drop-append zero (b ∷ x) y h = absurd (omega (arith, h))
drop-append (suc n) [] y h = absurd (omega (arith, h))
drop-append (suc n) (b ∷ x) y h = drop-append n x y (omega (arith, h))

pub split_hashes-blob : (hs : List Bytes) → AreHashes hs → split_hashes (length hs) (blob hs) ≡ hs
unfolding split_hashes blob
split_hashes-blob [] h = refl
split_hashes-blob (x ∷ xs) (h, k) =
    rw (take-append hash_len_bytes x (blob xs) h)
      (rw (drop-append hash_len_bytes x (blob xs) h) (ap (λ l. x ∷ l) (split_hashes-blob xs k)))

pub length-blob : (hs : List Bytes) → AreHashes hs → length (blob hs) ≡ length hs * hash_len_bytes
unfolding blob
length-blob [] h = omega arith
length-blob (x ∷ xs) (h, k) = omega (arith, length-append x (blob xs), h, length-blob xs k)

pub split_tile-blob :
    (height : ℕ) (hs : List Bytes)
    → length hs ≡ 2 ^ height
    → AreHashes hs
    → split_tile (blob hs) height ≡ ok hs
unfolding split_tile
split_tile-blob height hs n h =
    let e = length-blob hs h in
    let enough : ltb (length (blob hs)) (2 ^ height * hash_len_bytes) ≡ false =
      ground (arith, e, n) in
    rw (enough, split_tile) (rw (sym n) (ap ok (split_hashes-blob hs h)))

module _ (grouped : Dict ℕ Metadata → List Duplicate) where
  abbrev db : Sql
  db = tables grouped

  pub get_tile_lem :
      (height level offset : ℕ) (hs : List Bytes) (s : Tables)
      → length hs ≡ 2 ^ height
      → AreHashes hs
      → lookup (record { height = height; level = level; offset = offset }) s.tiles ≡ some (blob hs)
      → get_tile db height level offset s ≡ (ok hs, s)
  unfolding get_tile
  get_tile_lem height level offset hs s n h found =
      rw (found, get_tile) (rw (split_tile-blob height hs n h) refl)

  abbrev pub with_tile : TileId → Bytes → Tables → Tables
  with_tile k bs s = record s { tiles = insert k bs s.tiles }

  pub set_tile_lem :
      (height level offset : ℕ) (hs : List Bytes) (s : Tables)
      → length hs ≡ 2 ^ height
      → AreHashes hs
      → let id : TileId = record { height = height; level = level; offset = offset } in
        lookup id s.tiles ≡ none
        → set_tile db height level offset (blob hs) s ≡ (ok tt, with_tile id (blob hs) s)
  unfolding set_tile lookup insert
  set_tile_lem height level offset hs s n h vacant =
      let size : not (length (blob hs) == 2 ^ height * hash_len_bytes) ≡ false =
        ground (arith, length-blob hs h, n) in
      rw (size, set_tile) (rw vacant refl)

  -- On tables in memory, a tile of hashes that is not stored yet is stored and read back; all other
  -- tiles, the leaves and the checkpoints are as they were.
  pub set_tile-get_tile :
      (height level offset : ℕ) (hs : List Bytes) (s : Tables)
      → length hs ≡ 2 ^ height
      → AreHashes hs
      → let id : TileId = record { height = height; level = level; offset = offset } in
        lookup id s.tiles ≡ none
        → (t : Tables) × (set_tile db height level offset (blob hs) s ≡ (ok tt, t))
          × (get_tile db height level offset t ≡ (ok hs, t))
          × ((j : TileId) → j ≢ id → lookup j t.tiles ≡ lookup j s.tiles)
          × (t.leaves ≡ s.leaves)
          × (t.checkpoints ≡ s.checkpoints)
  set_tile-get_tile height level offset hs s n h vacant =
      let id : TileId = record { height = height; level = level; offset = offset } in
      let t = with_tile id (blob hs) s in
      let found : lookup id t.tiles ≡ some (blob hs) =
        rw (lookup-insert id id (blob hs) s.tiles) (ground arith) in
      (
        t,
        set_tile_lem height level offset hs s n h vacant,
        get_tile_lem height level offset hs t n h found,
        λ j ne. rw (lookup-insert j id (blob hs) s.tiles) (ground arith),
        refl,
        refl,
      )
