-- ===== src/MapVerifier/Tests.antt =====
-- A map with one key below each byte, and a hash of tiles with one leaf.
use trillian_serverless.Base.{
  ℕ, ◌≡◌, refl, String, List, [], ◌∷◌, Bytes, Result, ok, err, bytes_eq, bytes_dec, ℕ_discrete,
}
use trillian_serverless.MapVerifier.{
  Tile, Node, MapVerifier, failed, get_tiles_from, get_tiles_for_key, hash_tile, check_tile,
  check_tiles, check_inclusion,
}
use trillian_serverless.MapVerifier.Laws.{Linked, check_inclusion-Linked}
use trillian_serverless.MapVerifier.Complete.{Shown, check_inclusion-Shown}

abbrev one_leaf : Bytes → Bytes → Tile
one_leaf prefix path = record {
  path = prefix;
  leaves = record { path = path; hash = 9 ∷ [] } ∷ [];
  root_hash = 9 ∷ [];
}

abbrev fetch_tile : ℕ → Bytes → Result String Tile
fetch_tile rev [] = ok (one_leaf [] (5 ∷ []))
fetch_tile rev (b ∷ []) = ok (one_leaf (b ∷ []) (6 ∷ []))
fetch_tile rev (_ ∷ _ ∷ _) = err "no such tile"

abbrev hash_one : List Node → ℕ → ℕ → Result String Bytes
hash_one [] depth top = err "no nodes"
hash_one (n ∷ []) depth top = ok n.hash
hash_one (_ ∷ _ ∷ _) depth top = err "more than one node"

abbrev verifier : MapVerifier
verifier = record {
  tile_fetch = fetch_tile;
  prefix_strata = 1;
  hash_key = λ key. key;
  hash_leaf = λ path value. value;
  HStar3 = Bytes;
  new_h_star3 = hash_one;
  update = λ hs. ok (record { path = []; hash = hs } ∷ []);
}

abbrev key : Bytes
key = 5 ∷ 6 ∷ []

included : check_inclusion verifier 1 key (9 ∷ []) ≡ ok (9 ∷ [])
unfolding check_inclusion get_tiles_for_key get_tiles_from check_tiles check_tile hash_tile bytes_eq
    bytes_dec ℕ_discrete
included = refl

not_included : check_inclusion verifier 1 key (8 ∷ []) ≡ err (failed "wrong leaf value")
unfolding check_inclusion get_tiles_for_key get_tiles_from check_tiles check_tile hash_tile bytes_eq
    bytes_dec ℕ_discrete
not_included = refl

check_inclusion-Linked_example :
    (tiles : List Tile) × (top : Bytes × Bytes) × (get_tiles_for_key verifier 1 key ≡ ok tiles)
    × Linked verifier tiles key (9 ∷ []) top
    × (top.1 ≡ 9 ∷ [])
check_inclusion-Linked_example = check_inclusion-Linked verifier 1 key (9 ∷ []) (9 ∷ []) included

abbrev tiles : List Tile
tiles = one_leaf [] (5 ∷ []) ∷ one_leaf (5 ∷ []) (6 ∷ []) ∷ []

fetched : get_tiles_for_key verifier 1 key ≡ ok tiles
unfolding get_tiles_for_key get_tiles_from
fetched = refl

shown : Shown verifier tiles (key, 9 ∷ []) ([], 9 ∷ [])
unfolding hash_tile
shown = (
  (
    (5 ∷ [], 9 ∷ []),
    (
      (
        (key, 9 ∷ []),
        refl,
        ([], [], record { path = 6 ∷ []; hash = 9 ∷ [] }, refl, tt, refl, refl, refl),
      ),
      refl,
    ),
    ([], [], record { path = 5 ∷ []; hash = 9 ∷ [] }, refl, tt, refl, refl, refl),
  ),
  refl,
)

check_inclusion-Shown_example : check_inclusion verifier 1 key (9 ∷ []) ≡ ok (9 ∷ [])
check_inclusion-Shown_example =
    check_inclusion-Shown verifier 1 key (9 ∷ []) tiles ([], 9 ∷ []) fetched shown
