-- ===== src/MapVerifier/Complete.antt =====
-- A key and a value that a map's tiles commit to are accepted.
use trillian_serverless.Base.{
  ℕ, ◌≡◌, ◌≢◌, refl, sym, ◌∙◌, ap, not, false, List, [], ◌∷◌, ◌++◌, Bytes, none, some, Result, ok,
  ltb, ◌=?◌, bytes_eq, length, length-append, take, drop, arith, if◌then◌else◌, ◌>>=◌, Bool-cases,
  inl, inr,
}
use trillian_serverless.MapVerifier.{
  TileLeaf, Tile, MapError, MapVerifier, slice_to, find_leaf, hash_tile, check_tile, check_tiles,
  check_inclusion, get_tiles_for_key,
}

-- No leaf is at the path.
abbrev pub NoLeaf : Bytes → List TileLeaf → Type 0
NoLeaf path [] = Unit
NoLeaf path (l ∷ ls) = (l.path ≢ path) × NoLeaf path ls

find_leaf-none : (path : Bytes) (ls : List TileLeaf) → NoLeaf path ls → find_leaf ls path ≡ none
unfolding find_leaf
find_leaf-none path [] h = refl
find_leaf-none path (l ∷ ls) h = rw (find_leaf-none path ls h.1, find_leaf) (ground (arith, h.0))

same_leaf : (l : TileLeaf) → (if l.path =? l.path then some l else none) ≡ some l
same_leaf l = ground arith

find_leaf-last :
    (before after : List TileLeaf) (l : TileLeaf)
    → NoLeaf l.path after
    → find_leaf (before ++ l ∷ after) l.path ≡ some l
unfolding find_leaf
find_leaf-last [] after l h = rw (find_leaf-none l.path after h, find_leaf) (same_leaf l)
find_leaf-last (m ∷ before) after l h = rw (find_leaf-last before after l h, find_leaf)

take-append : (p q : Bytes) → take (length p) (p ++ q) ≡ p
take-append [] q = refl
take-append (x ∷ p) q = ap (λ t. x ∷ t) (take-append p q)

drop_append : (p q : Bytes) → drop (length p) (p ++ q) ≡ q
drop_append [] q = refl
drop_append (x ∷ p) q = drop_append p q

slice_to-prefix : (p q : Bytes) → slice_to (p ++ q) (length p) ≡ ok p
slice_to-prefix p q = elim (Bool-cases (ltb (length (p ++ q)) (length p))) [
  | inl short ↦ absurd (ground (arith, short, length-append p q))
  | inr long ↦ rw (long, slice_to) (ap ok (take-append p q))
]

same_bytes_test : (b : Bytes) → not (b =? b) ≡ false
same_bytes_test b = ground arith

module _ (v : MapVerifier) where
  -- The tile's last leaf at the path has the value, and the tile's leaves hash to its root hash.
  abbrev pub Shows : Tile → Bytes → Bytes → Type 0
  Shows tile path value =
      (before after : List TileLeaf) × (l : TileLeaf) × (tile.leaves ≡ before ++ l ∷ after)
      × NoLeaf l.path after
      × (path ≡ tile.path ++ l.path)
      × (value ≡ l.hash)
      × (hash_tile v tile l ≡ ok tile.root_hash)

  check_tile-Shows :
      (tile : Tile) (path value : Bytes)
      → Shows tile path value
      → check_tile v tile (path, value) ≡ ok (tile.path, tile.root_hash)
  unfolding check_tile
  check_tile-Shows tile path value (before, after, l, split, fresh, at, same, root) =
      let found : find_leaf tile.leaves l.path ≡ some l =
        ap (λ ls. find_leaf ls l.path) split ∙ find_leaf-last before after l fresh in
      rw (at, same)
        (rw (slice_to-prefix tile.path l.path) (
          rw (same_bytes_test tile.path) (
            rw (drop_append tile.path l.path) (
              rw found (
                rw (same_bytes_test l.hash)
                  (rw root (rw (same_bytes_test tile.root_hash) refl)))))))

  -- From the first tile to the last, each shows the path and the root hash of the one below it, and
  -- the last shows the path and the value at the bottom.
  abbrev pub Shown : List Tile → Bytes × Bytes → Bytes × Bytes → Type 0
  Shown [] need top = top ≡ need
  Shown (tile ∷ tiles) need top =
      ((below : Bytes × Bytes) × Shown tiles need below × Shows tile below.0 below.1)
      × (top ≡ (tile.path, tile.root_hash))

  check_tiles-Shown :
      (tiles : List Tile) (need top : Bytes × Bytes)
      → Shown tiles need top
      → check_tiles v tiles need ≡ ok top
  unfolding check_tiles
  check_tiles-Shown [] need top h = ap ok (sym h)
  check_tiles-Shown (tile ∷ tiles) need top ((below, deeper, shows), same) =
      ap (λ (r : Result MapError (Bytes × Bytes)). r >>= check_tile v tile)
        (check_tiles-Shown tiles need below deeper)
      ∙ (check_tile-Shows tile below.0 below.1 shows ∙ ap ok (sym same))

  -- Where the tiles for the prefixes of a key's hash can be fetched, and each shows the path and
  -- the root hash of the next as its last leaf there, the last one the key's hash and the value's
  -- leaf hash, the inclusion is accepted with the root hash of the first.
  pub check_inclusion-Shown :
      (rev : ℕ) (key value : Bytes) (tiles : List Tile) (top : Bytes × Bytes)
      → get_tiles_for_key v rev (v.hash_key key) ≡ ok tiles
      → Shown tiles (v.hash_key key, v.hash_leaf (v.hash_key key) value) top
      → check_inclusion v rev key value ≡ ok top.1
  unfolding check_inclusion
  check_inclusion-Shown rev key value tiles top fetched shown =
      rw fetched (rw (check_tiles-Shown tiles _ top shown) refl)
