-- ===== src/MapVerifier/Laws.antt =====
-- What it means that a key and a value are included.
use trillian_serverless.Base.{
  In, take_append_drop, same_bytes, ℕ, ◌≡◌, sym, ◌∙◌, ap, subst, inl, inr, not, List, [], ◌∷◌, ◌++◌,
  Bytes, some, ok, bind-ok, ok-injective, fail_if, fail_if-ok, expect, expect-ok, ltb, ◌=?◌,
  bytes_eq, length, take, drop, arith, Option-cases, Bool-cases,
}
use trillian_serverless.MapVerifier.{
  TileLeaf, Tile, MapVerifier, slice_to, find_leaf, hash_tile, check_tile, check_tiles,
  check_inclusion, get_tiles_for_key,
}

find_leaf-some :
    (ls : List TileLeaf) (need : Bytes) (l : TileLeaf)
    → find_leaf ls need ≡ some l
    → In l ls × (l.path ≡ need)
unfolding find_leaf
find_leaf-some [] need l h = absurd (cc h)
find_leaf-some (m ∷ ls) need l h = elim (Option-cases (find_leaf ls need)) [
  | inr (later, e) ↦
      let (i, p) = find_leaf-some ls need later e in
      let same : later ≡ l = cc (h, e) in
      (inr (subst (λ x. In x ls) same i), ap (λ (x : TileLeaf). x.path) (sym same) ∙ p)
  | inl e ↦ elim (Bool-cases (m.path =? need)) [
    | inr differ ↦ absurd (cc (h, e, differ))
    | inl same ↦
        let this : m ≡ l = cc (h, e, same) in
        (inl (sym this), ap (λ (x : TileLeaf). x.path) (sym this) ∙ ground (arith, same))
  ]
]

slice_to-take : (key : Bytes) (n : ℕ) (want : Bytes) → slice_to key n ≡ ok want → take n key ≡ want
slice_to-take key n want h = elim (Bool-cases (ltb (length key) n)) [
  | inl short ↦ absurd (cc (h, short))
  | inr long ↦ cc (h, long)
]

module _ (v : MapVerifier) where
  -- A leaf of the tile stands at the path with the value, and the tile's leaves hash to its root
  -- hash.
  abbrev pub Commits : Tile → Bytes → Bytes → Type 0
  Commits tile path value =
      (l : TileLeaf) × In l tile.leaves
      × (tile.path ++ l.path ≡ path)
      × (l.hash ≡ value)
      × (hash_tile v tile l ≡ ok tile.root_hash)

  check_tile-Commits :
      (tile : Tile) (need top : Bytes × Bytes)
      → check_tile v tile need ≡ ok top
      → Commits tile need.0 need.1 × (top ≡ (tile.path, tile.root_hash))
  unfolding check_tile
  check_tile-Commits tile need top h =
      let (want, h1, k1) = bind-ok (slice_to need.0 (length tile.path)) _ top h in
      let (_, h2, k2) = bind-ok (fail_if (not (tile.path =? want)) _) _ top k1 in
      let (l, h3, k3) = bind-ok (expect (find_leaf tile.leaves _) _) _ top k2 in
      let (_, h4, k4) = bind-ok (fail_if (not (l.hash =? need.1)) _) _ top k3 in
      let (root, h5, k5) = bind-ok (hash_tile v tile l) _ top k4 in
      let (_, h6, k6) = bind-ok (fail_if (not (root =? tile.root_hash)) _) _ top k5 in
      let tile_path : tile.path ≡ take (length tile.path) need.0 =
        same_bytes tile.path want (fail_if-ok _ _ tt h2)
        ∙ sym (slice_to-take need.0 (length tile.path) want h1) in
      let (there, at) =
        find_leaf-some tile.leaves (drop (length tile.path) need.0) l (expect-ok _ _ l h3) in
      let reported : root ≡ tile.root_hash =
        same_bytes root tile.root_hash (fail_if-ok _ _ tt h6) in
      (
        (
          l,
          there,
          ap (λ t. t ++ l.path) tile_path
              ∙ (ap (λ t. take (length tile.path) need.0 ++ t) at
                  ∙ take_append_drop (length tile.path) need.0),
          same_bytes l.hash need.1 (fail_if-ok _ _ tt h4),
          h5 ∙ ap ok reported,
        ),
        sym (ok-injective _ top k6) ∙ ap (λ (r : Bytes). (tile.path, r)) reported,
      )

  -- From the last tile to the first, each commits to the path and the root hash of the one below
  -- it, and the last to the path and the value at the bottom.
  abbrev pub Linked : List Tile → Bytes → Bytes → Bytes × Bytes → Type 0
  Linked [] path value top = top ≡ (path, value)
  Linked (tile ∷ tiles) path value top =
      ((below : Bytes × Bytes) × Linked tiles path value below × Commits tile below.0 below.1)
      × (top ≡ (tile.path, tile.root_hash))

  check_tiles-Linked :
      (tiles : List Tile) (path value : Bytes) (top : Bytes × Bytes)
      → check_tiles v tiles (path, value) ≡ ok top
      → Linked tiles path value top
  unfolding check_tiles
  check_tiles-Linked [] path value top h = sym (ok-injective _ top h)
  check_tiles-Linked (tile ∷ tiles) path value top h =
      let (below, h1, h2) = bind-ok (check_tiles v tiles (path, value)) (check_tile v tile) top h in
      let (commits, same) = check_tile-Commits tile below top h2 in
      ((below, check_tiles-Linked tiles path value below h1, commits), same)

  -- An inclusion that is accepted rests on tiles that were fetched for the prefixes of the key's
  -- hash, each of which commits to the path and the root hash of the next, the last to the key's
  -- hash and the value's leaf hash; the root that is returned is the root hash of the first.
  pub check_inclusion-Linked :
      (rev : ℕ) (key value root : Bytes)
      → check_inclusion v rev key value ≡ ok root
      → let path = v.hash_key key in
        (tiles : List Tile) × (top : Bytes × Bytes) × (get_tiles_for_key v rev path ≡ ok tiles)
        × Linked tiles path (v.hash_leaf path value) top
        × (top.1 ≡ root)
  unfolding check_inclusion
  check_inclusion-Linked rev key value root h =
      let path = v.hash_key key in
      let (tiles, h1, k1) = bind-ok (get_tiles_for_key v rev path) _ root h in
      let (top, h2, k2) = bind-ok (check_tiles v tiles (path, v.hash_leaf path value)) _ root k1 in
      (tiles, top, h1, check_tiles-Linked tiles path _ top h2, ok-injective top.1 root k2)
