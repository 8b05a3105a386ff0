-- ===== src/Serverless/Integrate/Cache.antt =====
-- The tile cache of the integration, seen as a map from tree nodes to hashes.
use trillian_serverless.Base.{
  ℕ, zero, suc, ◌+◌, ◌-◌, ◌≤◌, ◌<◌, ◌==◌, ◌≡◌, ◌≢◌, refl, sym, ◌∙◌, ap, ◌⊎◌, inl, inr, List, [],
  ◌∷◌, ◌++◌, Bytes, Option, none, some, ok, err, Eq, ◌=?◌, if◌then◌else◌, leb, length,
  length-append, length-replicate, get_elem?, get_elem?-set_self, get_elem?-set_ne, set, replicate,
  arith, Bool-cases, Option-cases,
}
use trillian_serverless.Base.Dict.{lookup, insert, lookup-insert}
use trillian_serverless.Serverless.Api.{Tile}
use trillian_serverless.Serverless.Client.{NodeId, node_id_eq, TileKey, tile_key_eq}
use trillian_serverless.Serverless.Layout.Tile.{
  node_coords_to_tile_address, tile_node_key, tile_address-injective,
}
use trillian_serverless.Serverless.Storage.{missing}
use trillian_serverless.Serverless.Integrate.{
  ReadTile, Tiles, no_tile, visited_tile, with_room, set_node, visit,
}

-- What a tile holds at an index: past its end, nothing.
abbrev opened : Option (Option Bytes) → Option Bytes
opened none = none
opened (some o) = o

abbrev pub hash_at : Tile → ℕ → Option Bytes
hash_at t k = opened (get_elem? t.nodes k)

opened-replicate : (n k : ℕ) → opened (get_elem? (replicate n none) k) ≡ none
opened-replicate zero k = refl
opened-replicate (suc n) zero = refl
opened-replicate (suc n) (suc k) = opened-replicate n k

opened-padded :
    (xs : List (Option Bytes)) (n k : ℕ)
    → opened (get_elem? (xs ++ replicate n none) k) ≡ opened (get_elem? xs k)
opened-padded [] n k = opened-replicate n k
opened-padded (x ∷ xs) n zero = refl
opened-padded (x ∷ xs) n (suc k) = opened-padded xs n k

opened-with_room :
    (i : ℕ) (xs : List (Option Bytes)) (k : ℕ)
    → opened (get_elem? (with_room i xs) k) ≡ opened (get_elem? xs k)
opened-with_room i xs k = elim (Bool-cases (leb (length xs) i)) [
  | inl short ↦ rw short (opened-padded xs (i - length xs + 1) k)
  | inr long ↦ rw long refl
]

length-with_room :
    (i : ℕ) (xs : List (Option Bytes))
    → length (with_room i xs) ≡ (if leb (length xs) i then i + 1 else length xs)
length-with_room i xs =
    let e = length-append xs (replicate (i - length xs + 1) none) in
    let nil : Option Bytes = none in
    let r = length-replicate (i - length xs + 1) nil in
    elim (Bool-cases (leb (length xs) i)) [
      | inl short ↦ rw short (ground (arith, e, r, short))
      | inr long ↦ rw long refl
    ]

has_room : (i : ℕ) (xs : List (Option Bytes)) → i < length (with_room i xs)
has_room i xs = rw (length-with_room i xs) (ground arith)

pub length-with_room_le :
    (i n : ℕ) (xs : List (Option Bytes)) → i < n → length xs ≤ n → length (with_room i xs) ≤ n
length-with_room_le i n xs lt le = rw (length-with_room i xs) (ground arith)

abbrev at : NodeId → ℕ
at id =
    let a = node_coords_to_tile_address id.level id.index in tile_node_key a.node_level a.node_index

abbrev pub key_of : NodeId → TileKey
key_of id =
    let a = node_coords_to_tile_address id.level id.index in
    record { tile_level = a.tile_level; tile_index = a.tile_index }

-- The tile that stands for a key: in the cache, or else in the storage; else an empty one.
abbrev pub viewed : ReadTile → TileKey → Tiles → Tile
viewed read key tiles = elim (lookup key tiles) [
  | some t ↦ t
  | none ↦ elim (read key.tile_level key.tile_index) [ ok t ↦ t | err _ ↦ no_tile ]
]

-- The hash of a tree node, in the cache over the storage.
unfoldable pub held : ReadTile → Tiles → NodeId → Option Bytes
held read tiles id = hash_at (viewed read (key_of id) tiles) (at id)

-- Every tile can be read, or there is none.
abbrev pub Readable : ReadTile → Type 0
Readable read =
    (level index : ℕ) → ((t : Tile) × (read level index ≡ ok t)) ⊎ (read level index ≡ err missing)

-- The tile that `Visit` of a node leaves.
abbrev pub updated : ReadTile → NodeId → Bytes → Tiles → Tile
updated read id hash tiles =
    let a = node_coords_to_tile_address id.level id.index in
    set_node a.node_level a.node_index hash (viewed read (key_of id) tiles)

visited_tile-ok :
    (read : ReadTile) (key : TileKey) (tiles : Tiles)
    → Readable read
    → visited_tile read key tiles ≡ ok (viewed read key tiles)
unfolding visited_tile
visited_tile-ok read key tiles h = elim (Option-cases (lookup key tiles)) [
  | inl new ↦ elim (h key.tile_level key.tile_index) [
    | inl (t, found) ↦ rw (new, visited_tile, viewed) (rw found refl)
    | inr no_file ↦ rw (new, visited_tile, viewed) (rw no_file refl)
  ]
  | inr (t, cached) ↦ rw (cached, visited_tile, viewed) refl
]

pub visit_lem :
    (read : ReadTile) (id : NodeId) (hash : Bytes) (tiles : Tiles)
    → Readable read
    → visit read id hash tiles ≡ (ok tt, insert (key_of id) (updated read id hash tiles) tiles)
unfolding visit
visit_lem read id hash tiles h = rw (visited_tile-ok read (key_of id) tiles h, visit) refl

pub viewed-insert :
    (read : ReadTile) (j k : TileKey) (t : Tile) (tiles : Tiles)
    → viewed read j (insert k t tiles) ≡ (if j =? k then t else viewed read j tiles)
viewed-insert read j k t tiles =
    rw (lookup-insert j k t tiles, viewed)
      (elim (Bool-cases (j =? k)) [ inl same ↦ rw same refl | inr other ↦ rw (other, viewed) refl ])

opened-set :
    (xs : List (Option Bytes)) (i k : ℕ) (v : Bytes)
    → i < length xs
    → opened (get_elem? (set xs i (some v)) k)
      ≡ (if i == k then some v else opened (get_elem? xs k))
opened-set xs i k v h = elim (Bool-cases (i == k)) [
  | inl same ↦
      let e : i ≡ k = ground (arith, same) in
      rw same (rw (sym e) (ap opened (get_elem?-set_self xs i (some v) h)))
  | inr other ↦
      let ne : i ≢ k = ground (arith, other) in
      rw other (ap opened (get_elem?-set_ne xs i k (some v) ne))
]

pub hash_at-set_node :
    (l i k : ℕ) (h : Bytes) (t : Tile)
    → hash_at (set_node l i h t) k ≡ (if tile_node_key l i == k then some h else hash_at t k)
unfolding set_node
hash_at-set_node l i k h t =
    let idx = tile_node_key l i in
    opened-set (with_room idx t.nodes) idx k h (has_room idx t.nodes)
    ∙ ap (λ x. if idx == k then some h else x) (opened-with_room idx t.nodes k)

module _ {ℓ κ} {K : Type ℓ} {A : Type κ} ⦃e : Eq K⦄ (j k : K) (x y : A) where
  if_same : j ≡ k → (if j =? k then x else y) ≡ x
  if_same h = ground arith

  if_other : j ≢ k → (if j =? k then x else y) ≡ y
  if_other h = ground arith

NodeId_ext : (i j : NodeId) → i.level ≡ j.level → i.index ≡ j.index → i ≡ j
NodeId_ext i j p q = cc (p, q)

pub held-insert :
    (read : ReadTile) (id j : NodeId) (hash : Bytes) (tiles : Tiles)
    → held read (insert (key_of id) (updated read id hash tiles) tiles) j
      ≡ (if j =? id then some hash else held read tiles j)
unfolding held
held-insert read id j hash tiles =
    let a = node_coords_to_tile_address id.level id.index in
    let t = updated read id hash tiles in
    let old = viewed read (key_of id) tiles in
    let node = hash_at-set_node a.node_level a.node_index (at j) hash old in
    rw (viewed-insert read (key_of j) (key_of id) t tiles)
      (elim (Bool-cases (key_of j =? key_of id)) [
        | inl same ↦
            let e : key_of j ≡ key_of id = ground (arith, same) in
            rw same (
              node ∙ elim (Bool-cases (at id == at j)) [
                | inl hit ↦
                    let e1 : at id ≡ at j = ground (arith, hit) in
                    let (lv, ix) =
                      tile_address-injective j.level id.level j.index id.index
                        (ap (λ k. k.tile_level) e) (ap (λ k. k.tile_index) e) (sym e1) in
                    rw hit
                      (sym (if_same j id (some hash) (held read tiles j) (NodeId_ext j id lv ix)))
                | inr miss ↦
                    let ne : at id ≢ at j = ground (arith, miss) in
                    rw miss (
                      ap (λ k. hash_at (viewed read k tiles) (at j)) (sym e)
                      ∙ sym
                          (if_other j id (some hash) (held read tiles j) (λ p. ne (sym (ap at p)))))
              ])
        | inr other ↦
            let ne : key_of j ≢ key_of id = ground (arith, other) in
            rw other (sym (if_other j id (some hash) (held read tiles j) (λ p. ne (ap key_of p))))
      ])
