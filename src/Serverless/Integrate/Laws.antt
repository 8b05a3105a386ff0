-- ===== src/Serverless/Integrate/Laws.antt =====
-- What the integration gives to the storage.
use trillian_serverless.Base.{
  ◌≡◌, refl, ◌∙◌, ap, ◌⊎◌, List, [], ◌∷◌, ◌++◌, Bytes, Option, some, Result, ok, err, ◌=?◌,
  if◌then◌else◌,
}
use trillian_serverless.Base.Dict.{insert}
use trillian_serverless.Base.Exec.{Exec}
use trillian_serverless.Formats.{Checkpoint}
use trillian_serverless.Serverless.Api.{Tile}
use trillian_serverless.Serverless.Client.{NodeId, node_id_eq, TileKey, tile_key_eq}
use trillian_serverless.Serverless.Storage.{StorageError}
use trillian_serverless.Serverless.Integrate.{
  LogStorage, ReadTile, Tiles, Visits, visits, Builder, wrap,
}
use trillian_serverless.Serverless.Integrate.Cache.{
  key_of, updated, held, Readable, visit_lem, held-insert,
}

-- The hash of a node after these visits, given the one before.
unfoldable pub latest : NodeId → Visits → Option Bytes → Option Bytes
latest j [] old = old
latest j ((id, hash) ∷ vs) old = latest j vs (if j =? id then some hash else old)

-- Where every tile can be read or is missing, visits do not fail; afterwards each node that was
-- visited has the hash of its last visit, and every other node the one it had.
pub visits-latest :
    (read : ReadTile) (vs : Visits) (tiles : Tiles)
    → Readable read
    → (after : Tiles) × (visits read vs tiles ≡ (ok tt, after))
      × ((j : NodeId) → held read after j ≡ latest j vs (held read tiles j))
unfolding visits latest
visits-latest read [] tiles h = (tiles, refl, λ j. refl)
visits-latest read ((id, hash) ∷ vs) tiles h =
    let one = visit_lem read id hash tiles h in
    let (after, e, r) =
      visits-latest read vs (insert (key_of id) (updated read id hash tiles) tiles) h in
    (after, rw one e, λ j. r j ∙ ap (latest j vs) (held-insert read id j hash tiles))

-- What is given where all tiles are kept.
abbrev pub with_result :
    Option Checkpoint → Result StorageError (Unit {0}) → Result StorageError (Option Checkpoint)
with_result a (ok _) = ok a
with_result a (err e) = err e

module _ {S : Type 0} (st : LogStorage S) where
  -- The storage is asked to keep these tiles, one after the other, each once, up to the first that
  -- it fails to keep: the result and the storage that this leaves.
  abbrev pub Puts : List (TileKey × Tile) → S → Result StorageError (Unit {0}) → S → Type 0
  Puts [] s res t = (res ≡ ok tt) × (t ≡ s)
  Puts ((k, tile) ∷ tiles) s res t =
      ((u : S) × (st.put_tile k.tile_level k.tile_index tile s ≡ (ok tt, u)) × Puts tiles u res t)
      ⊎ ((e : StorageError) × (st.put_tile k.tile_level k.tile_index tile s ≡ (err e, t))
          × (res ≡ err (wrap "failed to store tile" e)))

module _ {Range : Type 0} (b : Builder Range) where
  -- The range with these leaves appended, and the visits of the calls.
  unfoldable pub grow : Range → List Bytes → Range × Visits
  grow r [] = (r, [])
  grow r (leaf ∷ leaves) =
      let (grown, vs) = b.append r (b.hash_leaf leaf) in
      let (last, ws) = grow grown leaves in (last, vs ++ ws)
