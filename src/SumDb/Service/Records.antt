-- ===== src/SumDb/Service/Records.antt =====
-- What a sync does to the records that the auditor holds, on tables in memory.
use trillian_serverless.Base.{
  ℕ, zero, suc, ◌+◌, ◌≡◌, refl, ◌∙◌, Bool, List, [], ◌∷◌, Bytes, Option, none, some, Result, ok,
  err, arith,
}
use trillian_serverless.Base.Dict.{Dict, lookup, insert, lookup-insert}
use trillian_serverless.Base.Exec.{Exec, pure, guard, recast, ◌>>=◌}
use trillian_serverless.Clone.Database.{nat_eq, insert_new}
use trillian_serverless.SumDb.Client.{AuditError, Checkpoint, Client}
use trillian_serverless.SumDb.Database.{
  Metadata, Duplicate, Sql, TileId, tile_id_eq, Tables, tables, execute, head, insert_leaves,
  write_leaves, get_leaves, get_tile, set_tile,
}
use trillian_serverless.SumDb.Service.{Ranges, or_none}
use trillian_serverless.SumDb.Service.Frame.{
  Within, bind-Within, recast-Within, or_none-Within, guard-Within,
}
use trillian_serverless.SumDb.Service.Sync.{
  clone_chunks, clone_leaf_tiles, hash_leaf_tile, leaf_tile, single_root, hash_leaf_level,
  take_roots, store_missing, hash_upper_level, hash_levels, hash_tiles,
}

-- Every leaf and every tile that is stored stays as it is, and so do the golden checkpoints.
unfoldable pub Keeps : Tables → Tables → Type 0
Keeps s t =
    ((i : ℕ) (l : Bytes) → lookup i s.leaves ≡ some l → lookup i t.leaves ≡ some l)
    × ((j : TileId) (b : Bytes) → lookup j s.tiles ≡ some b → lookup j t.tiles ≡ some b)
    × (t.checkpoints ≡ s.checkpoints)

pub same : (s : Tables) → Keeps s s
unfolding Keeps
same s = (λ i l h. h, λ j b h. h, refl)

pub next : (s t u : Tables) → Keeps s t → Keeps t u → Keeps s u
unfolding Keeps
next s t u (a, b, c) (d, e, f) = (λ i l h. d i l (a i l h), λ j x h. e j x (b j x h), f ∙ c)

insert_new-kept :
    {V : Type 0} (i k : ℕ) (v w : V) (d : Dict ℕ V)
    → lookup i d ≡ some w
    → lookup i (insert_new k v d) ≡ some w
insert_new-kept i k v w d h =
    elim (lookup k d)
        as (λ o.
          (lookup k d ≡ o) → lookup i (elim o [ none ↦ insert k v d | some _ ↦ d ]) ≡ some w) [
            | none ↦ λ vacant. rw (lookup-insert i k v d) (ground (arith, h, vacant))
            | some x ↦ λ taken. h
          ]
      refl

insert-kept :
    (i k : TileId) (v w : Bytes) (d : Dict TileId Bytes)
    → lookup k d ≡ none
    → lookup i d ≡ some w
    → lookup i (insert k v d) ≡ some w
insert-kept i k v w d vacant h = rw (lookup-insert i k v d) (ground (arith, h, vacant))

unfoldable pub Stays : {A : Type 0} → Exec Tables AuditError A → Type 0
Stays = Within Keeps

module _ {A : Type 0} where
  stays_query : (m : Tables → Result AuditError A) → Stays (λ s. (m s, s))
  unfolding Stays
  stays_query m s = same s

  stays_recast :
      (m : Exec Tables AuditError A) (f : AuditError → AuditError) → Stays m → Stays (recast m f)
  unfolding Stays
  stays_recast m f = recast-Within Keeps same next m f

  stays_or_none : (m : Exec Tables AuditError A) → Stays m → Stays (or_none m)
  unfolding Stays
  stays_or_none m = or_none-Within Keeps same next m

stays_guard : (b : Bool) (e : AuditError) → Stays (guard b e)
unfolding Stays
stays_guard b e = guard-Within Keeps same next b e

after :
    {A B : Type 0} (m : Exec Tables AuditError A) (f : A → Exec Tables AuditError B)
    → Stays m
    → ((a : A) → Stays (f a))
    → Stays (m >>= f)
unfolding Stays
after m f = bind-Within Keeps same next m f

ruleset stays = (after, stays_query, stays_guard, stays_recast, stays_or_none)

module _ (grouped : Dict ℕ Metadata → List Duplicate) where
  abbrev db : Sql
  db = tables grouped

  insert_leaves-Keeps :
      (start : ℕ) (ls : List Bytes) (s : Tables) → Keeps s (insert_leaves db start ls s)
  unfolding insert_leaves Keeps
  insert_leaves-Keeps start [] s = same s
  insert_leaves-Keeps start (l ∷ ls) s =
      let t = record s { leaves = insert_new start l s.leaves } in
      next s t (insert_leaves db (start + 1) ls t)
        (λ i x h. insert_new-kept i start l x s.leaves h, λ j b h. h, refl)
        (insert_leaves-Keeps (start + 1) ls t)

  write_leaves-Keeps : (start : ℕ) (ls : List Bytes) → Stays (write_leaves db start ls)
  unfolding write_leaves Stays
  write_leaves-Keeps start ls s = insert_leaves-Keeps start ls s

  insert_tile-Keeps :
      (height level offset : ℕ) (b : Bytes)
      → Stays (execute db (db.insert_tile height level offset b))
  unfolding Keeps Stays
  insert_tile-Keeps height level offset b s =
      let id : TileId = record { height = height; level = level; offset = offset } in
      elim (lookup id s.tiles)
          as (λ o.
            (lookup id s.tiles ≡ o)
            → Keeps s (
                (execute db
                  (λ u. elim o [
                    | none ↦ ok (record u { tiles = insert id b u.tiles })
                    | some _ ↦ err "UNIQUE constraint failed"
                  ])
                  s).1)) [
                    | none ↦
                        λ vacant. (λ i l h. h, λ j x h. insert-kept j id b x s.tiles vacant h, refl)
                    | some x ↦ λ taken. same s
                  ]
        refl

  set_tile-Keeps : (height level offset : ℕ) (b : Bytes) → Stays (set_tile db height level offset b)
  unfolding set_tile
  set_tile-Keeps height level offset b = search (stays, insert_tile-Keeps)

  get_leaves-Keeps : (start count : ℕ) → Stays (get_leaves db start count)
  unfolding get_leaves
  get_leaves-Keeps start count = search (stays)

  get_tile-Keeps : (height level offset : ℕ) → Stays (get_tile db height level offset)
  unfolding get_tile
  get_tile-Keeps height level offset = search (stays)

  module _ {Range : Type 0} (r : Ranges Range) (c : Client) (height : ℕ) where
    clone_chunks-Keeps : (n offset : ℕ) → Stays (clone_chunks db r c height n offset)
    unfolding clone_chunks
    clone_chunks-Keeps zero offset = search (stays)
    clone_chunks-Keeps (suc n) offset = search (stays, write_leaves-Keeps, clone_chunks-Keeps n)

    pub clone_leaf_tiles-Keeps : (cp : Checkpoint) → Stays (clone_leaf_tiles db r c height cp)
    unfolding clone_leaf_tiles head
    clone_leaf_tiles-Keeps cp = search (stays, clone_chunks-Keeps)

    hash_leaf_tile-Keeps : (offset : ℕ) → Stays (hash_leaf_tile db r c height offset)
    unfolding hash_leaf_tile
    hash_leaf_tile-Keeps offset = search (stays, get_leaves-Keeps, set_tile-Keeps)

    from_stored-Keeps :
        (offset : ℕ) (stored : Option (List Bytes))
        → Stays
            (elim stored [ none ↦ hash_leaf_tile db r c height offset | some hashes ↦ pure hashes ])
    from_stored-Keeps offset none = hash_leaf_tile-Keeps offset
    from_stored-Keeps offset (some hashes) = stays_query _

    leaf_tile-Keeps : (offset : ℕ) → Stays (leaf_tile db r c height offset)
    unfolding leaf_tile
    leaf_tile-Keeps offset = search (stays, get_tile-Keeps, from_stored-Keeps)

    single_root-Keeps :
        (start : ℕ) (hashes : List Bytes) → Stays (single_root db r c height start hashes)
    unfolding single_root
    single_root-Keeps start hashes = search (stays)

    pub hash_leaf_level-Keeps : (n offset : ℕ) → Stays (hash_leaf_level db r c height n offset)
    unfolding hash_leaf_level
    hash_leaf_level-Keeps zero offset = search (stays)
    hash_leaf_level-Keeps (suc n) offset =
        search (stays, leaf_tile-Keeps, single_root-Keeps, hash_leaf_level-Keeps n)

    take_roots-Keeps :
        (n : ℕ) (stored : Option (List Bytes)) (roots : List Range)
        → Stays (take_roots db r c height n stored roots)
    unfolding take_roots
    take_roots-Keeps zero stored roots = search (stays)
    take_roots-Keeps (suc n) stored [] = search (stays)
    take_roots-Keeps (suc n) stored (cr ∷ roots) = search (stays, take_roots-Keeps n)

    store_missing-Keeps :
        (level offset : ℕ) (stored : Option (List Bytes)) (hashes : List Bytes)
        → Stays (store_missing db r c height level offset stored hashes)
    unfolding store_missing
    store_missing-Keeps level offset (some _) hashes = search (stays)
    store_missing-Keeps level offset none hashes = search (stays, set_tile-Keeps)

    hash_upper_level-Keeps :
        (level n offset : ℕ) (roots : List Range)
        → Stays (hash_upper_level db r c height level n offset roots)
    unfolding hash_upper_level
    hash_upper_level-Keeps level zero offset roots = search (stays)
    hash_upper_level-Keeps level (suc n) offset roots =
        search
          (
            stays,
            get_tile-Keeps,
            take_roots-Keeps,
            store_missing-Keeps,
            single_root-Keeps,
            hash_upper_level-Keeps level n,
          )
          depth 9

    hash_levels-Keeps :
        (n level count : ℕ) (roots : List Range)
        → Stays (hash_levels db r c height n level count roots)
    unfolding hash_levels
    hash_levels-Keeps zero level count roots = search (stays)
    hash_levels-Keeps (suc n) level count roots =
        search (stays, hash_upper_level-Keeps, hash_levels-Keeps n)

    pub hash_tiles-Keeps : (cp : Checkpoint) → Stays (hash_tiles db r c height cp)
    unfolding hash_tiles
    hash_tiles-Keeps cp = search (stays, hash_leaf_level-Keeps, hash_levels-Keeps)
