-- ===== src/SumDb/Service/Hashed.antt =====
-- The tiles of leaf hashes that are filled in, on tables in memory.
use trillian_serverless.Base.{
  ℕ, zero, suc, ◌+◌, ◌*◌, ◌^◌, ◌≤◌, ◌<◌, ◌≡◌, refl, sym, ◌∙◌, ap, subst, ◌≢◌, ◌⊎◌, inl, inr,
  Bool-cases, false, not, ltb, ◌==◌, List, [], ◌∷◌, Bytes, Option, none, some, ok, err, expect,
  length, map, arith,
}
use trillian_serverless.Base.Dict.{Dict, lookup, lookup-insert}
use trillian_serverless.Base.Exec.{Exec, pure, lift, recast, step, ◌>>=◌, ◌>>◌}
use trillian_serverless.Clone.Database.{nat_eq}
use trillian_serverless.Clone.Database.Rows.{Numbered}
use trillian_serverless.SumDb.Client.{AuditError, no_data, Client, hash_len_bytes}
use trillian_serverless.SumDb.Database.{
  Metadata, Duplicate, Sql, TileId, tile_id_eq, Tables, tables, split_tile, get_leaves, get_tile,
  set_tile,
}
use trillian_serverless.SumDb.Database.Tiles.{
  blob, AreHashes, with_tile, get_tile_lem, set_tile_lem,
}
use trillian_serverless.SumDb.Service.{Ranges, wrapped, or_none, tile_blob, append_all}
use trillian_serverless.SumDb.Service.Slices.{tiles_of, tile_blob-blob, get_leaves-tile}
use trillian_serverless.SumDb.Service.Records.{Keeps, Stays, hash_leaf_level-Keeps}
use trillian_serverless.SumDb.Service.Sync.{hash_leaf_tile, leaf_tile, single_root, hash_leaf_level}

module _ {Range : Type 0} (r : Ranges Range)
    (sized : (l : Bytes) → length (r.record_hash l) ≡ hash_len_bytes) where
  AreHashes-map : (ls : List Bytes) → AreHashes (map r.record_hash ls)
  AreHashes-map [] = tt
  AreHashes-map (l ∷ ls) = (sized l, AreHashes-map ls)

  length-map : (ls : List Bytes) → length (map r.record_hash ls) ≡ length ls
  length-map [] = refl
  length-map (l ∷ ls) = omega (arith, length-map ls)

  module _ (grouped : Dict ℕ Metadata → List Duplicate) (c : Client) (height : ℕ)
      (tile : ℕ → List Bytes) (wide : (o : ℕ) → length (tile o) ≡ 2 ^ height) where
    abbrev db : Sql
    db = tables grouped

    abbrev pub id : ℕ → TileId
    id o = record { height = height; level = 0; offset = o }

    -- The record hashes of a tile.
    abbrev pub hashes : ℕ → List Bytes
    hashes o = map r.record_hash (tile o)

    -- No tile of leaf hashes is stored that is not the one of its leaves.
    abbrev pub AreSound : Tables → Type 0
    AreSound s =
        (o : ℕ) → (lookup (id o) s.tiles ≡ none) ⊎ (lookup (id o) s.tiles ≡ some (blob (hashes o)))

    -- The tile is stored, and the others and the leaves are as they were.
    abbrev Filled : ℕ → Tables → Tables → Type 0
    Filled o s t =
        (lookup (id o) t.tiles ≡ some (blob (hashes o)))
        × ((j : TileId) → j ≢ id o → lookup j t.tiles ≡ lookup j s.tiles)
        × (t.leaves ≡ s.leaves)

    width : (o : ℕ) → length (hashes o) ≡ 2 ^ height
    width o = length-map (tile o) ∙ wide o

    -- What the code does with the tile that it looked up.
    abbrev from_stored : ℕ → Option (List Bytes) → Exec Tables AuditError (List Bytes)
    from_stored o stored = elim stored [ none ↦ hash_leaf_tile db r c height o | some hs ↦ pure hs ]

    hash_leaf_tile_lem :
        (m o : ℕ) (s : Tables)
        → o < m
        → Numbered (tiles_of tile m) s.leaves
        → lookup (id o) s.tiles ≡ none
        → hash_leaf_tile db r c height o s
          ≡ (ok (hashes o), with_tile grouped (id o) (blob (hashes o)) s)
    unfolding hash_leaf_tile
    hash_leaf_tile_lem m o s lt held vacant =
        let h = AreHashes-map (tile o) in
        let stored = set_tile_lem grouped height 0 o (hashes o) s (width o) h vacant in
        let filled : set_tile db height 0 o (tile_blob (hashes o)) s
            ≡ (ok tt, with_tile grouped (id o) (blob (hashes o)) s) =
          ap (λ b. set_tile db height 0 o b s) (tile_blob-blob (hashes o) h) ∙ stored in
        let rest : List Bytes → Exec Tables AuditError (List Bytes) = λ ls.
          set_tile db height 0 o (tile_blob (map r.record_hash ls))
          >> pure (map r.record_hash ls) in
        let read =
          ap (λ p. recast (λ _. p) (wrapped "failed to get leaves from DB") s)
            (get_leaves-tile grouped height tile wide m o s lt held) in
        step
          (recast (get_leaves db (2 ^ height * o) (2 ^ height))
            (wrapped "failed to get leaves from DB"))
          rest s s (tile o) read
        ∙ step (set_tile db height 0 o (tile_blob (hashes o))) (λ _. pure (hashes o)) s
            (with_tile grouped (id o) (blob (hashes o)) s) tt filled

    leaf_tile_lem :
        (m o : ℕ) (s : Tables)
        → o < m
        → Numbered (tiles_of tile m) s.leaves
        → AreSound s
        → (t : Tables) × (leaf_tile db r c height o s ≡ (ok (hashes o), t)) × Filled o s t
    unfolding leaf_tile get_tile
    leaf_tile_lem m o s lt held sound = elim (sound o) [
      | inl vacant ↦
          let missing : get_tile db height 0 o s ≡ (err no_data, s) =
            ap (λ row. (lift (expect row no_data) >>= λ bs. lift (split_tile bs height)) s)
              vacant in
          let absent : or_none (get_tile db height 0 o) s ≡ (ok none, s) =
            ap (λ p. or_none (λ _. p) s) missing in
          (
            with_tile grouped (id o) (blob (hashes o)) s,
            step (or_none (get_tile db height 0 o)) (from_stored o) s s none absent
                ∙ hash_leaf_tile_lem m o s lt held vacant,
            (
              rw (lookup-insert (id o) (id o) (blob (hashes o)) s.tiles) (ground arith),
              λ j ne. rw (lookup-insert j (id o) (blob (hashes o)) s.tiles) (ground arith),
              refl,
            ),
          )
      | inr there ↦
          let found =
            get_tile_lem grouped height 0 o (hashes o) s (width o) (AreHashes-map (tile o)) there in
          let read : or_none (get_tile db height 0 o) s ≡ (ok (some (hashes o)), s) =
            ap (λ p. or_none (λ _. p) s) found in
          (
            s,
            step (or_none (get_tile db height 0 o)) (from_stored o) s s (some (hashes o)) read,
            (there, λ j ne. refl, refl),
          )
    ]

    -- One more tile leaves the others sound.
    sound_after : (o : ℕ) (s t : Tables) → AreSound s → Filled o s t → AreSound t
    sound_after o s t sound (found, others, _) j = elim (nat_eq.dec j o) [
      | yes same ↦ inr (
          ap (λ i. lookup (id i) t.tiles) same
          ∙ found
          ∙ ap (λ i. some (blob (hashes i))) (sym same))
      | no differ ↦
          let kept = others (id j) (λ e. differ (ap (λ k. k.offset) e)) in
          elim (sound j) [ inl vacant ↦ inl (kept ∙ vacant) | inr there ↦ inr (kept ∙ there) ]
    ]

    -- The range of a tile's hashes.
    abbrev pub root : ℕ → Range
    root o = append_all db r c height (hashes o) (r.new_empty_range (o * 2 ^ height))

    abbrev pub roots : ℕ → ℕ → List Range
    roots zero o = []
    roots (suc n) o = root o ∷ roots n (o + 1)

    first_stored :
        (o j : ℕ) (t : Tables)
        → j ≡ o
        → lookup (id o) t.tiles ≡ some (blob (hashes o))
        → lookup (id j) t.tiles ≡ some (blob (hashes j))
    first_stored o j t same h =
        subst (λ i. lookup (id i) t.tiles ≡ some (blob (hashes i))) (sym same) h

    kept_tile :
        (k : TileId) (b : Bytes) (s t : Tables)
        → Keeps s t
        → lookup k s.tiles ≡ some b
        → lookup k t.tiles ≡ some b
    unfolding Keeps
    kept_tile k b s t h e = h.1 k b e

    module _ (perfect : (o : ℕ) → length (r.hashes (root o)) ≡ 1) where
      single_root_lem :
          (o : ℕ) (s : Tables)
          → single_root db r c height (o * 2 ^ height) (hashes o) s ≡ (ok (root o), s)
      unfolding single_root
      single_root_lem o s =
          let one : not (length (r.hashes (root o)) == 1) ≡ false = ground (arith, perfect o) in
          rw (one, single_root) refl

      hash_leaf_level_lem :
          (n o m : ℕ) (s : Tables)
          → o + n ≤ m
          → Numbered (tiles_of tile m) s.leaves
          → AreSound s
          → (t : Tables) × (hash_leaf_level db r c height n o s ≡ (ok (roots n o), t))
            × ((j : ℕ) → o ≤ j → j < o + n → lookup (id j) t.tiles ≡ some (blob (hashes j)))
            × (t.leaves ≡ s.leaves)
      unfolding hash_leaf_level Stays
      hash_leaf_level_lem zero o m s le held sound =
          (s, refl, λ j p q. absurd (omega (arith, p, q)), refl)
      hash_leaf_level_lem (suc n) o m s le held sound =
          let (t, run, filled) = leaf_tile_lem m o s (omega (arith, le)) held sound in
          let held' = subst (Numbered (tiles_of tile m)) (sym (filled.2)) held in
          let (u, run', stored, leaves) =
            hash_leaf_level_lem n (o + 1) m t (omega (arith, le)) held'
              (sound_after o s t sound filled) in
          let kept =
            subst (λ p. Keeps t (p.1)) run'
              (hash_leaf_level-Keeps grouped r c height n (o + 1) t) in
          let rest : List Bytes → Exec Tables AuditError (List Range) = λ hs. (do
            cr ← single_root db r c height (o * 2 ^ height) hs
            level ← hash_leaf_level db r c height n (o + 1)
            pure (cr ∷ level)) in
          let last : Range → Exec Tables AuditError (List Range) =
            λ cr. (do level ← hash_leaf_level db r c height n (o + 1); pure (cr ∷ level)) in
          (
            u,
            step (leaf_tile db r c height o) rest s t (hashes o) run
                ∙ step (single_root db r c height (o * 2 ^ height) (hashes o)) last t t (root o)
                    (single_root_lem o t)
                ∙ step (hash_leaf_level db r c height n (o + 1)) (λ level. pure (root o ∷ level)) t
                    u (roots n (o + 1)) run',
            λ j p q. elim (Bool-cases (ltb o j)) [
              | inl above ↦ stored j (ground (arith, above)) (omega (arith, q))
              | inr here ↦
                  let same : j ≡ o = ground (arith, here, p) in
                  first_stored o j u same (kept_tile (id o) (blob (hashes o)) t u kept (filled.0))
            ],
            leaves ∙ filled.2,
          )

      -- On tables in memory that hold the leaves of `m` whole tiles, whose stored tiles of leaf
      -- hashes are those of their leaves, and where record hashes have 32 bytes and those of a tile
      -- make a range with one hash, the level of the first `n` tiles is hashed without an error,
      -- each of them is then read back with the record hashes of its leaves, and the leaves are as
      -- they were.
      pub hash_leaf_level-get_tile :
          (n m : ℕ) (s : Tables)
          → n ≤ m
          → Numbered (tiles_of tile m) s.leaves
          → AreSound s
          → (t : Tables) × (hash_leaf_level db r c height n 0 s ≡ (ok (roots n 0), t))
            × ((j : ℕ) → j < n → get_tile db height 0 j t ≡ (ok (hashes j), t))
            × (t.leaves ≡ s.leaves)
      hash_leaf_level-get_tile n m s le held sound =
          let (t, run, stored, leaves) =
            hash_leaf_level_lem n 0 m s (omega (arith, le)) held sound in
          (
            t,
            run,
            λ j lt.
                get_tile_lem grouped height 0 j (hashes j) t (width j) (AreHashes-map (tile j))
                  (stored j (omega arith) (omega (arith, lt))),
            leaves,
          )
