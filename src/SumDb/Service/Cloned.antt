-- ===== src/SumDb/Service/Cloned.antt =====
-- The leaves that are cloned, on tables in memory.
use native.Mathlib.Nat.{mul-div_left, le-div_iff_mul-le, add-mul-div_left, mul_comm}
use trillian_serverless.Base.{
  ℕ, zero, suc, ◌+◌, ◌-◌, ◌*◌, ◌/◌, ◌^◌, ◌≤◌, ◌<◌, ◌≡◌, refl, sym, ◌∙◌, ap, subst, false, List, [],
  ◌∷◌, Bytes, Option, ok, length, arith,
}
use trillian_serverless.Base.Dict.{Dict}
use trillian_serverless.Base.Exec.{Exec, guard, recast, step, ◌>>◌}
use trillian_serverless.Clone.Database.{nat_eq, insert_new}
use trillian_serverless.Clone.Database.Rows.{
  Numbered, insert_rows, insert_rows-Numbered, last_index, max_key-Numbered,
}
use trillian_serverless.SumDb.Client.{AuditError, failed, Checkpoint, Client, full_leaves_at_offset}
use trillian_serverless.SumDb.Database.{
  Metadata, Duplicate, Sql, Tables, tables, insert_leaves, write_leaves, head,
}
use trillian_serverless.SumDb.Service.{Ranges, or_none, wrapped}
use trillian_serverless.SumDb.Service.Levels.{pow_pos}
use trillian_serverless.SumDb.Service.Slices.{tiles_of, length-tiles_of}
use trillian_serverless.SumDb.Service.Sync.{local_leaves, beyond, clone_chunks, clone_leaf_tiles}

module _ (grouped : Dict ℕ Metadata → List Duplicate) {Range : Type 0} (r : Ranges Range)
    (c : Client) (height : ℕ) where
  abbrev db : Sql
  db = tables grouped

  insert_leaves-insert_rows :
      (ls : List Bytes) (i : ℕ) (s : Tables)
      → insert_leaves db i ls s ≡ record s { leaves = insert_rows i ls s.leaves }
  unfolding insert_leaves insert_rows
  insert_leaves-insert_rows [] i s = refl
  insert_leaves-insert_rows (l ∷ ls) i s =
      insert_leaves-insert_rows ls (i + 1) (record s { leaves = insert_new i l s.leaves })

  -- The rows that are held now: these tiles, and all else as it was.
  abbrev pub Holds : (ℕ → List Bytes) → ℕ → Tables → Tables → Type 0
  Holds tile n s t =
      Numbered (tiles_of tile n) t.leaves
      × (t.tiles ≡ s.tiles)
      × (t.checkpoints ≡ s.checkpoints)
      × (t.metadata ≡ s.metadata)

  -- `FullLeavesAtOffset` gives whole tiles below a number.
  abbrev pub Serves : (ℕ → List Bytes) → ℕ → Type 0
  Serves tile n =
      ((o : ℕ) → length (tile o) ≡ 2 ^ height)
      × ((o : ℕ) → o < n → full_leaves_at_offset c o ≡ ok (tile o))

  clone_chunks-Holds :
      (tile : ℕ → List Bytes) (n k : ℕ) (s : Tables)
      → Serves tile (k + n)
      → Numbered (tiles_of tile k) s.leaves
      → (t : Tables) × (clone_chunks db r c height n k s ≡ (ok tt, t)) × Holds tile (k + n) s t
  unfolding clone_chunks write_leaves
  clone_chunks-Holds tile zero k s h held =
      let e : k + 0 ≡ k = omega arith in
      (s, refl, (subst (λ m. Numbered (tiles_of tile m) s.leaves) (sym e) held, refl, refl, refl))
  clone_chunks-Holds tile (suc n) k s h held =
      let start = length-tiles_of tile (2 ^ height) k h.0 in
      let fetched = h.1 k (omega arith) in
      let t = record s { leaves = insert_rows (k * 2 ^ height) (tile k) s.leaves } in
      let e : (k + 1) + n ≡ k + suc n = omega arith in
      let e1 : suc k ≡ k + 1 = omega arith in
      let longer = insert_rows-Numbered (tiles_of tile k) (tile k) s.leaves held in
      let held' : Numbered (tiles_of tile (suc k)) t.leaves =
        subst (λ i. Numbered (tiles_of tile (suc k)) (insert_rows i (tile k) s.leaves)) start
          longer in
      let (u, run, kept) =
        clone_chunks-Holds tile n (k + 1) t (subst (Serves tile) (sym e) h)
          (subst (λ m. Numbered (tiles_of tile m) t.leaves) e1 held') in
      (
        u,
        rw (fetched, clone_chunks) (rw (insert_leaves-insert_rows (tile k) (k * 2 ^ height) s) run),
        subst (λ m. Holds tile m s u) e kept,
      )

  local_leaves_lem :
      (n : ℕ) (leaves : List Bytes) → length leaves ≡ n → local_leaves (last_index leaves) ≡ n
  local_leaves_lem n [] e = e
  local_leaves_lem n (l ∷ ls) e = omega (arith, e)

  beyond_lem :
      (size : ℕ) (leaves : List Bytes)
      → length leaves ≤ size
      → beyond (last_index leaves) size ≡ false
  beyond_lem size [] h = refl
  beyond_lem size (l ∷ ls) h = ground (arith, h)

  chunks_lem : (size k w : ℕ) → 0 < w → k * w ≤ size → (size - k * w) / w ≡ size / w - k
  chunks_lem size k w pos fits =
      let e : size - k * w + w * k ≡ size = grind (arith, mul_comm k w) in
      let f = add-mul-div_left (size - k * w) k {y = w} pos in
      let g = sym (ap (λ x. x / w) e) ∙ f in omega (arith, g)

  or_none-head :
      (leaves : List Bytes) (s : Tables)
      → Numbered leaves s.leaves
      → or_none (head db) s ≡ (ok (last_index leaves), s)
  unfolding head
  or_none-head [] s h = rw (max_key-Numbered [] s.leaves h, head, or_none) refl
  or_none-head (l ∷ ls) s h = rw (max_key-Numbered (l ∷ ls) s.leaves h, head, or_none) refl

  -- The chunks that are left after the first tiles.
  clone_leaf_tiles-clone_chunks :
      (tile : ℕ → List Bytes) (k : ℕ) (cp : Checkpoint) (s : Tables)
      → k ≤ cp.size / 2 ^ height
      → length (tiles_of tile k) ≡ k * 2 ^ height
      → Numbered (tiles_of tile k) s.leaves
      → clone_leaf_tiles db r c height cp s
        ≡ clone_chunks db r c height (cp.size / 2 ^ height - k) k s
  unfolding clone_leaf_tiles
  clone_leaf_tiles-clone_chunks tile k cp s le len held =
      let w = 2 ^ height in
      let last = last_index (tiles_of tile k) in
      let pos = pow_pos height in
      let local = local_leaves_lem (k * w) (tiles_of tile k) len in
      let fits : k * w ≤ cp.size = (le-div_iff_mul-le pos).0 le in
      let below = beyond_lem cp.size (tiles_of tile k) (omega (arith, len, fits)) in
      let rest : Option ℕ → Exec Tables AuditError (Unit {0}) = λ last. (do
        guard (beyond last cp.size) (failed "illegal state; more leaves locally than in SumDB")
        clone_chunks db r c height ((cp.size - local_leaves last) / w) (local_leaves last / w)) in
      let found = or_none-head (tiles_of tile k) s held in
      step (recast (or_none (head db)) (wrapped "failed to query for head of local log")) rest s s
        last (rw found refl)
      ∙ rw below (
          rw local (
            ap (λ n. clone_chunks db r c height n (k * w / w) s) (chunks_lem cp.size k w pos fits)
            ∙ ap (λ o. clone_chunks db r c height (cp.size / w - k) o s) (mul-div_left k pos)))

  -- On tables in memory that hold the leaves of the first `k` tiles of a remote log which serves
  -- whole tiles, and for a checkpoint with at least as many, the clone succeeds: the tables hold
  -- the leaves of all the whole tiles of the checkpoint, in order, and all else is as it was.
  pub clone_leaf_tiles-Holds :
      (tile : ℕ → List Bytes) (k : ℕ) (cp : Checkpoint) (s : Tables)
      → k ≤ cp.size / 2 ^ height
      → Serves tile (cp.size / 2 ^ height)
      → Numbered (tiles_of tile k) s.leaves
      → (t : Tables) × (clone_leaf_tiles db r c height cp s ≡ (ok tt, t))
        × Holds tile (cp.size / 2 ^ height) s t
  clone_leaf_tiles-Holds tile k cp s le h held =
      let e : k + (cp.size / 2 ^ height - k) ≡ cp.size / 2 ^ height = omega (arith, le) in
      let len = length-tiles_of tile (2 ^ height) k h.0 in
      let (t, run, kept) =
        clone_chunks-Holds tile (cp.size / 2 ^ height - k) k s (subst (Serves tile) (sym e) h)
          held in
      (
        t,
        clone_leaf_tiles-clone_chunks tile k cp s le len held ∙ run,
        subst (λ m. Holds tile m s t) e kept,
      )
