-- ===== src/Clone/Database/Checkpoints.antt =====
-- The checkpoints in the cloner's database, on tables in memory.
use trillian_serverless.Base.{
  ℕ, ◌≤◌, ◌<◌, ◌≡◌, refl, String, Bytes, Option, none, some, Result, ok, leb, arith, Bool-cases,
  ◌⊎◌, inl, inr,
}
use trillian_serverless.Base.Dict.{Dict, lookup, insert, lookup-insert}
use trillian_serverless.Formats.{Hashes}
use trillian_serverless.Clone.Database.{
  nat_eq, Sql, Tables, tables, max_key, or_zero, write_checkpoint, get_latest_checkpoint,
}
use trillian_serverless.Clone.Database.Rows.{IsMax, max_key-IsMax, max_key-insert, insert_new-free}

module _ (encode : Hashes → Result String Bytes) (decode : Bytes → Result String Hashes) where
  abbrev db : Sql
  db = tables encode decode

  -- A size above the greatest is behind all the rows.
  behind :
      (d : Dict ℕ (Bytes × Bytes)) (o : Option ℕ) (size : ℕ)
      → IsMax d o
      → or_zero o < size
      → (lookup size d ≡ none) × (IsMax d none ⊎ ((m : ℕ) × IsMax d (some m) × (m < size)))
  behind d none size h lt = (h size, inl h)
  behind d (some m) size h lt = (h.1 size lt, inr (m, h, lt))

  -- On tables in memory, for a range that is read back from its encoding: a checkpoint that is not
  -- larger than all that are stored is left out, and nothing changes; a larger one becomes the
  -- latest, with its range, and the leaves are as they were.
  pub write_checkpoint-get_latest_checkpoint :
      (size : ℕ) (cp : Bytes) (range : Hashes) (srs : Bytes) (s : Tables)
      → encode range ≡ ok srs
      → decode srs ≡ ok range
      → ((size ≤ or_zero (max_key s.checkpoints)) × (write_checkpoint db size cp range s ≡ ok s))
        ⊎ ((or_zero (max_key s.checkpoints) < size)
            × ((t : Tables) × (write_checkpoint db size cp range s ≡ ok t)
                × (get_latest_checkpoint db t ≡ ok (size, cp, range))
                × (t.leaves ≡ s.leaves)))
  unfolding write_checkpoint get_latest_checkpoint
  write_checkpoint-get_latest_checkpoint size cp range srs s enc dec =
      elim (Bool-cases (leb size (or_zero (max_key s.checkpoints)))) [
        | inl old ↦ inl (ground (arith, old), rw (old, write_checkpoint) refl)
        | inr new ↦
            let lt : or_zero (max_key s.checkpoints) < size = ground (arith, new) in
            let (free, above) =
              behind s.checkpoints (max_key s.checkpoints) size (max_key-IsMax s.checkpoints) lt in
            let t : Tables = record s { checkpoints = insert size (cp, srs) s.checkpoints } in
            let found : lookup size t.checkpoints ≡ some (cp, srs) =
              rw (lookup-insert size size (cp, srs) s.checkpoints) (ground arith) in
            inr (
              lt,
              (
                t,
                rw (new, write_checkpoint)
                    (rw enc (rw (insert_new-free size (cp, srs) s.checkpoints free) refl)),
                rw (max_key-insert size (cp, srs) s.checkpoints above, get_latest_checkpoint)
                    (rw found (rw dec refl)),
                refl,
              ),
            )
      ]
