-- ===== src/Clone/Verify/Tests.antt =====
-- A cloned log of two leaves in memory.
use trillian_serverless.Base.{
  ℕ, ℕ_discrete, zero, suc, ◌-◌, ◌≤◌, ◌<◌, ◌≡◌, refl, sym, ◌∙◌, ap, String, List, [], ◌∷◌, ◌++◌,
  Bytes, none, Result, ok, err, ok-injective, ok-ne-err, length, take, drop, arith, ◌⊎◌,
}
use trillian_serverless.Base.Dict.{lookup}
use trillian_serverless.Formats.{Hashes}
use trillian_serverless.Clone.Cloner.{other}
use trillian_serverless.Clone.Database.{
  nat_eq, Sql, Tables, tables, max_key, or_zero, write_checkpoint, get_latest_checkpoint,
  write_leaves, stream_leaves, head,
}
use trillian_serverless.Clone.Database.Rows.{Numbered, last_or_none, write_leaves-stream_leaves}
use trillian_serverless.Clone.Database.Checkpoints.{write_checkpoint-get_latest_checkpoint}
use trillian_serverless.Clone.Verify.{Ranges, LeafHashFn, append_leaves, merkle_root}
use trillian_serverless.Clone.Verify.Laws.{range_of, root_of, merkle_root-root_of}

-- Only ranges of one hash are encoded.
abbrev encode : Hashes → Result String Bytes
encode (h ∷ []) = ok h
encode _ = err "encode"

abbrev decode : Bytes → Result String Hashes
decode b = ok (b ∷ [])

abbrev db : Sql
db = tables encode decode

abbrev two_leaves : List Bytes
two_leaves = (7 ∷ []) ∷ (8 ∷ []) ∷ []

abbrev cloned : Tables
cloned = record {
  leaves = (0, 7 ∷ []) ∷ (1, 8 ∷ []) ∷ [];
  checkpoints = (1, (5 ∷ [], 7 ∷ [])) ∷ [];
}

-- A range is the list of its leaf hashes; its root is their number.
abbrev toy : Ranges Hashes
toy = record {
  compact = record {
    new_range = λ b e hs. ok hs;
    get_root_hash = λ r. ok (length r ∷ []);
    append_range = λ r d. (r ++ d, ok tt);
    hashes = λ r. r;
  };
  new_empty_range = λ n. [];
  append = λ r h. r ++ h ∷ [];
}

abbrev plain : LeafHashFn
plain i leaf = leaf

cloned-Numbered : Numbered two_leaves cloned.leaves
unfolding lookup ℕ_discrete
cloned-Numbered zero = refl
cloned-Numbered (suc zero) = refl
cloned-Numbered (suc (suc i)) = ground arith

latest : get_latest_checkpoint db cloned ≡ ok (1, 5 ∷ [], (7 ∷ []) ∷ [])
unfolding get_latest_checkpoint max_key lookup ℕ_discrete
latest = refl

latest-range :
    (n : ℕ) (cp : Bytes) (range : Hashes)
    → get_latest_checkpoint db cloned ≡ ok (n, cp, range)
    → range ≡ range_of encode decode plain toy two_leaves n
unfolding append_leaves
latest-range n cp range h =
    let p = ok-injective (n, cp, range) (1, 5 ∷ [], (7 ∷ []) ∷ []) (sym h ∙ latest) in
    ap (λ x. x.2) p
    ∙ ap (λ k. range_of encode decode plain toy two_leaves k) (ap (λ x. x.0) (sym p))

merkle_root-root_of_example :
    merkle_root db plain toy 2 cloned ≡ root_of encode decode plain toy two_leaves 2
merkle_root-root_of_example =
    merkle_root-root_of encode decode plain toy two_leaves cloned 2 cloned-Numbered (omega arith)
      (λ n. refl) (λ e h. ok-ne-err (1, 5 ∷ [], (7 ∷ []) ∷ []) (other e) (sym latest ∙ h))
      latest-range

rooted : root_of encode decode plain toy two_leaves 2 ≡ ok (2 ∷ [], two_leaves)
unfolding append_leaves
rooted = refl

write_leaves-stream_leaves_example :
    (t : Tables) × (write_leaves db 2 ((9 ∷ []) ∷ []) cloned ≡ ok t)
    × Numbered (two_leaves ++ (9 ∷ []) ∷ []) t.leaves
    × (head db t ≡ last_or_none (two_leaves ++ (9 ∷ []) ∷ []))
    × ((start end : ℕ)
        → start ≤ end
        → end ≤ length (two_leaves ++ (9 ∷ []) ∷ [])
        → stream_leaves db start end t
          ≡ (take (end - start) (drop start (two_leaves ++ (9 ∷ []) ∷ [])), none))
    × (t.checkpoints ≡ cloned.checkpoints)
write_leaves-stream_leaves_example =
    write_leaves-stream_leaves encode decode two_leaves ((9 ∷ []) ∷ []) cloned cloned-Numbered

write_checkpoint-get_latest_checkpoint_example :
    ((2 ≤ or_zero (max_key cloned.checkpoints))
      × (write_checkpoint db 2 (6 ∷ []) ((8 ∷ []) ∷ []) cloned ≡ ok cloned))
    ⊎ ((or_zero (max_key cloned.checkpoints) < 2)
        × ((t : Tables) × (write_checkpoint db 2 (6 ∷ []) ((8 ∷ []) ∷ []) cloned ≡ ok t)
            × (get_latest_checkpoint db t ≡ ok (2, 6 ∷ [], (8 ∷ []) ∷ []))
            × (t.leaves ≡ cloned.leaves)))
write_checkpoint-get_latest_checkpoint_example =
    write_checkpoint-get_latest_checkpoint encode decode 2 (6 ∷ []) ((8 ∷ []) ∷ []) (8 ∷ []) cloned
      refl refl
