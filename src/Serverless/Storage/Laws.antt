-- ===== src/Serverless/Storage/Laws.antt =====
-- `Sequence` and `ScanSequenced` on files in memory.
use trillian_serverless.Base.{
  drop_all, drop_cons, ℕ, zero, suc, ◌+◌, ◌-◌, ◌^◌, ◌≤◌, ◌<◌, ◌≡◌, refl, ◌∙◌, ap, subst, List, [],
  ◌∷◌, ◌++◌, Bytes, none, some, ok, err, arith, length, drop, get_elem?, get_elem?-some, bytes_eq,
}
use trillian_serverless.Base.Dict.{lookup, delete, lookup-delete}
use trillian_serverless.Base.Exec.{each_entry, Exec, pure, ◌>>=◌, bind_regroup}
use trillian_serverless.Std.Files.{file, Disk, memory, contents}
use trillian_serverless.Std.Numbers.{format_uint, parse_uint-format_uint}
use trillian_serverless.Std.Paths.{ascii}
use trillian_serverless.Serverless.Layout.Paths.{leaf_path}
use trillian_serverless.Serverless.Storage.{
  StorageError, dupe_leaf, Store, seq_file, pending_file, sequence_new, sequence_hashed, sequence,
  scan_from, scan_sequenced,
}
use trillian_serverless.Serverless.Storage.Names.{
  leaf_file, leaf_file-ne-seq_file, leaf_tmp-ne-seq_file, pending_file-ne-seq_file,
  leaf_file-ne-pending_file, leaf_tmp-ne-pending_file, leaf_tmp-ne-leaf_file,
}
use trillian_serverless.Serverless.Storage.Sequenced.{
  Holds, Holds-free, as_file, lookup_kept, sequenced, sequence_new_lem, sequenced-Holds,
  sequenced-leaf,
}

lookup_gone : (p : Bytes) (d : Disk) → lookup p (delete p d) ≡ none
lookup_gone p d = rw (lookup-delete p p d) (ground arith)

module _ (c : ℕ) (p : Bytes) (a b d : ℕ) (rest : Bytes) where
  abbrev root : Bytes
  root = c ∷ p

  abbrev leafhash : Bytes
  leafhash = a ∷ b ∷ d ∷ rest

  abbrev leaf_fq : Bytes
  leaf_fq = leaf_file root a b d rest

  abbrev at : Disk → ℕ → Store memory
  at disk next = record { files = disk; root_dir = root; next_seq = next }

  sequence-hashed :
      (fuel next : ℕ) (leaf : Bytes) (disk : Disk)
      → sequence memory fuel leafhash leaf (at disk next)
        ≡ sequence_hashed memory fuel leaf_fq leafhash leaf (at disk next)
  unfolding sequence leaf_path
  sequence-hashed fuel next leaf disk = refl

  -- A leaf hash that has a file is not sequenced again.
  sequence-known :
      (fuel n next : ℕ) (leaf : Bytes) (disk : Disk)
      → n < 2 ^ 40
      → lookup leaf_fq disk ≡ some (file (format_uint 16 n))
      → sequence memory fuel leafhash leaf (at disk next) ≡ (err (dupe_leaf n), at disk next)
  unfolding sequence_hashed contents
  sequence-known fuel n next leaf disk lt h =
      sequence-hashed fuel next leaf disk
      ∙ rw (h, sequence_hashed, contents)
          (rw (
            parse_uint-format_uint 16 64 n (omega arith) (omega arith) (omega (arith, lt))
              (omega (arith, lt))))

  sequence-unknown :
      (fuel next : ℕ) (leaf : Bytes) (disk : Disk)
      → lookup leaf_fq disk ≡ none
      → sequence memory fuel leafhash leaf (at disk next)
        ≡ sequence_new memory fuel leaf_fq leafhash leaf (at disk next)
  unfolding sequence_hashed contents
  sequence-unknown fuel next leaf disk h =
      sequence-hashed fuel next leaf disk ∙ rw (h, sequence_hashed, contents)

  -- A leaf that is not there yet, on files that hold the log and no leftovers of this leaf: it gets
  -- the next number and becomes the log's last entry, the temporary files are gone, and any further
  -- call for its hash answers with that number and changes nothing.
  pub sequence-appends :
      (entries : List Bytes) (fuel next : ℕ) (leaf : Bytes) (disk : Disk)
      → a < 256
      → Holds root entries disk
      → length entries < 2 ^ 40
      → next ≤ length entries
      → length entries < next + fuel
      → lookup (pending_file root leafhash) disk ≡ none
      → lookup leaf_fq disk ≡ none
      → lookup (leaf_fq ++ ascii ".tmp") disk ≡ none
      → let n = length entries in
        (after : Disk) × (sequence memory fuel leafhash leaf (at disk next) ≡ (ok n, at after n))
        × Holds root (entries ++ leaf ∷ []) after
        × (lookup (pending_file root leafhash) after ≡ none)
        × (lookup (leaf_fq ++ ascii ".tmp") after ≡ none)
        × ((fuel' next' : ℕ) (leaf' : Bytes)
            → sequence memory fuel' leafhash leaf' (at after next')
              ≡ (err (dupe_leaf n), at after next'))
  sequence-appends entries fuel next leaf disk byte holds small le enough h1 h2 h3 =
      let n = length entries in
      let s = at disk next in
      let seq1 = leaf_file-ne-seq_file c p a b d rest leafhash byte in
      let seq2 = leaf_tmp-ne-seq_file c p a b d rest leafhash byte in
      let seq3 = pending_file-ne-seq_file c p a b d rest leafhash byte in
      let ne1 = leaf_file-ne-pending_file c p a b d rest leafhash byte in
      let ne2 = leaf_tmp-ne-pending_file c p a b d rest leafhash byte in
      let ne3 = leaf_tmp-ne-leaf_file c p a b d rest leafhash byte in
      let after = sequenced root (pending_file root leafhash) leaf_fq leaf n disk in
      (
        after,
        sequence-unknown fuel next leaf disk h2
            ∙ sequence_new_lem leaf_fq leafhash leaf entries s seq1 seq2 seq3 ne1 ne2 ne3 holds
                small fuel le enough h1 h2 h3,
        sequenced-Holds leaf_fq leafhash leaf entries s seq1 seq2 seq3 ne1 ne2 ne3 holds small,
        lookup_gone (pending_file root leafhash) _,
        lookup_kept (leaf_fq ++ ascii ".tmp") (pending_file root leafhash) _ ne2
            ∙ lookup_gone (leaf_fq ++ ascii ".tmp") _,
        λ fuel' next' leaf'.
            sequence-known fuel' n next' leaf' after small (
              sequenced-leaf leaf_fq leafhash leaf entries s seq1 seq2 seq3 ne1 ne2 ne3 holds
                small),
      )

module _ {ℓ} {V : Type ℓ} (f : ℕ → Bytes → Exec V StorageError (Unit {0})) (s : Store memory)
    (entries : List Bytes) (holds : Holds s.root_dir entries s.files)
    (small : length entries < 2 ^ 40) where
  scan_from_end :
      (fuel begin : ℕ) (v : V)
      → scan_from memory (suc fuel) begin f s (length entries) v ≡ (ok (length entries - begin), v)
  unfolding scan_from contents
  scan_from_end fuel begin v =
      rw (Holds-free s.root_dir entries s.files holds small, scan_from, contents)

  scan_from_entry :
      (fuel begin i : ℕ) (b : Bytes) (v : V)
      → i < 2 ^ 40
      → get_elem? entries i ≡ some b
      → scan_from memory (suc fuel) begin f s i v
        ≡ (f i b >>= λ _. scan_from memory fuel begin f s (i + 1)) v
  unfolding scan_from contents
  scan_from_entry fuel begin i b v lt h =
      let found : lookup (seq_file s.root_dir i) s.files ≡ some (file b) =
        holds i lt ∙ ap as_file h in
      rw (found, scan_from, contents)

  scan_from_lem :
      (k fuel begin i : ℕ) (v : V)
      → k + i ≡ length entries
      → k < fuel
      → scan_from memory fuel begin f s i v
        ≡ (each_entry f i (drop i entries) >>= λ _. pure (length entries - begin)) v
  unfolding each_entry
  scan_from_lem k zero begin i v e lt = absurd (omega (arith, lt))
  scan_from_lem zero (suc fuel) begin i v e lt =
      let p : length entries ≡ i = omega (arith, e) in
      subst
        (λ j.
          scan_from memory (suc fuel) begin f s j v
          ≡ (each_entry f j (drop j entries) >>= λ _. pure (length entries - begin)) v)
        p (rw (drop_all entries) (scan_from_end fuel begin v ∙ refl))
  scan_from_lem (suc k) (suc fuel) begin i v e lt =
      let (b, h) = get_elem?-some entries i (omega (arith, e)) in
      rw (drop_cons entries i b h) (
        scan_from_entry fuel begin i b v (omega (arith, e, small)) h
        ∙ (bind_regroup (f i b) (λ _. each_entry f (i + 1) (drop (i + 1) entries))
            (λ _. pure (length entries - begin)) (λ _. scan_from memory fuel begin f s (i + 1)) v
            (λ _ w. scan_from_lem k fuel begin (i + 1) w (omega (arith, e)) (omega (arith, lt)))))

  -- On files that hold the log, with more fuel than there are entries left, the scan calls `f` with
  -- each entry from `begin` on, with its number and in order, up to the first call that fails; if
  -- none does it returns how many there were.
  pub scan_sequenced_lem :
      (fuel begin : ℕ) (v : V)
      → begin ≤ length entries
      → length entries < begin + fuel
      → scan_sequenced memory fuel begin f s v
        ≡ (each_entry f begin (drop begin entries) >>= λ _. pure (length entries - begin)) v
  unfolding scan_sequenced
  scan_sequenced_lem fuel begin v le enough =
      scan_from_lem (length entries - begin) fuel begin begin v (omega (arith, le))
        (omega (arith, le, enough))
