-- ===== src/Serverless/Storage/Steps.antt =====
-- The steps of `Sequence` on files in memory.
use trillian_serverless.Base.{
  ℕ, zero, suc, ◌+◌, ◌≤◌, ◌<◌, ◌≡◌, ◌≢◌, sym, ◌∙◌, subst, false, not, [], ◌++◌, Bytes, none, some,
  ok, err, arith, length, ◌=?◌, bytes_eq, if◌then◌else◌, ◌==◌,
}
use trillian_serverless.Base.Dict.{lookup, insert, delete, lookup-insert}
use trillian_serverless.Std.Files.{exist, Entry, file, Disk, memory, put_new}
use trillian_serverless.Std.Numbers.{format_uint}
use trillian_serverless.Std.Paths.{ascii}
use trillian_serverless.Serverless.Storage.{
  Store, create_exclusive, seq_file, link_hash, record_hash, take_number,
}

-- A new file with these bytes, as `createExclusive` leaves it.
abbrev pub new_file : Bytes → Bytes → Disk → Disk
new_file f b d = insert f (file b) (insert f (file []) d)

pub lookup-new_file :
    (p f b : Bytes) (d : Disk)
    → lookup p (new_file f b d) ≡ (if p =? f then some (file b) else lookup p d)
lookup-new_file p f b d =
    rw (lookup-insert p f (file b) (insert f (file []) d))
      (rw (lookup-insert p f (file []) d) (ground arith))

pub lookup_other :
    (p q : Bytes) (e : Entry) (d : Disk) → p ≢ q → lookup p (insert q e d) ≡ lookup p d
lookup_other p q e d h = rw (lookup-insert p q e d) (ground arith)

pub lookup_self : (p : Bytes) (e : Entry) (d : Disk) → lookup p (insert p e d) ≡ some e
lookup_self p e d = rw (lookup-insert p p e d) (ground arith)

abbrev pub with_files : Store memory → Disk → Store memory
with_files s d = record s { files = d }

length_test : (b : Bytes) → not (length b == length b) ≡ false
length_test b = ground arith

pub create_exclusive_lem :
    (f b : Bytes) (s : Store memory)
    → lookup f s.files ≡ none
    → create_exclusive memory f b s ≡ (ok tt, with_files s (new_file f b s.files))
unfolding create_exclusive put_new
create_exclusive_lem f b s h = rw (h, create_exclusive, put_new) (rw (length_test b))

pub put_new_free :
    (p : Bytes) (e : Entry) (d : Disk)
    → lookup p d ≡ none
    → put_new p (some e) d ≡ (ok tt, insert p e d)
unfolding put_new
put_new_free p e d h = rw (h, put_new)

pub put_new_taken :
    (p : Bytes) (e f : Entry) (d : Disk)
    → lookup p d ≡ some f
    → put_new p (some e) d ≡ (err exist, d)
unfolding put_new
put_new_taken p e f d h = rw (h, put_new)

link_hash_lem :
    (leaf_tmp leaf_fq : Bytes) (seq : ℕ) (e : Entry) (s : Store memory)
    → lookup leaf_tmp s.files ≡ some e
    → lookup leaf_fq s.files ≡ none
    → link_hash memory leaf_tmp leaf_fq seq s ≡ (ok seq, with_files s (insert leaf_fq e s.files))
unfolding link_hash
link_hash_lem leaf_tmp leaf_fq seq e s h k =
    rw (h, link_hash) (rw (put_new_free leaf_fq e s.files k))

module _ (leaf_fq : Bytes) where
  abbrev pub tmp_of : Bytes
  tmp_of = leaf_fq ++ ascii ".tmp"

  pub record_hash_lem :
      (seq : ℕ) (s : Store memory)
      → tmp_of ≢ leaf_fq
      → lookup tmp_of s.files ≡ none
      → lookup leaf_fq s.files ≡ none
      → record_hash memory leaf_fq seq s ≡ (
        ok seq,
        with_files s (
            delete tmp_of (
              insert leaf_fq
                (file (format_uint 16 seq))
                (new_file tmp_of (format_uint 16 seq) s.files))),
      )
  unfolding record_hash
  record_hash_lem seq s ne h k =
      let t = new_file tmp_of (format_uint 16 seq) s.files in
      let found : lookup tmp_of t ≡ some (file (format_uint 16 seq)) = lookup_self tmp_of _ _ in
      let free : lookup leaf_fq t ≡ none =
        lookup_other leaf_fq tmp_of _ _ (λ e. ne (sym e))
        ∙ (lookup_other leaf_fq tmp_of _ _ (λ e. ne (sym e)) ∙ k) in
      rw (create_exclusive_lem tmp_of (format_uint 16 seq) s h, record_hash)
        (rw (link_hash_lem tmp_of leaf_fq seq _ (with_files s t) found free))

  -- A number that is taken, and one that is free.
  take_number_taken :
      (fuel : ℕ) (tmp : Bytes) (e f : Entry) (s : Store memory)
      → lookup tmp s.files ≡ some e
      → lookup (seq_file s.root_dir s.next_seq) s.files ≡ some f
      → take_number memory (suc fuel) tmp leaf_fq s
        ≡ take_number memory fuel tmp leaf_fq (record s { next_seq = s.next_seq + 1 })
  unfolding take_number
  take_number_taken fuel tmp e f s h k =
      let link : put_new (seq_file s.root_dir s.next_seq) (lookup tmp s.files) s.files
          ≡ (err exist, s.files) =
        rw h (put_new_taken (seq_file s.root_dir s.next_seq) e f s.files k) in
      rw (link, take_number) (rw link)

  take_number_free :
      (fuel : ℕ) (tmp : Bytes) (e : Entry) (s : Store memory)
      → lookup tmp s.files ≡ some e
      → lookup (seq_file s.root_dir s.next_seq) s.files ≡ none
      → take_number memory (suc fuel) tmp leaf_fq s
        ≡ record_hash memory leaf_fq s.next_seq
            (with_files s (insert (seq_file s.root_dir s.next_seq) e s.files))
  unfolding take_number
  take_number_free fuel tmp e s h k =
      let link : put_new (seq_file s.root_dir s.next_seq) (lookup tmp s.files) s.files
          ≡ (ok tt, insert (seq_file s.root_dir s.next_seq) e s.files) =
        rw h (put_new_free (seq_file s.root_dir s.next_seq) e s.files k) in
      rw (link, take_number) (rw link)

  -- With enough fuel the loop takes the first number that is free.
  pub take_number_lem :
      (k fuel : ℕ) (tmp : Bytes) (e : Entry) (s : Store memory)
      → k < fuel
      → lookup tmp s.files ≡ some e
      → ((i : ℕ)
          → s.next_seq ≤ i
          → i < s.next_seq + k
          → (f : Entry) × (lookup (seq_file s.root_dir i) s.files ≡ some f))
      → lookup (seq_file s.root_dir (s.next_seq + k)) s.files ≡ none
      → take_number memory fuel tmp leaf_fq s
        ≡ record_hash memory leaf_fq (s.next_seq + k) (record s {
          files = insert (seq_file s.root_dir (s.next_seq + k)) e s.files;
          next_seq = s.next_seq + k;
        })
  take_number_lem k zero tmp e s lt h taken free = absurd (omega (arith, lt))
  take_number_lem zero (suc fuel) tmp e s lt h taken free =
      let p : s.next_seq + 0 ≡ s.next_seq = omega arith in
      rw p (
        take_number_free fuel tmp e s h
          (subst (λ n. lookup (seq_file s.root_dir n) s.files ≡ none) p free))
  take_number_lem (suc k) (suc fuel) tmp e s lt h taken free =
      let p : s.next_seq + 1 + k ≡ s.next_seq + suc k = omega arith in
      let (f, here) = taken s.next_seq (omega arith) (omega arith) in
      take_number_taken fuel tmp e f s h here
      ∙ subst
          (λ n.
            take_number memory fuel tmp leaf_fq (record s { next_seq = s.next_seq + 1 })
            ≡ record_hash memory leaf_fq n
                (record s { files = insert (seq_file s.root_dir n) e s.files; next_seq = n }))
          p
          (take_number_lem k fuel tmp e (record s { next_seq = s.next_seq + 1 }) (omega (arith, lt))
            h (λ i lo hi. taken i (omega (arith, lo)) (omega (arith, hi)))
            (subst (λ n. lookup (seq_file s.root_dir n) s.files ≡ none) (sym p) free))
