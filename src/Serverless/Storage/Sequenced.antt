-- ===== src/Serverless/Storage/Sequenced.antt =====
-- What `Sequence` does on files in memory.
use trillian_serverless.Base.{
  ℕ, ◌+◌, ◌-◌, ◌^◌, ◌≤◌, ◌<◌, ◌≡◌, ◌≢◌, sym, ◌∙◌, ap, subst, inl, inr, List, [], ◌∷◌, ◌++◌, Bytes,
  Option, none, some, ok, arith, length, length-append, get_elem?, get_elem?-some, get_elem?-ge,
  get_elem?-append_left, get_elem?-append_last, ◌=?◌, bytes_eq, if◌then◌else◌, ltb, ◌==◌,
  Bool-cases, ==_iff,
}
use trillian_serverless.Base.Dict.{lookup, insert, delete, lookup-insert, lookup-delete}
use trillian_serverless.Std.Files.{Entry, file, Disk, memory}
use trillian_serverless.Std.Numbers.{format_uint}
use trillian_serverless.Serverless.Storage.Names.{seq_file-injective}
use trillian_serverless.Serverless.Storage.{
  Store, seq_file, pending_file, record_hash, take_number, sequence_new,
}
use trillian_serverless.Serverless.Storage.Steps.{
  new_file, lookup-new_file, tmp_of, lookup_other, lookup_self, with_files, create_exclusive_lem,
  record_hash_lem, take_number_lem,
}

abbrev pub as_file : Option Bytes → Option Entry
as_file none = none
as_file (some b) = some (file b)

-- The entries of a log are in the files: entry `i` in the file of `i`, and in no other such file.
abbrev pub Holds : Bytes → List Bytes → Disk → Type 0
Holds root entries d =
    (i : ℕ) → i < 2 ^ 40 → lookup (seq_file root i) d ≡ as_file (get_elem? entries i)

Holds-taken :
    (root : Bytes) (entries : List Bytes) (d : Disk) (i : ℕ)
    → Holds root entries d
    → length entries < 2 ^ 40
    → i < length entries
    → (f : Entry) × (lookup (seq_file root i) d ≡ some f)
Holds-taken root entries d i h small lt =
    let (b, e) = get_elem?-some entries i lt in
    (file b, h i (omega (arith, small, lt)) ∙ ap as_file e)

pub Holds-free :
    (root : Bytes) (entries : List Bytes) (d : Disk)
    → Holds root entries d
    → length entries < 2 ^ 40
    → lookup (seq_file root (length entries)) d ≡ none
Holds-free root entries d h small =
    h (length entries) small ∙ ap as_file (get_elem?-ge entries (length entries) (omega arith))

pub lookup_beside : (p f b : Bytes) (d : Disk) → p ≢ f → lookup p (new_file f b d) ≡ lookup p d
lookup_beside p f b d h = rw (lookup-new_file p f b d) (ground arith)

pub lookup_kept : (p q : Bytes) (d : Disk) → p ≢ q → lookup p (delete q d) ≡ lookup p d
lookup_kept p q d h = rw (lookup-delete p q d) (ground arith)

if_same {ℓ} : {A : Type ℓ} (p q : Bytes) (x y : A) → p ≡ q → (if p =? q then x else y) ≡ x
if_same p q x y e = ground arith

if_other {ℓ} : {A : Type ℓ} (p q : Bytes) (x y : A) → p ≢ q → (if p =? q then x else y) ≡ y
if_other p q x y e = ground arith

get_elem?-beside :
    (l : List Bytes) (x : Bytes) (i : ℕ) → i ≢ length l → get_elem? (l ++ x ∷ []) i ≡ get_elem? l i
get_elem?-beside l x i ne = elim (Bool-cases (ltb i (length l))) [
  | inl below ↦ get_elem?-append_left l (x ∷ []) i (ground arith)
  | inr above ↦
      get_elem?-ge (l ++ x ∷ []) i (ground (arith, length-append l (x ∷ [])))
      ∙ sym (get_elem?-ge l i (ground arith))
]

-- The files after a new leaf is sequenced.
abbrev pub sequenced : Bytes → Bytes → Bytes → Bytes → ℕ → Disk → Disk
sequenced root tmp leaf_fq leaf n d = delete tmp (
    delete (tmp_of leaf_fq) (
      insert leaf_fq (file (format_uint 16 n)) (
        new_file (tmp_of leaf_fq) (format_uint 16 n)
          (insert (seq_file root n) (file leaf) (new_file tmp leaf d)))))

module _ (leaf_fq leafhash leaf : Bytes) (entries : List Bytes) (s : Store memory)
    (leaf-ne-seq : (i : ℕ) → leaf_fq ≢ seq_file s.root_dir i)
    (leaf_tmp-ne-seq : (i : ℕ) → tmp_of leaf_fq ≢ seq_file s.root_dir i)
    (tmp-ne-seq : (i : ℕ) → pending_file s.root_dir leafhash ≢ seq_file s.root_dir i)
    (leaf-ne-tmp : leaf_fq ≢ pending_file s.root_dir leafhash)
    (leaf_tmp-ne-tmp : tmp_of leaf_fq ≢ pending_file s.root_dir leafhash)
    (leaf_tmp-ne-leaf : tmp_of leaf_fq ≢ leaf_fq) where
  abbrev tmp : Bytes
  tmp = pending_file s.root_dir leafhash

  abbrev root : Bytes
  root = s.root_dir

  seq-ne : (p : Bytes) (i : ℕ) → p ≢ seq_file root i → seq_file root i ≢ p
  seq-ne p i h e = h (sym e)

  module _ (holds : Holds root entries s.files) (small : length entries < 2 ^ 40) where
    abbrev with_tmp : Store memory
    with_tmp = with_files s (new_file tmp leaf s.files)

    abbrev numbered : ℕ → Store memory
    numbered n = record s {
      files = insert (seq_file root n) (file leaf) (new_file tmp leaf s.files);
      next_seq = n;
    }

    take_next :
        (fuel : ℕ)
        → s.next_seq ≤ length entries
        → length entries < s.next_seq + fuel
        → take_number memory fuel tmp leaf_fq with_tmp
          ≡ record_hash memory leaf_fq (length entries) (numbered (length entries))
    take_next fuel le enough =
        let k = length entries - s.next_seq in
        let e : s.next_seq + k ≡ length entries = omega (arith, le) in
        subst
          (λ n.
            take_number memory fuel tmp leaf_fq with_tmp
            ≡ record_hash memory leaf_fq n (numbered n))
          e
          (take_number_lem leaf_fq k fuel tmp (file leaf) with_tmp (omega (arith, le, enough))
            (lookup_self tmp _ _)
            (λ i lo hi.
              let (f, h) = Holds-taken root entries s.files i holds small (omega (arith, hi, e)) in
              (
                f,
                lookup_beside (seq_file root i) tmp leaf s.files (seq-ne tmp i (tmp-ne-seq i)) ∙ h,
              ))
            (subst (λ n. lookup (seq_file root n) with_tmp.files ≡ none) (sym e)
              (lookup_beside _ tmp leaf s.files (seq-ne tmp _ (tmp-ne-seq _))
                ∙ Holds-free root entries s.files holds small)))

    pub sequence_new_lem :
        (fuel : ℕ)
        → s.next_seq ≤ length entries
        → length entries < s.next_seq + fuel
        → lookup tmp s.files ≡ none
        → lookup leaf_fq s.files ≡ none
        → lookup (tmp_of leaf_fq) s.files ≡ none
        → sequence_new memory fuel leaf_fq leafhash leaf s ≡ (
          ok (length entries),
          record s {
            files = sequenced root tmp leaf_fq leaf (length entries) s.files;
            next_seq = length entries;
          },
        )
    unfolding sequence_new
    sequence_new_lem fuel le enough h1 h2 h3 =
        let n = length entries in
        let free_tmp : lookup (tmp_of leaf_fq) (numbered n).files ≡ none =
          lookup_other _ _ _ _ (leaf_tmp-ne-seq n)
          ∙ (lookup_beside _ tmp leaf s.files leaf_tmp-ne-tmp ∙ h3) in
        let free : lookup leaf_fq (numbered n).files ≡ none =
          lookup_other _ _ _ _ (leaf-ne-seq n)
          ∙ (lookup_beside _ tmp leaf s.files leaf-ne-tmp ∙ h2) in
        rw (create_exclusive_lem tmp leaf s h1, sequence_new)
          (rw (take_next fuel le enough)
            (rw (record_hash_lem leaf_fq n (numbered n) leaf_tmp-ne-leaf free_tmp free)))

    sequenced-seq :
        (i : ℕ)
        → lookup (seq_file root i) (sequenced root tmp leaf_fq leaf (length entries) s.files) ≡ (
            if seq_file root i =? seq_file root (length entries)
            then some (file leaf)
            else lookup (seq_file root i) s.files)
    sequenced-seq i =
        let n = length entries in
        let q = seq_file root i in
        let e = file (format_uint 16 n) in
        lookup_kept q tmp _ (seq-ne tmp i (tmp-ne-seq i))
        ∙ (lookup_kept q (tmp_of leaf_fq) _ (seq-ne (tmp_of leaf_fq) i (leaf_tmp-ne-seq i))
            ∙ (lookup_other q leaf_fq e _ (seq-ne leaf_fq i (leaf-ne-seq i))
                ∙ (lookup_beside q (tmp_of leaf_fq) (format_uint 16 n) _
                      (seq-ne (tmp_of leaf_fq) i (leaf_tmp-ne-seq i))
                    ∙ (lookup-insert q (seq_file root n) (file leaf) (new_file tmp leaf s.files)
                        ∙ ap (λ x. if q =? seq_file root n then some (file leaf) else x)
                            (lookup_beside q tmp leaf s.files (seq-ne tmp i (tmp-ne-seq i)))))))

    pub sequenced-Holds :
        Holds root (entries ++ leaf ∷ []) (sequenced root tmp leaf_fq leaf (length entries) s.files)
    sequenced-Holds i lt = sequenced-seq i ∙ elim (Bool-cases (i == length entries)) [
      | inl last ↦
          let e : i ≡ length entries = (==_iff i (length entries)).0 last in
          if_same (seq_file root i) (seq_file root (length entries)) _ _ (ap (seq_file root) e)
          ∙ sym (ap as_file (get_elem?-append_last entries leaf i e))
      | inr other ↦
          let ne : i ≢ length entries = λ e. ground arith in
          if_other (seq_file root i) (seq_file root (length entries)) _ _
            (λ e. ne (seq_file-injective root i (length entries) lt small e))
          ∙ (holds i lt ∙ ap as_file (sym (get_elem?-beside entries leaf i ne)))
    ]

    pub sequenced-leaf :
        lookup leaf_fq (sequenced root tmp leaf_fq leaf (length entries) s.files)
        ≡ some (file (format_uint 16 (length entries)))
    sequenced-leaf =
        lookup_kept leaf_fq tmp _ leaf-ne-tmp
        ∙ (lookup_kept leaf_fq (tmp_of leaf_fq) _ (λ e. leaf_tmp-ne-leaf (sym e))
            ∙ lookup_self leaf_fq _ _)
