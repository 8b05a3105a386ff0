-- ===== src/Serverless/Gcs/Laws.antt =====
-- Sequencing into a bucket that other sequencers write to.
use trillian_serverless.Base.{
  ℕ, zero, suc, ◌+◌, ◌≡◌, sym, ◌∙◌, ap, subst, ◌≢◌, inl, inr, Option-cases, [], ◌∷◌, Bytes,
  bytes_eq, Option, none, some, Result, ok, err, or_fail, ok-injective, arith,
}
use trillian_serverless.Base.Dict.{Dict, lookup, insert, lookup-insert}
use trillian_serverless.Base.Exec.{Exec, lift, ◌>>=◌}
use trillian_serverless.Std.Numbers.{format_uint, parse_uint}
use trillian_serverless.Std.Paths.{join_path}
use trillian_serverless.Serverless.Layout.Paths.{seq_path, leaf_path}
use trillian_serverless.Serverless.Storage.{StorageError, dupe_leaf, failed, seq_file, path_error}
use trillian_serverless.Serverless.Gcs.{
  GcsError, object_not_exist, precondition_failed, Bucket, Client, take_number, record_hash,
  sequence_object, sequence,
}

abbrev pub Objects : Type 0
Objects = Dict Bytes Bytes

abbrev pub exists : Option Bytes → Result GcsError (Unit {0})
exists none = err object_not_exist
exists (some _) = ok tt

abbrev or_missing : Option Bytes → Result GcsError Bytes
or_missing none = err object_not_exist
or_missing (some b) = ok b

abbrev pub put_new : Bytes → Bytes → Objects → Option Bytes → Result GcsError (Unit {0}) × Objects
put_new p b d none = (ok tt, insert p b d)
put_new p b d (some _) = (err precondition_failed, d)

-- A bucket in memory. After each look at an object's attributes, other sequencers have made their
-- changes.
abbrev pub in_memory : (Objects → Objects) → Bucket
in_memory others = record {
  State = Objects;
  read = λ p d. (or_missing (lookup p d), d);
  attrs = λ p d. (exists (lookup p d), others d);
  write_new = λ p b d. put_new p b d (lookup p d);
  write = λ p b d. (ok tt, insert p b d);
}

-- All objects but this one are still there, as they were.
abbrev pub Kept : Bytes → Objects → Objects → Type 0
Kept leaf_object d e = (p b : Bytes) → p ≢ leaf_object → lookup p d ≡ some b → lookup p e ≡ some b

-- The number was free, and now has the leaf; the object of the leaf hash has the number.
abbrev pub Entered : Bytes → Bytes → Objects → Objects → Result StorageError ℕ → Type 0
Entered leaf_object leaf d e (err _) = Unit {0}
Entered leaf_object leaf d e (ok n) =
    (lookup (seq_file [] n) d ≡ none)
    × (lookup (seq_file [] n) e ≡ some leaf)
    × (lookup leaf_object e ≡ some (format_uint 16 n))

not_before :
    (lo p : Bytes) (d e : Objects) → Kept lo d e → p ≢ lo → lookup p e ≡ none → lookup p d ≡ none
not_before lo p d e kept ne gone = elim (Option-cases (lookup p d)) [
  | inl free ↦ free
  | inr (b, there) ↦ absurd (cc (kept p b ne there, gone))
]

-- An earlier bucket, of which all was kept.
Entered-before :
    (lo leaf : Bytes) (c d e : Objects) (r : Result StorageError ℕ)
    → ((n : ℕ) → seq_file [] n ≢ lo)
    → Kept lo c d
    → Entered lo leaf d e r
    → Entered lo leaf c e r
Entered-before lo leaf c d e (err _) apart kept h = tt
Entered-before lo leaf c d e (ok n) apart kept (free, entry, hash) =
    (not_before lo (seq_file [] n) c d kept (apart n) free, entry, hash)

Kept-next : (lo : Bytes) (c d e : Objects) → Kept lo c d → Kept lo d e → Kept lo c e
Kept-next lo c d e h k p b ne there = k p b ne (h p b ne there)

-- The two objects that a leaf gets.
entry_written :
    (lo leaf hash_text sf : Bytes) (d : Objects)
    → sf ≢ lo
    → lookup sf d ≡ none
    → let e = insert lo hash_text (insert sf leaf d) in
      Kept lo d e × (lookup sf e ≡ some leaf) × (lookup lo e ≡ some hash_text)
entry_written lo leaf hash_text sf d ne free = (
  λ p b other there.
      rw (lookup-insert p lo hash_text (insert sf leaf d))
        (rw (lookup-insert p sf leaf d) (ground (arith, other, there, free))),
  rw (lookup-insert sf lo hash_text (insert sf leaf d))
      (rw (lookup-insert sf sf leaf d) (ground (arith, ne))),
  rw (lookup-insert lo lo hash_text (insert sf leaf d)) (ground arith),
)

module _ (others : Objects → Objects) (lo leaf : Bytes) (apart : (n : ℕ) → seq_file [] n ≢ lo)
    (kind : (d : Objects) → Kept lo d (others d)) where
  abbrev B : Bucket
  B = in_memory others

  abbrev Done : Objects → Result StorageError ℕ × Client B → Type 0
  Done d x = Kept lo d ((x.1).bucket) × Entered lo leaf d ((x.1).bucket) (x.0)

  -- What was done to a bucket that the others left was done to the bucket before.
  Done-before : (d : Objects) (x : Result StorageError ℕ × Client B) → Done (others d) x → Done d x
  Done-before d x (kept, entered) = (
    Kept-next lo d (others d) ((x.1).bucket) (kind d) kept,
    Entered-before lo leaf d (others d) ((x.1).bucket) (x.0) apart (kind d) entered,
  )

  -- The loop's turn once the entry is written, or not.
  abbrev after_write :
      ℕ → Client B → Result GcsError (Unit {0}) × Objects → Result StorageError ℕ × Client B
  after_write fuel s w = elim (w.0) [
    | ok _ ↦ record_hash B lo s.next_seq (record s { bucket = w.1 })
    | err precondition_failed ↦
        take_number B fuel lo leaf (record s { bucket = w.1; next_seq = s.next_seq + 1 })
    | err _ ↦ (err (failed "couldn't close writer for object"), record s { bucket = w.1 })
  ]

  take_number_lem : (fuel : ℕ) (s : Client B) → Done s.bucket (take_number B fuel lo leaf s)
  unfolding take_number record_hash
  take_number_lem zero s = (λ p b ne h. h, tt)
  take_number_lem (suc fuel) s =
      let sf = seq_file [] s.next_seq in
      let d = s.bucket in
      elim (Option-cases (lookup sf d)) [
        | inr (x, used) ↦
            let again : Client B = record s { bucket = others d; next_seq = s.next_seq + 1 } in
            rw (used, take_number)
              (Done-before d (take_number B fuel lo leaf again) (take_number_lem fuel again))
        | inl free ↦ elim (Option-cases (lookup sf (others d))) [
          | inr (x, raced) ↦
              let again : Client B = record s { bucket = others d; next_seq = s.next_seq + 1 } in
              let written = ap (put_new sf leaf (others d)) raced in
              rw (free, take_number)
                (subst (λ w. Done d (after_write fuel s w)) (sym written)
                  (Done-before d (take_number B fuel lo leaf again) (take_number_lem fuel again)))
          | inl still ↦
              let written = ap (put_new sf leaf (others d)) still in
              let (kept, entry, hash) =
                entry_written lo leaf (format_uint 16 s.next_seq) sf (others d) (apart s.next_seq)
                  still in
              rw (free, take_number)
                (subst (λ w. Done d (after_write fuel s w)) (sym written)
                  (Kept-next lo d (others d) _ (kind d) kept, (free, entry, hash)))
        ]
      ]

  no_entry :
      (d : Objects) (o : Option ℕ)
      → Entered lo leaf d d (elim o [
        | none ↦ err (failed "parsing \"\": invalid syntax")
        | some orig ↦ err (dupe_leaf orig)
      ])
  no_entry d none = tt
  no_entry d (some orig) = tt

  sequence_object_lem : (fuel : ℕ) (s : Client B) → Done s.bucket (sequence_object B fuel lo leaf s)
  unfolding sequence_object
  sequence_object_lem fuel s = elim (Option-cases (lookup lo s.bucket)) [
    | inl vacant ↦ rw (vacant, sequence_object) (take_number_lem fuel s)
    | inr (x, there) ↦
        rw (there, sequence_object) ((λ p b ne h. h), no_entry s.bucket (parse_uint 16 64 x))
  ]

abbrev first_byte : Bytes → ℕ
first_byte [] = 0
first_byte (c ∷ _) = c

-- The objects of entries and of leaf hashes differ in their first letter.
apart_lem :
    (n : ℕ) (leafhash : Bytes) (path : Bytes × Bytes)
    → leaf_path [] leafhash ≡ ok path
    → seq_file [] n ≢ join_path (path.0 ∷ path.1 ∷ [])
unfolding seq_path leaf_path join_path
apart_lem n (a ∷ b ∷ c ∷ rest) path e h =
    let same = ap (λ q. first_byte (join_path (q.0 ∷ q.1 ∷ []))) (ok-injective _ path e) in
    let letters : 115 ≡ 108 = ap first_byte h ∙ sym same in omega (arith, letters)
apart_lem n [] path e h = absurd (cc e)
apart_lem n (a ∷ []) path e h = absurd (cc e)
apart_lem n (a ∷ b ∷ []) path e h = absurd (cc e)

-- While other sequencers write to the same bucket in memory, and as long as they leave all objects
-- but that of the leaf's hash as they are: a call of Sequence leaves them so, too, and if it
-- returns a number, then the number was free before, its object has the leaf, and the object of the
-- leaf's hash has the number.
pub sequence-Entered :
    (others : Objects → Objects) (fuel : ℕ) (leafhash leaf : Bytes) (path : Bytes × Bytes)
    (s : Client (in_memory others))
    → leaf_path [] leafhash ≡ ok path
    → let leaf_object = join_path (path.0 ∷ path.1 ∷ []) in
      ((d : Objects) → Kept leaf_object d (others d))
      → let (r, t) = sequence (in_memory others) fuel leafhash leaf s in
        Kept leaf_object s.bucket t.bucket × Entered leaf_object leaf s.bucket t.bucket r
unfolding sequence
sequence-Entered others fuel leafhash leaf path s e kind =
    let lo = join_path (path.0 ∷ path.1 ∷ []) in
    let B = in_memory others in
    let rest : Bytes × Bytes → Exec (Client B) StorageError ℕ =
      λ p. sequence_object B fuel (join_path (p.0 ∷ p.1 ∷ [])) leaf in
    subst
      (λ x.
        let (r, t) = (lift (or_fail x path_error) >>= rest) s in
        Kept lo s.bucket t.bucket × Entered lo leaf s.bucket t.bucket r)
      (sym e) (sequence_object_lem others lo leaf (λ n. apart_lem n leafhash path e) kind fuel s)
