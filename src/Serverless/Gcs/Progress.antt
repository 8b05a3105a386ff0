-- ===== src/Serverless/Gcs/Progress.antt =====
-- Sequencing into a bucket that other sequencers write to comes to an end.
use trillian_serverless.Base.{
  ℕ, zero, suc, ◌+◌, ◌<◌, ◌≤◌, ◌≡◌, ◌≢◌, sym, ap, subst, refl, inl, inr, Option-cases, [], ◌∷◌,
  Bytes, bytes_eq, none, some, Result, ok, err, or_fail, arith,
}
use trillian_serverless.Base.Dict.{lookup}
use trillian_serverless.Base.Exec.{Exec, lift, ◌>>=◌}
use trillian_serverless.Std.Paths.{join_path}
use trillian_serverless.Serverless.Layout.Paths.{leaf_path}
use trillian_serverless.Serverless.Storage.{StorageError, failed, seq_file, path_error}
use trillian_serverless.Serverless.Gcs.{
  GcsError, precondition_failed, Client, take_number, record_hash, sequence_object, sequence,
}
use trillian_serverless.Serverless.Gcs.Laws.{Objects, in_memory, put_new}

module _ (others : Objects → Objects) (n : ℕ)
    (left : (d : Objects)
      → lookup (seq_file [] n) d ≡ none
      → lookup (seq_file [] n) (others d) ≡ none)
    (lo leaf : Bytes) where
  -- A number from the hint on and up to `n` is returned.
  abbrev Returns : ℕ → Result StorageError ℕ × Client (in_memory others) → Type 0
  Returns low x = (m : ℕ) × (low ≤ m) × (m ≤ n) × (x.0 ≡ ok m)

  Returns-from :
      (low : ℕ) (x : Result StorageError ℕ × Client (in_memory others))
      → Returns (low + 1) x
      → Returns low x
  Returns-from low x (m, above, below, e) = (m, omega (arith, above), below, e)

  other_number :
      (i : ℕ) (b : Bytes) (d : Objects)
      → lookup (seq_file [] n) d ≡ none
      → lookup (seq_file [] i) d ≡ some b
      → i ≢ n
  other_number i b d free used e =
      let same : lookup (seq_file [] i) d ≡ none =
        subst (λ k. lookup (seq_file [] k) d ≡ none) (sym e) free in
      absurd (cc (same, used))

  abbrev after_write :
      ℕ
      → Client (in_memory others)
      → Result GcsError (Unit {0}) × Objects
      → Result StorageError ℕ × Client (in_memory others)
  after_write fuel s w = elim (w.0) [
    | ok _ ↦ record_hash (in_memory others) lo s.next_seq (record s { bucket = w.1 })
    | err precondition_failed ↦
        take_number (in_memory others) fuel lo leaf
          (record s { bucket = w.1; next_seq = s.next_seq + 1 })
    | err _ ↦ (err (failed "couldn't close writer for object"), record s { bucket = w.1 })
  ]

  take_number-Returns :
      (fuel : ℕ) (s : Client (in_memory others))
      → s.next_seq ≤ n
      → n < s.next_seq + fuel
      → lookup (seq_file [] n) s.bucket ≡ none
      → Returns s.next_seq (take_number (in_memory others) fuel lo leaf s)
  unfolding take_number record_hash
  take_number-Returns zero s le lt free = absurd (omega (arith, le, lt))
  take_number-Returns (suc fuel) s le lt free =
      let i = s.next_seq in
      let d = s.bucket in
      let sf = seq_file [] i in
      let again : Client (in_memory others) = record s { bucket = others d; next_seq = i + 1 } in
      let go : i ≢ n → Returns i (take_number (in_memory others) fuel lo leaf again) = λ ne.
        Returns-from i (take_number (in_memory others) fuel lo leaf again) (
          take_number-Returns fuel again (omega (arith, le, ne)) (omega (arith, lt))
            (left d free)) in
      elim (Option-cases (lookup sf d)) [
        | inr (x, used) ↦ rw (used, take_number) (go (other_number i x d free used))
        | inl vacant ↦ elim (Option-cases (lookup sf (others d))) [
          | inr (x, raced) ↦
              rw (vacant, take_number)
                (subst (λ w. Returns i (after_write fuel s w))
                  (sym (ap (put_new sf leaf (others d)) raced))
                  (go (other_number i x (others d) (left d free) raced)))
          | inl still ↦
              rw (vacant, take_number)
                (subst (λ w. Returns i (after_write fuel s w))
                  (sym (ap (put_new sf leaf (others d)) still)) (i, omega arith, le, refl))
        ]
      ]

  sequence_object-Returns :
      (fuel : ℕ) (s : Client (in_memory others))
      → s.next_seq ≤ n
      → n < s.next_seq + fuel
      → lookup (seq_file [] n) s.bucket ≡ none
      → lookup lo s.bucket ≡ none
      → Returns s.next_seq (sequence_object (in_memory others) fuel lo leaf s)
  unfolding sequence_object
  sequence_object-Returns fuel s le lt free fresh =
      rw (fresh, sequence_object) (take_number-Returns fuel s le lt free)

-- While other sequencers write to the same bucket in memory, and as long as they do not take the
-- number n: where n is free and not below the hint, more tries are allowed than there are numbers
-- from the hint up to it, and the leaf's hash has no object, Sequence returns a number from the
-- hint up to n.
pub sequence-Returns :
    (others : Objects → Objects) (n fuel : ℕ) (leafhash leaf : Bytes) (path : Bytes × Bytes)
    (s : Client (in_memory others))
    → leaf_path [] leafhash ≡ ok path
    → ((d : Objects) → lookup (seq_file [] n) d ≡ none → lookup (seq_file [] n) (others d) ≡ none)
    → s.next_seq ≤ n
    → n < s.next_seq + fuel
    → lookup (seq_file [] n) s.bucket ≡ none
    → lookup (join_path (path.0 ∷ path.1 ∷ [])) s.bucket ≡ none
    → (m : ℕ) × (s.next_seq ≤ m)
      × (m ≤ n)
      × ((sequence (in_memory others) fuel leafhash leaf s).0 ≡ ok m)
unfolding sequence
sequence-Returns others n fuel leafhash leaf path s e left le lt free fresh =
    let lo = join_path (path.0 ∷ path.1 ∷ []) in
    let rest : Bytes × Bytes → Exec (Client (in_memory others)) StorageError ℕ =
      λ p. sequence_object (in_memory others) fuel (join_path (p.0 ∷ p.1 ∷ [])) leaf in
    subst
      (λ x.
        (m : ℕ) × (s.next_seq ≤ m)
        × (m ≤ n)
        × (((lift (or_fail x path_error) >>= rest) s).0 ≡ ok m))
      (sym e) (sequence_object-Returns others n left lo leaf fuel s le lt free fresh)
