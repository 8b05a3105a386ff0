-- ===== src/Serverless/Client/Consistency/Laws.antt =====
-- Which checkpoints the loop of `CheckConsistency` reads.
use trillian_serverless.Base.{
  ℕ, zero, suc, ◌+◌, ◌-◌, ◌<◌, ◌≡◌, refl, sym, ◌∙◌, ap, List, [], ◌∷◌, ◌++◌, some, ok, err, arith,
  inl, inr, Result-cases, length, get_elem?-append_left, get_elem?-append_last, get_elem?-some,
  length-append,
}
use trillian_serverless.Formats.{Checkpoint}
use trillian_serverless.Serverless.Client.{
  ClientError, Fetcher, Merkle, ProofBuilder, new_proof_builder,
}
use trillian_serverless.Serverless.Client.Consistency.{
  pair_at, check_pair, check_loop, check_sorted,
}

pair_at_inside :
    (l : List Checkpoint) (y z : Checkpoint) (i : ℕ)
    → i + 1 < length l
    → (p : Checkpoint × Checkpoint) × (pair_at (l ++ y ∷ []) i ≡ some p)
      × (pair_at (l ++ z ∷ []) i ≡ some p)
unfolding pair_at
pair_at_inside l y z i h =
    let (a, p) = get_elem?-some l i (omega arith) in
    let (b, q) = get_elem?-some l (i + 1) (omega arith) in
    (
      (a, b),
      rw (get_elem?-append_left l (y ∷ []) i (omega arith) ∙ p, pair_at)
          (rw (get_elem?-append_left l (y ∷ []) (i + 1) (omega arith) ∙ q)),
      rw (get_elem?-append_left l (z ∷ []) i (omega arith) ∙ p, pair_at)
          (rw (get_elem?-append_left l (z ∷ []) (i + 1) (omega arith) ∙ q)),
    )

pair_at_end :
    (l : List Checkpoint) (y : Checkpoint) (i : ℕ)
    → i + 1 ≡ length l
    → (p : Checkpoint × Checkpoint) × (pair_at (l ++ y ∷ []) i ≡ some p)
unfolding pair_at
pair_at_end l y i h =
    let (a, p) = get_elem?-some l i (omega arith) in
    (
      (a, y),
      rw (get_elem?-append_left l (y ∷ []) i (omega arith) ∙ p, pair_at)
          (rw (get_elem?-append_last l y (i + 1) h)),
    )

module _ {Range : Type 0} (m : Merkle Range) (f : Fetcher) where
  -- One round: it ends at a pair that does not agree, and else goes on with the pair at `i`.
  check_loop_differs :
      (rounds i : ℕ) (a b : Checkpoint) (cp : List Checkpoint) (pb : ProofBuilder) (e : ClientError)
      → (check_pair m f a b pb).0 ≡ err e
      → check_loop m f (suc rounds) i a b cp pb ≡ err e
  unfolding check_loop
  check_loop_differs rounds i a b cp pb e h = rw (h, check_loop)

  check_loop_agrees :
      (rounds i : ℕ) (a b : Checkpoint) (cp : List Checkpoint) (pb : ProofBuilder)
      (p : Checkpoint × Checkpoint)
      → (check_pair m f a b pb).0 ≡ ok tt
      → pair_at cp i ≡ some p
      → check_loop m f (suc rounds) i a b cp pb
        ≡ check_loop m f rounds (i + 1) p.0 p.1 cp (check_pair m f a b pb).1
  unfolding check_loop
  check_loop_agrees rounds i a b cp pb p h k = rw (h, check_loop) (rw k)

  check_loop_done :
      (i : ℕ) (p q : Checkpoint × Checkpoint) (cp cq : List Checkpoint) (pb : ProofBuilder)
      → check_loop m f 0 i p.0 p.1 cp pb ≡ check_loop m f 0 i q.0 q.1 cq pb
  unfolding check_loop
  check_loop_done i p q cp cq pb = refl

  module _ (l : List Checkpoint) (y z : Checkpoint) where
    -- While `i` stays below the end of `l`, what stands behind `l` makes no difference.
    check_loop_last :
        (rounds i : ℕ) (a b : Checkpoint) (pb : ProofBuilder)
        → rounds + i ≡ length l
        → check_loop m f rounds i a b (l ++ y ∷ []) pb
          ≡ check_loop m f rounds i a b (l ++ z ∷ []) pb
    check_loop_last zero i a b pb h = unfold check_loop in refl
    check_loop_last (suc zero) i a b pb h = elim (Result-cases (check_pair m f a b pb).0) [
      | inr (e, bad) ↦
          check_loop_differs zero i a b (l ++ y ∷ []) pb e bad
          ∙ sym (check_loop_differs zero i a b (l ++ z ∷ []) pb e bad)
      | inl (_, good) ↦
          let (p, at_y) = pair_at_end l y i (omega arith) in
          let (q, at_z) = pair_at_end l z i (omega arith) in
          check_loop_agrees zero i a b (l ++ y ∷ []) pb p good at_y
          ∙ (check_loop_done (i + 1) p q (l ++ y ∷ []) (l ++ z ∷ []) (check_pair m f a b pb).1
              ∙ sym (check_loop_agrees zero i a b (l ++ z ∷ []) pb q good at_z))
    ]
    check_loop_last (suc (suc r)) i a b pb h = elim (Result-cases (check_pair m f a b pb).0) [
      | inr (e, bad) ↦
          check_loop_differs (suc r) i a b (l ++ y ∷ []) pb e bad
          ∙ sym (check_loop_differs (suc r) i a b (l ++ z ∷ []) pb e bad)
      | inl (_, good) ↦
          let (p, at_y, at_z) = pair_at_inside l y z i (omega arith) in
          check_loop_agrees (suc r) i a b (l ++ y ∷ []) pb p good at_y
          ∙ (check_loop_last (suc r) (i + 1) p.0 p.1 (check_pair m f a b pb).1 (omega arith)
              ∙ sym (check_loop_agrees (suc r) i a b (l ++ z ∷ []) pb p good at_z))
    ]

  -- Whatever checkpoint `z` stands in the place of the largest, `y`, of three or more: the check of
  -- the sorted checkpoints ends as the loop does over those with `z`, once a proof builder is made
  -- for `y`. So `y` is compared with none of the others.
  pub check_sorted_ignores_last :
      (a b : Checkpoint) (rest : List Checkpoint) (y z : Checkpoint) (pb : ProofBuilder)
      → new_proof_builder m y f ≡ ok pb
      → check_sorted m f (a ∷ b ∷ rest ++ y ∷ [])
        ≡ check_loop m f (2 + length rest) 0 a b (a ∷ b ∷ rest ++ z ∷ []) pb
  check_sorted_ignores_last a b rest y z pb built =
      let l = a ∷ b ∷ rest in
      let len : length (l ++ y ∷ []) - 1 ≡ length l = omega (arith, length-append l (y ∷ [])) in
      unfold check_sorted in
      rw len (
        rw (get_elem?-append_last l y (length l) refl) (
          rw built (
            check_loop_last l y z (length l) 0 a b pb (omega arith)
            ∙ ap (λ n. check_loop m f n 0 a b (l ++ z ∷ []) pb) (omega arith))))
