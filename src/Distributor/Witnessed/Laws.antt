-- ===== src/Distributor/Witnessed/Laws.antt =====
-- Which checkpoint `GetCheckpointN` answers with.
use trillian_serverless.Base.{
  ℕ, ◌≤◌, ◌<◌, ◌≡◌, refl, ◌∙◌, ap, subst, ◌⊎◌, inl, inr, String, string_eq, true, false, List, none,
  some, ok, err, leb, length, arith,
}
use trillian_serverless.Base.Dict.{lookup}
use trillian_serverless.Checkpoints.{Notes, CombineError, combine}
use trillian_serverless.Distributor.{LogInfo, Distributor}
use trillian_serverless.Distributor.Witnessed.{Row, collect, get_checkpoint_n}
use trillian_serverless.Distributor.Witnessed.Loop.{
  of_size, wits_of, Descending, start, collect_lem,
}

module _ (notes : Notes) (d : Distributor) (log_id : String) (l : LogInfo) (n : ℕ) (rs : List Row)
    (known : lookup log_id d.ls ≡ some l) where
  get_checkpoint_n-enough :
      let b = (collect d n rs start).0 in
      leb n (length b.cps) ≡ true
      → get_checkpoint_n notes d log_id n (ok (record { rows = rs; error = none }))
        ≡ combine notes b.cps l.verifier b.wits
  unfolding get_checkpoint_n
  get_checkpoint_n-enough h = rw (known, get_checkpoint_n) (rw h)

  get_checkpoint_n-few :
      let b = (collect d n rs start).0 in
      leb n (length b.cps) ≡ false
      → (e : CombineError) × (get_checkpoint_n notes d log_id n
            (ok (record { rows = rs; error = none }))
          ≡ err e)
  unfolding get_checkpoint_n
  get_checkpoint_n-few h = rw (known, get_checkpoint_n) (rw h (_, refl))

  -- For a known log, where `n` is not 0 and the query gives all rows, from the largest size on: the
  -- answer is the combination of the checkpoints of one size, all of them and in order, that are
  -- `n` or more, with the log's verifier and those of the witnesses of these checkpoints, nil for
  -- one that is not known, and every larger size has fewer; or it is an error, and every size has
  -- fewer.
  pub get_checkpoint_n-largest :
      0 < n
      → Descending rs
      → let answer = get_checkpoint_n notes d log_id n (ok (record { rows = rs; error = none })) in
        ((k : ℕ) × (answer ≡ combine notes (of_size k rs) l.verifier (wits_of d k rs))
          × (n ≤ length (of_size k rs))
          × ((j : ℕ) → k < j → length (of_size j rs) < n))
        ⊎ ((e : CombineError) × (answer ≡ err e) × ((k : ℕ) → length (of_size k rs) < n))
  get_checkpoint_n-largest pos desc =
      let b = (collect d n rs start).0 in
      elim (collect_lem d n rs pos desc) [
        | inl (h, k, w, above) ↦
            let answer = get_checkpoint_n-enough (ground arith) in
            inl (
              b.current_size,
              answer
                  ∙ (ap (λ cps. combine notes cps l.verifier b.wits) k
                      ∙ ap (combine notes (of_size b.current_size rs) l.verifier) w),
              subst (λ x. n ≤ length x) k h,
              above,
            )
        | inr (h, all) ↦
            let (e, answer) = get_checkpoint_n-few (ground arith) in inr (e, answer, all)
      ]
