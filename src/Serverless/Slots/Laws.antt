-- ===== src/Serverless/Slots/Laws.antt =====
-- Which checkpoint stands in each slot.
use trillian_serverless.Base.{
  ℕ, zero, suc, ◌+◌, ◌-◌, ◌≤◌, ◌<◌, ◌≡◌, refl, ◌∙◌, ap, subst, false, List, [], ◌∷◌, ◌++◌, Bytes,
  some, Result, ok, err, Result-cases, ◌>>=◌, ltb, length, length-append, length-replicate, take,
  replicate, get_elem?, arith, Bool-cases, ◌⊎◌, inl, inr,
}
use trillian_serverless.Base.Dict.{Dict}
use trillian_serverless.Formats.{ParseCheckpoint}
use trillian_serverless.Checkpoints.{Notes, CombineError}
use trillian_serverless.Serverless.Client.Tracker.{Found}
use trillian_serverless.Serverless.Consensus.Laws.{Qualified}
use trillian_serverless.Serverless.Slots.{
  UpdateOpts, resize, group, combine_bodies, sort_by_size, advance, front, fill, update_state,
}
use trillian_serverless.Serverless.Slots.Order.{
  Sorted, larger_than_head, sort-Qualified, sort-Sorted,
}

advance_again : (i j : ℕ) (cs : List Found) → i ≤ j → advance j (advance i cs) ≡ advance j cs
unfolding advance
advance_again i j [] h = refl
advance_again i j (c ∷ cs) h = elim (Bool-cases (ltb i (length c.note.sigs))) [
  | inl enough ↦ rw enough refl
  | inr few ↦
      let fewer : ltb j (length c.note.sigs) ≡ false = ground (arith, few, h) in
      rw few (rw fewer (advance_again i j cs h))
]

length-fill : (n i : ℕ) (cs : List Found) → length (fill n i cs) ≡ n
unfolding fill
length-fill zero i cs = refl
length-fill (suc n) i cs = ap suc (length-fill n (i + 1) (advance i cs))

-- The loop goes on from slot to slot, and yet finds for each what it would find from the start.
get_elem?-fill :
    (n i k : ℕ) (cs : List Found)
    → k < n
    → get_elem? (fill n i cs) k ≡ some (front (advance (i + k) cs))
unfolding fill
get_elem?-fill zero i k cs h = absurd (omega (arith, h))
get_elem?-fill (suc n) i zero cs h =
    let e : i ≡ i + 0 = omega arith in ap (λ j. some (front (advance j cs))) e
get_elem?-fill (suc n) i (suc k) cs h =
    let e : i + 1 + k ≡ i + suc k = omega arith in
    get_elem?-fill n (i + 1) k (advance i cs) (omega (arith, h))
    ∙ (ap (λ j. some (front (advance j (advance i cs)))) e
        ∙ ap (λ l. some (front l)) (advance_again i (i + suc k) cs (omega arith)))

-- What stands in slot `k`: the largest of the checkpoints with more than `k` signatures, or nothing
-- where there is none.
abbrev pub Slot : ℕ → Bytes → List Found → Type 0
Slot k raw cs =
    ((c : Found) × (c.raw ≡ raw)
      × Qualified k c cs
      × ((d : Found) → Qualified k d cs → d.cp.size ≤ c.cp.size))
    ⊎ ((raw ≡ []) × ((d : Found) → Qualified k d cs → ⊥))

outnumbered : (k : ℕ) (c x : Found) → length c.note.sigs ≤ k → c ≡ x → k < length x.note.sigs → ⊥
outnumbered k c x few same sigs =
    let le = subst (λ y. length y.note.sigs ≤ k) same few in omega (arith, le, sigs)

skipped-Slot :
    (k : ℕ) (raw : Bytes) (c : Found) (cs : List Found)
    → length c.note.sigs ≤ k
    → Slot k raw cs
    → Slot k raw (c ∷ cs)
skipped-Slot k raw c cs few (inl (d, e, q, top)) = inl (
  d,
  e,
  inr q,
  λ x h. elim h [ inl (same, sigs) ↦ absurd (outnumbered k c x few same sigs) | inr y ↦ top x y ],
)
skipped-Slot k raw c cs few (inr (e, empty)) =
    inr
      (e, λ x h. elim h [ inl (same, sigs) ↦ outnumbered k c x few same sigs | inr y ↦ empty x y ])

advance-Slot : (k : ℕ) (cs : List Found) → Sorted cs → Slot k (front (advance k cs)) cs
unfolding advance
advance-Slot k [] h = inr (refl, λ d q. q)
advance-Slot k (c ∷ cs) (top, h) = elim (Bool-cases (ltb k (length c.note.sigs))) [
  | inl enough ↦ rw enough (
      inl (
        c,
        refl,
        inl (refl, ground (arith, enough)),
        λ d q. larger_than_head c c cs (omega arith) top k d q,
      ))
  | inr few ↦
      rw few
        (skipped-Slot k (front (advance k cs)) c cs (ground (arith, few)) (advance-Slot k cs h))
]

Slot-sorted : (k : ℕ) (raw : Bytes) (cs : List Found) → Slot k raw (sort_by_size cs) → Slot k raw cs
Slot-sorted k raw cs (inl (c, e, q, top)) =
    inl (c, e, (sort-Qualified k c cs).0 q, λ d x. top d ((sort-Qualified k d cs).1 x))
Slot-sorted k raw cs (inr (e, empty)) = inr (e, λ d x. empty d ((sort-Qualified k d cs).1 x))

length-take : (n : ℕ) (l : List Bytes) → n ≤ length l → length (take n l) ≡ n
length-take zero l h = refl
length-take (suc n) [] h = absurd (omega (arith, h))
length-take (suc n) (x ∷ xs) h = ap suc (length-take n xs (omega (arith, h)))

length-resize : (n : ℕ) (l : List Bytes) → length (resize n l) ≡ n
unfolding resize
length-resize n l =
    let nil : Bytes = [] in
    let r = length-replicate (n - length l) nil in
    let e = length-append l (replicate (n - length l) nil) in
    elim (Bool-cases (ltb n (length l))) [
      | inl long ↦ rw (long, resize) (length-take n l (ground (arith, long)))
      | inr short ↦ rw (short, resize) (ground (arith, e, r, short))
    ]

module _ (notes : Notes) (parse : ParseCheckpoint)
    (order : Dict Bytes (List Bytes) → List (List Bytes)) (old incoming : List Bytes)
    (opts : UpdateOpts) where
  -- The checkpoints that the old state and the incoming ones are combined to.
  abbrev pub combined_all : Result CombineError (List Found)
  combined_all = do
    by_body ←
        group notes opts.log_sig_v (resize (opts.max_witness_signatures + 1) old ++ incoming) []
    combine_bodies notes parse opts (order by_body)

  from_combined :
      (r : Result CombineError (Dict Bytes (List Bytes)))
      → (do
        by_body ← r
        combined ← combine_bodies notes parse opts (order by_body)
        ok (fill (length (resize (opts.max_witness_signatures + 1) old)) 0 (sort_by_size combined)))
        ≡ (do
          combined ← (do by_body ← r; combine_bodies notes parse opts (order by_body))
          ok (
              fill
                (length (resize (opts.max_witness_signatures + 1) old))
                0
                (sort_by_size combined)))
  from_combined (ok d) = refl
  from_combined (err e) = refl

  -- Whatever order the bodies are taken in: `UpdateState` fails as the combining of the checkpoints
  -- does; or there is one slot more than the witness signatures asked for, and slot `k` has the
  -- largest of the combined checkpoints with more than `k` signatures, or nothing if there is none.
  pub update_state-Slot :
      ((e : CombineError) × (combined_all ≡ err e)
        × (update_state notes parse order old incoming opts ≡ err e))
      ⊎ ((combined : List Found) × (slots : List Bytes) × (combined_all ≡ ok combined)
          × (update_state notes parse order old incoming opts ≡ ok slots)
          × (length slots ≡ opts.max_witness_signatures + 1)
          × ((k : ℕ)
              → k ≤ opts.max_witness_signatures
              → (raw : Bytes) × (get_elem? slots k ≡ some raw) × Slot k raw combined))
  unfolding update_state
  update_state-Slot =
      let n = opts.max_witness_signatures + 1 in
      let regroup = from_combined (group notes opts.log_sig_v (resize n old ++ incoming) []) in
      let size = length-resize n old in
      elim (Result-cases combined_all) [
        | inl (combined, h) ↦
            let sorted = sort_by_size combined in
            inr (
              combined,
              fill (length (resize n old)) 0 sorted,
              h,
              regroup ∙ rw h refl,
              length-fill (length (resize n old)) 0 sorted ∙ size,
              λ k le. (
                front (advance k sorted),
                get_elem?-fill (length (resize n old)) 0 k sorted (omega (arith, size, le))
                    ∙ ap (λ j. some (front (advance j sorted))) (omega arith),
                Slot-sorted k (front (advance k sorted)) combined
                    (advance-Slot k sorted (sort-Sorted combined)),
              ),
            )
        | inr (e, h) ↦ inl (e, h, regroup ∙ rw h refl)
      ]
