-- ===== src/Serverless/Consensus/Laws.antt =====
-- Which checkpoint the consensus picks.
use trillian_serverless.Base.{
  ℕ, ◌≤◌, ◌<◌, ◌≡◌, refl, sym, ap, subst, String, Bytes, ◌∙◌, ◌⊎◌, inl, inr, true, false, List, [],
  ◌∷◌, Option, none, some, ok, err, ltb, length, arith, Bool-cases,
}
use trillian_serverless.Formats.{Verifier, ParseCheckpoint}
use trillian_serverless.Serverless.Client.{ClientError, Fetcher}
use trillian_serverless.Serverless.Client.Tracker.{Found, ConsensusFunc}
use trillian_serverless.Serverless.Consensus.{
  too_few, best_of, picked, better, answers, sent, checkpoint_n_consensus,
}

-- A checkpoint of the list, signed by the log and at least `n` witnesses.
abbrev pub Qualified : ℕ → Found → List Found → Type 0
Qualified n c [] = ⊥
Qualified n c (d ∷ cs) = ((d ≡ c) × (n < length c.note.sigs)) ⊎ Qualified n c cs

too_few-true : (n : ℕ) (c : Found) → too_few n c ≡ true → n < length c.note.sigs → ⊥
too_few-true n c h k = ground arith

too_few-false : (n : ℕ) (c : Found) → too_few n c ≡ false → n < length c.note.sigs
too_few-false n c h = ground arith

abbrev Top : Option Found → Found → Type 0
Top none c = ⊥
Top (some b) c = c.cp.size ≤ b.cp.size

-- `r` is what the loop leaves, from `best`, over `cs`.
abbrev Best : ℕ → List Found → Option Found → Option Found → Type 0
Best n cs best r =
    ((c : Found) → Qualified n c cs → Top r c)
    × ((b : Found) → best ≡ some b → Top r b)
    × ((c : Found) → r ≡ some c → (best ≡ some c) ⊎ Qualified n c cs)

better-Top : (best : Option Found) (c : Found) → Top (better best c) c
better-Top none c = omega arith
better-Top (some b) c = elim (Bool-cases (ltb b.cp.size c.cp.size)) [
  | inl h ↦ rw h (omega arith)
  | inr h ↦ rw h (ground arith)
]

abbrev size_of : Option Found → ℕ
size_of none = 0
size_of (some x) = x.cp.size

same_size : (a b : Found) {m : ℕ} → some a ≡ some b → a.cp.size ≤ m → b.cp.size ≤ m
same_size a b {m} h = subst (λ k. k ≤ m) (ap size_of h)

better-held : (best : Option Found) (b c : Found) → best ≡ some b → Top (better best c) b
better-held none b c h = absurd (cc h)
better-held (some a) b c h = elim (Bool-cases (ltb a.cp.size c.cp.size)) [
  | inl k ↦ rw k (same_size a b h (ground arith))
  | inr k ↦ rw k (same_size a b h (omega arith))
]

better-which :
    (best : Option Found) (c d : Found) → better best c ≡ some d → (best ≡ some d) ⊎ (c ≡ d)
better-which none c d h = inr (cc h)
better-which (some b) c d h = elim (Bool-cases (ltb b.cp.size c.cp.size)) [
  | inl k ↦ inr (cc (h, k))
  | inr k ↦ inl (cc (h, k))
]

skip-Best :
    (n : ℕ) (c : Found) (cs : List Found) (best r : Option Found)
    → too_few n c ≡ true
    → Best n cs best r
    → Best n (c ∷ cs) best r
skip-Best n c cs best r few (all, held, which) = (
  λ d q. elim q [
    | inl (same, k) ↦ absurd (too_few-true n d (ap (too_few n) (sym same) ∙ few) k)
    | inr k ↦ all d k
  ],
  held,
  λ d e. elim (which d e) [ inl k ↦ inl k | inr k ↦ inr (inr k) ],
)

Top-trans : (r : Option Found) (b c : Found) → Top (some b) c → Top r b → Top r c
Top-trans none b c h k = k
Top-trans (some r) b c h k = omega (arith, h, k)

Top-through :
    (r o : Option Found) (c : Found) → Top o c → ((b : Found) → o ≡ some b → Top r b) → Top r c
Top-through r none c h k = absurd h
Top-through r (some b) c h k = Top-trans r b c h (k b refl)

take-Best :
    (n : ℕ) (c : Found) (cs : List Found) (best r : Option Found)
    → too_few n c ≡ false
    → Best n cs (better best c) r
    → Best n (c ∷ cs) best r
take-Best n c cs best r enough (all, held, which) = (
  λ d q. elim q [
    | inl (same, k) ↦ subst (Top r) same (Top-through r (better best c) c (better-Top best c) held)
    | inr k ↦ all d k
  ],
  λ b e. Top-through r (better best c) b (better-held best b c e) held,
  λ d e. elim (which d e) [
    | inl k ↦ elim (better-which best c d k) [
      | inl was ↦ inl was
      | inr same ↦
          inr (inl (same, subst (λ x. n < length x.note.sigs) same (too_few-false n c enough)))
    ]
    | inr k ↦ inr (inr k)
  ],
)

Best-refl : (n : ℕ) (best : Option Found) → Best n [] best best
Best-refl n best =
    (λ c q. absurd q, λ b e. subst (λ o. Top o b) (sym e) (omega arith), λ c e. inl e)

best_of-skip :
    (n : ℕ) (c : Found) (cs : List Found) (best : Option Found)
    → too_few n c ≡ true
    → best_of n (c ∷ cs) best ≡ best_of n cs best
unfolding best_of
best_of-skip n c cs best h = rw (h, best_of)

best_of-take :
    (n : ℕ) (c : Found) (cs : List Found) (best : Option Found)
    → too_few n c ≡ false
    → best_of n (c ∷ cs) best ≡ best_of n cs (better best c)
unfolding best_of
best_of-take n c cs best h = rw (h, best_of)

best_of-Best : (n : ℕ) (cs : List Found) (best : Option Found) → Best n cs best (best_of n cs best)
best_of-Best n [] best = unfold best_of in Best-refl n best
best_of-Best n (c ∷ cs) best = elim (Bool-cases (too_few n c)) [
  | inl few ↦
      subst (Best n (c ∷ cs) best) (sym (best_of-skip n c cs best few))
        (skip-Best n c cs best _ few (best_of-Best n cs best))
  | inr enough ↦
      subst (Best n (c ∷ cs) best) (sym (best_of-take n c cs best enough))
        (take-Best n c cs best _ enough (best_of-Best n cs (better best c)))
]

picked-Best :
    (n : ℕ) (cs : List Found) (r : Option Found)
    → Best n cs none r
    → ((c : Found) × (picked r ≡ ok c)
        × Qualified n c cs
        × ((d : Found) → Qualified n d cs → d.cp.size ≤ c.cp.size))
      ⊎ ((e : ClientError) × (picked r ≡ err e) × ((d : Found) → Qualified n d cs → ⊥))
picked-Best n cs none (all, held, which) = inr (_, refl, all)
picked-Best n cs (some c) (all, held, which) =
    inl (c, refl, elim (which c refl) [ inl e ↦ absurd (cc e) | inr q ↦ q ], all)

-- With no fewer witnesses than the `n` that are asked for, the consensus exists, and for every list
-- of distributors, log verifier and origin: it returns a checkpoint that a distributor sent, with
-- more than `n` signatures, and no other such checkpoint is larger; or no distributor sent one
-- with that many, and it fails.
pub checkpoint_n_consensus-best :
    (parse_checkpoint : ParseCheckpoint) (log_id : Bytes) (witnesses : List Verifier) (n : ℕ)
    → n ≤ length witnesses
    → (k : List Fetcher → ConsensusFunc) × (checkpoint_n_consensus parse_checkpoint log_id witnesses
          n
        ≡ ok k)
      × ((fs : List Fetcher) (v : Verifier) (origin : String)
          → let found = sent (answers parse_checkpoint log_id witnesses n fs v origin) in
            ((c : Found) × (k fs v origin ≡ ok c)
              × Qualified n c found
              × ((d : Found) → Qualified n d found → d.cp.size ≤ c.cp.size))
            ⊎ ((e : ClientError) × (k fs v origin ≡ err e)
                × ((d : Found) → Qualified n d found → ⊥)))
unfolding checkpoint_n_consensus
checkpoint_n_consensus-best parse_checkpoint log_id witnesses n h =
    let e : ltb (length witnesses) n ≡ false = ground arith in
    rw (e, checkpoint_n_consensus)
      (_, refl, λ fs v origin. picked-Best n _ _ (best_of-Best n _ none))
