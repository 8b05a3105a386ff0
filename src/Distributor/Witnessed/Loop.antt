-- ===== src/Distributor/Witnessed/Loop.antt =====
-- Which rows and witnesses the loop of `GetCheckpointN` ends with.
use trillian_serverless.Base.{
  ℕ, ◌≤◌, ◌<◌, ◌≡◌, refl, sym, ◌∙◌, ap, subst, ◌⊎◌, inl, inr, Bool, true, false, List, [], ◌∷◌,
  ◌++◌, append_assoc, append-nil, Bytes, Option, string_eq, if◌then◌else◌, leb, ◌==◌, length, arith,
  Bool-cases, ==_iff,
}
use trillian_serverless.Base.Dict.{lookup}
use trillian_serverless.Formats.{Verifier}
use trillian_serverless.Distributor.{Distributor}
use trillian_serverless.Distributor.Witnessed.{Row, AtSize, push_row, collect}

-- The checkpoints of one size, in the order of their rows.
abbrev pub of_size : ℕ → List Row → List Bytes
of_size k [] = []
of_size k (r ∷ rs) = if r.size == k then r.chkpt ∷ of_size k rs else of_size k rs

-- The verifiers of the witnesses of one size, in the same order; none for one that is not known.
abbrev pub wits_of : Distributor → ℕ → List Row → List (Option Verifier)
wits_of d k [] = []
wits_of d k (r ∷ rs) = if r.size == k then lookup r.wit_id d.ws ∷ wits_of d k rs else wits_of d k rs

abbrev pub AtMost : ℕ → List Row → Type 0
AtMost k [] = Unit
AtMost k (r ∷ rs) = (r.size ≤ k) × AtMost k rs

-- The rows come from the largest size on.
abbrev pub Descending : List Row → Type 0
Descending [] = Unit
Descending (r ∷ rs) = AtMost r.size rs × Descending rs

-- The checkpoints of one size in what is at hand and in the rows that are left.
abbrev total : AtSize → List Row → ℕ → List Bytes
total a rs k = (if a.current_size == k then a.cps else []) ++ of_size k rs

abbrev total_wits : Distributor → AtSize → List Row → ℕ → List (Option Verifier)
total_wits d a rs k = (if a.current_size == k then a.wits else []) ++ wits_of d k rs

AtMost-weaken : (k m : ℕ) (rs : List Row) → k ≤ m → AtMost k rs → AtMost m rs
AtMost-weaken k m [] h b = tt
AtMost-weaken k m (r ∷ rs) h (b, bs) = (omega (arith, h, b), AtMost-weaken k m rs h bs)

of_size_above : (k m : ℕ) (rs : List Row) → AtMost k rs → k < m → of_size m rs ≡ []
of_size_above k m [] b h = refl
of_size_above k m (r ∷ rs) (b, bs) h =
    let e : (r.size == m) ≡ false = ground arith in rw e (of_size_above k m rs bs h)

wits_of_above :
    (d : Distributor) (k m : ℕ) (rs : List Row) → AtMost k rs → k < m → wits_of d m rs ≡ []
wits_of_above d k m [] b h = refl
wits_of_above d k m (r ∷ rs) (b, bs) h =
    let e : (r.size == m) ≡ false = ground arith in rw e (wits_of_above d k m rs bs h)

-- The largest size with `n` checkpoints or more is what is at hand; or no size has as many.
abbrev Ends : ℕ → (ℕ → List Bytes) → (ℕ → List (Option Verifier)) → AtSize → Type 0
Ends n all wits b =
    ((n ≤ length b.cps)
      × (b.cps ≡ all b.current_size)
      × (b.wits ≡ wits b.current_size)
      × ((k : ℕ) → b.current_size < k → length (all k) < n))
    ⊎ ((length b.cps < n) × ((k : ℕ) → length (all k) < n))

collect-same :
    (d : Distributor) (n : ℕ) (r : Row) (rs : List Row) (a : AtSize)
    → (r.size == a.current_size) ≡ true
    → collect d n (r ∷ rs) a ≡ collect d n rs (push_row d r a)
unfolding collect
collect-same d n r rs a h = rw (h, collect)

abbrev fresh : Row → AtSize
fresh r = record { current_size = r.size; wits = []; cps = [] }

collect-stop :
    (d : Distributor) (n : ℕ) (r : Row) (rs : List Row) (a : AtSize)
    → (r.size == a.current_size) ≡ false
    → leb n (length a.cps) ≡ true
    → collect d n (r ∷ rs) a ≡ (a, true)
unfolding collect
collect-stop d n r rs a h k = rw (h, collect) (rw k)

collect-other :
    (d : Distributor) (n : ℕ) (r : Row) (rs : List Row) (a : AtSize)
    → (r.size == a.current_size) ≡ false
    → leb n (length a.cps) ≡ false
    → collect d n (r ∷ rs) a ≡ collect d n rs (push_row d r (fresh r))
unfolding collect
collect-other d n r rs a h k = rw (h, collect) (rw k)

total-push :
    (d : Distributor) (r : Row) (rs : List Row) (a : AtSize) (k : ℕ)
    → r.size ≡ a.current_size
    → total (push_row d r a) rs k ≡ total a (r ∷ rs) k
unfolding push_row
total-push d r rs a k h = elim (Bool-cases (a.current_size == k)) [
  | inl e ↦
      let f : (r.size == k) ≡ true = rw h e in
      rw e (rw f (append_assoc a.cps (r.chkpt ∷ []) (of_size k rs)))
  | inr e ↦ let f : (r.size == k) ≡ false = rw h e in rw e (rw f)
]

total_wits-push :
    (d : Distributor) (r : Row) (rs : List Row) (a : AtSize) (k : ℕ)
    → r.size ≡ a.current_size
    → total_wits d (push_row d r a) rs k ≡ total_wits d a (r ∷ rs) k
unfolding push_row
total_wits-push d r rs a k h = elim (Bool-cases (a.current_size == k)) [
  | inl e ↦
      let f : (r.size == k) ≡ true = rw h e in
      rw e (rw f (append_assoc a.wits (lookup r.wit_id d.ws ∷ []) (wits_of d k rs)))
  | inr e ↦ let f : (r.size == k) ≡ false = rw h e in rw e (rw f)
]

total-fresh :
    (d : Distributor) (r : Row) (rs : List Row) (k : ℕ)
    → total (push_row d r (fresh r)) rs k ≡ of_size k (r ∷ rs)
unfolding push_row
total-fresh d r rs k = elim (Bool-cases (r.size == k)) [ inl e ↦ rw e refl | inr e ↦ rw e refl ]

total_wits-fresh :
    (d : Distributor) (r : Row) (rs : List Row) (k : ℕ)
    → total_wits d (push_row d r (fresh r)) rs k ≡ wits_of d k (r ∷ rs)
unfolding push_row
total_wits-fresh d r rs k = elim (Bool-cases (r.size == k)) [
  | inl e ↦ rw e refl
  | inr e ↦ rw e refl
]

total_other :
    (a : AtSize) (rs : List Row) (k : ℕ)
    → (a.current_size == k) ≡ false
    → total a rs k ≡ of_size k rs
total_other a rs k e = rw e

total_wits_other :
    (d : Distributor) (a : AtSize) (rs : List Row) (k : ℕ)
    → (a.current_size == k) ≡ false
    → total_wits d a rs k ≡ wits_of d k rs
total_wits_other d a rs k e = rw e

total_at_hand :
    (a : AtSize) (rs : List Row)
    → of_size a.current_size rs ≡ []
    → total a rs a.current_size ≡ a.cps
total_at_hand a rs e =
    let same : (a.current_size == a.current_size) ≡ true = ground arith in
    rw same (rw e (append-nil a.cps))

total_wits_at_hand :
    (d : Distributor) (a : AtSize) (rs : List Row)
    → wits_of d a.current_size rs ≡ []
    → total_wits d a rs a.current_size ≡ a.wits
total_wits_at_hand d a rs e =
    let same : (a.current_size == a.current_size) ≡ true = ground arith in
    rw same (rw e (append-nil a.wits))

none_above :
    (n : ℕ) (a : AtSize) (rs : List Row) (k : ℕ)
    → 0 < n
    → AtMost a.current_size rs
    → a.current_size < k
    → length (total a rs k) < n
none_above n a rs k pos b h =
    let other : (a.current_size == k) ≡ false = ground arith in
    rw (total_other a rs k other) (rw (of_size_above a.current_size k rs b h) pos)

Ends-along :
    (n : ℕ) (f g : ℕ → List Bytes) (v w : ℕ → List (Option Verifier)) (b : AtSize)
    → ((k : ℕ) → f k ≡ g k)
    → ((k : ℕ) → v k ≡ w k)
    → Ends n f v b
    → Ends n g w b
Ends-along n f g v w b e u (inl (h, k, x, l)) =
    inl (
      h,
      k ∙ e b.current_size,
      x ∙ u b.current_size,
      λ j m. subst (λ x. length x < n) (e j) (l j m),
    )
Ends-along n f g v w b e u (inr (h, l)) = inr (h, λ j. subst (λ x. length x < n) (e j) (l j))

-- What is at hand, if that is where the loop stops.
Ends-stop :
    (d : Distributor) (n : ℕ) (a : AtSize) (rs : List Row)
    → 0 < n
    → n ≤ length a.cps
    → AtMost a.current_size rs
    → of_size a.current_size rs ≡ []
    → wits_of d a.current_size rs ≡ []
    → Ends n (total a rs) (total_wits d a rs) a
Ends-stop d n a rs pos h b e u = inl (
  h,
  sym (total_at_hand a rs e),
  sym (total_wits_at_hand d a rs u),
  λ k l. none_above n a rs k pos b l,
)

-- Too few are at hand, and no more of that size follow.
few_total :
    (n : ℕ) (a : AtSize) (rs : List Row) (k : ℕ)
    → length a.cps < n
    → of_size a.current_size rs ≡ []
    → length (of_size k rs) < n
    → length (total a rs k) < n
few_total n a rs k h e l = elim (Bool-cases (a.current_size == k)) [
  | inl same ↦
      let p : a.current_size ≡ k = (==_iff a.current_size k).0 same in
      subst (λ j. length (total a rs j) < n) p (rw (total_at_hand a rs e) h)
  | inr other ↦ rw (total_other a rs k other) l
]

Ends-other :
    (d : Distributor) (n : ℕ) (a b : AtSize) (rs : List Row)
    → 0 < n
    → length a.cps < n
    → of_size a.current_size rs ≡ []
    → Ends n (λ k. of_size k rs) (λ k. wits_of d k rs) b
    → Ends n (total a rs) (total_wits d a rs) b
Ends-other d n a b rs pos few e (inr (h, l)) = inr (h, λ k. few_total n a rs k few e (l k))
Ends-other d n a b rs pos few e (inl (h, k, u, l)) =
    elim (Bool-cases (a.current_size == b.current_size)) [
      | inl same ↦
          let p : a.current_size ≡ b.current_size = (==_iff a.current_size b.current_size).0 same in
          let q : b.cps ≡ [] = k ∙ (ap (λ j. of_size j rs) (sym p) ∙ e) in
          absurd (omega (arith, ap length q))
      | inr other ↦ inl (
        h,
        k ∙ sym (total_other a rs b.current_size other),
        u ∙ sym (total_wits_other d a rs b.current_size other),
        λ j m. few_total n a rs j few e (l j m),
      )
    ]

collect-nil : (d : Distributor) (n : ℕ) (a : AtSize) → collect d n [] a ≡ (a, false)
unfolding collect
collect-nil d n a = refl

transport_ending :
    (n : ℕ) (f : ℕ → List Bytes) (w : ℕ → List (Option Verifier)) {x y : AtSize × Bool}
    → x ≡ y
    → Ends n f w x.0
    → Ends n f w y.0
transport_ending n f w e h = subst (λ x. Ends n f w x.0) e h

collect-fresh :
    (d : Distributor) (n : ℕ) (r : Row) (rs : List Row)
    → let b = (collect d n rs (push_row d r (fresh r))).0 in
      Ends n (total (push_row d r (fresh r)) rs) (total_wits d (push_row d r (fresh r)) rs) b
      → Ends n (λ k. of_size k (r ∷ rs)) (λ k. wits_of d k (r ∷ rs)) b
collect-fresh d n r rs =
    Ends-along n (total (push_row d r (fresh r)) rs) (λ k. of_size k (r ∷ rs))
      (total_wits d (push_row d r (fresh r)) rs) (λ k. wits_of d k (r ∷ rs))
      (collect d n rs (push_row d r (fresh r))).0 (λ k. total-fresh d r rs k)
      (λ k. total_wits-fresh d r rs k)

collect-Ends :
    (d : Distributor) (n : ℕ) (rs : List Row) (a : AtSize)
    → 0 < n
    → AtMost a.current_size rs
    → Descending rs
    → Ends n (total a rs) (total_wits d a rs) (collect d n rs a).0
collect-Ends d n [] a pos most desc =
    transport_ending n (total a []) (total_wits d a []) (sym (collect-nil d n a))
      (elim (Bool-cases (leb n (length a.cps))) [
        | inl enough ↦ Ends-stop d n a [] pos (ground arith) tt refl refl
        | inr few ↦
            let h : length a.cps < n = ground arith in inr (h, λ k. few_total n a [] k h refl pos)
      ])
collect-Ends d n (r ∷ rs) a pos (most, mosts) (below, desc) =
    let all = total a (r ∷ rs) in
    let wits = total_wits d a (r ∷ rs) in
    elim (Bool-cases (r.size == a.current_size)) [
      | inl same ↦
          let p : r.size ≡ a.current_size = (==_iff r.size a.current_size).0 same in
          let next = push_row d r a in
          transport_ending n all wits (sym (collect-same d n r rs a same)) (
            Ends-along n (total next rs) all (total_wits d next rs) wits (collect d n rs next).0
              (λ k. total-push d r rs a k p) (λ k. total_wits-push d r rs a k p)
              (collect-Ends d n rs next pos (unfold push_row in mosts) desc))
      | inr other ↦
          let less : r.size < a.current_size = ground arith in
          let most_of : AtMost r.size (r ∷ rs) = (omega arith, below) in
          let gone = of_size_above r.size a.current_size (r ∷ rs) most_of less in
          let gone_wits = wits_of_above d r.size a.current_size (r ∷ rs) most_of less in
          elim (Bool-cases (leb n (length a.cps))) [
            | inl enough ↦
                transport_ending n all wits (sym (collect-stop d n r rs a other enough))
                  (Ends-stop d n a (r ∷ rs) pos (ground arith) (most, mosts) gone gone_wits)
            | inr few ↦ transport_ending n all wits (sym (collect-other d n r rs a other few)) (
                Ends-other d n a (collect d n rs (push_row d r (fresh r))).0 (r ∷ rs) pos
                  (ground arith) gone
                  (collect-fresh d n r rs (
                    collect-Ends d n rs (push_row d r (fresh r)) pos (unfold push_row in below)
                      desc)))
          ]
    ]

abbrev at : ℕ → AtSize
at k = record { current_size = k; wits = []; cps = [] }

abbrev pub start : AtSize
start = at 0

pub collect_lem :
    (d : Distributor) (n : ℕ) (rs : List Row)
    → 0 < n
    → Descending rs
    → let b = (collect d n rs start).0 in
      ((n ≤ length b.cps)
        × (b.cps ≡ of_size b.current_size rs)
        × (b.wits ≡ wits_of d b.current_size rs)
        × ((k : ℕ) → b.current_size < k → length (of_size k rs) < n))
      ⊎ ((length b.cps < n) × ((k : ℕ) → length (of_size k rs) < n))
collect_lem d n [] pos desc =
    transport_ending n (λ k. of_size k []) (λ k. wits_of d k []) (sym (collect-nil d n start))
      (inr (pos, λ k. pos))
collect_lem d n (r ∷ rs) pos (below, desc) =
    let rest = collect-Ends d n rs (push_row d r (fresh r)) pos (unfold push_row in below) desc in
    let all : ℕ → List Bytes = λ k. of_size k (r ∷ rs) in
    let wits : ℕ → List (Option Verifier) = λ k. wits_of d k (r ∷ rs) in
    let from_rest = collect-fresh d n r rs rest in
    elim (Bool-cases (r.size == 0)) [
      | inl zero_size ↦
          let p : r.size ≡ 0 = (==_iff r.size 0).0 zero_size in
          transport_ending n all wits
            (sym (
              collect-same d n r rs start zero_size
              ∙ ap (λ k. collect d n rs (push_row d r (at k))) (sym p)))
            from_rest
      | inr other ↦
          let few : leb n 0 ≡ false = ground arith in
          transport_ending n all wits (sym (collect-other d n r rs start other few)) from_rest
    ]
