-- ===== src/Serverless/Slots/Order.antt =====
-- The combined checkpoints in the order of their sizes.
use trillian_serverless.Base.{
  ℕ, ◌≤◌, ◌≡◌, refl, subst, true, false, List, [], ◌∷◌, leb, arith, Bool-cases, inl, inr,
}
use trillian_serverless.Serverless.Client.Tracker.{Found}
use trillian_serverless.Serverless.Consensus.Laws.{Qualified}
use trillian_serverless.Serverless.Slots.{insert_by_size, sort_by_size}

-- No checkpoint of the list is larger.
abbrev pub NoneLarger : Found → List Found → Type 0
NoneLarger c cs = (n : ℕ) (d : Found) → Qualified n d cs → d.cp.size ≤ c.cp.size

-- The largest first.
abbrev pub Sorted : List Found → Type 0
Sorted [] = Unit {0}
Sorted (c ∷ cs) = NoneLarger c cs × Sorted cs

insert_first :
    (c e : Found) (es : List Found)
    → leb e.cp.size c.cp.size ≡ true
    → insert_by_size c (e ∷ es) ≡ c ∷ e ∷ es
unfolding insert_by_size
insert_first c e es h = rw (h, insert_by_size) refl

insert_later :
    (c e : Found) (es : List Found)
    → leb e.cp.size c.cp.size ≡ false
    → insert_by_size c (e ∷ es) ≡ e ∷ insert_by_size c es
unfolding insert_by_size
insert_later c e es h = rw (h, insert_by_size) refl

-- The sort keeps the checkpoints.
insert-Qualified :
    (n : ℕ) (c d : Found) (cs : List Found)
    → (Qualified n d (insert_by_size c cs) → Qualified n d (c ∷ cs))
      × (Qualified n d (c ∷ cs) → Qualified n d (insert_by_size c cs))
insert-Qualified n c d [] = unfold insert_by_size in ((λ h. h), (λ h. h))
insert-Qualified n c d (e ∷ es) = elim (Bool-cases (leb e.cp.size c.cp.size)) [
  | inl first ↦ rw (insert_first c e es first) ((λ h. h), (λ h. h))
  | inr later ↦
      let (to, from) = insert-Qualified n c d es in
      rw (insert_later c e es later) (
        λ h. elim h [
          | inl here ↦ inr (inl here)
          | inr there ↦ elim (to there) [ inl x ↦ inl x | inr x ↦ inr (inr x) ]
        ],
        λ h. elim h [
          | inl here ↦ inr (from (inl here))
          | inr (inl x) ↦ inl x
          | inr (inr x) ↦ inr (from (inr x))
        ],
      )
]

pub sort-Qualified :
    (n : ℕ) (d : Found) (cs : List Found)
    → (Qualified n d (sort_by_size cs) → Qualified n d cs)
      × (Qualified n d cs → Qualified n d (sort_by_size cs))
unfolding sort_by_size
sort-Qualified n d [] = ((λ h. h), (λ h. h))
sort-Qualified n d (c ∷ cs) =
    let (to, from) = sort-Qualified n d cs in
    let (out, in_) = insert-Qualified n c d (sort_by_size cs) in
    (
      λ h. elim (out h) [ inl x ↦ inl x | inr x ↦ inr (to x) ],
      λ h. elim h [ inl x ↦ in_ (inl x) | inr x ↦ in_ (inr (from x)) ],
    )

pub larger_than_head :
    (c e : Found) (es : List Found)
    → e.cp.size ≤ c.cp.size
    → NoneLarger e es
    → NoneLarger c (e ∷ es)
larger_than_head c e es le top n d (inl (same, sigs)) = subst (λ x. x.cp.size ≤ c.cp.size) same le
larger_than_head c e es le top n d (inr h) = let k = top n d h in omega (arith, k, le)

insert-Sorted : (c : Found) (cs : List Found) → Sorted cs → Sorted (insert_by_size c cs)
insert-Sorted c [] h = unfold insert_by_size in ((λ n d x. absurd x), tt)
insert-Sorted c (e ∷ es) (top, h) = elim (Bool-cases (leb e.cp.size c.cp.size)) [
  | inl first ↦
      rw (insert_first c e es first) (larger_than_head c e es (ground (arith, first)) top, (top, h))
  | inr later ↦
      let le : c.cp.size ≤ e.cp.size = ground (arith, later) in
      rw (insert_later c e es later) (
        λ n d x. elim ((insert-Qualified n c d es).0 x) [
          | inl (same, sigs) ↦ subst (λ y. y.cp.size ≤ e.cp.size) same le
          | inr y ↦ top n d y
        ],
        insert-Sorted c es h,
      )
]

pub sort-Sorted : (cs : List Found) → Sorted (sort_by_size cs)
unfolding sort_by_size
sort-Sorted [] = tt
sort-Sorted (c ∷ cs) = insert-Sorted c (sort_by_size cs) (sort-Sorted cs)
