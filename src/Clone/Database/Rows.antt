-- ===== src/Clone/Database/Rows.antt =====
-- What the statements of the cloner's database do to tables in memory.
use trillian_serverless.Base.{
  ℕ, zero, suc, ◌+◌, ◌-◌, ◌≤◌, ◌<◌, ◌≡◌, refl, sym, ◌∙◌, ap, subst, String, List, [], ◌∷◌, ◌++◌,
  append-nil, append_assoc, Bytes, Option, none, some, Result, ok, err, if◌then◌else◌, ltb, length,
  length-append, get_elem?, get_elem?-some, get_elem?-ge, get_elem?-append_left,
  get_elem?-append_last, take, drop, drop_cons, arith, Bool-cases, ◌⊎◌, inl, inr,
}
use trillian_serverless.Base.Dict.{Dict, lookup, insert, lookup-insert}
use trillian_serverless.Formats.{Hashes}
use trillian_serverless.Clone.Cloner.{DbError, no_data}
use trillian_serverless.Clone.Database.{
  nat_eq, Sql, Tables, tables, max_key, insert_new, rows_from, insert_leaves, write_leaves,
  stream_leaves, head,
}

-- The rows are these leaves, from number 0 on.
abbrev pub Numbered : List Bytes → Dict ℕ Bytes → Type 0
Numbered leaves d = (i : ℕ) → lookup i d ≡ get_elem? leaves i

Numbered-snoc :
    (leaves : List Bytes) (l : Bytes) (d : Dict ℕ Bytes)
    → Numbered leaves d
    → Numbered (leaves ++ l ∷ []) (insert (length leaves) l d)
Numbered-snoc leaves l d h i = elim (Bool-cases (ltb i (length leaves))) [
  | inl below ↦
      let lt : i < length leaves = ground (arith, below) in
      rw (lookup-insert i (length leaves) l d)
        (rw (get_elem?-append_left leaves (l ∷ []) i lt) (rw (h i) (ground arith)))
  | inr beyond ↦ elim (Bool-cases (ltb (length leaves) i)) [
    | inl above ↦
        let gt : length leaves < i = ground (arith, above) in
        let e = length-append leaves (l ∷ []) in
        rw (lookup-insert i (length leaves) l d) (
          rw (get_elem?-ge (leaves ++ l ∷ []) i (omega (arith, e, gt)))
            (rw (h i) (rw (get_elem?-ge leaves i (omega arith)) (ground arith))))
    | inr here ↦
        let eq : i ≡ length leaves = ground (arith, beyond, here) in
        rw (lookup-insert i (length leaves) l d)
          (rw (get_elem?-append_last leaves l i eq) (ground arith))
  ]
]

pub insert_new-free :
    {V : Type 0} (k : ℕ) (v : V) (d : Dict ℕ V)
    → lookup k d ≡ none
    → insert_new k v d ≡ insert k v d
insert_new-free k v d h = rw (h, insert_new) refl

-- The greatest key: none where there is no row.
abbrev pub IsMax : {V : Type 0} → Dict ℕ V → Option ℕ → Type 0
IsMax d none = (k : ℕ) → lookup k d ≡ none
IsMax {V} d (some m) = ((v : V) × (lookup m d ≡ some v)) × ((k : ℕ) → m < k → lookup k d ≡ none)

IsMax-cons :
    {V : Type 0} (j : ℕ) (w : V) (d : Dict ℕ V) (o : Option ℕ)
    → IsMax d o
    → IsMax ((j, w) ∷ d) (elim o [ none ↦ some j | some m ↦ if ltb m j then some j else some m ])
unfolding lookup
IsMax-cons j w d none h = ((w, ground arith), λ k lt. ground (arith, h k))
IsMax-cons j w d (some m) ((v, found), none_above) = elim (Bool-cases (ltb m j)) [
  | inl less ↦ rw less ((w, ground arith), λ k lt. ground (arith, none_above k, less))
  | inr more ↦ elim (Bool-cases (ltb j m)) [
    | inl apart ↦
        rw more ((v, ground (arith, found, apart)), λ k lt. ground (arith, none_above k, more))
    | inr same ↦
        rw more ((w, ground (arith, same, more)), λ k lt. ground (arith, none_above k, more))
  ]
]

pub max_key-IsMax : {V : Type 0} (d : Dict ℕ V) → IsMax d (max_key d)
unfolding max_key lookup
max_key-IsMax [] = λ k. refl
max_key-IsMax ((j, w) ∷ d) = IsMax-cons j w d (max_key d) (max_key-IsMax d)

IsMax-unique : {V : Type 0} (d : Dict ℕ V) (a b : Option ℕ) → IsMax d a → IsMax d b → a ≡ b
IsMax-unique d none none p q = refl
IsMax-unique d none (some m) p ((v, e), _) = absurd (cc (p m, e))
IsMax-unique d (some m) none ((v, e), _) q = absurd (cc (q m, e))
IsMax-unique d (some m) (some n) ((v, e), p) ((w, f), q) =
    let le : ((x : m < n) → ⊥) = λ x. absurd (cc (p n x, f)) in
    let ge : ((x : n < m) → ⊥) = λ x. absurd (cc (q m x, e)) in ap some (ground (arith, le, ge))

-- A row behind all the others has the greatest key.
pub max_key-insert :
    {V : Type 0} (k : ℕ) (v : V) (d : Dict ℕ V)
    → IsMax d none ⊎ ((m : ℕ) × IsMax d (some m) × (m < k))
    → max_key (insert k v d) ≡ some k
max_key-insert k v d h =
    IsMax-unique (insert k v d) (max_key (insert k v d)) (some k) (max_key-IsMax (insert k v d)) (
      (v, rw (lookup-insert k k v d) (ground arith)),
      λ j lt. rw (lookup-insert j k v d) (elim h [
        | inl vacant ↦ ground (arith, vacant j)
        | inr (m, (_, above), less) ↦ ground (arith, above j (omega (arith, less, lt)))
      ]),
    )

-- The index of the last leaf.
abbrev pub last_index : List Bytes → Option ℕ
last_index [] = none
last_index (l ∷ ls) = some (length ls)

last_index-IsMax :
    (leaves : List Bytes) (d : Dict ℕ Bytes) → Numbered leaves d → IsMax d (last_index leaves)
last_index-IsMax [] d h = h
last_index-IsMax (l ∷ ls) d h =
    let (b, e) = get_elem?-some (l ∷ ls) (length ls) (omega arith) in
    ((b, h (length ls) ∙ e), λ k lt. h k ∙ get_elem?-ge (l ∷ ls) k (omega arith))

abbrev pub last_or_none : List Bytes → Result DbError ℕ
last_or_none [] = err no_data
last_or_none (l ∷ ls) = ok (length ls)

pub rows_from-Numbered :
    (leaves : List Bytes) (d : Dict ℕ Bytes) (n i : ℕ)
    → Numbered leaves d
    → n + i ≤ length leaves
    → rows_from n i d ≡ take n (drop i leaves)
unfolding rows_from
rows_from-Numbered leaves d zero i h le = refl
rows_from-Numbered leaves d (suc n) i h le =
    let (b, e) = get_elem?-some leaves i (omega (arith, le)) in
    let rest = rows_from-Numbered leaves d n (i + 1) h (omega (arith, le)) in
    rw (drop_cons leaves i b e) (rw (h i) (rw e (ap (λ x. b ∷ x) rest)))

-- Rows from a number on, each of which is new.
unfoldable pub insert_rows : ℕ → List Bytes → Dict ℕ Bytes → Dict ℕ Bytes
insert_rows i [] d = d
insert_rows i (l ∷ ls) d = insert_rows (i + 1) ls (insert_new i l d)

pub insert_rows-Numbered :
    (leaves ls : List Bytes) (d : Dict ℕ Bytes)
    → Numbered leaves d
    → Numbered (leaves ++ ls) (insert_rows (length leaves) ls d)
unfolding insert_rows
insert_rows-Numbered leaves [] d h = rw append-nil h
insert_rows-Numbered leaves (l ∷ ls) d h =
    let vacant = h (length leaves) ∙ get_elem?-ge leaves (length leaves) (omega arith) in
    let longer = leaves ++ l ∷ [] in
    let next = insert (length leaves) l d in
    let n : length leaves + 1 ≡ length longer = omega (arith, length-append leaves (l ∷ [])) in
    let after = ap (λ i. insert_rows i ls next) n in
    let stepped =
      ap (insert_rows (length leaves + 1) ls) (insert_new-free (length leaves) l d vacant) in
    subst (Numbered (leaves ++ l ∷ ls)) (sym (stepped ∙ after)) (
      subst (λ x. Numbered x (insert_rows (length longer) ls next))
        (append_assoc leaves (l ∷ []) ls)
        (insert_rows-Numbered longer ls next (Numbered-snoc leaves l d h)))

-- The greatest key of numbered rows.
pub max_key-Numbered :
    (leaves : List Bytes) (d : Dict ℕ Bytes) → Numbered leaves d → max_key d ≡ last_index leaves
max_key-Numbered leaves d h =
    IsMax-unique d (max_key d) (last_index leaves) (max_key-IsMax d) (last_index-IsMax leaves d h)

module _ (encode : Hashes → Result String Bytes) (decode : Bytes → Result String Hashes) where
  abbrev db : Sql
  db = tables encode decode

  insert_leaves-insert_rows :
      (ls : List Bytes) (i : ℕ) (s : Tables)
      → insert_leaves db i ls s ≡ record s { leaves = insert_rows i ls s.leaves }
  unfolding insert_leaves insert_rows
  insert_leaves-insert_rows [] i s = refl
  insert_leaves-insert_rows (l ∷ ls) i s =
      insert_leaves-insert_rows ls (i + 1) (record s { leaves = insert_new i l s.leaves })

  insert_leaves-Numbered :
      (leaves ls : List Bytes) (s : Tables)
      → Numbered leaves s.leaves
      → Numbered (leaves ++ ls) (insert_leaves db (length leaves) ls s).leaves
  insert_leaves-Numbered leaves ls s h =
      subst (λ t. Numbered (leaves ++ ls) t.leaves)
        (sym (insert_leaves-insert_rows ls (length leaves) s))
        (insert_rows-Numbered leaves ls s.leaves h)

  pub stream_leaves_lem :
      (leaves : List Bytes) (s : Tables) (start end : ℕ)
      → Numbered leaves s.leaves
      → start ≤ end
      → end ≤ length leaves
      → stream_leaves db start end s ≡ (take (end - start) (drop start leaves), none)
  unfolding stream_leaves
  stream_leaves_lem leaves s start end h le within =
      rw (rows_from-Numbered leaves s.leaves (end - start) start h (omega (arith, le, within))) refl

  pub head_lem :
      (leaves : List Bytes) (s : Tables)
      → Numbered leaves s.leaves
      → head db s ≡ last_or_none leaves
  unfolding head
  head_lem [] s h = rw (max_key-Numbered [] s.leaves h, head) refl
  head_lem (l ∷ ls) s h = rw (max_key-Numbered (l ∷ ls) s.leaves h, head) refl

  -- On tables in memory that hold leaves from number 0 on, a chunk that is written behind the last
  -- leaf is there to be read: the head is the last index, every span of leaves is streamed in order
  -- and without an error, and the checkpoints are as they were.
  pub write_leaves-stream_leaves :
      (leaves ls : List Bytes) (s : Tables)
      → Numbered leaves s.leaves
      → (t : Tables) × (write_leaves db (length leaves) ls s ≡ ok t)
        × Numbered (leaves ++ ls) t.leaves
        × (head db t ≡ last_or_none (leaves ++ ls))
        × ((start end : ℕ)
            → start ≤ end
            → end ≤ length (leaves ++ ls)
            → stream_leaves db start end t ≡ (take (end - start) (drop start (leaves ++ ls)), none))
        × (t.checkpoints ≡ s.checkpoints)
  unfolding write_leaves
  write_leaves-stream_leaves leaves ls s h =
      let t = insert_leaves db (length leaves) ls s in
      let k = insert_leaves-Numbered leaves ls s h in
      (
        t,
        refl,
        k,
        head_lem (leaves ++ ls) t k,
        λ start end. stream_leaves_lem (leaves ++ ls) t start end k,
        ap (λ u. u.checkpoints) (insert_leaves-insert_rows ls (length leaves) s),
      )
