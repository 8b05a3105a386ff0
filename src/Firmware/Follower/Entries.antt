-- ===== src/Firmware/Follower/Entries.antt =====
-- The entries that a follower sends: each was checked, they come in order, and one that could not
-- be fetched in its turn does not come later.
use trillian_serverless.Base.{
  In, ℕ, zero, suc, ◌+◌, ◌-◌, ◌<◌, ◌≤◌, ◌≡◌, ◌≢◌, refl, ◌∙◌, ap, subst, inl, inr, String, List, [],
  ◌∷◌, ◌++◌, Option, none, some, ok, err, or_fail, or_fail-ok, bind-ok, ok-injective, arith, ltb,
  Result-cases, if◌then◌else◌,
}
use trillian_serverless.Firmware.{SignedStatement}
use trillian_serverless.Firmware.Log.{
  LogCheckpoint, ManifestEntry, HttpGet, get_manifest_entry_and_proof,
}
use trillian_serverless.Firmware.Follower.{
  LogEntry, FollowError, failed, not_included, Claimant, claimant_for_type, Calls, check_statement,
  check_entry, entries_below, and_then, entries,
}

-- No entry is for the index.
abbrev pub NotAt : ℕ → List LogEntry → Type 0
NotAt i [] = Unit
NotAt i (x ∷ xs) = (x.index ≢ i) × NotAt i xs

NotAt-append : (i : ℕ) (xs ys : List LogEntry) → NotAt i xs → NotAt i ys → NotAt i (xs ++ ys)
NotAt-append i [] ys h k = k
NotAt-append i (x ∷ xs) ys h k = (h.0, NotAt-append i xs ys h.1 k)

module _ (c : Calls) where
  -- What was checked of an entry that the log served with a proof for a checkpoint.
  abbrev pub Included : LogCheckpoint → ManifestEntry → SignedStatement → Type 0
  Included cp ep stmt =
      (c.verify_inclusion ep.leaf_index cp.checkpoint.size (c.hash_leaf ep.value) ep.proof
          cp.checkpoint.hash
        ≡ ok tt)
      × (c.read_statement ep.value ≡ ok stmt)
      × ((k : Claimant) × (claimant_for_type stmt.statement_type ≡ ok k)
          × (c.verify_pss k (stmt.statement_type ∷ stmt.statement) stmt.signature ≡ ok tt))

  abbrev pub Served : HttpGet → LogEntry → Type 0
  Served get x =
      (x.index < x.root.checkpoint.size)
      × ((ep : ManifestEntry) × (get_manifest_entry_and_proof c.formats get x.index
              x.root.checkpoint.size
            ≡ ok ep)
          × Included x.root ep x.value)

  check_entry-Included :
      (cp : LogCheckpoint) (ep : ManifestEntry) (stmt : SignedStatement)
      → check_entry c cp ep ≡ ok stmt
      → Included cp ep stmt
  unfolding check_entry check_statement
  check_entry-Included cp ep stmt h =
      let (_, h1, k1) = bind-ok (or_fail _ (λ _. not_included cp ep)) _ stmt h in
      let (s, h2, k2) = bind-ok (or_fail (c.read_statement ep.value) _) _ stmt k1 in
      let (k, h3, k3) = bind-ok (or_fail (claimant_for_type s.statement_type) failed) _ stmt k2 in
      let (_, h4, k4) =
        bind-ok (or_fail (c.verify_pss k (s.statement_type ∷ s.statement) s.signature) _) _ stmt
          k3 in
      let same : s ≡ stmt = ok-injective s stmt k4 in
      (
        or_fail-ok _ _ tt h1,
        or_fail-ok _ _ s h2 ∙ ap ok same,
        subst
            (λ t.
              (k : Claimant) × (claimant_for_type t.statement_type ≡ ok k)
              × (c.verify_pss k (t.statement_type ∷ t.statement) t.signature ≡ ok tt))
            same (k, or_fail-ok _ _ k h3, or_fail-ok _ _ tt h4),
      )

  entries_below-NotAt :
      (i : ℕ) (get : HttpGet) (cp : LogCheckpoint) (left head : ℕ) (e : String)
      → left ≤ cp.checkpoint.size - head
      → get_manifest_entry_and_proof c.formats get i cp.checkpoint.size ≡ err e
      → NotAt i (entries_below c get cp left head).0
  unfolding entries_below
  entries_below-NotAt i get cp zero head e le miss = tt
  entries_below-NotAt i get cp (suc left) head e le miss =
      let rest = entries_below-NotAt i get cp left (head + 1) e (omega (arith, le)) miss in
      elim (Result-cases (get_manifest_entry_and_proof c.formats get head cp.checkpoint.size)) [
        | inr (_, h) ↦ rw (h, entries_below) rest
        | inl (ep, h) ↦ elim (Result-cases (check_entry c cp ep)) [
          | inr (_, k) ↦ rw (h, k, entries_below) tt
          | inl (stmt, k) ↦ rw (h, k, entries_below) ((λ same. cc (same, h, miss)), rest)
        ]
      ]

  module _ (cps : List (HttpGet × LogCheckpoint)) where
    -- Entries of these checkpoints with rising indexes from `low` on and below `high`, all checked.
    abbrev pub Rising : ℕ → ℕ → List LogEntry → Type 0
    Rising low high [] = low ≤ high
    Rising low high (x ∷ xs) =
        (low ≤ x.index)
        × ((get : HttpGet) × In (get, x.root) cps × Served get x)
        × Rising (x.index + 1) high xs

    Rising-from :
        (low low' high : ℕ) (xs : List LogEntry)
        → low ≤ low'
        → Rising low' high xs
        → Rising low high xs
    Rising-from low low' high [] le h = omega arith
    Rising-from low low' high (x ∷ xs) le h = (omega (arith, h.0), h.1, h.2)

    Rising-append :
        (low mid high : ℕ) (xs ys : List LogEntry)
        → Rising low mid xs
        → Rising mid high ys
        → Rising low high (xs ++ ys)
    Rising-append low mid high [] ys h k = Rising-from low mid high ys h k
    Rising-append low mid high (x ∷ xs) ys h k =
        (h.0, h.1, Rising-append (x.index + 1) mid high xs ys h.2 k)

    Rising-NotAt : (i low high : ℕ) (xs : List LogEntry) → i < low → Rising low high xs → NotAt i xs
    Rising-NotAt i low high [] lt h = tt
    Rising-NotAt i low high (x ∷ xs) lt h = (
      λ e. absurd (omega (arith, h.0, e)),
      Rising-NotAt i (x.index + 1) high xs (omega (arith, h.0)) h.2,
    )

    module _ (get : HttpGet) (cp : LogCheckpoint) (there : In (get, cp) cps) where
      entries_below-Rising :
          (left head : ℕ)
          → left ≤ cp.checkpoint.size - head
          → (high : ℕ) × (high ≤ left + head)
            × (head ≤ high)
            × Rising head high (entries_below c get cp left head).0
      unfolding entries_below
      entries_below-Rising zero head le = (head, omega arith, omega arith, omega arith)
      entries_below-Rising (suc left) head le =
          let (high, l, u, rest) = entries_below-Rising left (head + 1) (omega (arith, le)) in
          elim (Result-cases (get_manifest_entry_and_proof c.formats get head cp.checkpoint.size)) [
            | inr (e, h) ↦
                rw (h, entries_below)
                  (
                    high,
                    omega (arith, l),
                    omega (arith, u),
                    Rising-from head (head + 1) high _ (omega arith) rest,
                  )
            | inl (ep, h) ↦ elim (Result-cases (check_entry c cp ep)) [
              | inr (e, k) ↦ rw (h, k, entries_below) (head, omega arith, omega arith, omega arith)
              | inl (stmt, k) ↦
                  rw (h, k, entries_below)
                    (
                      high,
                      omega (arith, l),
                      omega (arith, u),
                      (
                        omega arith,
                        (
                          get,
                          there,
                          (omega (arith, le), (ep, h, check_entry-Included cp ep stmt k)),
                        ),
                        rest,
                      ),
                    )
            ]
          ]

    and_then-Rising :
        (p q : List LogEntry × Option FollowError) (low mid high : ℕ)
        → Rising low mid p.0
        → Rising mid high q.0
        → (h : ℕ) × Rising low h (and_then p q).0
    and_then-Rising (xs, some e) q low mid high h k = (mid, h)
    and_then-Rising (xs, none) (ys, e) low mid high h k =
        (high, Rising-append low mid high xs ys h k)

    entries_of-Rising :
        (todo : List (HttpGet × LogCheckpoint)) (head : ℕ)
        → ((p : HttpGet × LogCheckpoint) → In p todo → In p cps)
        → (high : ℕ) × Rising head high (entries c todo head).0
    unfolding entries
    entries_of-Rising [] head sub = (head, omega arith)
    entries_of-Rising ((get, cp) ∷ todo) head sub =
        let size = cp.checkpoint.size in
        let next = if ltb head size then size else head in
        let (mid, le, _, now) =
          entries_below-Rising get cp (sub (get, cp) (inl refl)) (size - head) head (omega arith) in
        let (high, later) = entries_of-Rising todo next (λ p i. sub p (inr i)) in
        and_then-Rising (entries_below c get cp (size - head) head) (entries c todo next) head mid
          high now (Rising-from mid next high _ (ground (arith, le)) later)

  -- The entries that are sent have rising indexes from the head on, each below the size of a
  -- checkpoint that arrived; the log served each one for its index and that size, with a value that
  -- is included in the checkpoint at the index that the log named, and that reads as the statement
  -- sent, with the signature of the claimant for its type.
  pub entries-Rising :
      (cps : List (HttpGet × LogCheckpoint)) (head : ℕ)
      → (high : ℕ) × Rising cps head high (entries c cps head).0
  entries-Rising cps head = entries_of-Rising cps cps head (λ p i. i)

  and_then-NotAt :
      (i : ℕ) (p q : List LogEntry × Option FollowError)
      → NotAt i p.0
      → NotAt i q.0
      → NotAt i (and_then p q).0
  and_then-NotAt i (xs, some e) q h k = h
  and_then-NotAt i (xs, none) (ys, e) h k = NotAt-append i xs ys h k

  -- An entry below the size of the next checkpoint that cannot be fetched when that arrives is not
  -- sent, for this checkpoint or for any later one.
  pub entries-NotAt :
      (get : HttpGet) (cp : LogCheckpoint) (cps : List (HttpGet × LogCheckpoint)) (head i : ℕ)
      (e : String)
      → i < cp.checkpoint.size
      → get_manifest_entry_and_proof c.formats get i cp.checkpoint.size ≡ err e
      → NotAt i (entries c ((get, cp) ∷ cps) head).0
  unfolding entries
  entries-NotAt get cp cps head i e lt miss =
      let size = cp.checkpoint.size in
      let next = if ltb head size then size else head in
      let (high, later) = entries-Rising cps next in
      and_then-NotAt i (entries_below c get cp (size - head) head) (entries c cps next)
        (entries_below-NotAt i get cp (size - head) head e (omega arith) miss)
        (Rising-NotAt cps i next high _ (ground (arith, lt)) later)
