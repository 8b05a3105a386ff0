-- ===== src/SumDb/Service/Verified.antt =====
-- How `VerifyTiles` ends, where the tiles can be read and fetched.
use trillian_serverless.Base.{
  ℕ, zero, suc, ◌+◌, ◌<◌, ◌≤◌, ◌≡◌, ◌≢◌, refl, sym, ◌∙◌, ap, subst, ◌⊎◌, inl, inr, List, [], ◌∷◌,
  ◌++◌, map, Bytes, Option, none, some, Result, ok, err, or_fail, arith, ◌=?◌, bytes_eq, ◌==◌,
  ==_iff, Bool-cases, true, false,
}
use trillian_serverless.Base.Exec.{Exec, pure, lift, recast, step, stop, ◌>>=◌, ◌>>◌}
use trillian_serverless.SumDb.Client.{
  AuditError, no_data, panic, failed, Checkpoint, Client, tile_hashes,
}
use trillian_serverless.SumDb.Database.{Sql, get_tile}
use trillian_serverless.SumDb.Service.{Ranges, wrapped, to_hash, or_none, level_count}
use trillian_serverless.SumDb.Service.Sync.{
  compare_hashes, verify_level, verify_levels, verify_tiles,
}

equal_bytes : (a b : Bytes) → (a =? b) ≡ true → a ≡ b
equal_bytes a b h = ground (arith, h)

other_bytes : (a b : Bytes) → (a =? b) ≡ false → a ≢ b
other_bytes a b h e =
    let same : (a =? a) ≡ true = ground arith in
    let differ : (a =? a) ≡ false = subst (λ x. (a =? x) ≡ false) (sym e) h in
    absurd (cc (same, differ))

-- The remote hashes begin with the local ones.
abbrev pub Agrees : List Bytes → List Bytes → Type 0
Agrees local remote = (rest : List Bytes) × (remote ≡ map to_hash local ++ rest)

-- What is wrong with a tile, and the error: after hashes that are the same, the next ones differ, or
-- there is no remote one, where the index is out of range.
abbrev pub Wrong : List Bytes → List Bytes → Result AuditError (Unit {0}) → Type 0
Wrong local remote res =
    (before : List Bytes) × (h : Bytes) × (after : List Bytes) × (local ≡ before ++ h ∷ after)
    × (((other : Bytes) × (rest : List Bytes) × (remote ≡ map to_hash before ++ other ∷ rest)
          × (to_hash h ≢ other)
          × (res ≡ err (failed "found mismatched hash")))
        ⊎ ((remote ≡ map to_hash before) × (res ≡ err panic)))

abbrev Compared : List Bytes → List Bytes → Result AuditError (Unit {0}) → Type 0
Compared local remote res = ((res ≡ ok tt) × Agrees local remote) ⊎ Wrong local remote res

Compared-cons :
    (h o : Bytes) (hs os : List Bytes) (res : Result AuditError (Unit {0}))
    → to_hash h ≡ o
    → Compared hs os res
    → Compared (h ∷ hs) (o ∷ os) res
Compared-cons h o hs os res same (inl (good, (rest, e))) =
    inl (good, (rest, ap (λ x. x ∷ os) (sym same) ∙ ap (λ l. to_hash h ∷ l) e))
Compared-cons h o hs os res same (inr (before, g, after, e, inl (other, rest, f, differ, bad))) =
    inr (
      h ∷ before,
      g,
      after,
      ap (λ l. h ∷ l) e,
      inl (other, rest, ap (λ x. x ∷ os) (sym same) ∙ ap (λ l. to_hash h ∷ l) f, differ, bad),
    )
Compared-cons h o hs os res same (inr (before, g, after, e, inr (f, bad))) = inr (
  h ∷ before,
  g,
  after,
  ap (λ l. h ∷ l) e,
  inr (ap (λ x. x ∷ os) (sym same) ∙ ap (λ l. to_hash h ∷ l) f, bad),
)

compare_hashes-Compared :
    (local remote : List Bytes) → Compared local remote (compare_hashes local remote)
unfolding compare_hashes
compare_hashes-Compared [] remote = inl (refl, (remote, refl))
compare_hashes-Compared (h ∷ hs) [] = inr ([], h, hs, refl, inr (refl, refl))
compare_hashes-Compared (h ∷ hs) (o ∷ os) = elim (Bool-cases (to_hash h =? o)) [
  | inl same ↦ rw same (
      Compared-cons h o hs os (compare_hashes hs os) (equal_bytes (to_hash h) o same)
        (compare_hashes-Compared hs os))
  | inr differ ↦
      rw differ (inr ([], h, hs, refl, inl (o, os, refl, other_bytes (to_hash h) o differ, refl)))
]

-- The first error of two.
abbrev first :
    Result AuditError (Unit {0}) → Result AuditError (Unit {0}) → Result AuditError (Unit {0})
first (ok _) rest = rest
first (err e) rest = err e

module _ (local remote : ℕ → ℕ → List Bytes) where
  -- The comparison of the tiles of a level from an offset on.
  abbrev level_result : ℕ → ℕ → ℕ → Result AuditError (Unit {0})
  level_result zero level offset = ok tt
  level_result (suc n) level offset =
      first (compare_hashes (local level offset) (remote level offset))
        (level_result n level (offset + 1))

  abbrev levels_result : (ℕ → ℕ) → ℕ → ℕ → Result AuditError (Unit {0})
  levels_result count zero level = ok tt
  levels_result count (suc n) level =
      first (level_result (count level) level 0) (levels_result count n (level + 1))

  abbrev LevelVerdict : ℕ → ℕ → ℕ → Result AuditError (Unit {0}) → Type 0
  LevelVerdict n level offset res =
      ((res ≡ ok tt)
        × ((o : ℕ) → offset ≤ o → o < offset + n → Agrees (local level o) (remote level o)))
      ⊎ ((o : ℕ) × (offset ≤ o) × (o < offset + n) × Wrong (local level o) (remote level o) res)

  -- No error where each of the tiles agrees; else the error of one that does not.
  abbrev pub Verdict : (ℕ → ℕ) → ℕ → ℕ → Result AuditError (Unit {0}) → Type 0
  Verdict count n level res =
      ((res ≡ ok tt)
        × ((l o : ℕ) → level ≤ l → l < level + n → o < count l → Agrees (local l o) (remote l o)))
      ⊎ ((l : ℕ) × (o : ℕ) × (level ≤ l)
          × (l < level + n)
          × (o < count l)
          × Wrong (local l o) (remote l o) res)

  Wrong-err :
      (here there : List Bytes) (res rest : Result AuditError (Unit {0}))
      → Wrong here there res
      → Wrong here there (first res rest)
  Wrong-err here there res rest (b, h, a, e, inl (x, r, f, d, bad)) =
      (b, h, a, e, inl (x, r, f, d, ap (λ y. first y rest) bad))
  Wrong-err here there res rest (b, h, a, e, inr (f, bad)) =
      (b, h, a, e, inr (f, ap (λ y. first y rest) bad))

  level_step :
      (n level offset : ℕ) (res rest : Result AuditError (Unit {0}))
      → Compared (local level offset) (remote level offset) res
      → LevelVerdict n level (offset + 1) rest
      → LevelVerdict (suc n) level offset (first res rest)
  level_step n level offset res rest (inr wrong) later = inr (
    offset,
    omega arith,
    omega arith,
    Wrong-err (local level offset) (remote level offset) res rest wrong,
  )
  level_step n level offset res rest (inl (good, agrees)) (inr (o, from, to, wrong)) = inr (
    o,
    omega (arith, from),
    omega (arith, to),
    subst (λ y. Wrong (local level o) (remote level o) (first y rest)) (sym good) wrong,
  )
  level_step n level offset res rest (inl (good, agrees)) (inl (fine, all)) = inl (
    ap (λ y. first y rest) good ∙ fine,
    λ o from to. elim (Bool-cases (o == offset)) [
      | inl here ↦
          subst (λ x. Agrees (local level x) (remote level x)) (sym ((==_iff o offset).0 here))
            agrees
      | inr further ↦ all o (ground (arith, from, further)) (omega (arith, to))
    ],
  )

  level_result-Verdict :
      (n level offset : ℕ) → LevelVerdict n level offset (level_result n level offset)
  level_result-Verdict zero level offset = inl (refl, λ o from to. absurd (omega (arith, from, to)))
  level_result-Verdict (suc n) level offset =
      level_step n level offset (compare_hashes (local level offset) (remote level offset))
        (level_result n level (offset + 1))
        (compare_hashes-Compared (local level offset) (remote level offset))
        (level_result-Verdict n level (offset + 1))

  levels_step :
      (count : ℕ → ℕ) (n level : ℕ) (res rest : Result AuditError (Unit {0}))
      → LevelVerdict (count level) level 0 res
      → Verdict count n (level + 1) rest
      → Verdict count (suc n) level (first res rest)
  levels_step count n level res rest (inr (o, from, to, wrong)) later = inr (
    level,
    o,
    omega arith,
    omega arith,
    omega (arith, to),
    Wrong-err (local level o) (remote level o) res rest wrong,
  )
  levels_step count n level res rest (inl (good, agree)) (inr (l, o, from, to, inside, wrong)) =
      inr (
        l,
        o,
        omega (arith, from),
        omega (arith, to),
        inside,
        subst (λ y. Wrong (local l o) (remote l o) (first y rest)) (sym good) wrong,
      )
  levels_step count n level res rest (inl (good, agree)) (inl (fine, all)) = inl (
    ap (λ y. first y rest) good ∙ fine,
    λ l o from to inside. elim (Bool-cases (l == level)) [
      | inl here ↦
          let same = (==_iff l level).0 here in
          subst (λ x. Agrees (local x o) (remote x o)) (sym same)
            (agree o (omega arith) (subst (λ x. o < 0 + count x) same (omega (arith, inside))))
      | inr further ↦ all l o (ground (arith, from, further)) (omega (arith, to)) inside
    ],
  )

  levels_result-Verdict :
      (count : ℕ → ℕ) (n level : ℕ) → Verdict count n level (levels_result count n level)
  levels_result-Verdict count zero level =
      inl (refl, λ l o from to inside. absurd (omega (arith, from, to)))
  levels_result-Verdict count (suc n) level =
      levels_step count n level (level_result (count level) level 0)
        (levels_result count n (level + 1)) (level_result-Verdict (count level) level 0)
        (levels_result-Verdict count n (level + 1))

module _ {Range : Type 0} (q : Sql) (r : Ranges Range) (c : Client) (height : ℕ)
    (local remote : ℕ → ℕ → List Bytes) (count : ℕ → ℕ) (s : q.State) where
  -- Each level has this many tiles here, and all of them can be fetched.
  abbrev pub Readable : ℕ → Type 0
  Readable level =
      ((o : ℕ) → o < count level → get_tile q height level o s ≡ (ok (local level o), s))
      × (get_tile q height level (count level) s ≡ (err no_data, s))
      × ((o : ℕ) → o < count level → tile_hashes c level o 0 ≡ ok (remote level o))

  abbrev Call : Type 0
  Call = Exec q.State AuditError (Unit {0})

  abbrev look_up : ℕ → ℕ → Exec q.State AuditError (Option (List Bytes))
  look_up level offset =
      or_none (recast (get_tile q height level offset) (wrapped "failed to get tile hashes"))

  -- What is done with the tile that was looked up.
  abbrev compare_tile : ℕ → ℕ → ℕ → Option (List Bytes) → Call
  compare_tile fuel level offset stored = elim stored [
    | none ↦ pure tt
    | some hashes ↦ do
      other ← lift (or_fail (tile_hashes c level offset 0) (wrapped "failed to get tile hashes"))
      lift (compare_hashes hashes other)
      verify_level q r c height fuel level (offset + 1)
  ]

  both :
      (res rest : Result AuditError (Unit {0})) (m k : Call)
      → m s ≡ (res, s)
      → k s ≡ (rest, s)
      → (m >> k) s ≡ (first res rest, s)
  both (ok tt) rest m k h e = step m (λ _. k) s s tt h ∙ e
  both (err f) rest m k h e = stop m (λ _. k) s s f h

  verify_level_lem :
      (level n fuel offset : ℕ)
      → Readable level
      → n < fuel
      → offset + n ≡ count level
      → verify_level q r c height fuel level offset s
        ≡ (level_result local remote n level offset, s)
  unfolding verify_level
  verify_level_lem level n zero offset h enough e = absurd (omega (arith, enough))
  verify_level_lem level zero (suc fuel) offset h enough e =
      let at : offset ≡ count level = omega (arith, e) in
      let missing = subst (λ o. get_tile q height level o s ≡ (err no_data, s)) (sym at) (h.1) in
      let found =
        ap (λ p. or_none (recast (λ _. p) (wrapped "failed to get tile hashes")) s) missing in
      step (look_up level offset) (compare_tile fuel level offset) s s none found
  verify_level_lem level (suc n) (suc fuel) offset h enough e =
      let inside : offset < count level = omega (arith, e) in
      let stored = h.0 offset inside in
      let found =
        ap (λ p. or_none (recast (λ _. p) (wrapped "failed to get tile hashes")) s) stored in
      let rest =
        verify_level_lem level n fuel (offset + 1) h (omega (arith, enough)) (omega (arith, e)) in
      let test : List Bytes → Call = λ other. (do
        lift (compare_hashes (local level offset) other)
        verify_level q r c height fuel level (offset + 1)) in
      step (look_up level offset) (compare_tile fuel level offset) s s (some (local level offset))
        found
      ∙ ap (λ x. (lift (or_fail x (wrapped "failed to get tile hashes")) >>= test) s)
          (h.2 offset inside)
      ∙ both (compare_hashes (local level offset) (remote level offset))
          (level_result local remote n level (offset + 1))
          (lift (compare_hashes (local level offset) (remote level offset)))
          (verify_level q r c height fuel level (offset + 1)) refl rest

  verify_levels_lem :
      (n fuel level : ℕ)
      → ((l : ℕ) → l < level + n → Readable l)
      → ((l : ℕ) → l < level + n → count l < fuel)
      → verify_levels q r c height fuel n level s ≡ (levels_result local remote count n level, s)
  unfolding verify_levels
  verify_levels_lem zero fuel level h enough = refl
  verify_levels_lem (suc n) fuel level h enough =
      let here : level < level + suc n = omega arith in
      let e : (level + 1) + n ≡ level + suc n = omega arith in
      both (level_result local remote (count level) level 0)
        (levels_result local remote count n (level + 1)) (verify_level q r c height fuel level 0)
        (verify_levels q r c height fuel n (level + 1))
        (verify_level_lem level (count level) fuel 0 (h level here) (enough level here)
          (omega arith))
        (verify_levels_lem n fuel (level + 1) (λ l lt. h l (omega (arith, lt)))
          (λ l lt. enough l (omega (arith, lt))))

  -- Where the first tiles of each level can be read, the next one is missing, and all of them can
  -- be fetched, and with more fuel than a level has tiles: VerifyTiles ends and leaves the tables as
  -- they were. Either it gives no error, and the hashes fetched for each of these tiles begin with
  -- those that are stored, copied into arrays; or after hashes of a tile that are the same the next
  -- ones differ, with the error for that, or no more are fetched, with an index out of range.
  pub verify_tiles_lem :
      (fuel : ℕ) (cp : Checkpoint)
      → ((l : ℕ) → l < level_count height cp.size → Readable l)
      → ((l : ℕ) → l < level_count height cp.size → count l < fuel)
      → (res : Result AuditError (Unit {0})) × (verify_tiles q r c height fuel cp s ≡ (res, s))
        × Verdict local remote count (level_count height cp.size) 0 res
  unfolding verify_tiles
  verify_tiles_lem fuel cp h enough = (
    levels_result local remote count (level_count height cp.size) 0,
    verify_levels_lem (level_count height cp.size) fuel 0 (λ l lt. h l (omega (arith, lt)))
        (λ l lt. enough l (omega (arith, lt))),
    levels_result-Verdict local remote count (level_count height cp.size) 0,
  )
