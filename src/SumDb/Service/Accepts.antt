-- ===== src/SumDb/Service/Accepts.antt =====
-- What the auditor has checked when it accepts a checkpoint, or passes over the golden one.
use trillian_serverless.Base.{
  same_bytes, ℕ, String, ◌≡◌, ◌≤◌, ◌<◌, refl, sym, ok-injective, ◌∙◌, ap, subst, ◌⊎◌, inl, inr,
  Bool, true, false, not, Option, none, some, if◌then◌else◌, ltb, ◌==◌, List, Bytes, Result, ok,
  err, or_fail, ◌=?◌, bytes_eq, arith,
}
use trillian_serverless.Base.Exec.{Exec, pure, raise, lift, guard, recast, bind_ok, ◌>>=◌}
use trillian_serverless.SumDb.Client.{
  AuditError, no_data, panic, blocked, failed, too_fresh, inconsistent, Checkpoint, Client,
  parse_checkpoint_note,
}
use trillian_serverless.SumDb.Database.{Sql, head, golden_checkpoint}
use trillian_serverless.SumDb.Service.{
  Ranges, wrapped, disagrees, to_hash, level_count, append_levels, append_stragglers, check_root,
  check_checkpoint, local_stragglers, remote_stragglers, or_none, check_root_hash, check_golden,
  check_stored_golden, check_older, check_consistency,
}
use trillian_serverless.SumDb.Service.Reads.{
  Reads, Reads-same, head-Reads, golden_checkpoint-Reads, append_levels-Reads,
  append_stragglers-Reads, local_stragglers-Reads, remote_stragglers-Reads,
}

module _ {S A : Type 0} where
  recast_ok_pair :
      (p : Result AuditError A × S) (f : AuditError → AuditError) (a : A) (t : S)
      → recast (λ _. p) f t ≡ (ok a, t)
      → p ≡ (ok a, t)
  recast_ok_pair (ok b, u) f a t h = h
  recast_ok_pair (err e, u) f a t h = absurd (cc (ap (λ q. q.0) h))

  recast_ok :
      (m : Exec S AuditError A) (f : AuditError → AuditError) (s t : S) (a : A)
      → recast m f s ≡ (ok a, t)
      → m s ≡ (ok a, t)
  recast_ok m f s t a h = recast_ok_pair (m s) f a t h

  lift_ok :
      (x : Result String A) (f : String → AuditError) (s t : S) (a : A)
      → lift (or_fail x f) s ≡ (ok a, t)
      → x ≡ ok a
  lift_ok (ok b) f s t a h = ap (λ y. or_fail y (λ e. "")) (ap (λ q. q.0) h)
  lift_ok (err e) f s t a h = absurd (cc (ap (λ q. q.0) h))

  or_none_ok_pair :
      (p : Result AuditError A × S) (x : Option A) (t : S)
      → or_none (λ _. p) t ≡ (ok x, t)
      → ((a : A) × (x ≡ some a) × (p ≡ (ok a, t))) ⊎ ((x ≡ none) × (p ≡ (err no_data, t)))
  or_none_ok_pair (ok a, u) x t h =
      inl (a, sym (ok-injective _ _ (ap (λ q. q.0) h)), ap (λ v. (ok a, v)) (ap (λ q. q.1) h))
  or_none_ok_pair (err no_data, u) x t h =
      inr (sym (ok-injective _ _ (ap (λ q. q.0) h)), ap (λ v. (err no_data, v)) (ap (λ q. q.1) h))
  or_none_ok_pair (err (too_fresh a b), u) x t h = absurd (cc (ap (λ q. q.0) h))
  or_none_ok_pair (err (inconsistent a b), u) x t h = absurd (cc (ap (λ q. q.0) h))
  or_none_ok_pair (err panic, u) x t h = absurd (cc (ap (λ q. q.0) h))
  or_none_ok_pair (err blocked, u) x t h = absurd (cc (ap (λ q. q.0) h))
  or_none_ok_pair (err (failed a), u) x t h = absurd (cc (ap (λ q. q.0) h))

  or_none_ok :
      (m : Exec S AuditError A) (s t : S) (x : Option A)
      → or_none m s ≡ (ok x, t)
      → ((a : A) × (x ≡ some a) × (m s ≡ (ok a, t))) ⊎ ((x ≡ none) × (m s ≡ (err no_data, t)))
  or_none_ok m s t x h = or_none_ok_pair (m s) x t h

guard_ok :
    {S : Type 0} (b : Bool) (e : AuditError) (s t : S) (x : Unit {0})
    → guard b e s ≡ (ok x, t)
    → b ≡ false
guard_ok true e s t x h = absurd (cc (ap (λ q. q.0) h))
guard_ok false e s t x h = refl

not_fresh :
    {S : Type 0} (b : Bool) (e : AuditError) (m : Exec S AuditError (Unit {0})) (s t : S)
    → (if b then raise e else m) s ≡ (ok tt, t)
    → (b ≡ false) × (m s ≡ (ok tt, t))
not_fresh true e m s t h = absurd (cc (ap (λ q. q.0) h))
not_fresh false e m s t h = (refl, h)

either :
    {S : Type 0} (b : Bool) (m : Exec S AuditError (Unit {0})) (s t : S)
    → (if b then pure tt else m) s ≡ (ok tt, t)
    → (b ≡ true) ⊎ (m s ≡ (ok tt, t))
either true m s t h = inl refl
either false m s t h = inr h

below_or :
    {S : Type 0} (b : Bool) (m : Exec S AuditError (Unit {0})) (s t : S)
    → (if b then pure tt else m) s ≡ (ok tt, t)
    → (b ≡ true) ⊎ ((b ≡ false) × (m s ≡ (ok tt, t)))
below_or true m s t h = inl refl
below_or false m s t h = inr (refl, h)

same_raw : (a b : Bytes) → (a =? b) ≡ true → a ≡ b
same_raw a b h = ground (arith, h)

module _ {Range : Type 0} (q : Sql) (r : Ranges Range) (c : Client) (height : ℕ) where
  -- The range that is made of the tiles that are stored and of the stragglers has the checkpoint's
  -- size and its root hash.
  abbrev pub Certified : Checkpoint → (ℕ → Exec q.State AuditError (List Bytes)) → q.State → Type 0
  Certified cp get s =
      (tiled : Range) × (whole : Range) × (root : Bytes) × (append_levels q r c height cp.size
          (level_count height cp.size) (r.new_empty_range 0) s
        ≡ (ok tiled, s))
      × (append_stragglers q r c height cp.size get tiled s ≡ (ok whole, s))
      × (r.end whole ≡ cp.size)
      × (r.get_root_hash whole ≡ ok root)
      × (to_hash root ≡ cp.hash)

  check_root_ok :
      (cp : Checkpoint) (whole : Range) (s t : q.State)
      → check_root q r c height cp whole s ≡ (ok tt, t)
      → (root : Bytes) × (r.end whole ≡ cp.size)
        × (r.get_root_hash whole ≡ ok root)
        × (to_hash root ≡ cp.hash)
  unfolding check_root
  check_root_ok cp whole s t h =
      let rest : Bytes → Exec q.State AuditError (Unit {0}) =
        λ root. guard (not (to_hash root =? cp.hash)) (failed "log root mismatch") in
      let find : Exec q.State AuditError Bytes = lift (or_fail (r.get_root_hash whole) failed) in
      let (x, t1, g, h1) =
        bind_ok (guard (not (r.end whole == cp.size)) (failed "calculation error"))
          (λ _. find >>= rest) s t tt h in
      let (root, t2, found, h2) = bind_ok find rest t1 t tt h1 in
      let size : r.end whole ≡ cp.size =
        ground
          (arith, guard_ok (not (r.end whole == cp.size)) (failed "calculation error") s t1 x g) in
      (
        root,
        size,
        lift_ok (r.get_root_hash whole) failed t1 t2 root found,
        same_bytes (to_hash root) cp.hash
            (guard_ok (not (to_hash root =? cp.hash)) (failed "log root mismatch") t2 t tt h2),
      )

  pub check_checkpoint_ok :
      (cp : Checkpoint) (get : ℕ → Exec q.State AuditError (List Bytes)) (s t : q.State)
      → ((n : ℕ) → Reads (get n))
      → check_checkpoint q r c height cp get s ≡ (ok tt, t)
      → Certified cp get s
  unfolding check_checkpoint
  check_checkpoint_ok cp get s t reads h =
      let levels =
        append_levels q r c height cp.size (level_count height cp.size) (r.new_empty_range 0) in
      let (tiled, t1, e1, h1) =
        bind_ok levels
          (λ x. append_stragglers q r c height cp.size get x >>= check_root q r c height cp) s t tt
          h in
      let back1 =
        Reads-same levels
          (append_levels-Reads q r c height cp.size (level_count height cp.size)
            (r.new_empty_range 0))
          s t1 (ok tiled) e1 in
      let straggle = append_stragglers q r c height cp.size get tiled in
      let (whole, t2, e2, h2) = bind_ok straggle (check_root q r c height cp) t1 t tt h1 in
      let e2' = subst (λ u. straggle u ≡ (ok whole, t2)) back1 e2 in
      let back2 =
        Reads-same straggle (append_stragglers-Reads q r c height cp.size get tiled reads) s t2
          (ok whole) e2' in
      let (root, size, found, same) = check_root_ok cp whole t2 t h2 in
      (
        tiled,
        whole,
        root,
        e1 ∙ ap (λ u. (ok tiled, u)) back1,
        e2' ∙ ap (λ u. (ok whole, u)) back2,
        size,
        found,
        same,
      )

  accepted_older :
      (golden cp : Checkpoint) (s t : q.State)
      → check_older q r c height golden cp s ≡ (ok tt, t)
      → (last : ℕ) × (head q s ≡ (ok last, s))
        × (cp.size ≤ last)
        × Certified cp (local_stragglers q r c height cp.size) s
  unfolding check_older
  accepted_older golden cp s t h =
      let check = check_checkpoint q r c height cp (local_stragglers q r c height cp.size) in
      let rest : ℕ → Exec q.State AuditError (Unit {0}) = λ last.
        if ltb last cp.size
        then raise (too_fresh cp.size last)
        else recast check (disagrees golden cp) in
      let find = recast (head q) (wrapped "cannot find head of local log") in
      let (last, t1, e1, h1) = bind_ok find rest s t tt h in
      let e1' = recast_ok (head q) (wrapped "cannot find head of local log") s t1 last e1 in
      let back = Reads-same (head q) (head-Reads q) s t1 (ok last) e1' in
      let h1' = subst (λ u. rest last u ≡ (ok tt, t)) back h1 in
      let (enough, passed) =
        not_fresh (ltb last cp.size) (too_fresh cp.size last) (recast check (disagrees golden cp)) s
          t h1' in
      let certified =
        check_checkpoint_ok cp (local_stragglers q r c height cp.size) s t
          (local_stragglers-Reads q r c height cp.size)
          (recast_ok check (disagrees golden cp) s t tt passed) in
      (last, e1' ∙ ap (λ u. (ok last, u)) back, ground (arith, enough), certified)

  -- A checkpoint that `CheckConsistency` accepts is the golden one, byte for byte, or the local log
  -- has an entry at its size or beyond and the tiles that are stored give a range of its size with
  -- its root hash.
  pub check_consistency-Certified :
      (cp : Checkpoint) (s t : q.State)
      → check_consistency q r c height cp s ≡ (ok tt, t)
      → (golden : Checkpoint) × (golden_checkpoint q (parse_checkpoint_note c) s ≡ (ok golden, s))
        × ((cp.raw ≡ golden.raw)
            ⊎ ((last : ℕ) × (head q s ≡ (ok last, s))
                × (cp.size ≤ last)
                × Certified cp (local_stragglers q r c height cp.size) s))
  unfolding check_consistency
  check_consistency-Certified cp s t h =
      let find = golden_checkpoint q (parse_checkpoint_note c) in
      let rest : Checkpoint → Exec q.State AuditError (Unit {0}) =
        λ golden. if cp.raw =? golden.raw then pure tt else check_older q r c height golden cp in
      let (golden, t1, e1, h1) =
        bind_ok (recast find (wrapped "failed to query for golden checkpoint")) rest s t tt h in
      let e1' = recast_ok find (wrapped "failed to query for golden checkpoint") s t1 golden e1 in
      let back =
        Reads-same find (golden_checkpoint-Reads q (parse_checkpoint_note c)) s t1 (ok golden)
          e1' in
      let h1' = subst (λ u. rest golden u ≡ (ok tt, t)) back h1 in
      (
        golden,
        e1' ∙ ap (λ u. (ok golden, u)) back,
        elim (either (cp.raw =? golden.raw) (check_older q r c height golden cp) s t h1') [
          | inl same ↦ inl (same_raw cp.raw golden.raw same)
          | inr older ↦ inr (accepted_older golden cp s t older)
        ],
      )

  -- What is known of the golden checkpoint that is stored, if there is one: the local log's head is
  -- below its size, or the tiles that are stored give a range of its size with its root hash.
  abbrev pub GoldenPasses : q.State → Type 0
  GoldenPasses s =
      (golden_checkpoint q (parse_checkpoint_note c) s ≡ (err no_data, s))
      ⊎ ((golden : Checkpoint) × (golden_checkpoint q (parse_checkpoint_note c) s ≡ (ok golden, s))
          × (last : ℕ) × (head q s ≡ (ok last, s))
          × ((last < golden.size)
              ⊎ ((golden.size ≤ last)
                  × Certified golden (local_stragglers q r c height golden.size) s)))

  check_golden_ok :
      (golden : Checkpoint) (s t : q.State)
      → check_golden q r c height (some golden) s ≡ (ok tt, t)
      → (last : ℕ) × (head q s ≡ (ok last, s))
        × ((last < golden.size)
            ⊎ ((golden.size ≤ last)
                × Certified golden (local_stragglers q r c height golden.size) s))
  unfolding check_golden
  check_golden_ok golden s t h =
      let check =
        check_checkpoint q r c height golden (local_stragglers q r c height golden.size) in
      let wrap = wrapped "local log failed consistency" in
      let rest : ℕ → Exec q.State AuditError (Unit {0}) =
        λ last. if ltb last golden.size then pure tt else recast check wrap in
      let find = recast (head q) (wrapped "cannot find head of local log") in
      let (last, t1, e1, h1) = bind_ok find rest s t tt h in
      let e1' = recast_ok (head q) (wrapped "cannot find head of local log") s t1 last e1 in
      let back = Reads-same (head q) (head-Reads q) s t1 (ok last) e1' in
      let h1' = subst (λ u. rest last u ≡ (ok tt, t)) back h1 in
      (
        last,
        e1' ∙ ap (λ u. (ok last, u)) back,
        elim (below_or (ltb last golden.size) (recast check wrap) s t h1') [
          | inl above ↦ inl (ground (arith, above))
          | inr (reached, passed) ↦ inr (
            ground (arith, reached),
            check_checkpoint_ok golden (local_stragglers q r c height golden.size) s t
                (local_stragglers-Reads q r c height golden.size)
                (recast_ok check wrap s t tt passed),
          )
        ],
      )

  pub check_stored_golden_ok :
      (s t : q.State) → check_stored_golden q r c height s ≡ (ok tt, t) → GoldenPasses s
  unfolding check_stored_golden
  check_stored_golden_ok s t h =
      let find = golden_checkpoint q (parse_checkpoint_note c) in
      let (x, t1, e1, h1) = bind_ok (or_none find) (check_golden q r c height) s t tt h in
      let reads = golden_checkpoint-Reads q (parse_checkpoint_note c) in
      elim (or_none_ok find s t1 x e1) [
        | inr (missing, e) ↦
            inl (e ∙ ap (λ u. (err no_data, u)) (Reads-same find reads s t1 (err no_data) e))
        | inl (golden, there, e) ↦
            let back = Reads-same find reads s t1 (ok golden) e in
            let h2 = subst (λ y. check_golden q r c height y t1 ≡ (ok tt, t)) there h1 in
            let h3 = subst (λ u. check_golden q r c height (some golden) u ≡ (ok tt, t)) back h2 in
            let (last, at, passed) = check_golden_ok golden s t h3 in
            inr (golden, e ∙ ap (λ u. (ok golden, u)) back, last, at, passed)
      ]

  pub check_root_hash_ok :
      (cp : Checkpoint) (s t : q.State)
      → check_root_hash q r c height cp s ≡ (ok tt, t)
      → Certified cp (remote_stragglers q r c height cp.size) s
  unfolding check_root_hash
  check_root_hash_ok cp s t h =
      let get = remote_stragglers q r c height cp.size in
      check_checkpoint_ok cp get s t (remote_stragglers-Reads q r c height cp.size) (
        recast_ok (check_checkpoint q r c height cp get)
          (wrapped "local log does not match the SumDB checkpoint") s t tt h)
