-- ===== src/Distributor/Laws.antt =====
-- What `Distribute` may write.
use trillian_serverless.Base.{
  ℕ, ◌<◌, String, ◌≡◌, refl, sym, ==_iff, ◌⊎◌, inl, inr, true, false, not, [], ◌∷◌, Bytes, some,
  Result, ok, err, fail_if, or_fail, expect, ◌=?◌, string_eq, bytes_eq, ltb, ◌==◌, length, arith,
  Result-cases, bind-ok, expect-ok, or_fail-ok, fail_if-ok, ok-injective, ap, subst, ◌∙◌,
  Bool-cases,
}
use trillian_serverless.Base.Dict.{lookup}
use trillian_serverless.Formats.{Checkpoint, Note, Verifier, ParseCheckpoint}
use trillian_serverless.Distributor.{
  LogInfo, no_rows, other, Table, Distributor, Failure, failed, get_latest_checkpoint, check_next,
  save_checkpoint, replace_checkpoint, distribute_checked, distribute,
}

module _ (parse_checkpoint : ParseCheckpoint) (db : Table) where
  -- What the new checkpoint has to be: of a known log and a known witness, and parsed with their
  -- verifiers, with exactly two signatures verified.
  pub record Accepted (d : Distributor) (log_id wit_id : String) (raw : Bytes) (l : LogInfo)
      (wv : Verifier) (c : Checkpoint) : Type 0 where
    pub log_known : lookup log_id d.ls ≡ some l
    pub witness_known : lookup wit_id d.ws ≡ some wv
    pub note : Note
    pub parsed : parse_checkpoint raw l.origin l.verifier (wv ∷ []) ≡ ok (c, note)
    pub two_signatures : length note.sigs ≡ 2

  -- What may be replaced: nothing, or a smaller checkpoint.
  abbrev pub Replaceable : String → String → LogInfo → Verifier → Checkpoint → db.State → Type 0
  Replaceable log_id wit_id l wv c s =
      (db.select_chkpt s log_id wit_id ≡ err no_rows)
      ⊎ ((old_raw : Bytes) × (old : Checkpoint) × (n : Note) × (db.select_chkpt s log_id wit_id
            ≡ ok old_raw)
          × (parse_checkpoint old_raw l.origin l.verifier (wv ∷ []) ≡ ok (old, n))
          × (old.size < c.size))

  larger : (a b : ℕ) → ltb a b ≡ false → (a == b) ≡ false → b < a
  larger a b h k = ground arith

  same_bytes : (a b : Bytes) → (a =? b) ≡ true → b ≡ a
  unfolding bytes_eq
  same_bytes a b h = ground arith

  two_of : (n : ℕ) → not (n == 2) ≡ false → n ≡ 2
  two_of n h = ground arith

  check_next_lem :
      (d : Distributor) (log_id wit_id : String) (raw : Bytes) (l : LogInfo) (wv : Verifier)
      (c : Checkpoint)
      → check_next parse_checkpoint db d log_id wit_id raw ≡ ok (l, wv, c)
      → Accepted d log_id wit_id raw l wv c
  unfolding check_next
  check_next_lem d log_id wit_id raw l wv c h =
      let (k, log_known, h1) =
        bind-ok (expect (lookup log_id d.ls) (failed "unknown log ID")) _ (l, wv, c) h in
      let (v, wit_known, h2) =
        bind-ok (expect (lookup wit_id d.ws) (failed "unknown witness ID")) _ (l, wv, c) h1 in
      let (p, parsed, h3) =
        bind-ok (or_fail (parse_checkpoint raw k.origin k.verifier (v ∷ [])) failed) _ (l, wv, c)
          h2 in
      let (u, two, h4) =
        bind-ok
          (fail_if (not (length p.1.sigs == 2))
            (failed "failed to verify log and witness signatures"))
          _ (l, wv, c) h3 in
      let same : (k, v, p.0) ≡ (l, wv, c) = ok-injective (k, v, p.0) (l, wv, c) h4 in
      let same_l : k ≡ l = ap (λ x. x.0) same in
      let same_v : v ≡ wv = ap (λ x. x.1) same in
      let read = or_fail-ok (parse_checkpoint raw k.origin k.verifier (v ∷ [])) failed p parsed in
      record {
        log_known = expect-ok _ _ k log_known ∙ ap some same_l;
        witness_known = expect-ok _ _ v wit_known ∙ ap some same_v;
        note = p.1;
        parsed =
            subst (λ x. parse_checkpoint raw x.0.origin x.0.verifier (x.1 ∷ []) ≡ ok (x.2, p.1))
              same read;
        two_signatures = two_of _ (fail_if-ok _ _ u two);
      }

  -- The log and the witness already have this checkpoint.
  abbrev pub Held : String → String → LogInfo → Verifier → Checkpoint → db.State → Type 0
  Held log_id wit_id l wv c s =
      (old_raw : Bytes) × (old : Checkpoint) × (n : Note) × (db.select_chkpt s log_id wit_id
        ≡ ok old_raw)
      × (parse_checkpoint old_raw l.origin l.verifier (wv ∷ []) ≡ ok (old, n))
      × (old.size ≡ c.size)
      × (old.hash ≡ c.hash)

  -- How a distribution ends once the new checkpoint is accepted.
  abbrev pub Ending :
      String
      → String
      → Bytes
      → LogInfo
      → Verifier
      → Checkpoint
      → db.State
      → Result Failure (Unit {0}) × db.State
      → Type 0
  Ending log_id wit_id raw l wv c s (r, t) =
      ((e : Failure) × (r ≡ err e) × (t ≡ s))
      ⊎ ((Held log_id wit_id l wv c s × (r ≡ ok tt) × (t ≡ s))
          ⊎ (Replaceable log_id wit_id l wv c s
              × (db.save_chkpt s log_id wit_id c.size raw ≡ ok t)
              × (r ≡ ok tt)))

  save_checkpoint_lem :
      (log_id wit_id : String) (raw : Bytes) (l : LogInfo) (wv : Verifier) (c : Checkpoint)
      (s : db.State)
      → Replaceable log_id wit_id l wv c s
      → Ending log_id wit_id raw l wv c s
          (save_checkpoint parse_checkpoint db log_id wit_id c raw s)
  unfolding save_checkpoint
  save_checkpoint_lem log_id wit_id raw l wv c s free =
      elim (Result-cases (db.save_chkpt s log_id wit_id c.size raw)) [
        | inr (e, bad) ↦ rw (bad, save_checkpoint) (inl (failed e, refl, refl))
        | inl (t, good) ↦ rw (good, save_checkpoint) (inr (inr (free, refl, refl)))
      ]

  replace_checkpoint_lem :
      (log_id wit_id : String) (raw : Bytes) (l : LogInfo) (wv : Verifier) (c : Checkpoint)
      (s : db.State) (old_raw : Bytes) (old : Checkpoint) (n : Note)
      → db.select_chkpt s log_id wit_id ≡ ok old_raw
      → parse_checkpoint old_raw l.origin l.verifier (wv ∷ []) ≡ ok (old, n)
      → Ending log_id wit_id raw l wv c s
          (replace_checkpoint parse_checkpoint db log_id wit_id c raw old s)
  unfolding replace_checkpoint
  replace_checkpoint_lem log_id wit_id raw l wv c s old_raw old n held parsed =
      elim (Bool-cases (ltb c.size old.size)) [
        | inl less ↦ rw (less, replace_checkpoint) (inl (_, refl, refl))
        | inr not_less ↦ elim (Bool-cases (c.size == old.size)) [
          | inr differs ↦
              rw (not_less, replace_checkpoint)
                (rw differs (
                  save_checkpoint_lem log_id wit_id raw l wv c s
                    (inr (old_raw, old, n, held, parsed, larger c.size old.size not_less differs))))
          | inl same ↦ elim (Bool-cases (c.hash =? old.hash)) [
            | inr other_hash ↦
                rw (not_less, replace_checkpoint) (rw same (rw other_hash (inl (_, refl, refl))))
            | inl same_hash ↦
                rw (not_less, replace_checkpoint)
                  (rw same (
                    rw same_hash (
                      inr (
                        inl (
                          (
                            old_raw,
                            old,
                            n,
                            held,
                            parsed,
                            sym ((==_iff c.size old.size).0 same),
                            same_bytes c.hash old.hash same_hash,
                          ),
                          refl,
                          refl,
                        )))))
          ]
        ]
      ]

  distribute_checked_empty :
      (log_id wit_id : String) (raw : Bytes) (l : LogInfo) (wv : Verifier) (c : Checkpoint)
      (s : db.State)
      → db.select_chkpt s log_id wit_id ≡ err no_rows
      → distribute_checked parse_checkpoint db log_id wit_id raw (l, wv, c) s
        ≡ save_checkpoint parse_checkpoint db log_id wit_id c raw s
  unfolding distribute_checked get_latest_checkpoint
  distribute_checked_empty log_id wit_id raw l wv c s h = rw (h, distribute_checked)

  distribute_checked_held :
      (log_id wit_id : String) (raw : Bytes) (l : LogInfo) (wv : Verifier) (c : Checkpoint)
      (s : db.State) (old_raw : Bytes) (old : Checkpoint) (n : Note)
      → db.select_chkpt s log_id wit_id ≡ ok old_raw
      → parse_checkpoint old_raw l.origin l.verifier (wv ∷ []) ≡ ok (old, n)
      → distribute_checked parse_checkpoint db log_id wit_id raw (l, wv, c) s
        ≡ replace_checkpoint parse_checkpoint db log_id wit_id c raw old s
  unfolding distribute_checked get_latest_checkpoint
  distribute_checked_held log_id wit_id raw l wv c s old_raw old n h k =
      rw (h, distribute_checked) (rw k)

  distribute_checked_lem :
      (log_id wit_id : String) (raw : Bytes) (l : LogInfo) (wv : Verifier) (c : Checkpoint)
      (s : db.State)
      → Ending log_id wit_id raw l wv c s
          (distribute_checked parse_checkpoint db log_id wit_id raw (l, wv, c) s)
  unfolding distribute_checked get_latest_checkpoint
  distribute_checked_lem log_id wit_id raw l wv c s =
      elim (Result-cases (db.select_chkpt s log_id wit_id)) [
        | inr (no_rows, none_held) ↦
            subst (Ending log_id wit_id raw l wv c s)
              (sym (distribute_checked_empty log_id wit_id raw l wv c s none_held))
              (save_checkpoint_lem log_id wit_id raw l wv c s (inl none_held))
        | inr (other e, bad) ↦ rw (bad, distribute_checked) (inl (failed e, refl, refl))
        | inl (old_raw, held) ↦
            elim (Result-cases (parse_checkpoint old_raw l.origin l.verifier (wv ∷ []))) [
              | inr (e, bad) ↦ rw (held, distribute_checked) (rw bad (inl (failed e, refl, refl)))
              | inl ((old, n), good) ↦
                  subst (Ending log_id wit_id raw l wv c s)
                    (sym
                      (distribute_checked_held log_id wit_id raw l wv c s old_raw old n held good))
                    (replace_checkpoint_lem log_id wit_id raw l wv c s old_raw old n held good)
            ]
      ]

  -- A distribution that fails leaves the table as it was. One that succeeds has accepted the
  -- checkpoint: the log and the witness are known, and it was parsed as the log's with the verifiers
  -- of the log and of the witness, with exactly two signatures verified; signatures that no verifier
  -- knows are not looked at. Then the table held a checkpoint of the same size and hash and is as it
  -- was; or it held none or a smaller one, and is what saving the new one makes it.
  pub distribute_lem :
      (d : Distributor) (log_id wit_id : String) (raw : Bytes) (s : db.State)
      → let (r, t) = distribute parse_checkpoint db d log_id wit_id raw s in
        ((e : Failure) × (r ≡ err e) × (t ≡ s))
        ⊎ ((l : LogInfo) × (wv : Verifier) × (c : Checkpoint) × Accepted d log_id wit_id raw l wv c
            × (r ≡ ok tt)
            × ((Held log_id wit_id l wv c s × (t ≡ s))
                ⊎ (Replaceable log_id wit_id l wv c s
                    × (db.save_chkpt s log_id wit_id c.size raw ≡ ok t))))
  unfolding distribute
  distribute_lem d log_id wit_id raw s =
      elim (Result-cases (check_next parse_checkpoint db d log_id wit_id raw)) [
        | inr (e, bad) ↦ rw (bad, distribute) (inl (e, refl, refl))
        | inl ((l, wv, c), good) ↦
            rw (good, distribute)
              (elim (distribute_checked_lem log_id wit_id raw l wv c s) [
                | inl failure ↦ inl failure
                | inr (inl (held, r, t)) ↦
                    inr (l, wv, c, check_next_lem d log_id wit_id raw l wv c good, r, inl (held, t))
                | inr (inr (free, saved, r)) ↦
                    inr (
                      l,
                      wv,
                      c,
                      check_next_lem d log_id wit_id raw l wv c good,
                      r,
                      inr (free, saved),
                    )
              ])
      ]
