-- ===== src/Feeder/Laws.antt =====
-- What the feeder does to the witness, and when it is content.
use trillian_serverless.Base.{
  ℕ, zero, suc, ◌≤◌, ◌<◌, ◌≡◌, refl, sym, subst, ◌⊎◌, inl, inr, true, false, String, Bool, ◌&&◌, [],
  Bytes, Result, ok, err, ◌=?◌, bytes_eq, ltb, ◌==◌, length, arith, Result-cases, Option-cases,
  Bool-cases, ==_iff,
}
use trillian_serverless.Formats.{Checkpoint, Note, Hashes, ParseCheckpoint}
use trillian_serverless.Feeder.{
  not_exist, other, WitnessApi, FeedOpts, Attempt, done, again, permanent, zero_checkpoint, send,
  compare_latest, submit_op, after_attempt, submit_to_witness, feed_once,
}

module _ (parse_checkpoint : ParseCheckpoint) (w : WitnessApi) (opts : FeedOpts) where
  open opts use {log_id, fetch_proof, log_sig_verifier, log_origin}

  -- What the witness answers when it is asked for its checkpoint.
  abbrev latest_raw : w.State → Bytes
  latest_raw s = (w.get_latest_checkpoint s log_id).0

  -- The witness holds the checkpoint `c`, which it answers with `b`.
  abbrev pub Holds : w.State → Bytes → Checkpoint → Type 0
  Holds s b c =
      (n : Note) × (latest_raw s ≡ b)
      × (0 < length b)
      × (parse_checkpoint b log_origin log_sig_verifier [] ≡ ok (c, n))

  module _ (cp_raw : Bytes) (cp_submit : Checkpoint) where
    -- The proof `p` is from what the witness holds, or from the empty log if it answers with
    -- nothing, to the submitted checkpoint, which is not smaller.
    abbrev pub Offer : w.State → Hashes → Type 0
    Offer s p =
        (c : Checkpoint) × (((length (latest_raw s) ≡ 0) × (c ≡ zero_checkpoint))
          ⊎ ((b : Bytes) × Holds s b c))
        × (c.size ≤ cp_submit.size)
        × (fetch_proof c cp_submit ≡ ok p)

    -- How an attempt can end.
    pub data Tried : w.State → Attempt → w.State → Type 0 where
      put_off : {s : w.State} {e : String} → Tried s (again e) s
      given_up : {s : w.State} {e : String} → Tried s (permanent e) s
      unchanged :
          {s : w.State} {b : Bytes} (c : Checkpoint)
          → Holds s b c
          → c.size ≡ cp_submit.size
          → (c.hash =? cp_submit.hash) ≡ true
          → Tried s (done b) s
      taken :
          {s t : w.State} {b : Bytes} (p : Hashes)
          → Offer s p
          → w.update s log_id cp_raw p ≡ (ok b, t)
          → Tried s (done b) t
      refused :
          {s t : w.State} {e : String} (p : Hashes)
          → Offer s p
          → w.update s log_id cp_raw p ≡ (err e, t)
          → Tried s (again e) t

    answer-Tried :
        (s : w.State) (p : Hashes) (x : Result String Bytes × w.State)
        → Offer s p
        → w.update s log_id cp_raw p ≡ x
        → Tried s (elim x.0 [ err e ↦ again e | ok b ↦ done b ]) x.1
    answer-Tried s p (ok b, t) offer h = taken p offer h
    answer-Tried s p (err e, t) offer h = refused p offer h

    send-Tried :
        (c : Checkpoint) (s : w.State)
        → (((length (latest_raw s) ≡ 0) × (c ≡ zero_checkpoint)) ⊎ ((b : Bytes) × Holds s b c))
        → c.size ≤ cp_submit.size
        → let (a, t) = send parse_checkpoint w opts cp_raw cp_submit c s in Tried s a t
    unfolding send
    send-Tried c s holds le = elim (Result-cases (fetch_proof c cp_submit)) [
      | inr (e, bad) ↦ rw (bad, send) put_off
      | inl (p, good) ↦
          rw (good, send) (answer-Tried s p (w.update s log_id cp_raw p) (c, holds, le, good) refl)
    ]

    not_zero : (n : ℕ) → ltb 0 n ≡ false → n ≡ 0
    not_zero n h = ground arith

    positive : (n : ℕ) → ltb 0 n ≡ true → 0 < n
    positive n h = ground arith

    not_larger : (a b : ℕ) → ltb a b ≡ false → b ≤ a
    not_larger a b h = ground arith

    both : (a b : Bool) → (a && b) ≡ true → (a ≡ true) × (b ≡ true)
    both true b h = (refl, h)
    both false b h = absurd (cc h)

    compare_latest-Tried :
        (s : w.State)
        → let (a, t) = compare_latest parse_checkpoint w opts cp_raw cp_submit (latest_raw s) s in
          Tried s a t
    unfolding compare_latest
    compare_latest-Tried s = elim (Bool-cases (ltb 0 (length (latest_raw s)))) [
      | inr empty ↦
          rw (empty, compare_latest)
            (send-Tried zero_checkpoint s (inl (not_zero (length (latest_raw s)) empty, refl))
              (omega arith))
      | inl some_bytes ↦
          elim (Result-cases (parse_checkpoint (latest_raw s) log_origin log_sig_verifier [])) [
            | inr (e, bad) ↦ rw (some_bytes, compare_latest) (rw bad put_off)
            | inl ((c, n), good) ↦ elim (Bool-cases (ltb cp_submit.size c.size)) [
              | inl larger ↦ rw (some_bytes, compare_latest) (rw good (rw larger given_up))
              | inr fits ↦
                  elim (Bool-cases (c.size == cp_submit.size && c.hash =? cp_submit.hash)) [
                    | inl same ↦
                        let holds : Holds s (latest_raw s) c =
                          (n, refl, positive (length (latest_raw s)) some_bytes, good) in
                        let (sizes, hashes) =
                          both (c.size == cp_submit.size) (c.hash =? cp_submit.hash) same in
                        rw (some_bytes, compare_latest)
                          (rw good (
                            rw fits (
                              rw same (
                                unchanged c holds ((==_iff c.size cp_submit.size).0 sizes)
                                  hashes))))
                    | inr differs ↦
                        let holds : Holds s (latest_raw s) c =
                          (n, refl, positive (length (latest_raw s)) some_bytes, good) in
                        rw (some_bytes, compare_latest)
                          (rw good (
                            rw fits (
                              rw differs (
                                send-Tried c s (inr (latest_raw s, holds))
                                  (not_larger cp_submit.size c.size fits)))))
                  ]
            ]
          ]
    ]

    submit_op-Tried :
        (s : w.State)
        → let (a, t) = submit_op parse_checkpoint w opts cp_raw cp_submit s in Tried s a t
    unfolding submit_op
    submit_op-Tried s = elim (Option-cases (w.get_latest_checkpoint s log_id).1) [
      | inl fine ↦ rw (fine, submit_op) (compare_latest-Tried s)
      | inr (not_exist, h) ↦ rw (h, submit_op) (compare_latest-Tried s)
      | inr (other e, h) ↦ rw (h, submit_op) put_off
    ]

    -- How the attempts go on: the feeder stops, without touching the witness; or the witness holds
    -- the checkpoint; or it takes an offer; or it refuses one, and the feeder goes on.
    pub data Run : w.State → Result String Bytes → w.State → Type 0 where
      stops : {s : w.State} {e : String} → Run s (err e) s
      has :
          {s : w.State} {b : Bytes} (c : Checkpoint)
          → Holds s b c
          → c.size ≡ cp_submit.size
          → (c.hash =? cp_submit.hash) ≡ true
          → Run s (ok b) s
      takes :
          {s t : w.State} {b : Bytes} (p : Hashes)
          → Offer s p
          → w.update s log_id cp_raw p ≡ (ok b, t)
          → Run s (ok b) t
      refuses :
          {s t u : w.State} {e : String} {r : Result String Bytes} (p : Hashes)
          → Offer s p
          → w.update s log_id cp_raw p ≡ (err e, t)
          → Run t r u
          → Run s r u

    after_attempt-Run :
        (s t : w.State) (a : Attempt) (rest : Result String Bytes × w.State)
        → Tried s a t
        → Run t rest.0 rest.1
        → let (r, u) = after_attempt parse_checkpoint w opts cp_raw cp_submit a t rest in Run s r u
    after_attempt-Run s t a rest put_off run = run
    after_attempt-Run s t a rest given_up run = stops
    after_attempt-Run s t a rest (unchanged c h k l) run = has c h k l
    after_attempt-Run s t a rest (taken p o h) run = takes p o h
    after_attempt-Run s t a rest (refused p o h) run = refuses p o h run

    submit_to_witness-Run :
        (tries : ℕ) (s : w.State)
        → let (r, t) = submit_to_witness parse_checkpoint w opts cp_raw cp_submit tries s in
          Run s r t
    unfolding submit_to_witness
    submit_to_witness-Run zero s = stops
    submit_to_witness-Run (suc tries) s =
        after_attempt-Run s _ _ _ (submit_op-Tried s) (submit_to_witness-Run tries _)

  feed_once-parsed :
      (tries : ℕ) (s : w.State) (raw : Bytes) (c : Checkpoint) (n : Note)
      → opts.fetch_checkpoint ≡ ok raw
      → parse_checkpoint raw log_origin log_sig_verifier [] ≡ ok (c, n)
      → feed_once parse_checkpoint w opts tries s
        ≡ submit_to_witness parse_checkpoint w opts raw c tries s
  unfolding feed_once
  feed_once-parsed tries s raw c n h k = simp (h, k, feed_once)

  abbrev pub Fed : w.State → Result String Bytes × w.State → Type 0
  Fed s (r, t) =
      ((e : String) × (r ≡ err e) × (t ≡ s))
      ⊎ ((raw : Bytes) × (c : Checkpoint) × (n : Note) × (opts.fetch_checkpoint ≡ ok raw)
          × (parse_checkpoint raw log_origin log_sig_verifier [] ≡ ok (c, n))
          × Run raw c s r t)

  -- Whatever the number of attempts: either the log's checkpoint cannot be read, and the witness is
  -- untouched; or it is `c`, and the run offers only `c`, each time with a proof from what the
  -- witness answers at that moment, never to a witness that answers with a larger checkpoint. It
  -- succeeds only with the witness's own answer: of `c`'s size and hash, or of an offer it took.
  pub feed_once-Run :
      (tries : ℕ) (s : w.State)
      → let (r, t) = feed_once parse_checkpoint w opts tries s in
        ((e : String) × (r ≡ err e) × (t ≡ s))
        ⊎ ((raw : Bytes) × (c : Checkpoint) × (n : Note) × (opts.fetch_checkpoint ≡ ok raw)
            × (parse_checkpoint raw log_origin log_sig_verifier [] ≡ ok (c, n))
            × Run raw c s r t)
  unfolding feed_once
  feed_once-Run tries s = elim (Result-cases opts.fetch_checkpoint) [
    | inr (e, bad) ↦ rw (bad, feed_once) (inl (_, refl, refl))
    | inl (raw, fetched) ↦
        elim (Result-cases (parse_checkpoint raw log_origin log_sig_verifier [])) [
          | inr (e, bad) ↦ rw (fetched, feed_once) (rw bad (inl (_, refl, refl)))
          | inl ((c, n), good) ↦
              subst (Fed s) (sym (feed_once-parsed tries s raw c n fetched good))
                (inr (raw, c, n, fetched, good, submit_to_witness-Run raw c tries s))
        ]
  ]
