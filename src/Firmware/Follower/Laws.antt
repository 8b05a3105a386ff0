-- ===== src/Firmware/Follower/Laws.antt =====
-- What the checkpoints that a follower sends have to do with one another, and what its errors mean.
use trillian_serverless.Base.{
  In, ap, ◌<◌, ◌≡◌, refl, ◌⊎◌, inl, inr, String, List, [], ◌∷◌, ◌++◌, Option, none, some, ok, err,
  arith, leb, ◌==◌, Bool-cases, Result-cases,
}
use trillian_serverless.Formats.{Hashes}
use trillian_serverless.Firmware.Log.{
  LogCheckpoint, HttpGet, parse_checkpoint, get_checkpoint, get_consistency_proof,
}
use trillian_serverless.Firmware.Log.Laws.{get_checkpoint-parse_checkpoint}
use trillian_serverless.Firmware.Follower.{
  FollowError, cancelled, inconsistent, not_included, failed, Calls, Event, tick, done, Polled,
  retry, newer, stop, verify_from, compare_golden, poll_log, follow, checkpoints,
}

module _ (c : Calls) where
  -- A larger checkpoint, which is read back from its envelope.
  abbrev pub Newer : LogCheckpoint → LogCheckpoint → Type 0
  Newer golden cp =
      (golden.checkpoint.size < cp.checkpoint.size)
      × (parse_checkpoint c.formats cp.envelope ≡ ok cp)

  -- What the log has to serve at a tick for its checkpoint to be sent.
  abbrev pub Offers : HttpGet → LogCheckpoint → LogCheckpoint → Type 0
  Offers get golden cp =
      (get_checkpoint c.formats get ≡ ok cp)
      × (golden.checkpoint.size < cp.checkpoint.size)
      × ((golden.checkpoint.size ≡ 0)
          ⊎ ((p : Hashes) × (get_consistency_proof c.formats get golden.checkpoint.size
                  cp.checkpoint.size
                ≡ ok p)
              × (verify_from c golden cp p ≡ ok tt)))

  -- What the log serves at a tick that shows a fork: a larger checkpoint, and a proof of consistency
  -- that fails.
  abbrev pub Forks : HttpGet → LogCheckpoint → LogCheckpoint → Type 0
  Forks get golden cp =
      (get_checkpoint c.formats get ≡ ok cp)
      × Newer golden cp
      × ((p : Hashes) × (e : String) × (get_consistency_proof c.formats get golden.checkpoint.size
              cp.checkpoint.size
            ≡ ok p)
          × (verify_from c golden cp p ≡ err e))

  abbrev pub Stops : List Event → LogCheckpoint → FollowError → Type 0
  Stops events golden cancelled = In done events
  Stops events golden (inconsistent a b) =
      (a ≡ golden) × (get : HttpGet) × In (tick get) events × Forks get golden b
  Stops events golden (not_included _ _) = ⊥
  Stops events golden (failed _) = ⊥

  -- At a tick the log offered the checkpoint; `after` is what happens after that tick.
  abbrev pub Sends : List Event → LogCheckpoint → LogCheckpoint → List Event → Type 0
  Sends events golden cp after =
      (before : List Event) × (get : HttpGet) × (events ≡ before ++ tick get ∷ after)
      × Newer golden cp
      × Offers get golden cp

  -- From a golden checkpoint on, with what happens: what is sent, and the error after it.
  abbrev pub Chain : List Event → LogCheckpoint → List LogCheckpoint → Option FollowError → Type 0
  Chain events golden [] none = Unit
  Chain events golden [] (some e) = Stops events golden e
  Chain events golden (cp ∷ cps) e =
      (after : List Event) × Sends events golden cp after × Chain after cp cps e

  abbrev Polls : HttpGet → LogCheckpoint → Polled → Type 0
  Polls get golden retry = Unit
  Polls get golden (newer cp) = Newer golden cp × Offers get golden cp
  Polls get golden (stop (inconsistent a b)) = (a ≡ golden) × Forks get golden b
  Polls get golden (stop cancelled) = ⊥
  Polls get golden (stop (not_included _ _)) = ⊥
  Polls get golden (stop (failed _)) = ⊥

  compare_golden-Polls :
      (get : HttpGet) (golden cp : LogCheckpoint)
      → get_checkpoint c.formats get ≡ ok cp
      → Newer golden cp
      → Polls get golden (compare_golden c get golden cp)
  unfolding compare_golden
  compare_golden-Polls get golden cp served n = elim (Bool-cases (golden.checkpoint.size == 0)) [
    | inl empty ↦ rw empty (n, (served, n.0, inl (ground (arith, empty))))
    | inr full ↦
        let proof = get_consistency_proof c.formats get golden.checkpoint.size cp.checkpoint.size in
        elim (Result-cases proof) [
          | inr (e, h) ↦ rw (full, h, compare_golden) tt
          | inl (p, h) ↦ elim (Result-cases (verify_from c golden cp p)) [
            | inl (tt, v) ↦ rw (full, h, v, compare_golden) (n, (served, n.0, inr (p, h, v)))
            | inr (e, v) ↦ rw (full, h, v, compare_golden) (refl, (served, n, (p, e, h, v)))
          ]
        ]
  ]

  poll_log-Polls :
      (get : HttpGet) (golden : LogCheckpoint) → Polls get golden (poll_log c get golden)
  unfolding poll_log
  poll_log-Polls get golden = elim (Result-cases (get_checkpoint c.formats get)) [
    | inr (e, h) ↦ rw (h, poll_log) tt
    | inl (cp, h) ↦ elim (Bool-cases (leb cp.checkpoint.size golden.checkpoint.size)) [
      | inl small ↦ rw (h, small, poll_log) tt
      | inr large ↦
          rw (h, large, poll_log)
            (compare_golden-Polls get golden cp h
              (ground (arith, large), get_checkpoint-parse_checkpoint c.formats get cp h))
    ]
  ]

  Stops-later :
      (ev : Event) (events : List Event) (golden : LogCheckpoint) (e : FollowError)
      → Stops events golden e
      → Stops (ev ∷ events) golden e
  Stops-later ev events golden cancelled h = inr h
  Stops-later ev events golden (inconsistent a b) (same, get, i, fork) = (same, get, inr i, fork)
  Stops-later ev events golden (not_included _ _) h = h
  Stops-later ev events golden (failed _) h = h

  Chain-later :
      (ev : Event) (events : List Event) (golden : LogCheckpoint) (sent : List LogCheckpoint)
      (e : Option FollowError)
      → Chain events golden sent e
      → Chain (ev ∷ events) golden sent e
  Chain-later ev events golden [] none h = tt
  Chain-later ev events golden [] (some e) h = Stops-later ev events golden e h
  Chain-later ev events golden (cp ∷ cps) e (after, (before, get, split, larger, offer), rest) =
      (after, (ev ∷ before, get, ap (λ l. ev ∷ l) split, larger, offer), rest)

  follow_step :
      (get : HttpGet) (golden : LogCheckpoint) (events : List Event) (p : Polled)
      → Polls get golden p
      → ((g : LogCheckpoint) → let (sent, e) = follow c events g in Chain events g sent e)
      → let (sent, e) : List LogCheckpoint × Option FollowError = elim p [
        | retry ↦ follow c events golden
        | newer cp ↦ let (sent, e) = follow c events cp in (cp ∷ sent, e)
        | stop e ↦ ([], some e)
      ] in
        Chain (tick get ∷ events) golden sent e
  follow_step get golden events retry h ih =
      let (sent, e) = follow c events golden in
      Chain-later (tick get) events golden sent e (ih golden)
  follow_step get golden events (newer cp) (larger, offer) ih =
      (events, ([], get, refl, larger, offer), ih cp)
  follow_step get golden events (stop (inconsistent a b)) (same, fork) ih =
      (same, get, inl refl, fork)
  follow_step get golden events (stop cancelled) h ih = absurd h
  follow_step get golden events (stop (not_included _ _)) h ih = h
  follow_step get golden events (stop (failed _)) h ih = h

  follow-Chain :
      (events : List Event) (golden : LogCheckpoint)
      → let (sent, e) = follow c events golden in Chain events golden sent e
  unfolding follow
  follow-Chain [] golden = tt
  follow-Chain (done ∷ _) golden = inl refl
  follow-Chain (tick get ∷ events) golden =
      follow_step get golden events (poll_log c get golden) (poll_log-Polls get golden)
        (follow-Chain events)

  -- The follower sends the golden checkpoint first; each later one is the one that the log served at
  -- a tick after that of the one before it, is larger than that one and is read back from its
  -- envelope, and unless the one before is empty the proof of their consistency that the log served
  -- at that tick was checked. Its only errors are the end of the context, where that came, and the
  -- last one sent beside a larger one that the log served at a later tick with a proof that fails to
  -- connect them.
  pub checkpoints-Chain :
      (events : List Event) (golden : LogCheckpoint)
      → (sent : List LogCheckpoint) × (e : Option FollowError) × (checkpoints c events golden
          ≡ (golden ∷ sent, e))
        × Chain events golden sent e
  unfolding checkpoints
  checkpoints-Chain events golden =
      ((follow c events golden).0, (follow c events golden).1, refl, follow-Chain events golden)

  compare_golden-newer :
      (get : HttpGet) (golden cp : LogCheckpoint)
      → Offers get golden cp
      → compare_golden c get golden cp ≡ newer cp
  unfolding compare_golden
  compare_golden-newer get golden cp (served, larger, how) =
      elim (Bool-cases (golden.checkpoint.size == 0)) [
        | inl empty ↦ rw empty refl
        | inr full ↦ elim how [
          | inl zero_size ↦ absurd (ground (arith, full, zero_size))
          | inr (p, fetched, checked) ↦ rw (full, fetched, checked, compare_golden)
        ]
      ]

  poll_log-newer :
      (get : HttpGet) (golden cp : LogCheckpoint)
      → Offers get golden cp
      → poll_log c get golden ≡ newer cp
  unfolding poll_log
  poll_log-newer get golden cp offer =
      elim (Bool-cases (leb cp.checkpoint.size golden.checkpoint.size)) [
        | inl small ↦ absurd (ground (arith, small, offer.1))
        | inr large ↦ rw (offer.0, large, poll_log) (compare_golden-newer get golden cp offer)
      ]

  follow-newer :
      (get : HttpGet) (events : List Event) (golden cp : LogCheckpoint)
      → poll_log c get golden ≡ newer cp
      → follow c (tick get ∷ events) golden ≡ (cp ∷ (follow c events cp).0, (follow c events cp).1)
  unfolding follow
  follow-newer get events golden cp h = rw (h, follow)

  -- A tick at which the log serves a larger checkpoint, with a proof from the golden one that holds
  -- or where that one is empty: it is sent next, and takes the golden one's place.
  pub checkpoints-Offers :
      (get : HttpGet) (events : List Event) (golden cp : LogCheckpoint)
      → Offers get golden cp
      → let (sent, e) = checkpoints c events cp in
        checkpoints c (tick get ∷ events) golden ≡ (golden ∷ sent, e)
  unfolding checkpoints
  checkpoints-Offers get events golden cp offer =
      ap (λ (r : List LogCheckpoint × Option FollowError). (golden ∷ r.0, r.1))
        (follow-newer get events golden cp (poll_log-newer get golden cp offer))
