-- ===== src/Firmware/Witness.antt =====
-- The witness of the firmware log
-- (binary_transparency/firmware/cmd/ft_witness/internal/http/witness.go): the goroutine of Poll,
-- the channels that it reads and the handler of requests, as actions of one system.
pub mod Laws
pub mod Restart
pub mod Progress
mod Tests
use trillian_serverless.Base.{
  ℕ, ◌<◌, String, Bool, true, false, List, [], ◌∷◌, ◌++◌, Bytes, Option, none, some, Result, ok,
  err, ltb, if◌then◌else◌, length, ◌>>=◌,
}
use trillian_serverless.Firmware.Log.{Formats, LogCheckpoint, HttpGet, parse_checkpoint}
use trillian_serverless.Firmware.Follower.{FollowError, cancelled, Event, Calls, checkpoints}
use trillian_serverless.Firmware.Store.{WitnessStore}

-- The zero value of `LogCheckpoint`, but for the envelope.
abbrev pub no_checkpoint : Bytes → LogCheckpoint
no_checkpoint raw = record {
  checkpoint = record { origin = ""; size = 0; hash = [] };
  timestamp_nanos = 0;
  envelope = raw;
}

-- `Witness`: the checkpoint that it holds, and whether its mutex is locked.
pub record Witness : Type 0 where
  pub gcp : LogCheckpoint
  pub locked : Bool

-- Where Poll is: at its `select`, with a checkpoint and about to lock the mutex, or at its end.
pub data Phase : Type 0 where
  selecting : Phase
  holding : LogCheckpoint → Phase
  returned : FollowError → Phase

-- What can happen: Poll receives from the channel of checkpoints or from that of errors, sees the
-- end of its context, or goes through its critical section; or a request is handled.
pub data Action : Type 0 where
  receive observe cancel keep request : Action

-- A checkpoint as it is stored: nothing is stored for none.
unfoldable pub open_stored : Formats → Bytes → Result String LogCheckpoint
open_stored f gcp_raw =
    if ltb 0 (length gcp_raw) then parse_checkpoint f gcp_raw else ok (no_checkpoint gcp_raw)

module _ (f : Formats) (S : WitnessStore) where
  unfoldable pub new_witness : S.State → Result String Witness
  new_witness s = do
    gcp_raw ← S.retrieve_cp s
    gcp ← open_stored f gcp_raw
    ok (record { gcp = gcp; locked = false })

  -- The witness and its store, Poll, and what the follower has yet to send: checkpoints, and an
  -- error after which both of its channels give nothing more.
  pub record System : Type 0 where
    pub witness : Witness
    pub store : S.State
    pub phase : Phase
    pub pending : List LogCheckpoint
    pub failure : Option FollowError

  -- Poll's start: the follower begins at the checkpoint that the witness holds.
  unfoldable pub start : Calls → List Event → Witness → S.State → System
  start c events w s =
      let (sent, e) = checkpoints c events w.gcp in
      record { witness = w; store = s; phase = selecting; pending = sent; failure = e }

  -- A closed channel gives the zero value.
  unfoldable pub take_checkpoint : System → System
  take_checkpoint s = elim s.pending [
    | cp ∷ rest ↦ record s { phase = holding cp; pending = rest }
    | [] ↦ elim s.failure [ none ↦ s | some _ ↦ record s { phase = holding (no_checkpoint []) } ]
  ]

  -- The error is sent once at most one checkpoint is left in the channel's buffer.
  unfoldable pub take_error : System → System
  take_error s = elim s.failure [
    | none ↦ s
    | some e ↦ if ltb 1 (length s.pending) then s else record s { phase = returned e }
  ]

  -- Between Lock and Unlock: a checkpoint that cannot be stored is dropped.
  unfoldable pub keep_checkpoint : LogCheckpoint → System → System
  keep_checkpoint cp s =
      let (r, t) = S.store_cp cp.envelope s.store in
      elim r [
        | err _ ↦ record s { store = t; phase = selecting }
        | ok _ ↦ record s { witness = record s.witness { gcp = cp }; store = t; phase = selecting }
      ]

  -- `getCheckpoint`: it locks the mutex and does not unlock it.
  unfoldable pub get_checkpoint : System → System × List Bytes
  get_checkpoint s =
      if s.witness.locked
      then (s, [])
      else (record s { witness = record s.witness { locked = true } }, s.witness.gcp.envelope ∷ [])

  -- Poll can act where its phase allows, and enter its critical section if the mutex is free.
  unfoldable pub poll : Action → Phase → System → System
  unfolding take_checkpoint take_error keep_checkpoint
  poll receive selecting s = take_checkpoint s
  poll observe selecting s = take_error s
  poll cancel selecting s = record s { phase = returned cancelled }
  poll keep (holding cp) s = if s.witness.locked then s else keep_checkpoint cp s
  poll _ _ s = s

  -- An action, and what was answered. One that has to wait changes nothing.
  unfoldable pub act : Action → System → System × List Bytes
  unfolding poll get_checkpoint
  act request s = get_checkpoint s
  act a s = (poll a s.phase s, [])

  -- A schedule, and what was answered in all.
  unfoldable pub run : List Action → System → System × List Bytes
  unfolding act
  run [] s = (s, [])
  run (a ∷ actions) s =
      let (t, now) = act a s in let (u, later) = run actions t in (u, now ++ later)
