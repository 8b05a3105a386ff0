-- ===== src/Witness/Http/Laws.antt =====
-- What a client learns of the witness through HTTP.
use trillian_serverless.Base.{
  String, ◌≡◌, ◌≢◌, refl, ◌⊎◌, inl, inr, [], Bytes, Option, none, some, Result, ok, err,
}
use trillian_serverless.Formats.{Hashes}
use trillian_serverless.Witness.Status.{Status, Code, not_found, already_exists}
use trillian_serverless.Witness.Persistence.{Persistence}
use trillian_serverless.Witness.Update.{Libraries, Reply, Witness, update, get_checkpoint}
use trillian_serverless.Witness.Http.{
  Response, UpdateRequest, Json, http_for_code, body_of, answer_update, answer_checkpoint,
  serve_update, serve_checkpoint, ClientError, not_exist, too_old, bad, read_checkpoint,
  read_update, client_update,
}

-- What the client makes of a reply: its body without an error, or with the error that it is too
-- old, or another error and no body.
abbrev pub Learns : Reply → Bytes × Option ClientError → Type 0
Learns reply r =
    ((reply.error ≡ none) × (r ≡ (body_of reply.body, none)))
    ⊎ (((e : Status) × (reply.error ≡ some e)
          × (e.code ≡ already_exists)
          × (r ≡ (body_of reply.body, some too_old)))
        ⊎ ((e : Status) × (m : String) × (reply.error ≡ some e)
            × (e.code ≢ already_exists)
            × (r ≡ ([], some (bad m)))))

abbrev error_reply : Option Bytes → String → Code → Reply
error_reply body m c = record { body = body; error = some (record { code = c; message = m }) }

other_code :
    (body : Option Bytes) (m : String) (c : Code)
    → Learns (error_reply body m c) (read_update (ok (answer_update (error_reply body m c))))
unfolding answer_update http_for_code read_update
other_code body m Code.not_found = inr (inr (_, _, refl, λ h. cc h, refl))
other_code body m Code.invalid_argument = inr (inr (_, _, refl, λ h. cc h, refl))
other_code body m Code.internal = inr (inr (_, _, refl, λ h. cc h, refl))
other_code body m Code.already_exists = inr (inl (_, refl, refl, refl))
other_code body m Code.failed_precondition = inr (inr (_, _, refl, λ h. cc h, refl))
other_code body m Code.unknown = inr (inr (_, _, refl, λ h. cc h, refl))

parts-Learns :
    (body : Option Bytes) (error : Option Status)
    → let reply : Reply = record { body = body; error = error } in
      Learns reply (read_update (ok (answer_update reply)))
parts-Learns b none = unfold answer_update read_update in inl (refl, refl)
parts-Learns b (some e) = other_code b e.message e.code

answer-Learns : (reply : Reply) → Learns reply (read_update (ok (answer_update reply)))
answer-Learns reply = parts-Learns reply.body reply.error

-- What the client makes of the checkpoint that the witness gives out, or of the error instead.
abbrev pub Sees : Result Status Bytes → Bytes × Option ClientError → Type 0
Sees got r =
    ((b : Bytes) × (got ≡ ok b) × (r ≡ (b, none)))
    ⊎ (((e : Status) × (got ≡ err e) × (e.code ≡ not_found) × (r ≡ ([], some not_exist)))
        ⊎ ((e : Status) × (m : String) × (got ≡ err e)
            × (e.code ≢ not_found)
            × (r ≡ ([], some (bad m)))))

error-Sees :
    (m : String) (c : Code)
    → let got : Result Status Bytes = err (record { code = c; message = m }) in
      Sees got (read_checkpoint (ok (answer_checkpoint got)))
unfolding answer_checkpoint http_for_code read_checkpoint
error-Sees m Code.not_found = inr (inl (_, refl, refl, refl))
error-Sees m Code.invalid_argument = inr (inr (_, _, refl, λ h. cc h, refl))
error-Sees m Code.internal = inr (inr (_, _, refl, λ h. cc h, refl))
error-Sees m Code.already_exists = inr (inr (_, _, refl, λ h. cc h, refl))
error-Sees m Code.failed_precondition = inr (inr (_, _, refl, λ h. cc h, refl))
error-Sees m Code.unknown = inr (inr (_, _, refl, λ h. cc h, refl))

answer-Sees : (got : Result Status Bytes) → Sees got (read_checkpoint (ok (answer_checkpoint got)))
answer-Sees (ok b) = unfold answer_checkpoint read_checkpoint in inl (b, refl, refl)
answer-Sees (err e) = error-Sees e.message e.code

module _ (L : Libraries) (P : Persistence) (json : Json) (w : Witness L) where
  -- A network that delivers requests and responses.
  abbrev pub deliver : String → Bytes → P.State → Result String Response × P.State
  deliver log_id body s = let (resp, t) = serve_update L P json w log_id (ok body) s in (ok resp, t)

  -- Where a request is read from its JSON, a client whose messages are delivered moves the witness
  -- as a direct call does, and learns what the call replies: the checkpoint without an error; with
  -- AlreadyExists the checkpoint that is held and that its own is too old; or another error.
  pub client_update-Learns :
      (log_id : String) (cp body : Bytes) (proof : Hashes) (s : P.State)
      → let req : UpdateRequest = record { checkpoint = cp; proof = proof } in
        json.marshal_request req ≡ ok body
        → json.unmarshal_request body ≡ ok req
        → let (reply, t) = update L P w log_id cp proof s in
          let (r, u) = client_update json deliver log_id cp proof s in (u ≡ t) × Learns reply r
  unfolding client_update serve_update
  client_update-Learns log_id cp body proof s h k =
      rw (h, client_update)
        (rw (k, serve_update) (refl, answer-Learns (update L P w log_id cp proof s).0))

  -- A client whose request for a checkpoint is delivered gets the checkpoint that the witness
  -- holds, and the error that it does not exist exactly where the witness answers NotFound.
  pub serve_checkpoint-Sees :
      (log_id : String) (s : P.State)
      → Sees
          (get_checkpoint L P log_id s)
          (read_checkpoint (ok (serve_checkpoint L P json w log_id s)))
  unfolding serve_checkpoint
  serve_checkpoint-Sees log_id s = answer-Sees (get_checkpoint L P log_id s)
