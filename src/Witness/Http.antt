-- ===== src/Witness/Http.antt =====
-- The witness over HTTP: the handlers (witness/golang/internal/http/server.go) and the client that
-- feeders use (witness/golang/client/http/witness_client.go). The router has already found the
-- handler and the log's ID; JSON and the network are parameters.
pub mod Laws
use trillian_serverless.Base.{
  ℕ, String, Bool, List, [], ◌∷◌, Bytes, Option, none, some, Result, ok, err, if◌then◌else◌, ◌==◌,
}
use trillian_serverless.Formats.{Hashes}
use trillian_serverless.Std.Paths.{ascii}
use trillian_serverless.Witness.Status.{
  Status, Code, not_found, already_exists, failed_precondition, invalid_argument,
}
use trillian_serverless.Witness.Persistence.{Persistence}
use trillian_serverless.Witness.Update.{Libraries, Reply, Witness, update, get_checkpoint, get_logs}

-- A response: its status and its body.
pub record Response : Type 0 where
  pub status : ℕ
  pub body : Bytes

-- `api.UpdateRequest`
pub record UpdateRequest : Type 0 where
  pub checkpoint : Bytes
  pub proof : Hashes

-- What encoding/json does with the values at hand.
pub record Json : Type 0 where
  pub marshal_request : UpdateRequest → Result String Bytes
  pub unmarshal_request : Bytes → Result String UpdateRequest
  pub marshal_logs : List String → Result String Bytes

-- `httpForCode`
unfoldable pub http_for_code : Code → ℕ
http_for_code already_exists = 409
http_for_code not_found = 404
http_for_code failed_precondition = 400
http_for_code invalid_argument = 400
http_for_code _ = 500

-- `http.Error`, with the constant part of its text.
abbrev pub http_error : String → ℕ → Response
http_error m code = record { status = code; body = ascii m }

-- The bytes that are written: none where there is no checkpoint.
abbrev pub body_of : Option Bytes → Bytes
body_of none = []
body_of (some b) = b

-- The part of the handler `update` after the witness has answered.
unfoldable pub answer_update : Reply → Response
answer_update reply = elim reply.error [
  | none ↦ record { status = 200; body = body_of reply.body }
  | some e ↦ elim e.code [
    | already_exists ↦ record { status = http_for_code already_exists; body = body_of reply.body }
    | c ↦ http_error "failed to update to new checkpoint" (http_for_code c)
  ]
]

-- The handler `getCheckpoint` after the witness has answered.
unfoldable pub answer_checkpoint : Result Status Bytes → Response
answer_checkpoint (err e) = http_error "failed to get checkpoint" (http_for_code e.code)
answer_checkpoint (ok chkpt) = record { status = 200; body = chkpt }

module _ (L : Libraries) (P : Persistence) (json : Json) (w : Witness L) where
  -- The handler `update`, on the body as far as it can be read.
  unfoldable pub serve_update : String → Result String Bytes → P.State → Response × P.State
  serve_update log_id (err _) s = (http_error "cannot read request body" 400, s)
  serve_update log_id (ok b) s = elim (json.unmarshal_request b) [
    | err _ ↦ (http_error "cannot parse request body as proper JSON struct" 400, s)
    | ok req ↦
        let (reply, t) = update L P w log_id req.checkpoint req.proof s in (answer_update reply, t)
  ]

  unfoldable pub serve_checkpoint : String → P.State → Response
  serve_checkpoint log_id s = answer_checkpoint (get_checkpoint L P log_id s)

  unfoldable pub serve_logs : P.State → Response
  serve_logs s = elim (json.marshal_logs (get_logs L P s)) [
    | err _ ↦ http_error "failed to convert log list to JSON" 500
    | ok b ↦ record { status = 200; body = b }
  ]

-- The errors of the client: `os.ErrNotExist`, `ErrCheckpointTooOld`, or any other.
pub data ClientError : Type 0 where
  not_exist too_old : ClientError
  bad : String → ClientError

-- The client's `GetLatestCheckpoint`, on what `client.Do` returned.
unfoldable pub read_checkpoint : Result String Response → Bytes × Option ClientError
read_checkpoint (err _) = ([], some (bad "failed to do http request"))
read_checkpoint (ok resp) =
    if resp.status == 404
    then ([], some not_exist)
    else if resp.status == 200
    then (resp.body, none)
    else ([], some (bad "bad status response"))

-- The client's `Update`, on what `client.Do` returned.
unfoldable pub read_update : Result String Response → Bytes × Option ClientError
read_update (err _) = ([], some (bad "failed to do http request"))
read_update (ok resp) =
    if resp.status == 200
    then (resp.body, none)
    else if resp.status == 409
    then (resp.body, some too_old)
    else ([], some (bad "bad status response"))

-- The client's `Update`: `send` is the network, and what stands behind it.
unfoldable pub client_update {ℓ} :
    {State : Type ℓ}
    → Json
    → (String → Bytes → State → Result String Response × State)
    → String
    → Bytes
    → Hashes
    → State
    → (Bytes × Option ClientError) × State
client_update json send log_id cp proof s =
    elim (json.marshal_request (record { checkpoint = cp; proof = proof })) [
      | err _ ↦ (([], some (bad "failed to marshal update request")), s)
      | ok body ↦ let (resp, t) = send log_id body s in (read_update resp, t)
    ]
