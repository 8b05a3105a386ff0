-- ===== src/Witness/Status.antt =====
-- gRPC status errors, as the witness and its persistence return them.
use trillian_serverless.Base.{String}

-- The codes of google.golang.org/grpc/codes that this code uses; `unknown` is the code of an
-- error that is no status.
pub data Code : Type 0 where
  not_found invalid_argument internal already_exists failed_precondition unknown : Code

-- An error by its code and the constant text of its message.
pub record Status : Type 0 where
  pub code : Code
  pub message : String

abbrev pub is_not_found : Status → trillian_serverless.Base.Bool
is_not_found s = elim s.code [
  | not_found ↦ trillian_serverless.Base.true
  | _ ↦ trillian_serverless.Base.false
]

abbrev pub errorf : Code → String → Status
errorf c m = record { code = c; message = m }
