-- ===== src/Formats.antt =====
-- The data of the checkpoint and note formats that this repository takes from other modules
-- (`log.Checkpoint`, `note.Note`, `note.Verifier`, `note.Signer`), as far as its code reads them,
-- and the functions of those modules that it calls, as parameters.
use trillian_serverless.Base.{ℕ, String, List, Bytes, Result}

-- `log.Checkpoint`
pub record Checkpoint : Type 0 where
  pub origin : String
  pub size : ℕ
  pub hash : Bytes

-- `note.Signature`
pub record Signature : Type 0 where
  pub name : String
  pub key_hash : ℕ
  pub base64 : Bytes

-- `note.Note`
pub record Note : Type 0 where
  pub text : Bytes
  pub sigs : List Signature
  pub unverified : List Signature

-- `note.Verifier`: its name, its key hash and the key that its check uses.
pub record Verifier : Type 0 where
  pub name : String
  pub key_hash : ℕ
  pub key : Bytes

-- `note.Signer`
pub record Signer : Type 0 where
  pub name : String
  pub key_hash : ℕ
  pub secret : Bytes

-- A proof, or the hashes of a compact range.
abbrev pub Hashes : Type 0
Hashes = List Bytes

-- `log.ParseCheckpoint(raw, origin, logVerifier, otherVerifiers...)`
abbrev pub ParseCheckpoint : Type 0
ParseCheckpoint = Bytes → String → Verifier → List Verifier → Result String (Checkpoint × Note)

-- `proof.VerifyConsistency(hasher, size1, size2, proof, root1, root2)`, for the hasher at hand.
abbrev pub VerifyConsistency : Type 0
VerifyConsistency = ℕ → ℕ → Hashes → Bytes → Bytes → Result String (Unit {0})

-- `compact.Range` and its factory, for the hasher at hand.
pub record Compact (Range : Type 0) : Type 0 where
  pub new_range : ℕ → ℕ → Hashes → Result String Range
  pub get_root_hash : Range → Result String Bytes
  -- The range after the call, whether it failed or not, and how it ended.
  pub append_range : Range → Range → Range × Result String (Unit {0})
  pub hashes : Range → Hashes
