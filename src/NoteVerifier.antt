-- ===== src/NoteVerifier.antt =====
-- The note verifiers for ECDSA keys (internal/note/note_verifier.go). SHA-256, the parser of public
-- keys, the check of a signature and `note.NewVerifier` are parameters.
pub mod Laws
mod Tests
use trillian_serverless.Base.{
  ℕ, zero, suc, ◌+◌, ◌*◌, ◌^◌, String, Bool, not, List, [], ◌∷◌, Bytes, Option, none, some, Result,
  ok, err, ◌>>=◌, ◌>>◌, fail_if, or_fail, expect, if◌then◌else◌, ltb, ◌==◌, ◌=?◌, string_eq, length,
}
use trillian_serverless.Std.Base64.{decode}
use trillian_serverless.Std.Numbers.{parse_uint}

-- "+"
abbrev pub plus : ℕ
plus = 43

-- The text before the first "+", and what follows it if there is one.
unfoldable pub cut_plus : Bytes → Bytes × Option Bytes
cut_plus [] = ([], none)
cut_plus (c ∷ cs) =
    let (before, after) = cut_plus cs in if c == plus then ([], some cs) else (c ∷ before, after)

-- The parts of a text that was cut: it is one part if nothing follows.
abbrev pub parts_of : Bytes → Bytes × Option Bytes → (Bytes → List Bytes) → List Bytes
parts_of s (before, none) split = s ∷ []
parts_of s (before, some rest) split = before ∷ split rest

-- `strings.SplitN(s, "+", n)`, for n from 1 on.
unfoldable pub split_n : ℕ → Bytes → List Bytes
split_n zero s = []
split_n (suc zero) s = s ∷ []
split_n (suc (suc n)) s = parts_of s (cut_plus s) (split_n (suc n))

-- `algECDSAWithSHA256`
abbrev pub alg_ecdsa_with_sha256 : ℕ
alg_ecdsa_with_sha256 = 2

-- `binary.BigEndian.Uint32`, which reads four bytes.
abbrev pub big_endian_uint32 : Bytes → ℕ
big_endian_uint32 (a ∷ b ∷ c ∷ d ∷ _) = a * 2 ^ 24 + b * 2 ^ 16 + c * 2 ^ 8 + d
big_endian_uint32 _ = 0

-- The key in its DER form is of a type that is ECDSA's, or another.
pub data PublicKey (EcdsaKey : Type 0) : Type 0 where
  ecdsa : EcdsaKey → PublicKey EcdsaKey
  other : PublicKey EcdsaKey

pub record Crypto : Type 1 where
  pub EcdsaKey : Type 0
  pub sha256 : Bytes → Bytes
  pub parse_pkix_public_key : Bytes → Result String (PublicKey EcdsaKey)
  pub verify_asn1 : EcdsaKey → Bytes → Bytes → Bool

-- `sdb_note.Verifier`: its methods' results.
pub record NoteVerifier : Type 0 where
  pub name : Bytes
  pub key_hash : ℕ
  pub verify : Bytes → Bytes → Bool

-- The type of the key bytes, and what follows it.
abbrev pub typed_key : Bytes → Result String (ℕ × Bytes)
typed_key [] = err "invalid key, key bytes too short"
typed_key (_ ∷ []) = err "invalid key, key bytes too short"
typed_key (t ∷ d ∷ der) = ok (t, d ∷ der)

abbrev pub three_parts : List Bytes → Result String (Bytes × Bytes × Bytes)
three_parts (a ∷ b ∷ c ∷ []) = ok (a, b, c)
three_parts _ = err "key has the wrong number of parts"

module _ (c : Crypto) where
  unfoldable pub key_hash : Bytes → ℕ
  key_hash i = big_endian_uint32 (c.sha256 i)

  abbrev pub as_ecdsa : PublicKey c.EcdsaKey → Result String c.EcdsaKey
  as_ecdsa (ecdsa k) = ok k
  as_ecdsa other = err "expected an ECDSA key"

  abbrev pub ecdsa_verifier : Bytes → ℕ → c.EcdsaKey → NoteVerifier
  ecdsa_verifier name kh k = record {
    name = name;
    key_hash = kh;
    verify = λ msg sig. c.verify_asn1 k (c.sha256 msg) sig;
  }

  unfoldable pub new_ecdsa_verifier : Bytes → Result String NoteVerifier
  new_ecdsa_verifier key = do
    parts ← three_parts (split_n 3 key)
    key_bytes ← expect (decode parts.2) "key has invalid base64"
    typed ← typed_key key_bytes
    fail_if (not (typed.0 == alg_ecdsa_with_sha256)) "key has incorrect type"
    let kh = key_hash typed.1
    kh_provided ← expect (parse_uint 16 32 parts.1) "invalid key, couldn't parse keyhash"
    fail_if (not (kh_provided == kh)) "invalid keyhash"
    k ← or_fail (c.parse_pkix_public_key typed.1) (λ _. "couldn't parse public key")
    ecdsa_key ← as_ecdsa k
    ok (ecdsa_verifier parts.0 kh ecdsa_key)

  -- `NewVerifier`, given that of `sdb_note`.
  unfoldable pub new_verifier :
      (Bytes → Result String NoteVerifier) → String → Bytes → Result String NoteVerifier
  new_verifier sdb_new_verifier key_type key =
      if key_type =? "ecdsa"
      then new_ecdsa_verifier key
      else if key_type =? ""
      then sdb_new_verifier key
      else err "unknown key type"
