-- ===== src/NoteVerifier/Tests.antt =====
-- Keys that are accepted and refused, with one hash and one ECDSA key.
use trillian_serverless.Base.{
  ℕ, ◌≡◌, ◌↔◌, refl, true, [], ◌∷◌, Bytes, ok, err, arith, bytes_eq, string_eq,
}
use trillian_serverless.Std.Base64.{encode, decode}
use trillian_serverless.Std.Numbers.{format_uint, parse_uint}
use trillian_serverless.Std.Paths.{ascii}
use trillian_serverless.NoteVerifier.{
  ecdsa, Crypto, NoteVerifier, cut_plus, split_n, key_hash, ecdsa_verifier, new_ecdsa_verifier,
  new_verifier,
}
use trillian_serverless.NoteVerifier.Laws.{
  IsKey, joined, new_ecdsa_verifier_lem, new_ecdsa_verifier-encode,
}

abbrev crypto : Crypto
crypto = record {
  EcdsaKey = Bytes;
  sha256 = λ b. 0 ∷ 0 ∷ 0 ∷ 171 ∷ [];
  parse_pkix_public_key = λ der. ok (ecdsa der);
  verify_asn1 = λ k digest sig. true;
}

abbrev made : NoteVerifier
made = ecdsa_verifier crypto (ascii "log") 171 (5 ∷ [])

accepted :
    new_verifier crypto (λ key. err "not for this type") "ecdsa" (ascii "log+ab+AgU=") ≡ ok made
unfolding new_verifier new_ecdsa_verifier split_n key_hash decode parse_uint string_eq cut_plus
accepted = refl

wrong_hash : new_ecdsa_verifier crypto (ascii "log+ac+AgU=") ≡ err "invalid keyhash"
unfolding new_ecdsa_verifier split_n key_hash decode parse_uint cut_plus
wrong_hash = refl

wrong_type : new_ecdsa_verifier crypto (ascii "log+ab+AQU=") ≡ err "key has incorrect type"
unfolding new_ecdsa_verifier split_n key_hash decode parse_uint cut_plus
wrong_type = refl

new_ecdsa_verifier_lem_example : (new_ecdsa_verifier crypto (ascii "log+ab+AgU=") ≡ ok made) ↔ (
    (parts : Bytes × Bytes × Bytes) × (d : ℕ) × (der : Bytes) × (k : Bytes) × IsKey crypto
      (ascii "log+ab+AgU=")
      parts
      d
      der
      k
    × (made ≡ ecdsa_verifier crypto parts.0 (key_hash crypto (d ∷ der)) k))
new_ecdsa_verifier_lem_example = new_ecdsa_verifier_lem crypto (ascii "log+ab+AgU=") made

new_ecdsa_verifier-encode_example :
    new_ecdsa_verifier crypto (joined (ascii "log", format_uint 16 171, encode (2 ∷ 5 ∷ [])))
    ≡ ok made
unfolding key_hash
new_ecdsa_verifier-encode_example =
    new_ecdsa_verifier-encode crypto (λ b. omega arith) (ascii "log") 5 [] (5 ∷ []) (omega arith)
      (omega arith) refl
