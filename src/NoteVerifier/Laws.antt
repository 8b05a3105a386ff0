-- ===== src/NoteVerifier/Laws.antt =====
-- Which keys a verifier is made for.
use trillian_serverless.Base.{
  ℕ, zero, suc, ◌/◌, ◌%◌, ◌^◌, ◌<◌, ◌≡◌, ◌≢◌, refl, sym, ◌∙◌, ap, subst, ◌↔◌, false, not, [], ◌∷◌,
  ◌++◌, Bytes, Option, none, some, ok, bind-ok, ok-injective, ok-ne-err, fail_if, fail_if-ok,
  or_fail, or_fail-ok, expect, expect-ok, ltb, ◌==◌, arith, Bool-cases, inl, inr,
}
use trillian_serverless.Std.Base64.{AreBytes, decode, encode, decode-encode}
use trillian_serverless.Std.Numbers.{
  digit, digits_onto, format_uint, parse_uint, parse_uint-format_uint,
}
use trillian_serverless.NoteVerifier.{
  plus, cut_plus, split_n, parts_of, alg_ecdsa_with_sha256, big_endian_uint32, PublicKey, ecdsa,
  other, Crypto, NoteVerifier, typed_key, three_parts, key_hash, as_ecdsa, ecdsa_verifier,
  new_ecdsa_verifier,
}

-- No byte of the text is a "+".
abbrev pub NoPlus : Bytes → Type 0
NoPlus [] = Unit
NoPlus (c ∷ cs) = (c ≢ plus) × NoPlus cs

cut_plus-plus : (a r : Bytes) → NoPlus a → cut_plus (a ++ plus ∷ r) ≡ (a, some r)
unfolding cut_plus
cut_plus-plus [] r h = refl
cut_plus-plus (c ∷ a) r h = rw (cut_plus-plus a r h.1) (ground (arith, h.0))

-- The text that was cut.
abbrev Cut : Bytes → Bytes × Option Bytes → Type 0
Cut s (a, none) = Unit
Cut s (a, some r) = (s ≡ a ++ plus ∷ r) × NoPlus a

Cut-cons :
    (c : ℕ) (s : Bytes) (p : Bytes × Option Bytes) → c ≢ plus → Cut s p → Cut (c ∷ s) (c ∷ p.0, p.1)
Cut-cons c s (a, none) ne h = tt
Cut-cons c s (a, some r) ne h = (ap (λ t. c ∷ t) h.0, (ne, h.1))

cut_plus-Cut : (s : Bytes) → Cut s (cut_plus s)
unfolding cut_plus
cut_plus-Cut [] = tt
cut_plus-Cut (c ∷ s) = elim (Bool-cases (c == plus)) [
  | inl same ↦ rw same (ground (arith, same), tt)
  | inr differ ↦ rw differ (Cut-cons c s (cut_plus s) (ground (arith, differ)) (cut_plus-Cut s))
]

-- A text of three parts, of which the last may hold any byte.
abbrev pub joined : Bytes × Bytes × Bytes → Bytes
joined (a, b, rest) = a ++ plus ∷ (b ++ plus ∷ rest)

split_n-joined :
    (a b r : Bytes)
    → NoPlus a
    → NoPlus b
    → three_parts (split_n 3 (joined (a, b, r))) ≡ ok (a, b, r)
unfolding split_n
split_n-joined a b r h k =
    ap (λ p. three_parts (parts_of (joined (a, b, r)) p (split_n 2)))
      (cut_plus-plus a (b ++ plus ∷ r) h)
    ∙ ap (λ p. three_parts (a ∷ parts_of (b ++ plus ∷ r) p (split_n 1))) (cut_plus-plus b r k)

-- What three parts were cut from, after the first and in all.
two_parts :
    (a s : Bytes) (p : Bytes × Option Bytes) (q : Bytes × Bytes × Bytes)
    → Cut s p
    → three_parts (a ∷ parts_of s p (split_n 1)) ≡ ok q
    → (q.0 ≡ a) × (s ≡ q.1 ++ plus ∷ q.2) × NoPlus q.1
unfolding split_n
two_parts a s (b, none) q cut h = absurd (ok-ne-err q _ (sym h))
two_parts a s (b, some r) q cut h =
    let same : (a, b, r) ≡ q = ok-injective (a, b, r) q h in
    subst (λ (q : Bytes × Bytes × Bytes). (q.0 ≡ a) × (s ≡ q.1 ++ plus ∷ q.2) × NoPlus q.1) same
      (refl, cut.0, cut.1)

all_parts :
    (s : Bytes) (p : Bytes × Option Bytes) (q : Bytes × Bytes × Bytes)
    → Cut s p
    → three_parts (parts_of s p (split_n 2)) ≡ ok q
    → (s ≡ joined q) × NoPlus q.0 × NoPlus q.1
unfolding split_n
all_parts s (a, none) q cut h = absurd (ok-ne-err q _ (sym h))
all_parts s (a, some r) q cut h =
    let (first, rest, plain) = two_parts a r (cut_plus r) q (cut_plus-Cut r) h in
    (
      cut.0
          ∙ (ap (λ t. a ++ plus ∷ t) rest ∙ ap (λ t. t ++ plus ∷ (q.1 ++ plus ∷ q.2)) (sym first)),
      subst NoPlus (sym first) cut.1,
      plain,
    )

joined-split_n :
    (key : Bytes) (p : Bytes × Bytes × Bytes)
    → three_parts (split_n 3 key) ≡ ok p
    → (key ≡ joined p) × NoPlus p.0 × NoPlus p.1
unfolding split_n
joined-split_n key p h = all_parts key (cut_plus key) p (cut_plus-Cut key) h

digit-ne-plus : (n : ℕ) → digit n ≢ plus
unfolding digit
digit-ne-plus n h = ground (arith, h)

digits_onto-NoPlus : (base f n : ℕ) (acc : Bytes) → NoPlus acc → NoPlus (digits_onto base f n acc)
unfolding digits_onto
digits_onto-NoPlus base zero n acc h = h
digits_onto-NoPlus base (suc f) n acc h = elim (Bool-cases (ltb n base)) [
  | inl last ↦ rw last (digit-ne-plus n, h)
  | inr more ↦
      rw more (
        digits_onto-NoPlus base f (n / base) (digit (n % base) ∷ acc) (digit-ne-plus (n % base), h))
]

big_endian_uint32-lt : (b : Bytes) → AreBytes b → big_endian_uint32 b < 2 ^ 32
big_endian_uint32-lt [] h = omega arith
big_endian_uint32-lt (a ∷ []) h = omega arith
big_endian_uint32-lt (a ∷ b ∷ []) h = omega arith
big_endian_uint32-lt (a ∷ b ∷ c ∷ []) h = omega arith
big_endian_uint32-lt (a ∷ b ∷ c ∷ d ∷ _) h = omega arith

same_number : (n : ℕ) → not (n == n) ≡ false
same_number n = ground arith

equal_numbers : (m n : ℕ) → not (m == n) ≡ false → m ≡ n
equal_numbers m n h = ground (arith, h)

module _ (c : Crypto) where
  -- The parts of a key: the type and the key bytes in the last, the hash of these in the second,
  -- and an ECDSA key in its DER form.
  abbrev pub IsKey : Bytes → Bytes × Bytes × Bytes → ℕ → Bytes → c.EcdsaKey → Type 0
  IsKey key parts d der k =
      (key ≡ joined parts)
      × NoPlus parts.0
      × NoPlus parts.1
      × (decode parts.2 ≡ some (alg_ecdsa_with_sha256 ∷ d ∷ der))
      × (parse_uint 16 32 parts.1 ≡ some (key_hash c (d ∷ der)))
      × (c.parse_pkix_public_key (d ∷ der) ≡ ok (ecdsa k))

  new_ecdsa_verifier-IsKey :
      (key : Bytes) (parts : Bytes × Bytes × Bytes) (d : ℕ) (der : Bytes) (k : c.EcdsaKey)
      → IsKey key parts d der k
      → new_ecdsa_verifier c key ≡ ok (ecdsa_verifier c parts.0 (key_hash c (d ∷ der)) k)
  unfolding new_ecdsa_verifier
  new_ecdsa_verifier-IsKey key (name, text, enc) d der k (same, n1, n2, e1, e2, e3) = rw same (
      rw (split_n-joined name text enc n1 n2)
        (rw e1 (rw e2 (rw (same_number (key_hash c (d ∷ der))) (rw e3 refl)))))

  typed_key-ok :
      (b : Bytes) (t : ℕ × Bytes)
      → typed_key b ≡ ok t
      → (d : ℕ) × (der : Bytes) × (b ≡ t.0 ∷ d ∷ der) × (t.1 ≡ d ∷ der)
  typed_key-ok [] t h = absurd (ok-ne-err t _ (sym h))
  typed_key-ok (_ ∷ []) t h = absurd (ok-ne-err t _ (sym h))
  typed_key-ok (a ∷ d ∷ der) t h =
      let same = ok-injective (a, d ∷ der) t h in
      (d, der, ap (λ (x : ℕ × Bytes). x.0 ∷ d ∷ der) same, ap (λ (x : ℕ × Bytes). x.1) (sym same))

  as_ecdsa-ok : (p : PublicKey c.EcdsaKey) (k : c.EcdsaKey) → as_ecdsa c p ≡ ok k → p ≡ ecdsa k
  as_ecdsa-ok (ecdsa j) k h = ap ecdsa (ok-injective j k h)
  as_ecdsa-ok other k h = absurd (ok-ne-err k _ (sym h))

  IsKey-new_ecdsa_verifier :
      (key : Bytes) (w : NoteVerifier)
      → new_ecdsa_verifier c key ≡ ok w
      → (parts : Bytes × Bytes × Bytes) × (d : ℕ) × (der : Bytes) × (k : c.EcdsaKey) × IsKey key
          parts d der k
        × (w ≡ ecdsa_verifier c parts.0 (key_hash c (d ∷ der)) k)
  unfolding new_ecdsa_verifier
  IsKey-new_ecdsa_verifier key w h =
      let (parts, h1, k1) = bind-ok (three_parts (split_n 3 key)) _ w h in
      let (b, h2, k2) = bind-ok (expect (decode parts.2) _) _ w k1 in
      let (t, h3, k3) = bind-ok (typed_key b) _ w k2 in
      let (_, h4, k4) = bind-ok (fail_if (not (t.0 == alg_ecdsa_with_sha256)) _) _ w k3 in
      let (kh, h5, k5) = bind-ok (expect (parse_uint 16 32 parts.1) _) _ w k4 in
      let (_, h6, k6) = bind-ok (fail_if (not (kh == key_hash c t.1)) _) _ w k5 in
      let (p, h7, k7) = bind-ok (or_fail (c.parse_pkix_public_key t.1) _) _ w k6 in
      let (k, h8, k8) = bind-ok (as_ecdsa c p) _ w k7 in
      let (d, der, eb, et) = typed_key-ok b t h3 in
      let alg : t.0 ≡ alg_ecdsa_with_sha256 = equal_numbers t.0 2 (fail_if-ok _ _ tt h4) in
      let hash : kh ≡ key_hash c (d ∷ der) =
        equal_numbers kh (key_hash c t.1) (fail_if-ok _ _ tt h6) ∙ ap (key_hash c) et in
      let (same, n1, n2) = joined-split_n key parts h1 in
      (
        parts,
        d,
        der,
        k,
        (
          same,
          n1,
          n2,
          expect-ok _ _ b h2 ∙ ap some (eb ∙ ap (λ (x : ℕ). x ∷ d ∷ der) alg),
          expect-ok _ _ kh h5 ∙ ap some hash,
          ap c.parse_pkix_public_key (sym et) ∙ (or_fail-ok _ _ p h7 ∙ ap ok (as_ecdsa-ok p k h8)),
        ),
        sym (ok-injective _ w k8) ∙ ap (λ x. ecdsa_verifier c parts.0 (key_hash c x) k) et,
      )

  -- A verifier is made exactly for the keys whose parts are a name, the hash of the DER form in
  -- hexadecimal and the ECDSA algorithm's number before the DER form of an ECDSA key in base64; it
  -- has that name, hash and key.
  pub new_ecdsa_verifier_lem :
      (key : Bytes) (w : NoteVerifier)
      → (new_ecdsa_verifier c key ≡ ok w) ↔ (
          (parts : Bytes × Bytes × Bytes) × (d : ℕ) × (der : Bytes) × (k : c.EcdsaKey) × IsKey key
            parts d der k
          × (w ≡ ecdsa_verifier c parts.0 (key_hash c (d ∷ der)) k))
  new_ecdsa_verifier_lem key w = (
    IsKey-new_ecdsa_verifier key w,
    λ (parts, d, der, k, is_key, same).
        new_ecdsa_verifier-IsKey key parts d der k is_key ∙ ap ok (sym same),
  )

  -- Where SHA-256 gives bytes: the text of a name without "+", the hash of a key's DER form and
  -- this with the algorithm's number in base64 makes a verifier with that name, hash and key.
  pub new_ecdsa_verifier-encode :
      ((b : Bytes) → AreBytes (c.sha256 b))
      → (name : Bytes) (d : ℕ) (der : Bytes) (k : c.EcdsaKey) → NoPlus name
      → AreBytes (d ∷ der)
      → c.parse_pkix_public_key (d ∷ der) ≡ ok (ecdsa k)
      → let kh = key_hash c (d ∷ der) in
        new_ecdsa_verifier c (joined (name, format_uint 16 kh, encode (2 ∷ d ∷ der)))
        ≡ ok (ecdsa_verifier c name kh k)
  unfolding key_hash format_uint
  new_ecdsa_verifier-encode bytes name d der k plain are parsed =
      let kh = key_hash c (d ∷ der) in
      let small : kh < 2 ^ 32 = big_endian_uint32-lt (c.sha256 (d ∷ der)) (bytes (d ∷ der)) in
      new_ecdsa_verifier-IsKey _ (name, format_uint 16 kh, encode (2 ∷ d ∷ der)) d der k
        (
          refl,
          plain,
          digits_onto-NoPlus 16 64 kh [] tt,
          decode-encode (2 ∷ d ∷ der) (omega arith, are),
          parse_uint-format_uint 16 32 kh (omega arith) (omega arith) (omega (arith, small)) small,
          parsed,
        )
