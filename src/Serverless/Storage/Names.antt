-- ===== src/Serverless/Storage/Names.antt =====
-- The files of the log have different names.
use trillian_serverless.Base.{
  ℕ, ◌^◌, ◌/◌, ◌%◌, ◌<◌, ◌≡◌, ◌≢◌, refl, sym, ◌∙◌, ap, List, [], ◌∷◌, ◌++◌, append_assoc, Bytes,
  some, arith, length, length-append, ok-injective,
}
use trillian_serverless.Std.Numbers.{format_padded, format_padded-byte, digit}
use trillian_serverless.Std.Paths.{
  ascii, slash, join_path, join_rest, strip_prefix, strip_prefix-append,
}
use trillian_serverless.Serverless.Layout.Paths.{seq_path, hex_bytes, seq_from_path}
use trillian_serverless.Serverless.Layout.Paths.Laws.{seq_from_path-seq_path}
use trillian_serverless.Serverless.Storage.{seq_file, pending_file}

append_cancel : (r x y : Bytes) → r ++ x ≡ r ++ y → x ≡ y
append_cancel r x y h =
    let e : some x ≡ some y =
      sym (strip_prefix-append r x) ∙ (ap (strip_prefix r) h ∙ strip_prefix-append r y) in
    cc e

abbrev second : Bytes → ℕ
second (x ∷ y ∷ l) = y
second _ = 0

-- The file of a leaf hash.
abbrev pub leaf_file : Bytes → ℕ → ℕ → ℕ → Bytes → Bytes
leaf_file root a b c rest = join_path (
    join_path
      (root ∷ ascii "leaves" ∷ format_padded 2 a ∷ format_padded 2 b ∷ format_padded 2 c ∷ [])
    ∷ hex_bytes rest
    ∷ [])

module _ (c : ℕ) (p : Bytes) where
  abbrev root : Bytes
  root = c ∷ p

  abbrev leaves : Bytes
  leaves = root ++ ascii "/leaves/"

  two_joins :
      (ps : List Bytes) (name : Bytes)
      → join_path (join_path (root ∷ ps) ∷ name ∷ [])
        ≡ root ++ (join_rest ps ++ join_rest (name ∷ []))
  unfolding join_path
  two_joins ps name = append_assoc root (join_rest ps) (join_rest (name ∷ []))

  seq_file-begins : (i : ℕ) → (z : Bytes) × (seq_file root i ≡ root ++ (slash ∷ 115 ∷ z))
  unfolding seq_path join_rest
  seq_file-begins i = (_, two_joins (ascii "seq" ∷ _) _)

  under_leaves : (x y : Bytes) → x ≡ root ++ (ascii "/leaves/" ++ y) → x ≡ leaves ++ y
  under_leaves x y h = h ∙ sym (append_assoc root (ascii "/leaves/") y)

  leaf_file-begins :
      (a b d : ℕ) (rest : Bytes)
      → a < 256
      → (z : Bytes) × (leaf_file root a b d rest ≡ leaves ++ (digit (a / 16) ∷ z))
  unfolding join_rest
  leaf_file-begins a b d rest h = (
    _,
    under_leaves (leaf_file root a b d rest) (digit (a / 16) ∷ _) (
        ap
          (λ x. join_path (
            join_path (root ∷ ascii "leaves" ∷ x ∷ format_padded 2 b ∷ format_padded 2 d ∷ [])
            ∷ hex_bytes rest
            ∷ []))
          (format_padded-byte a h)
        ∙ two_joins
            (ascii "leaves"
              ∷ (digit (a / 16) ∷ digit (a % 16) ∷ [])
              ∷ format_padded 2 b
              ∷ format_padded 2 d
              ∷ [])
            (hex_bytes rest)),
  )

  pending_file-begins : (h : Bytes) → (z : Bytes) × (pending_file root h ≡ leaves ++ (112 ∷ z))
  unfolding join_path
  pending_file-begins h = (
    ascii "ending/" ++ (hex_bytes h ++ []),
    under_leaves (pending_file root h) (112 ∷ (ascii "ending/" ++ (hex_bytes h ++ []))) refl,
  )

  -- A file under `leaves` is not the file of an entry.
  leaves-ne-seq_file : (i : ℕ) (x y : Bytes) → x ≡ leaves ++ y → x ≢ seq_file root i
  leaves-ne-seq_file i x y h e =
      let (z, k) = seq_file-begins i in
      let same : ascii "/leaves/" ++ y ≡ slash ∷ 115 ∷ z =
        append_cancel root _ _ (sym (append_assoc root (ascii "/leaves/") y) ∙ (sym h ∙ (e ∙ k))) in
      omega (arith, ap second same)

  digit-ne-p : (n : ℕ) → n < 16 → digit n ≢ 112
  unfolding digit
  digit-ne-p n h e = ground arith

  heads : (x y : ℕ) (xs ys : Bytes) → x ∷ xs ≡ y ∷ ys → x ≡ y
  heads x y xs ys e = cc e

  under_hex-ne-pending :
      (a : ℕ) (h x y : Bytes)
      → a < 256
      → x ≡ leaves ++ (digit (a / 16) ∷ y)
      → x ≢ pending_file root h
  under_hex-ne-pending a h x y lt e k =
      let (z, l) = pending_file-begins h in
      digit-ne-p (a / 16) (omega arith)
        (heads _ _ _ _ (append_cancel leaves (digit (a / 16) ∷ y) (112 ∷ z) (sym e ∙ (k ∙ l))))

  longer-ne : (x y : Bytes) → 0 < length y → x ++ y ≢ x
  longer-ne x y h e = omega (arith, length-append x y, ap length e, h)

  -- The four files of one call of `Sequence`.
  module _ (a b d : ℕ) (rest h : Bytes) (lt : a < 256) where
    abbrev pub leaf_tmp : Bytes
    leaf_tmp = leaf_file root a b d rest ++ ascii ".tmp"

    leaf_tmp-begins : (z : Bytes) × (leaf_tmp ≡ leaves ++ (digit (a / 16) ∷ z))
    leaf_tmp-begins =
        let (z, e) = leaf_file-begins a b d rest lt in
        (
          z ++ ascii ".tmp",
          ap (λ x. x ++ ascii ".tmp") e ∙ append_assoc leaves (digit (a / 16) ∷ z) (ascii ".tmp"),
        )

    pub leaf_file-ne-seq_file : (i : ℕ) → leaf_file root a b d rest ≢ seq_file root i
    leaf_file-ne-seq_file i =
        let (z, e) = leaf_file-begins a b d rest lt in leaves-ne-seq_file i _ _ e

    pub leaf_tmp-ne-seq_file : (i : ℕ) → leaf_tmp ≢ seq_file root i
    leaf_tmp-ne-seq_file i = let (z, e) = leaf_tmp-begins in leaves-ne-seq_file i _ _ e

    pub pending_file-ne-seq_file : (i : ℕ) → pending_file root h ≢ seq_file root i
    pending_file-ne-seq_file i = let (z, e) = pending_file-begins h in leaves-ne-seq_file i _ _ e

    pub leaf_file-ne-pending_file : leaf_file root a b d rest ≢ pending_file root h
    leaf_file-ne-pending_file =
        let (z, e) = leaf_file-begins a b d rest lt in under_hex-ne-pending a h _ _ lt e

    pub leaf_tmp-ne-pending_file : leaf_tmp ≢ pending_file root h
    leaf_tmp-ne-pending_file = let (z, e) = leaf_tmp-begins in under_hex-ne-pending a h _ _ lt e

    pub leaf_tmp-ne-leaf_file : leaf_tmp ≢ leaf_file root a b d rest
    leaf_tmp-ne-leaf_file = longer-ne (leaf_file root a b d rest) (ascii ".tmp") (omega arith)

-- Entries with different numbers below 2^40 have different files.
pub seq_file-injective :
    (r : Bytes) (i j : ℕ) → i < 2 ^ 40 → j < 2 ^ 40 → seq_file r i ≡ seq_file r j → i ≡ j
seq_file-injective r i j hi hj e =
    ok-injective i j (
      sym (seq_from_path-seq_path r i hi)
      ∙ (ap (seq_from_path r) e ∙ seq_from_path-seq_path r j hj))
