-- ===== src/Serverless/Api/TileText.antt =====
-- Writing a tile as text and reading it back.
use trillian_serverless.Base.{
  ℕ, ◌^◌, ◌<◌, ◌≡◌, ◌≢◌, refl, ◌∙◌, ap, List, [], ◌∷◌, ◌++◌, append_assoc, Option, some, ok, Bytes,
  arith,
}
use trillian_serverless.Std.Base64.{encode, AreBytes, encode-IsPlain, decode-encode}
use trillian_serverless.Std.Lines.{
  newline, split_lines, trim_space, trim_left, trim_left-word, is_space-plain,
  IsPlain-EndsInText_ne, trim_right-newline, EndsInText, EndsInText-append, IsPlain-IsLine,
  split_lines-line, split_lines-last,
}
use trillian_serverless.Std.Numbers.{
  format_uint, digits_onto, digit, parse_uint-format_uint, format_uint-IsPlain,
}
use trillian_serverless.Serverless.Api.{
  node_bytes, marshal_nodes, marshal_text, unmarshal_nodes, unmarshal_text,
}

abbrev pub AreNodes : List (Option Bytes) → Type 0
AreNodes [] = Unit
AreNodes (n ∷ ns) = AreBytes (node_bytes n) × AreNodes ns

-- What is read back of nodes: nil has become the empty hash.
abbrev pub refill : List (Option Bytes) → List (Option Bytes)
refill [] = []
refill (n ∷ ns) = some (node_bytes n) ∷ refill ns

abbrev node_lines : List (Option Bytes) → List Bytes
node_lines [] = []
node_lines (n ∷ ns) = encode (node_bytes n) ∷ node_lines ns

marshal_nodes-append :
    (ns : List (Option Bytes)) (h : Bytes)
    → marshal_nodes (ns ++ some h ∷ []) ≡ (marshal_nodes ns ++ encode h) ++ newline ∷ []
unfolding marshal_nodes
marshal_nodes-append [] h = refl
marshal_nodes-append (n ∷ ns) h = rw (marshal_nodes-append ns h) (simp append_assoc)

split_lines-marshal_nodes :
    (ns : List (Option Bytes)) (h : Bytes)
    → AreNodes ns
    → AreBytes h
    → split_lines (marshal_nodes ns ++ encode h) ≡ node_lines ns ++ encode h ∷ []
unfolding marshal_nodes
split_lines-marshal_nodes [] h a b =
    split_lines-last (encode h) (IsPlain-IsLine _ (encode-IsPlain h b))
split_lines-marshal_nodes (n ∷ ns) h a b =
    ap split_lines (append_assoc (encode (node_bytes n)) (newline ∷ marshal_nodes ns) (encode h))
    ∙ (split_lines-line (encode (node_bytes n)) (marshal_nodes ns ++ encode h)
          (IsPlain-IsLine _ (encode-IsPlain (node_bytes n) a.0))
        ∙ ap (λ ls. encode (node_bytes n) ∷ ls) (split_lines-marshal_nodes ns h a.1 b))

unmarshal_nodes-node_lines :
    (ns : List (Option Bytes)) (h : Bytes)
    → AreNodes ns
    → AreBytes h
    → unmarshal_nodes (node_lines ns ++ encode h ∷ []) ≡ ok (refill ns ++ some h ∷ [])
unfolding unmarshal_nodes
unmarshal_nodes-node_lines [] h a b = rw (decode-encode h b)
unmarshal_nodes-node_lines (n ∷ ns) h a b =
    rw (decode-encode (node_bytes n) a.0) (rw (unmarshal_nodes-node_lines ns h a.1 b))

-- The text without its last line end.
abbrev body : ℕ → List (Option Bytes) → Bytes → Bytes
body n ns h =
    format_uint 10 32 ++ newline ∷ (format_uint 10 n ++ newline ∷ (marshal_nodes ns ++ encode h))

marshal_text-body :
    (n : ℕ) (ns : List (Option Bytes)) (h : Bytes)
    → marshal_text (record { num_leaves = n; nodes = ns ++ some h ∷ [] })
      ≡ body n ns h ++ newline ∷ []
marshal_text-body n ns h = unfold marshal_text in rw (marshal_nodes-append ns h) (simp append_assoc)

encode-ne : (b : ℕ) (bs : Bytes) → encode (b ∷ bs) ≢ []
unfolding encode
encode-ne b [] e = cc
encode-ne b (c ∷ []) e = cc
encode-ne b (c ∷ d ∷ bs) e = cc

encode-EndsInText : (b : ℕ) (bs : Bytes) → AreBytes (b ∷ bs) → EndsInText (encode (b ∷ bs))
encode-EndsInText b bs h =
    IsPlain-EndsInText_ne (encode (b ∷ bs)) (encode-IsPlain (b ∷ bs) h) (encode-ne b bs)

-- Text that ends in text does so behind any other.
EndsInText-after : (s t : Bytes) → EndsInText t → EndsInText (s ++ t)
EndsInText-after s [] h = absurd h
EndsInText-after s (c ∷ t) h = EndsInText-append s c t h

body-EndsInText :
    (n : ℕ) (ns : List (Option Bytes)) (b : ℕ) (bs : Bytes)
    → AreBytes (b ∷ bs)
    → EndsInText (body n ns (b ∷ bs))
body-EndsInText n ns b bs h =
    let tail = marshal_nodes ns ++ encode (b ∷ bs) in
    let rest = format_uint 10 n ++ newline ∷ tail in
    EndsInText-append (format_uint 10 32) newline rest (
      EndsInText-after (newline ∷ []) rest (
        EndsInText-append (format_uint 10 n) newline tail (
          EndsInText-after (newline ∷ []) tail
            (EndsInText-after (marshal_nodes ns) (encode (b ∷ bs)) (encode-EndsInText b bs h)))))

hash_size_text : format_uint 10 32 ≡ 51 ∷ 50 ∷ []
unfolding format_uint digits_onto digit
hash_size_text = refl

trim_left-size : (t : Bytes) → trim_left (format_uint 10 32 ++ t) ≡ format_uint 10 32 ++ t
trim_left-size t = rw hash_size_text (trim_left-word 51 (50 ∷ t) (is_space-plain 51 (omega arith)))

split_lines-body :
    (n : ℕ) (ns : List (Option Bytes)) (h : Bytes)
    → AreNodes ns
    → AreBytes h
    → split_lines (body n ns h)
      ≡ format_uint 10 32 ∷ format_uint 10 n ∷ (node_lines ns ++ encode h ∷ [])
split_lines-body n ns h a b =
    split_lines-line (format_uint 10 32) _ (IsPlain-IsLine _ (format_uint-IsPlain 10 32))
    ∙ ap (λ ls. format_uint 10 32 ∷ ls)
        (split_lines-line (format_uint 10 n) _ (IsPlain-IsLine _ (format_uint-IsPlain 10 n))
          ∙ ap (λ ls. format_uint 10 n ∷ ls) (split_lines-marshal_nodes ns h a b))

trim_space-body :
    (n : ℕ) (ns : List (Option Bytes)) (b : ℕ) (bs : Bytes)
    → AreBytes (b ∷ bs)
    → trim_space (body n ns (b ∷ bs) ++ newline ∷ []) ≡ body n ns (b ∷ bs)
trim_space-body n ns b bs h =
    let t = newline ∷ (format_uint 10 n ++ newline ∷ (marshal_nodes ns ++ encode (b ∷ bs))) in
    unfold trim_space in
    rw (append_assoc (format_uint 10 32) t (newline ∷ [])) (
      rw (trim_left-size (t ++ newline ∷ [])) (
        rw (← append_assoc (format_uint 10 32) t (newline ∷ []))
          (trim_right-newline (body n ns (b ∷ bs)) (body-EndsInText n ns b bs h))))

-- A tile that is written and read back has the same number of leaves and the same nodes, but that
-- nil nodes have become empty hashes, if its last node is a hash of at least one byte.
pub unmarshal_text-marshal_text :
    (n : ℕ) (ns : List (Option Bytes)) (b : ℕ) (bs : Bytes)
    → n < 2 ^ 16
    → AreNodes ns
    → AreBytes (b ∷ bs)
    → unmarshal_text (marshal_text (record { num_leaves = n; nodes = ns ++ some (b ∷ bs) ∷ [] }))
      ≡ ok (record { num_leaves = n; nodes = refill ns ++ some (b ∷ bs) ∷ [] })
unmarshal_text-marshal_text n ns b bs k a h = rw (marshal_text-body n ns (b ∷ bs)) (
    unfold unmarshal_text in
    rw (trim_space-body n ns b bs h) (
      rw (split_lines-body n ns (b ∷ bs) a h) (
        rw (parse_uint-format_uint 10 16 32 (omega arith) (omega arith) (omega arith) (omega arith))
          (rw (parse_uint-format_uint 10 16 n (omega arith) (omega arith) (omega arith) k)
            (rw (unmarshal_nodes-node_lines ns (b ∷ bs) a h))))))
