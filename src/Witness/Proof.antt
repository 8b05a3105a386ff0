-- ===== src/Witness/Proof.antt =====
-- The text form of a proof (witness/golang/internal/witness/proof.go): one base64 line per hash.
use trillian_serverless.Base.{
  ◌≡◌, refl, sym, ◌∙◌, true, List, [], ◌∷◌, ◌++◌, Bytes, Option, none, some, Result, ok, err, not,
  String, if◌then◌else◌,
}
use trillian_serverless.Std.Base64.{encode, decode, AreBytes, encode-IsPlain, decode-encode}
use trillian_serverless.Std.Lines.{
  newline, split_lines, ends_in_newline, IsPlain-IsLine, split_lines-line, ends_in_newline-append,
}
use trillian_serverless.Formats.{Hashes}

unfoldable pub marshal : Hashes → Bytes
marshal [] = []
marshal (l ∷ ls) = encode l ++ newline ∷ marshal ls

-- All elements but the last.
abbrev but_last : List Bytes → List Bytes
but_last [] = []
but_last (_ ∷ []) = []
but_last (l ∷ m ∷ ls) = l ∷ but_last (m ∷ ls)

abbrev decode_then : Option Bytes → Result String Hashes → Result String Hashes
decode_then none rest = err "failed to decode proof line"
decode_then (some b) (ok bs) = ok (b ∷ bs)
decode_then (some b) (err e) = err e

-- The loop over the lines; it stops at the first that is no base64.
unfoldable pub decode_lines : List Bytes → Result String Hashes
decode_lines [] = ok []
decode_lines (l ∷ ls) = decode_then (decode l) (decode_lines ls)

unfoldable pub unmarshal : Bytes → Result String Hashes
unfolding decode_lines
unmarshal s =
    if not (ends_in_newline s)
    then err "data should have trailing newline on last hash too"
    else decode_lines (but_last (split_lines s))

-- Every hash is a list of bytes.
abbrev pub AreHashes : Hashes → Type 0
AreHashes [] = Unit
AreHashes (h ∷ hs) = AreBytes h × AreHashes hs

abbrev lines : Hashes → List Bytes
lines [] = []
lines (l ∷ ls) = encode l ∷ lines ls

split_lines-marshal :
    (hs : Hashes) → AreHashes hs → split_lines (marshal hs) ≡ lines hs ++ ([] ∷ [])
unfolding marshal
split_lines-marshal [] h = unfold split_lines in refl
split_lines-marshal (l ∷ ls) h =
    rw (split_lines-line (encode l) (marshal ls) (IsPlain-IsLine _ (encode-IsPlain l h.0)))
      (rw (split_lines-marshal ls h.1))

but_last-append : (ls : List Bytes) (l : Bytes) → but_last (ls ++ l ∷ []) ≡ ls
but_last-append [] l = refl
but_last-append (_ ∷ []) l = refl
but_last-append (a ∷ b ∷ ls) l = rw (but_last-append (b ∷ ls) l)

decode_lines-lines : (hs : Hashes) → AreHashes hs → decode_lines (lines hs) ≡ ok hs
unfolding decode_lines
decode_lines-lines [] h = refl
decode_lines-lines (l ∷ ls) h = rw (decode-encode l h.0) (rw (decode_lines-lines ls h.1))

ends_in_newline-marshal : (h : Bytes) (hs : Hashes) → ends_in_newline (marshal (h ∷ hs)) ≡ true
unfolding marshal
ends_in_newline-marshal h [] =
    ends_in_newline-append (encode h) newline [] ∙ (unfold ends_in_newline in refl)
ends_in_newline-marshal h (l ∷ ls) =
    ends_in_newline-append (encode h) newline (encode l ++ newline ∷ marshal ls)
    ∙ (ends_in_newline-append (newline ∷ encode l) newline (marshal ls)
        ∙ (sym (ends_in_newline-append (encode l) newline (marshal ls))
            ∙ ends_in_newline-marshal l ls))

-- Reading back what `Marshal` wrote gives the same hashes, for every proof of at least one hash;
-- the text of the empty proof is refused.
pub unmarshal-marshal :
    (h : Bytes) (hs : Hashes)
    → AreHashes (h ∷ hs)
    → (unmarshal (marshal (h ∷ hs)) ≡ ok (h ∷ hs))
      × (unmarshal (marshal []) ≡ err "data should have trailing newline on last hash too")
unfolding unmarshal
unmarshal-marshal h hs a = (
  rw (ends_in_newline-marshal h hs) (
      rw (split_lines-marshal (h ∷ hs) a)
        (rw (but_last-append (lines (h ∷ hs)) []) (decode_lines-lines (h ∷ hs) a))),
  unfold marshal ends_in_newline in refl,
)
