-- ===== src/SumDb/Service/Leaf.antt =====
-- A leaf as `ProcessMetadata` reads it (sumdbaudit/audit/service.go). An index out of range panics.
use trillian_serverless.Base.{
  ℕ, ◌≡◌, refl, ◌∙◌, ◌≢◌, ap, false, not, List, [], ◌∷◌, ◌++◌, Bytes, Result, ok, err, ◌>>=◌, ◌>>◌,
  fail_if, expect, ◌=?◌, bytes_eq, if◌then◌else◌, ltb, ◌==◌, length, length-append, take, get_elem?,
  arith,
}
use trillian_serverless.Std.Lines.{split_lines, newline, IsLine, split_lines-line}
use trillian_serverless.SumDb.Client.{AuditError, panic, failed}
use trillian_serverless.SumDb.Database.{Metadata}

abbrev pub space : ℕ
space = 32

abbrev extend : ℕ → List Bytes → List Bytes
extend c [] = (c ∷ []) ∷ []
extend c (w ∷ ws) = (c ∷ w) ∷ ws

-- `strings.Split(s, " ")`
unfoldable pub split_spaces : Bytes → List Bytes
split_spaces [] = [] ∷ []
split_spaces (c ∷ cs) =
    let rest = split_spaces cs in if c == space then [] ∷ rest else extend c rest

abbrev pub index : List Bytes → ℕ → Result AuditError Bytes
index l i = expect (get_elem? l i) panic

-- `t[:n]`
abbrev pub prefix : Bytes → ℕ → Result AuditError Bytes
prefix t n = if ltb (length t) n then err panic else ok (take n t)

-- The loop's body on one leaf.
unfoldable pub parse_leaf : Bytes → Result AuditError Metadata
parse_leaf h = do
  let lines = split_lines h
  line ← index lines 0
  let tokens = split_spaces line
  module_path ← index tokens 0
  version ← index tokens 1
  repo_hash ← index tokens 2
  line' ← index lines 1
  let tokens' = split_spaces line'
  module_path' ← index tokens' 0
  fail_if (not (module_path' =? module_path)) (failed "mismatched module names")
  version' ← index tokens' 1
  version_prefix ← prefix version' (length version)
  fail_if (not (version_prefix =? version)) (failed "mismatched version names")
  mod_hash ← index tokens' 2
  ok (record {
    module_path = module_path;
    version = version;
    repo_hash = repo_hash;
    mod_hash = mod_hash;
  })

unfoldable pub parse_leaves : List Bytes → Result AuditError (List Metadata)
parse_leaves [] = ok []
parse_leaves (h ∷ hs) = do m ← parse_leaf h; ms ← parse_leaves hs; ok (m ∷ ms)

-- A word has no space and no newline.
abbrev pub IsWord : Bytes → Type 0
IsWord [] = Unit
IsWord (c ∷ cs) = (c ≢ space) × (c ≢ newline) × IsWord cs

split_spaces-word :
    (w rest : Bytes) → IsWord w → split_spaces (w ++ space ∷ rest) ≡ w ∷ split_spaces rest
unfolding split_spaces
split_spaces-word [] rest h = refl
split_spaces-word (c ∷ w) rest h = rw (split_spaces-word w rest h.2) (ground arith)

split_spaces-last : (w : Bytes) → IsWord w → split_spaces w ≡ w ∷ []
unfolding split_spaces
split_spaces-last [] h = refl
split_spaces-last (c ∷ w) h = rw (split_spaces-last w h.2) (ground arith)

pub IsWord-IsLine : (w : Bytes) → IsWord w → IsLine w
IsWord-IsLine [] h = tt
IsWord-IsLine (c ∷ w) h = (h.1, IsWord-IsLine w h.2)

pub IsLine-append : (a b : Bytes) → IsLine a → IsLine b → IsLine (a ++ b)
IsLine-append [] b h k = k
IsLine-append (c ∷ a) b h k = (h.0, IsLine-append a b h.1 k)

pub IsWord-append : (a b : Bytes) → IsWord a → IsWord b → IsWord (a ++ b)
IsWord-append [] b h k = k
IsWord-append (c ∷ a) b h k = (h.0, h.1, IsWord-append a b h.2 k)

-- Three words in a line.
abbrev pub three_words : Bytes → Bytes → Bytes → Bytes
three_words a b d = a ++ (space ∷ (b ++ (space ∷ d)))

split_spaces-three_words :
    (a b d : Bytes)
    → IsWord a
    → IsWord b
    → IsWord d
    → split_spaces (three_words a b d) ≡ a ∷ b ∷ d ∷ []
split_spaces-three_words a b d ha hb hd =
    split_spaces-word a (b ++ (space ∷ d)) ha
    ∙ ap (λ l. a ∷ l) (split_spaces-word b d hb ∙ ap (λ l. b ∷ l) (split_spaces-last d hd))

IsLine-three_words : (a b d : Bytes) → IsWord a → IsWord b → IsWord d → IsLine (three_words a b d)
IsLine-three_words a b d ha hb hd =
    IsLine-append a (space ∷ (b ++ (space ∷ d))) (IsWord-IsLine a ha) (
      omega arith,
      IsLine-append b (space ∷ d) (IsWord-IsLine b hb) (omega arith, IsWord-IsLine d hd),
    )

take-prefix : (a b : Bytes) → take (length a) (a ++ b) ≡ a
take-prefix [] b = refl
take-prefix (c ∷ a) b = ap (λ l. c ∷ l) (take-prefix a b)

prefix-append : (a b : Bytes) → prefix (a ++ b) (length a) ≡ ok a
prefix-append a b =
    let fits : ltb (length (a ++ b)) (length a) ≡ false = ground (arith, length-append a b) in
    rw fits (ap ok (take-prefix a b))

-- The two lines of a go.sum entry: the module's hash, and that of its go.mod file, whose version
-- has a suffix.
unfoldable pub go_sum_leaf : Metadata → Bytes → Bytes
go_sum_leaf m suffix =
    three_words m.module_path m.version m.repo_hash
    ++ newline ∷ (three_words m.module_path (m.version ++ suffix) m.mod_hash ++ newline ∷ [])

abbrev pub AreWords : Metadata → Type 0
AreWords m = IsWord m.module_path × IsWord m.version × IsWord m.repo_hash × IsWord m.mod_hash

split_lines-go_sum_leaf :
    (m : Metadata) (suffix : Bytes)
    → AreWords m
    → IsWord suffix
    → split_lines (go_sum_leaf m suffix)
      ≡ three_words m.module_path m.version m.repo_hash
        ∷ three_words m.module_path (m.version ++ suffix) m.mod_hash
        ∷ []
        ∷ []
unfolding go_sum_leaf split_lines
split_lines-go_sum_leaf m suffix h hs =
    let one = three_words m.module_path m.version m.repo_hash in
    let two = three_words m.module_path (m.version ++ suffix) m.mod_hash in
    let hv = IsWord-append m.version suffix h.1 hs in
    split_lines-line one (two ++ newline ∷ [])
      (IsLine-three_words m.module_path m.version m.repo_hash h.0 h.1 h.2)
    ∙ ap (λ l. one ∷ l)
        (split_lines-line two []
          (IsLine-three_words m.module_path (m.version ++ suffix) m.mod_hash h.0 hv h.3))

-- The entry of a module whose parts have no space and no newline is read back, whatever word
-- follows the version in its second line.
pub parse_leaf-go_sum_leaf :
    (m : Metadata) (suffix : Bytes)
    → AreWords m
    → IsWord suffix
    → parse_leaf (go_sum_leaf m suffix) ≡ ok m
unfolding parse_leaf
parse_leaf-go_sum_leaf m suffix h hs =
    let hv = IsWord-append m.version suffix h.1 hs in
    let e = split_lines-go_sum_leaf m suffix h hs in
    let e1 = split_spaces-three_words m.module_path m.version m.repo_hash h.0 h.1 h.2 in
    let e2 = split_spaces-three_words m.module_path (m.version ++ suffix) m.mod_hash h.0 hv h.3 in
    rw (e, parse_leaf) (rw e1 (rw e2 (rw (prefix-append m.version suffix) (ground arith))))
