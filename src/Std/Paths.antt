-- ===== src/Std/Paths.antt =====
-- `filepath.Join` for clean elements, and prefixes of text.
use Prim.Native.Char.{code}
use trillian_serverless.Base.{
  ℕ, ◌≡◌, refl, String, List, [], ◌∷◌, ◌++◌, Option, none, some, arith, ◌==◌, if◌then◌else◌, Bytes,
}

-- The bytes of an ASCII text.
abbrev pub ascii : String → Bytes
ascii String.[] = []
ascii (String.◌∷◌ c s) = code c ∷ ascii s

abbrev pub slash : ℕ
slash = 47

-- What `Join` puts behind its first element. Empty elements are left out.
unfoldable pub join_rest : List Bytes → Bytes
join_rest [] = []
join_rest ([] ∷ ps) = join_rest ps
join_rest ((c ∷ p) ∷ ps) = slash ∷ c ∷ p ++ join_rest ps

-- `filepath.Join` of elements that are clean paths; for others Go would clean the result too.
unfoldable pub join_path : List Bytes → Bytes
unfolding join_rest
join_path [] = []
join_path ([] ∷ ps) = join_path ps
join_path ((c ∷ p) ∷ ps) = c ∷ p ++ join_rest ps

-- What follows the prefix, if the text begins with it.
unfoldable pub strip_prefix : Bytes → Bytes → Option Bytes
strip_prefix [] s = some s
strip_prefix (p ∷ ps) [] = none
strip_prefix (p ∷ ps) (c ∷ cs) = let rest = strip_prefix ps cs in if p == c then rest else none

pub strip_prefix-append : (p s : Bytes) → strip_prefix p (p ++ s) ≡ some s
unfolding strip_prefix
strip_prefix-append [] s = refl
strip_prefix-append (c ∷ p) s = ground (arith, strip_prefix-append p s)
