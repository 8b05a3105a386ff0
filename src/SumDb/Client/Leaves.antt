-- ===== src/SumDb/Client/Leaves.antt =====
-- Leaves are read back from the text that joins them.
use trillian_serverless.Base.{
  ◌≡◌, refl, ◌∙◌, ap, Bool, true, false, ◌&&◌, List, [], ◌∷◌, ◌++◌, append_assoc, append-nil, Bytes,
  ◌==◌,
}
use trillian_serverless.Std.Lines.{newline}
use trillian_serverless.SumDb.Client.{leaves_from, data_to_leaves}

-- What the text of a leaf is, from a byte that follows a newline or does not: no two newlines in a
-- row, and one at the end.
unfoldable pub IsLeaf : Bool → Bytes → Type 0
IsLeaf last [] = last ≡ true
IsLeaf last (b ∷ bs) = ((b == newline && last) ≡ false) × IsLeaf (b == newline) bs

abbrev pub AreLeaves : List Bytes → Type 0
AreLeaves [] = Unit {0}
AreLeaves (l ∷ ls) = IsLeaf false l × AreLeaves ls

-- Leaves with an empty line between them.
unfoldable pub joined : Bytes → List Bytes → Bytes
joined l [] = l
joined l (m ∷ ls) = l ++ newline ∷ joined m ls

leaves_from-leaf :
    (acc l rest : Bytes) (last : Bool)
    → IsLeaf last l
    → leaves_from acc last (l ++ newline ∷ rest) ≡ (acc ++ l) ∷ leaves_from [] false rest
unfolding leaves_from IsLeaf
leaves_from-leaf acc [] rest last h = rw h (rw append-nil refl)
leaves_from-leaf acc (b ∷ bs) rest last (h, k) = rw h (
    leaves_from-leaf (acc ++ b ∷ []) bs rest (b == newline) k
    ∙ ap (λ x. x ∷ leaves_from [] false rest) (append_assoc acc (b ∷ []) bs))

leaves_from-last :
    (acc l : Bytes) (last : Bool) → IsLeaf last l → leaves_from acc last l ≡ (acc ++ l) ∷ []
unfolding leaves_from IsLeaf
leaves_from-last acc [] last h = rw append-nil refl
leaves_from-last acc (b ∷ bs) last (h, k) = rw h (
    leaves_from-last (acc ++ b ∷ []) bs (b == newline) k
    ∙ ap (λ x. x ∷ []) (append_assoc acc (b ∷ []) bs))

-- One or more leaves, each with a newline at its end and no empty line in it, are read back from
-- the text that has an empty line between them.
pub data_to_leaves-joined :
    (l : Bytes) (ls : List Bytes)
    → IsLeaf false l
    → AreLeaves ls
    → data_to_leaves (joined l ls) ≡ l ∷ ls
unfolding data_to_leaves joined
data_to_leaves-joined l [] h k = leaves_from-last [] l false h
data_to_leaves-joined l (m ∷ ls) h (i, j) =
    leaves_from-leaf [] l (joined m ls) false h ∙ ap (λ x. l ∷ x) (data_to_leaves-joined m ls i j)
