-- ===== src/Std/Lines.antt =====
-- Text as lines: `strings.Split` and `strings.HasSuffix` at a newline.
use trillian_serverless.Base.{
  ℕ, ◌<◌, ◌≡◌, refl, ◌≢◌, Bool, false, ◌&&◌, ◌||◌, leb, List, [], ◌∷◌, ◌++◌, arith, ◌==◌,
  if◌then◌else◌, Bytes,
}

abbrev pub newline : ℕ
newline = 10

-- A line that the split has begun.
abbrev extend : ℕ → List Bytes → List Bytes
extend c [] = (c ∷ []) ∷ []
extend c (l ∷ ls) = (c ∷ l) ∷ ls

-- `strings.Split(s, "\n")`: never empty.
unfoldable pub split_lines : Bytes → List Bytes
split_lines [] = [] ∷ []
split_lines (c ∷ cs) =
    let rest = split_lines cs in if c == newline then [] ∷ rest else extend c rest

-- `strings.HasSuffix(s, "\n")`
unfoldable pub ends_in_newline : Bytes → Bool
ends_in_newline [] = false
ends_in_newline (c ∷ []) = c == newline
ends_in_newline (_ ∷ cs) = ends_in_newline cs

-- No byte of the line ends it.
abbrev pub IsLine : Bytes → Type 0
IsLine [] = Unit
IsLine (c ∷ cs) = (c ≢ newline) × IsLine cs

pub split_lines-line :
    (l rest : Bytes) → IsLine l → split_lines (l ++ newline ∷ rest) ≡ l ∷ split_lines rest
unfolding split_lines
split_lines-line [] rest h = refl
split_lines-line (c ∷ l) rest h = rw (split_lines-line l rest h.1) (ground arith)

pub ends_in_newline-append :
    (l : Bytes) (c : ℕ) (rest : Bytes)
    → ends_in_newline (l ++ c ∷ rest) ≡ ends_in_newline (c ∷ rest)
unfolding ends_in_newline
ends_in_newline-append [] c rest = refl
ends_in_newline-append (a ∷ []) c rest = refl
ends_in_newline-append (a ∷ b ∷ l) c rest = ends_in_newline-append (b ∷ l) c rest

-- White space, of the ASCII characters.
unfoldable pub is_space : ℕ → Bool
is_space c = c == 32 || (leb 9 c && leb c 13)

unfoldable pub trim_left : Bytes → Bytes
unfolding is_space
trim_left [] = []
trim_left (c ∷ cs) = let rest = trim_left cs in if is_space c then rest else c ∷ cs

abbrev cons_trimmed : ℕ → Bytes → Bytes
cons_trimmed c [] = if is_space c then [] else c ∷ []
cons_trimmed c (d ∷ ds) = c ∷ d ∷ ds

unfoldable pub trim_right : Bytes → Bytes
unfolding is_space
trim_right [] = []
trim_right (c ∷ cs) = cons_trimmed c (trim_right cs)

-- `strings.TrimSpace`, for ASCII text.
unfoldable pub trim_space : Bytes → Bytes
unfolding trim_left trim_right
trim_space s = trim_right (trim_left s)

-- A text that ends in a character that is no space.
abbrev pub EndsInText : Bytes → Type 0
EndsInText [] = ⊥
EndsInText (c ∷ []) = is_space c ≡ false
EndsInText (_ ∷ d ∷ ds) = EndsInText (d ∷ ds)

pub trim_right-newline : (s : Bytes) → EndsInText s → trim_right (s ++ newline ∷ []) ≡ s
unfolding trim_right
trim_right-newline [] h = absurd h
trim_right-newline (c ∷ []) h = rw h
trim_right-newline (c ∷ d ∷ ds) h = rw (trim_right-newline (d ∷ ds) h)

pub EndsInText-append :
    (s : Bytes) (c : ℕ) (t : Bytes) → EndsInText (c ∷ t) → EndsInText (s ++ c ∷ t)
EndsInText-append [] c t h = h
EndsInText-append (a ∷ []) c t h = h
EndsInText-append (a ∷ b ∷ s) c t h = EndsInText-append (b ∷ s) c t h

-- Printed text: every byte is above the space.
abbrev pub IsPlain : Bytes → Type 0
IsPlain [] = Unit
IsPlain (c ∷ cs) = (32 < c) × IsPlain cs

pub is_space-plain : (c : ℕ) → 32 < c → is_space c ≡ false
unfolding is_space
is_space-plain c h = ground arith

pub IsPlain-EndsInText : (c : ℕ) (cs : Bytes) → IsPlain (c ∷ cs) → EndsInText (c ∷ cs)
IsPlain-EndsInText c [] h = is_space-plain c h.0
IsPlain-EndsInText c (d ∷ ds) h = IsPlain-EndsInText d ds h.1

-- Printed text that is not empty.
pub IsPlain-EndsInText_ne : (t : Bytes) → IsPlain t → t ≢ [] → EndsInText t
IsPlain-EndsInText_ne [] h ne = ne refl
IsPlain-EndsInText_ne (c ∷ cs) h ne = IsPlain-EndsInText c cs h

pub IsPlain-IsLine : (cs : Bytes) → IsPlain cs → IsLine cs
IsPlain-IsLine [] h = tt
IsPlain-IsLine (c ∷ cs) h = (omega arith, IsPlain-IsLine cs h.1)

-- Leading text that is no space stays.
pub trim_left-word : (c : ℕ) (cs : Bytes) → is_space c ≡ false → trim_left (c ∷ cs) ≡ c ∷ cs
unfolding trim_left
trim_left-word c cs h = rw h

-- A line on its own.
pub split_lines-last : (l : Bytes) → IsLine l → split_lines l ≡ l ∷ []
unfolding split_lines
split_lines-last [] h = refl
split_lines-last (c ∷ l) h = rw (split_lines-last l h.1) (ground arith)
