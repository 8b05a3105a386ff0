-- ===== src/Base/Equality.antt =====
-- Decided equality of keys and byte strings.
use Prim.Native.Nat.{ℕ}
use Prim.Native.String.{String}
use native.Mathlib.Decide.{ℕ_discrete}
use mathlib.Core.Logic.{ite, dite}
use mathlib.Core.Path.{◌≡◌}
use mathlib.Core.Bool.{Bool, true, false, not, Bool-discrete}
use native.Mathlib.Omega.{arith}
use mathlib.Core.List.{List}
use text.Mathlib.Text
use text.Mathlib.TextEquality.{eq_iff}

pub record Eq {ℓ} (A : Type ℓ) : Type ℓ where
  pub dec : Discrete A

infix 50 ◌=?◌
abbrev pub ◌=?◌ {ℓ} : {A : Type ℓ} ⦃e : Eq A⦄ → A → A → Bool
◌=?◌ ⦃e⦄ a b = ite (e.dec a b) true false

abbrev pub Bytes : Type 0
Bytes = List ℕ

unfoldable pub bytes_dec : Discrete Bytes
unfolding ℕ_discrete
bytes_dec = hlevel ℕ_discrete

instance unfoldable pub bytes_eq : Eq Bytes
unfolding bytes_dec
bytes_eq = record { dec = bytes_dec }

instance unfoldable pub string_eq : Eq String
string_eq = record {
  dec = λ s t.
      dite (Bool-discrete (Text.◌==◌ s t) true) (λ same. yes ((eq_iff s t).0 same))
        (λ differ. no (λ p. differ ((eq_iff s t).1 p)));
}

-- What `!bytes.Equal(a, b)` refuses.
pub same_bytes : (a b : Bytes) → not (a =? b) ≡ false → a ≡ b
same_bytes a b h = ground (arith, h)
