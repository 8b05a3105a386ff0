-- ===== src/Base/Dict.antt =====
-- Go maps as association lists. Proofs elsewhere go by the laws.
use mathlib.Core.Path.{◌≡◌}
use mathlib.Core.Option.{Option, none, some}
use mathlib.Core.List.{List, [], ◌∷◌}
use native.Mathlib.Omega.{arith}
use trillian_serverless.Base.Tests.{if◌then◌else◌}
use trillian_serverless.Base.Equality.{Eq, ◌=?◌}

abbrev pub Dict {ℓ κ} : Type ℓ → Type κ → Type (ℓ ⊔ κ)
Dict K V = List (K × V)

module _ {ℓ κ} {K : Type ℓ} {V : Type κ} ⦃e : Eq K⦄ where
  unfoldable pub lookup : K → Dict K V → Option V
  lookup k [] = none
  lookup k ((j, v) ∷ d) = if k =? j then some v else lookup k d

  -- `m[k] = v`
  unfoldable pub insert : K → V → Dict K V → Dict K V
  insert k v [] = (k, v) ∷ []
  insert k v ((j, w) ∷ d) = if k =? j then (k, v) ∷ d else (j, w) ∷ insert k v d

  unfoldable pub keys : Dict K V → List K
  keys [] = []
  keys ((k, _) ∷ d) = k ∷ keys d

  -- `delete(m, k)`
  unfoldable pub delete : K → Dict K V → Dict K V
  delete k [] = []
  delete k ((j, w) ∷ d) = let rest = delete k d in if k =? j then rest else (j, w) ∷ rest

  pub lookup-insert :
      (j k : K) (v : V) (d : Dict K V)
      → lookup j (insert k v d) ≡ (if j =? k then some v else lookup j d)
  unfolding insert lookup
  lookup-insert j k v [] = ground arith
  lookup-insert j k v (_ ∷ d) = ground (arith, lookup-insert j k v d)

  pub lookup-delete :
      (j k : K) (d : Dict K V) → lookup j (delete k d) ≡ (if j =? k then none else lookup j d)
  unfolding delete lookup
  lookup-delete j k [] = ground arith
  lookup-delete j k (_ ∷ d) = ground (arith, lookup-delete j k d)
