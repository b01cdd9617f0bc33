-- ===== src/Common/Maps.antt =====
-- A Go map as an association list. The order of the list stands for the order of iteration, which
-- Go leaves open.
use mathlib.Core.Path.{◌≡◌, refl, ap}
use mathlib.Core.Logic.{inl, inr}
use mathlib.Core.List.{List, [], ◌∷◌}
use mathlib.Core.Option.{Option, none, some}
use native.Mathlib.Omega.{arith}
use kubo.Common.Tests.{Eq, ◌==◌, if◌then◌else◌, Bool-cases}

abbrev pub Map {ℓ κ} : Type ℓ → Type κ → Type (ℓ ⊔ κ)
Map K V = List (K × V)

module _ {ℓ κ} {K : Type ℓ} {V : Type κ} ⦃e : Eq K⦄ where
  -- v, ok := m[k]
  abbrev pub get : Map K V → K → Option V
  get [] k = none
  get ((j, v) ∷ m) k = if j == k then some v else get m k

  -- delete(m, k)
  abbrev pub delete : Map K V → K → Map K V
  delete [] k = []
  delete ((j, v) ∷ m) k = let rest = delete m k in if j == k then rest else (j, v) ∷ rest

  -- m[k] = v
  abbrev pub put : Map K V → K → V → Map K V
  put m k v = (k, v) ∷ delete m k

  pub get-delete : (m : Map K V) (k j : K) → get (delete m k) j ≡ (if k == j then none else get m j)
  get-delete [] k j = ground arith
  get-delete ((i, v) ∷ m) k j =
      ground (arith, get-delete m k j, e.beq_iff i k, e.beq_iff i j, e.beq_iff k j)

  pub get-put :
      (m : Map K V) (k j : K) (v : V) → get (put m k v) j ≡ (if k == j then some v else get m j)
  get-put m k j v = ground (arith, get-delete m k j)

  pub delete_absent : (m : Map K V) (k : K) → get m k ≡ none → delete m k ≡ m
  delete_absent [] k absent = refl
  delete_absent ((j, v) ∷ m) k absent = elim (Bool-cases (j == k)) [
    | inl same ↦ let bad = rw same at absent in cc
    | inr other ↦ rw other (ap (λ rest. (j, v) ∷ rest) (delete_absent m k (rw other at absent)))
  ]
