-- ===== src/Common/Acts.antt =====
-- Methods that change a state and may fail: what was changed before an error stays changed.
use mathlib.Core.Path.{◌≡◌, ap}
use mathlib.Core.Logic.{inl, inr, ◌⊎◌}
use kubo.Common.Results.{Result, ok, err, Result-cases}

abbrev pub Act {ℓ κ μ} : Type ℓ → Type κ → Type μ → Type (ℓ ⊔ κ ⊔ μ)
Act E S A = S → Result E A × S

module _ {ℓ κ μ} {E : Type ℓ} {S : Type κ} {A : Type μ} where
  abbrev pub pure : A → Act E S A
  pure a s = (ok a, s)

  abbrev pub fail : E → Act E S A
  fail e s = (err e, s)

  abbrev pub lift : Result E A → Act E S A
  lift r s = (r, s)

module _ {ℓ κ μ ν} {E : Type ℓ} {S : Type κ} {A : Type μ} {B : Type ν} where
  abbrev pub continue : Result E A × S → (A → Act E S B) → Result E B × S
  continue (ok a, s) f = f a s
  continue (err e, s) f = (err e, s)

  infixl 5 ◌>>=◌ ◌>>◌
  abbrev pub ◌>>=◌ : Act E S A → (A → Act E S B) → Act E S B
  ◌>>=◌ m f s = continue (m s) f

  abbrev pub ◌>>◌ : Act E S A → Act E S B → Act E S B
  ◌>>◌ m n s = continue (m s) (λ _. n)

  -- Inversion of a bind that succeeds.
  pub >>=-eq-ok :
      (m : Act E S A) (f : A → Act E S B) (s t : S) (b : B)
      → (m >>= f) s ≡ (ok b, t)
      → (a : A) × ((m s).0 ≡ ok a) × (f a (m s).1 ≡ (ok b, t))
  >>=-eq-ok m f s t b h = elim (Result-cases (m s).0) [
    | inl (a, e) ↦ (a, e, rw e at h)
    | inr (x, e) ↦ let bad = ap (λ p. p.0) h in cc
  ]

  -- The same for its result alone.
  pub >>=-ok :
      (m : Act E S A) (f : A → Act E S B) (s : S) (b : B)
      → ((m >>= f) s).0 ≡ ok b
      → (a : A) × (t : S) × (m s ≡ (ok a, t)) × ((f a t).0 ≡ ok b) × ((m >>= f) s ≡ f a t)
  >>=-ok m f s b h = elim (Result-cases (m s).0) [
    | inl (a, e) ↦ (a, (m s).1, cc, rw e at h, rw e)
    | inr (x, e) ↦ let bad = rw e at h in cc
  ]

  -- Inversion of a bind that fails: in its first part, or in its second.
  pub >>=-err :
      (m : Act E S A) (f : A → Act E S B) (s : S) (x : E)
      → ((m >>= f) s).0 ≡ err x
      → (((m s).0 ≡ err x) × (((m >>= f) s).1 ≡ (m s).1))
        ⊎ ((a : A) × (t : S) × (m s ≡ (ok a, t)) × ((f a t).0 ≡ err x) × ((m >>= f) s ≡ f a t))
  >>=-err m f s x h = elim (Result-cases (m s).0) [
    | inl (a, e) ↦ inr (a, (m s).1, cc, rw e at h, rw e)
    | inr (y, e) ↦ let same = rw e at h in inl (cc, rw e)
  ]
