-- ===== src/Prelude/Writes.antt =====
-- What holds of every element of a list, by its index, and how a write or a new head changes it.
use Prim.Native.Nat.{ℕ, zero, suc}
use mathlib.Core.Path.{◌≡◌, refl, subst, sym, ap}
use mathlib.Core.Logic.{◌⊎◌, inl, inr}
use mathlib.Core.List.{List, [], ◌∷◌}
use mathlib.Core.Option.{some}
use native.Mathlib.Omega.{arith}
use unique_freshman.Prelude.Lists.{get_elem?, set, replicate}

module _ {ℓ} {A : Type ℓ} where
  abbrev pub Every {κ} : (A → Type κ) → List A → Type (ℓ ⊔ κ)
  Every P xs = (i : ℕ) (x : A) → get_elem? xs i ≡ some x → P x

  -- What stands in a list after a write.
  pub get_elem?-set_cases :
      (xs : List A) (k i : ℕ) (v x : A)
      → get_elem? (set xs k v) i ≡ some x
      → ((i ≡ k) × (x ≡ v)) ⊎ (get_elem? xs i ≡ some x)
  get_elem?-set_cases [] k i v x h = inr h
  get_elem?-set_cases (y ∷ ys) zero zero v x h = inl (refl, cc)
  get_elem?-set_cases (y ∷ ys) zero (suc i) v x h = inr h
  get_elem?-set_cases (y ∷ ys) (suc k) zero v x h = inr h
  get_elem?-set_cases (y ∷ ys) (suc k) (suc i) v x h = elim (get_elem?-set_cases ys k i v x h) [
    | inl (e, same) ↦ inl (ground arith, same)
    | inr old ↦ inr old
  ]

  pub Every-set {κ} :
      (P : A → Type κ) (xs : List A) (k : ℕ) (v : A) → P v → Every P xs → Every P (set xs k v)
  Every-set P xs k v p all i x h = elim (get_elem?-set_cases xs k i v x h) [
    | inl (_, same) ↦ subst P (sym same) p
    | inr old ↦ all i x old
  ]

  pub Every-cons {κ} : (P : A → Type κ) (a : A) (xs : List A) → P a → Every P xs → Every P (a ∷ xs)
  Every-cons P a xs p all zero x h = let same : a ≡ x = cc in subst P same p
  Every-cons P a xs p all (suc i) x h = all i x h

  pub Every-replicate {κ} : (P : A → Type κ) (n : ℕ) (a : A) → P a → Every P (replicate n a)
  Every-replicate P zero a p i x h = absurd (ground arith)
  Every-replicate P (suc n) a p zero x h = let same : a ≡ x = cc in subst P same p
  Every-replicate P (suc n) a p (suc i) x h = Every-replicate P n a p i x h

  -- The last write counts.
  pub set-set : (xs : List A) (k : ℕ) (a b : A) → set (set xs k a) k b ≡ set xs k b
  set-set [] k a b = refl
  set-set (x ∷ xs) zero a b = refl
  set-set (x ∷ xs) (suc k) a b = ap (λ ys. x ∷ ys) (set-set xs k a b)
