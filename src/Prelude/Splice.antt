-- ===== src/Prelude/Splice.antt =====
-- Slices of a list that is cut in two: `pre ++ suf`.
use Prim.Native.Nat.{ℕ, zero, suc, ◌+◌, ◌≤◌, ◌<◌}
use mathlib.Core.Path.{◌≡◌, refl, ap, sym}
use mathlib.Core.List.{List, [], ◌∷◌, ◌++◌}
use mathlib.Core.Option.{none, some}
use native.Mathlib.Omega.{arith}
use native.Mathlib.Nat.{zero-add, suc-add}
use unique_freshman.Prelude.Lists.{length, get_elem?, set, take, drop, at, store, length-set}
use unique_freshman.Prelude.Int.{ℤ, pos, negsuc}

module _ {ℓ} {A : Type ℓ} where
  pub get_elem?-append :
      (pre : List A) (x : A) (suf : List A) (n : ℕ)
      → length pre ≡ n
      → get_elem? (pre ++ x ∷ suf) n ≡ some x
  get_elem?-append [] x suf zero h = refl
  get_elem?-append [] x suf (suc n) h = absurd (omega arith)
  get_elem?-append (y ∷ pre) x suf zero h = absurd (omega arith)
  get_elem?-append (y ∷ pre) x suf (suc n) h = get_elem?-append pre x suf n (omega arith)

  pub set-append :
      (pre : List A) (x y : A) (suf : List A) (n : ℕ)
      → length pre ≡ n
      → set (pre ++ x ∷ suf) n y ≡ pre ++ y ∷ suf
  set-append [] x y suf zero h = refl
  set-append [] x y suf (suc n) h = absurd (omega arith)
  set-append (z ∷ pre) x y suf zero h = absurd (omega arith)
  set-append (z ∷ pre) x y suf (suc n) h = ap (λ t. z ∷ t) (set-append pre x y suf n (omega arith))

  pub drop-nil : (n : ℕ) → drop {A = A} n [] ≡ []
  drop-nil zero = refl
  drop-nil (suc n) = refl

  pub drop-eq_nil : (n : ℕ) (xs : List A) → length xs ≤ n → drop n xs ≡ []
  drop-eq_nil n [] h = drop-nil n
  drop-eq_nil zero (x ∷ xs) h = absurd (omega arith)
  drop-eq_nil (suc n) (x ∷ xs) h = drop-eq_nil n xs (omega arith)

  take-nil : (n : ℕ) → take {A = A} n [] ≡ []
  take-nil zero = refl
  take-nil (suc n) = refl

  pub take-add : (m n : ℕ) (xs : List A) → take (m + n) xs ≡ take m xs ++ take n (drop m xs)
  take-add zero n xs = rw (zero-add n)
  take-add (suc m) n [] = rw (suc-add m n, take-nil n)
  take-add (suc m) n (x ∷ xs) = rw (suc-add m n, take-add m n xs)

  -- The first elements of a list that begins with `pre`.
  pub take-append : (pre suf : List A) (n : ℕ) → length pre ≡ n → take n (pre ++ suf) ≡ pre
  take-append [] suf zero h = refl
  take-append [] suf (suc n) h = absurd (omega arith)
  take-append (x ∷ pre) suf zero h = absurd (omega arith)
  take-append (x ∷ pre) suf (suc n) h = ap (λ t. x ∷ t) (take-append pre suf n (omega arith))

  pub get_elem?-set_self :
      (xs : List A) (i : ℕ) (x y : A) → get_elem? xs i ≡ some x → get_elem? (set xs i y) i ≡ some y
  get_elem?-set_self [] i x y h = ground arith
  get_elem?-set_self (z ∷ xs) zero x y h = refl
  get_elem?-set_self (z ∷ xs) (suc i) x y h = get_elem?-set_self xs i x y h

  pub set-get_elem? : (xs : List A) (i : ℕ) (x : A) → get_elem? xs i ≡ some x → set xs i x ≡ xs
  set-get_elem? [] i x h = refl
  set-get_elem? (z ∷ xs) zero x h = let same : z ≡ x = cc in ap (λ t. t ∷ xs) (sym same)
  set-get_elem? (z ∷ xs) (suc i) x h = ap (λ t. z ∷ t) (set-get_elem? xs i x h)

  pub get_elem?-lt : (xs : List A) (i : ℕ) → i < length xs → (x : A) × (get_elem? xs i ≡ some x)
  get_elem?-lt [] i h = elim h [ ]
  get_elem?-lt (x ∷ xs) zero h = (x, refl)
  get_elem?-lt (x ∷ xs) (suc i) h = get_elem?-lt xs i (omega arith)

  pub get_elem?-lt_length : (xs : List A) (i : ℕ) (x : A) → get_elem? xs i ≡ some x → i < length xs
  get_elem?-lt_length [] i x h = ground arith
  get_elem?-lt_length (z ∷ xs) zero x h = omega arith
  get_elem?-lt_length (z ∷ xs) (suc i) x h = omega (arith, get_elem?-lt_length xs i x h)

  pub store-set :
      (xs : List A) (i : ℕ) (x y : A)
      → at xs (pos i) ≡ some x
      → store xs (pos i) y ≡ some (set xs i y)
  store-set xs i x y h = ground (arith, get_elem?-lt_length xs i x h)

  pub get_elem?-ge : (xs : List A) (i : ℕ) → length xs ≤ i → get_elem? xs i ≡ none
  get_elem?-ge [] i h = refl
  get_elem?-ge (x ∷ xs) zero h = absurd (omega arith)
  get_elem?-ge (x ∷ xs) (suc i) h = get_elem?-ge xs i (omega arith)

  pub length-store :
      (xs : List A) (i : ℤ) (y : A) {ys : List A} → store xs i y ≡ some ys → length ys ≡ length xs
  length-store xs (pos i) y h = ground (arith, length-set xs i y)
  length-store xs (negsuc i) y h = ground arith
