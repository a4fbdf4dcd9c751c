-- ===== src/Raft/Leader/Count.antt =====
-- How many numbers of a list lie above or below one, in the list and in what `sort.Ints` makes of it.
use mathlib.Core.Logic.{∥∥₁_elim}
use mathlib.Core.List.{Perm, Permᴰ}
use native.Mathlib.Nat.{ℕ_set}
use unique_freshman.Prelude.{
  ℕ, zero, suc, ◌+◌, ◌≤◌, ◌<◌, ◌≡◌, refl, ap, sym, ◌∙◌, ℤ, ◌≤ℤ◌, leb_ℤ, Bool, true, List, [], ◌∷◌,
  some, length, get_elem?, arith, if◌then◌else◌,
}
use unique_freshman.Raft.Leader.{Below, IsSorted, SortInts}

-- How many numbers pass a test.
unfoldable pub count : (ℤ → Bool) → List ℤ → ℕ
count p [] = 0
count p (x ∷ xs) = if p x then suc (count p xs) else count p xs

-- All numbers of a sorted list are at least one that its head is at least.
count-Below : (n x : ℤ) (xs : List ℤ) → n ≤ℤ x → Below x xs → count (leb_ℤ n) xs ≡ length xs
unfolding count
count-Below n x [] low below = refl
count-Below n x (y ∷ xs) low below = ground (arith, count-Below n x xs low below.1)

-- From an index on, a sorted list holds numbers that are not smaller.
pub count-from :
    (n : ℤ) (xs : List ℤ) (i : ℕ)
    → IsSorted xs
    → get_elem? xs i ≡ some n
    → length xs ≤ count (leb_ℤ n) xs + i
unfolding count
count-from n [] i sorted found = omega arith
count-from n (x ∷ xs) zero sorted found =
    let same : x ≡ n = cc in ground (arith, same, count-Below n x xs (ground arith) sorted.0)
count-from n (x ∷ xs) (suc i) sorted found = ground (arith, count-from n xs i sorted.1)

pub count-le : (p : ℤ → Bool) (xs : List ℤ) → count p xs ≤ length xs
unfolding count
count-le p [] = omega arith
count-le p (x ∷ xs) = ground (arith, count-le p xs)

-- A larger bound is reached by no more numbers.
pub count_mono : (m n : ℤ) (xs : List ℤ) → m ≤ℤ n → count (leb_ℤ n) xs ≤ count (leb_ℤ m) xs
unfolding count
count_mono m n [] h = omega arith
count_mono m n (x ∷ xs) h = ground (arith, count_mono m n xs h)

count-Permᴰ : (p : ℤ → Bool) {xs ys : List ℤ} → Permᴰ xs ys → count p xs ≡ count p ys
unfolding count
count-Permᴰ p Permᴰ.nil = refl
count-Permᴰ p (Permᴰ.cons e h) = ground (arith, count-Permᴰ p h)
count-Permᴰ p (Permᴰ.swap e e') = ground arith
count-Permᴰ p (Permᴰ.trans h k) = count-Permᴰ p h ∙ count-Permᴰ p k

pub count-perm : (p : ℤ → Bool) {xs ys : List ℤ} → Perm xs ys → count p xs ≡ count p ys
count-perm p h = ∥∥₁_elim h (ℕ_set _ _) (count-Permᴰ p)

count-all : (xs : List ℤ) → count (λ _. true) xs ≡ length xs
unfolding count
count-all [] = refl
count-all (x ∷ xs) = ap suc (count-all xs)

Below-get_elem? :
    (x : ℤ) (xs : List ℤ) (i : ℕ) (n : ℤ) → Below x xs → get_elem? xs i ≡ some n → x ≤ℤ n
Below-get_elem? x [] i n below found = ground arith
Below-get_elem? x (y ∷ xs) zero n below found = let same : y ≡ n = cc in rw (← same) below.0
Below-get_elem? x (y ∷ xs) (suc i) n below found = Below-get_elem? x xs i n below.1 found

-- Up to an index, a sorted list holds numbers that are not larger.
pub count-upto :
    (n : ℤ) (xs : List ℤ) (i : ℕ)
    → IsSorted xs
    → get_elem? xs i ≡ some n
    → i < count (λ x. leb_ℤ x n) xs
unfolding count
count-upto n [] i sorted found = ground arith
count-upto n (x ∷ xs) zero sorted found = ground arith
count-upto n (x ∷ xs) (suc i) sorted found =
    ground (arith, count-upto n xs i sorted.1, Below-get_elem? x xs i n sorted.0 found)

-- A test that all pass, each passes.
pub count_full :
    (p : ℤ → Bool) (xs : List ℤ) (i : ℕ) (x : ℤ)
    → length xs ≤ count p xs
    → get_elem? xs i ≡ some x
    → p x ≡ true
unfolding count
count_full p [] i x full found = ground arith
count_full p (y ∷ xs) zero x full found = ground (arith, count-le p xs)
count_full p (y ∷ xs) (suc i) x full found = ground (arith, count-le p xs, count_full p xs i x)

module _ (sort : SortInts) where
  pub length-ints : (xs : List ℤ) → length (sort.ints xs) ≡ length xs
  length-ints xs =
      sym (count-all (sort.ints xs)) ∙ count-perm (λ _. true) (sort.ints-perm xs) ∙ count-all xs

  -- The number at an index of the sorted list is reached by all from there on.
  pub ints-reached :
      (xs : List ℤ) (i : ℕ) (n : ℤ)
      → get_elem? (sort.ints xs) i ≡ some n
      → length xs ≤ count (leb_ℤ n) xs + i
  ints-reached xs i n found = omega (
    arith,
    count-from n (sort.ints xs) i (sort.ints-IsSorted xs) found,
    count-perm (leb_ℤ n) (sort.ints-perm xs),
    length-ints xs,
  )

  -- The last number of the sorted list is the largest.
  pub ints-last :
      (xs : List ℤ) (i j : ℕ) (n x : ℤ)
      → length xs ≡ suc i
      → get_elem? (sort.ints xs) i ≡ some n
      → get_elem? xs j ≡ some x
      → x ≤ℤ n
  ints-last xs i j n x size found at_j =
      let all : length xs ≤ count (λ y. leb_ℤ y n) xs = omega (
        arith,
        size,
        count-upto n (sort.ints xs) i (sort.ints-IsSorted xs) found,
        count-perm (λ y. leb_ℤ y n) (sort.ints-perm xs),
      ) in
      let fits : leb_ℤ x n ≡ true = count_full (λ y. leb_ℤ y n) xs j x all at_j in ground arith
