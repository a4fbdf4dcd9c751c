-- ===== src/Tests/Sorting.antt =====
-- An insertion sort, in the place of `sort.Ints`.
use mathlib.Core.List.{Perm}
use mathlib.Core.List.Perm
use unique_freshman.Prelude.{
  ℤ, ◌≤ℤ◌, leb_ℤ, List, [], ◌∷◌, if◌then◌else◌, arith, Bool-cases, inl, inr,
}
use unique_freshman.Raft.Leader.{Below, IsSorted, SortInts}

unfoldable pub insert : ℤ → List ℤ → List ℤ
insert x [] = x ∷ []
insert x (y ∷ ys) = let rest = insert x ys in if leb_ℤ x y then x ∷ y ∷ ys else y ∷ rest

unfoldable pub insertion_sort : List ℤ → List ℤ
insertion_sort [] = []
insertion_sort (x ∷ xs) = insert x (insertion_sort xs)

Below-le : (x y : ℤ) (ys : List ℤ) → x ≤ℤ y → Below y ys → Below x ys
Below-le x y [] h b = tt
Below-le x y (z ∷ zs) h (le, b) = (omega arith, Below-le x y zs h b)

insert-Below : (x y : ℤ) (ys : List ℤ) → x ≤ℤ y → Below x ys → Below x (insert y ys)
unfolding insert
insert-Below x y [] h b = (h, tt)
insert-Below x y (z ∷ zs) h (le, b) = elim (Bool-cases (leb_ℤ y z)) [
  | inl first ↦ rw first (h, (le, b))
  | inr later ↦ rw later (le, insert-Below x y zs h b)
]

insert-IsSorted : (x : ℤ) (xs : List ℤ) → IsSorted xs → IsSorted (insert x xs)
unfolding insert
insert-IsSorted x [] h = (tt, tt)
insert-IsSorted x (y ∷ ys) (b, h) = elim (Bool-cases (leb_ℤ x y)) [
  | inl first ↦ rw first ((ground arith, Below-le x y ys (ground arith) b), (b, h))
  | inr later ↦ rw later (insert-Below y x ys (ground arith) b, insert-IsSorted x ys h)
]

pub insertion_sort-IsSorted : (xs : List ℤ) → IsSorted (insertion_sort xs)
unfolding insertion_sort
insertion_sort-IsSorted [] = tt
insertion_sort-IsSorted (x ∷ xs) =
    insert-IsSorted x (insertion_sort xs) (insertion_sort-IsSorted xs)

insert-perm : (x : ℤ) (xs : List ℤ) → Perm (insert x xs) (x ∷ xs)
unfolding insert
insert-perm x [] = Perm.refl (x ∷ [])
insert-perm x (y ∷ ys) = elim (Bool-cases (leb_ℤ x y)) [
  | inl first ↦ rw first (Perm.refl (x ∷ y ∷ ys))
  | inr later ↦ rw later (Perm.trans (Perm.cons y (insert-perm x ys)) (Perm.swap x y ys))
]

pub insertion_sort-perm : (xs : List ℤ) → Perm (insertion_sort xs) xs
unfolding insertion_sort
insertion_sort-perm [] = Perm.refl []
insertion_sort-perm (x ∷ xs) =
    Perm.trans (insert-perm x (insertion_sort xs)) (Perm.cons x (insertion_sort-perm xs))

abbrev pub by_insertion : SortInts
by_insertion = record {
  ints = insertion_sort;
  ints-IsSorted = insertion_sort-IsSorted;
  ints-perm = insertion_sort-perm;
}
