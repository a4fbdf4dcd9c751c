-- ===== src/Raft/Leader/Bounds.antt =====
-- When the step of `committedIndex` panics.
use unique_freshman.Prelude.{
  ℕ, zero, suc, ◌/◌, ◌≤◌, ◌<◌, ◌≡◌, refl, sym, ◌∙◌, ℤ, pos, negsuc, minus_one, ◌≤ℤ◌, ◌<ℤ◌, leb_ℤ,
  ltb_ℤ, List, [], ◌∷◌, none, some, length, length_ℤ, get_elem?, get_elem?-lt, get_elem?-ge,
  get_elem?-set_self, at, set, arith, length-set, Bool-cases, inl, inr, subst, Option-some,
}
use unique_freshman.Raft.Types.{Raft}
use unique_freshman.Raft.Leader.{SortInts, advance_commit}
use unique_freshman.Raft.Leader.Count.{count, count_mono, ints-last}
use unique_freshman.Raft.Leader.Quorum.{matches, quorum_index-eq, quorum_index-some, quorum_reached}

-- Every number is below the bound.
abbrev pub AllBelow : ℤ → List ℤ → Type 0
AllBelow b [] = Unit
AllBelow b (x ∷ xs) = (x <ℤ b) × AllBelow b xs

count-AllBelow : (b : ℤ) (xs : List ℤ) → AllBelow b xs → count (leb_ℤ b) xs ≡ 0
unfolding count
count-AllBelow b [] h = refl
count-AllBelow b (x ∷ xs) h = ground (arith, count-AllBelow b xs h.1)

count-set_bound : (b : ℤ) (xs : List ℤ) (i : ℕ) → AllBelow b xs → count (leb_ℤ b) (set xs i b) ≤ 1
unfolding count
count-set_bound b [] i h = omega arith
count-set_bound b (x ∷ xs) zero h = ground (arith, count-AllBelow b xs h.1)
count-set_bound b (x ∷ xs) (suc i) h = ground (arith, count-set_bound b xs i h.1)

at-in_range {ℓ} :
    {A : Type ℓ} (xs : List A) (n : ℤ)
    → pos 0 ≤ℤ n
    → n <ℤ length_ℤ xs
    → (x : A) × (at xs n ≡ some x)
at-in_range xs (pos i) low high = get_elem?-lt xs i (omega arith)
at-in_range xs (negsuc i) low high = absurd (omega arith)

at-out_of_range {ℓ} : {A : Type ℓ} (xs : List A) (n : ℤ) → length_ℤ xs ≤ℤ n → at xs n ≡ none
at-out_of_range xs (pos i) h = get_elem?-ge xs i (omega arith)
at-out_of_range xs (negsuc i) h = refl

module _ {Bytes Command : Type 0} (sort : SortInts) (rf : Raft Bytes Command)
    (sized : length rf.match_index ≡ rf.peers) (mine : rf.me < rf.peers) where
  -- `matchIndex` has a place for every peer, and `me` is one of them. With three peers or more, a
  -- `committedIndex` of at least -1, and a `matchIndex` below the length of the log at every place,
  -- the step of `committedIndex` does not panic.
  pub advance_commit-some :
      3 ≤ rf.peers
      → minus_one ≤ℤ rf.committed_index
      → AllBelow (length_ℤ rf.log) rf.match_index
      → (rf' : Raft Bytes Command) × (advance_commit sort rf ≡ some rf')
  unfolding advance_commit
  advance_commit-some enough low inside =
      let (n, q) = quorum_index-some sort rf sized mine in
      let reached = quorum_reached sort rf sized mine n q in
      let few = count-set_bound (length_ℤ rf.log) rf.match_index rf.me inside in
      elim (Bool-cases (leb_ℤ (length_ℤ rf.log) n)) [
        | inl far ↦ absurd (
            omega (arith, count_mono (length_ℤ rf.log) n (matches rf) (ground arith), few, reached))
        | inr near ↦ elim (Bool-cases (ltb_ℤ rf.committed_index n)) [
          | inl beyond ↦
              let (e, found) = at-in_range rf.log n (ground arith) (ground arith) in
              Option-some (advance_commit sort rf) (ground (arith, q, found))
          | inr old ↦ Option-some (advance_commit sort rf) (ground (arith, q))
        ]
      ]

  -- `matchIndex` has a place for every peer, and `me` is one of them. With two peers the step of
  -- `committedIndex` panics whenever that is below the length of the leader's log: the leader counts
  -- its own log by its length, which is no index of the log.
  pub advance_commit-two :
      rf.peers ≡ 2 → rf.committed_index <ℤ length_ℤ rf.log → advance_commit sort rf ≡ none
  unfolding advance_commit
  advance_commit-two two uncommitted =
      let (n, q) = quorum_index-some sort rf sized mine in
      let (old, there) = get_elem?-lt rf.match_index rf.me (omega arith) in
      let half : rf.peers / 2 ≡ 1 = omega arith in
      let at_one : get_elem? (sort.ints (matches rf)) 1 ≡ some n =
        subst (λ i. get_elem? (sort.ints (matches rf)) i ≡ some n) half
          (sym (quorum_index-eq sort rf sized mine) ∙ q) in
      let far : length_ℤ rf.log ≤ℤ n =
        ints-last sort (matches rf) 1 rf.me n (length_ℤ rf.log)
          (omega (arith, length-set rf.match_index rf.me (length_ℤ rf.log))) at_one
          (get_elem?-set_self rf.match_index rf.me old (length_ℤ rf.log) there) in
      ground (arith, q, at-out_of_range rf.log n far)
