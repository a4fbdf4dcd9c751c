-- ===== src/Raft/Leader/Quorum.antt =====
-- How far a leader commits after a success.
use unique_freshman.Prelude.{
  ℕ, zero, suc, ◌+◌, ◌/◌, ◌≤◌, ◌<◌, ◌≡◌, refl, ap, ap₂, sym, ◌∙◌, ◌⊎◌, inl, inr, ℤ, pos, ◌<ℤ◌,
  leb_ℤ, ltb_ℤ, eqb_ℤ, true, List, [], ◌∷◌, ◌++◌, some, length, length_ℤ, leb, get_elem?-lt, at,
  set, take, replicate, arith, length-replicate, length-set, append-nil, drop-eq_nil, Option-cases,
  Bool-cases,
}
use unique_freshman.Raft.Types.{LogEntry, Raft}
use unique_freshman.Raft.Leader.{SortInts, copy_ints, quorum_index, advance_commit}
use unique_freshman.Raft.Leader.Count.{count, length-ints, ints-reached}

module _ {ℓ} {A : Type ℓ} where
  take_all : (n : ℕ) (xs : List A) → length xs ≤ n → take n xs ≡ xs
  take_all zero [] h = refl
  take_all zero (x ∷ xs) h = absurd (omega arith)
  take_all (suc n) [] h = refl
  take_all (suc n) (x ∷ xs) h = ap (λ t. x ∷ t) (take_all n xs (omega arith))

copy_ints-same : (dst src : List ℤ) → length dst ≡ length src → copy_ints dst src ≡ src
copy_ints-same dst src h =
    ap₂ (λ a b. a ++ b) (take_all (length dst) src (omega arith))
      (drop-eq_nil (length src) dst (omega arith))
    ∙ append-nil src

module _ {Bytes Command : Type 0} where
  -- What each peer is known to have, in the leader's count: `matchIndex`, with the length of its log
  -- for itself.
  abbrev pub matches : Raft Bytes Command → List ℤ
  matches rf = set rf.match_index rf.me (length_ℤ rf.log)

module _ {Bytes Command : Type 0} (sort : SortInts) (rf : Raft Bytes Command)
    (sized : length rf.match_index ≡ rf.peers) (mine : rf.me < rf.peers) where
  pub quorum_index-eq : quorum_index sort rf ≡ at (sort.ints (matches rf)) (pos (rf.peers / 2))
  unfolding quorum_index
  quorum_index-eq =
      let copied =
        copy_ints-same (replicate rf.peers (pos 0)) rf.match_index
          (length-replicate rf.peers (pos 0) ∙ sym sized) in
      let in_range : leb (suc rf.me) (length rf.match_index) ≡ true = ground arith in
      rw (copied, in_range) refl

  pub quorum_index-some : (n : ℤ) × (quorum_index sort rf ≡ some n)
  quorum_index-some =
      let (n, found) = get_elem?-lt (sort.ints (matches rf)) (rf.peers / 2) (
        omega (
          arith,
          length-ints sort (matches rf),
          length-set rf.match_index rf.me (length_ℤ rf.log),
        )) in
      (n, quorum_index-eq ∙ found)

  -- The index is reached by at least half of the peers.
  pub quorum_reached :
      (n : ℤ)
      → quorum_index sort rf ≡ some n
      → rf.peers ≤ count (leb_ℤ n) (matches rf) + rf.peers / 2
  quorum_reached n e = omega (
    arith,
    ints-reached sort (matches rf) (rf.peers / 2) n (sym quorum_index-eq ∙ e),
    length-set rf.match_index rf.me (length_ℤ rf.log),
  )

  -- `matchIndex` has a place for every peer, and `me` is one of them. Where the step does not panic,
  -- it leaves the leader as it was, or moves `committedIndex` alone: to an index that is beyond the
  -- old one, that holds an entry of the leader's term, and that all peers but at most half of them,
  -- rounded down, are known to have reached.
  pub advance_commit-quorum :
      {rf' : Raft Bytes Command}
      → advance_commit sort rf ≡ some rf'
      → (rf' ≡ rf)
        ⊎ ((n : ℤ) × (rf' ≡ record rf { committed_index = n })
            × (rf.committed_index <ℤ n)
            × (e : LogEntry Command) × (at rf.log n ≡ some e)
            × (e.term ≡ rf.current_term)
            × (rf.peers ≤ count (leb_ℤ n) (matches rf) + rf.peers / 2))
  unfolding advance_commit
  advance_commit-quorum {rf'} h =
      let (n, q) = quorum_index-some in
      let reached = quorum_reached n q in
      let step = rw q at h in
      elim (Bool-cases (ltb_ℤ rf.committed_index n)) [
        | inl beyond ↦ elim (Option-cases (at rf.log n)) [
          | inl outside ↦ ground (arith, step, outside)
          | inr (e, found) ↦ elim (Bool-cases (eqb_ℤ e.term rf.current_term)) [
            | inl own ↦
                inr (n, ground (arith, step, found), ground arith, e, found, ground arith, reached)
            | inr other ↦ inl (ground (arith, step, found))
          ]
        ]
        | inr old ↦ inl (ground (arith, step))
      ]
