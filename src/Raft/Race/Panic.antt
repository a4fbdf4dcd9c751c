-- ===== src/Raft/Race/Panic.antt =====
-- A log that is cut while `RequestVote` looks at it.
use unique_freshman.Prelude.{
  ◌<◌, ◌≡◌, refl, pos, ◌-ℤ◌, ◌≤ℤ◌, List, [], ◌∷◌, none, length, length_ℤ, at, get_elem?-ge, arith,
}
use unique_freshman.Raft.Types.{Raft, RequestVoteArgs}
use unique_freshman.Raft.Gob.{Gob}
use unique_freshman.Raft.Leader.{SortInts}
use unique_freshman.Raft.Peer.{Step, StaysUp}
use unique_freshman.Raft.Race.{
  Handling, tests_later, looks, measures, compares_last, resume, Races, came, went_on, locked, here,
  onward,
}

at_beyond :
    {A : Type 0} (xs ys : List A) → length ys < length xs → at ys (length_ℤ xs -ℤ pos 1) ≡ none
unfolding ◌-ℤ◌
at_beyond [] ys low = absurd (omega arith)
at_beyond (x ∷ xs) ys low =
    let e : length_ℤ (x ∷ xs) -ℤ pos 1 ≡ pos (length xs) = ground arith in
    rw (e) (get_elem?-ge ys (length xs) (omega arith))

module _ {Bytes Command : Type 0} ⦃gob : Gob Bytes Command⦄ (sort : SortInts) where
  -- A request comes that is not of a later term. If a step that takes the lock makes the log shorter,
  -- there is a race in which it comes after the handler has read the length of the log, and the
  -- handler's next step is a panic.
  pub Races-panics :
      (args : RequestVoteArgs) (rf rf' : Raft Bytes Command) (st : Step sort rf rf')
      → StaysUp sort st
      → args.term ≤ℤ rf.current_term
      → length rf'.log < length rf.log
      → (h : Handling) × Races sort
          (record { raft = rf; calls = [] })
          (record { raft = rf'; calls = h ∷ [] })
        × (resume h rf' ≡ none)
  unfolding resume
  Races-panics args rf rf' st up old low =
      let i = length_ℤ rf.log -ℤ pos 1 in
      let arrived : Races sort (record { raft = rf; calls = [] })
          (record { raft = rf; calls = tests_later args ∷ [] }) =
        onward here (came args refl) in
      let at_looks : Races sort (record { raft = rf; calls = [] })
          (record { raft = rf; calls = looks args ∷ [] }) =
        onward arrived (went_on 0 (tests_later args) (looks args) rf refl (ground arith) refl) in
      let at_measures : Races sort (record { raft = rf; calls = [] })
          (record { raft = rf; calls = measures args ∷ [] }) =
        onward at_looks (went_on 0 (looks args) (measures args) rf refl (ground arith) refl) in
      let at_last : Races sort (record { raft = rf; calls = [] })
          (record { raft = rf; calls = compares_last args i ∷ [] }) =
        onward at_measures (went_on 0 (measures args) (compares_last args i) rf refl refl refl) in
      (
        compares_last args i,
        onward at_last (locked rf' st up refl),
        rw (at_beyond rf.log rf'.log low) refl,
      )
