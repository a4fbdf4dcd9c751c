-- ===== src/Raft/Client.antt =====
-- `Start` of Task5/raft/raft.go: the service hands a command to the leader.
pub mod Submit
use unique_freshman.Prelude.{ℤ, minus_one, Bool, true, false, [], ◌∷◌, ◌++◌, length_ℤ}
use unique_freshman.Raft.Types.{LogEntry, Raft, follower, candidate, leader}
use unique_freshman.Raft.Gob.{Gob}
use unique_freshman.Raft.State.{persist}

module _ {Bytes Command : Type 0} ⦃gob : Gob Bytes Command⦄ where
  -- The new state, and the results `index`, `term` and `isLeader`.
  unfoldable pub start : Command → Raft Bytes Command → Raft Bytes Command × ℤ × ℤ × Bool
  unfolding persist
  start command rf =
      let entry : LogEntry Command = record { command = command; term = rf.current_term } in
      elim rf.state [
        | leader ↦ (
          persist (record rf { log = rf.log ++ entry ∷ [] }),
          length_ℤ rf.log,
          rf.current_term,
          true,
        )
        | follower ↦ (rf, minus_one, rf.current_term, false)
        | candidate ↦ (rf, minus_one, rf.current_term, false)
      ]
