-- ===== src/Raft/Apply.antt =====
-- `startApplyLogs` of Task5/raft/raft.go: the committed entries go to `applyCh`, in order.
pub mod Order
use unique_freshman.Prelude.{
  ℕ, zero, suc, pos, ◌+ℤ◌, ltb_ℤ, Bool, true, false, ◌&&◌, [], ◌∷◌, ◌++◌, Option, some, ◌>>=◌,
  length, length_ℤ, at,
}
use unique_freshman.Raft.Types.{ApplyMsg, Raft}

module _ {Bytes Command : Type 0} where
  -- The test of the loop.
  unfoldable pub is_pending : Raft Bytes Command → Bool
  is_pending rf =
      ltb_ℤ rf.last_applied rf.committed_index && ltb_ℤ (rf.last_applied +ℤ pos 1) (length_ℤ rf.log)

  -- The loop, with the rounds that it may still take.
  unfoldable pub apply_loop : ℕ → Raft Bytes Command → Option (Raft Bytes Command)
  unfolding is_pending
  apply_loop zero rf = some rf
  apply_loop (suc fuel) rf = elim (is_pending rf) [
    | true ↦ at rf.log (rf.last_applied +ℤ pos 1) >>= λ entry.
        let msg : ApplyMsg Command = record {
          command_valid = true;
          command = entry.command;
          command_index = rf.last_applied +ℤ pos 1;
        } in
        apply_loop fuel (record rf {
          apply_ch = rf.apply_ch ++ msg ∷ [];
          last_applied = rf.last_applied +ℤ pos 1;
        })
    | false ↦ some rf
  ]

  -- The loop takes at most a round for each entry.
  unfoldable pub start_apply_logs : Raft Bytes Command → Option (Raft Bytes Command)
  unfolding apply_loop
  start_apply_logs rf = apply_loop (length rf.log) rf
