-- ===== src/Raft/Append.antt =====
-- The RPC handler `AppendEntries` of Task5/raft/raft.go, under the lock `rf.mu`.
pub mod Merge
pub mod Panic
pub mod Replicate
pub mod Accept
pub mod Check
use unique_freshman.Prelude.{
  ℕ, suc, ℤ, pos, minus_one, ◌+ℤ◌, ◌-ℤ◌, ltb_ℤ, leb_ℤ, eqb_ℤ, true, false, not, List, [], ◌∷◌, ◌++◌,
  Option, some, ◌>>=◌, if◌then◌else◌, length_ℤ, at, store, slice_to,
}
use unique_freshman.Raft.Types.{LogEntry, Raft, AppendEntriesArgs, AppendEntriesReply}
use unique_freshman.Raft.Gob.{Gob}
use unique_freshman.Raft.State.{persist, notify}
use unique_freshman.Raft.Vote.{enter_term}
use unique_freshman.Raft.Apply.{start_apply_logs}

module _ {Command : Type 0} where
  -- The loop that looks for the first entry of the term; the reply's field is 0 before it.
  unfoldable pub first_of_term : ℤ → ℕ → List (LogEntry Command) → ℤ
  first_of_term t i [] = pos 0
  first_of_term t i (e ∷ es) = if eqb_ℤ e.term t then pos i else first_of_term t (suc i) es

  -- The branch in which the entry at `PrevLogIndex` is of another term.
  unfoldable pub conflict_reply :
      AppendEntriesArgs Command → ℤ → List (LogEntry Command) → Option AppendEntriesReply
  unfolding first_of_term
  conflict_reply args term log =
      (if leb_ℤ (pos 0) args.prev_log_index
        then (at log args.prev_log_index >>= λ e. some e.term)
        else some minus_one)
      >>= λ prev_log_term. some (
          if not (eqb_ℤ args.prev_log_term prev_log_term)
          then record {
            term = term;
            success = false;
            conflict_index = first_of_term prev_log_term 0 log;
            conflict_term = prev_log_term;
          }
          else record {
            term = term;
            success = false;
            conflict_index = pos 0;
            conflict_term = pos 0;
          })

  -- The consistency check: the reply for a peer at `term` with `log`.
  unfoldable pub check_prev :
      AppendEntriesArgs Command → ℤ → List (LogEntry Command) → Option AppendEntriesReply
  unfolding conflict_reply
  check_prev args term log =
      if ltb_ℤ args.term term
      then some
          (record { term = term; success = false; conflict_index = pos 0; conflict_term = pos 0 })
      else (if leb_ℤ (length_ℤ log) args.prev_log_index
          then some (record {
            term = term;
            success = false;
            conflict_index = length_ℤ log -ℤ pos 1;
            conflict_term = minus_one;
          })
          else (if eqb_ℤ args.prev_log_index minus_one
              then some (record {
                term = term;
                success = true;
                conflict_index = pos 0;
                conflict_term = pos 0;
              })
              else (at log args.prev_log_index >>= λ e.
                  if not (eqb_ℤ e.term args.prev_log_term)
                  then conflict_reply args term log
                  else some (record {
                    term = term;
                    success = true;
                    conflict_index = pos 0;
                    conflict_term = pos 0;
                  }))))

  -- The first loop over `Entries`, at round `i`: it cuts the log at a conflict.
  unfoldable pub cut_conflict :
      ℤ → ℕ → List (LogEntry Command) → List (LogEntry Command) → Option (List (LogEntry Command))
  cut_conflict prev i [] log = some log
  cut_conflict prev i (e ∷ es) log =
      let rest = cut_conflict prev (suc i) es log in
      if leb_ℤ (length_ℤ log) (prev +ℤ pos i +ℤ pos 1)
      then some log
      else (at log (prev +ℤ pos i +ℤ pos 1) >>= λ old.
          if not (eqb_ℤ old.term e.term) then slice_to log (prev +ℤ pos i) else rest)

  -- The second loop, at round `i`: an entry is appended, or written over the one at its index.
  unfoldable pub write_entries :
      ℤ → ℕ → List (LogEntry Command) → List (LogEntry Command) → Option (List (LogEntry Command))
  write_entries prev i [] log = some log
  write_entries prev i (e ∷ es) log =
      (if leb_ℤ (length_ℤ log) (prev +ℤ pos i +ℤ pos 1)
        then some (log ++ e ∷ [])
        else store log (prev +ℤ pos i +ℤ pos 1) e)
      >>= λ log'. write_entries prev (suc i) es log'

  -- The log after a request that passed the check.
  unfoldable pub merge_entries :
      ℤ → List (LogEntry Command) → List (LogEntry Command) → Option (List (LogEntry Command))
  unfolding cut_conflict write_entries
  merge_entries prev es log = cut_conflict prev 0 es log >>= λ log'.
      if ltb_ℤ prev (length_ℤ log') then write_entries prev 0 es log' else some log'

  -- `committedIndex` after such a request.
  unfoldable pub next_commit : AppendEntriesArgs Command → List (LogEntry Command) → ℤ → ℤ
  next_commit args log committed =
      let last_new = args.prev_log_index +ℤ length_ℤ args.entries in
      let target = if ltb_ℤ last_new args.leader_commit then last_new else args.leader_commit in
      if ltb_ℤ committed args.leader_commit
      then if leb_ℤ (length_ℤ log) target then length_ℤ log -ℤ pos 1 else target
      else committed

module _ {Bytes Command : Type 0} ⦃gob : Gob Bytes Command⦄ where
  -- What a request that passed the check does to the peer.
  unfoldable pub accept_entries :
      AppendEntriesArgs Command → Raft Bytes Command → Option (Raft Bytes Command)
  accept_entries args rf = merge_entries args.prev_log_index args.entries rf.log >>= λ log.
      start_apply_logs
        (record rf { log = log; committed_index = next_commit args log rf.committed_index })

  -- `persist` and the notification that end the handler.
  unfoldable pub answer_append :
      AppendEntriesReply → Raft Bytes Command → Raft Bytes Command × AppendEntriesReply
  unfolding persist
  answer_append reply rf =
      let rf' = persist rf in (record rf' { heart_beat_ch = notify rf'.heart_beat_ch }, reply)

  unfoldable pub append_entries :
      AppendEntriesArgs Command
      → Raft Bytes Command
      → Option (Raft Bytes Command × AppendEntriesReply)
  append_entries args rf =
      let rf' =
        if ltb_ℤ rf.current_term args.term then enter_term args.term rf.voted_for rf else rf in
      check_prev args rf'.current_term rf'.log >>= λ reply.
      (if reply.success then accept_entries args rf' else some rf') >>= λ rf''.
      some (answer_append reply rf'')
