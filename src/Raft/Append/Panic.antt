-- ===== src/Raft/Append/Panic.antt =====
-- When `AppendEntries` panics.
use unique_freshman.Prelude.{
  ℕ, zero, suc, ◌≤◌, ◌≡◌, refl, ◌↔◌, inl, inr, pos, ◌+ℤ◌, ◌≤ℤ◌, List, none, some, ◌>>=◌,
  if◌then◌else◌, length, drop, arith, Option-cases,
}
use unique_freshman.Raft.Types.{LogEntry, Raft, AppendEntriesArgs, AppendEntriesReply}
use unique_freshman.Raft.Gob.{Gob}
use unique_freshman.Raft.Apply.Order.{last_of, start_apply_logs-delivered}
use unique_freshman.Raft.Append.{
  append_entries, answer_append, next_commit, accept_entries, check_prev,
}
use unique_freshman.Raft.Append.Check.{check_prev_iff, check_prev_total}
use unique_freshman.Raft.Append.Merge.{merged, first_conflict, merge_entries-merged}
use unique_freshman.Raft.Append.Accept.{entered, entered-fields}

module _ {Command : Type 0} where
  merged-none :
      (k : ℕ) (es log : List (LogEntry Command))
      → (merged k es log ≡ none) ↔ ((k ≡ 0) × (first_conflict (drop k log) es ≡ some 0))
  merged-none zero es log = elim (Option-cases (first_conflict log es)) [
    | inl agree ↦ ground (arith, agree)
    | inr (zero, first) ↦ rw first (λ _. (refl, refl), λ _. refl)
    | inr (suc d, later) ↦ ground (arith, later)
  ]
  merged-none (suc p) es log = elim (Option-cases (first_conflict (drop (suc p) log) es)) [
    | inl agree ↦ ground (arith, agree)
    | inr (zero, first) ↦ ground (arith, first)
    | inr (suc d, later) ↦ ground (arith, later)
  ]

module _ {Bytes Command : Type 0} ⦃gob : Gob Bytes Command⦄ where
  accept_entries-none :
      (args : AppendEntriesArgs Command) (k n : ℕ) (rf : Raft Bytes Command)
      → args.prev_log_index +ℤ pos 1 ≡ pos k
      → k ≤ length rf.log
      → rf.last_applied ≡ last_of n
      → (accept_entries args rf ≡ none) ↔ (merged k args.entries rf.log ≡ none)
  unfolding accept_entries
  accept_entries-none args k n rf next fits at_n =
      let e = merge_entries-merged args.prev_log_index k args.entries rf.log next fits in
      elim (Option-cases (merged k args.entries rf.log)) [
        | inl bad ↦ (λ _. bad, λ _. rw (e, bad) refl)
        | inr (log, good) ↦
            let done =
              (start_apply_logs-delivered n
                (record rf { log = log; committed_index = next_commit args log rf.committed_index })
                at_n).0 in
            rw (e, good, done) (λ h. cc, λ h. cc)
      ]

  handled :
      (args : AppendEntriesArgs Command) (rf : Raft Bytes Command) (reply : AppendEntriesReply)
      → check_prev args (entered args rf).current_term (entered args rf).log ≡ some reply
      → append_entries args rf ≡ (
          (if reply.success then accept_entries args (entered args rf) else some (entered args rf))
          >>= λ rf'. some (answer_append reply rf'))
  unfolding append_entries entered
  handled args rf reply e = rw e refl

  -- The entries of the request begin at index `k`, and the peer has applied `n` entries. The handler
  -- panics exactly when the request is not behind in its term, begins at index 0, and its first entry
  -- is of another term than the first entry of the log; otherwise it replies.
  pub append_entries-none :
      (args : AppendEntriesArgs Command) (k n : ℕ) (rf : Raft Bytes Command)
      → args.prev_log_index +ℤ pos 1 ≡ pos k
      → rf.last_applied ≡ last_of n
      → (append_entries args rf ≡ none)
        ↔ ((rf.current_term ≤ℤ args.term) × (k ≡ 0) × (first_conflict rf.log args.entries ≡ some 0))
  append_entries-none args zero n rf next at_n =
      let (reply, e) =
        check_prev_total args (entered args rf).current_term (entered args rf).log 0 next in
      ground (
        arith,
        handled args rf reply e,
        check_prev_iff args (entered args rf).current_term (entered args rf).log 0 reply next e,
        entered-fields args rf,
        accept_entries-none args 0 n (entered args rf) next,
        merged-none 0 args.entries rf.log,
      )
  append_entries-none args (suc p) n rf next at_n =
      let (reply, e) =
        check_prev_total args (entered args rf).current_term (entered args rf).log (suc p) next in
      ground (
        arith,
        handled args rf reply e,
        check_prev_iff args (entered args rf).current_term (entered args rf).log (suc p) reply next
            e,
        entered-fields args rf,
        accept_entries-none args (suc p) n (entered args rf) next,
        merged-none (suc p) args.entries rf.log,
      )
