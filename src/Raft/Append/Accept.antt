-- ===== src/Raft/Append/Accept.antt =====
-- The handler `AppendEntries` as a whole.
use unique_freshman.Prelude.{
  ℕ, ◌≤◌, ◌≡◌, ap, pos, ◌+ℤ◌, ltb_ℤ, some, if◌then◌else◌, length, arith, bind-some, sym, subst, ◌∙◌,
}
use unique_freshman.Raft.Types.{Raft, AppendEntriesArgs, AppendEntriesReply, follower}
use unique_freshman.Raft.Gob.{Gob}
use unique_freshman.Raft.Vote.{enter_term}
use unique_freshman.Raft.Apply.Order.{start_apply_logs-frame}
use unique_freshman.Raft.Append.{
  check_prev, accept_entries, answer_append, append_entries, next_commit, merge_entries,
}
use unique_freshman.Raft.Append.Merge.{merged, merge_entries-merged}

module _ {Bytes Command : Type 0} ⦃gob : Gob Bytes Command⦄ where
  -- The peer after the handler has looked at the term of the request.
  unfoldable pub entered : AppendEntriesArgs Command → Raft Bytes Command → Raft Bytes Command
  entered args rf =
      if ltb_ℤ rf.current_term args.term then enter_term args.term rf.voted_for rf else rf

  pub append_entries-inv :
      (args : AppendEntriesArgs Command) (rf rf' : Raft Bytes Command) (reply : AppendEntriesReply)
      → append_entries args rf ≡ some (rf', reply)
      → (check_prev args (entered args rf).current_term (entered args rf).log ≡ some reply)
        × (rf'' : Raft Bytes Command) × ((if reply.success
              then accept_entries args (entered args rf)
              else some (entered args rf))
            ≡ some rf'')
        × (rf' ≡ (answer_append reply rf'').0)
  unfolding append_entries answer_append entered
  append_entries-inv args rf rf' reply h =
      let (reply', checked, rest) =
        bind-some (check_prev args (entered args rf).current_term (entered args rf).log) _ h in
      let (rf'', accepted, last) =
        bind-some
          (if reply'.success then accept_entries args (entered args rf) else some (entered args rf))
          _ rest in
      let same : reply' ≡ reply = ground arith in
      let go : AppendEntriesReply → Type 0 = λ r.
        (if r.success then accept_entries args (entered args rf) else some (entered args rf))
        ≡ some rf'' in
      (checked ∙ ap some same, rf'', subst go same accepted, ground arith)

  pub entered-fields :
      (args : AppendEntriesArgs Command) (rf : Raft Bytes Command)
      → let rf' : Raft Bytes Command = entered args rf in
        (rf'.log ≡ rf.log)
        × (rf'.committed_index ≡ rf.committed_index)
        × (rf'.last_applied ≡ rf.last_applied)
        × (rf'.apply_ch ≡ rf.apply_ch)
        × (rf'.current_term
            ≡ (if ltb_ℤ rf.current_term args.term then args.term else rf.current_term))
        × (rf'.state ≡ (if ltb_ℤ rf.current_term args.term then follower else rf.state))
  unfolding enter_term entered
  entered-fields args rf = ground arith

  -- The handler, on a request that passed the check: its log and commit index.
  pub accept_entries-fields :
      (args : AppendEntriesArgs Command) (k : ℕ) (rf rf' : Raft Bytes Command)
      → args.prev_log_index +ℤ pos 1 ≡ pos k
      → k ≤ length rf.log
      → accept_entries args rf ≡ some rf'
      → (merged k args.entries rf.log ≡ some rf'.log)
        × (rf'.committed_index ≡ next_commit args rf'.log rf.committed_index)
        × (rf'.current_term ≡ rf.current_term)
        × (rf'.state ≡ rf.state)
  unfolding accept_entries
  accept_entries-fields args k rf rf' next fits h =
      let (log, e, rest) = bind-some (merge_entries args.prev_log_index args.entries rf.log) _ h in
      let same = start_apply_logs-frame _ rf' rest in
      (
        sym (merge_entries-merged args.prev_log_index k args.entries rf.log next fits)
            ∙ e
            ∙ ap (λ r. some r.log) (sym same),
        ap (λ r. r.committed_index) same
            ∙ ap (λ r. next_commit args r.log rf.committed_index) (sym same),
        ap (λ r. r.current_term) same,
        ap (λ r. r.state) same,
      )
