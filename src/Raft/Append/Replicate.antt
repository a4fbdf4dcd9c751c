-- ===== src/Raft/Append/Replicate.antt =====
-- What the handler `AppendEntries` does to the log and to `committedIndex`.
use unique_freshman.Prelude.{
  ℕ, zero, suc, ◌+◌, ◌≤◌, ◌≡◌, ◌≢◌, ◌↔◌, ◌⊎◌, inl, inr, pos, ◌+ℤ◌, ◌≤ℤ◌, ◌<ℤ◌, ltb_ℤ, true, false,
  List, some, if◌then◌else◌, length, length_ℤ, take, drop, arith, Bool-cases, Option-cases, ◌++◌,
  [], +ℤ_parts, length-append, length-take, take-append, append-nil,
}
use unique_freshman.Raft.Types.{LogEntry, Raft, AppendEntriesArgs, AppendEntriesReply}
use unique_freshman.Raft.Gob.{Gob}
use unique_freshman.Raft.Append.{append_entries, answer_append, next_commit}
use unique_freshman.Raft.Append.Check.{PrevMatches, check_prev_iff}
use unique_freshman.Raft.Append.Merge.{merged, first_conflict, parts_of_next}
use unique_freshman.Raft.Append.Accept.{
  entered, append_entries-inv, entered-fields, accept_entries-fields,
}

module _ {Command : Type 0} where
  merged-stored :
      (k : ℕ) (es log log' : List (LogEntry Command))
      → k ≤ length log
      → first_conflict (drop k log) es ≢ some 0
      → merged k es log ≡ some log'
      → (take (k + length es) log' ≡ take k log ++ es) × (k + length es ≤ length log')
  merged-stored k es log log' fits clean h = elim (Option-cases (first_conflict (drop k log) es)) [
    | inl agree ↦ stored (drop (length es) (drop k log)) (ground (arith, agree))
    | inr (zero, first) ↦ absurd (clean first)
    | inr (suc d, later) ↦ stored [] (ground (arith, later, append-nil (take k log ++ es)))
  ]
    where
      size : length (take k log ++ es) ≡ k + length es
      size = omega (arith, length-append (take k log) es, length-take k log)

      stored :
          (rest : List (LogEntry Command))
          → log' ≡ take k log ++ es ++ rest
          → (take (k + length es) log' ≡ take k log ++ es) × (k + length es ≤ length log')
      stored rest e = rw e (
        take-append (take k log ++ es) rest (k + length es) size,
        omega (arith, size, length-append (take k log ++ es) rest),
      )

  merged-lost :
      (p : ℕ) (es log log' : List (LogEntry Command))
      → suc p ≤ length log
      → first_conflict (drop (suc p) log) es ≡ some 0
      → merged (suc p) es log ≡ some log'
      → (log' ≡ take p log) × (length log' ≡ p)
  merged-lost p es log log' fits first h =
      let cut : log' ≡ take p log = ground (arith, first) in
      (cut, rw cut (omega (arith, length-take p log)))

module _ {Bytes Command : Type 0} ⦃gob : Gob Bytes Command⦄ (args : AppendEntriesArgs Command)
    (k : ℕ) (rf : Raft Bytes Command) {rf' : Raft Bytes Command} {reply : AppendEntriesReply}
    (next : args.prev_log_index +ℤ pos 1 ≡ pos k)
    (ran : append_entries args rf ≡ some (rf', reply)) where
  -- The handler's check, on the peer that has entered the term.
  checked :
      (reply.term ≡ (entered args rf).current_term)
      × ((reply.success ≡ true) ↔ (
          ((entered args rf).current_term ≤ℤ args.term)
          × (k ≤ length (entered args rf).log)
          × PrevMatches k args.prev_log_term (entered args rf).log))
  checked =
      check_prev_iff args (entered args rf).current_term (entered args rf).log k reply next
        (append_entries-inv args rf rf' reply ran).0

  fits : reply.success ≡ true → k ≤ length (entered args rf).log
  fits h = (checked.1.0 h).1

  checked_fits : reply.success ≡ true → k ≤ length rf.log
  checked_fits h = ground (arith, fits h, entered-fields args rf)

  on_success :
      reply.success ≡ true
      → (merged k args.entries (entered args rf).log ≡ some rf'.log)
        × (rf'.committed_index ≡ next_commit args rf'.log (entered args rf).committed_index)
        × (rf'.current_term ≡ (entered args rf).current_term)
  unfolding answer_append
  on_success h =
      let (_, rf'', done, last) = append_entries-inv args rf rf' reply ran in
      let fields =
        accept_entries-fields args k (entered args rf) rf'' next (fits h) (ground arith) in
      ground (arith, fields)

  on_refusal :
      reply.success ≡ false
      → (rf'.log ≡ (entered args rf).log)
        × (rf'.committed_index ≡ (entered args rf).committed_index)
        × (rf'.last_applied ≡ (entered args rf).last_applied)
        × (rf'.apply_ch ≡ (entered args rf).apply_ch)
        × (rf'.current_term ≡ (entered args rf).current_term)
  unfolding answer_append
  on_refusal h =
      let (_, rf'', done, last) = append_entries-inv args rf rf' reply ran in ground arith

  kept_term : rf'.current_term ≡ (entered args rf).current_term
  kept_term = elim (Bool-cases reply.success) [
    | inl h ↦ (on_success h).2
    | inr h ↦ (on_refusal h).4
  ]

  -- The entries of the request begin at index `k`. The reply tells the peer's new term, the larger
  -- of the two, and success exactly when the request's term is not behind and the log holds an entry
  -- of the request's term before index `k`, or `k` is 0.
  pub append_entries-success :
      (reply.term ≡ rf'.current_term)
      × (rf'.current_term
          ≡ (if ltb_ℤ rf.current_term args.term then args.term else rf.current_term))
      × ((reply.success ≡ true) ↔ (
          (rf.current_term ≤ℤ args.term)
          × (k ≤ length rf.log)
          × PrevMatches k args.prev_log_term rf.log))
  append_entries-success = ground (arith, checked, kept_term, entered-fields args rf)

  -- On success the log becomes what `merged` makes of it, and `committedIndex` follows that log.
  pub merged_on_success :
      reply.success ≡ true
      → (merged k args.entries rf.log ≡ some rf'.log)
        × (rf'.committed_index ≡ next_commit args rf'.log rf.committed_index)
  merged_on_success h = ground (arith, on_success h, entered-fields args rf)

  -- The entries of the request begin at index `k`. A refused request changes neither the log nor
  -- what is committed, applied or sent to the service.
  pub refusal_keeps :
      reply.success ≡ false
      → (rf'.log ≡ rf.log)
        × (rf'.committed_index ≡ rf.committed_index)
        × (rf'.last_applied ≡ rf.last_applied)
        × (rf'.apply_ch ≡ rf.apply_ch)
  refusal_keeps refused = ground (arith, on_refusal refused, entered-fields args rf)

  -- The entries of the request begin at index `k`. On success, unless the first of them conflicts
  -- with the log, the log is below index `k` as it was before, and from there on it holds the
  -- entries of the request.
  pub entries_stored :
      reply.success ≡ true
      → first_conflict (drop k rf.log) args.entries ≢ some 0
      → (take (k + length args.entries) rf'.log ≡ take k rf.log ++ args.entries)
        × (k + length args.entries ≤ length rf'.log)
  entries_stored h clean =
      merged-stored k args.entries rf.log rf'.log (checked_fits h) clean (merged_on_success h).0

  -- The entries of the request begin at index `k`, which is `p + 1`. On success, if the first of them
  -- is of another term than the entry of the log at that index, the log is cut one entry too early:
  -- the entry before that index goes too, and not one entry of the request is stored.
  pub entries_lost :
      (p : ℕ)
      → k ≡ suc p
      → reply.success ≡ true
      → first_conflict (drop k rf.log) args.entries ≡ some 0
      → (rf'.log ≡ take p rf.log) × (length rf'.log ≡ p)
  entries_lost p at_p h first =
      merged-lost p args.entries rf.log rf'.log (rw at_p at (checked_fits h)) (rw at_p at first)
        (rw at_p at (merged_on_success h).0)

  -- The entries of the request begin at index `k`, and `LeaderCommit` is not beyond the last of them.
  -- On success, unless the first of them conflicts with the log, `committedIndex` rises to
  -- `LeaderCommit`, or stays where it is that far already; it stays, or is below the length of the
  -- log.
  pub commit_rises :
      reply.success ≡ true
      → first_conflict (drop k rf.log) args.entries ≢ some 0
      → args.leader_commit ≤ℤ args.prev_log_index +ℤ length_ℤ args.entries
      → (rf'.committed_index ≡ (
          if ltb_ℤ rf.committed_index args.leader_commit
          then args.leader_commit
          else rf.committed_index))
        × ((rf'.committed_index ≡ rf.committed_index) ⊎ (rf'.committed_index <ℤ length_ℤ rf'.log))
  unfolding next_commit
  commit_rises h clean known = ground (
    arith,
    (merged_on_success h).1,
    (entries_stored h clean).1,
    parts_of_next args.prev_log_index k next,
    +ℤ_parts args.prev_log_index (length_ℤ args.entries),
  )
