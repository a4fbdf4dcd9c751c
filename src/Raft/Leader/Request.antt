-- ===== src/Raft/Leader/Request.antt =====
-- The request that a leader makes for a peer, and what it brings about there.
use unique_freshman.Prelude.{
  ℕ, zero, suc, ◌+◌, ◌≤◌, ◌≡◌, ◌≢◌, refl, ap, ap₂, subst, ◌∙◌, ℤ, pos, minus_one, ◌+ℤ◌, ◌-ℤ◌, true,
  ◌++◌, some, length, at, get_elem?-lt, take, drop, arith, int_laws, eq_of_parts, take-append-drop,
  length-drop,
}
use unique_freshman.Raft.Types.{Raft, AppendEntriesArgs, AppendEntriesReply, leader}
use unique_freshman.Raft.Gob.{Gob}
use unique_freshman.Raft.Append.{append_entries}
use unique_freshman.Raft.Append.Check.{PrevMatches}
use unique_freshman.Raft.Append.Merge.{first_conflict}
use unique_freshman.Raft.Append.Replicate.{entries_stored}
use unique_freshman.Raft.Leader.{append_args}

module _ {Bytes Command : Type 0} where
  -- What a request says, if its entries begin at index `k` of the leader's log.
  pub record IsRequest (rf : Raft Bytes Command) (k : ℕ) (args : AppendEntriesArgs Command)
      : Type 0 where
    pub next : args.prev_log_index +ℤ pos 1 ≡ pos k
    pub suffix : args.entries ≡ drop k rf.log
    pub prev : PrevMatches k args.prev_log_term rf.log
    pub fresh : args.term ≡ rf.current_term
    pub commit : args.leader_commit ≡ rf.committed_index

  abbrev request : ℕ → ℤ → ℤ → Raft Bytes Command → AppendEntriesArgs Command
  request k prev prev_term rf = record {
    term = rf.current_term;
    leader_id = pos rf.me;
    prev_log_index = prev;
    prev_log_term = prev_term;
    entries = drop k rf.log;
    leader_commit = rf.committed_index;
  }

  -- A leader whose `nextIndex` for the peer is `k`, inside the log or at its end, makes a request
  -- without a panic: it holds all entries from index `k` on, the term before them, and the leader's
  -- term and commit index.
  pub append_args-IsRequest :
      (j k : ℕ) (rf : Raft Bytes Command)
      → rf.state ≡ leader
      → at rf.next_index (pos j) ≡ some (pos k)
      → k ≤ length rf.log
      → (args : AppendEntriesArgs Command) × (append_args j rf ≡ some (some args))
        × IsRequest rf k args
  unfolding append_args
  append_args-IsRequest j zero rf leads at_j fits =
      let before : pos 0 -ℤ pos 1 ≡ minus_one = eq_of_parts _ _ (omega int_laws) in
      let next : minus_one +ℤ pos 1 ≡ pos 0 = eq_of_parts _ _ (omega int_laws) in
      (
        request 0 minus_one minus_one rf,
        ground (arith, before, next),
        record { next = next; suffix = refl; prev = tt; fresh = refl; commit = refl },
      )
  append_args-IsRequest j (suc p) rf leads at_j fits =
      let before : pos (suc p) -ℤ pos 1 ≡ pos p = eq_of_parts _ _ (omega int_laws) in
      let next : pos p +ℤ pos 1 ≡ pos (suc p) = eq_of_parts _ _ (omega int_laws) in
      let (e, found) = get_elem?-lt rf.log p fits in
      (
        request (suc p) (pos p) e.term rf,
        ground (arith, before, next, found),
        record { next = next; suffix = refl; prev = rw found refl; fresh = refl; commit = refl },
      )

  -- The same of any request that is made.
  pub IsRequest-of :
      (j k : ℕ) (rf : Raft Bytes Command) (args : AppendEntriesArgs Command)
      → rf.state ≡ leader
      → at rf.next_index (pos j) ≡ some (pos k)
      → k ≤ length rf.log
      → append_args j rf ≡ some (some args)
      → IsRequest rf k args
  IsRequest-of j k rf args leads at_j fits made =
      let (args', e, is) = append_args-IsRequest j k rf leads at_j fits in
      let same : args' ≡ args = cc in subst (IsRequest rf k) same is

module _ {Bytes Command : Type 0} ⦃gob : Gob Bytes Command⦄ where
  -- A leader makes a request with entries from index `k` on. A peer that agrees with it below that
  -- index and accepts the request has afterwards the whole log of the leader at the head of its own,
  -- unless the first entry sent conflicts with its log.
  pub append_args-append_entries :
      (j k : ℕ) (rf peer : Raft Bytes Command) (args : AppendEntriesArgs Command)
      {peer' : Raft Bytes Command} {reply : AppendEntriesReply}
      → rf.state ≡ leader
      → at rf.next_index (pos j) ≡ some (pos k)
      → k ≤ length rf.log
      → append_args j rf ≡ some (some args)
      → take k peer.log ≡ take k rf.log
      → first_conflict (drop k peer.log) (drop k rf.log) ≢ some 0
      → append_entries args peer ≡ some (peer', reply)
      → reply.success ≡ true
      → take (length rf.log) peer'.log ≡ rf.log
  append_args-append_entries j k rf peer args leads at_j fits made agree clean ran h =
      let is = IsRequest-of j k rf args leads at_j fits made in
      let size : k + length args.entries ≡ length rf.log =
        ap (λ es. k + length es) is.suffix ∙ omega (arith, length-drop k rf.log) in
      let clean' : first_conflict (drop k peer.log) args.entries ≢ some 0 = rw is.suffix clean in
      rw size at (entries_stored args k peer is.next ran h clean').0
      ∙ ap₂ (λ a b. a ++ b) agree is.suffix
      ∙ take-append-drop k rf.log
