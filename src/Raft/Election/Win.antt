-- ===== src/Raft/Election/Win.antt =====
-- When a reply makes a candidate the leader.
use unique_freshman.Prelude.{
  ℕ, ◌≡◌, ◌≢◌, refl, ◌⊎◌, inl, inr, pos, minus_one, ◌+ℤ◌, ◌<ℤ◌, ◌≤ℤ◌, true, Option, none, some,
  length_ℤ, replicate, arith,
}
use unique_freshman.Raft.Types.{
  Raft, Role, RequestVoteArgs, RequestVoteReply, follower, candidate, leader,
}
use unique_freshman.Raft.Gob.{Gob}
use unique_freshman.Raft.Election.{vote_reply}

role-cases : (s : Role) → (s ≡ candidate) ⊎ (s ≢ candidate)
role-cases candidate = inl refl
role-cases follower = inr (ground arith)
role-cases leader = inr (ground arith)

module _ {Bytes Command : Type 0} ⦃gob : Gob Bytes Command⦄ where
  -- What a reply must be to make a leader, and what the leader starts with.
  pub record IsWin (args : RequestVoteArgs) (r : RequestVoteReply) (n : ℕ)
      (rf rf' : Raft Bytes Command) : Type 0 where
    pub asked_as : rf.state ≡ candidate
    pub first : n ≡ 0
    pub granted : r.vote_granted ≡ true
    pub not_late : r.term ≤ℤ rf.current_term
    pub same_term : args.term ≡ rf.current_term
    pub counted : rf'.vote_granted ≡ rf.vote_granted +ℤ pos 1
    pub majority : pos rf.peers <ℤ rf'.vote_granted +ℤ rf'.vote_granted
    pub kept_term : rf'.current_term ≡ rf.current_term
    pub kept_log : rf'.log ≡ rf.log
    pub next : rf'.next_index ≡ replicate rf.peers (length_ℤ rf.log)
    pub match : rf'.match_index ≡ replicate rf.peers minus_one

  counted-IsWin :
      (args : RequestVoteArgs) (r : RequestVoteReply) (n : ℕ) (rf : Raft Bytes Command)
      {rf' : Raft Bytes Command} {n' : ℕ}
      → vote_reply args (some r) n rf ≡ (rf', n')
      → rf'.state ≡ leader
      → rf.state ≡ candidate
      → (n' ≡ 1) × IsWin args r n rf rf'
  unfolding vote_reply
  counted-IsWin args r n rf h leads cand = (
    ground arith,
    record {
      asked_as = cand;
      first = ground arith;
      granted = ground arith;
      not_late = ground arith;
      same_term = ground arith;
      counted = ground arith;
      majority = ground arith;
      kept_term = ground arith;
      kept_log = ground arith;
      next = ground arith;
      match = ground arith;
    },
  )

  no_win :
      (args : RequestVoteArgs) (r : RequestVoteReply) (n : ℕ) (rf : Raft Bytes Command)
      {rf' : Raft Bytes Command} {n' : ℕ}
      → vote_reply args (some r) n rf ≡ (rf', n')
      → rf'.state ≡ leader
      → rf.state ≢ candidate
      → (rf.state ≡ leader) × (rf' ≡ rf) × (n' ≡ n)
  unfolding vote_reply
  no_win args r n rf h leads other = ground arith

  -- If a peer leads after a reply, it has led before and the reply has changed nothing, or the
  -- reply is a granted vote for a candidate in the term of its request: the first one of the call with
  -- which its votes are more than half of the peers. The new leader keeps its term and its log, sets
  -- each `nextIndex` to the end of that log and each `matchIndex` to -1.
  pub vote_reply-IsWin :
      (args : RequestVoteArgs) (reply : Option RequestVoteReply) (n : ℕ) (rf : Raft Bytes Command)
      {rf' : Raft Bytes Command} {n' : ℕ}
      → vote_reply args reply n rf ≡ (rf', n')
      → rf'.state ≡ leader
      → ((rf.state ≡ leader) × (rf' ≡ rf) × (n' ≡ n))
        ⊎ ((n' ≡ 1) × (r : RequestVoteReply) × (reply ≡ some r) × IsWin args r n rf rf')
  unfolding vote_reply
  vote_reply-IsWin args none n rf h leads = inl (ground arith)
  vote_reply-IsWin args (some r) n rf h leads = elim (role-cases rf.state) [
    | inl cand ↦ let (one, win) = counted-IsWin args r n rf h leads cand in inr (one, r, refl, win)
    | inr other ↦ inl (no_win args r n rf h leads other)
  ]
