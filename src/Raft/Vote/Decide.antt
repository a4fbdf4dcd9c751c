-- ===== src/Raft/Vote/Decide.antt =====
-- What `RequestVote` does to a peer, on every branch.
use unique_freshman.Prelude.{
  ◌≡◌, ◌≢◌, ◌∙◌, ◌↔◌, ◌⊎◌, inl, inr, minus_one, ◌<ℤ◌, ◌≤ℤ◌, ltb_ℤ, true, false, some, arith,
  if◌then◌else◌, Option-some,
}
use unique_freshman.Raft.Types.{Raft, RequestVoteArgs, RequestVoteReply, follower}
use unique_freshman.Raft.Gob.{Gob}
use unique_freshman.Raft.Vote.Newer.{is_newer-ne-none}
use unique_freshman.Raft.Vote.{is_newer, request_vote, decide_vote}

module _ {Bytes Command : Type 0} ⦃gob : Gob Bytes Command⦄ where
  request_vote_total :
      (args : RequestVoteArgs) (rf : Raft Bytes Command)
      → (out : Raft Bytes Command × RequestVoteReply) × (request_vote args rf ≡ some out)
  unfolding request_vote
  request_vote_total args rf =
      let (newer, e) = Option-some (is_newer args rf.log) (is_newer-ne-none args rf.log) in
      Option-some (request_vote args rf) (ground (arith, e))

  granted_iff :
      (args : RequestVoteArgs) (rf : Raft Bytes Command) {rf' : Raft Bytes Command}
      {reply : RequestVoteReply}
      → request_vote args rf ≡ some (rf', reply)
      → (reply.vote_granted ≡ true) ↔ (
          (is_newer args rf.log ≡ some true)
          × (rf.current_term ≤ℤ args.term)
          × ((rf.current_term <ℤ args.term)
              ⊎ (rf.voted_for ≡ minus_one)
              ⊎ (rf.voted_for ≡ args.candidate_id)))
  unfolding decide_vote request_vote
  granted_iff args rf h = ground arith

  -- The handler answers every request without a panic. It grants the vote exactly when the
  -- candidate's log is not behind, its term is not behind, and the peer's vote is free: the term is
  -- later, or the peer has voted for nobody or for this candidate.
  pub request_vote-grants :
      (args : RequestVoteArgs) (rf : Raft Bytes Command)
      → (out : Raft Bytes Command × RequestVoteReply) × (request_vote args rf ≡ some out)
        × ((out.1.vote_granted ≡ true) ↔ (
            (is_newer args rf.log ≡ some true)
            × (rf.current_term ≤ℤ args.term)
            × ((rf.current_term <ℤ args.term)
                ⊎ (rf.voted_for ≡ minus_one)
                ⊎ (rf.voted_for ≡ args.candidate_id))))
  request_vote-grants args rf =
      let (out, e) = request_vote_total args rf in (out, e, granted_iff args rf e)

  -- The peer's term becomes the larger of the two, and the reply tells it; a later term makes a
  -- follower, an earlier one or the same leaves the role. A granted vote is kept as `votedFor`, in
  -- the candidate's term. The log, what is committed and what is applied stay.
  pub request_vote-term :
      (args : RequestVoteArgs) (rf : Raft Bytes Command) {rf' : Raft Bytes Command}
      {reply : RequestVoteReply}
      → request_vote args rf ≡ some (rf', reply)
      → (reply.term ≡ rf'.current_term)
        × (rf'.current_term
            ≡ (if ltb_ℤ rf.current_term args.term then args.term else rf.current_term))
        × (rf'.state ≡ (if ltb_ℤ rf.current_term args.term then follower else rf.state))
        × (reply.vote_granted ≡ true
            → (rf'.voted_for ≡ args.candidate_id) × (rf'.current_term ≡ args.term))
        × (rf'.log ≡ rf.log)
        × (rf'.committed_index ≡ rf.committed_index)
        × (rf'.last_applied ≡ rf.last_applied)
        × (rf'.apply_ch ≡ rf.apply_ch)
  unfolding decide_vote request_vote
  request_vote-term args rf h = ground arith

  -- Right after a vote for one candidate, whose id is not -1, a request of another one in the same
  -- term is refused.
  pub request_vote_exclusive :
      (a b : RequestVoteArgs) (rf : Raft Bytes Command) {rf' rf'' : Raft Bytes Command}
      {first second : RequestVoteReply}
      → a.candidate_id ≢ minus_one
      → a.candidate_id ≢ b.candidate_id
      → a.term ≡ b.term
      → request_vote a rf ≡ some (rf', first)
      → first.vote_granted ≡ true
      → request_vote b rf' ≡ some (rf'', second)
      → second.vote_granted ≡ false
  request_vote_exclusive a b rf {rf'} valid other same h granted k =
      ground (arith, request_vote-term a rf h, granted_iff a rf h, granted_iff b rf' k)

  -- A refusal in the peer's own term clears its vote.
  request_vote_forgets :
      (b : RequestVoteArgs) (rf : Raft Bytes Command) {rf' : Raft Bytes Command}
      {reply : RequestVoteReply}
      → b.term ≡ rf.current_term
      → reply.vote_granted ≡ false
      → request_vote b rf ≡ some (rf', reply)
      → (rf'.voted_for ≡ minus_one) × (rf'.current_term ≡ b.term) × (rf'.log ≡ rf.log)
  unfolding decide_vote request_vote
  request_vote_forgets b rf same refused h = ground arith

  -- A peer that has voted for one candidate and is asked twice by another one of the same term, with
  -- a log that is not behind, refuses the first request, forgets its vote, and grants the second:
  -- it votes for two candidates in one term.
  pub request_vote_twice :
      (b : RequestVoteArgs) (rf : Raft Bytes Command)
      → is_newer b rf.log ≡ some true
      → b.term ≡ rf.current_term
      → rf.voted_for ≢ minus_one
      → rf.voted_for ≢ b.candidate_id
      → (rf' rf'' : Raft Bytes Command) × (first second : RequestVoteReply) × (request_vote b rf
          ≡ some (rf', first))
        × (first.vote_granted ≡ false)
        × (request_vote b rf' ≡ some (rf'', second))
        × (second.vote_granted ≡ true)
        × (rf''.current_term ≡ rf.current_term)
        × (rf''.voted_for ≡ b.candidate_id)
  request_vote_twice b rf newer same voted other =
      let ((rf', first), e) = request_vote_total b rf in
      let ((rf'', second), e') = request_vote_total b rf' in
      let refused : first.vote_granted ≡ false = ground (arith, granted_iff b rf e) in
      let (free, term, log) = request_vote_forgets b rf same refused e in
      let granted : second.vote_granted ≡ true =
        (granted_iff b rf' e').1 (rw log newer, ground arith, inr (inl free)) in
      let kept = (request_vote-term b rf' e').3 granted in
      (rf', rf'', first, second, e, refused, e', granted, kept.1 ∙ same, kept.0)
