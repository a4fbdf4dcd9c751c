-- ===== src/Raft/Election.antt =====
-- A candidate asks for votes (Task5/raft/raft.go, `startRequestVote`): the request, and what a reply
-- does. `n_leader` is the local `nLeader`, which the goroutines of one call share.
pub mod Win
pub mod Poll
use unique_freshman.Prelude.{
  ℕ, suc, pos, minus_one, ◌+ℤ◌, ◌-ℤ◌, ltb_ℤ, leb_ℤ, eqb_ℤ, Bool, ◌&&◌, Option, none, some, ◌>>=◌,
  if◌then◌else◌, length_ℤ, at, ◌==◌,
}
use unique_freshman.Raft.Types.{
  Raft, RequestVoteArgs, RequestVoteReply, follower, candidate, leader,
}
use unique_freshman.Raft.Gob.{Gob}
use unique_freshman.Raft.State.{persist, convert_to_follower, convert_to_leader, notify}

module _ {Bytes Command : Type 0} where
  -- The request for every other peer; `some none` where this peer is no candidate any more.
  unfoldable pub vote_args : Raft Bytes Command → Option (Option RequestVoteArgs)
  vote_args rf = elim rf.state [
    | candidate ↦
        let last = length_ℤ rf.log -ℤ pos 1 in
        (if leb_ℤ (pos 0) last then (at rf.log last >>= λ e. some e.term) else some minus_one)
        >>= λ last_term. some (
            some (record {
              term = rf.current_term;
              candidate_id = pos rf.me;
              last_log_index = last;
              last_log_term = last_term;
            }))
    | follower ↦ some none
    | leader ↦ some none
  ]

  -- `voteGranted*2 > len(peers)`
  unfoldable pub has_majority : Raft Bytes Command → Bool
  has_majority rf = ltb_ℤ (pos rf.peers) (rf.vote_granted +ℤ rf.vote_granted)

module _ {Bytes Command : Type 0} ⦃gob : Gob Bytes Command⦄ where
  -- A vote is counted, and the first majority of the call makes a leader.
  unfoldable pub count_vote : ℕ → Raft Bytes Command → Raft Bytes Command × ℕ
  unfolding has_majority convert_to_leader
  count_vote n_leader rf =
      let rf' : Raft Bytes Command = record rf { vote_granted = rf.vote_granted +ℤ pos 1 } in
      let rf'' = convert_to_leader rf' in
      if n_leader == 0 && has_majority rf'
      then (record rf'' { leader_ch = notify rf''.leader_ch }, suc n_leader)
      else (rf', n_leader)

  -- The reply to the request `args`; `none` is a call that failed. The state test before the count
  -- makes the test for `Candidate` behind it true.
  unfoldable pub vote_reply :
      RequestVoteArgs → Option RequestVoteReply → ℕ → Raft Bytes Command → Raft Bytes Command × ℕ
  unfolding convert_to_follower count_vote persist
  vote_reply args none n_leader rf = (rf, n_leader)
  vote_reply args (some reply) n_leader rf =
      let (counted, n_leader') = count_vote n_leader rf in
      if ltb_ℤ rf.current_term reply.term
      then (convert_to_follower reply.term minus_one rf, n_leader)
      else (if eqb_ℤ rf.current_term args.term
          then elim rf.state [
            | candidate ↦ if reply.vote_granted then (persist counted, n_leader') else (
              persist (record rf { vote_not_granted = rf.vote_not_granted +ℤ pos 1 }),
              n_leader,
            )
            | follower ↦ (rf, n_leader)
            | leader ↦ (rf, n_leader)
          ]
          else (rf, n_leader))
