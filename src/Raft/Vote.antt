-- ===== src/Raft/Vote.antt =====
-- The RPC handler `RequestVote` of Task5/raft/raft.go. It takes no lock in the source; here it runs
-- without interruption, and in Raft/Race statement by statement.
pub mod Newer
pub mod Decide
use unique_freshman.Prelude.{
  ℤ, pos, minus_one, ◌+ℤ◌, ◌-ℤ◌, ltb_ℤ, leb_ℤ, eqb_ℤ, Bool, true, false, ◌&&◌, ◌||◌, List, Option,
  some, ◌>>=◌, if◌then◌else◌, length, length_ℤ, at, ◌==◌,
}
use unique_freshman.Raft.Types.{
  LogEntry, Raft, RequestVoteArgs, RequestVoteReply, follower, candidate, leader,
}
use unique_freshman.Raft.Gob.{Gob}
use unique_freshman.Raft.State.{persist, convert_to_follower, notify}

-- The local `newer`: the candidate's log is not behind `log`.
unfoldable pub is_newer :
    {Command : Type 0} → RequestVoteArgs → List (LogEntry Command) → Option Bool
is_newer args log =
    if length log == 0
    then some true
    else (at log (length_ℤ log -ℤ pos 1) >>= λ last.
        if ltb_ℤ last.term args.last_log_term
        then some true
        else some (
            eqb_ℤ args.last_log_term last.term
            && leb_ℤ (length_ℤ log) (args.last_log_index +ℤ pos 1)))

module _ {Bytes Command : Type 0} ⦃gob : Gob Bytes Command⦄ where
  -- A request of a later term moves the peer to that term.
  unfoldable pub enter_term : ℤ → ℤ → Raft Bytes Command → Raft Bytes Command
  unfolding convert_to_follower
  enter_term term vote_for rf =
      let rf' : Raft Bytes Command = record rf { current_term = term } in
      elim rf.state [
        | follower ↦ rf'
        | candidate ↦ convert_to_follower term vote_for rf'
        | leader ↦ convert_to_follower term vote_for rf'
      ]

  -- The end of the handler: the reply, `persist` and the notification of a vote.
  unfoldable pub answer_vote : Bool → Raft Bytes Command → Raft Bytes Command × RequestVoteReply
  unfolding persist
  answer_vote granted rf =
      let reply : RequestVoteReply = record { term = rf.current_term; vote_granted = granted } in
      let rf' = persist rf in
      if granted
      then (record rf' { grant_vote_ch = notify rf'.grant_vote_ch }, reply)
      else (rf', reply)

  -- The handler once `newer` is known.
  unfoldable pub decide_vote :
      RequestVoteArgs → Bool → Raft Bytes Command → Raft Bytes Command × RequestVoteReply
  unfolding enter_term answer_vote
  decide_vote args newer rf =
      let granted =
        newer && (eqb_ℤ rf.voted_for minus_one || eqb_ℤ rf.voted_for args.candidate_id) in
      let voted_for = if granted then args.candidate_id else minus_one in
      let rf' : Raft Bytes Command = record rf { voted_for = voted_for } in
      if ltb_ℤ args.term rf.current_term
      then answer_vote false rf'
      else (if ltb_ℤ rf.current_term args.term
          then answer_vote granted (enter_term args.term voted_for rf')
          else answer_vote granted rf')

  unfoldable pub request_vote :
      RequestVoteArgs → Raft Bytes Command → Option (Raft Bytes Command × RequestVoteReply)
  unfolding is_newer decide_vote
  request_vote args rf =
      let rf' : Raft Bytes Command = record rf {
        voted_for = if ltb_ℤ rf.current_term args.term then minus_one else rf.voted_for;
      } in
      is_newer args rf'.log >>= λ newer. some (decide_vote args newer rf')
