-- ===== src/Raft/Peer/Terms.antt =====
-- What the steps of a peer that apply no entry keep, and that its term never falls.
use unique_freshman.Prelude.{ℕ, ◌≡◌, ap, ◌≤ℤ◌, bind-some, Option, none, some, arith}
use unique_freshman.Raft.Types.{
  Raft, RequestVoteArgs, RequestVoteReply, AppendEntriesArgs, AppendEntriesReply,
}
use unique_freshman.Raft.Gob.{Gob}
use unique_freshman.Raft.State.{Channel, crowd, kill, convert_to_follower}
use unique_freshman.Raft.State.Restart.{IsSaved, make-copy}
use unique_freshman.Raft.Vote.{request_vote}
use unique_freshman.Raft.Vote.Decide.{request_vote-term}
use unique_freshman.Raft.Append.{append_entries, accept_entries, answer_append, merge_entries}
use unique_freshman.Raft.Append.Accept.{entered, entered-fields, append_entries-inv}
use unique_freshman.Raft.Apply.Order.{start_apply_logs-frame}
use unique_freshman.Raft.Leader.{SortInts}
use unique_freshman.Raft.Leader.Frame.{
  Replied, unchanged, outdated, backed_up, advanced, append_reply-Replied,
}
use unique_freshman.Raft.Election.{vote_reply}
use unique_freshman.Raft.Client.{start}
use unique_freshman.Raft.HeartBeat.{
  Event, Wait, begin_round, wake, electing, following, vote_token, beat_token, leader_token, tick,
}
use unique_freshman.Raft.Peer.{
  Step, StaysUp, asked, told, vote_came, answer_came, submitted, round_began, woke, was_killed,
  crowded, restarted,
}

module _ {Bytes Command : Type 0} where
  -- A step that neither commits nor sends anything to the service.
  pub record IsQuiet (rf rf' : Raft Bytes Command) : Type 0 where
    pub grows : rf.current_term ≤ℤ rf'.current_term
    pub sent : rf'.apply_ch ≡ rf.apply_ch
    pub applied : rf'.last_applied ≡ rf.last_applied
    pub committed : rf'.committed_index ≡ rf.committed_index

module _ {Bytes Command : Type 0} ⦃gob : Gob Bytes Command⦄ where
  pub request_vote-IsQuiet :
      (args : RequestVoteArgs) (rf : Raft Bytes Command) {rf' : Raft Bytes Command}
      {reply : RequestVoteReply}
      → request_vote args rf ≡ some (rf', reply)
      → IsQuiet rf rf'
  request_vote-IsQuiet args rf h = ground (arith, request_vote-term args rf h)

  pub vote_reply-IsQuiet :
      (args : RequestVoteArgs) (reply : Option RequestVoteReply) (n_leader : ℕ)
      (rf : Raft Bytes Command)
      → IsQuiet rf (vote_reply args reply n_leader rf).0
  unfolding vote_reply
  vote_reply-IsQuiet args none n_leader rf = ground arith
  vote_reply-IsQuiet args (some reply) n_leader rf = ground arith

  pub start-IsQuiet :
      (command : Command) (rf : Raft Bytes Command) → IsQuiet rf (start command rf).0
  unfolding start
  start-IsQuiet command rf = ground arith

  pub begin_round-IsQuiet :
      (draw : ℕ) (rf : Raft Bytes Command) → IsQuiet rf (begin_round draw rf).0
  unfolding begin_round
  begin_round-IsQuiet draw rf = ground arith

  pub wake-IsQuiet :
      (event : Event) (wait : Wait) (rf rf' : Raft Bytes Command)
      → wake event wait rf ≡ some rf'
      → IsQuiet rf rf'
  unfolding wake
  wake-IsQuiet beat_token electing rf rf' h = ground arith
  wake-IsQuiet leader_token electing rf rf' h = ground arith
  wake-IsQuiet (tick draw) electing rf rf' h = ground arith
  wake-IsQuiet vote_token following rf rf' h = ground arith
  wake-IsQuiet beat_token following rf rf' h = ground arith
  wake-IsQuiet (tick draw) following rf rf' h = ground arith
  wake-IsQuiet _ _ rf rf' h = ground arith

  pub kill-IsQuiet : (rf : Raft Bytes Command) → IsQuiet rf (kill rf)
  unfolding kill
  kill-IsQuiet rf = ground arith

  pub crowd-IsQuiet : (ch : Channel) (rf : Raft Bytes Command) → IsQuiet rf (crowd ch rf)
  unfolding crowd
  crowd-IsQuiet ch rf = ground arith

  accept_entries-term :
      (args : AppendEntriesArgs Command) (rf rf' : Raft Bytes Command)
      → accept_entries args rf ≡ some rf'
      → rf'.current_term ≡ rf.current_term
  unfolding accept_entries
  accept_entries-term args rf rf' h =
      let (log, _, rest) = bind-some (merge_entries args.prev_log_index args.entries rf.log) _ h in
      ap (λ r. r.current_term) (start_apply_logs-frame _ rf' rest)

  append_entries-grows :
      (args : AppendEntriesArgs Command) (rf : Raft Bytes Command) {rf' : Raft Bytes Command}
      {reply : AppendEntriesReply}
      → append_entries args rf ≡ some (rf', reply)
      → rf.current_term ≤ℤ rf'.current_term
  unfolding answer_append
  append_entries-grows args rf {rf'} {reply} h =
      let (_, rf'', done, last) = append_entries-inv args rf rf' reply h in
      ground (arith, accept_entries-term args (entered args rf) rf'', entered-fields args rf)

  Replied-grows :
      {rf rf' : Raft Bytes Command} → Replied rf rf' → rf.current_term ≤ℤ rf'.current_term
  unfolding convert_to_follower
  Replied-grows (unchanged e) = ground arith
  Replied-grows (outdated t late e) = ground arith
  Replied-grows (backed_up ns size e) = ground arith
  Replied-grows (advanced ms ns c size size' up h) =
      let e = start_apply_logs-frame _ _ h in ground (arith, e)

module _ {Bytes Command : Type 0} ⦃gob : Gob Bytes Command⦄ (sort : SortInts) where
  -- Where each handler runs without another in between, which the source does not see to for
  -- `RequestVote`: no step lowers the term of a peer, as long as it is not started anew.
  pub Step-grows_up :
      {rf rf' : Raft Bytes Command} (st : Step sort rf rf')
      → StaysUp sort st
      → rf.current_term ≤ℤ rf'.current_term
  Step-grows_up (asked args reply h) up = (request_vote-IsQuiet args _ h).grows
  Step-grows_up (told args reply h) up = append_entries-grows args _ h
  Step-grows_up {rf} (vote_came args reply n e) up =
      rw (← e) (vote_reply-IsQuiet args reply n rf).grows
  Step-grows_up {rf} {rf'} (answer_came j args reply then_do h) up =
      Replied-grows (append_reply-Replied sort j args reply rf rf' then_do h)
  Step-grows_up {rf} (submitted command e) up = rw (← e) (start-IsQuiet command rf).grows
  Step-grows_up {rf} (round_began draw e) up = rw (← e) (begin_round-IsQuiet draw rf).grows
  Step-grows_up {rf} {rf'} (woke event wait h) up = (wake-IsQuiet event wait rf rf' h).grows
  Step-grows_up {rf} (was_killed e) up = rw (← e) (kill-IsQuiet rf).grows
  Step-grows_up {rf} (crowded ch e) up = rw (← e) (crowd-IsQuiet ch rf).grows
  Step-grows_up (restarted draw e) up = elim up [ ]

  -- A new start does not lower it either, if what has been written is what the peer knows.
  pub Step-grows :
      {rf rf' : Raft Bytes Command}
      → Step sort rf rf'
      → IsSaved rf
      → rf.current_term ≤ℤ rf'.current_term
  Step-grows (asked args reply h) d = Step-grows_up (asked args reply h) tt
  Step-grows (told args reply h) d = Step-grows_up (told args reply h) tt
  Step-grows (vote_came args reply n e) d = Step-grows_up (vote_came args reply n e) tt
  Step-grows (answer_came j args reply then_do h) d =
      Step-grows_up (answer_came j args reply then_do h) tt
  Step-grows (submitted command e) d = Step-grows_up (submitted command e) tt
  Step-grows (round_began draw e) d = Step-grows_up (round_began draw e) tt
  Step-grows (woke event wait h) d = Step-grows_up (woke event wait h) tt
  Step-grows (was_killed e) d = Step-grows_up (was_killed e) tt
  Step-grows (crowded ch e) d = Step-grows_up (crowded ch e) tt
  Step-grows {rf} (restarted draw e) d = rw (← e, make-copy rf draw d) (omega arith)
