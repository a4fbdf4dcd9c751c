-- ===== src/Raft/Peer/Durable.antt =====
-- What a peer has written to stable storage is what it knows, after every step, where no write of the
-- state that takes no lock is overtaken by another (Raft/Peer/Stale has one that is).
use unique_freshman.Prelude.{ℕ, ◌≡◌, inl, inr, Option, none, some, arith, subst}
use unique_freshman.Persister.{copy}
use unique_freshman.Raft.Types.{
  Raft, RequestVoteArgs, RequestVoteReply, AppendEntriesArgs, AppendEntriesReply,
}
use unique_freshman.Raft.Gob.{Gob}
use unique_freshman.Raft.State.{Channel, crowd, make, kill, convert_to_follower}
use unique_freshman.Raft.State.Restart.{IsDurable, IsSaved, anew, make-copy, make-IsBlank}
use unique_freshman.Raft.Vote.{request_vote, decide_vote}
use unique_freshman.Raft.Append.{append_entries, answer_append}
use unique_freshman.Raft.Append.Accept.{append_entries-inv}
use unique_freshman.Raft.Apply.Order.{start_apply_logs-frame}
use unique_freshman.Raft.Leader.{SortInts}
use unique_freshman.Raft.Leader.Frame.{
  Replied, unchanged, outdated, backed_up, advanced, append_reply-Replied,
}
use unique_freshman.Raft.Election.{vote_reply}
use unique_freshman.Raft.Client.{start}
use unique_freshman.Raft.HeartBeat.{
  Wait, Event, begin_round, wake, electing, following, vote_token, beat_token, leader_token, tick,
}
use unique_freshman.Raft.Peer.{
  Step, Reach, asked, told, vote_came, answer_came, submitted, round_began, woke, was_killed,
  crowded, restarted, made, next,
}

module _ {Bytes Command : Type 0} ⦃gob : Gob Bytes Command⦄ where
  request_vote-IsDurable :
      (args : RequestVoteArgs) (rf : Raft Bytes Command) {rf' : Raft Bytes Command}
      {reply : RequestVoteReply}
      → request_vote args rf ≡ some (rf', reply)
      → IsDurable rf'
  unfolding request_vote decide_vote
  request_vote-IsDurable args rf h = ground arith

  pub append_entries-IsDurable :
      (args : AppendEntriesArgs Command) (rf : Raft Bytes Command) {rf' : Raft Bytes Command}
      {reply : AppendEntriesReply}
      → append_entries args rf ≡ some (rf', reply)
      → IsDurable rf'
  unfolding answer_append
  append_entries-IsDurable args rf {rf'} {reply} h =
      let (_, rf'', _, last) = append_entries-inv args rf rf' reply h in ground arith

  vote_reply-IsSaved :
      (args : RequestVoteArgs) (reply : Option RequestVoteReply) (n_leader : ℕ)
      (rf : Raft Bytes Command)
      → IsSaved rf
      → IsSaved (vote_reply args reply n_leader rf).0
  unfolding vote_reply
  vote_reply-IsSaved args none n_leader rf h = h
  vote_reply-IsSaved args (some reply) n_leader rf h = ground arith

  start-IsSaved :
      (command : Command) (rf : Raft Bytes Command) → IsSaved rf → IsSaved (start command rf).0
  unfolding start
  start-IsSaved command rf h = ground arith

  begin_round-IsSaved :
      (draw : ℕ) (rf : Raft Bytes Command) → IsSaved rf → IsSaved (begin_round draw rf).0
  unfolding begin_round
  begin_round-IsSaved draw rf h = ground arith

  wake-IsSaved :
      (event : Event) (wait : Wait) (rf rf' : Raft Bytes Command)
      → IsSaved rf
      → wake event wait rf ≡ some rf'
      → IsSaved rf'
  unfolding wake
  wake-IsSaved beat_token electing rf rf' d h = ground arith
  wake-IsSaved leader_token electing rf rf' d h = ground arith
  wake-IsSaved (tick draw) electing rf rf' d h = ground arith
  wake-IsSaved vote_token following rf rf' d h = ground arith
  wake-IsSaved beat_token following rf rf' d h = ground arith
  wake-IsSaved (tick draw) following rf rf' d h = ground arith
  wake-IsSaved _ _ rf rf' d h = ground arith

  Replied-IsSaved : {rf rf' : Raft Bytes Command} → Replied rf rf' → IsSaved rf → IsSaved rf'
  unfolding convert_to_follower
  Replied-IsSaved (unchanged e) d = ground arith
  Replied-IsSaved (outdated t late e) d = ground arith
  Replied-IsSaved (backed_up ns size e) d = ground arith
  Replied-IsSaved (advanced ms ns c size size' up h) d =
      let e = start_apply_logs-frame _ _ h in ground (arith, e)

  kill-IsSaved : (rf : Raft Bytes Command) → IsSaved rf → IsSaved (kill rf)
  unfolding kill
  kill-IsSaved rf (inl d) = inl d
  kill-IsSaved rf (inr b) = inr (ground arith)

  crowd-IsSaved : (ch : Channel) (rf : Raft Bytes Command) → IsSaved rf → IsSaved (crowd ch rf)
  unfolding crowd
  crowd-IsSaved ch rf (inl d) = inl d
  crowd-IsSaved ch rf (inr b) = inr (ground arith)

  anew-IsSaved : (draw : ℕ) (rf : Raft Bytes Command) → IsSaved rf → IsSaved (anew draw rf)
  anew-IsSaved draw rf (inl d) = inl d
  anew-IsSaved draw rf (inr b) = inr (ground arith)

  make-IsSaved :
      (draw : ℕ) (rf : Raft Bytes Command)
      → IsSaved rf
      → IsSaved {Bytes = Bytes} {Command = Command}
          (make rf.peers rf.me (copy gob.nil_bytes rf.persister) draw)
  make-IsSaved draw rf d = rw (make-copy rf draw d) (anew-IsSaved draw rf d)

module _ {Bytes Command : Type 0} ⦃gob : Gob Bytes Command⦄ (sort : SortInts) where
  pub Step-IsSaved : {rf rf' : Raft Bytes Command} → Step sort rf rf' → IsSaved rf → IsSaved rf'
  Step-IsSaved (asked args reply h) d = inl (request_vote-IsDurable args _ h)
  Step-IsSaved (told args reply h) d = inl (append_entries-IsDurable args _ h)
  Step-IsSaved {rf} (vote_came args reply n e) d =
      subst IsSaved e (vote_reply-IsSaved args reply n rf d)
  Step-IsSaved {rf} {rf'} (answer_came j args reply then_do h) d =
      Replied-IsSaved (append_reply-Replied sort j args reply rf rf' then_do h) d
  Step-IsSaved {rf} (submitted command e) d = subst IsSaved e (start-IsSaved command rf d)
  Step-IsSaved {rf} (round_began draw e) d = subst IsSaved e (begin_round-IsSaved draw rf d)
  Step-IsSaved {rf} {rf'} (woke event wait h) d = wake-IsSaved event wait rf rf' d h
  Step-IsSaved (was_killed e) d = subst IsSaved e (kill-IsSaved _ d)
  Step-IsSaved (crowded ch e) d = subst IsSaved e (crowd-IsSaved ch _ d)
  Step-IsSaved {rf} (restarted draw e) d = subst IsSaved e (make-IsSaved draw rf d)

  -- Where `RequestVote` and the write of the main loop are not interrupted, although they take no
  -- lock: whatever reaches a peer, what it has written is what it knows, or it has written nothing and
  -- knows nothing yet.
  pub Reach-IsSaved : (peers me : ℕ) {rf : Raft Bytes Command} → Reach sort peers me rf → IsSaved rf
  Reach-IsSaved peers me (made draw rf e) = inr (make-IsBlank peers me draw e)
  Reach-IsSaved peers me (next r st) = Step-IsSaved st (Reach-IsSaved peers me r)
