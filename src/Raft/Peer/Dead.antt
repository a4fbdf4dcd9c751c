-- ===== src/Raft/Peer/Dead.antt =====
-- A peer that has been killed: `Kill` of Task5/raft/raft.go sets `dead`, and nothing resets it.
use unique_freshman.Prelude.{ℕ, ◌≡◌, refl, false, true, Option, none, some, arith}
use unique_freshman.Raft.Types.{Raft, RequestVoteArgs, RequestVoteReply}
use unique_freshman.Raft.Gob.{Gob}
use unique_freshman.Raft.State.{crowd, kill, killed}
use unique_freshman.Raft.Election.{vote_reply}
use unique_freshman.Raft.HeartBeat.{begin_round, exited}
use unique_freshman.Raft.Leader.{SortInts, leads, append_args}
use unique_freshman.Raft.Leader.Frame.{append_reply-Replied}
use unique_freshman.Raft.Peer.{
  Step, StaysUp, asked, told, vote_came, answer_came, submitted, round_began, woke, was_killed,
  crowded, restarted,
}
use unique_freshman.Raft.Peer.Shape.{
  request_vote-SameShape, append_entries-SameShape, begin_round-SameShape, start-SameShape,
  wake-SameShape, Replied-SameShape,
}

module _ {Bytes Command : Type 0} ⦃gob : Gob Bytes Command⦄ where
  vote_reply-dead :
      (args : RequestVoteArgs) (reply : Option RequestVoteReply) (n : ℕ) (rf : Raft Bytes Command)
      → (vote_reply args reply n rf).0.dead ≡ rf.dead
  unfolding vote_reply
  vote_reply-dead args none n rf = ground arith
  vote_reply-dead args (some reply) n rf = ground arith

  -- A dead peer's main loop ends, and so does the outer loop of `startAppendEntries`.
  pub exits :
      (draw : ℕ) (rf : Raft Bytes Command)
      → killed rf ≡ true
      → (begin_round draw rf ≡ (rf, exited)) × (leads rf ≡ false)
  unfolding begin_round leads
  exits draw rf h = (rw h refl, rw h refl)

  -- A goroutine at work for a peer makes the same request of a dead leader.
  append_args-kill : (j : ℕ) (rf : Raft Bytes Command) → append_args j (kill rf) ≡ append_args j rf
  unfolding append_args kill
  append_args-kill j rf = refl

module _ {Bytes Command : Type 0} ⦃gob : Gob Bytes Command⦄ (sort : SortInts) where
  Step-killed :
      {rf rf' : Raft Bytes Command} (st : Step sort rf rf')
      → StaysUp sort st
      → killed rf ≡ true
      → killed rf' ≡ true
  unfolding kill killed crowd
  Step-killed {rf} {rf'} (asked args reply h) up d =
      rw ((request_vote-SameShape args rf rf' reply h).dead) d
  Step-killed {rf} {rf'} (told args reply h) up d =
      rw ((append_entries-SameShape args rf rf' reply h).dead) d
  Step-killed {rf} (vote_came args reply n e) up d = rw (← e, vote_reply-dead args reply n rf) d
  Step-killed {rf} {rf'} (answer_came j args reply then_do h) up d =
      rw ((Replied-SameShape (append_reply-Replied sort j args reply rf rf' then_do h)).dead) d
  Step-killed {rf} (submitted command e) up d = rw (← e, (start-SameShape command rf).dead) d
  Step-killed {rf} (round_began draw e) up d = rw (← e, (begin_round-SameShape draw rf).dead) d
  Step-killed {rf} {rf'} (woke event wait h) up d = rw ((wake-SameShape event wait rf rf' h).dead) d
  Step-killed {rf} (was_killed e) up d = rw (← e) refl
  Step-killed {rf} (crowded ch e) up d = rw (← e) d
  Step-killed (restarted draw e) up d = elim up [ ]

  -- What a peer becomes as it goes on without a new start.
  pub data Works (rf : Raft Bytes Command) : Raft Bytes Command → Type 0 where
    at_rest : Works rf rf
    goes_on :
        {rf' rf'' : Raft Bytes Command}
        → Works rf rf'
        → (st : Step sort rf' rf'') → StaysUp sort st
        → Works rf rf''

  pub Works-killed :
      {rf rf' : Raft Bytes Command} → Works rf rf' → killed rf ≡ true → killed rf' ≡ true
  Works-killed at_rest d = d
  Works-killed (goes_on w st up) d = Step-killed st up (Works-killed w d)
