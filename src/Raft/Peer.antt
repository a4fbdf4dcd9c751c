-- ===== src/Raft/Peer.antt =====
-- A peer as a whole: its steps are the handlers, the goroutines and the main loop of
-- Task5/raft/raft.go, each with whatever input the network, the clock and the service may bring, in
-- any order. A call that panics is no step. Each runs without another in between; for the two places
-- that take no lock in the source, Raft/Race and Raft/Peer/Stale take them apart.
pub mod Dead
pub mod Durable
pub mod Survive
pub mod Stale
pub mod Logs
pub mod Terms
pub mod Applied
pub mod Roles
pub mod Orderly
pub mod Shape
pub mod Sized
pub mod Snapshot
pub mod Commits
use unique_freshman.Prelude.{ℕ, ◌≡◌, ℤ, Bool, Option, some}
use unique_freshman.Persister.{make_persister, copy}
use unique_freshman.Raft.Types.{
  Raft, RequestVoteArgs, RequestVoteReply, AppendEntriesArgs, AppendEntriesReply,
}
use unique_freshman.Raft.Gob.{Gob}
use unique_freshman.Raft.State.{Channel, crowd, make, kill}
use unique_freshman.Raft.Vote.{request_vote}
use unique_freshman.Raft.Append.{append_entries}
use unique_freshman.Raft.Leader.{SortInts, Next, append_reply}
use unique_freshman.Raft.Election.{vote_reply}
use unique_freshman.Raft.Client.{start}
use unique_freshman.Raft.HeartBeat.{Wait, Event, begin_round, wake}

module _ {Bytes Command : Type 0} ⦃gob : Gob Bytes Command⦄ (sort : SortInts) where
  pub data Step (rf rf' : Raft Bytes Command) : Type 0 where
    asked :
        (args : RequestVoteArgs) (reply : RequestVoteReply)
        → request_vote args rf ≡ some (rf', reply)
        → Step rf rf'
    told :
        (args : AppendEntriesArgs Command) (reply : AppendEntriesReply)
        → append_entries args rf ≡ some (rf', reply)
        → Step rf rf'
    vote_came :
        (args : RequestVoteArgs) (reply : Option RequestVoteReply) (n_leader : ℕ)
        → (vote_reply args reply n_leader rf).0 ≡ rf'
        → Step rf rf'
    answer_came :
        (j : ℕ) (args : AppendEntriesArgs Command) (reply : Option AppendEntriesReply) (next : Next)
        → append_reply sort j args reply rf ≡ some (rf', next)
        → Step rf rf'
    submitted : (command : Command) → (start command rf).0 ≡ rf' → Step rf rf'
    round_began : (draw : ℕ) → (begin_round draw rf).0 ≡ rf' → Step rf rf'
    woke : (event : Event) (wait : Wait) → wake event wait rf ≡ some rf' → Step rf rf'
    was_killed : kill rf ≡ rf' → Step rf rf'
    crowded : (ch : Channel) → crowd ch rf ≡ rf' → Step rf rf'
    -- The tester starts a new peer on a copy of the persister.
    restarted :
        (draw : ℕ) → make rf.peers rf.me (copy gob.nil_bytes rf.persister) draw ≡ rf' → Step rf rf'

  -- The peer goes on: the step is no new start.
  abbrev pub StaysUp : {rf rf' : Raft Bytes Command} → Step rf rf' → Type 0
  StaysUp (restarted draw e) = ⊥
  StaysUp _ = Unit

  -- The peers that a fresh one may become.
  pub data Reach (peers me : ℕ) : Raft Bytes Command → Type 0 where
    made :
        (draw : ℕ) (rf : Raft Bytes Command)
        → make peers me (make_persister gob.nil_bytes) draw ≡ rf
        → Reach peers me rf
    next : {rf rf' : Raft Bytes Command} → Reach peers me rf → Step rf rf' → Reach peers me rf'
