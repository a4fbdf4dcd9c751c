-- ===== src/Cluster.antt =====
-- Several peers and the messages between them: the calls of `sendRequestVote` and
-- `sendAppendEntries` in Task5/raft/raft.go, with the handlers at the other end. The network may lose
-- a message, delay it, deliver it twice and bring the messages in any order: what has been sent stays
-- in the lists, and a step may take any of it at any time. A handler is one step: the runs are those
-- in which no call of `RequestVote`, and no write of the main loop, is interrupted by another step of
-- its peer. The source lets them be, as these take no lock: for that see Raft/Race and Raft/Peer/Stale.
pub mod Peers
pub mod Orderly
pub mod Honest
pub mod Matching
use unique_freshman.Prelude.{ℕ, ◌≡◌, ◌≢◌, ℤ, Bool, List, [], ◌∷◌, Option, some, get_elem?, set}
use unique_freshman.Persister.{make_persister, copy}
use unique_freshman.Raft.Types.{
  Raft, RequestVoteArgs, RequestVoteReply, AppendEntriesArgs, AppendEntriesReply,
}
use unique_freshman.Raft.Gob.{Gob}
use unique_freshman.Raft.State.{Channel, crowd, make, kill}
use unique_freshman.Raft.Vote.{request_vote}
use unique_freshman.Raft.Append.{append_entries}
use unique_freshman.Raft.Leader.{SortInts, Next, append_args, append_reply}
use unique_freshman.Raft.Election.{vote_args, vote_reply}
use unique_freshman.Raft.Client.{start}
use unique_freshman.Raft.HeartBeat.{Wait, Event, begin_round, wake}

-- A message on its way, the newest first in each list.
pub record Sent (A : Type 0) : Type 0 where
  pub from : ℕ
  pub to : ℕ
  pub body : A

-- A reply travels with the request that it answers.
pub record Cluster (Bytes Command : Type 0) : Type 0 where
  pub rafts : List (Raft Bytes Command)
  pub vote_calls : List (Sent RequestVoteArgs)
  pub vote_replies : List (Sent (RequestVoteArgs × RequestVoteReply))
  pub append_calls : List (Sent (AppendEntriesArgs Command))
  pub append_replies : List (Sent (AppendEntriesArgs Command × AppendEntriesReply))

module _ {Bytes Command : Type 0} ⦃gob : Gob Bytes Command⦄ (sort : SortInts) where
  -- What a peer does without a message.
  pub data Alone (rf rf' : Raft Bytes Command) : Type 0 where
    submitted : (command : Command) → (start command rf).0 ≡ rf' → Alone rf rf'
    round_began : (draw : ℕ) → (begin_round draw rf).0 ≡ rf' → Alone rf rf'
    woke : (event : Event) (wait : Wait) → wake event wait rf ≡ some rf' → Alone rf rf'
    was_killed : kill rf ≡ rf' → Alone rf rf'
    crowded : (ch : Channel) → crowd ch rf ≡ rf' → Alone rf rf'
    restarted :
        (draw : ℕ) → make rf.peers rf.me (copy gob.nil_bytes rf.persister) draw ≡ rf' → Alone rf rf'

  -- A step of the cluster; the peer that acts has index `i`, and `k` is the place of the message that
  -- it takes. A peer calls the others only: the goroutine for its own index returns at once.
  pub data Move (c c' : Cluster Bytes Command) : Type 0 where
    acted :
        (i : ℕ) (rf rf' : Raft Bytes Command)
        → get_elem? c.rafts i ≡ some rf
        → Alone rf rf'
        → record c { rafts = set c.rafts i rf' } ≡ c'
        → Move c c'
    called_vote :
        (i j : ℕ) (rf : Raft Bytes Command) (args : RequestVoteArgs)
        → i ≢ j
        → get_elem? c.rafts i ≡ some rf
        → vote_args rf ≡ some (some args)
        → record c { vote_calls = record { from = i; to = j; body = args } ∷ c.vote_calls } ≡ c'
        → Move c c'
    answered_vote :
        (k : ℕ) (m : Sent RequestVoteArgs) (rf rf' : Raft Bytes Command) (reply : RequestVoteReply)
        → get_elem? c.vote_calls k ≡ some m
        → get_elem? c.rafts m.to ≡ some rf
        → request_vote m.body rf ≡ some (rf', reply)
        → record c {
          rafts = set c.rafts m.to rf';
          vote_replies =
              record { from = m.to; to = m.from; body = (m.body, reply) } ∷ c.vote_replies;
        }
          ≡ c'
        → Move c c'
    took_vote :
        (k n_leader : ℕ) (m : Sent (RequestVoteArgs × RequestVoteReply)) (rf : Raft Bytes Command)
        → get_elem? c.vote_replies k ≡ some m
        → get_elem? c.rafts m.to ≡ some rf
        → record c { rafts = set c.rafts m.to (vote_reply m.body.0 (some m.body.1) n_leader rf).0 }
          ≡ c'
        → Move c c'
    called_append :
        (i j : ℕ) (rf : Raft Bytes Command) (args : AppendEntriesArgs Command)
        → i ≢ j
        → get_elem? c.rafts i ≡ some rf
        → append_args j rf ≡ some (some args)
        → record c { append_calls = record { from = i; to = j; body = args } ∷ c.append_calls } ≡ c'
        → Move c c'
    answered_append :
        (k : ℕ) (m : Sent (AppendEntriesArgs Command)) (rf rf' : Raft Bytes Command)
        (reply : AppendEntriesReply)
        → get_elem? c.append_calls k ≡ some m
        → get_elem? c.rafts m.to ≡ some rf
        → append_entries m.body rf ≡ some (rf', reply)
        → record c {
          rafts = set c.rafts m.to rf';
          append_replies =
              record { from = m.to; to = m.from; body = (m.body, reply) } ∷ c.append_replies;
        }
          ≡ c'
        → Move c c'
    took_append :
        (k : ℕ) (m : Sent (AppendEntriesArgs Command × AppendEntriesReply))
        (rf rf' : Raft Bytes Command) (then_do : Next)
        → get_elem? c.append_replies k ≡ some m
        → get_elem? c.rafts m.to ≡ some rf
        → append_reply sort m.from m.body.0 (some m.body.1) rf ≡ some (rf', then_do)
        → record c { rafts = set c.rafts m.to rf' } ≡ c'
        → Move c c'

  -- The clusters that `n` fresh peers may become.
  pub data Runs (n : ℕ) : Cluster Bytes Command → Type 0 where
    began :
        (c : Cluster Bytes Command)
        → ((i : ℕ) (rf : Raft Bytes Command)
            → get_elem? c.rafts i ≡ some rf
            → (draw : ℕ) × (make n i (make_persister gob.nil_bytes) draw ≡ rf))
        → c.vote_calls ≡ []
        → c.vote_replies ≡ []
        → c.append_calls ≡ []
        → c.append_replies ≡ []
        → Runs n c
    onward : {c c' : Cluster Bytes Command} → Runs n c → Move c c' → Runs n c'
