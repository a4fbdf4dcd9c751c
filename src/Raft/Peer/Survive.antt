-- ===== src/Raft/Peer/Survive.antt =====
-- What a peer has answered is still known to the peer that is made from its persister after a crash.
use unique_freshman.Prelude.{ℕ, ℤ, ◌≡◌, ◌≤ℤ◌, inl, true, some, arith}
use unique_freshman.Persister.{copy}
use unique_freshman.Raft.Types.{
  Raft, RequestVoteArgs, RequestVoteReply, AppendEntriesArgs, AppendEntriesReply, candidate,
}
use unique_freshman.Raft.Gob.{Gob}
use unique_freshman.Raft.State.{make}
use unique_freshman.Raft.State.Restart.{IsDurable, anew, make-copy}
use unique_freshman.Raft.Append.{append_entries}
use unique_freshman.Raft.Client.{start}
use unique_freshman.Raft.Election.{vote_reply}
use unique_freshman.Raft.Peer.Durable.{append_entries-IsDurable}

module _ {Bytes Command : Type 0} ⦃gob : Gob Bytes Command⦄ where
  -- What the code that holds the lock does that others may rely on: a request for entries is
  -- answered, a command is accepted, and a reply to a vote of the term is counted.
  pub data Answer (rf rf' : Raft Bytes Command) : Type 0 where
    of_entries :
        (args : AppendEntriesArgs Command) (reply : AppendEntriesReply)
        → append_entries args rf ≡ some (rf', reply)
        → Answer rf rf'
    of_command :
        (command : Command) (index term : ℤ)
        → start command rf ≡ (rf', index, term, true)
        → Answer rf rf'
    of_vote :
        (args : RequestVoteArgs) (reply : RequestVoteReply) (n n' : ℕ)
        → reply.term ≤ℤ rf.current_term
        → rf.current_term ≡ args.term
        → rf.state ≡ candidate
        → vote_reply args (some reply) n rf ≡ (rf', n')
        → Answer rf rf'

  Answer-IsDurable : {rf rf' : Raft Bytes Command} → Answer rf rf' → IsDurable rf'
  unfolding start vote_reply
  Answer-IsDurable {rf} (of_entries args reply h) = append_entries-IsDurable args rf h
  Answer-IsDurable {rf} (of_command command index term h) = ground (arith, h)
  Answer-IsDurable {rf} (of_vote args reply n n' old same stands h) =
      ground (arith, h, old, same, stands)

  -- Whatever the persister held before: once a peer has answered a request for entries, accepted a
  -- command or counted a reply in its election, a crash in the state in which that leaves it loses
  -- neither the term, the vote and the log nor the counts of votes. The peer made from a copy of the
  -- persister is the same but for what begins anew: it is a follower with nothing committed, nothing
  -- applied and no message sent.
  pub Answer-survives :
      {rf rf' : Raft Bytes Command} (draw : ℕ)
      → Answer rf rf'
      → make rf'.peers rf'.me (copy gob.nil_bytes rf'.persister) draw ≡ anew draw rf'
  Answer-survives {rf} {rf'} draw a = make-copy rf' draw (inl (Answer-IsDurable a))
