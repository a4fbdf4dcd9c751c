-- ===== src/Tests/Recount.antt =====
-- A peer of five that counts one vote twice. Its election timer fires as it wins, so that it is a
-- candidate again with the notice of its win still to come; that notice sends it round its main loop,
-- and it asks for votes a second time in one term.
use unique_freshman.Prelude.{ℕ, ◌≡◌, refl, pos, minus_one, true, [], some, ◌+ℤ◌, ◌-ℤ◌}
use unique_freshman.Persister.{make_persister, read_raft_state}
use unique_freshman.Raft.Types.{RequestVoteArgs, RequestVoteReply, leader}
use unique_freshman.Raft.State.{
  make, read_persist, decode_int, decode_log, persist, convert_to_candidate, convert_to_follower,
  convert_to_leader, killed,
}
use unique_freshman.Raft.Election.{vote_reply, count_vote, has_majority}
use unique_freshman.Raft.HeartBeat.{begin_round, wake, election_tick, electing, leader_token}
use unique_freshman.Tests.Samples.{plain, Peer, outcome}

abbrev call : ℕ → RequestVoteArgs
call term = record {
  term = pos term;
  candidate_id = pos 0;
  last_log_index = minus_one;
  last_log_term = minus_one;
}

abbrev yes_in : ℕ → RequestVoteReply
yes_in term = record { term = pos term; vote_granted = true }

abbrev fresh : Peer
fresh = make {Command = ℕ} 5 0 (make_persister []) 5

-- It wins term 1 with the votes of two others, and its timer fires before it hears of that.
abbrev standing : Peer
standing = (begin_round 1 (convert_to_candidate 4 fresh)).0

abbrev won : Peer
won =
    let one = vote_reply (call 1) (some (yes_in 1)) 0 standing in
    (vote_reply (call 1) (some (yes_in 1)) one.1 one.0).0

abbrev again : Peer
again = (begin_round 1 (election_tick 4 won)).0

-- The notice comes, and a second round of the main loop begins, which asks once more.
abbrev told : Peer
told = outcome again (wake leader_token electing again)

abbrev asking_twice : Peer
asking_twice = (begin_round 1 told).0

-- The vote of one peer comes in as the reply to either call.
abbrev counted : Peer
counted =
    (vote_reply (call 2) (some (yes_in 2)) 0
      (vote_reply (call 2) (some (yes_in 2)) 0 asking_twice).0).0

both_rounds_ask :
    ((begin_round 1 (election_tick 4 won)).1 ≡ electing)
    × ((begin_round 1 told).1 ≡ electing)
    × (again.current_term ≡ pos 2)
    × (asking_twice.current_term ≡ pos 2)
unfolding begin_round killed persist convert_to_candidate vote_reply count_vote has_majority
    convert_to_leader election_tick wake convert_to_follower make read_persist make_persister
    read_raft_state decode_int decode_log ◌+ℤ◌ ◌-ℤ◌
both_rounds_ask = (refl, refl, refl, refl)

one_vote_counts_twice :
    (counted.state ≡ leader) × (counted.current_term ≡ pos 2) × (counted.vote_granted ≡ pos 3)
unfolding begin_round killed persist convert_to_candidate vote_reply count_vote has_majority
    convert_to_leader election_tick wake convert_to_follower make read_persist make_persister
    read_raft_state decode_int decode_log ◌+ℤ◌ ◌-ℤ◌
one_vote_counts_twice = (refl, refl, refl)
