-- ===== src/Tests/Clustered.antt =====
-- An election among three peers and the network between them.
use unique_freshman.Prelude.{
  ℕ, zero, suc, ◌≡◌, refl, pos, minus_one, List, [], ◌∷◌, false, some, get_elem?, ◌+ℤ◌, ◌-ℤ◌, arith,
}
use unique_freshman.Persister.{make_persister, read_raft_state}
use unique_freshman.Raft.Types.{RequestVoteArgs, RequestVoteReply}
use unique_freshman.Raft.Gob.{Item}
use unique_freshman.Raft.State.{
  make, read_persist, decode_int, decode_log, persist, convert_to_candidate, convert_to_follower,
}
use unique_freshman.Raft.Vote.{request_vote, decide_vote, enter_term, answer_vote, is_newer}
use unique_freshman.Raft.Election.{vote_args}
use unique_freshman.Raft.HeartBeat.{following, tick, wake}
use unique_freshman.Cluster.{
  Cluster, Sent, Runs, began, onward, acted, woke, called_vote, answered_vote,
}
use unique_freshman.Cluster.Orderly.{InOrder, Runs-InOrder}
use unique_freshman.Cluster.Honest.{IsHonest, Runs-IsHonest}
use unique_freshman.Tests.Samples.{plain, Peer, outcome}
use unique_freshman.Tests.Sorting.{by_insertion}

abbrev pub fresh : ℕ → Peer
fresh i = make {Command = ℕ} 3 i (make_persister []) 5

abbrev pub at_first : Cluster (List (Item ℕ)) ℕ
at_first = record {
  rafts = fresh 0 ∷ fresh 1 ∷ fresh 2 ∷ [];
  vote_calls = [];
  vote_replies = [];
  append_calls = [];
  append_replies = [];
}

pub all_fresh :
    (i : ℕ) (rf : Peer)
    → get_elem? at_first.rafts i ≡ some rf
    → (draw : ℕ) × (make 3 i (make_persister []) draw ≡ rf)
all_fresh zero rf h = (5, ground arith)
all_fresh (suc zero) rf h = (5, ground arith)
all_fresh (suc (suc zero)) rf h = (5, ground arith)
all_fresh (suc (suc (suc i))) rf h = absurd (ground arith)

-- Peer 0 becomes a candidate, asks peer 1 for its vote, and peer 1 answers.
abbrev pub running : Peer
running = convert_to_candidate 4 (fresh 0)

abbrev pub standing : Cluster (List (Item ℕ)) ℕ
standing = record at_first { rafts = running ∷ fresh 1 ∷ fresh 2 ∷ [] }

abbrev pub call : Sent RequestVoteArgs
call = record {
  from = 0;
  to = 1;
  body = record {
    term = pos 1;
    candidate_id = pos 0;
    last_log_index = minus_one;
    last_log_term = minus_one;
  };
}

abbrev pub asking : Cluster (List (Item ℕ)) ℕ
asking = record standing { vote_calls = call ∷ [] }

abbrev pub voted : Peer × RequestVoteReply
voted =
    outcome (fresh 1, record { term = pos 0; vote_granted = false })
      (request_vote call.body (fresh 1))

abbrev pub answered : Cluster (List (Item ℕ)) ℕ
answered = record asking {
  rafts = running ∷ voted.0 ∷ fresh 2 ∷ [];
  vote_replies = record { from = 1; to = 0; body = (call.body, voted.1) } ∷ [];
}

answered-Runs : Runs by_insertion 3 answered
unfolding wake convert_to_candidate vote_args request_vote decide_vote enter_term answer_vote
    is_newer make read_persist make_persister read_raft_state decode_int decode_log persist
    convert_to_follower ◌+ℤ◌ ◌-ℤ◌
answered-Runs =
    onward
      (onward
        (onward (began at_first all_fresh refl refl refl refl)
          (acted 0 (fresh 0) running refl (woke (tick 4) following refl) refl))
        (called_vote 0 1 running call.body (λ h. ground arith) refl refl refl))
      (answered_vote 0 call (fresh 1) voted.0 voted.1 refl refl refl refl)

Runs-InOrder_example : InOrder answered
Runs-InOrder_example = Runs-InOrder by_insertion 3 answered-Runs

Runs-IsHonest_example : IsHonest answered.rafts answered
Runs-IsHonest_example = Runs-IsHonest by_insertion 3 answered-Runs
