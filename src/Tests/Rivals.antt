-- ===== src/Tests/Rivals.antt =====
-- An election among five peers that ends with two leaders of one term: peers 0, 1 and 4 are
-- candidates, and peers 2 and 3 forget their vote for peer 0 as they refuse peer 1.
use unique_freshman.Prelude.{
  ℕ, zero, suc, ◌==◌, ◌≡◌, refl, subst, List, [], ◌∷◌, Option, none, some, ◌>>=◌, if◌then◌else◌,
  get_elem?, set, ◌+ℤ◌, ◌-ℤ◌, arith, bind-some,
}
use unique_freshman.Persister.{make_persister, read_raft_state}
use unique_freshman.Raft.Types.{leader}
use unique_freshman.Raft.Gob.{Item}
use unique_freshman.Raft.State.{
  make, read_persist, decode_int, decode_log, persist, convert_to_candidate, convert_to_follower,
  convert_to_leader,
}
use unique_freshman.Raft.Vote.{request_vote, decide_vote, enter_term, answer_vote, is_newer}
use unique_freshman.Raft.Election.{vote_args, vote_reply, count_vote, has_majority}
use unique_freshman.Raft.HeartBeat.{following, tick, wake}
use unique_freshman.Cluster.{
  Cluster, Move, Runs, began, onward, acted, woke, called_vote, answered_vote, took_vote,
}
use unique_freshman.Tests.Samples.{plain, Peer, outcome}
use unique_freshman.Tests.Sorting.{by_insertion}

abbrev Peers : Type 0
Peers = Cluster (List (Item ℕ)) ℕ

-- What happens next: a peer's timer fires, a candidate calls another peer, or the message at a place
-- of its list is answered or taken.
data Order : Type 0 where
  fires : ℕ → Order
  calls : ℕ → ℕ → Order
  answers takes : ℕ → Order

unfoldable follow : Order → Peers → Option Peers
follow (fires i) c = get_elem? c.rafts i >>= λ rf.
    some (record c { rafts = set c.rafts i (convert_to_candidate 4 rf) })
follow (calls i j) c = get_elem? c.rafts i >>= λ rf. vote_args rf >>= λ sends. sends >>= λ args.
    if i == j
    then none
    else some (record c { vote_calls = record { from = i; to = j; body = args } ∷ c.vote_calls })
follow (answers k) c = get_elem? c.vote_calls k >>= λ m. get_elem? c.rafts m.to >>= λ rf.
    request_vote m.body rf >>= λ (rf', reply). some (record c {
      rafts = set c.rafts m.to rf';
      vote_replies = record { from = m.to; to = m.from; body = (m.body, reply) } ∷ c.vote_replies;
    })
follow (takes k) c = get_elem? c.vote_replies k >>= λ m. get_elem? c.rafts m.to >>= λ rf.
    some (record c { rafts = set c.rafts m.to (vote_reply m.body.0 (some m.body.1) 0 rf).0 })

follow-Move : (o : Order) (c c' : Peers) → follow o c ≡ some c' → Move by_insertion c c'
unfolding follow wake
follow-Move (fires i) c c' h =
    let (rf, here, h1) = bind-some (get_elem? c.rafts i) _ h in
    acted i rf (convert_to_candidate 4 rf) here (woke (tick 4) following refl) (ground arith)
follow-Move (calls i j) c c' h =
    let (rf, here, h1) = bind-some (get_elem? c.rafts i) _ h in
    let (sends, made, h2) = bind-some (vote_args rf) _ h1 in
    let (args, sent, h3) = bind-some sends _ h2 in
    called_vote i j rf args (ground arith) here (ground arith) (ground arith)
follow-Move (answers k) c c' h =
    let (m, sent, h1) = bind-some (get_elem? c.vote_calls k) _ h in
    let (rf, here, h2) = bind-some (get_elem? c.rafts m.to) _ h1 in
    let (after, ran, h3) = bind-some (request_vote m.body rf) _ h2 in
    answered_vote k m rf after.0 after.1 sent here ran (ground arith)
follow-Move (takes k) c c' h =
    let (m, sent, h1) = bind-some (get_elem? c.vote_replies k) _ h in
    let (rf, here, h2) = bind-some (get_elem? c.rafts m.to) _ h1 in
    took_vote k 0 m rf sent here (ground arith)

unfoldable follow_all : List Order → Peers → Option Peers
unfolding follow
follow_all [] c = some c
follow_all (o ∷ os) c = follow o c >>= follow_all os

follow_all-Runs :
    (os : List Order) (c c' : Peers)
    → follow_all os c ≡ some c'
    → Runs by_insertion 5 c
    → Runs by_insertion 5 c'
unfolding follow_all
follow_all-Runs [] c c' h r = let same : c ≡ c' = ground arith in subst (Runs by_insertion 5) same r
follow_all-Runs (o ∷ os) c c' h r =
    let (next, first, rest) = bind-some (follow o c) _ h in
    follow_all-Runs os next c' rest (onward r (follow-Move o c next first))

abbrev fresh : ℕ → Peer
fresh i = make {Command = ℕ} 5 i (make_persister []) 5

abbrev at_first : Peers
at_first = record {
  rafts = fresh 0 ∷ fresh 1 ∷ fresh 2 ∷ fresh 3 ∷ fresh 4 ∷ [];
  vote_calls = [];
  vote_replies = [];
  append_calls = [];
  append_replies = [];
}

all_fresh :
    (i : ℕ) (rf : Peer)
    → get_elem? at_first.rafts i ≡ some rf
    → (draw : ℕ) × (make 5 i (make_persister []) draw ≡ rf)
all_fresh zero rf h = (5, ground arith)
all_fresh (suc zero) rf h = (5, ground arith)
all_fresh (suc (suc zero)) rf h = (5, ground arith)
all_fresh (suc (suc (suc zero))) rf h = (5, ground arith)
all_fresh (suc (suc (suc (suc zero)))) rf h = (5, ground arith)
all_fresh (suc (suc (suc (suc (suc i))))) rf h = absurd (ground arith)

-- Every candidate asks peers 2 and 3 once; no message is lost or repeated.
abbrev orders : List Order
orders =
    fires 0
    ∷ fires 1
    ∷ fires 4
    ∷ calls 0 2
    ∷ answers 0
    ∷ takes 0
    ∷ calls 0 3
    ∷ answers 0
    ∷ takes 0
    ∷ calls 1 2
    ∷ answers 0
    ∷ calls 1 3
    ∷ answers 0
    ∷ calls 4 2
    ∷ answers 0
    ∷ takes 0
    ∷ calls 4 3
    ∷ answers 0
    ∷ takes 0
    ∷ []

abbrev at_last : Peers
at_last =
    unfold follow_all wake convert_to_candidate vote_args request_vote decide_vote enter_term
      answer_vote is_newer make read_persist make_persister read_raft_state decode_int decode_log
      persist convert_to_follower vote_reply count_vote has_majority convert_to_leader ◌+ℤ◌ ◌-ℤ◌ in
    outcome at_first (follow_all orders at_first)

at_last-Runs : Runs by_insertion 5 at_last
unfolding follow_all wake convert_to_candidate vote_args request_vote decide_vote enter_term
    answer_vote is_newer make read_persist make_persister read_raft_state decode_int decode_log
    persist convert_to_follower vote_reply count_vote has_majority convert_to_leader ◌+ℤ◌ ◌-ℤ◌
at_last-Runs =
    follow_all-Runs orders at_first at_last refl (began at_first all_fresh refl refl refl refl)

-- Peers 0 and 4 lead in term 1.
two_leaders :
    (first second : Peer) × (get_elem? at_last.rafts 0 ≡ some first)
    × (get_elem? at_last.rafts 4 ≡ some second)
    × (first.state ≡ leader)
    × (second.state ≡ leader)
    × (first.current_term ≡ second.current_term)
unfolding follow_all wake convert_to_candidate vote_args request_vote decide_vote enter_term
    answer_vote is_newer make read_persist make_persister read_raft_state decode_int decode_log
    persist convert_to_follower vote_reply count_vote has_majority convert_to_leader ◌+ℤ◌ ◌-ℤ◌
two_leaders = (_, _, refl, refl, refl, refl, refl)
