-- ===== src/Tests/Votes.antt =====
-- Requests for votes, and their replies.
use unique_freshman.Prelude.{
  List, none, Option, suc, zero, pos, minus_one, [], ◌∷◌, ◌≡◌, refl, ◌↔◌, ◌⊎◌, true, false, Bool,
  some, ◌+ℤ◌, ◌-ℤ◌, ◌≤ℤ◌, ◌<ℤ◌, arith,
}
use unique_freshman.Raft.Types.{RequestVoteReply, follower, candidate, leader}
use unique_freshman.Raft.State.{persist, convert_to_follower, convert_to_leader}
use unique_freshman.Raft.Vote.{is_newer, enter_term, answer_vote, decide_vote, request_vote}
use unique_freshman.Raft.Vote.Newer.{UpToDate, is_newer-vote_args}
use unique_freshman.Raft.Vote.Decide.{request_vote-grants, request_vote-term, request_vote_twice}
use unique_freshman.Raft.Election.{vote_args, has_majority, count_vote, vote_reply}
use unique_freshman.Raft.Election.Win.{IsWin, vote_reply-IsWin}
use unique_freshman.Raft.Election.Poll.{poll, poll-elected}
use unique_freshman.Tests.Samples.{plain, Peer, entry, peer, ask}

-- A follower of term 2 that has voted for peer 2, and one that is free.
abbrev bound : Peer
bound = peer 3 follower 2 (pos 2) (entry 7 1 ∷ [])

abbrev free : Peer
free = peer 3 follower 2 minus_one (entry 7 1 ∷ [])

abbrev votes : Peer
votes = peer 3 candidate 2 (pos 0) (entry 7 1 ∷ [])

abbrev granted : RequestVoteReply
granted = record { term = pos 2; vote_granted = true }

-- The request of peer 1 in term 2, and what the free peer does with it.
abbrev first_vote : Peer × RequestVoteReply
first_vote =
    unfold request_vote decide_vote answer_vote persist in decide_vote (ask 2 1 0 1) true free

abbrev second_vote : Peer × RequestVoteReply
second_vote =
    unfold request_vote decide_vote answer_vote persist in
    decide_vote (ask 2 2 0 1) true first_vote.0

-- What the peer that leads term 2 does with a request of term 3.
abbrev later_vote : Peer × RequestVoteReply
later_vote =
    unfold request_vote decide_vote answer_vote persist enter_term convert_to_follower in
    decide_vote (ask 3 1 0 1) true (peer 3 leader 2 minus_one (entry 7 1 ∷ []))

request_vote-grants_example :
    (out : Peer × RequestVoteReply) × (request_vote (ask 3 1 0 1) bound ≡ some out)
    × ((out.1.vote_granted ≡ true) ↔ (
        (is_newer (ask 3 1 0 1) bound.log ≡ some true)
        × (pos 2 ≤ℤ pos 3)
        × ((pos 2 <ℤ pos 3) ⊎ (pos 2 ≡ minus_one) ⊎ (pos 2 ≡ pos 1))))
request_vote-grants_example = request_vote-grants (ask 3 1 0 1) bound

request_vote-term_example :
    (later_vote.1.term ≡ pos 3)
    × (later_vote.0.current_term ≡ pos 3)
    × (later_vote.0.state ≡ follower)
    × (true ≡ true → (later_vote.0.voted_for ≡ pos 1) × (pos 3 ≡ pos 3))
    × (later_vote.0.log ≡ entry 7 1 ∷ [])
    × (later_vote.0.committed_index ≡ minus_one)
    × (later_vote.0.last_applied ≡ minus_one)
    × (later_vote.0.apply_ch ≡ [])
unfolding request_vote is_newer decide_vote answer_vote enter_term persist ◌+ℤ◌ ◌-ℤ◌
    convert_to_follower
request_vote-term_example =
    request_vote-term (ask 3 1 0 1) (peer 3 leader 2 (pos 0) (entry 7 1 ∷ [])) refl

request_vote_twice_example :
    (rf' rf'' : Peer) × (first second : RequestVoteReply) × (request_vote (ask 2 1 0 1) bound
      ≡ some (rf', first))
    × (first.vote_granted ≡ false)
    × (request_vote (ask 2 1 0 1) rf' ≡ some (rf'', second))
    × (second.vote_granted ≡ true)
    × (rf''.current_term ≡ pos 2)
    × (rf''.voted_for ≡ pos 1)
request_vote_twice_example =
    request_vote_twice (ask 2 1 0 1) bound (unfold is_newer ◌+ℤ◌ ◌-ℤ◌ in refl) refl (ground arith)
      (ground arith)

is_newer-vote_args_example :
    (newer : Bool) × (is_newer (ask 2 0 0 1) (entry 7 1 ∷ entry 8 1 ∷ []) ≡ some newer)
    × ((newer ≡ true) ↔ UpToDate (entry 7 1 ∷ []) (entry 7 1 ∷ entry 8 1 ∷ []))
is_newer-vote_args_example =
    is_newer-vote_args votes (ask 2 0 0 1) (entry 7 1 ∷ entry 8 1 ∷ [])
      (unfold vote_args ◌+ℤ◌ ◌-ℤ◌ in refl)

-- The candidate that has its own vote gets another one of three.
abbrev running : Peer
running = record votes { vote_granted = pos 1 }

abbrev won : Peer
won =
    unfold vote_reply count_vote has_majority convert_to_leader persist ◌+ℤ◌ in
    (vote_reply (ask 2 0 0 1) (some granted) 0 running).0

vote_reply-IsWin_example :
    ((candidate ≡ leader) × (won ≡ running) × (suc zero ≡ zero))
    ⊎ ((suc zero ≡ suc zero)
        × (r : RequestVoteReply) × (some granted ≡ some r)
        × IsWin (ask 2 0 0 1) r 0 running won)
unfolding vote_reply count_vote has_majority convert_to_leader persist ◌+ℤ◌
vote_reply-IsWin_example = vote_reply-IsWin (ask 2 0 0 1) (some granted) 0 running refl refl

-- One reply is lost, one refuses, one grants.
abbrev replies : List (Option RequestVoteReply)
replies = none ∷ some (record granted { vote_granted = false }) ∷ some granted ∷ []

poll-elected_example : (poll (ask 2 0 0 1) replies 0 running).state ≡ leader
poll-elected_example =
    poll-elected (ask 2 0 0 1) replies 1 running refl refl refl (omega arith)
      (omega arith, (omega arith, tt))
