-- ===== src/Tests/Racing.antt =====
-- Calls of `RequestVote` with other steps in between.
use unique_freshman.Prelude.{ℕ, ◌≡◌, refl, pos, minus_one, [], ◌∷◌, arith}
use unique_freshman.Persister.{make_persister}
use unique_freshman.Raft.Types.{RequestVoteReply, follower}
use unique_freshman.Raft.State.{make}
use unique_freshman.Raft.State.Restart.{IsDurable}
use unique_freshman.Raft.Race.{
  tests_later, clears, replied, resume, Races, came, went_on, here, onward,
}
use unique_freshman.Raft.Race.Sound.{IsSound, Races-IsSound}
use unique_freshman.Raft.Race.Fall.{Races-falls}
use unique_freshman.Tests.Samples.{plain, Peer, ask, entry, peer}
use unique_freshman.Tests.Sorting.{by_insertion}

-- A peer of term 1 with one entry.
abbrev voter : Peer
voter = peer 3 follower 1 minus_one (entry 7 1 ∷ [])

Races-falls_example :
    (first second : RequestVoteReply) × (rf' : Peer) × Races by_insertion
      (record { raft = voter; calls = [] })
      (record { raft = rf'; calls = replied second ∷ replied first ∷ [] })
    × (second.term ≡ pos 3)
    × (first.term ≡ pos 2)
    × (rf'.current_term ≡ pos 2)
    × IsDurable rf'
Races-falls_example =
    Races-falls by_insertion (ask 2 1 0 1) (ask 3 2 0 1) voter (omega arith) (omega arith)

-- Two calls at a fresh peer, one of them a step further.
abbrev fresh : Peer
fresh = make {Command = ℕ} 3 0 (make_persister []) 5

two_calls :
    Races by_insertion
      (record { raft = fresh; calls = [] })
      (record { raft = fresh; calls = tests_later (ask 1 2 0 0) ∷ clears (ask 1 1 0 0) ∷ [] })
unfolding resume make make_persister
two_calls =
    onward
      (onward (onward here (came (ask 1 1 0 0) refl)) (
        went_on 0 (tests_later (ask 1 1 0 0)) (clears (ask 1 1 0 0)) fresh refl (ground arith)
          refl))
      (came (ask 1 2 0 0) refl)

Races-IsSound_example : IsSound 3 0 fresh
Races-IsSound_example = Races-IsSound by_insertion 3 0 5 refl two_calls

-- A call that is about to write term 2 at a peer that has reached term 3.
abbrev ahead : Peer
ahead = peer 3 follower 3 minus_one []

abbrev behind : Peer
behind = record ahead { current_term = pos 2 }
