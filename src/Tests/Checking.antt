-- ===== src/Tests/Checking.antt =====
-- The tester's checks of the terms and of the leader.
use unique_freshman.Prelude.{
  take, pos, minus_one, [], ◌∷◌, ◌≡◌, ◌==◌, ◌↔◌, true, false, Bool, List, Option, some, arith, refl,
  ℕ, get_elem?,
}
use unique_freshman.Raft.Types.{follower, leader}
use unique_freshman.Raft.State.{get_state}
use unique_freshman.Raft.Gob.{Item}
use unique_freshman.Raft.Client.{start}
use unique_freshman.Config.{passed, check_terms, n_committed, lookup}
use unique_freshman.Config.Agree.{AgreeOn, some_connected, check_terms-AgreeOn}
use unique_freshman.Config.Leaders.{
  add_leader, leaders_of, last_term_with_leader, find_leaders, check_rounds, check_one_leader,
}
use unique_freshman.Config.Leaders.Exact.{Finds, check_one_leader_iff}
use unique_freshman.Config.Agreement.{Attempt, one, try_start, poll}
use unique_freshman.Config.Agreement.Agreed.{IsAgreed, one-IsAgreed}
use unique_freshman.Tests.Samples.{plain, Peer, entry, peer}

-- Two servers of term 2, and one of an earlier term that is cut off.
abbrev servers : List (Bool × Option Peer)
servers =
    (true, some (peer 3 leader 2 (pos 0) (entry 7 1 ∷ [])))
    ∷ (false, some (peer 3 follower 1 minus_one []))
    ∷ (true, some (peer 3 follower 2 minus_one []))
    ∷ []

check_terms-AgreeOn_example :
    (check_terms minus_one servers ≡ passed (pos 2))
    ↔ ((some_connected servers ≡ true) × AgreeOn (pos 2) servers)
check_terms-AgreeOn_example =
    check_terms-AgreeOn (pos 2) servers (ground arith)
      (ground arith, (ground arith, (ground arith, tt)))

-- No leader in the first round, as every server was cut off; then server 0.
abbrev rounds : List (List (Bool × Option Peer))
rounds = ((false, some (peer 3 leader 2 (pos 0) [])) ∷ []) ∷ servers ∷ []

found_second : Finds 0 rounds
unfolding check_one_leader check_rounds find_leaders add_leader leaders_of last_term_with_leader
    get_state
found_second = (check_one_leader_iff 0 rounds).0 refl

check_one_leader_iff_example : (check_one_leader rounds ≡ passed 0) ↔ Finds 0 (take 10 rounds)
check_one_leader_iff_example = check_one_leader_iff 0 rounds

-- The leader takes command 9, and two of the servers have it at the second look.
abbrev attempt : Attempt (List (Item ℕ)) ℕ
attempt = record {
  servers = servers;
  looks = ([] ∷ [] ∷ [] ∷ []) ∷ (((pos 1, 9) ∷ []) ∷ [] ∷ ((pos 1, 9) ∷ []) ∷ []) ∷ [];
}

one-IsAgreed_example :
    (k : ℕ) × (seen : Attempt (List (Item ℕ)) ℕ) × (get_elem? (attempt ∷ []) k ≡ some seen)
    × IsAgreed 9 2 (pos 1) seen
unfolding one try_start poll start n_committed lookup
one-IsAgreed_example =
    one-IsAgreed (λ a b. a == b) (λ a b. (λ h. ground arith, λ h. ground arith)) 9 2 false 0 (pos 1)
      (attempt ∷ []) refl
