-- ===== src/Config/Leaders.antt =====
-- `checkOneLeader` of Task5/raft/config.go: the leader of the latest term, where no term has two.
-- The loop over the Go map `leaders` is in the order of the list here: in Go it has none, which
-- changes neither the latest term nor whether a term has two leaders.
pub mod Unique
pub mod Exact
use unique_freshman.Prelude.{
  ℕ, zero, suc, ◌+◌, ◌≤◌, ◌<◌, ◌≡◌, refl, sym, ap, ◌∙◌, subst, ℤ, pos, minus_one, ◌≤ℤ◌, ◌<ℤ◌, ltb,
  ltb_ℤ, eqb_ℤ, Bool, true, false, List, [], ◌∷◌, ◌++◌, Option, none, some, if◌then◌else◌, length,
  get_elem?, take, arith, Bool-cases, Option-cases, inl, inr, append_assoc, append-nil, ◌&&◌,
}
use unique_freshman.Raft.Types.{Raft, leader}
use unique_freshman.Raft.State.{get_state}
use unique_freshman.Config.{
  Check, passed, failed, panicked, Check-cases, failed-ne-passed, panicked-ne-passed,
}

-- The map `leaders` from a term to the servers that lead in it.
abbrev pub LeaderMap : Type 0
LeaderMap = List (ℤ × List ℕ)

-- `leaders[term] = append(leaders[term], i)`
unfoldable pub add_leader : ℤ → ℕ → LeaderMap → LeaderMap
add_leader term i [] = (term, i ∷ []) ∷ []
add_leader term i ((t, is) ∷ m) =
    let rest = add_leader term i m in if eqb_ℤ t term then (t, is ++ i ∷ []) ∷ m else (t, is) ∷ rest

-- `leaders[term]`, which is `nil` for a term that is not there.
unfoldable pub leaders_of : ℤ → LeaderMap → List ℕ
leaders_of term [] = []
leaders_of term ((t, is) ∷ m) = let rest = leaders_of term m in if eqb_ℤ t term then is else rest

-- The loop over the map, from `lastTermWithLeader` on.
unfoldable pub last_term_with_leader : ℤ → LeaderMap → Check ℤ
last_term_with_leader last [] = passed last
last_term_with_leader last ((t, is) ∷ m) =
    let rest = last_term_with_leader (if ltb_ℤ last t then t else last) m in
    if ltb 1 (length is) then failed else rest

module _ {Bytes Command : Type 0} where
  -- The loop over the servers, from server `i` on.
  unfoldable pub find_leaders :
      ℕ → LeaderMap → List (Bool × Option (Raft Bytes Command)) → Check LeaderMap
  find_leaders i m [] = passed m
  find_leaders i m ((false, rf) ∷ servers) = find_leaders (suc i) m servers
  find_leaders i m ((true, none) ∷ servers) = panicked
  find_leaders i m ((true, some rf) ∷ servers) =
      let (term, is_leader) = get_state rf in
      find_leaders (suc i) (if is_leader then add_leader term i m else m) servers

  -- The rounds of the outer loop, with what each of them sees of the servers.
  unfoldable pub check_rounds : List (List (Bool × Option (Raft Bytes Command))) → Check ℕ
  check_rounds [] = failed
  check_rounds (servers ∷ rounds) = elim (find_leaders 0 [] servers) [
    | failed ↦ failed
    | panicked ↦ panicked
    | passed [] ↦ check_rounds rounds
    | passed (entry ∷ m) ↦ elim (last_term_with_leader minus_one (entry ∷ m)) [
      | failed ↦ failed
      | panicked ↦ panicked
      | passed last ↦ elim (leaders_of last (entry ∷ m)) [ [] ↦ panicked | i ∷ is ↦ passed i ]
    ]
  ]

  -- The outer loop has ten rounds; `rounds` is what they see, one after the other.
  unfoldable pub check_one_leader : List (List (Bool × Option (Raft Bytes Command))) → Check ℕ
  unfolding check_rounds
  check_one_leader rounds = check_rounds (take 10 rounds)

  -- The connected servers that lead in a term, by their indices from `i` on.
  unfoldable pub leading : ℤ → ℕ → List (Bool × Option (Raft Bytes Command)) → List ℕ
  unfolding get_state
  leading t i [] = []
  leading t i ((false, rf) ∷ servers) = leading t (suc i) servers
  leading t i ((true, none) ∷ servers) = leading t (suc i) servers
  leading t i ((true, some rf) ∷ servers) =
      let rest = leading t (suc i) servers in
      if (get_state rf).1 && eqb_ℤ rf.current_term t then i ∷ rest else rest

  -- Every connected server runs.
  abbrev pub AllRun : List (Bool × Option (Raft Bytes Command)) → Type 0
  AllRun [] = Unit
  AllRun ((false, rf) ∷ servers) = AllRun servers
  AllRun ((true, none) ∷ servers) = ⊥
  AllRun ((true, some rf) ∷ servers) = AllRun servers
