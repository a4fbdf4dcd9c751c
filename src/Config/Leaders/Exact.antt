-- ===== src/Config/Leaders/Exact.antt =====
-- When `checkOneLeader` of Task5/raft/config.go passes with a server.
use unique_freshman.Prelude.{
  ℕ, suc, take, ◌≤◌, ◌≡◌, ◌≢◌, ◌↔◌, ◌⊎◌, refl, sym, ap, ◌∙◌, ℤ, minus_one, ◌≤ℤ◌, ◌<ℤ◌, ltb_ℤ, eqb_ℤ,
  Bool, true, false, List, [], ◌∷◌, ◌++◌, Option, none, some, if◌then◌else◌, length, arith, inl,
  inr, Bool-cases,
}
use unique_freshman.Raft.Types.{Raft}
use unique_freshman.Raft.State.{get_state}
use unique_freshman.Config.{passed, Check-cases, failed-ne-passed, panicked-ne-passed}
use unique_freshman.Config.Leaders.{
  LeaderMap, add_leader, leaders_of, last_term_with_leader, find_leaders, check_rounds,
  check_one_leader, leading, AllRun,
}
use unique_freshman.Config.Leaders.Unique.{
  OneLeader, one_leader, no_leader_seen, find_leaders-AllRun, find_leaders-leading,
  leaders_of-add_leader, head_of,
}

-- No entry is empty, and no term has two entries.
abbrev IsMap : LeaderMap → Type 0
IsMap [] = Unit
IsMap ((t, is) ∷ m) = (is ≢ []) × (leaders_of t m ≡ []) × IsMap m

add_last : (is : List ℕ) (i : ℕ) → (is ++ i ∷ []) ≢ []
add_last [] i h = cc
add_last (x ∷ is) i h = cc

add_leader-IsMap : (t : ℤ) (i : ℕ) (m : LeaderMap) → IsMap m → IsMap (add_leader t i m)
unfolding add_leader leaders_of
add_leader-IsMap t i [] good = (λ h. cc, refl, tt)
add_leader-IsMap t i ((u, is) ∷ m) (full, alone, good) = elim (Bool-cases (eqb_ℤ u t)) [
  | inl same ↦ rw (same) (add_last is i, alone, good)
  | inr other ↦
      rw (other)
        (full, ground (arith, leaders_of-add_leader u t i m, alone), add_leader-IsMap t i m good)
]

-- The loop over the map, where every entry has one leader and `term` is the latest.
last_term-passed :
    (term last : ℤ) (m : LeaderMap)
    → IsMap m
    → ((u : ℤ) → length (leaders_of u m) ≤ 1)
    → ((u : ℤ) → term <ℤ u → leaders_of u m ≡ [])
    → last ≤ℤ term
    → ((leaders_of term m ≢ []) ⊎ (last ≡ term))
    → last_term_with_leader last m ≡ passed term
unfolding last_term_with_leader leaders_of
last_term-passed term last [] good few beyond low (inl there) = absurd (there refl)
last_term-passed term last [] good few beyond low (inr same) = ap passed same
last_term-passed term last ((t, is) ∷ m) (full, alone, good) few beyond low there =
    let later : ℤ = if ltb_ℤ last t then t else last in
    let own : length is ≤ 1 = ground (arith, few t) in
    let fits : t ≤ℤ term = elim (Bool-cases (ltb_ℤ term t)) [
      | inl out ↦ absurd (full (ground (arith, beyond t)))
      | inr inside ↦ ground arith
    ] in
    let rest : last_term_with_leader later m ≡ passed term =
      last_term-passed term later m good (λ u. ground (arith, few u, alone))
        (λ u more. ground (arith, beyond u, alone)) (ground arith)
        (elim (Bool-cases (eqb_ℤ t term)) [
          | inl is_last ↦ inr (ground arith)
          | inr not_last ↦ elim there [
            | inl some_there ↦ inl (λ none_there. some_there (ground (arith, none_there)))
            | inr same ↦ inr (ground arith)
          ]
        ]) in
    ground (arith, rest)

IsMap-empty : (m : LeaderMap) → IsMap m → ((u : ℤ) → leaders_of u m ≡ []) → m ≡ []
unfolding leaders_of
IsMap-empty [] good none_there = refl
IsMap-empty ((t, is) ∷ m) (full, alone, good) none_there =
    absurd (full (ground (arith, none_there t)))

module _ {Bytes Command : Type 0} where
  find_leaders-passed :
      (i : ℕ) (m : LeaderMap) (servers : List (Bool × Option (Raft Bytes Command)))
      → IsMap m
      → AllRun servers
      → (m' : LeaderMap) × (find_leaders i m servers ≡ passed m') × IsMap m'
  unfolding find_leaders
  find_leaders-passed i m [] good run = (m, refl, good)
  find_leaders-passed i m ((false, rf) ∷ servers) good run =
      find_leaders-passed (suc i) m servers good run
  find_leaders-passed i m ((true, none) ∷ servers) good run = absurd run
  find_leaders-passed i m ((true, some rf) ∷ servers) good run =
      elim (Bool-cases (get_state rf).1) [
        | inl leads ↦ rw (leads) (
            find_leaders-passed (suc i) (add_leader (get_state rf).0 i m) servers
              (add_leader-IsMap (get_state rf).0 i m good) run)
        | inr not_leads ↦ rw (not_leads) (find_leaders-passed (suc i) m servers good run)
      ]

  -- A round in which all connected servers run and none leads.
  pub record HasNone (servers : List (Bool × Option (Raft Bytes Command))) : Type 0 where
    pub runs : AllRun servers
    pub nobody : (u : ℤ) → leading u 0 servers ≡ []

  -- The first round in which a server leads ends the check, with server `i`.
  pub data Finds (i : ℕ) : List (List (Bool × Option (Raft Bytes Command))) → Type 0 where
    now :
        {servers : List (Bool × Option (Raft Bytes Command))}
        {rounds : List (List (Bool × Option (Raft Bytes Command)))}
        → OneLeader i servers
        → Finds i (servers ∷ rounds)
    later :
        {servers : List (Bool × Option (Raft Bytes Command))}
        {rounds : List (List (Bool × Option (Raft Bytes Command)))}
        → HasNone servers
        → Finds i rounds
        → Finds i (servers ∷ rounds)

  passed-Finds :
      (i : ℕ) (rounds : List (List (Bool × Option (Raft Bytes Command))))
      → check_rounds rounds ≡ passed i
      → Finds i rounds
  unfolding check_rounds
  passed-Finds i [] h = absurd (ground arith)
  passed-Finds i (servers ∷ rounds) h = elim (Check-cases (find_leaders 0 [] servers)) [
    | inl ([], found) ↦
        later
          (record {
            runs = find_leaders-AllRun 0 [] [] servers found;
            nobody = λ u. no_leader_seen u servers found;
          })
          (passed-Finds i rounds (rw (found, check_rounds) at h))
    | inl (entry ∷ m, found) ↦ elim (Check-cases (last_term_with_leader minus_one (entry ∷ m))) [
      | inl (last, end) ↦
          let (is, here) = head_of i last (entry ∷ m) (rw (found, check_rounds, end) at h) in
          now (one_leader i is last (entry ∷ m) servers found end here)
      | inr (inl bad) ↦ absurd (failed-ne-passed (rw (found, check_rounds, bad) at h))
      | inr (inr bad) ↦ absurd (panicked-ne-passed (rw (found, check_rounds, bad) at h))
    ]
    | inr (inl bad) ↦ absurd (failed-ne-passed (rw (bad, check_rounds) at h))
    | inr (inr bad) ↦ absurd (panicked-ne-passed (rw (bad, check_rounds) at h))
  ]

  -- What is seen of a map whose latest term has the leader `i`.
  ends_with :
      (i : ℕ) (term : ℤ) (m : LeaderMap) (servers : List (Bool × Option (Raft Bytes Command)))
      (rounds : List (List (Bool × Option (Raft Bytes Command))))
      → find_leaders 0 [] servers ≡ passed m
      → last_term_with_leader minus_one m ≡ passed term
      → leaders_of term m ≡ i ∷ []
      → check_rounds (servers ∷ rounds) ≡ passed i
  unfolding check_rounds
  ends_with i term [] servers rounds found end here =
      absurd (unfold leaders_of in ground (arith, here))
  ends_with i term (entry ∷ m) servers rounds found end here =
      rw (check_rounds, found, end, here) refl

  OneLeader-passed :
      (i : ℕ) (servers : List (Bool × Option (Raft Bytes Command)))
      (rounds : List (List (Bool × Option (Raft Bytes Command))))
      → OneLeader i servers
      → check_rounds (servers ∷ rounds) ≡ passed i
  unfolding check_rounds
  OneLeader-passed i servers rounds o =
      let (m, found, good) = find_leaders-passed 0 [] servers tt o.runs in
      let same : (u : ℤ) → leaders_of u m ≡ leading u 0 servers =
        λ u. unfold leaders_of in find_leaders-leading u 0 [] m servers found in
      let here : leaders_of o.term m ≡ i ∷ [] = same o.term ∙ o.alone in
      let end =
        last_term-passed o.term minus_one m good (λ u. rw (same u) (o.unique u))
          (λ u beyond. same u ∙ o.latest u beyond) o.from_start
          (inl (λ h. let no : i ∷ [] ≡ [] = sym here ∙ h in cc)) in
      ends_with i o.term m servers rounds found end here

  HasNone-next :
      (servers : List (Bool × Option (Raft Bytes Command)))
      (rounds : List (List (Bool × Option (Raft Bytes Command))))
      → HasNone servers
      → check_rounds (servers ∷ rounds) ≡ check_rounds rounds
  unfolding check_rounds
  HasNone-next servers rounds o =
      let (m, found, good) = find_leaders-passed 0 [] servers tt o.runs in
      let same : (u : ℤ) → leaders_of u m ≡ leading u 0 servers =
        λ u. unfold leaders_of in find_leaders-leading u 0 [] m servers found in
      let empty = IsMap-empty m good (λ u. same u ∙ o.nobody u) in
      rw (check_rounds, found ∙ ap passed empty) refl

  check_rounds_iff :
      (i : ℕ) (rounds : List (List (Bool × Option (Raft Bytes Command))))
      → (check_rounds rounds ≡ passed i) ↔ Finds i rounds
  check_rounds_iff i rounds = (passed-Finds i rounds, found rounds)
    where
      found :
          (rs : List (List (Bool × Option (Raft Bytes Command))))
          → Finds i rs
          → check_rounds rs ≡ passed i
      found [] h = elim h [ ]
      found (servers ∷ rs) (now o) = OneLeader-passed i servers rs o
      found (servers ∷ rs) (later o more) = HasNone-next servers rs o ∙ found rs more

  -- `checkOneLeader` passes with server `i` exactly if among its ten rounds there
  -- is a first one in which a connected
  -- server leads, and in that round `i` is the only connected leader of a term, which is -1 or later,
  -- no connected server leads in a later term, and no two in any term; and in that round and those
  -- before it every connected server runs.
  pub check_one_leader_iff :
      (i : ℕ) (rounds : List (List (Bool × Option (Raft Bytes Command))))
      → (check_one_leader rounds ≡ passed i) ↔ Finds i (take 10 rounds)
  unfolding check_one_leader
  check_one_leader_iff i rounds = check_rounds_iff i (take 10 rounds)
