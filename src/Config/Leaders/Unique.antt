-- ===== src/Config/Leaders/Unique.antt =====
-- What it means that `checkOneLeader` of Task5/raft/config.go passes with a server.
use unique_freshman.Prelude.{
  ℕ, zero, suc, ◌≤◌, ◌<◌, ◌≡◌, refl, sym, ap, ◌∙◌, subst, ℤ, minus_one, ◌≤ℤ◌, ◌<ℤ◌, ltb, ltb_ℤ,
  eqb_ℤ, Bool, true, false, List, [], ◌∷◌, ◌++◌, Option, none, some, if◌then◌else◌, length,
  get_elem?, arith, inl, inr, append_assoc, append-nil,
}
use unique_freshman.Raft.Types.{Raft}
use unique_freshman.Raft.State.{get_state}
use unique_freshman.Config.{
  Check, passed, panicked, Check-cases, failed-ne-passed, panicked-ne-passed,
}
use unique_freshman.Config.Leaders.{
  LeaderMap, add_leader, leaders_of, last_term_with_leader, find_leaders, check_rounds, leading,
  AllRun,
}

pub leaders_of-add_leader :
    (u t : ℤ) (i : ℕ) (m : LeaderMap)
    → leaders_of u (add_leader t i m)
      ≡ (if eqb_ℤ t u then leaders_of u m ++ i ∷ [] else leaders_of u m)
unfolding leaders_of add_leader
leaders_of-add_leader u t i [] = ground arith
leaders_of-add_leader u t i ((v, is) ∷ m) = ground (arith, leaders_of-add_leader u t i m)

module _ {Bytes Command : Type 0} where
  pub find_leaders-leading :
      (u : ℤ) (i : ℕ) (m m' : LeaderMap) (servers : List (Bool × Option (Raft Bytes Command)))
      → find_leaders i m servers ≡ passed m'
      → leaders_of u m' ≡ leaders_of u m ++ leading u i servers
  unfolding find_leaders leading
  find_leaders-leading u i m m' [] h =
      let same : m ≡ m' = ground arith in rw (append-nil (leaders_of u m), same) refl
  find_leaders-leading u i m m' ((false, rf) ∷ servers) h =
      find_leaders-leading u (suc i) m m' servers h
  find_leaders-leading u i m m' ((true, none) ∷ servers) h = absurd (ground arith)
  find_leaders-leading u i m m' ((true, some rf) ∷ servers) h =
      let next : LeaderMap = if (get_state rf).1 then add_leader rf.current_term i m else m in
      ground (
        arith,
        find_leaders-leading u (suc i) next m' servers h,
        leaders_of-add_leader u rf.current_term i m,
        append_assoc (leaders_of u m) (i ∷ []) (leading u (suc i) servers),
      )

-- No entry lists two servers, and none is of a later term than the last.
last_term-bounds :
    (last out : ℤ) (m : LeaderMap)
    → last_term_with_leader last m ≡ passed out
    → (last ≤ℤ out) × ((u : ℤ) → (length (leaders_of u m) ≤ 1) × (out <ℤ u → leaders_of u m ≡ []))
unfolding last_term_with_leader leaders_of
last_term-bounds last out [] h = (ground arith, λ u. (omega arith, λ _. refl))
last_term-bounds last out ((t, is) ∷ m) h =
    let later : ℤ = if ltb_ℤ last t then t else last in
    let few : ltb 1 (length is) ≡ false = ground arith in
    let rest : last_term_with_leader later m ≡ passed out = ground arith in
    let (low, all) = last_term-bounds later out m rest in
    (ground (arith, low), λ u. (ground (arith, all u), λ beyond. ground (arith, low, all u)))

pub head_of :
    (i : ℕ) (last : ℤ) (m : LeaderMap)
    → (elim (leaders_of last m) as (λ _. Check ℕ) [ [] ↦ panicked | j ∷ is ↦ passed j ]) ≡ passed i
    → (is : List ℕ) × (leaders_of last m ≡ i ∷ is)
head_of i last m h = pick (leaders_of last m) h
  where
    pick :
        (l : List ℕ)
        → (elim l as (λ _. Check ℕ) [ [] ↦ panicked | j ∷ is ↦ passed j ]) ≡ passed i
        → (is : List ℕ) × (l ≡ i ∷ is)
    pick [] e = absurd (ground arith)
    pick (j ∷ is) e = (is, ground arith)

no_more : (i : ℕ) (is : List ℕ) → length (i ∷ is) ≤ 1 → is ≡ []
no_more i [] h = refl
no_more i (j ∷ is) h = absurd (omega arith)

module _ {Bytes Command : Type 0} where
  -- The servers of a round in which one leads in the latest term, which is -1 or later, and no term
  -- has two leaders. The connected ones run.
  pub record OneLeader (i : ℕ) (servers : List (Bool × Option (Raft Bytes Command))) : Type 0 where
    pub term : ℤ
    pub alone : leading term 0 servers ≡ i ∷ []
    pub latest : (u : ℤ) → term <ℤ u → leading u 0 servers ≡ []
    pub unique : (u : ℤ) → length (leading u 0 servers) ≤ 1
    pub runs : AllRun servers
    pub from_start : minus_one ≤ℤ term

  pub find_leaders-AllRun :
      (i : ℕ) (m m' : LeaderMap) (servers : List (Bool × Option (Raft Bytes Command)))
      → find_leaders i m servers ≡ passed m'
      → AllRun servers
  unfolding find_leaders
  find_leaders-AllRun i m m' [] h = tt
  find_leaders-AllRun i m m' ((false, rf) ∷ servers) h = find_leaders-AllRun (suc i) m m' servers h
  find_leaders-AllRun i m m' ((true, none) ∷ servers) h = absurd (ground arith)
  find_leaders-AllRun i m m' ((true, some rf) ∷ servers) h =
      find_leaders-AllRun (suc i) _ m' servers h

  pub one_leader :
      (i : ℕ) (is : List ℕ) (last : ℤ) (m : LeaderMap)
      (servers : List (Bool × Option (Raft Bytes Command)))
      → find_leaders 0 [] servers ≡ passed m
      → last_term_with_leader minus_one m ≡ passed last
      → leaders_of last m ≡ i ∷ is
      → OneLeader i servers
  one_leader i is last m servers found end here =
      let same : (u : ℤ) → leaders_of u m ≡ leading u 0 servers =
        λ u. unfold leaders_of in find_leaders-leading u 0 [] m servers found in
      let (low, all) = last_term-bounds minus_one last m end in
      record {
        term = last;
        alone =
            sym (same last)
            ∙ here
            ∙ ap (λ l. i ∷ l) (no_more i is (subst (λ l. length l ≤ 1) here (all last).0));
        latest = λ u later. sym (same u) ∙ (all u).1 later;
        unique = λ u. rw (← same u) (all u).0;
        runs = find_leaders-AllRun 0 [] m servers found;
        from_start = low;
      }

  pub no_leader_seen :
      (u : ℤ) (servers : List (Bool × Option (Raft Bytes Command)))
      → find_leaders 0 [] servers ≡ passed []
      → leading u 0 servers ≡ []
  unfolding leaders_of
  no_leader_seen u servers found = sym (find_leaders-leading u 0 [] [] servers found)

  -- If the rounds of `checkOneLeader` pass with a server, they have seen it in a round as the only connected leader
  -- of a term, with no connected leader of a later term, and no two of any term; and no server led in
  -- the rounds before.
  pub check_rounds-OneLeader :
      (rounds : List (List (Bool × Option (Raft Bytes Command)))) (i : ℕ)
      → check_rounds rounds ≡ passed i
      → (k : ℕ) × (servers : List (Bool × Option (Raft Bytes Command))) × (get_elem? rounds k
          ≡ some servers)
        × OneLeader i servers
        × ((l : ℕ) (before : List (Bool × Option (Raft Bytes Command))) (u : ℤ)
            → l < k
            → get_elem? rounds l ≡ some before
            → leading u 0 before ≡ [])
  unfolding check_rounds
  check_rounds-OneLeader [] i h = absurd (ground arith)
  check_rounds-OneLeader (servers ∷ rounds) i h = elim (Check-cases (find_leaders 0 [] servers)) [
    | inl ([], found) ↦
        let (k, seen, there, one, before) =
          check_rounds-OneLeader rounds i (rw (found, check_rounds) at h) in
        (suc k, seen, there, one, earlier k found before)
    | inl (entry ∷ m, found) ↦ elim (Check-cases (last_term_with_leader minus_one (entry ∷ m))) [
      | inl (last, end) ↦
          let (is, here) = head_of i last (entry ∷ m) (rw (found, check_rounds, end) at h) in
          (
            0,
            servers,
            refl,
            one_leader i is last (entry ∷ m) servers found end here,
            λ l before u below. absurd (omega arith),
          )
      | inr (inl bad) ↦ absurd (failed-ne-passed (rw (found, check_rounds, bad) at h))
      | inr (inr bad) ↦ absurd (panicked-ne-passed (rw (found, check_rounds, bad) at h))
    ]
    | inr (inl bad) ↦ absurd (failed-ne-passed (rw (bad, check_rounds) at h))
    | inr (inr bad) ↦ absurd (panicked-ne-passed (rw (bad, check_rounds) at h))
  ]
    where
      earlier :
          (k : ℕ)
          → find_leaders 0 [] servers ≡ passed []
          → ((l : ℕ) (before : List (Bool × Option (Raft Bytes Command))) (u : ℤ)
              → l < k
              → get_elem? rounds l ≡ some before
              → leading u 0 before ≡ [])
          → (l : ℕ) (before : List (Bool × Option (Raft Bytes Command))) (u : ℤ) → l < suc k
          → get_elem? (servers ∷ rounds) l ≡ some before
          → leading u 0 before ≡ []
      earlier k found more zero before u below there =
          let same : servers ≡ before = ground arith in
          subst (λ s. leading u 0 s ≡ []) same (no_leader_seen u servers found)
      earlier k found more (suc l) before u below there = more l before u (omega arith) there
