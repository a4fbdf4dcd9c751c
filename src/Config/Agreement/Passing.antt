-- ===== src/Config/Agreement/Passing.antt =====
-- When `one` of Task5/raft/config.go passes.
use unique_freshman.Prelude.{
  ℕ, zero, suc, ◌+◌, ◌≤◌, ◌<◌, ◌≡◌, ◌↔◌, ◌⊎◌, refl, ap, ◌∙◌, ℤ, minus_one, ltb, leb, eqb_ℤ, Bool,
  true, false, ◌&&◌, List, [], ◌∷◌, Option, none, some, if◌then◌else◌, length, get_elem?, arith,
  Option-cases, inl, inr,
}
use unique_freshman.Raft.Gob.{Gob}
use unique_freshman.Config.{passed, lookup, n_committed, is_other}
use unique_freshman.Config.Agreement.{Logs, Submission, Attempt, try_start, poll, one}
use unique_freshman.Config.Agreement.Holders.{holders, AllHold}
use unique_freshman.Config.Agreement.Agreed.{try_start-IsTried}

module _ {Command : Type 0} (same : Command → Command → Bool)
    (same_iff : (a b : Command) → (same a b ≡ true) ↔ (a ≡ b)) where
  is_other-false :
      (cur : Option Command) (v cmd : Command)
      → v ≡ cmd
      → ((cur ≡ none) ⊎ (cur ≡ some cmd))
      → is_other same cur v ≡ false
  is_other-false none v cmd e before = refl
  is_other-false (some c) v cmd e before =
      let eq : c ≡ v = ground arith in ground (arith, (same_iff c v).1 eq)

  -- Where no log has another value, the count goes through.
  n_committed-passed :
      (index : ℤ) (count : ℕ) (cur : Option Command) (cmd : Command) (logs : Logs Command)
      → AllHold index cmd logs
      → ((cur ≡ none) ⊎ (cur ≡ some cmd))
      → (out : Option Command) × (n_committed same index count cur logs
          ≡ passed (count + holders index logs, out))
        × ((out ≡ some cmd) ⊎ ((out ≡ none) × (cur ≡ none) × (holders index logs ≡ 0)))
  unfolding n_committed holders
  n_committed-passed index count cur cmd [] all (inl nothing) =
      (cur, ap (λ n. passed (n, cur)) (ground arith), inr (nothing, nothing, refl))
  n_committed-passed index count cur cmd [] all (inr had) =
      (cur, ap (λ n. passed (n, cur)) (ground arith), inl had)
  n_committed-passed index count cur cmd (log ∷ logs) all before =
      let rest : AllHold index cmd logs = λ j l v here found. all (suc j) l v here found in
      elim (Option-cases (lookup index log)) [
        | inl nothing ↦
            let (out, run, what) = n_committed-passed index count cur cmd logs rest before in
            (out, rw (n_committed, holders, nothing) run, rw (holders, nothing) what)
        | inr (v, found) ↦
            let is_cmd : v ≡ cmd = all 0 log v refl found in
            let (out, run, what) =
              n_committed-passed index (suc count) (some v) cmd logs rest (inr (ap some is_cmd)) in
            let fine = is_other-false cur v cmd is_cmd before in
            let sum : suc count + holders index logs ≡ count + suc (holders index logs) =
              omega arith in
            (
              out,
              rw (n_committed, holders, found, fine) (run ∙ ap (λ n. passed (n, out)) sum),
              elim what [ inl known ↦ inl known | inr (_, absent, _) ↦ absurd (ground arith) ],
            )
      ]

  -- A look at logs in which no server has another value.
  poll-next :
      (cmd : Command) (expected : ℕ) (index : ℤ) (logs : Logs Command) (looks : List (Logs Command))
      → AllHold index cmd logs
      → poll same cmd expected index (logs ∷ looks) ≡ (
          if ltb 0 (holders index logs) && leb expected (holders index logs)
          then passed true
          else poll same cmd expected index looks)
  unfolding poll
  poll-next cmd expected index logs looks all =
      let (out, run, what) = n_committed-passed index 0 none cmd logs all (inl refl) in
      let self = (same_iff cmd cmd).1 refl in
      elim what [
        | inl known ↦ rw (poll, run, known) (ground (arith, self))
        | inr (absent, _, empty) ↦ rw (poll, run, absent) (ground (arith, self))
      ]

  poll-true :
      (cmd : Command) (expected : ℕ) (index : ℤ) (looks : List (Logs Command)) (m : ℕ)
      (logs : Logs Command)
      → ((k : ℕ) (seen : Logs Command) → get_elem? looks k ≡ some seen → AllHold index cmd seen)
      → get_elem? looks m ≡ some logs
      → 0 < holders index logs
      → expected ≤ holders index logs
      → poll same cmd expected index looks ≡ passed true
  poll-true cmd expected index [] m logs all there any enough = absurd (ground arith)
  poll-true cmd expected index (seen ∷ looks) zero logs all there any enough =
      let is : seen ≡ logs = ground arith in
      poll-next cmd expected index seen looks (all 0 seen refl) ∙ rw (is) (ground arith)
  poll-true cmd expected index (seen ∷ looks) (suc m) logs all there any enough =
      let later =
        poll-true cmd expected index looks m logs (λ k l h. all (suc k) l h) there any enough in
      poll-next cmd expected index seen looks (all 0 seen refl) ∙ ground (arith, later)

module _ {Bytes Command : Type 0} ⦃gob : Gob Bytes Command⦄ (same : Command → Command → Bool)
    (same_iff : (a b : Command) → (same a b ≡ true) ↔ (a ≡ b)) where
  -- `same` decides equality of commands. If the first round of `one` finds a server that takes the
  -- command, no look of that round shows another value at its index, and at one look some server, and
  -- no fewer than expected, have a value there, then `one` passes with that index.
  pub one-passed :
      (cmd : Command) (expected : ℕ) (retry : Bool) (starts s m : ℕ) (t : Submission Bytes Command)
      (attempt : Attempt Bytes Command) (attempts : List (Attempt Bytes Command))
      (logs : Logs Command)
      → try_start cmd attempt.servers (length attempt.servers) starts ≡ (s, some t)
      → ((k : ℕ) (seen : Logs Command)
          → get_elem? attempt.looks k ≡ some seen
          → AllHold t.index cmd seen)
      → get_elem? attempt.looks m ≡ some logs
      → 0 < holders t.index logs
      → expected ≤ holders t.index logs
      → one same cmd expected retry starts (attempt ∷ attempts) ≡ passed t.index
  unfolding one
  one-passed cmd expected retry starts s m t attempt attempts logs found all there any enough =
      let (rf, _, _, end) =
        try_start-IsTried cmd attempt.servers (length attempt.servers) starts s t found in
      let done =
        poll-true same same_iff cmd expected t.index attempt.looks m logs all there any enough in
      let real : eqb_ℤ t.index minus_one ≡ false = rw end (ground arith) in
      rw (one, found, real, done) refl
