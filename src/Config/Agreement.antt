-- ===== src/Config/Agreement.antt =====
-- `wait` and `one` of Task5/raft/config.go: agreement on a command. Each round of a loop comes with
-- what it sees of the servers and of `logs`; how many rounds there are is up to the clock.
pub mod Holders
pub mod Waiting
pub mod Agreed
pub mod Passing
use unique_freshman.Prelude.{
  ℕ, zero, suc, ◌+◌, ◌%◌, ℤ, minus_one, ltb, leb, ltb_ℤ, eqb_ℤ, Bool, true, false, ◌&&◌, List, [],
  ◌∷◌, Option, none, some, if◌then◌else◌, length, get_elem?,
}
use unique_freshman.Raft.Types.{Raft}
use unique_freshman.Raft.Gob.{Gob}
use unique_freshman.Raft.State.{get_state}
use unique_freshman.Raft.Client.{start}
use unique_freshman.Config.{Check, passed, failed, panicked, n_committed}

-- `cfg.logs`
abbrev pub Logs : Type 0 → Type 0
Logs Command = List (List (ℤ × Command))

-- What a round of `wait` sees: the logs before its pause, and the servers after it.
pub record Glance (Bytes Command : Type 0) : Type 0 where
  pub logs : Logs Command
  pub rafts : List (Option (Raft Bytes Command))

-- The command that was decided, or -1 as a server has moved on to a later term.
pub data Waited (Command : Type 0) : Type 0 where
  decided : Option Command → Waited Command
  moved_on : Waited Command

module _ {Bytes Command : Type 0} where
  -- Whether a server is in a later term.
  unfoldable pub in_later_term : ℤ → List (Option (Raft Bytes Command)) → Check Bool
  in_later_term start_term [] = passed false
  in_later_term start_term (none ∷ rafts) = panicked
  in_later_term start_term (some rf ∷ rafts) =
      let rest = in_later_term start_term rafts in
      let (t, _) = get_state rf in if ltb_ℤ start_term t then passed true else rest

module _ {Command : Type 0} (same : Command → Command → Bool) (index : ℤ) where
  -- After the loop.
  unfoldable pub last_look : ℕ → Logs Command → Check (Waited Command)
  last_look n logs = elim (n_committed same index 0 none logs) [
    | failed ↦ failed
    | panicked ↦ panicked
    | passed (nd, cmd) ↦ if ltb nd n then failed else passed (decided cmd)
  ]

module _ {Bytes Command : Type 0} (same : Command → Command → Bool) (index : ℤ) where
  -- The rounds of the loop, at most 30, and what the logs are after it.
  unfoldable pub wait : ℕ → ℤ → List (Glance Bytes Command) → Logs Command → Check (Waited Command)
  unfolding last_look
  wait n start_term [] logs = last_look same index n logs
  wait n start_term (glance ∷ glances) logs =
      let rest = wait n start_term glances logs in
      elim (n_committed same index 0 none glance.logs) [
        | failed ↦ failed
        | panicked ↦ panicked
        | passed (nd, _) ↦
            if leb n nd
            then last_look same index n logs
            else (if ltb_ℤ minus_one start_term
                then elim (in_later_term start_term glance.rafts) [
                  | failed ↦ failed
                  | panicked ↦ panicked
                  | passed true ↦ passed moved_on
                  | passed false ↦ rest
                ]
                else rest)
      ]

-- A server that has taken the command, and the index that it gave it.
pub record Submission (Bytes Command : Type 0) : Type 0 where
  pub raft : Raft Bytes Command
  pub index : ℤ

-- What a round of `one` sees: the servers, each with `connected[i]` and `rafts[i]`, and the logs at
-- each look within two seconds.
pub record Attempt (Bytes Command : Type 0) : Type 0 where
  pub servers : List (Bool × Option (Raft Bytes Command))
  pub looks : List (Logs Command)

module _ {Bytes Command : Type 0} ⦃gob : Gob Bytes Command⦄ where
  -- The loop over the servers for `k` rounds, with the local `starts`.
  unfoldable pub try_start :
      Command
      → List (Bool × Option (Raft Bytes Command))
      → ℕ
      → ℕ
      → ℕ × Option (Submission Bytes Command)
  unfolding start
  try_start cmd servers zero starts = (starts, none)
  try_start cmd servers (suc k) starts =
      let starts' = (starts + 1) % length servers in
      let rest = try_start cmd servers k starts' in
      elim (get_elem? servers starts') [
        | some (true, some rf) ↦
            let (rf', index1, _, ok) = start cmd rf in
            if ok then (starts', some (record { raft = rf'; index = index1 })) else rest
        | some (true, none) ↦ rest
        | some (false, _) ↦ rest
        | none ↦ rest
      ]

module _ {Command : Type 0} (same : Command → Command → Bool) (cmd : Command)
    (expected_servers : ℕ) where
  -- `cmd1 == cmd`
  abbrev pub is_cmd : Option Command → Bool
  is_cmd none = false
  is_cmd (some cmd1) = same cmd1 cmd

  -- Whether the command is committed within the two seconds.
  unfoldable pub poll : ℤ → List (Logs Command) → Check Bool
  poll index [] = passed false
  poll index (logs ∷ looks) =
      let rest = poll index looks in
      elim (n_committed same index 0 none logs) [
        | failed ↦ failed
        | panicked ↦ panicked
        | passed (nd, cmd1) ↦
            if ltb 0 nd && leb expected_servers nd && is_cmd cmd1 then passed true else rest
      ]

module _ {Bytes Command : Type 0} ⦃gob : Gob Bytes Command⦄ (same : Command → Command → Bool)
    (cmd : Command) (expected_servers : ℕ) where
  -- The rounds of the outer loop within ten seconds, with the local `starts`.
  unfoldable pub one : Bool → ℕ → List (Attempt Bytes Command) → Check ℤ
  unfolding try_start poll
  one retry starts [] = failed
  one retry starts (attempt ∷ attempts) =
      let (starts', tried) = try_start cmd attempt.servers (length attempt.servers) starts in
      let rest = one retry starts' attempts in
      elim tried [
        | none ↦ rest
        | some t ↦
            if eqb_ℤ t.index minus_one
            then rest
            else elim (poll same cmd expected_servers t.index attempt.looks) [
              | failed ↦ failed
              | panicked ↦ panicked
              | passed true ↦ passed t.index
              | passed false ↦ if retry then rest else failed
            ]
      ]
