-- ===== src/Config.antt =====
-- What the tester checks of the peers (Task5/raft/config.go): their terms and leaders, and the
-- messages that they send to the service.
pub mod Agree
pub mod Agreement
pub mod Leaders
pub mod Reader
pub mod Statistics
pub mod Testbed
use unique_freshman.Prelude.{
  ℕ, ℤ, pos, minus_one, ◌+ℤ◌, ◌-ℤ◌, ltb_ℤ, eqb_ℤ, Bool, true, false, not, ◌&&◌, List, [], ◌∷◌,
  Option, none, some, ◌>>=◌, if◌then◌else◌, get_elem?, set, ◌≡◌, ◌≢◌, refl, ◌⊎◌, inl, inr,
}
use unique_freshman.Raft.Types.{ApplyMsg, Raft}
use unique_freshman.Raft.State.{get_state}

-- How a check ends: it goes on with a value, it calls `Fatalf`, or it uses a peer that is `nil`.
pub data Check (A : Type 0) : Type 0 where
  passed : A → Check A
  failed panicked : Check A

pub Check-cases :
    {A : Type 0} (c : Check A) → ((a : A) × (c ≡ passed a)) ⊎ (c ≡ failed) ⊎ (c ≡ panicked)
Check-cases (passed a) = inl (a, refl)
Check-cases failed = inr (inl refl)
Check-cases panicked = inr (inr refl)

pub failed-ne-passed : {A : Type 0} {a : A} → failed ≢ passed a
failed-ne-passed h = cc

pub panicked-ne-passed : {A : Type 0} {a : A} → panicked ≢ passed a
panicked-ne-passed h = cc

module _ {Bytes Command : Type 0} where
  -- The loops over the servers, each with `connected[i]` and `rafts[i]`; `term` is the local of
  -- `checkTerms`.
  unfoldable pub check_terms : ℤ → List (Bool × Option (Raft Bytes Command)) → Check ℤ
  check_terms term [] = passed term
  check_terms term ((false, rf) ∷ servers) = check_terms term servers
  check_terms term ((true, none) ∷ servers) = panicked
  check_terms term ((true, some rf) ∷ servers) =
      let (x_term, _) = get_state rf in
      let first = check_terms x_term servers in
      let rest = check_terms term servers in
      if eqb_ℤ term minus_one then first else (if eqb_ℤ term x_term then rest else failed)

  unfoldable pub check_no_leader : List (Bool × Option (Raft Bytes Command)) → Check Unit
  check_no_leader [] = passed tt
  check_no_leader ((false, rf) ∷ servers) = check_no_leader servers
  check_no_leader ((true, none) ∷ servers) = panicked
  check_no_leader ((true, some rf) ∷ servers) =
      let rest = check_no_leader servers in
      let (_, is_leader) = get_state rf in if is_leader then failed else rest

module _ {Command : Type 0} where
  -- `cfg.logs[j]`, the newest write first.
  unfoldable pub lookup : ℤ → List (ℤ × Command) → Option Command
  lookup index [] = none
  lookup index ((i, v) ∷ log) =
      let rest = lookup index log in if eqb_ℤ i index then some v else rest

-- The fields of the tester that the readers of `applyCh` share.
pub record Config (Command : Type 0) : Type 0 where
  pub logs : List (List (ℤ × Command))
  pub max_index : ℤ

-- The error that a message raises.
pub data Verdict : Type 0 where
  fine differs out_of_order : Verdict

-- Values are compared by `same`, Go's `==`.
module _ {Command : Type 0} (same : Command → Command → Bool) where
  unfoldable pub has_other : ℤ → Command → List (List (ℤ × Command)) → Bool
  unfolding lookup
  has_other index v [] = false
  has_other index v (log ∷ logs) =
      let rest = has_other index v logs in
      elim (lookup index log) [ none ↦ rest | some old ↦ if same old v then rest else true ]

  -- The reader of server `i` takes a message.
  unfoldable pub read_message :
      ℕ → ApplyMsg Command → Config Command → Option (Config Command × Verdict)
  unfolding has_other
  read_message i m cfg =
      let other = has_other m.command_index m.command cfg.logs in
      let max_index =
        if ltb_ℤ cfg.max_index m.command_index then m.command_index else cfg.max_index in
      if not m.command_valid
      then some (cfg, fine)
      else (get_elem? cfg.logs i >>= λ log.
          let prevok : Bool = elim (lookup (m.command_index -ℤ pos 1) log) [
            | none ↦ false
            | some v ↦ true
          ] in
          let logs = set cfg.logs i ((m.command_index, m.command) ∷ log) in
          some (
            record { logs = logs; max_index = max_index },
            if ltb_ℤ (pos 1) m.command_index && not prevok
                then out_of_order
                else if other
                then differs
                else fine,
          ))

  -- `count > 0 && cmd != cmd1`: there is a value once the count is not 0.
  abbrev pub is_other : Option Command → Command → Bool
  is_other none cmd1 = false
  is_other (some cmd) cmd1 = not (same cmd cmd1)

  -- How many servers have a value at the index, from a count and a value on.
  unfoldable pub n_committed :
      ℤ → ℕ → Option Command → List (List (ℤ × Command)) → Check (ℕ × Option Command)
  n_committed index count cmd [] = passed (count, cmd)
  n_committed index count cmd (log ∷ logs) = elim (lookup index log) [
    | none ↦ n_committed index count cmd logs
    | some cmd1 ↦
        if is_other cmd cmd1 then failed else n_committed index (ℕ.suc count) (some cmd1) logs
  ]
