-- ===== src/Config/Agreement/Waiting.antt =====
-- What it means that `wait` of Task5/raft/config.go returns.
use unique_freshman.Prelude.{
  ℕ, suc, ◌≤◌, ◌≡◌, ◌≢◌, ◌↔◌, refl, ap, ◌∙◌, subst, ℤ, minus_one, ltb, leb, Bool, true, false, List,
  [], ◌∷◌, Option, none, some, ltb_ℤ, ◌<ℤ◌, get_elem?, arith, Bool-cases, inl, inr,
}
use unique_freshman.Raft.Types.{Raft}
use unique_freshman.Raft.State.{get_state}
use unique_freshman.Config.{passed, Check-cases, failed-ne-passed, panicked-ne-passed, n_committed}
use unique_freshman.Config.Agreement.{
  Logs, Waited, Glance, decided, moved_on, in_later_term, last_look, wait,
}
use unique_freshman.Config.Agreement.Holders.{AllHold, holders, n_committed-holders}

module _ {Command : Type 0} where
  -- Enough servers have a value at the index, and all of them the one decided.
  abbrev pub IsDecided : ℤ → ℕ → Waited Command → Logs Command → Type 0
  IsDecided index n moved_on logs = Unit
  IsDecided index n (decided cmd) logs =
      (n ≤ holders index logs) × ((v : Command) → cmd ≡ some v → AllHold index v logs)

module _ {Command : Type 0} (same : Command → Command → Bool)
    (same_iff : (a b : Command) → (same a b ≡ true) ↔ (a ≡ b)) where
  last_look-IsDecided :
      (index : ℤ) (n : ℕ) (logs : Logs Command) (w : Waited Command)
      → last_look same index n logs ≡ passed w
      → IsDecided index n w logs
  unfolding last_look
  last_look-IsDecided index n logs moved_on h = tt
  last_look-IsDecided index n logs (decided cmd) h =
      elim (Check-cases (n_committed same index 0 none logs)) [
        | inl ((nd, out), looked) ↦
            let (total, all) = n_committed-holders same same_iff index 0 nd none out logs looked in
            elim (Bool-cases (ltb nd n)) [
              | inl few ↦ absurd (failed-ne-passed (rw (looked, last_look, few) at h))
              | inr enough ↦
                  let passes : passed (decided out) ≡ passed (decided cmd) =
                    rw (looked, last_look, enough) at h in
                  let same_cmd : out ≡ cmd = ground (arith, passes) in
                  (ground (arith, total), λ v e. (all v (same_cmd ∙ e)).0)
            ]
        | inr (inl bad) ↦ absurd (failed-ne-passed (rw (bad, last_look) at h))
        | inr (inr bad) ↦ absurd (panicked-ne-passed (rw (bad, last_look) at h))
      ]

  last_look-ne-moved_on :
      (index : ℤ) (n : ℕ) (logs : Logs Command) → last_look same index n logs ≢ passed moved_on
  unfolding last_look
  last_look-ne-moved_on index n logs h = elim (Check-cases (n_committed same index 0 none logs)) [
    | inl ((nd, out), looked) ↦ elim (Bool-cases (ltb nd n)) [
      | inl few ↦ failed-ne-passed (rw (looked, last_look, few) at h)
      | inr enough ↦
          let passes : passed (decided out) ≡ passed moved_on =
            rw (looked, last_look, enough) at h in
          ground (arith, passes)
    ]
    | inr (inl bad) ↦ failed-ne-passed (rw (bad, last_look) at h)
    | inr (inr bad) ↦ panicked-ne-passed (rw (bad, last_look) at h)
  ]

module _ {Bytes Command : Type 0} where
  -- A server was in a later term than `wait` began in.
  abbrev pub HasMovedOn : ℤ → List (Glance Bytes Command) → Type 0
  HasMovedOn start_term glances =
      (k : ℕ) × (glance : Glance Bytes Command) × (get_elem? glances k ≡ some glance)
      × (j : ℕ) × (rf : Raft Bytes Command) × (get_elem? glance.rafts j ≡ some (some rf))
      × (start_term <ℤ rf.current_term)

  -- What holds once `wait` returns.
  abbrev pub HasEnded :
      ℤ → ℕ → ℤ → List (Glance Bytes Command) → Logs Command → Waited Command → Type 0
  HasEnded index n start_term glances logs w =
      IsDecided index n w logs
      × (w ≡ moved_on → (minus_one <ℤ start_term) × HasMovedOn start_term glances)

  in_later_term-some :
      (start_term : ℤ) (rafts : List (Option (Raft Bytes Command)))
      → in_later_term start_term rafts ≡ passed true
      → (j : ℕ) × (rf : Raft Bytes Command) × (get_elem? rafts j ≡ some (some rf))
        × (start_term <ℤ rf.current_term)
  unfolding in_later_term get_state
  in_later_term-some start_term [] h = absurd (ground arith)
  in_later_term-some start_term (none ∷ rafts) h = absurd (ground arith)
  in_later_term-some start_term (some rf ∷ rafts) h =
      elim (Bool-cases (ltb_ℤ start_term rf.current_term)) [
        | inl later ↦ (0, rf, refl, ground arith)
        | inr not_later ↦
            let (j, other, there, beyond) =
              in_later_term-some start_term rafts (rw (in_later_term, not_later) at h) in
            (suc j, other, there, beyond)
      ]

module _ {Bytes Command : Type 0} (same : Command → Command → Bool)
    (same_iff : (a b : Command) → (same a b ≡ true) ↔ (a ≡ b)) where
  -- What `wait` returns at its last look.
  looked_last :
      (index : ℤ) (n : ℕ) (start_term : ℤ) (glances : List (Glance Bytes Command))
      (logs : Logs Command) (w : Waited Command)
      → last_look same index n logs ≡ passed w
      → HasEnded index n start_term glances logs w
  looked_last index n start_term glances logs w h = (
    last_look-IsDecided same same_iff index n logs w h,
    λ moved. absurd (last_look-ne-moved_on same same_iff index n logs (h ∙ ap passed moved)),
  )

  -- The next rounds end it.
  looked_again :
      (index : ℤ) (n : ℕ) (start_term : ℤ) (glance : Glance Bytes Command)
      (glances : List (Glance Bytes Command)) (logs : Logs Command) (w : Waited Command)
      → HasEnded index n start_term glances logs w
      → HasEnded index n start_term (glance ∷ glances) logs w
  looked_again index n start_term glance glances logs w (is, why) = (
    is,
    λ moved.
        let (began, (k, seen, there, j, rf, at_j, beyond)) = why moved in
        (began, (suc k, seen, there, j, rf, at_j, beyond)),
  )

  -- `same` decides equality of commands. If `wait` returns a value, then at its last look at least
  -- `n` servers had a value at the index, and all of them that one. If it returns -1, then it began
  -- with a term, and it has seen a server in a later one.
  pub wait-HasEnded :
      (index : ℤ) (n : ℕ) (start_term : ℤ) (glances : List (Glance Bytes Command))
      (logs : Logs Command) (w : Waited Command)
      → wait same index n start_term glances logs ≡ passed w
      → HasEnded index n start_term glances logs w
  unfolding wait
  wait-HasEnded index n start_term [] logs w h = looked_last index n start_term [] logs w h
  wait-HasEnded index n start_term (glance ∷ glances) logs w h =
      let later : wait same index n start_term glances logs ≡ passed w
          → HasEnded index n start_term (glance ∷ glances) logs w =
        λ h'.
          looked_again index n start_term glance glances logs w
            (wait-HasEnded index n start_term glances logs w h') in
      elim (Check-cases (n_committed same index 0 none glance.logs)) [
        | inl ((nd, out), looked) ↦ elim (Bool-cases (leb n nd)) [
          | inl enough ↦
              looked_last index n start_term (glance ∷ glances) logs w
                (rw (looked, wait, enough) at h)
          | inr few ↦ elim (Bool-cases (ltb_ℤ minus_one start_term)) [
            | inl began ↦ elim (Check-cases (in_later_term start_term glance.rafts)) [
              | inl (true, seen) ↦
                  let passes : passed moved_on ≡ passed w =
                    rw (looked, wait, few, began, seen) at h in
                  let moved : moved_on ≡ w = ground (arith, passes) in
                  subst (HasEnded index n start_term (glance ∷ glances) logs) moved (
                    tt,
                    λ _.
                        let (j, rf, at_j, beyond) =
                          in_later_term-some start_term glance.rafts seen in
                        (ground arith, (0, glance, refl, j, rf, at_j, beyond)),
                  )
              | inl (false, seen) ↦ later (rw (looked, wait, few, began, seen) at h)
              | inr (inl bad) ↦ absurd (failed-ne-passed (rw (looked, wait, few, began, bad) at h))
              | inr (inr bad) ↦
                  absurd (panicked-ne-passed (rw (looked, wait, few, began, bad) at h))
            ]
            | inr no_term ↦ later (rw (looked, wait, few, no_term) at h)
          ]
        ]
        | inr (inl bad) ↦ absurd (failed-ne-passed (rw (bad, wait) at h))
        | inr (inr bad) ↦ absurd (panicked-ne-passed (rw (bad, wait) at h))
      ]
