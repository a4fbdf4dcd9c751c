-- ===== src/Config/Agreement/Holders.antt =====
-- What `nCommitted` of Task5/raft/config.go counts, and what the looks of `one` see with it.
use unique_freshman.Prelude.{
  ℕ, zero, suc, ◌+◌, ◌≤◌, ◌<◌, ◌≡◌, ◌↔◌, refl, sym, ◌∙◌, subst, ℤ, ltb, leb, Bool, true, ◌&&◌, List,
  [], ◌∷◌, Option, none, some, if◌then◌else◌, get_elem?, arith, Bool-cases, Option-cases, inl, inr,
}
use unique_freshman.Config.{
  passed, failed, Check-cases, failed-ne-passed, panicked-ne-passed, lookup, n_committed, is_other,
}
use unique_freshman.Config.Agreement.{Logs, poll}

module _ {Command : Type 0} where
  -- How many logs have a value at the index.
  unfoldable pub holders : ℤ → Logs Command → ℕ
  unfolding lookup
  holders index [] = 0
  holders index (log ∷ logs) =
      let rest = holders index logs in elim (lookup index log) [ none ↦ rest | some v ↦ suc rest ]

  -- No log has another value there.
  abbrev pub AllHold : ℤ → Command → Logs Command → Type 0
  AllHold index cmd logs =
      (j : ℕ) (log : List (ℤ × Command)) (v : Command)
      → get_elem? logs j ≡ some log
      → lookup index log ≡ some v
      → v ≡ cmd

module _ {Command : Type 0} (same : Command → Command → Bool)
    (same_iff : (a b : Command) → (same a b ≡ true) ↔ (a ≡ b)) where
  AllHold-cons :
      (index : ℤ) (cmd : Command) (log : List (ℤ × Command)) (logs : Logs Command)
      → ((v : Command) → lookup index log ≡ some v → v ≡ cmd)
      → AllHold index cmd logs
      → AllHold index cmd (log ∷ logs)
  AllHold-cons index cmd log logs first all zero l v here found =
      first v (let e : log ≡ l = ground arith in subst (λ x. lookup index x ≡ some v) (sym e) found)
  AllHold-cons index cmd log logs first all (suc j) l v here found = all j l v here found

  -- A value that `nCommitted` takes as the same as the one before.
  no_other :
      (count nd : ℕ) (cmd out : Option Command) (w : Command) (logs : Logs Command) (index : ℤ)
      → (if is_other same cmd w then failed else n_committed same index (suc count) (some w) logs)
        ≡ passed (nd, out)
      → ((c : Command) → cmd ≡ some c → c ≡ w)
        × (n_committed same index (suc count) (some w) logs ≡ passed (nd, out))
  no_other count nd none out w logs index h = (λ c e. absurd (ground arith), h)
  no_other count nd (some c) out w logs index h = elim (Bool-cases (same c w)) [
    | inl eq ↦
        (λ c' e. let e' : c ≡ c' = ground arith in sym e' ∙ (same_iff c w).0 eq, rw (eq) at h)
    | inr ne ↦ absurd (failed-ne-passed (rw (ne) at h))
  ]

  pub n_committed-holders :
      (index : ℤ) (count nd : ℕ) (cmd out : Option Command) (logs : Logs Command)
      → n_committed same index count cmd logs ≡ passed (nd, out)
      → (nd ≡ count + holders index logs)
        × ((v : Command)
            → out ≡ some v
            → AllHold index v logs × ((c : Command) → cmd ≡ some c → c ≡ v))
  unfolding n_committed holders
  n_committed-holders index count nd cmd out [] h =
      (ground arith, λ v e. (λ j l w here found. absurd (ground arith), λ c e'. ground arith))
  n_committed-holders index count nd cmd out (log ∷ logs) h =
      elim (Option-cases (lookup index log)) [
        | inl nothing ↦
            let (total, all) =
              n_committed-holders index count nd cmd out logs (rw (nothing, n_committed) at h) in
            (
              rw (holders, nothing) total,
              λ v e.
                  let (rest, c) = all v e in
                  (AllHold-cons index v log logs (λ w found. absurd (ground arith)) rest, c),
            )
        | inr (w, found) ↦
            let (agrees, h') =
              no_other count nd cmd out w logs index (rw (found, n_committed) at h) in
            let (total, all) = n_committed-holders index (suc count) nd (some w) out logs h' in
            (
              rw (holders, found) (ground (arith, total)),
              λ v e.
                  let (rest, c) = all v e in
                  let same_v = c w refl in
                  (
                    AllHold-cons index v log logs (λ u found'. ground arith) rest,
                    λ c e'. agrees c e' ∙ same_v,
                  ),
            )
      ]

module _ {Command : Type 0} (same : Command → Command → Bool)
    (same_iff : (a b : Command) → (same a b ≡ true) ↔ (a ≡ b)) where
  pub poll-holders :
      (cmd : Command) (expected : ℕ) (index : ℤ) (looks : List (Logs Command))
      → poll same cmd expected index looks ≡ passed true
      → (m : ℕ) × (logs : Logs Command) × (get_elem? looks m ≡ some logs)
        × (0 < holders index logs)
        × (expected ≤ holders index logs)
        × AllHold index cmd logs
  unfolding poll
  poll-holders cmd expected index [] h = absurd (ground arith)
  poll-holders cmd expected index (logs ∷ looks) h =
      elim (Check-cases (n_committed same index 0 none logs)) [
        | inl ((nd, none), looked) ↦
            let (m, seen, there, more, enough, all) =
              poll-holders cmd expected index looks (ground (arith, looked)) in
            (suc m, seen, there, more, enough, all)
        | inl ((nd, some v), looked) ↦
            elim (Bool-cases (ltb 0 nd && leb expected nd && same v cmd)) [
              | inl good ↦
                  let (total, all) =
                    n_committed-holders same same_iff index 0 nd none (some v) logs looked in
                  let is_v : v ≡ cmd = (same_iff v cmd).0 (ground arith) in
                  (
                    0,
                    logs,
                    refl,
                    ground (arith, total),
                    ground (arith, total),
                    subst (λ c. AllHold index c logs) is_v (all v refl).0,
                  )
              | inr bad ↦
                  let (m, seen, there, more, enough, all) =
                    poll-holders cmd expected index looks (rw (looked, poll, bad) at h) in
                  (suc m, seen, there, more, enough, all)
            ]
        | inr (inl bad) ↦ absurd (failed-ne-passed (rw (bad, poll) at h))
        | inr (inr bad) ↦ absurd (panicked-ne-passed (rw (bad, poll) at h))
      ]
