-- ===== src/Raft/Leader/Retry.antt =====
-- A leader after a refusal: when `nextIndex` falls, and when it cannot.
use unique_freshman.Prelude.{
  ℕ, zero, suc, ◌+◌, ◌≡◌, refl, ◌⊎◌, inl, inr, ℤ, pos, ◌≤ℤ◌, ◌<ℤ◌, ltb_ℤ, eqb_ℤ, true, false, Bool,
  List, [], ◌∷◌, none, some, get_elem?, arith, Bool-cases, if◌then◌else◌,
}
use unique_freshman.Raft.Types.{LogEntry, AppendEntriesReply}
use unique_freshman.Raft.Leader.{scan_conflict, back_up}

-- No entry of the log is of a later term.
abbrev pub NoneLater : {Command : Type 0} → ℤ → List (LogEntry Command) → Type 0
NoneLater t [] = Unit
NoneLater t (e ∷ es) = (e.term ≤ℤ t) × NoneLater t es

module _ {Command : Type 0} (reply : AppendEntriesReply) where
  scan_conflict-none :
      (has : Bool) (i : ℕ) (log : List (LogEntry Command))
      → NoneLater reply.conflict_term log
      → scan_conflict reply has i log ≡ none
  unfolding scan_conflict
  scan_conflict-none has i [] h = refl
  scan_conflict-none has i (e ∷ log) h = ground (
    arith,
    scan_conflict-none (if eqb_ℤ e.term reply.conflict_term then true else has) (suc i) log h.1,
  )

  scan_conflict-here :
      (has : Bool) (i q : ℕ) (x : LogEntry Command) (log : List (LogEntry Command))
      → ltb_ℤ reply.conflict_term x.term ≡ true
      → (n : ℤ) × (scan_conflict reply has i (x ∷ log) ≡ some n)
        × ((n ≤ℤ pos (i + q)) ⊎ (n ≡ reply.conflict_index))
  unfolding scan_conflict
  scan_conflict-here has i q x log here =
      let has' : Bool = if eqb_ℤ x.term reply.conflict_term then true else has in
      elim (Bool-cases has') [
        | inl seen ↦ (pos i, rw (here, seen) refl, inl (omega arith))
        | inr not_seen ↦ (reply.conflict_index, rw (here, not_seen) refl, inr refl)
      ]

  -- With an entry of a later term at `p`, the loop finds an index up to there, or takes the index of
  -- the refusal.
  scan_conflict-found :
      (has : Bool) (i : ℕ) (log : List (LogEntry Command)) (p : ℕ) (e : LogEntry Command)
      → get_elem? log p ≡ some e
      → reply.conflict_term <ℤ e.term
      → (n : ℤ) × (scan_conflict reply has i log ≡ some n)
        × ((n ≤ℤ pos (i + p)) ⊎ (n ≡ reply.conflict_index))
  unfolding scan_conflict
  scan_conflict-found has i [] p e found later = ground arith
  scan_conflict-found has i (x ∷ log) zero e found later =
      scan_conflict-here has i 0 x log (ground arith)
  scan_conflict-found has i (x ∷ log) (suc p) e found later =
      elim (Bool-cases (ltb_ℤ reply.conflict_term x.term)) [
        | inl here ↦ scan_conflict-here has i (suc p) x log here
        | inr not_here ↦
            let (n, taken, bound) =
              scan_conflict-found (if eqb_ℤ x.term reply.conflict_term then true else has) (suc i)
                log p e found later in
            (n, rw not_here taken, ground arith)
      ]

  -- A refusal that names an earlier term than the leader's entry at `p`, and an index up to `p`, makes
  -- `nextIndex` at most `p`, and at least 0.
  pub back_up-le :
      (log : List (LogEntry Command)) (p : ℕ) (e : LogEntry Command) (next : ℤ)
      → get_elem? log p ≡ some e
      → reply.conflict_term <ℤ e.term
      → reply.conflict_index ≤ℤ pos p
      → (pos 0 ≤ℤ back_up reply log next) × (back_up reply log next ≤ℤ pos p)
  unfolding back_up
  back_up-le log p e next found later index =
      let (n, taken, bound) = scan_conflict-found false 0 log p e found later in
      rw taken (ground (arith, bound))

  pub back_up-same :
      (log : List (LogEntry Command)) (k : ℕ)
      → NoneLater reply.conflict_term log
      → back_up reply log (pos k) ≡ pos k
  unfolding back_up
  back_up-same log k h = rw (scan_conflict-none false 0 log h) (ground arith)
