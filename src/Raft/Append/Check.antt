-- ===== src/Raft/Append/Check.antt =====
-- The consistency check of `AppendEntries`: when it passes, and what a refusal reports.
use unique_freshman.Prelude.{
  ℕ, zero, suc, ◌+◌, ◌≤◌, ◌<◌, ◌≡◌, ◌≢◌, refl, ap, ◌∙◌, ◌↔◌, inl, inr, ℤ, pos, minus_one, ◌+ℤ◌,
  ◌≤ℤ◌, ◌-ℤ◌, eqb_ℤ, true, false, List, [], ◌∷◌, some, length, length_ℤ, get_elem?, get_elem?-lt,
  get_elem?-lt_length, arith, Bool-cases, Option-some,
}
use mathlib.Core.Option
use unique_freshman.Raft.Types.{LogEntry, AppendEntriesArgs, AppendEntriesReply}
use unique_freshman.Raft.Append.{first_of_term, check_prev}
use unique_freshman.Raft.Append.Merge.{parts_of_next}

module _ {Command : Type 0} where
  -- The log has an entry of this term before index `k`, or begins there.
  abbrev pub PrevMatches : ℕ → ℤ → List (LogEntry Command) → Type 0
  PrevMatches zero t log = Unit
  PrevMatches (suc p) t log = Option.map (λ e. e.term) (get_elem? log p) ≡ some t

  -- The index found is the first one of the term.
  abbrev pub FirstOfTerm : ℤ → ℕ → List (LogEntry Command) → Type 0
  FirstOfTerm t i log =
      ((e : LogEntry Command) × (get_elem? log i ≡ some e) × (e.term ≡ t))
      × ((j : ℕ) (e : LogEntry Command) → j < i → get_elem? log j ≡ some e → e.term ≢ t)

  first_at_head :
      (t : ℤ) (x : LogEntry Command) (log : List (LogEntry Command))
      → x.term ≡ t
      → FirstOfTerm t 0 (x ∷ log)
  first_at_head t x log same = ((x, refl, same), λ j e below _. absurd (omega arith))

  first_in_tail :
      (t : ℤ) (x : LogEntry Command) (log : List (LogEntry Command)) (d : ℕ)
      → x.term ≢ t
      → FirstOfTerm t d log
      → FirstOfTerm t (suc d) (x ∷ log)
  first_in_tail t x log d other (here, first) = (here, below)
    where
      below :
          (j : ℕ) (e : LogEntry Command) → j < suc d → get_elem? (x ∷ log) j ≡ some e → e.term ≢ t
      below zero e h found same = other (cc)
      below (suc j) e h found same = first j e (omega arith) found same

  first_of_term_lem :
      (t : ℤ) (i : ℕ) (log : List (LogEntry Command)) (p : ℕ) (e : LogEntry Command)
      → get_elem? log p ≡ some e
      → e.term ≡ t
      → (d : ℕ) × (first_of_term t i log ≡ pos (i + d)) × (d ≤ p) × FirstOfTerm t d log
  unfolding first_of_term
  first_of_term_lem t i [] p e found h = ground arith
  first_of_term_lem t i (x ∷ log) zero e found h =
      let same : x.term ≡ t = ground arith in
      let test : eqb_ℤ x.term t ≡ true = ground arith in
      (0, rw test (ap pos (omega arith)), omega arith, first_at_head t x log same)
  first_of_term_lem t i (x ∷ log) (suc p) e found h = elim (Bool-cases (eqb_ℤ x.term t)) [
    | inl same ↦
        (0, rw same (ap pos (omega arith)), omega arith, first_at_head t x log (ground arith))
    | inr other ↦
        let (d, at_d, below, first) = first_of_term_lem t (suc i) log p e found h in
        (
          suc d,
          rw other (at_d ∙ ap pos (omega arith)),
          omega arith,
          first_in_tail t x log d (ground arith) first,
        )
  ]

  module _ (args : AppendEntriesArgs Command) (term : ℤ) (log : List (LogEntry Command)) where
    pub check_prev_total :
        (k : ℕ)
        → args.prev_log_index +ℤ pos 1 ≡ pos k
        → (reply : AppendEntriesReply) × (check_prev args term log ≡ some reply)
    unfolding check_prev
    check_prev_total zero next =
        let prev : args.prev_log_index ≡ minus_one =
          ground (arith, parts_of_next args.prev_log_index 0 next) in
        Option-some (check_prev args term log) (ground arith)
    check_prev_total (suc p) next =
        let prev : args.prev_log_index ≡ pos p =
          ground (arith, parts_of_next args.prev_log_index (suc p) next) in
        Option-some (check_prev args term log) (ground (arith, get_elem?-lt log p))

    -- The check in the numbers: `k` is the index of the first entry sent.
    pub check_prev_iff :
        (k : ℕ) (reply : AppendEntriesReply)
        → args.prev_log_index +ℤ pos 1 ≡ pos k
        → check_prev args term log ≡ some reply
        → (reply.term ≡ term)
          × ((reply.success ≡ true)
              ↔ ((term ≤ℤ args.term) × (k ≤ length log) × PrevMatches k args.prev_log_term log))
    unfolding check_prev
    check_prev_iff zero reply next h =
        let prev : args.prev_log_index ≡ minus_one =
          ground (arith, parts_of_next args.prev_log_index 0 next) in
        ground arith
    check_prev_iff (suc p) reply next h =
        let prev : args.prev_log_index ≡ pos p =
          ground (arith, parts_of_next args.prev_log_index (suc p) next) in
        ground (arith, get_elem?-lt log p)

    -- Where the log has an entry at `PrevLogIndex`, of another term than `PrevLogTerm`, and the
    -- request's term is not behind the peer's, the check refuses, and names the term of that entry
    -- and the index of its first entry in the log, which is at most `PrevLogIndex`.
    pub check_prev-conflict :
        (p : ℕ) (e : LogEntry Command)
        → args.prev_log_index ≡ pos p
        → get_elem? log p ≡ some e
        → e.term ≢ args.prev_log_term
        → term ≤ℤ args.term
        → (d : ℕ) × (check_prev args term log
            ≡ some (record {
              term = term;
              success = false;
              conflict_index = pos d;
              conflict_term = e.term;
            }))
          × (d ≤ p)
          × FirstOfTerm e.term d log
    unfolding check_prev
    check_prev-conflict p e at_p found other fresh =
        let (d, at_d, below, first) = first_of_term_lem e.term 0 log p e found refl in
        (d, ground (arith, at_d, get_elem?-lt_length log p e found), below, first)

    -- A log that ends before `PrevLogIndex` is refused with its last index and no term.
    pub check_prev-short :
        (p : ℕ)
        → args.prev_log_index ≡ pos p
        → length log ≤ p
        → term ≤ℤ args.term
        → check_prev args term log
          ≡ some (record {
            term = term;
            success = false;
            conflict_index = length_ℤ log -ℤ pos 1;
            conflict_term = minus_one;
          })
    unfolding check_prev
    check_prev-short p at_p short fresh = ground arith
