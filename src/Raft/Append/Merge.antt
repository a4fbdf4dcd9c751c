-- ===== src/Raft/Append/Merge.antt =====
-- The two loops of `AppendEntries` over the log: what they make of it, on every branch.
use unique_freshman.Prelude.{
  ℕ, zero, suc, ◌+◌, ◌≤◌, ◌≡◌, refl, ap, ◌∙◌, ℤ, pos, negsuc, minus_one, ◌+ℤ◌, int_laws, eqb_ℤ,
  ltb_ℤ, leb_ℤ, eq_of_parts, pos_part, neg_part, store, true, false, List, [], ◌∷◌, ◌++◌, Option,
  none, some, if◌then◌else◌, length, length_ℤ, take, drop, slice_to, arith, append_assoc,
  length-append, length-take, take-append-drop, get_elem?-append, set-append, Bool-cases, inl, inr,
  append-nil, zero-add, Option-cases, drop-nil, length-drop, leb, ◌<◌, drop-eq_nil, take-add,
}
use mathlib.Core.Option
use unique_freshman.Raft.Types.{LogEntry}
use unique_freshman.Raft.Append.{cut_conflict, write_entries, merge_entries}

module _ (prev : ℤ) (k : ℕ) (next : prev +ℤ pos 1 ≡ pos k) where
  pub parts_of_next : pos_part prev + 1 ≡ k + neg_part prev
  parts_of_next =
      let low : neg_part (prev +ℤ pos 1) ≡ 0 = rw next refl in
      let high : pos_part (prev +ℤ pos 1) ≡ k = rw next refl in omega int_laws

  index_at : (i : ℕ) → prev +ℤ pos i +ℤ pos 1 ≡ pos (k + i)
  index_at i = eq_of_parts _ _ (omega (int_laws, parts_of_next))

  pub lt_of_next : (n : ℕ) → k ≤ n → ltb_ℤ prev (pos n) ≡ true
  lt_of_next n h = ground (arith, parts_of_next)

  plus_suc : (d : ℕ) → prev +ℤ pos (suc d) ≡ pos (k + d)
  plus_suc d = eq_of_parts _ _ (omega (int_laws, parts_of_next))

module _ {Command : Type 0} where
  -- The tests and accesses of the loops at the end of `pre`.
  module _ (pre : List (LogEntry Command)) (n : ℕ) (here : length pre ≡ n) where
    full : leb_ℤ (length_ℤ (pre ++ [])) (pos n) ≡ true
    full = ground (arith, length-append pre [])

    room :
        (x : LogEntry Command) (s : List (LogEntry Command))
        → leb_ℤ (length_ℤ (pre ++ x ∷ s)) (pos n) ≡ false
    room x s = ground (arith, length-append pre (x ∷ s))

    put :
        (x y : LogEntry Command) (s : List (LogEntry Command))
        → store (pre ++ x ∷ s) (pos n) y ≡ some (pre ++ y ∷ s)
    put x y s = rw (set-append pre x y s n here) (ground (arith, length-append pre (x ∷ s)))

  -- Where the entries first disagree in their terms with the part of the log that they fall on.
  unfoldable pub first_conflict : List (LogEntry Command) → List (LogEntry Command) → Option ℕ
  first_conflict [] es = none
  first_conflict (x ∷ s) [] = none
  first_conflict (x ∷ s) (e ∷ es) =
      if eqb_ℤ x.term e.term then Option.map suc (first_conflict s es) else some 0

  abbrev cut_result : ℤ → ℕ → Option ℕ → List (LogEntry Command) → Option (List (LogEntry Command))
  cut_result prev i none log = some log
  cut_result prev i (some d) log = slice_to log (prev +ℤ pos (i + d))

  cut_result-suc :
      (prev : ℤ) (i : ℕ) (r : Option ℕ) (log : List (LogEntry Command))
      → cut_result prev (suc i) r log ≡ cut_result prev i (Option.map suc r) log
  cut_result-suc prev i none log = refl
  cut_result-suc prev i (some d) log = ap (λ n. slice_to log (prev +ℤ pos n)) (omega arith)

  -- The loops at round `i`, at the end of `pre`.
  module _ (prev : ℤ) (k : ℕ) (next : prev +ℤ pos 1 ≡ pos k) where
    cut_conflict_lem :
        (i : ℕ) (es pre suf : List (LogEntry Command))
        → length pre ≡ k + i
        → cut_conflict prev i es (pre ++ suf)
          ≡ cut_result prev i (first_conflict suf es) (pre ++ suf)
    unfolding cut_conflict first_conflict
    cut_conflict_lem i [] pre [] at_i = refl
    cut_conflict_lem i [] pre (x ∷ s) at_i = refl
    cut_conflict_lem i (e ∷ es) pre [] at_i = rw (index_at prev k next i, full pre (k + i) at_i)
    cut_conflict_lem i (e ∷ es) pre (x ∷ s) at_i =
        rw (index_at prev k next i, room pre (k + i) at_i, get_elem?-append pre x s (k + i) at_i)
          (elim (Bool-cases (eqb_ℤ x.term e.term)) [
            | inl same ↦ rw same (
                rw (append_assoc pre (x ∷ []) s) at (
                  cut_conflict_lem (suc i) es (pre ++ x ∷ []) s
                    (omega (arith, length-append pre (x ∷ []))))
                ∙ cut_result-suc prev i (first_conflict s es) (pre ++ x ∷ s))
            | inr other ↦ rw other (ap (λ n. slice_to (pre ++ x ∷ s) (prev +ℤ pos n)) (omega arith))
          ])

    write_entries_lem :
        (i : ℕ) (es pre suf : List (LogEntry Command))
        → length pre ≡ k + i
        → write_entries prev i es (pre ++ suf) ≡ some (pre ++ es ++ drop (length es) suf)
    unfolding write_entries
    write_entries_lem i [] pre suf at_i = rw (append-nil pre)
    write_entries_lem i (e ∷ es) pre [] at_i =
        rw (index_at prev k next i, full pre (k + i) at_i, append-nil pre)
          (rw (append-nil (pre ++ e ∷ []), drop-nil (length es), append_assoc pre (e ∷ []) es) at
            (write_entries_lem (suc i) es (pre ++ e ∷ []) []
              (omega (arith, length-append pre (e ∷ [])))))
    write_entries_lem i (e ∷ es) pre (x ∷ s) at_i =
        rw (index_at prev k next i, room pre (k + i) at_i, put pre (k + i) at_i x e s)
          (rw (append_assoc pre (e ∷ []) s, append_assoc pre (e ∷ []) es) at
            (write_entries_lem (suc i) es (pre ++ e ∷ []) s
              (omega (arith, length-append pre (e ∷ [])))))

  -- The log, cut before index `k`, after entries that belong there have been merged. Nothing in the
  -- log goes if the terms agree on the overlap; a later conflict cuts the log there, and a conflict
  -- at once takes the entry before it too, or panics where there is none.
  abbrev pub merged_by :
      Option ℕ
      → ℕ
      → List (LogEntry Command)
      → List (LogEntry Command)
      → Option (List (LogEntry Command))
  merged_by none k es log = some (take k log ++ es ++ drop (length es) (drop k log))
  merged_by (some zero) zero es log = none
  merged_by (some zero) (suc p) es log = some (take p log)
  merged_by (some (suc d)) k es log = some (take k log ++ es)

  abbrev pub merged :
      ℕ → List (LogEntry Command) → List (LogEntry Command) → Option (List (LogEntry Command))
  merged k es log = merged_by (first_conflict (drop k log) es) k es log

  pub first_conflict-lt :
      (s es : List (LogEntry Command)) (d : ℕ)
      → first_conflict s es ≡ some d
      → (d < length s) × (d < length es)
  unfolding first_conflict
  first_conflict-lt [] es d h = ground arith
  first_conflict-lt (x ∷ s) [] d h = ground arith
  first_conflict-lt (x ∷ s) (e ∷ es) zero h = (omega arith, omega arith)
  first_conflict-lt (x ∷ s) (e ∷ es) (suc d) h = ground (arith, first_conflict-lt s es d)

  module _ (prev : ℤ) (k : ℕ) (next : prev +ℤ pos 1 ≡ pos k) (log : List (LogEntry Command))
      (fits : k ≤ length log) where
    split_log : take k log ++ drop k log ≡ log
    split_log = take-append-drop k log

    at_k : length (take k log) ≡ k + 0
    at_k = omega (arith, length-take k log)

    cut_whole :
        (es : List (LogEntry Command))
        → cut_conflict prev 0 es log ≡ cut_result prev 0 (first_conflict (drop k log) es) log
    cut_whole es =
        rw split_log at (cut_conflict_lem prev k next 0 es (take k log) (drop k log) at_k)

    merge_agree :
        (es : List (LogEntry Command))
        → first_conflict (drop k log) es ≡ none
        → merge_entries prev es log ≡ merged k es log
    unfolding merge_entries
    merge_agree es agree =
        rw (agree, cut_whole es, agree, lt_of_next prev k next (length log) fits)
          (rw split_log at (write_entries_lem prev k next 0 es (take k log) (drop k log) at_k))

    cut_later :
        (es : List (LogEntry Command)) (d : ℕ)
        → first_conflict (drop k log) es ≡ some (suc d)
        → cut_conflict prev 0 es log ≡ some (take k log ++ take d (drop k log))
    cut_later es d later =
        rw (cut_whole es, later, zero-add (suc d), plus_suc prev k next d, slice_fits)
          (ap some (take-add k d log))
      where
        slice_fits : leb (k + d) (length log) ≡ true
        slice_fits =
            ground (arith, first_conflict-lt (drop k log) es (suc d) later, length-drop k log)

    merge_later :
        (es : List (LogEntry Command)) (d : ℕ)
        → first_conflict (drop k log) es ≡ some (suc d)
        → merge_entries prev es log ≡ merged k es log
    unfolding merge_entries
    merge_later es d later =
        rw (later, cut_later es d later, lt_of_next prev k next _ room_left)
          (rw (drop-eq_nil (length es) (take d (drop k log)) covered, append-nil (take k log ++ es))
            at (write_entries_lem prev k next 0 es (take k log) (take d (drop k log)) at_k))
      where
        room_left : k ≤ length (take k log ++ take d (drop k log))
        room_left = omega (arith, length-append (take k log) (take d (drop k log)), at_k)

        covered : length (take d (drop k log)) ≤ length es
        covered =
            omega
              (arith, length-take d (drop k log), first_conflict-lt (drop k log) es (suc d) later)

  -- A conflict at once: what is left is the log below index `prev`, if there is such a slice.
  merge_first :
      (prev : ℤ) (k : ℕ) (log es : List (LogEntry Command))
      → prev +ℤ pos 1 ≡ pos k
      → k ≤ length log
      → first_conflict (drop k log) es ≡ some 0
      → merge_entries prev es log ≡ merged k es log
  unfolding merge_entries
  merge_first (pos p) zero log es next fits first =
      absurd (omega (arith, parts_of_next (pos p) zero next))
  merge_first (pos p) (suc k) log es next fits first =
      let index : pos p +ℤ pos 0 ≡ pos k =
        eq_of_parts _ _ (omega (int_laws, parts_of_next (pos p) (suc k) next)) in
      let slice_fits : leb k (length log) ≡ true = ground arith in
      let short : ltb_ℤ (pos p) (length_ℤ (take k log)) ≡ false =
        ground (arith, length-take k log, parts_of_next (pos p) (suc k) next) in
      rw (cut_whole (pos p) (suc k) next log fits es, first, index, slice_fits, short) refl
  merge_first (negsuc n) zero log es next fits first =
      let index : negsuc n +ℤ pos 0 ≡ minus_one =
        eq_of_parts _ _ (omega (int_laws, parts_of_next (negsuc n) zero next)) in
      rw (cut_whole (negsuc n) zero next log fits es, first, index) refl
  merge_first (negsuc n) (suc k) log es next fits first =
      absurd (omega (arith, parts_of_next (negsuc n) (suc k) next))

  -- The entries begin at index `k`, inside the log or at its end, and `prev` is the index before
  -- them. The two loops of the handler give what `merged` says: without a conflict of terms the
  -- entries written over the log from `k` on; with one after the first entry the log below `k` and
  -- the entries; with one at the first entry the log below `prev`, or a panic if `k` is 0.
  pub merge_entries-merged :
      (prev : ℤ) (k : ℕ) (es log : List (LogEntry Command))
      → prev +ℤ pos 1 ≡ pos k
      → k ≤ length log
      → merge_entries prev es log ≡ merged k es log
  merge_entries-merged prev k es log next fits =
      elim (Option-cases (first_conflict (drop k log) es)) [
        | inl agree ↦ merge_agree prev k next log fits es agree
        | inr (zero, first) ↦ merge_first prev k log es next fits first
        | inr (suc d, later) ↦ merge_later prev k next log fits es d later
      ]
