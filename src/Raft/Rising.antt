-- ===== src/Raft/Rising.antt =====
-- Logs whose terms never fall, and what a request of a leader does with them.
use unique_freshman.Prelude.{
  ℕ, zero, suc, ◌≡◌, refl, ap, sym, ◌∙◌, ◌⊎◌, inl, inr, ℤ, pos, ◌≤ℤ◌, List, [], ◌∷◌, ◌++◌, none,
  some, length, take, drop, arith, take-append-drop, append-nil, append_assoc, Option-cases, subst,
  drop-nil,
}
use unique_freshman.Raft.Types.{LogEntry}
use unique_freshman.Raft.Append.Check.{PrevMatches}
use unique_freshman.Raft.Append.Merge.{first_conflict, merged}

-- The term of the entry before index `k`, and 0 at the start of a log.
abbrev pub before : ℕ → ℤ → ℤ
before zero t = pos 0
before (suc p) t = t

module _ {Command : Type 0} where
  -- The terms begin at `t` or later, and never fall.
  abbrev pub Rises : ℤ → List (LogEntry Command) → Type 0
  Rises t [] = Unit
  Rises t (e ∷ es) = (t ≤ℤ e.term) × Rises e.term es

  -- The term of the last entry, and `t` if there is none.
  abbrev pub final : ℤ → List (LogEntry Command) → ℤ
  final t [] = t
  final t (e ∷ es) = final e.term es

  pub final-append :
      (t : ℤ) (xs ys : List (LogEntry Command)) → final t (xs ++ ys) ≡ final (final t xs) ys
  final-append t [] ys = refl
  final-append t (x ∷ xs) ys = final-append x.term xs ys

  pub Rises-append :
      (t : ℤ) (xs ys : List (LogEntry Command))
      → Rises t xs
      → Rises (final t xs) ys
      → Rises t (xs ++ ys)
  Rises-append t [] ys h k = k
  Rises-append t (x ∷ xs) ys (le, h) k = (le, Rises-append x.term xs ys h k)

  Rises-of_append :
      (t : ℤ) (xs ys : List (LogEntry Command))
      → Rises t (xs ++ ys)
      → Rises t xs × Rises (final t xs) ys
  Rises-of_append t [] ys h = (tt, h)
  Rises-of_append t (x ∷ xs) ys (le, h) =
      let (l, r) = Rises-of_append x.term xs ys h in ((le, l), r)

  -- Both parts of a log that is cut.
  pub Rises-split :
      (t : ℤ) (n : ℕ) (xs : List (LogEntry Command))
      → Rises t xs
      → Rises t (take n xs) × Rises (final t (take n xs)) (drop n xs)
  Rises-split t n xs h = Rises-of_append t (take n xs) (drop n xs) (rw (take-append-drop n xs) h)

  pub le-final : (t : ℤ) (xs : List (LogEntry Command)) → Rises t xs → t ≤ℤ final t xs
  le-final t [] h = omega arith
  le-final t (x ∷ xs) (le, h) = omega (arith, le-final x.term xs h)

  pub final-split :
      (t : ℤ) (n : ℕ) (xs : List (LogEntry Command))
      → final t xs ≡ final (final t (take n xs)) (drop n xs)
  final-split t n xs =
      ap (final t) (sym (take-append-drop n xs)) ∙ final-append t (take n xs) (drop n xs)

  pub final-take-le :
      (t : ℤ) (n : ℕ) (xs : List (LogEntry Command))
      → Rises t xs
      → final t (take n xs) ≤ℤ final t xs
  final-take-le t n xs h =
      rw (final-split t n xs) (le-final (final t (take n xs)) (drop n xs) (Rises-split t n xs h).1)

  final-take-suc :
      (s t : ℤ) (p : ℕ) (xs : List (LogEntry Command))
      → PrevMatches (suc p) t xs
      → final s (take (suc p) xs) ≡ t
  final-take-suc s t p [] h = cc
  final-take-suc s t zero (x ∷ xs) h = cc
  final-take-suc s t (suc p) (x ∷ xs) h = final-take-suc x.term t p xs h

  pub final-take :
      (k : ℕ) (t : ℤ) (xs : List (LogEntry Command))
      → PrevMatches k t xs
      → final (pos 0) (take k xs) ≡ before k t
  final-take zero t xs h = refl
  final-take (suc p) t xs h = final-take-suc (pos 0) t p xs h

  same_head :
      (x e : LogEntry Command) (s es : List (LogEntry Command))
      → first_conflict (x ∷ s) (e ∷ es) ≡ none
      → (x.term ≡ e.term) × (first_conflict s es ≡ none)
  unfolding first_conflict
  same_head x e s es h = ground arith

  -- Entries that agree with the log in their terms, with the rest of the log behind them.
  agree-Rises :
      (t : ℤ) (s es : List (LogEntry Command))
      → first_conflict s es ≡ none
      → Rises t s
      → Rises t es
      → Rises t (es ++ drop (length es) s)
        × ((final t (es ++ drop (length es) s) ≡ final t s)
            ⊎ (final t (es ++ drop (length es) s) ≡ final t es))
  agree-Rises t [] es clean h k =
      rw (drop-nil {A = LogEntry Command} (length es), append-nil es) (k, inr refl)
  agree-Rises t (x ∷ s) [] clean h k = (h, inl refl)
  agree-Rises t (x ∷ s) (e ∷ es) clean (le, h) (le', k) =
      let (same, clean') = same_head x e s es clean in
      let (rises, ends) = agree-Rises e.term s es clean' (subst (λ u. Rises u s) same h) k in
      ((le', rises), rw same ends)

  -- The log up to index `k`, and more behind it.
  join :
      (k : ℕ) (t : ℤ) (log rest : List (LogEntry Command))
      → PrevMatches k t log
      → Rises (pos 0) log
      → Rises (before k t) rest
      → Rises (pos 0) (take k log ++ rest)
        × (final (pos 0) (take k log ++ rest) ≡ final (before k t) rest)
  join k t log rest same h r =
      let at_k = final-take k t log same in
      (
        Rises-append (pos 0) (take k log) rest (Rises-split (pos 0) k log h).0
            (subst (λ u. Rises u rest) (sym at_k) r),
        final-append (pos 0) (take k log) rest ∙ ap (λ u. final u rest) at_k,
      )

  pub rest-Rises :
      (k : ℕ) (t : ℤ) (log : List (LogEntry Command))
      → PrevMatches k t log
      → Rises (pos 0) log
      → Rises (before k t) (drop k log) × (final (before k t) (drop k log) ≡ final (pos 0) log)
  rest-Rises k t log same h =
      let at_k = final-take k t log same in
      (
        subst (λ u. Rises u (drop k log)) at_k (Rises-split (pos 0) k log h).1,
        ap (λ u. final u (drop k log)) (sym at_k) ∙ sym (final-split (pos 0) k log),
      )

  -- What a request with entries from index `k` on makes of a log, where the entry before them is of
  -- the term that the request tells: its terms do not fall either, and end where one of the two ends,
  -- or before.
  pub merged-Rises :
      (k : ℕ) (t : ℤ) (es log log' : List (LogEntry Command))
      → PrevMatches k t log
      → Rises (pos 0) log
      → Rises (before k t) es
      → merged k es log ≡ some log'
      → Rises (pos 0) log'
        × ((final (pos 0) log' ≤ℤ final (pos 0) log)
            ⊎ (final (pos 0) log' ≤ℤ final (before k t) es))
  merged-Rises k t es log log' same h r m = elim (Option-cases (first_conflict (drop k log) es)) [
    | inl clean ↦
        let tail = es ++ drop (length es) (drop k log) in
        let (rises, ends) = rest-Rises k t log same h in
        let (good, last) = agree-Rises (before k t) (drop k log) es clean rises r in
        let (all, end) = join k t log tail same h good in
        let flat : take k log ++ es ++ drop (length es) (drop k log) ≡ log' =
          ground (arith, clean) in
        let cut : take k log ++ tail ≡ log' = sym (append_assoc (take k log) es _) ∙ flat in
        moved cut (
          all,
          elim last [
            | inl e ↦ inl (rw (end, e, ends) (omega arith))
            | inr e ↦ inr (rw (end, e) (omega arith))
          ],
        )
    | inr (zero, first) ↦ cut_early k first m
    | inr (suc d, later) ↦
        let (all, end) = join k t log es same h r in
        let cut : take k log ++ es ≡ log' = ground (arith, later) in
        moved cut (all, inr (rw end (omega arith)))
  ]
    where
      Outcome : List (LogEntry Command) → Type 0
      Outcome l =
          Rises (pos 0) l
          × ((final (pos 0) l ≤ℤ final (pos 0) log) ⊎ (final (pos 0) l ≤ℤ final (before k t) es))

      moved : {l : List (LogEntry Command)} → l ≡ log' → Outcome l → Outcome log'
      moved e o = subst Outcome e o

      cut_early :
          (n : ℕ)
          → first_conflict (drop n log) es ≡ some 0
          → merged n es log ≡ some log'
          → Outcome log'
      cut_early zero first got = absurd (ground (arith, first, got))
      cut_early (suc p) first got =
          let cut : take p log ≡ log' = ground (arith, first, got) in
          moved cut ((Rises-split (pos 0) p log h).0, inl (final-take-le (pos 0) p log h))
