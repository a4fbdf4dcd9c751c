-- ===== src/Cluster/Matching/Prefix.antt =====
-- Beginnings of logs, and what the merge of a request makes of them.
use unique_freshman.Prelude.{
  ℕ, zero, suc, ◌+◌, ◌≤◌, ◌<◌, ◌≡◌, ◌≢◌, refl, sym, ap, ap₂, ◌∙◌, subst, ◌⊎◌, inl, inr, ℤ, pos,
  List, [], ◌∷◌, ◌++◌, none, some, length, length-take, length-drop, take, drop, take-append-drop,
  append_assoc, append-nil, drop-nil, arith, Option-cases, Bool-cases, ltb, take-add,
}
use unique_freshman.Raft.Types.{LogEntry}
use unique_freshman.Raft.Append.Check.{PrevMatches}
use unique_freshman.Raft.Append.Merge.{merged, merged_by, first_conflict}
use unique_freshman.Raft.Rising.{final, final-append, final-take, before}

module _ {ℓ} {A : Type ℓ} where
  -- `p` is where `xs` begins.
  abbrev pub IsPrefix : List A → List A → Type ℓ
  IsPrefix p xs = (s : List A) × (xs ≡ p ++ s)

  pub IsPrefix-refl : (xs : List A) → IsPrefix xs xs
  IsPrefix-refl xs = ([], sym (append-nil xs))

  pub IsPrefix-trans : (xs ys zs : List A) → IsPrefix xs ys → IsPrefix ys zs → IsPrefix xs zs
  IsPrefix-trans xs ys zs (s, e) (s', e') =
      (s ++ s', e' ∙ ap (λ l. l ++ s') e ∙ append_assoc xs s s')

  pub take-IsPrefix : (n : ℕ) (xs : List A) → IsPrefix (take n xs) xs
  take-IsPrefix n xs = (drop n xs, sym (take-append-drop n xs))

  take-length : (xs : List A) → take (length xs) xs ≡ xs
  take-length [] = refl
  take-length (x ∷ xs) = ap (λ l. x ∷ l) (take-length xs)

  drop-all : (n : ℕ) (xs : List A) → length xs ≤ n → drop n xs ≡ []
  drop-all n [] le = drop-nil n
  drop-all zero (x ∷ xs) le = absurd (ground arith)
  drop-all (suc n) (x ∷ xs) le = drop-all n xs (ground arith)

  same_start : (p q s s' : List A) → p ++ s ≡ q ++ s' → length p ≡ length q → p ≡ q
  same_start [] [] s s' e len = refl
  same_start [] (y ∷ q) s s' e len = absurd (ground arith)
  same_start (x ∷ p) [] s s' e len = absurd (ground arith)
  same_start (x ∷ p) (y ∷ q) s s' e len =
      let head : x ≡ y = cc in
      let tail : p ++ s ≡ q ++ s' = cc in
      ap₂ (λ a l. a ∷ l) head (same_start p q s s' tail (ground arith))

  -- Two beginnings of one list, of the same length.
  pub IsPrefix-unique :
      (p q xs : List A) → IsPrefix p xs → IsPrefix q xs → length p ≡ length q → p ≡ q
  IsPrefix-unique p q xs (s, e) (s', e') len = same_start p q s s' (sym e ∙ e') len

  pub nil_of_append : (p s : List A) → p ++ s ≡ [] → p ≡ []
  nil_of_append [] s e = refl
  nil_of_append (x ∷ p) s e = absurd (ground (arith, e))

  pub IsPrefix-snoc :
      (p xs : List A) (x : A) → IsPrefix p (xs ++ x ∷ []) → IsPrefix p xs ⊎ (p ≡ xs ++ x ∷ [])
  IsPrefix-snoc [] xs x (s, e) = inl (xs, refl)
  IsPrefix-snoc (y ∷ p) [] x (s, e) =
      let head : x ≡ y = cc in
      let tail : [] ≡ p ++ s = cc in
      inr (ap₂ (λ a l. a ∷ l) (sym head) (nil_of_append p s (sym tail)))
  IsPrefix-snoc (y ∷ p) (z ∷ xs) x (s, e) =
      let head : z ≡ y = cc in
      let tail : xs ++ x ∷ [] ≡ p ++ s = cc in
      elim (IsPrefix-snoc p xs x (s, tail)) [
        | inl (s', e') ↦ inl (s', ap₂ (λ a l. a ∷ l) head e')
        | inr same ↦ inr (ap₂ (λ a l. a ∷ l) (sym head) same)
      ]

module _ {Command : Type 0} (Known : List (LogEntry Command) → Type 0) where
  -- What is known of a length and a last term is one list.
  abbrev pub IsFunctional : Type 0
  IsFunctional =
      (p q : List (LogEntry Command))
      → Known p
      → Known q
      → length p ≡ length q
      → final (pos 0) p ≡ final (pos 0) q
      → p ≡ q

  -- Every beginning of the log but the empty one is known.
  abbrev pub IsGrown : List (LogEntry Command) → Type 0
  IsGrown log = (p : List (LogEntry Command)) → IsPrefix p log → p ≢ [] → Known p

  pub IsPrefix-IsGrown :
      (xs ys : List (LogEntry Command)) → IsPrefix xs ys → IsGrown ys → IsGrown xs
  IsPrefix-IsGrown xs ys le g p h some_there = g p (IsPrefix-trans p xs ys h le) some_there

  -- Beginnings of the same length and last term are the same.
  pub beginnings_match :
      (xs ys : List (LogEntry Command)) (n : ℕ)
      → IsFunctional
      → IsGrown xs
      → IsGrown ys
      → n ≤ length xs
      → n ≤ length ys
      → final (pos 0) (take n xs) ≡ final (pos 0) (take n ys)
      → take n xs ≡ take n ys
  beginnings_match xs ys zero f g g' le le' same = refl
  beginnings_match xs ys (suc n) f g g' le le' same =
      let len : length (take (suc n) xs) ≡ suc n = ground (arith, length-take (suc n) xs) in
      let len' : length (take (suc n) ys) ≡ suc n = ground (arith, length-take (suc n) ys) in
      f _ _ (g _ (take-IsPrefix (suc n) xs) (λ e. ground (arith, len, e)))
        (g' _ (take-IsPrefix (suc n) ys) (λ e. ground (arith, len', e))) (len ∙ sym len') same

module _ {Command : Type 0} where
  -- Where the terms agree, they end in the same term.
  agree-final :
      (t : ℤ) (s es : List (LogEntry Command))
      → first_conflict s es ≡ none
      → length es ≤ length s
      → final t (take (length es) s) ≡ final t es
  unfolding first_conflict
  agree-final t s [] clean le = refl
  agree-final t [] (e ∷ es) clean le = absurd (ground arith)
  agree-final t (x ∷ s) (e ∷ es) clean le =
      let same : x.term ≡ e.term = ground arith in
      let clean' : first_conflict s es ≡ none = ground arith in
      agree-final x.term s es clean' (ground arith) ∙ ap (λ u. final u es) same

  -- The log and the entries of a request that begin at index `k` of the list `whole`, with the same
  -- term before them.
  module _ (Known : List (LogEntry Command) → Type 0) (k : ℕ) (t : ℤ)
      (log whole : List (LogEntry Command)) (functional : IsFunctional Known)
      (grown : IsGrown Known log) (grown' : IsGrown Known whole) (fits : k ≤ length log)
      (fits' : k ≤ length whole) (prev : PrevMatches k t log) (prev' : PrevMatches k t whole) where
    heads : take k log ≡ take k whole
    heads =
        beginnings_match Known log whole k functional grown grown' fits fits'
          (final-take k t log prev ∙ sym (final-take k t whole prev'))

    joined : take k log ++ drop k whole ≡ whole
    joined = ap (λ l. l ++ drop k whole) heads ∙ take-append-drop k whole

    final-from :
        (n : ℕ) (xs : List (LogEntry Command))
        → PrevMatches k t xs
        → final (pos 0) (take (k + n) xs) ≡ final (before k t) (take n (drop k xs))
    final-from n xs h =
        ap (final (pos 0)) (take-add k n xs)
        ∙ final-append (pos 0) (take k xs) (take n (drop k xs))
        ∙ ap (λ u. final u (take n (drop k xs))) (final-take k t xs h)

    covered :
        first_conflict (drop k log) (drop k whole) ≡ none
        → length (drop k whole) ≤ length (drop k log)
        → take k log ++ drop k whole ++ drop (length (drop k whole)) (drop k log) ≡ log
    covered clean le =
        let m = length (drop k whole) in
        let all : take m (drop k whole) ≡ drop k whole = take-length (drop k whole) in
        let ends : final (pos 0) (take (k + m) log) ≡ final (pos 0) (take (k + m) whole) =
          final-from m log prev
          ∙ agree-final (before k t) (drop k log) (drop k whole) clean le
          ∙ sym (ap (final (before k t)) all)
          ∙ sym (final-from m whole prev') in
        let same : take (k + m) log ≡ take (k + m) whole =
          beginnings_match Known log whole (k + m) functional grown grown'
            (omega (arith, length-drop k log)) (omega (arith, length-drop k whole)) ends in
        let start : take k log ++ drop k whole ≡ take k log ++ take m (drop k log) =
          ap (λ l. l ++ drop k whole) heads
          ∙ ap (λ l. take k whole ++ l) (sym all)
          ∙ sym (take-add k m whole)
          ∙ sym same
          ∙ take-add k m log in
        ap (λ l. l ++ drop m (drop k log)) start
        ∙ append_assoc (take k log) (take m (drop k log)) (drop m (drop k log))
        ∙ ap (λ l. take k log ++ l) (take-append-drop m (drop k log))
        ∙ take-append-drop k log

    beyond :
        length (drop k log) < length (drop k whole)
        → take k log ++ drop k whole ++ drop (length (drop k whole)) (drop k log) ≡ whole
    beyond more =
        ap (λ l. take k log ++ drop k whole ++ l)
          (drop-all (length (drop k whole)) (drop k log) (omega arith))
        ∙ append-nil (take k log ++ drop k whole)
        ∙ joined

    -- The log becomes the whole list, or a beginning of what it was.
    pub merged-whole :
        (log' : List (LogEntry Command))
        → merged k (drop k whole) log ≡ some log'
        → (log' ≡ whole) ⊎ IsPrefix log' log
    merged-whole log' m = elim (Option-cases (first_conflict (drop k log) (drop k whole))) [
      | inl clean ↦
          let flat : take k log ++ drop k whole ++ drop (length (drop k whole)) (drop k log)
              ≡ log' =
            ground (arith, clean, m) in
          elim (Bool-cases (ltb (length (drop k log)) (length (drop k whole)))) [
            | inl more ↦ inl (sym flat ∙ beyond (ground (arith, more)))
            | inr le ↦ inr (
                subst (λ l. IsPrefix l log) (sym (covered clean (ground (arith, le))) ∙ flat)
                  (IsPrefix-refl log))
          ]
      | inr (zero, first) ↦ inr (cut_early k first m)
      | inr (suc d, later) ↦
          let flat : take k log ++ drop k whole ≡ log' = ground (arith, later, m) in
          inl (sym flat ∙ joined)
    ]
      where
        cut_early :
            (n : ℕ)
            → first_conflict (drop k log) (drop k whole) ≡ some 0
            → merged_by (first_conflict (drop k log) (drop k whole)) n (drop k whole) log
              ≡ some log'
            → IsPrefix log' log
        cut_early zero first got = absurd (ground (arith, first, got))
        cut_early (suc p) first got =
            let cut : take p log ≡ log' = ground (arith, first, got) in
            subst (λ l. IsPrefix l log) cut (take-IsPrefix p log)
