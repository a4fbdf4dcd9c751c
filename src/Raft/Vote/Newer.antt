-- ===== src/Raft/Vote/Newer.antt =====
-- The comparison of logs in `RequestVote`, against the request that a candidate makes.
use unique_freshman.Prelude.{
  ◌≤◌, ◌≡◌, ◌≢◌, refl, ◌↔◌, ◌⊎◌, inl, inr, ℤ, pos, minus_one, ◌-ℤ◌, ◌+ℤ◌, ◌<ℤ◌, ◌≤ℤ◌, true, Bool,
  List, [], ◌∷◌, Option-some, some, none, length, length_ℤ, get_elem?, at, arith,
}
use unique_freshman.Raft.Types.{LogEntry, Raft, RequestVoteArgs}
use unique_freshman.Raft.Vote.{is_newer}
use unique_freshman.Raft.Election.{vote_args}

module _ {Command : Type 0} where
  -- The term of the last entry, -1 in an empty log.
  abbrev pub last_term : List (LogEntry Command) → ℤ
  last_term [] = minus_one
  last_term (e ∷ []) = e.term
  last_term (e ∷ e' ∷ es) = last_term (e' ∷ es)

  -- `ours` is up to date for a peer that has `theirs`.
  abbrev pub UpToDate : List (LogEntry Command) → List (LogEntry Command) → Type 0
  UpToDate ours theirs =
      (length theirs ≡ 0)
      ⊎ (last_term theirs <ℤ last_term ours)
      ⊎ ((last_term theirs ≡ last_term ours) × (length theirs ≤ length ours))

  last-get_elem? :
      (x : LogEntry Command) (xs : List (LogEntry Command))
      → (e : LogEntry Command) × (get_elem? (x ∷ xs) (length xs) ≡ some e)
        × (e.term ≡ last_term (x ∷ xs))
  last-get_elem? x [] = (x, refl, refl)
  last-get_elem? x (y ∷ ys) = last-get_elem? y ys

  length_ℤ-minus_one :
      (x : LogEntry Command) (xs : List (LogEntry Command))
      → length_ℤ (x ∷ xs) -ℤ pos 1 ≡ pos (length xs)
  unfolding ◌-ℤ◌
  length_ℤ-minus_one x xs = ground arith

  pub at-last :
      (x : LogEntry Command) (xs : List (LogEntry Command))
      → (e : LogEntry Command) × (at (x ∷ xs) (length_ℤ (x ∷ xs) -ℤ pos 1) ≡ some e)
        × (e.term ≡ last_term (x ∷ xs))
  at-last x xs = rw (length_ℤ-minus_one x xs) (last-get_elem? x xs)

  pub is_newer-ne-none :
      (args : RequestVoteArgs) (log : List (LogEntry Command)) → is_newer args log ≢ none
  unfolding is_newer
  is_newer-ne-none args [] = ground arith
  is_newer-ne-none args (x ∷ xs) = let (e, found, _) = at-last x xs in ground (arith, found)

  pub is_newer_iff :
      (args : RequestVoteArgs) (log : List (LogEntry Command))
      → (is_newer args log ≡ some true) ↔ (
          (length log ≡ 0)
          ⊎ (last_term log <ℤ args.last_log_term)
          ⊎ ((last_term log ≡ args.last_log_term) × (length_ℤ log ≤ℤ args.last_log_index +ℤ pos 1)))
  unfolding is_newer
  is_newer_iff args [] = (λ _. inl refl, λ _. refl)
  is_newer_iff args (x ∷ xs) = let (e, found, last) = at-last x xs in ground (arith, found, last)

  log_end :
      (log : List (LogEntry Command))
      → ((length log ≡ 0) × (last_term log ≡ minus_one))
        ⊎ ((e : LogEntry Command) × (at log (length_ℤ log -ℤ pos 1) ≡ some e)
            × (e.term ≡ last_term log))
  log_end [] = inl (refl, refl)
  log_end (x ∷ xs) = inr (at-last x xs)

module _ {Bytes Command : Type 0} where
  -- The request of a candidate tells the end of its log.
  pub vote_args-last :
      (cand : Raft Bytes Command) (args : RequestVoteArgs)
      → vote_args cand ≡ some (some args)
      → (args.last_log_term ≡ last_term cand.log)
        × (args.last_log_index +ℤ pos 1 ≡ length_ℤ cand.log)
  unfolding vote_args ◌+ℤ◌ ◌-ℤ◌
  vote_args-last cand args h = elim (log_end cand.log) [
    | inl e ↦ ground (arith, e)
    | inr e ↦ ground (arith, e)
  ]

  -- Whether a vote may go to `cand`, by the request that it makes: the handler's comparison does
  -- not panic, and says yes exactly when the candidate's log is up to date for `log`.
  pub is_newer-vote_args :
      (cand : Raft Bytes Command) (args : RequestVoteArgs) (log : List (LogEntry Command))
      → vote_args cand ≡ some (some args)
      → (newer : Bool) × (is_newer args log ≡ some newer) × ((newer ≡ true) ↔ UpToDate cand.log log)
  is_newer-vote_args cand args log h =
      let (newer, e) = Option-some (is_newer args log) (is_newer-ne-none args log) in
      (newer, e, ground (arith, e, is_newer_iff args log, vote_args-last cand args h))
