-- ===== src/Config/Agree.antt =====
-- The check that all servers agree on the term.
use unique_freshman.Prelude.{
  ℤ, minus_one, ◌≡◌, ◌≢◌, refl, sym, subst, ◌↔◌, Bool, true, false, List, [], ◌∷◌, Option, none,
  some, arith, if◌then◌else◌,
}
use unique_freshman.Raft.Types.{Raft}
use unique_freshman.Raft.State.{get_state}
use unique_freshman.Config.{passed, check_terms}

module _ {Bytes Command : Type 0} where
  -- Every connected server runs and is in this term.
  abbrev pub AgreeOn : ℤ → List (Bool × Option (Raft Bytes Command)) → Type 0
  AgreeOn t [] = Unit
  AgreeOn t ((false, rf) ∷ servers) = AgreeOn t servers
  AgreeOn t ((true, none) ∷ servers) = Unit × (true ≡ false)
  AgreeOn t ((true, some rf) ∷ servers) = (rf.current_term ≡ t) × AgreeOn t servers

  check_terms_from :
      (t : ℤ) (servers : List (Bool × Option (Raft Bytes Command)))
      → t ≢ minus_one
      → (out : ℤ) → (check_terms t servers ≡ passed out) ↔ ((out ≡ t) × AgreeOn t servers)
  unfolding check_terms get_state
  check_terms_from t [] valid out = ground arith
  check_terms_from t ((false, rf) ∷ servers) valid out = check_terms_from t servers valid out
  check_terms_from t ((true, none) ∷ servers) valid out = ground arith
  check_terms_from t ((true, some rf) ∷ servers) valid out =
      ground (arith, check_terms_from t servers valid out)

  -- No running server is in term -1.
  abbrev pub ValidTerms : List (Bool × Option (Raft Bytes Command)) → Type 0
  ValidTerms [] = Unit
  ValidTerms ((connected, none) ∷ servers) = ValidTerms servers
  ValidTerms ((connected, some rf) ∷ servers) = (rf.current_term ≢ minus_one) × ValidTerms servers

  abbrev pub some_connected : List (Bool × Option (Raft Bytes Command)) → Bool
  some_connected [] = false
  some_connected ((connected, rf) ∷ servers) = if connected then true else some_connected servers

  -- No running server is in term -1. Then `checkTerms` passes with a term other than -1 exactly when
  -- a server is connected, and every connected server runs and is in that term.
  pub check_terms-AgreeOn :
      (out : ℤ) (servers : List (Bool × Option (Raft Bytes Command)))
      → out ≢ minus_one
      → ValidTerms servers
      → (check_terms minus_one servers ≡ passed out)
        ↔ ((some_connected servers ≡ true) × AgreeOn out servers)
  unfolding check_terms get_state
  check_terms-AgreeOn out [] other valid = ground arith
  check_terms-AgreeOn out ((false, none) ∷ servers) other valid =
      check_terms-AgreeOn out servers other valid
  check_terms-AgreeOn out ((false, some rf) ∷ servers) other valid =
      check_terms-AgreeOn out servers other valid.1
  check_terms-AgreeOn out ((true, none) ∷ servers) other valid = ground arith
  check_terms-AgreeOn out ((true, some rf) ∷ servers) other valid =
      let (to, from) = check_terms_from rf.current_term servers valid.0 out in
      (
        λ h.
            let (same, agree) = to h in
            (refl, (sym same, subst (λ t. AgreeOn t servers) (sym same) agree)),
        λ h. from (sym h.1.0, subst (λ t. AgreeOn t servers) (sym h.1.0) h.1.1),
      )
