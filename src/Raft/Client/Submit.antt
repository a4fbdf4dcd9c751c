-- ===== src/Raft/Client/Submit.antt =====
-- What `Start` promises to the service.
use unique_freshman.Prelude.{
  ◌≡◌, refl, ℤ, Bool, true, false, List, [], ◌∷◌, ◌++◌, some, length, at, get_elem?, arith,
}
use unique_freshman.Raft.Types.{Raft}
use unique_freshman.Raft.Gob.{Gob}
use unique_freshman.Raft.State.{get_state}
use unique_freshman.Raft.State.Restart.{IsDurable}
use unique_freshman.Raft.Client.{start}

get_elem?-end {ℓ} :
    {A : Type ℓ} (xs : List A) (x : A) → get_elem? (xs ++ x ∷ []) (length xs) ≡ some x
get_elem?-end [] x = refl
get_elem?-end (y ∷ xs) x = get_elem?-end xs x

module _ {Bytes Command : Type 0} ⦃gob : Gob Bytes Command⦄ where
  -- `Start` reports the term and the role that `GetState` reports. Any peer but a leader keeps its
  -- state. A leader has the command, with its term, at the index reported, behind the log that it had,
  -- and it has written that down; its role, its term and what is committed stay.
  pub start-get_state :
      (command : Command) (rf : Raft Bytes Command) {rf' : Raft Bytes Command} {index term : ℤ}
      {leads : Bool}
      → start command rf ≡ (rf', index, term, leads)
      → ((term, leads) ≡ get_state rf)
        × (leads ≡ false → rf' ≡ rf)
        × (leads ≡ true
            → (at rf'.log index ≡ some (record { command = command; term = rf.current_term }))
              × (rf'.log ≡ rf.log ++ record { command = command; term = rf.current_term } ∷ [])
              × IsDurable rf'
              × (get_state rf' ≡ get_state rf)
              × (rf'.committed_index ≡ rf.committed_index))
  unfolding start get_state
  start-get_state command rf h =
      ground (arith, get_elem?-end rf.log (record { command = command; term = rf.current_term }))
