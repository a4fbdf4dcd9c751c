-- ===== src/Raft/Apply/Order.antt =====
-- The messages of `startApplyLogs`: which entries, in which order, and that the loop ends.
use unique_freshman.Prelude.{
  ℕ, zero, suc, ◌+◌, ◌-◌, ◌≤◌, ◌<◌, min, ◌≡◌, refl, ap, ap₂, sym, append-nil, append_assoc,
  add-zero, ◌∙◌, ℤ, pos, negsuc, minus_one, ◌+ℤ◌, true, false, List, [], ◌∷◌, ◌++◌, some, length,
  at, take, drop, get_elem?, arith, ltb, Bool-cases, bind-some, inl, inr,
}
use unique_freshman.Raft.Types.{LogEntry, ApplyMsg, Raft}
use unique_freshman.Raft.Apply.{is_pending, apply_loop, start_apply_logs}

-- How many entries there are up to an index, and the index of the last of `n` entries.
abbrev pub upto : ℤ → ℕ
upto (pos n) = suc n
upto (negsuc n) = 0

abbrev pub last_of : ℕ → ℤ
last_of zero = minus_one
last_of (suc n) = pos n

last_of-next : (k : ℕ) → last_of k +ℤ pos 1 ≡ pos k
unfolding ◌+ℤ◌
last_of-next zero = refl
last_of-next (suc k) = ground arith

module _ {Command : Type 0} where
  -- The messages for entries from index `k` on.
  abbrev pub messages : ℕ → List (LogEntry Command) → List (ApplyMsg Command)
  messages k [] = []
  messages k (e ∷ es) =
      record { command_valid = true; command = e.command; command_index = pos k }
      ∷ messages (suc k) es

  drop-get_elem? :
      (k : ℕ) (xs : List (LogEntry Command))
      → k < length xs
      → (e : LogEntry Command) × (get_elem? xs k ≡ some e) × (drop k xs ≡ e ∷ drop (suc k) xs)
  drop-get_elem? k [] h = elim h [ ]
  drop-get_elem? zero (x ∷ xs) h = (x, refl, refl)
  drop-get_elem? (suc k) (x ∷ xs) h = drop-get_elem? k xs (omega arith)

module _ {Bytes Command : Type 0} where
  abbrev pub with_applied : List (ApplyMsg Command) → ℤ → Raft Bytes Command → Raft Bytes Command
  with_applied ch last rf = record rf { apply_ch = ch; last_applied = last }

  -- The peer after `m` entries from index `k` on.
  abbrev pub delivered : ℕ → ℕ → Raft Bytes Command → Raft Bytes Command
  delivered k m rf =
      with_applied (rf.apply_ch ++ messages k (take m (drop k rf.log))) (last_of (k + m)) rf

  -- How many entries the loop still delivers from index `k` on.
  abbrev pub backlog : ℕ → Raft Bytes Command → ℕ
  backlog k rf = min (upto rf.committed_index) (length rf.log) - k

  is_pending-eq :
      (k : ℕ) (rf : Raft Bytes Command)
      → rf.last_applied ≡ last_of k
      → is_pending rf ≡ ltb 0 (backlog k rf)
  unfolding is_pending ◌+ℤ◌
  is_pending-eq zero rf at_k = ground (arith, at_k)
  is_pending-eq (suc k) rf at_k = ground (arith, at_k)

  delivered-zero :
      (k : ℕ) (rf : Raft Bytes Command) → rf.last_applied ≡ last_of k → delivered k 0 rf ≡ rf
  delivered-zero k rf at_k =
      ap₂ (λ c l. with_applied c l rf) (append-nil rf.apply_ch) (rw add-zero (sym at_k))

  -- The peer after one round from index `k`, at which `e` stands.
  abbrev after_round : ℕ → LogEntry Command → Raft Bytes Command → Raft Bytes Command
  after_round k e rf =
      with_applied
        (rf.apply_ch
          ++ record { command_valid = true; command = e.command; command_index = pos k } ∷ [])
        (pos k) rf

  delivered-after_round :
      (k m : ℕ) (rf : Raft Bytes Command) (e : LogEntry Command)
      → drop k rf.log ≡ e ∷ drop (suc k) rf.log
      → delivered (suc k) m (after_round k e rf) ≡ delivered k (suc m) rf
  delivered-after_round k m rf e next =
      rw next
        (ap₂ (λ c l. with_applied c l rf) (append_assoc rf.apply_ch _ _) (ap last_of (omega arith)))

  apply_round :
      (fuel k : ℕ) (rf : Raft Bytes Command) (e : LogEntry Command)
      → is_pending rf ≡ true
      → rf.last_applied +ℤ pos 1 ≡ pos k
      → get_elem? rf.log k ≡ some e
      → apply_loop (suc fuel) rf ≡ apply_loop fuel (after_round k e rf)
  unfolding apply_loop
  apply_round fuel k rf e go step found = rw (go, apply_loop, step, found)

  -- From the peer that has applied `k` entries, with fuel for the rest of the log.
  apply_loop_lem :
      (fuel k : ℕ) (rf : Raft Bytes Command)
      → rf.last_applied ≡ last_of k
      → length rf.log ≤ fuel + k
      → apply_loop fuel rf ≡ some (delivered k (backlog k rf) rf)
  unfolding apply_loop
  apply_loop_lem zero k rf at_k enough =
      let none_left : backlog k rf ≡ 0 = omega arith in rw (none_left, delivered-zero k rf at_k)
  apply_loop_lem (suc fuel) k rf at_k enough = elim (Bool-cases (is_pending rf)) [
    | inl go ↦
        let step : rf.last_applied +ℤ pos 1 ≡ pos k = rw at_k (last_of-next k) in
        let more : backlog k rf ≡ suc (backlog (suc k) rf) =
          ground (arith, is_pending-eq k rf at_k) in
        let (e, found, next) = drop-get_elem? k rf.log (omega arith) in
        apply_round fuel k rf e go step found
        ∙ apply_loop_lem fuel (suc k) (after_round k e rf) refl (omega arith)
        ∙ ap some (delivered-after_round k (backlog (suc k) rf) rf e next)
        ∙ ap (λ m. some (delivered k m rf)) (sym more)
    | inr stop ↦
        let none_left : backlog k rf ≡ 0 = ground (arith, is_pending-eq k rf at_k) in
        rw (stop, apply_loop, none_left, delivered-zero k rf at_k)
  ]

  -- From a peer that has applied the first `k` entries, the loop sends the entries from index `k` on
  -- that are committed and in the log, in order and each once, with their indices, and
  -- `lastApplied` ends at the last of them. It does not panic, and its fuel lasts to the end: the
  -- test of the loop fails in the final state.
  pub start_apply_logs-delivered :
      (k : ℕ) (rf : Raft Bytes Command)
      → rf.last_applied ≡ last_of k
      → (start_apply_logs rf ≡ some (delivered k (backlog k rf) rf))
        × (is_pending (delivered k (backlog k rf) rf) ≡ false)
  unfolding start_apply_logs
  start_apply_logs-delivered k rf at_k = (
    apply_loop_lem (length rf.log) k rf at_k (omega arith),
    is_pending-eq (k + backlog k rf) (delivered k (backlog k rf) rf) refl ∙ ground arith,
  )

  -- The loop touches nothing but the messages and `lastApplied`.
  apply_loop-frame :
      (fuel : ℕ) (rf rf' : Raft Bytes Command)
      → apply_loop fuel rf ≡ some rf'
      → rf' ≡ with_applied rf'.apply_ch rf'.last_applied rf
  unfolding apply_loop
  apply_loop-frame zero rf rf' h = ground arith
  apply_loop-frame (suc fuel) rf rf' h = elim (Bool-cases (is_pending rf)) [
    | inl go ↦
        let (e, _, rest) =
          bind-some (at rf.log (rf.last_applied +ℤ pos 1)) _ (rw (go, apply_loop) at h) in
        apply_loop-frame fuel _ rf' rest
    | inr stop ↦ let same : some rf ≡ some rf' = rw (stop, apply_loop) at h in ground arith
  ]

  pub start_apply_logs-frame :
      (rf rf' : Raft Bytes Command)
      → start_apply_logs rf ≡ some rf'
      → rf' ≡ with_applied rf'.apply_ch rf'.last_applied rf
  unfolding start_apply_logs
  start_apply_logs-frame rf rf' h = apply_loop-frame (length rf.log) rf rf' h
