-- ===== src/Config/Reader.antt =====
-- The tester's reader of `applyCh`, on what a peer sends.
use unique_freshman.Prelude.{
  ℕ, suc, ◌≤◌, ◌<◌, ◌≡◌, ◌≢◌, refl, ap, ◌∙◌, ◌⊎◌, inl, inr, ℤ, pos, ◌-ℤ◌, eqb_ℤ, ltb_ℤ, Bool, true,
  false, not, ◌&&◌, List, [], ◌∷◌, none, some, if◌then◌else◌, length, get_elem?, get_elem?-lt,
  get_elem?-set_self, set, arith, int_laws, eq_of_parts,
}
use unique_freshman.Raft.Types.{ApplyMsg, Raft}
use unique_freshman.Raft.Gob.{Gob}
use unique_freshman.Raft.Leader.{SortInts}
use unique_freshman.Raft.Peer.{Reach}
use unique_freshman.Raft.Peer.Applied.{IsOrdered, Reach-IsApplied}
use unique_freshman.Config.{
  Config, Verdict, fine, differs, out_of_order, lookup, has_other, read_message,
}

module _ {Command : Type 0} (same : Command → Command → Bool) where
  -- The reader of server `i` takes the messages, and none of them is out of order.
  abbrev pub IsInOrder : ℕ → List (ApplyMsg Command) → Config Command → Type 0
  IsInOrder i [] cfg = Unit
  IsInOrder i (m ∷ ms) cfg =
      (cfg' : Config Command) × (v : Verdict) × (read_message same i m cfg ≡ some (cfg', v))
      × (v ≢ out_of_order)
      × IsInOrder i ms cfg'

  -- The reader is ready for index `k`.
  abbrev IsReady : ℕ → List (ℤ × Command) → Type 0
  IsReady k log = (k ≤ 1) ⊎ ((v : Command) × (lookup (pos k -ℤ pos 1) log ≡ some v))

  -- The tester, and its verdict, after a message to which `log` belongs.
  abbrev after : ℕ → ApplyMsg Command → List (ℤ × Command) → Config Command → Config Command
  after i m log cfg = record {
    logs = set cfg.logs i ((m.command_index, m.command) ∷ log);
    max_index = if ltb_ℤ cfg.max_index m.command_index then m.command_index else cfg.max_index;
  }

  abbrev verdict : ApplyMsg Command → List (ℤ × Command) → Config Command → Verdict
  verdict m log cfg =
      let prevok : Bool = elim (lookup (m.command_index -ℤ pos 1) log) [
        | none ↦ false
        | some v ↦ true
      ] in
      if ltb_ℤ (pos 1) m.command_index && not prevok
      then out_of_order
      else if has_other same m.command_index m.command cfg.logs
      then differs
      else fine

  verdict-IsReady :
      (k : ℕ) (m : ApplyMsg Command) (cfg : Config Command) (log : List (ℤ × Command))
      → m.command_index ≡ pos k
      → IsReady k log
      → verdict m log cfg ≢ out_of_order
  verdict-IsReady k m cfg log index (inl first) = ground (arith, index)
  verdict-IsReady k m cfg log index (inr (v, found)) =
      let there : lookup (m.command_index -ℤ pos 1) log ≡ some v = rw index found in
      ground (arith, there)

  read_message-IsReady :
      (i k : ℕ) (m : ApplyMsg Command) (cfg : Config Command) (log : List (ℤ × Command))
      → m.command_valid ≡ true
      → m.command_index ≡ pos k
      → get_elem? cfg.logs i ≡ some log
      → IsReady k log
      → (cfg' : Config Command) × (v : Verdict) × (read_message same i m cfg ≡ some (cfg', v))
        × (v ≢ out_of_order)
        × (get_elem? cfg'.logs i ≡ some ((pos k, m.command) ∷ log))
  unfolding read_message
  read_message-IsReady i k m cfg log valid index there ready = (
    after i m log cfg,
    verdict m log cfg,
    rw (valid, there) refl,
    verdict-IsReady k m cfg log index ready,
    get_elem?-set_self cfg.logs i log _ there ∙ ap (λ n. some ((n, m.command) ∷ log)) index,
  )

  written-IsReady :
      (k : ℕ) (v : Command) (log : List (ℤ × Command)) → IsReady (suc k) ((pos k, v) ∷ log)
  unfolding lookup
  written-IsReady k v log =
      let before : pos (suc k) -ℤ pos 1 ≡ pos k = eq_of_parts _ _ (omega int_laws) in
      let here : eqb_ℤ (pos k) (pos k) ≡ true = ground arith in inr (v, rw (before, here) refl)

  ordered-IsInOrder :
      (i k : ℕ) (ms : List (ApplyMsg Command)) (cfg : Config Command) (log : List (ℤ × Command))
      → IsOrdered k ms
      → get_elem? cfg.logs i ≡ some log
      → IsReady k log
      → IsInOrder i ms cfg
  ordered-IsInOrder i k [] cfg log h there ready = tt
  ordered-IsInOrder i k (m ∷ ms) cfg log (valid, index, h) there ready =
      let (cfg', v, e, good, there') = read_message-IsReady i k m cfg log valid index there ready in
      (
        cfg',
        v,
        e,
        good,
        ordered-IsInOrder i (suc k) ms cfg' ((pos k, m.command) ∷ log) h there'
            (written-IsReady k m.command log),
      )

module _ {Bytes Command : Type 0} ⦃gob : Gob Bytes Command⦄ (sort : SortInts)
    (same : Command → Command → Bool) where
  -- Whatever reaches a peer, the tester's reader of a server takes the messages that the peer has
  -- sent since it started, from any state of the tester that has a log for the server, and does not
  -- find one of them out of order.
  pub Reach-IsInOrder :
      (peers me i : ℕ) {rf : Raft Bytes Command} (cfg : Config Command)
      → Reach sort peers me rf
      → i < length cfg.logs
      → IsInOrder same i rf.apply_ch cfg
  Reach-IsInOrder peers me i {rf} cfg r fits =
      let (log, there) = get_elem?-lt cfg.logs i fits in
      ordered-IsInOrder same i 0 rf.apply_ch cfg log (Reach-IsApplied sort peers me r).ordered there
        (inl (omega arith))
