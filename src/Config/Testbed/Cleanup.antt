-- ===== src/Config/Testbed/Cleanup.antt =====
-- `cleanup` of Task5/raft/config.go: every running server is killed.
use unique_freshman.Prelude.{
  ℕ, zero, suc, ℤ, ◌≡◌, refl, sym, ◌∙◌, subst, Bool, List, [], ◌∷◌, some, get_elem?, arith,
}
use unique_freshman.Raft.Gob.{Gob}
use unique_freshman.Raft.State.{kill}
use unique_freshman.Raft.Leader.{SortInts}
use unique_freshman.Raft.Peer as Peer
use unique_freshman.Config.{Check}
use unique_freshman.Config.Statistics.{check_timeout}
use unique_freshman.Config.Testbed.{Network, Testbed, Slot, vacant, crashed, running}
use unique_freshman.Config.Testbed.Own.{IsOwn}
use unique_freshman.Config.Testbed.Restart.{IsStanding}

module _ {Bytes Command : Type 0} where
  abbrev pub kill_slot : Slot Bytes Command → Slot Bytes Command
  kill_slot vacant = vacant
  kill_slot (crashed p) = crashed p
  kill_slot (running rf) = running (kill rf)

  unfoldable pub kill_all : List (Slot Bytes Command) → List (Slot Bytes Command)
  kill_all [] = []
  kill_all (slot ∷ slots) = kill_slot slot ∷ kill_all slots

-- With the check of the time at its end.
unfoldable pub cleanup :
    {Net Name Bytes Command : Type 0}
    → Network Net Name
    → Bool
    → ℤ
    → ℤ
    → Testbed Net Name Bytes Command
    → Testbed Net Name Bytes Command × Check Unit
unfolding kill_all
cleanup network t_failed start now cfg = (
  record cfg { slots = kill_all cfg.slots; net = network.clean_up cfg.net },
  check_timeout t_failed start now,
)

module _ {Bytes Command : Type 0} where
  pub kill_all-get_elem? :
      (i : ℕ) (slots : List (Slot Bytes Command)) (slot : Slot Bytes Command)
      → get_elem? (kill_all slots) i ≡ some slot
      → (old : Slot Bytes Command) × (get_elem? slots i ≡ some old) × (slot ≡ kill_slot old)
  unfolding kill_all
  kill_all-get_elem? i [] slot h = absurd (ground (arith, h))
  kill_all-get_elem? zero (old ∷ slots) slot h = (old, refl, ground (arith, h))
  kill_all-get_elem? (suc i) (old ∷ slots) slot h = kill_all-get_elem? i slots slot h

module _ {Net Name Bytes Command : Type 0} ⦃gob : Gob Bytes Command⦄ (sort : SortInts)
    (network : Network Net Name) where
  kill_slot-IsOwn :
      (n i : ℕ) (slot : Slot Bytes Command) → IsOwn sort n i slot → IsOwn sort n i (kill_slot slot)
  kill_slot-IsOwn n i vacant own = tt
  kill_slot-IsOwn n i (crashed p) own = own
  kill_slot-IsOwn n i (running rf) own = Peer.next own (Peer.was_killed refl)

  pub cleanup-IsStanding :
      (n : ℕ) (t_failed : Bool) (start now : ℤ) (cfg : Testbed Net Name Bytes Command)
      → IsStanding sort network n cfg
      → IsStanding sort network n (cleanup network t_failed start now cfg).0
  unfolding cleanup
  cleanup-IsStanding n t_failed start now cfg s = record {
    size = s.size;
    rows = s.rows;
    wired = record {
      fits = s.wired.fits;
      distinct = s.wired.distinct;
      wired = λ i j x named. network.clean_up-is_enabled x cfg.net ∙ s.wired.wired i j x named;
    };
    own = λ i slot here.
        let (old, there, same) = kill_all-get_elem? i cfg.slots slot here in
        subst (IsOwn sort n i) (sym same) (kill_slot-IsOwn n i old (s.own i old there));
  }
