-- ===== src/Config/Testbed/Own.antt =====
-- What the tester of Task5/raft/config.go keeps of a server that it crashes, and starts again.
use unique_freshman.Prelude.{
  ℕ, ◌≡◌, refl, sym, ap, ap₂, List, some, get_elem?, set, get_elem?-set_cases, inl, inr, subst,
}
use unique_freshman.Persister.{Persister, make_persister, copy, save_raft_state, read_raft_state}
use unique_freshman.Raft.Types.{Raft}
use unique_freshman.Raft.Gob.{Gob}
use unique_freshman.Raft.State.{make}
use unique_freshman.Raft.Leader.{SortInts}
use unique_freshman.Raft.Peer as Peer
use unique_freshman.Raft.Peer.{Reach}
use unique_freshman.Raft.Peer.Sized.{Reach-IsSized}
use unique_freshman.Raft.Peer.Snapshot.{Reach-snapshot}
use unique_freshman.Config.Testbed.{Slot, vacant, crashed, running, crash_slot, saved_anew}

module _ {Bytes Command : Type 0} ⦃gob : Gob Bytes Command⦄ (sort : SortInts) where
  -- A server that runs is one that its steps may lead to, and one that has crashed has left the
  -- persister of such a server.
  abbrev pub IsOwn : ℕ → ℕ → Slot Bytes Command → Type 0
  IsOwn n i vacant = Unit
  IsOwn n i (crashed p) = (rf : Raft Bytes Command) × Reach sort n i rf × (p ≡ rf.persister)
  IsOwn n i (running rf) = Reach sort n i rf

  -- What `crash1` saves is what was written.
  resaved :
      (n i : ℕ) (rf : Raft Bytes Command) (p : Persister Bytes)
      → Reach sort n i rf
      → p ≡ rf.persister
      → save_raft_state (make_persister gob.nil_bytes) (read_raft_state (copy gob.nil_bytes p))
        ≡ rf.persister
  unfolding save_raft_state make_persister read_raft_state copy
  resaved n i rf p r same =
      let written : Bytes → Bytes → Persister Bytes =
        λ a b. record { raftstate = a; snapshot = b } in
      ap₂ written (ap (λ q. q.raftstate) same) (sym (Reach-snapshot sort n i r))

  pub crash_slot-IsOwn :
      (n i : ℕ) (slot : Slot Bytes Command) → IsOwn n i slot → IsOwn n i (crash_slot slot)
  crash_slot-IsOwn n i vacant own = tt
  crash_slot-IsOwn n i (crashed p) (rf, r, same) = (rf, r, resaved n i rf p r same)
  crash_slot-IsOwn n i (running rf) r = (rf, r, resaved n i rf rf.persister r refl)

  -- A server on a copy of what another one has left.
  made_again :
      (n i draw : ℕ) (rf : Raft Bytes Command) (p : Persister Bytes)
      → Reach sort n i rf
      → p ≡ rf.persister
      → Reach sort n i (make {Command = Command} n i (copy gob.nil_bytes p) draw)
  made_again n i draw rf p r same =
      let z = Reach-IsSized sort n i r in
      let e : make rf.peers rf.me (copy gob.nil_bytes rf.persister) draw
          ≡ make {Command = Command} n i (copy gob.nil_bytes p) draw =
        rw (z.count, z.index, same) refl in
      Peer.next r (Peer.restarted draw e)

  pub made-IsOwn :
      (n i draw : ℕ) (slot : Slot Bytes Command)
      → IsOwn n i slot
      → Reach sort n i (make {Command = Command} n i (saved_anew slot) draw)
  made-IsOwn n i draw vacant own = Peer.made draw _ refl
  made-IsOwn n i draw (crashed p) (rf, r, same) = made_again n i draw rf p r same
  made-IsOwn n i draw (running rf) r = made_again n i draw rf rf.persister r refl

  -- The same of every server.
  abbrev pub AreOwn : ℕ → List (Slot Bytes Command) → Type 0
  AreOwn n slots =
      (i : ℕ) (slot : Slot Bytes Command) → get_elem? slots i ≡ some slot → IsOwn n i slot

  pub set-AreOwn :
      (n i : ℕ) (slots : List (Slot Bytes Command)) (slot : Slot Bytes Command)
      → IsOwn n i slot
      → AreOwn n slots
      → AreOwn n (set slots i slot)
  set-AreOwn n i slots slot own all j other here =
      elim (get_elem?-set_cases slots i j slot other here) [
        | inl (place, same) ↦
            subst (IsOwn n j) (sym same) (subst (λ k. IsOwn n k slot) (sym place) own)
        | inr old ↦ all j other old
      ]
