-- ===== src/Config/Testbed/Killed.antt =====
-- The servers that the tester of Task5/raft/config.go has started are dead once it has cleaned up.
use unique_freshman.Prelude.{ℕ, ◌≡◌, true, List, [], ◌∷◌, some, get_elem?}
use unique_freshman.Raft.Types.{Raft}
use unique_freshman.Raft.Gob.{Gob}
use unique_freshman.Raft.State.{killed}
use unique_freshman.Config.Testbed.{Testbed, running}
use unique_freshman.Config.Testbed.Course.{Course}

module _ {Bytes Command : Type 0} where
  -- Every peer of the list has been killed.
  abbrev AreKilled : List (Raft Bytes Command) → Type 0
  AreKilled [] = Unit
  AreKilled (rf ∷ rfs) = (killed rf ≡ true) × AreKilled rfs

module _ {Net Name Bytes Command : Type 0} where
  -- A server that the tester has started: it is in its place, or was killed earlier.
  pub data Made (cfg : Testbed Net Name Bytes Command) (rf : Raft Bytes Command) : Type 0 where
    in_place : (i : ℕ) → get_elem? cfg.slots i ≡ some (running rf) → Made cfg rf
    put_down : (k : ℕ) → get_elem? cfg.killed k ≡ some rf → Made cfg rf
