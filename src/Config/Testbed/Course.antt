-- ===== src/Config/Testbed/Course.antt =====
-- Whatever the tester of Task5/raft/config.go does with its servers: they are started, crashed,
-- connected and disconnected in any order, and work in between, and it cleans up.
use unique_freshman.Prelude.{
  ℕ, ℤ, Bool, ◌≡◌, ◌≢◌, refl, sym, ap, ◌∙◌, subst, false, List, [], some, length, get_elem?, set,
  replicate, length-replicate, arith, Every-replicate, bind-some,
}
use unique_freshman.Raft.Types.{Raft}
use unique_freshman.Raft.Gob.{Gob}
use unique_freshman.Raft.Leader.{SortInts}
use unique_freshman.Raft.Peer as Peer
use unique_freshman.Raft.Peer.{Step}
use unique_freshman.Config.Testbed.{
  Network, Testbed, vacant, running, name_at, connect, disconnect, crash1, start1,
}
use unique_freshman.Config.Testbed.Wiring.{IsNew}
use unique_freshman.Config.Testbed.Attach.{connect-IsWired, connect-rest}
use unique_freshman.Config.Testbed.Own.{IsOwn, AreOwn, set-AreOwn}
use unique_freshman.Config.Testbed.Cleanup.{cleanup, cleanup-IsStanding}
use unique_freshman.Config.Testbed.Restart.{
  IsStanding, crash1-IsStanding, start1-IsStanding, disconnect-IsStanding,
}

module _ {Net Name Bytes Command : Type 0} ⦃gob : Gob Bytes Command⦄ (sort : SortInts)
    (network : Network Net Name) where
  -- The random names of `start1` are new; a call that panics is none of these.
  pub data Deed (cfg cfg' : Testbed Net Name Bytes Command) : Type 0 where
    started :
        (i : ℕ) (names : List Name) (draw : ℕ)
        → IsNew (length cfg.connected) cfg.endnames names
        → start1 network i names draw cfg ≡ some cfg'
        → Deed cfg cfg'
    went_down : (i : ℕ) → crash1 network i cfg ≡ some cfg' → Deed cfg cfg'
    attached : (i : ℕ) → connect network i cfg ≡ some cfg' → Deed cfg cfg'
    detached : (i : ℕ) → disconnect network i cfg ≡ some cfg' → Deed cfg cfg'
    cleaned_up :
        (t_failed : Bool) (start now : ℤ)
        → (cleanup network t_failed start now cfg).0 ≡ cfg'
        → Deed cfg cfg'
    worked :
        (i : ℕ) (rf rf' : Raft Bytes Command)
        → get_elem? cfg.slots i ≡ some (running rf)
        → Step sort rf rf'
        → record cfg { slots = set cfg.slots i (running rf') } ≡ cfg'
        → Deed cfg cfg'

  -- From the tester of `n` servers that `make_config` has allocated.
  pub data Course (n : ℕ) : Testbed Net Name Bytes Command → Type 0 where
    allocated :
        (cfg : Testbed Net Name Bytes Command)
        → cfg.connected ≡ replicate n false
        → cfg.endnames ≡ replicate n []
        → cfg.slots ≡ replicate n vacant
        → cfg.killed ≡ []
        → Course n cfg
    further :
        {cfg cfg' : Testbed Net Name Bytes Command} → Course n cfg → Deed cfg cfg' → Course n cfg'

  allocated-IsStanding :
      (n : ℕ) (cfg : Testbed Net Name Bytes Command)
      → cfg.connected ≡ replicate n false
      → cfg.endnames ≡ replicate n []
      → cfg.slots ≡ replicate n vacant
      → IsStanding sort network n cfg
  allocated-IsStanding n cfg flags names slots =
      let nowhere : (i j : ℕ) (x : Name) → name_at cfg.endnames i j ≢ some x = λ i j x named.
        let (row, here, in_row) = bind-some (get_elem? cfg.endnames i) _ named in
        let blank =
          Every-replicate (λ r. r ≡ []) n [] refl i row
            (subst (λ r. get_elem? r i ≡ some row) names here) in
        absurd (ground arith) in
      record {
        size = ap length flags ∙ length-replicate n false;
        rows = ap length names ∙ length-replicate n [];
        wired = record {
          fits = λ i j x named. absurd (nowhere i j x named);
          distinct = λ i j k l x named _. absurd (nowhere i j x named);
          wired = λ i j x named. absurd (nowhere i j x named);
        };
        own = λ i slot here.
            Every-replicate (IsOwn sort n i) n vacant tt i slot
              (subst (λ r. get_elem? r i ≡ some slot) slots here);
      }

  Deed-IsStanding :
      (n : ℕ) {cfg cfg' : Testbed Net Name Bytes Command}
      → Deed cfg cfg'
      → IsStanding sort network n cfg
      → IsStanding sort network n cfg'
  Deed-IsStanding n {cfg} {cfg'} (started i names draw new h) s =
      start1-IsStanding sort network n i names draw cfg cfg' (rw s.size at new) h s
  Deed-IsStanding n {cfg} {cfg'} (went_down i h) s = crash1-IsStanding sort network n i cfg cfg' h s
  Deed-IsStanding n {cfg} {cfg'} (attached i h) s =
      let (size, names, slots) = connect-rest network i cfg cfg' h in
      record {
        size = size ∙ s.size;
        rows = ap length names ∙ s.rows;
        wired = connect-IsWired network i cfg cfg' h s.wired;
        own = subst (AreOwn sort n) (sym slots) s.own;
      }
  Deed-IsStanding n {cfg} {cfg'} (detached i h) s =
      disconnect-IsStanding sort network n i cfg cfg' h s
  Deed-IsStanding n {cfg} (cleaned_up t_failed start now e) s =
      subst (IsStanding sort network n) e
        (cleanup-IsStanding sort network n t_failed start now cfg s)
  Deed-IsStanding n {cfg} (worked i rf rf' here st e) s =
      subst (IsStanding sort network n) e (record {
        size = s.size;
        rows = s.rows;
        wired = s.wired;
        own =
            set-AreOwn sort n i cfg.slots (running rf') (Peer.next (s.own i (running rf) here) st)
              s.own;
      })

  -- The random names of `start1` are new each time. However the servers are started, crashed,
  -- connected, disconnected and at work in between, also after a clean-up, the name of every client end stands at one place,
  -- the end of server `i` for server `j` may send exactly while both are connected, every running
  -- server is one that the steps of a peer with its index may lead to from a fresh start, and a
  -- crashed one has left the persister of such a server.
  pub Course-IsStanding :
      (n : ℕ) {cfg : Testbed Net Name Bytes Command} → Course n cfg → IsStanding sort network n cfg
  Course-IsStanding n (allocated cfg flags names slots none_killed) =
      allocated-IsStanding n cfg flags names slots
  Course-IsStanding n (further c deed) = Deed-IsStanding n deed (Course-IsStanding n c)
