-- ===== src/Config/Testbed/Setup.antt =====
-- `make_config` of Task5/raft/config.go: the tester's servers are allocated, started and connected.
use unique_freshman.Prelude.{
  ℕ, zero, suc, ◌≡◌, refl, subst, Bool, true, false, List, [], ◌∷◌, Option, some, ◌>>=◌, length,
  replicate, arith, bind-some,
}
use unique_freshman.Raft.Gob.{Gob}
use unique_freshman.Raft.Leader.{SortInts}
use unique_freshman.Config.Statistics.{set_unreliable}
use unique_freshman.Config.Testbed.{Network, Testbed, vacant, connect, start1}
use unique_freshman.Config.Testbed.Wiring.{IsNew}
use unique_freshman.Config.Testbed.Restart.{IsStanding}
use unique_freshman.Config.Testbed.Course.{
  Course, allocated, further, started, attached, Course-IsStanding,
}

module _ {Net Name Bytes Command : Type 0} where
  unfoldable pub allocate : ℕ → Net → Testbed Net Name Bytes Command
  allocate n net = record {
    net = net;
    connected = replicate n false;
    endnames = replicate n [];
    slots = replicate n vacant;
    killed = [];
  }

module _ {Net Name Bytes Command : Type 0} ⦃gob : Gob Bytes Command⦄
    (network : Network Net Name) where
  -- From server `i` on, each with its random names and the number that `Make` draws.
  unfoldable pub start_all :
      ℕ
      → List (List Name × ℕ)
      → Testbed Net Name Bytes Command
      → Option (Testbed Net Name Bytes Command)
  start_all i [] cfg = some cfg
  start_all i ((names, draw) ∷ rows) cfg =
      start1 network i names draw cfg >>= start_all (suc i) rows

  -- From server `i` on, for `k` servers.
  unfoldable pub connect_all :
      ℕ → ℕ → Testbed Net Name Bytes Command → Option (Testbed Net Name Bytes Command)
  connect_all i zero cfg = some cfg
  connect_all i (suc k) cfg = connect network i cfg >>= connect_all (suc i) k

  -- `net` is a new network, and `rows` has a row for every server.
  unfoldable pub make_config :
      Bool → List (List Name × ℕ) → Net → Option (Testbed Net Name Bytes Command)
  unfolding allocate start_all connect_all set_unreliable
  make_config unreliable rows net =
      let n = length rows in
      let net' = network.long_delays true (set_unreliable network unreliable net) in
      start_all 0 rows (allocate n net') >>= connect_all 0 n

  -- The random names are new each time.
  abbrev pub AreNew : ℕ → ℕ → List (List Name × ℕ) → Testbed Net Name Bytes Command → Type 0
  AreNew n i [] cfg = Unit
  AreNew n i ((names, draw) ∷ rows) cfg =
      IsNew n cfg.endnames names
      × ((cfg' : Testbed Net Name Bytes Command)
          → start1 network i names draw cfg ≡ some cfg'
          → AreNew n (suc i) rows cfg')

  module _ (sort : SortInts) (n : ℕ) where
    start_all-Course :
        (i : ℕ) (rows : List (List Name × ℕ)) (cfg cfg' : Testbed Net Name Bytes Command)
        → AreNew n i rows cfg
        → start_all i rows cfg ≡ some cfg'
        → Course sort network n cfg
        → Course sort network n cfg'
    unfolding start_all
    start_all-Course i [] cfg cfg' new h c =
        let same : cfg ≡ cfg' = ground arith in subst (Course sort network n) same c
    start_all-Course i ((names, draw) ∷ rows) cfg cfg' (new, more) h c =
        let (cfg1, first, rest) = bind-some (start1 network i names draw cfg) _ h in
        let s = Course-IsStanding sort network n c in
        start_all-Course (suc i) rows cfg1 cfg' (more cfg1 first) rest
          (further c (started i names draw (rw (s.size) new) first))

    connect_all-Course :
        (i k : ℕ) (cfg cfg' : Testbed Net Name Bytes Command)
        → connect_all i k cfg ≡ some cfg'
        → Course sort network n cfg
        → Course sort network n cfg'
    unfolding connect_all
    connect_all-Course i zero cfg cfg' h c =
        let same : cfg ≡ cfg' = ground arith in subst (Course sort network n) same c
    connect_all-Course i (suc k) cfg cfg' h c =
        let (cfg1, first, rest) = bind-some (connect network i cfg) _ h in
        connect_all-Course (suc i) k cfg1 cfg' rest (further c (attached i first))

  -- With names that are new each time, `make_config` is a course of starts and connections, so that
  -- what it returns is in order.
  pub make_config-IsStanding :
      (sort : SortInts) (unreliable : Bool) (rows : List (List Name × ℕ)) (net : Net)
      (cfg : Testbed Net Name Bytes Command)
      → ((net' : Net) → AreNew (length rows) 0 rows (allocate (length rows) net'))
      → make_config unreliable rows net ≡ some cfg
      → IsStanding sort network (length rows) cfg
  unfolding make_config allocate
  make_config-IsStanding sort unreliable rows net cfg new h =
      let n = length rows in
      let net' = network.long_delays true (set_unreliable network unreliable net) in
      let (cfg1, first, rest) = bind-some (start_all 0 rows (allocate n net')) _ h in
      Course-IsStanding sort network n (
        connect_all-Course sort n 0 n cfg1 cfg rest (
          start_all-Course sort n 0 rows (allocate n net') cfg1 (new net') first
            (allocated (allocate n net') refl refl refl refl)))
