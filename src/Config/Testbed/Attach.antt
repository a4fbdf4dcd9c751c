-- ===== src/Config/Testbed/Attach.antt =====
-- `connect` and `disconnect` of Task5/raft/config.go keep the client ends in order.
use unique_freshman.Prelude.{
  ℕ, ◌<◌, ◌≡◌, ap, ◌∙◌, true, false, some, length, length-set, set, arith, bind-some, subst,
}
use unique_freshman.Config.Testbed.{
  Network, Testbed, switch, write, name_at, is_connected, has_names, connect, disconnect,
}
use unique_freshman.Config.Testbed.Wiring.{
  IsWired, write-inv, is_connected-set, connected_end, disconnected_end, rewired,
}

module _ {Net Name Bytes Command : Type 0} (network : Network Net Name) where
  abbrev pub IsWiredBed : Testbed Net Name Bytes Command → Type 0
  IsWiredBed cfg = IsWired network cfg.connected cfg.endnames cfg.net

  pub connect-IsWired :
      (i : ℕ) (cfg cfg' : Testbed Net Name Bytes Command)
      → connect network i cfg ≡ some cfg'
      → IsWiredBed cfg
      → IsWiredBed cfg'
  unfolding connect
  connect-IsWired i cfg cfg' h w =
      let (cs, wrote, h1) = bind-some (write i true cfg.connected) _ h in
      let (inside, same) = write-inv i true cfg.connected cs wrote in
      let (net', out, h2) =
        bind-some
          (switch network true (is_connected cs) (λ j. name_at cfg.endnames i j) 0 (length cs)
            cfg.net)
          _ h1 in
      let (net'', back, h3) =
        bind-some
          (switch network true (is_connected cs) (λ j. name_at cfg.endnames j i) 0 (length cs) net')
          _ h2 in
      let done : record cfg { connected = cs; net = net'' } ≡ cfg' = ground arith in
      subst IsWiredBed done (
        rewired network cfg.connected cfg.endnames cfg.net net' net'' i w true cs same (
          connected_end network cfg.connected cfg.endnames cfg.net net' net'' i w (is_connected cs)
            (length cs)
            (λ j. ap (λ c. is_connected c j) same ∙ is_connected-set cfg.connected i j true inside)
            out back))

  pub disconnect-IsWired :
      (i : ℕ) (cfg cfg' : Testbed Net Name Bytes Command)
      → disconnect network i cfg ≡ some cfg'
      → IsWiredBed cfg
      → IsWiredBed cfg'
  unfolding disconnect
  disconnect-IsWired i cfg cfg' h w =
      let (cs, wrote, h1) = bind-some (write i false cfg.connected) _ h in
      let (inside, same) = write-inv i false cfg.connected cs wrote in
      let (net', out, h2) =
        bind-some
          (switch network false (λ j. has_names cfg.endnames i) (λ j. name_at cfg.endnames i j) 0
            (length cs) cfg.net)
          _ h1 in
      let (net'', back, h3) =
        bind-some
          (switch network false (has_names cfg.endnames) (λ j. name_at cfg.endnames j i) 0
            (length cs) net')
          _ h2 in
      let done : record cfg { connected = cs; net = net'' } ≡ cfg' = ground arith in
      subst IsWiredBed done (
        rewired network cfg.connected cfg.endnames cfg.net net' net'' i w false cs same (
          disconnected_end network cfg.connected cfg.endnames cfg.net net' net'' i w
            (is_connected cs) (length cs)
            (λ j. ap (λ c. is_connected c j) same ∙ is_connected-set cfg.connected i j false inside)
            out back))

  -- What `disconnect` leaves of the rest.
  pub disconnect-rest :
      (i : ℕ) (cfg cfg' : Testbed Net Name Bytes Command)
      → disconnect network i cfg ≡ some cfg'
      → (cfg'.connected ≡ set cfg.connected i false)
        × (i < length cfg.connected)
        × (cfg'.endnames ≡ cfg.endnames)
        × (cfg'.slots ≡ cfg.slots)
  unfolding disconnect
  disconnect-rest i cfg cfg' h =
      let (cs, wrote, h1) = bind-some (write i false cfg.connected) _ h in
      let (inside, same) = write-inv i false cfg.connected cs wrote in
      (ground arith, inside, ground arith, ground arith)

  -- A call of `connect` leaves the rest.
  pub connect-rest :
      (i : ℕ) (cfg cfg' : Testbed Net Name Bytes Command)
      → connect network i cfg ≡ some cfg'
      → (length cfg'.connected ≡ length cfg.connected)
        × (cfg'.endnames ≡ cfg.endnames)
        × (cfg'.slots ≡ cfg.slots)
  unfolding connect
  connect-rest i cfg cfg' h =
      let (cs, wrote, h1) = bind-some (write i true cfg.connected) _ h in
      let (inside, same) = write-inv i true cfg.connected cs wrote in
      (ground (arith, length-set cfg.connected i true), ground arith, ground arith)
