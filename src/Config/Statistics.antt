-- ===== src/Config/Statistics.antt =====
-- The statistics of a test in Task5/raft/config.go: `begin`, `end`, `checkTimeout`, and what they
-- read of the network. The times are arguments, in nanoseconds.
pub mod Count
use unique_freshman.Prelude.{
  ℕ, ℤ, pos, ◌-ℤ◌, ltb_ℤ, Bool, true, false, not, ◌&&◌, Option, none, some, if◌then◌else◌,
}
use unique_freshman.Config.{Config, Check, passed, failed, panicked}
use unique_freshman.Config.Testbed.{Network}

-- The fields that `begin` sets.
pub record Statistics : Type 0 where
  pub t0 : ℤ
  pub rpcs0 : ℤ
  pub cmds0 : ℤ
  pub bytes0 : ℤ
  pub max_index0 : ℤ

-- The line that `end` prints of a test that has passed.
pub record Report : Type 0 where
  pub t : ℤ
  pub npeers : ℕ
  pub nrpc : ℤ
  pub nbytes : ℤ
  pub ncmds : ℤ

-- `t_failed` is `t.Failed()`; `now` is the time of the call.
unfoldable pub check_timeout : Bool → ℤ → ℤ → Check Unit
check_timeout t_failed start now =
    if not t_failed && ltb_ℤ (pos 120000000000) (now -ℤ start) then failed else passed tt

module _ {Net Name : Type 0} (network : Network Net Name) where
  unfoldable pub rpc_count : ℕ → Net → ℤ
  rpc_count server net = network.get_count server net

  unfoldable pub rpc_total : Net → ℤ
  rpc_total net = network.get_total_count net

  unfoldable pub bytes_total : Net → ℤ
  bytes_total net = network.get_total_bytes net

  unfoldable pub set_unreliable : Bool → Net → Net
  set_unreliable unrel net = network.reliable (not unrel) net

  unfoldable pub set_long_reordering : Bool → Net → Net
  set_long_reordering longrel net = network.long_reordering longrel net

  module _ {Command : Type 0} where
    unfoldable pub begin_test : ℤ → Net → Config Command → Statistics
    unfolding rpc_total bytes_total
    begin_test now net cfg = record {
      t0 = now;
      rpcs0 = rpc_total net;
      bytes0 = bytes_total net;
      cmds0 = pos 0;
      max_index0 = cfg.max_index;
    }

    -- `n` is the number of peers; the clock is read at `now` and at `later`.
    unfoldable pub end_test :
        Bool → ℤ → ℤ → ℤ → ℕ → Net → Config Command → Statistics → Check (Option Report)
    unfolding check_timeout rpc_total bytes_total
    end_test t_failed start now later n net cfg stats = elim (check_timeout t_failed start now) [
      | failed ↦ failed
      | panicked ↦ panicked
      | passed _ ↦
          if t_failed
          then passed none
          else passed (
              some (record {
                t = later -ℤ stats.t0;
                npeers = n;
                nrpc = rpc_total net -ℤ stats.rpcs0;
                nbytes = bytes_total net -ℤ stats.bytes0;
                ncmds = cfg.max_index -ℤ stats.max_index0;
              }))
    ]
