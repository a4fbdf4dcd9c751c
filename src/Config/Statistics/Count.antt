-- ===== src/Config/Statistics/Count.antt =====
-- The number of agreements that `end` of Task5/raft/config.go reports.
use unique_freshman.Prelude.{
  ℕ, ◌≡◌, refl, ap, ◌∙◌, ℤ, pos, ◌-ℤ◌, ◌≤ℤ◌, ltb_ℤ, Bool, true, false, List, [], ◌∷◌, Option, some,
  ◌>>=◌, if◌then◌else◌, arith, bind-some,
}
use unique_freshman.Raft.Types.{ApplyMsg}
use unique_freshman.Config.{Config, Verdict, fine, differs, out_of_order, passed, read_message}
use unique_freshman.Config.Testbed.{Network}
use unique_freshman.Config.Statistics.{
  Report, begin_test, end_test, check_timeout, rpc_total, bytes_total,
}

module _ {Command : Type 0} where
  -- The messages hold commands, and `top` is the highest of their indices and of `low`.
  abbrev pub IsTop : ℤ → ℤ → List (ℕ × ApplyMsg Command) → Type 0
  IsTop low top [] = low ≡ top
  IsTop low top ((i, m) ∷ ms) =
      (m.command_valid ≡ true)
      × IsTop (if ltb_ℤ low m.command_index then m.command_index else low) top ms

module _ {Command : Type 0} (same : Command → Command → Bool) where
  -- The readers of the servers take messages, in the order of the list; the first error ends the
  -- program.
  unfoldable pub read_all :
      List (ℕ × ApplyMsg Command) → Config Command → Option (Config Command × Verdict)
  read_all [] cfg = some (cfg, fine)
  read_all ((i, m) ∷ ms) cfg = read_message same i m cfg >>= λ (cfg', v). elim v [
    | fine ↦ read_all ms cfg'
    | differs ↦ some (cfg', differs)
    | out_of_order ↦ some (cfg', out_of_order)
  ]

  read_message-max_index :
      (i : ℕ) (m : ApplyMsg Command) (cfg cfg' : Config Command) (v : Verdict)
      → m.command_valid ≡ true
      → read_message same i m cfg ≡ some (cfg', v)
      → cfg'.max_index
        ≡ (if ltb_ℤ cfg.max_index m.command_index then m.command_index else cfg.max_index)
  unfolding read_message
  read_message-max_index i m cfg cfg' v valid h = ground (arith, valid, h)

  goes_further :
      (v : Verdict) (cfg cfg' : Config Command) (more : Option (Config Command × Verdict))
      → (elim v [
        | fine ↦ more
        | differs ↦ some (cfg, differs)
        | out_of_order ↦ some (cfg, out_of_order)
      ])
        ≡ some (cfg', fine)
      → more ≡ some (cfg', fine)
  goes_further fine cfg cfg' more h = h
  goes_further differs cfg cfg' more h = absurd (ground (arith, h))
  goes_further out_of_order cfg cfg' more h = absurd (ground (arith, h))

  read_all-max_index :
      (ms : List (ℕ × ApplyMsg Command)) (cfg cfg' : Config Command) (low top : ℤ)
      → cfg.max_index ≡ low
      → IsTop low top ms
      → read_all ms cfg ≡ some (cfg', fine)
      → cfg'.max_index ≡ top
  unfolding read_all
  read_all-max_index [] cfg cfg' low top at_low h e = ground (arith, h)
  read_all-max_index ((i, m) ∷ ms) cfg cfg' low top at_low (valid, h) e =
      let ((cfg1, v), first, rest) = bind-some (read_message same i m cfg) _ e in
      let here = read_message-max_index i m cfg cfg1 v valid first in
      read_all-max_index ms cfg1 cfg' (if ltb_ℤ low m.command_index then m.command_index else low)
        top (here ∙ ap (λ l. if ltb_ℤ l m.command_index then m.command_index else l) at_low) h
        (goes_further v cfg1 cfg' _ rest)

  -- A test begins, the readers take messages with commands and no error, and the test ends within
  -- two minutes of the start of the tester and has not failed. Then `end` prints its line, with the
  -- number of peers, the calls since the test began, and as the number of agreements how far the
  -- highest index that has been seen lies above the highest one before the test.
  pub end_test-ncmds :
      {Net Name : Type 0} (network : Network Net Name) (ms : List (ℕ × ApplyMsg Command))
      (cfg cfg' : Config Command) (top start began now later : ℤ) (n : ℕ) (net net' : Net)
      → read_all ms cfg ≡ some (cfg', fine)
      → IsTop cfg.max_index top ms
      → (now -ℤ start) ≤ℤ pos 120000000000
      → (r : Report) × (end_test network false start now later n net' cfg'
            (begin_test network began net cfg)
          ≡ passed (some r))
        × (r.npeers ≡ n)
        × (r.nrpc ≡ rpc_total network net' -ℤ rpc_total network net)
        × (r.ncmds ≡ top -ℤ cfg.max_index)
  unfolding begin_test end_test check_timeout
  end_test-ncmds network ms cfg cfg' top start began now later n net net' all top_is soon =
      let e = read_all-max_index ms cfg cfg' cfg.max_index top refl top_is all in
      let in_time : ltb_ℤ (pos 120000000000) (now -ℤ start) ≡ false = ground arith in
      let report : Report = record {
        t = later -ℤ began;
        npeers = n;
        nrpc = rpc_total network net' -ℤ rpc_total network net;
        nbytes = bytes_total network net' -ℤ bytes_total network net;
        ncmds = cfg'.max_index -ℤ cfg.max_index;
      } in
      (
        report,
        rw (end_test, check_timeout, in_time) refl,
        refl,
        refl,
        ap (λ t. t -ℤ cfg.max_index) e,
      )
