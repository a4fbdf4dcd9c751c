-- ===== src/Tests/Counting.antt =====
-- The statistics of a test of two servers.
use unique_freshman.Prelude.{ℕ, ◌≡◌, ◌==◌, refl, pos, ◌-ℤ◌, true, false, [], ◌∷◌, some, arith}
use unique_freshman.Config.Statistics.{Report, begin_test, end_test, rpc_total}
use unique_freshman.Config.Statistics.Count.{read_all, end_test-ncmds}
use unique_freshman.Config.{Config, passed, read_message, has_other, lookup}
use unique_freshman.Raft.Types.{ApplyMsg}
use unique_freshman.Tests.Testing.{ends}

-- Two servers apply two commands, at indices 0 and 1, and one agreement is reported.
abbrev applied : ℕ → ℕ → ApplyMsg ℕ
applied index command = record {
  command_valid = true;
  command = command;
  command_index = pos index;
}

abbrev untouched : Config ℕ
untouched = record { logs = [] ∷ [] ∷ []; max_index = pos 0 }

abbrev read : Config ℕ
read = record { logs = ((pos 1, 8) ∷ (pos 0, 7) ∷ []) ∷ ((pos 0, 7) ∷ []) ∷ []; max_index = pos 1 }

end_test-ncmds_example :
    (r : Report) × (end_test ends false
        (pos 0)
        (pos 9)
        (pos 9)
        2
        ((10, true) ∷ [])
        read
        (begin_test ends (pos 1) [] untouched)
      ≡ passed (some r))
    × (r.npeers ≡ 2)
    × (r.nrpc ≡ rpc_total ends ((10, true) ∷ []) -ℤ rpc_total ends [])
    × (r.ncmds ≡ pos 1 -ℤ untouched.max_index)
unfolding read_all read_message has_other lookup ◌-ℤ◌
end_test-ncmds_example =
    end_test-ncmds (λ a b. a == b) ends
      ((0, applied 0 7) ∷ (1, applied 0 7) ∷ (0, applied 1 8) ∷ []) untouched read (pos 1) (pos 0)
      (pos 1) (pos 9) (pos 9) 2 [] ((10, true) ∷ []) refl (refl, (refl, (refl, refl))) (omega arith)
