-- ===== src/Tests/Storage.antt =====
-- Stable storage, and what a client sees.
use unique_freshman.Prelude.{pos, [], ◌∷◌, ◌≡◌, inl}
use unique_freshman.Persister.{copy}
use unique_freshman.Raft.Types.{leader}
use unique_freshman.Raft.State.{make, persist}
use unique_freshman.Raft.State.Restart.{anew, make-copy, persist-IsDurable}
use unique_freshman.Tests.Samples.{plain, Peer, entry, peer}

-- A leader of term 2 that has written what it knows.
abbrev saved : Peer
saved = unfold persist in persist (peer 3 leader 2 (pos 0) (entry 7 1 ∷ []))

abbrev written : Peer
written = persist (peer 3 leader 2 (pos 0) (entry 7 1 ∷ []))

make-copy_example : make 3 0 (copy [] written.persister) 5 ≡ anew 5 written
unfolding persist
make-copy_example =
    make-copy written 5 (inl (persist-IsDurable (peer 3 leader 2 (pos 0) (entry 7 1 ∷ []))))
