-- ===== src/Raft/Peer/Stale.antt =====
-- The main loop of Task5/raft/raft.go calls `persist` without the lock: other code may run between
-- the encoding of the state and `SaveRaftState`. The encoding is one step here.
use unique_freshman.Prelude.{ℕ, ◌≡◌, refl, inl, List, [], ◌∷◌, ◌++◌, some}
use unique_freshman.Persister.{copy, save_raft_state}
use unique_freshman.Raft.Types.{Raft, AppendEntriesArgs, AppendEntriesReply}
use unique_freshman.Raft.Gob.{Gob}
use unique_freshman.Raft.State.{persistent, persist, make}
use unique_freshman.Raft.State.Restart.{IsDurable, persist-IsDurable, anew, make-copy}
use unique_freshman.Raft.Append.{append_entries}
use unique_freshman.Raft.Leader.{SortInts}
use unique_freshman.Raft.Peer as Peer
use unique_freshman.Raft.Peer.{Step, StaysUp}
use unique_freshman.Raft.Peer.Durable.{append_entries-IsDurable}
use unique_freshman.Raft.Peer.Shape.{append_entries-SameShape}

module _ {Bytes Command : Type 0} ⦃gob : Gob Bytes Command⦄ where
  -- The two halves of `persist`.
  unfoldable pub encode_state : Raft Bytes Command → Bytes
  encode_state rf = gob.encode (persistent rf)

  unfoldable pub save_data : Bytes → Raft Bytes Command → Raft Bytes Command
  unfolding save_raft_state
  save_data bytes rf = record rf { persister = save_raft_state rf.persister bytes }

-- A peer, and the states that calls of `persist` have encoded and not yet saved.
pub record Writing (Bytes Command : Type 0) : Type 0 where
  pub raft : Raft Bytes Command
  pub unsaved : List Bytes

module _ {Bytes Command : Type 0} ⦃gob : Gob Bytes Command⦄ (sort : SortInts) where
  pub data Write (w w' : Writing Bytes Command) : Type 0 where
    stepped :
        (rf' : Raft Bytes Command) (st : Step sort w.raft rf')
        → StaysUp sort st
        → record w { raft = rf' } ≡ w'
        → Write w w'
    encoded : record w { unsaved = encode_state w.raft ∷ w.unsaved } ≡ w' → Write w w'
    saved :
        (before after : List Bytes) (bytes : Bytes)
        → w.unsaved ≡ before ++ bytes ∷ after
        → record { raft = save_data bytes w.raft; unsaved = before ++ after } ≡ w'
        → Write w w'
    -- The new peer is on a copy of the persister: no call of the old one writes to it.
    began_anew :
        (draw : ℕ) (rf' : Raft Bytes Command)
        → make w.raft.peers w.raft.me (copy gob.nil_bytes w.raft.persister) draw ≡ rf'
        → record { raft = rf'; unsaved = [] } ≡ w'
        → Write w w'

  pub data Writes (w : Writing Bytes Command) : Writing Bytes Command → Type 0 where
    none_yet : Writes w w
    later : {w' w'' : Writing Bytes Command} → Writes w w' → Write w' w'' → Writes w w''

  overwritten :
      (args : AppendEntriesArgs Command) (reply : AppendEntriesReply) (rf rf' : Raft Bytes Command)
      (draw : ℕ)
      → append_entries args rf ≡ some (rf', reply)
      → make rf'.peers rf'.me (copy gob.nil_bytes (save_data (encode_state rf) rf').persister) draw
        ≡ anew draw (persist rf)
  unfolding save_data encode_state persist save_raft_state
  overwritten args reply rf rf' draw ran =
      let s = append_entries-SameShape args rf rf' reply ran in
      rw (s.count, s.index, s.snapshot) (make-copy (persist rf) draw (inl (persist-IsDurable rf)))

  -- A request for entries is answered while the main loop writes the state down. There is a run in
  -- which the peer has written all that it knows as it answers, and then the older state is saved over
  -- that: a peer that is made anew has the term, the vote and the log from before the request.
  pub Writes-loses :
      (args : AppendEntriesArgs Command) (reply : AppendEntriesReply) (rf rf' : Raft Bytes Command)
      (draw : ℕ)
      → append_entries args rf ≡ some (rf', reply)
      → (bytes : Bytes) × (q : Raft Bytes Command) × Writes
          (record { raft = rf; unsaved = [] })
          (record { raft = rf'; unsaved = bytes ∷ [] })
        × IsDurable rf'
        × Writes (record { raft = rf'; unsaved = bytes ∷ [] }) (record { raft = q; unsaved = [] })
        × (q.current_term ≡ rf.current_term)
        × (q.voted_for ≡ rf.voted_for)
        × (q.log ≡ rf.log)
  unfolding persist save_data
  Writes-loses args reply rf rf' draw ran =
      let bytes = encode_state rf in
      (
        bytes,
        anew draw (persist rf),
        later (later none_yet (encoded refl)) (stepped rf' (Peer.told args reply ran) tt refl),
        append_entries-IsDurable args rf ran,
        later (later none_yet (saved [] [] bytes refl refl)) (
            began_anew draw (anew draw (persist rf)) (overwritten args reply rf rf' draw ran) refl),
        refl,
        refl,
        refl,
      )
