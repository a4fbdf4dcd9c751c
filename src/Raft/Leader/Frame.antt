-- ===== src/Raft/Leader/Frame.antt =====
-- What a reply to `AppendEntries` can change of the leader.
use unique_freshman.Prelude.{
  ℕ, ◌≡◌, sym, ap, ◌∙◌, ◌⊎◌, inl, inr, ℤ, pos, minus_one, ◌+ℤ◌, ◌≤ℤ◌, ◌<ℤ◌, ltb_ℤ, eqb_ℤ, List,
  Option, none, some, at, store, length, length_ℤ, arith, bind-some, Bool-cases, length-store,
}
use unique_freshman.Raft.Types.{Raft, AppendEntriesArgs, AppendEntriesReply}
use unique_freshman.Raft.Gob.{Gob}
use unique_freshman.Raft.State.{convert_to_follower}
use unique_freshman.Raft.Apply.{start_apply_logs}
use unique_freshman.Raft.Leader.{
  SortInts, Next, quorum_index, advance_commit, accepted, refused, back_up, append_reply,
  current_reply,
}

module _ {Bytes Command : Type 0} where
  -- The leader after some change of its own counts.
  abbrev pub counted : List ℤ → List ℤ → ℤ → Raft Bytes Command → Raft Bytes Command
  counted match_index next_index committed_index rf = record rf {
    match_index = match_index;
    next_index = next_index;
    committed_index = committed_index;
  }

  pub refused-inv :
      (j : ℕ) (reply : AppendEntriesReply) (rf rf' : Raft Bytes Command)
      → refused j reply rf ≡ some rf'
      → (next_index : List ℤ) × (length next_index ≡ length rf.next_index)
        × (rf' ≡ record rf { next_index = next_index })
  unfolding refused
  refused-inv j reply rf rf' h =
      let (n, _, rest) = bind-some (at rf.next_index (pos j)) _ h in
      let (next_index, stored, last) =
        bind-some (store rf.next_index (pos j) (back_up reply rf.log n)) _ rest in
      (next_index, length-store rf.next_index (pos j) _ stored, ground arith)

module _ {Bytes Command : Type 0} (sort : SortInts) where
  advance_commit-inv :
      (rf rf' : Raft Bytes Command)
      → advance_commit sort rf ≡ some rf'
      → (c : ℤ) × (rf.committed_index ≤ℤ c) × (rf' ≡ record rf { committed_index = c })
  unfolding advance_commit
  advance_commit-inv rf rf' h =
      let (n, _, rest) = bind-some (quorum_index sort rf) _ h in
      elim (Bool-cases (ltb_ℤ rf.committed_index n)) [
        | inl beyond ↦
            let (e, _, last) = bind-some (at rf.log n) _ (rw beyond at rest) in
            elim (Bool-cases (eqb_ℤ e.term rf.current_term)) [
              | inl own ↦ (n, ground arith, ground arith)
              | inr other ↦ (rf.committed_index, ground arith, ground arith)
            ]
        | inr old ↦ (rf.committed_index, ground arith, ground arith)
      ]

  -- The leader between the writes of a success and the step of `committedIndex`.
  pub accepted_parts :
      (j : ℕ) (args : AppendEntriesArgs Command) (rf rf' : Raft Bytes Command)
      → accepted sort j args rf ≡ some rf'
      → (match_index next_index : List ℤ) × (rf'' : Raft Bytes Command) × (length match_index
          ≡ length rf.match_index)
        × (length next_index ≡ length rf.next_index)
        × (advance_commit sort (record rf { match_index = match_index; next_index = next_index })
            ≡ some rf'')
        × (start_apply_logs rf'' ≡ some rf')
  unfolding accepted
  accepted_parts j args rf rf' h =
      let reached = args.prev_log_index +ℤ length_ℤ args.entries in
      let (ms, stored, rest) = bind-some (store rf.match_index (pos j) reached) _ h in
      let (ns, stored', rest') =
        bind-some (store rf.next_index (pos j) (reached +ℤ pos 1)) _ rest in
      let (rf'', moved, last) =
        bind-some (advance_commit sort (record rf { match_index = ms; next_index = ns })) _ rest' in
      (
        ms,
        ns,
        rf'',
        length-store rf.match_index (pos j) reached stored,
        length-store rf.next_index (pos j) (reached +ℤ pos 1) stored',
        moved,
        last,
      )

  accepted-inv :
      (j : ℕ) (args : AppendEntriesArgs Command) (rf rf' : Raft Bytes Command)
      → accepted sort j args rf ≡ some rf'
      → (match_index next_index : List ℤ) × (c : ℤ) × (length match_index ≡ length rf.match_index)
        × (length next_index ≡ length rf.next_index)
        × (rf.committed_index ≤ℤ c)
        × (start_apply_logs (counted match_index next_index c rf) ≡ some rf')
  accepted-inv j args rf rf' h =
      let (ms, ns, rf'', size, size', moved, last) = accepted_parts j args rf rf' h in
      let (c, up, e) = advance_commit-inv _ rf'' moved in
      (ms, ns, c, size, size', up, ap start_apply_logs (sym e) ∙ last)

-- The ways in which a reply may change a leader.
pub data Replied {Bytes Command : Type 0} ⦃gob : Gob Bytes Command⦄ (rf rf' : Raft Bytes Command)
    : Type 0 where
  unchanged : rf' ≡ rf → Replied rf rf'
  outdated :
      (t : ℤ) → rf.current_term <ℤ t → rf' ≡ convert_to_follower t minus_one rf → Replied rf rf'
  backed_up :
      (next_index : List ℤ)
      → length next_index ≡ length rf.next_index
      → rf' ≡ record rf { next_index = next_index }
      → Replied rf rf'
  advanced :
      (match_index next_index : List ℤ) (c : ℤ)
      → length match_index ≡ length rf.match_index
      → length next_index ≡ length rf.next_index
      → rf.committed_index ≤ℤ c
      → start_apply_logs (counted match_index next_index c rf) ≡ some rf'
      → Replied rf rf'

module _ {Bytes Command : Type 0} ⦃gob : Gob Bytes Command⦄ (sort : SortInts) where
  current_reply-Replied :
      (j : ℕ) (args : AppendEntriesArgs Command) (reply : AppendEntriesReply)
      (rf rf' : Raft Bytes Command) (next : Next)
      → current_reply sort j args reply rf ≡ some (rf', next)
      → Replied rf rf'
  unfolding current_reply refused accepted
  current_reply-Replied j args reply rf rf' next h = elim (Bool-cases reply.success) [
    | inl good ↦
        let (r, done, last) = bind-some (accepted sort j args rf) _ (rw good at h) in
        let same : r ≡ rf' = ground arith in
        let (ms, ns, c, size, size', up, e) = accepted-inv sort j args rf r done in
        advanced ms ns c size size' up (e ∙ ap some same)
    | inr bad ↦
        let (r, done, last) = bind-some (refused j reply rf) _ (rw bad at h) in
        let (ns, size, e) = refused-inv j reply rf r done in backed_up ns size (ground arith)
  ]

  -- A reply changes nothing, or it is of a later term, or the leader treats it as its own.
  pub append_reply-cases :
      (j : ℕ) (args : AppendEntriesArgs Command) (reply : AppendEntriesReply)
      (rf rf' : Raft Bytes Command) (next : Next)
      → append_reply sort j args (some reply) rf ≡ some (rf', next)
      → (rf' ≡ rf)
        ⊎ ((rf.current_term <ℤ reply.term) × (rf' ≡ convert_to_follower reply.term minus_one rf))
        ⊎ (current_reply sort j args reply rf ≡ some (rf', next))
  unfolding append_reply
  append_reply-cases j args reply rf rf' next h = ground arith

  pub append_reply-Replied :
      (j : ℕ) (args : AppendEntriesArgs Command) (reply : Option AppendEntriesReply)
      (rf rf' : Raft Bytes Command) (next : Next)
      → append_reply sort j args reply rf ≡ some (rf', next)
      → Replied rf rf'
  append_reply-Replied j args none rf rf' next h = unchanged (unfold append_reply in ground arith)
  append_reply-Replied j args (some reply) rf rf' next h =
      elim (append_reply-cases j args reply rf rf' next h) [
        | inl same ↦ unchanged same
        | inr (inl (late, e)) ↦ outdated reply.term late e
        | inr (inr own) ↦ current_reply-Replied j args reply rf rf' next own
      ]
