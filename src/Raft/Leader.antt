-- ===== src/Raft/Leader.antt =====
-- A leader replicates its log (Task5/raft/raft.go, `startAppendEntries`): the request for one peer,
-- and what its reply does. `sort.Ints` is not part of the repository and enters as an interface.
pub mod Request
pub mod Frame
pub mod Bounds
pub mod Quorum
pub mod Count
pub mod Progress
pub mod Retry
pub mod Exchange
use mathlib.Core.List.{Perm}
use unique_freshman.Prelude.{
  ℕ, suc, ◌/◌, ℤ, pos, minus_one, ◌+ℤ◌, ◌-ℤ◌, ◌≤ℤ◌, ltb_ℤ, leb_ℤ, eqb_ℤ, Bool, true, false, List,
  [], ◌∷◌, ◌++◌, Option, none, some, ◌>>=◌, if◌then◌else◌, length, length_ℤ, at, store, slice_from,
  take, drop, replicate,
}
use unique_freshman.Raft.Types.{
  LogEntry, Raft, AppendEntriesArgs, AppendEntriesReply, follower, candidate, leader,
}
use unique_freshman.Raft.Gob.{Gob}
use unique_freshman.Raft.State.{convert_to_follower, killed}
use unique_freshman.Raft.Apply.{start_apply_logs}

-- Each element is at most those behind it.
abbrev pub Below : ℤ → List ℤ → Type 0
Below x [] = Unit
Below x (y ∷ ys) = (x ≤ℤ y) × Below x ys

abbrev pub IsSorted : List ℤ → Type 0
IsSorted [] = Unit
IsSorted (x ∷ xs) = Below x xs × IsSorted xs

-- Go's `sort.Ints` brings the numbers into increasing order.
pub record SortInts : Type 0 where
  pub ints : List ℤ → List ℤ
  pub ints-IsSorted : (xs : List ℤ) → IsSorted (ints xs)
  pub ints-perm : (xs : List ℤ) → Perm (ints xs) xs

-- `copy(dst, src)`
abbrev pub copy_ints : List ℤ → List ℤ → List ℤ
copy_ints dst src = take (length dst) src ++ drop (length src) dst

module _ {Command : Type 0} where
  -- The loop over the leader's log, from round `i`: the new `nextIndex`, if one is found.
  unfoldable pub scan_conflict : AppendEntriesReply → Bool → ℕ → List (LogEntry Command) → Option ℤ
  scan_conflict reply has i [] = none
  scan_conflict reply has i (e ∷ es) =
      let has' = if eqb_ℤ e.term reply.conflict_term then true else has in
      let rest = scan_conflict reply has' (suc i) es in
      if ltb_ℤ reply.conflict_term e.term
      then some (if has' then pos i else reply.conflict_index)
      else rest

  -- `nextIndex[j]` after a refusal.
  unfoldable pub back_up : AppendEntriesReply → List (LogEntry Command) → ℤ → ℤ
  unfolding scan_conflict
  back_up reply log next =
      let found : ℤ = elim (scan_conflict reply false 0 log) [ none ↦ next | some i ↦ i ] in
      if ltb_ℤ found (pos 0) then pos 0 else found

module _ {Bytes Command : Type 0} where
  -- The request for peer `j`; `some none` where this peer does not lead any more.
  unfoldable pub append_args : ℕ → Raft Bytes Command → Option (Option (AppendEntriesArgs Command))
  append_args j rf = elim rf.state [
    | leader ↦ at rf.next_index (pos j) >>= λ next.
        let prev = next -ℤ pos 1 in
        (if leb_ℤ (pos 0) prev then (at rf.log prev >>= λ e. some e.term) else some minus_one)
        >>= λ prev_term. slice_from rf.log (prev +ℤ pos 1) >>= λ es. some (
            some (record {
              term = rf.current_term;
              leader_id = pos rf.me;
              prev_log_index = prev;
              prev_log_term = prev_term;
              entries = es;
              leader_commit = rf.committed_index;
            }))
    | follower ↦ some none
    | candidate ↦ some none
  ]

  -- A turn of the outer loop: whether it starts a goroutine for each peer, and goes on. A goroutine
  -- at work for a peer does not test `killed` again.
  unfoldable pub leads : Raft Bytes Command → Bool
  unfolding killed
  leads rf = if killed rf then false else elim rf.state [ leader ↦ true | _ ↦ false ]

  unfoldable pub refused : ℕ → AppendEntriesReply → Raft Bytes Command → Option (Raft Bytes Command)
  unfolding back_up
  refused j reply rf = at rf.next_index (pos j) >>= λ next.
      store rf.next_index (pos j) (back_up reply rf.log next) >>= λ next_index.
      some (record rf { next_index = next_index })

module _ {Bytes Command : Type 0} (sort : SortInts) where
  -- The index `N` that half of the peers are known to have reached.
  unfoldable pub quorum_index : Raft Bytes Command → Option ℤ
  quorum_index rf =
      let copied = copy_ints (replicate rf.peers (pos 0)) rf.match_index in
      store copied (pos rf.me) (length_ℤ rf.log) >>= λ matches.
      at (sort.ints matches) (pos (rf.peers / 2))

  unfoldable pub advance_commit : Raft Bytes Command → Option (Raft Bytes Command)
  unfolding quorum_index
  advance_commit rf = quorum_index rf >>= λ n.
      if ltb_ℤ rf.committed_index n
      then (at rf.log n >>= λ e.
          if eqb_ℤ e.term rf.current_term
          then some (record rf { committed_index = n })
          else some rf)
      else some rf

  unfoldable pub accepted :
      ℕ → AppendEntriesArgs Command → Raft Bytes Command → Option (Raft Bytes Command)
  accepted j args rf =
      let reached = args.prev_log_index +ℤ length_ℤ args.entries in
      store rf.match_index (pos j) reached >>= λ match_index.
      store rf.next_index (pos j) (reached +ℤ pos 1) >>= λ next_index.
      advance_commit (record rf { match_index = match_index; next_index = next_index })
      >>= start_apply_logs

-- Whether the goroutine for a peer makes another request.
pub data Next : Type 0 where
  stop again : Next

module _ {Bytes Command : Type 0} (sort : SortInts) where
  -- A reply of the leader's own term, while it leads.
  unfoldable pub current_reply :
      ℕ
      → AppendEntriesArgs Command
      → AppendEntriesReply
      → Raft Bytes Command
      → Option (Raft Bytes Command × Next)
  current_reply j args reply rf =
      if reply.success
      then (accepted sort j args rf >>= λ rf'. some (rf', stop))
      else (refused j reply rf >>= λ rf'. some (rf', again))

module _ {Bytes Command : Type 0} ⦃gob : Gob Bytes Command⦄ (sort : SortInts) where
  -- The reply of peer `j` to the request `args`; `none` is a call that failed.
  unfoldable pub append_reply :
      ℕ
      → AppendEntriesArgs Command
      → Option AppendEntriesReply
      → Raft Bytes Command
      → Option (Raft Bytes Command × Next)
  unfolding convert_to_follower
  append_reply j args none rf = some (rf, stop)
  append_reply j args (some reply) rf =
      if ltb_ℤ rf.current_term reply.term
      then some (convert_to_follower reply.term minus_one rf, stop)
      else (if eqb_ℤ rf.current_term args.term
          then elim rf.state [
            | leader ↦ current_reply sort j args reply rf
            | follower ↦ some (rf, stop)
            | candidate ↦ some (rf, stop)
          ]
          else some (rf, stop))
