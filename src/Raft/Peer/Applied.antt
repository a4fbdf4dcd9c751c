-- ===== src/Raft/Peer/Applied.antt =====
-- What a peer sends to the service: the entries from index 0 on, one after the other.
use unique_freshman.Prelude.{
  ℕ, suc, ◌+◌, ◌≡◌, refl, sym, ap, ◌∙◌, pos, true, List, [], ◌∷◌, ◌++◌, length, take, drop, some,
  arith, length-append, length-take, length-drop, subst, bind-some, Bool-cases, inl, inr,
}
use unique_freshman.Raft.Types.{ApplyMsg, LogEntry, Raft, AppendEntriesArgs, AppendEntriesReply}
use unique_freshman.Raft.Gob.{Gob}
use unique_freshman.Raft.State.{make, convert_to_follower}
use unique_freshman.Raft.Append.{append_entries, accept_entries, answer_append, merge_entries}
use unique_freshman.Raft.Append.Accept.{entered, entered-fields, append_entries-inv}
use unique_freshman.Raft.Leader.{SortInts}
use unique_freshman.Raft.Leader.Frame.{
  Replied, unchanged, outdated, backed_up, advanced, append_reply-Replied,
}
use unique_freshman.Raft.Peer.{
  Step, Reach, asked, told, vote_came, answer_came, submitted, round_began, woke, was_killed,
  crowded, restarted, made, next,
}
use unique_freshman.Raft.Peer.Terms.{
  IsQuiet, request_vote-IsQuiet, vote_reply-IsQuiet, start-IsQuiet, begin_round-IsQuiet,
  wake-IsQuiet, kill-IsQuiet, crowd-IsQuiet,
}
use unique_freshman.Raft.Apply.{start_apply_logs}
use unique_freshman.Raft.Apply.Order.{
  last_of, messages, delivered, backlog, start_apply_logs-delivered,
}

module _ {Command : Type 0} where
  -- Valid messages with the indices from `k` on.
  abbrev pub IsOrdered : ℕ → List (ApplyMsg Command) → Type 0
  IsOrdered k [] = Unit
  IsOrdered k (m ∷ ms) = (m.command_valid ≡ true) × (m.command_index ≡ pos k) × IsOrdered (suc k) ms

  messages-IsOrdered : (k : ℕ) (es : List (LogEntry Command)) → IsOrdered k (messages k es)
  messages-IsOrdered k [] = tt
  messages-IsOrdered k (e ∷ es) = (refl, refl, messages-IsOrdered (suc k) es)

  length-messages : (k : ℕ) (es : List (LogEntry Command)) → length (messages k es) ≡ length es
  length-messages k [] = refl
  length-messages k (e ∷ es) = ap suc (length-messages (suc k) es)

  append-IsOrdered :
      (k n : ℕ) (xs ys : List (ApplyMsg Command))
      → n ≡ k + length xs
      → IsOrdered k xs
      → IsOrdered n ys
      → IsOrdered k (xs ++ ys)
  append-IsOrdered k n [] ys e _ h = let same : n ≡ k = omega arith in rw same at h
  append-IsOrdered k n (x ∷ xs) ys e (valid, index, hx) h =
      (valid, index, append-IsOrdered (suc k) n xs ys (omega arith) hx h)

module _ {Bytes Command : Type 0} where
  -- The messages sent are in order, and `lastApplied` is the index of the last one.
  pub record IsApplied (rf : Raft Bytes Command) : Type 0 where
    pub ordered : IsOrdered 0 rf.apply_ch
    pub last : rf.last_applied ≡ last_of (length rf.apply_ch)

  -- A step that sends nothing.
  pub sent-IsApplied :
      {rf rf' : Raft Bytes Command}
      → rf'.apply_ch ≡ rf.apply_ch
      → rf'.last_applied ≡ rf.last_applied
      → IsApplied rf
      → IsApplied rf'
  sent-IsApplied sent applied a = record {
    ordered = subst (IsOrdered 0) (sym sent) a.ordered;
    last = applied ∙ a.last ∙ ap (λ ms. last_of (length ms)) (sym sent);
  }

  pub start_apply_logs-IsApplied :
      (rf rf' : Raft Bytes Command) → IsApplied rf → start_apply_logs rf ≡ some rf' → IsApplied rf'
  start_apply_logs-IsApplied rf rf' a h = subst IsApplied same (record {
    ordered =
        append-IsOrdered 0 k rf.apply_ch (messages k new) (omega arith) a.ordered
          (messages-IsOrdered k new);
    last = ap last_of (
        omega (
          arith,
          length-append rf.apply_ch (messages k new),
          length-messages k new,
          length-take (backlog k rf) (drop k rf.log),
          length-drop k rf.log,
        ));
  })
    where
      k : ℕ
      k = length rf.apply_ch

      new : List (LogEntry Command)
      new = take (backlog k rf) (drop k rf.log)

      same : delivered k (backlog k rf) rf ≡ rf'
      same = let e = (start_apply_logs-delivered k rf a.last).0 in ground (arith, e)

module _ {Bytes Command : Type 0} ⦃gob : Gob Bytes Command⦄ where
  quiet-IsApplied : {rf rf' : Raft Bytes Command} → IsQuiet rf rf' → IsApplied rf → IsApplied rf'
  quiet-IsApplied q a = sent-IsApplied q.sent q.applied a

  accept_entries-IsApplied :
      (args : AppendEntriesArgs Command) (rf rf' : Raft Bytes Command)
      → IsApplied rf
      → accept_entries args rf ≡ some rf'
      → IsApplied rf'
  unfolding accept_entries
  accept_entries-IsApplied args rf rf' a h =
      let (log, _, rest) = bind-some (merge_entries args.prev_log_index args.entries rf.log) _ h in
      start_apply_logs-IsApplied _ rf' (record { ordered = a.ordered; last = a.last }) rest

  append_entries-IsApplied :
      (args : AppendEntriesArgs Command) (rf : Raft Bytes Command) {rf' : Raft Bytes Command}
      {reply : AppendEntriesReply}
      → IsApplied rf
      → append_entries args rf ≡ some (rf', reply)
      → IsApplied rf'
  unfolding answer_append
  append_entries-IsApplied args rf {rf'} {reply} a h =
      let (_, rf'', done, last) = append_entries-inv args rf rf' reply h in
      let fields = entered-fields args rf in
      let entered_ok : IsApplied (entered args rf) = record {
        ordered = subst (IsOrdered 0) (sym fields.3) a.ordered;
        last = fields.2 ∙ a.last ∙ ap (λ ms. last_of (length ms)) (sym fields.3);
      } in
      let done_ok : IsApplied rf'' = elim (Bool-cases reply.success) [
        | inl good ↦ accept_entries-IsApplied args (entered args rf) rf'' entered_ok (ground arith)
        | inr bad ↦
            let same : entered args rf ≡ rf'' = ground arith in subst IsApplied same entered_ok
      ] in
      subst IsApplied (sym last) (record { ordered = done_ok.ordered; last = done_ok.last })

  Replied-IsApplied : {rf rf' : Raft Bytes Command} → Replied rf rf' → IsApplied rf → IsApplied rf'
  unfolding convert_to_follower
  Replied-IsApplied (unchanged e) a = subst IsApplied (sym e) a
  Replied-IsApplied (outdated t late e) a =
      subst IsApplied (sym e) (record { ordered = a.ordered; last = a.last })
  Replied-IsApplied (backed_up ns size e) a =
      subst IsApplied (sym e) (record { ordered = a.ordered; last = a.last })
  Replied-IsApplied (advanced ms ns c size size' up h) a =
      start_apply_logs-IsApplied _ _ (record { ordered = a.ordered; last = a.last }) h

module _ {Bytes Command : Type 0} ⦃gob : Gob Bytes Command⦄ (sort : SortInts) where
  pub Step-IsApplied :
      {rf rf' : Raft Bytes Command} → Step sort rf rf' → IsApplied rf → IsApplied rf'
  Step-IsApplied (asked args reply h) a = quiet-IsApplied (request_vote-IsQuiet args _ h) a
  Step-IsApplied (told args reply h) a = append_entries-IsApplied args _ a h
  Step-IsApplied {rf} (vote_came args reply n e) a =
      subst IsApplied e (quiet-IsApplied (vote_reply-IsQuiet args reply n rf) a)
  Step-IsApplied {rf} {rf'} (answer_came j args reply then_do h) a =
      Replied-IsApplied (append_reply-Replied sort j args reply rf rf' then_do h) a
  Step-IsApplied {rf} (submitted command e) a =
      subst IsApplied e (quiet-IsApplied (start-IsQuiet command rf) a)
  Step-IsApplied {rf} (round_began draw e) a =
      subst IsApplied e (quiet-IsApplied (begin_round-IsQuiet draw rf) a)
  Step-IsApplied {rf} {rf'} (woke event wait h) a =
      quiet-IsApplied (wake-IsQuiet event wait rf rf' h) a
  Step-IsApplied {rf} (was_killed e) a = subst IsApplied e (quiet-IsApplied (kill-IsQuiet rf) a)
  Step-IsApplied {rf} (crowded ch e) a = subst IsApplied e (quiet-IsApplied (crowd-IsQuiet ch rf) a)
  Step-IsApplied (restarted draw e) a =
      subst IsApplied e (unfold make in (record { ordered = tt; last = refl }))

  -- Whatever reaches a peer, the messages that it has sent to the service since it started are valid
  -- and carry the indices 0, 1, 2 and so on, and `lastApplied` is the index of the last one.
  pub Reach-IsApplied :
      (peers me : ℕ) {rf : Raft Bytes Command} → Reach sort peers me rf → IsApplied rf
  Reach-IsApplied peers me (made draw rf e) =
      subst IsApplied e (unfold make in (record { ordered = tt; last = refl }))
  Reach-IsApplied peers me (next r st) = Step-IsApplied st (Reach-IsApplied peers me r)
