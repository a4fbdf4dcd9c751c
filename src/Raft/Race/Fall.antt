-- ===== src/Raft/Race/Fall.antt =====
-- What goes wrong as `RequestVote` takes no lock.
use mathlib.Core.Option
use unique_freshman.Prelude.{
  ℕ, zero, suc, ◌≡◌, refl, sym, ap, ap₂, ◌∙◌, subst, pos, minus_one, ◌-ℤ◌, ◌+ℤ◌, ◌<ℤ◌, ltb_ℤ, eqb_ℤ,
  leb_ℤ, Bool, true, false, ◌&&◌, ◌||◌, ◌==◌, List, [], ◌∷◌, some, ◌>>=◌, if◌then◌else◌, length,
  length_ℤ, at, get_elem?, set, set-get_elem?, get_elem?-set_self, set-set, arith, Bool-cases,
  Option-cases, Option-some, bind-some, inl, inr,
}
use unique_freshman.Raft.Types.{LogEntry, Raft, RequestVoteArgs, RequestVoteReply}
use unique_freshman.Raft.Gob.{Gob}
use unique_freshman.Raft.State.{persist, convert_to_follower}
use unique_freshman.Raft.State.Restart.{IsDurable}
use unique_freshman.Raft.Vote.{request_vote, is_newer, enter_term, answer_vote}
use unique_freshman.Raft.Vote.Newer.{is_newer-ne-none}
use unique_freshman.Raft.Vote.Decide.{request_vote-term, request_vote-grants}
use unique_freshman.Raft.Leader.{SortInts}
use unique_freshman.Raft.Race.{
  Handling, tests_later, clears, looks, measures, compares_last, measures_again, compares_same,
  compares_length, grants, votes, tests_older, tests_newer, sets_term, tests_role, replied, resume,
  run, vote_of, Racing, Races, came, went_on, here, onward,
}
use unique_freshman.Raft.Race.Ends.{Ends, step-Ends, tests_role-Ends}
use unique_freshman.Raft.Race.Alone.{run-request_vote}

module _ {Bytes Command : Type 0} ⦃gob : Gob Bytes Command⦄ where
  -- A call gets to a point with nothing in between.
  abbrev Gets : Handling → Raft Bytes Command → Handling → Raft Bytes Command → Type 0
  Gets h rf h' rf' = (n : ℕ) × (run n h rf ≡ some (h', rf'))

  arrived : (h : Handling) (rf : Raft Bytes Command) → Gets h rf h rf
  unfolding run
  arrived h rf = (0, refl)

  after_step :
      (h h1 h' : Handling) (rf rf1 rf' : Raft Bytes Command)
      → resume h rf ≡ some (h1, rf1)
      → Gets h1 rf1 h' rf'
      → Gets h rf h' rf'
  unfolding run
  after_step h h1 h' rf rf1 rf' e (n, rest) = (suc n, rw (e) rest)

  after_run :
      (n : ℕ) (h h1 h' : Handling) (rf rf1 rf' : Raft Bytes Command)
      → run n h rf ≡ some (h1, rf1)
      → Gets h1 rf1 h' rf'
      → Gets h rf h' rf'
  unfolding run
  after_run zero h h1 h' rf rf1 rf' e (m, rest) =
      (m, ap (λ o. run m o.0 o.1) (Option.some-injective _ _ e) ∙ rest)
  after_run (suc n) h h1 h' rf rf1 rf' e more =
      let ((h2, rf2), first, rest) = bind-some (resume h rf) _ e in
      after_step h h2 h' rf rf2 rf' first (after_run n h2 h1 h' rf2 rf1 rf' rest more)

  compares-Gets :
      (args : RequestVoteArgs) (newer : Bool) (rf : Raft Bytes Command) (e : LogEntry Command)
      → at rf.log (length_ℤ rf.log -ℤ pos 1) ≡ some e
      → newer ≡ (
          if ltb_ℤ e.term args.last_log_term
          then true
          else (eqb_ℤ args.last_log_term e.term
              && leb_ℤ (length_ℤ rf.log) (args.last_log_index +ℤ pos 1)))
      → Gets (compares_last args (length_ℤ rf.log -ℤ pos 1)) rf (grants args newer) rf
  unfolding resume
  compares-Gets args newer rf e found is =
      let i = length_ℤ rf.log -ℤ pos 1 in
      let last = arrived (grants args newer) rf in
      elim (Bool-cases (ltb_ℤ e.term args.last_log_term)) [
        | inl later ↦
            after_step (compares_last args i) (grants args newer) (grants args newer) rf rf rf
              (ground (arith, found)) last
        | inr not_later ↦
            after_step (compares_last args i) (measures_again args) (grants args newer) rf rf rf
              (ground (arith, found))
              (after_step (measures_again args) (compares_same args i) (grants args newer) rf rf rf
                refl
                (elim (Bool-cases (eqb_ℤ args.last_log_term e.term)) [
                  | inl same ↦
                      after_step (compares_same args i) (compares_length args) (grants args newer)
                        rf rf rf (ground (arith, found))
                        (after_step (compares_length args) (grants args newer) (grants args newer)
                          rf rf rf (ground arith) last)
                  | inr other ↦
                      after_step (compares_same args i) (grants args newer) (grants args newer) rf
                        rf rf (ground (arith, found)) last
                ]))
      ]

  looks-Gets :
      (args : RequestVoteArgs) (newer : Bool) (rf : Raft Bytes Command)
      → is_newer args rf.log ≡ some newer
      → Gets (looks args) rf (grants args newer) rf
  unfolding resume is_newer
  looks-Gets args newer rf h = elim (Bool-cases (length rf.log == 0)) [
    | inl empty ↦
        after_step (looks args) (grants args newer) (grants args newer) rf rf rf (ground (arith, h))
          (arrived (grants args newer) rf)
    | inr some_entry ↦ elim (Option-cases (at rf.log (length_ℤ rf.log -ℤ pos 1))) [
      | inl nothing ↦ absurd (ground (arith, h, nothing))
      | inr (e, found) ↦
          after_step (looks args) (measures args) (grants args newer) rf rf rf (ground arith) (
            after_step (measures args) (compares_last args (length_ℤ rf.log -ℤ pos 1))
              (grants args newer) rf rf rf refl
              (compares-Gets args newer rf e found (ground (arith, h, found))))
    ]
  ]

  -- A request of a later term, until the handler writes that term.
  later-Gets :
      (args : RequestVoteArgs) (newer : Bool) (rf voted : Raft Bytes Command)
      → rf.current_term <ℤ args.term
      → is_newer args rf.log ≡ some newer
      → voted ≡ record rf { voted_for = vote_of args newer }
      → Gets (tests_later args) rf (sets_term args newer) voted
  unfolding resume
  later-Gets args newer rf voted low h is =
      let freed : Raft Bytes Command = record rf { voted_for = minus_one } in
      let (n, looked) = looks-Gets args newer freed h in
      let to = sets_term args newer in
      let same : record freed { voted_for = vote_of args newer } ≡ voted = sym is in
      after_step (tests_later args) (clears args) to rf rf voted (ground arith) (
        after_step (clears args) (looks args) to rf freed voted refl (
          after_run n (looks args) (grants args newer) to freed freed voted looked (
            after_step (grants args newer) (votes args newer) to freed freed voted
              (rw (free newer) refl)
              (after_step (votes args newer) (tests_older args newer) to freed voted voted
                (ap (λ q. some (tests_older args newer, q)) same)
                (after_step (tests_older args newer) (tests_newer args newer) to voted voted voted
                  (ground arith)
                  (after_step (tests_newer args newer) to to voted voted voted (ground arith)
                    (arrived to voted)))))))
    where
      free :
          (b : Bool) → (b && (eqb_ℤ minus_one minus_one || eqb_ℤ minus_one args.candidate_id)) ≡ b
      free true = refl
      free false = refl

  -- What the end of the handler writes, once it has tested the terms.
  writes :
      (args : RequestVoteArgs) (granted : Bool) (rf : Raft Bytes Command)
      → Ends 6
          (sets_term args granted)
          rf
          (answer_vote granted (enter_term args.term (vote_of args granted) rf))
  unfolding resume
  writes args granted rf =
      let moved : Raft Bytes Command = record rf { current_term = args.term } in
      step-Ends 5 (sets_term args granted) (tests_role args granted) rf moved
        (answer_vote granted (enter_term args.term (vote_of args granted) rf)) refl
        (tests_role-Ends args granted rf moved refl)

  written :
      (args : RequestVoteArgs) (granted : Bool) (rf : Raft Bytes Command)
      → ((answer_vote granted (enter_term args.term (vote_of args granted) rf)).1.term ≡ args.term)
        × ((answer_vote granted (enter_term args.term (vote_of args granted) rf)).0.current_term
            ≡ args.term)
        × IsDurable (answer_vote granted (enter_term args.term (vote_of args granted) rf)).0
  unfolding answer_vote enter_term persist convert_to_follower
  written args true rf = ground arith
  written args false rf = ground arith

  answers :
      (args : RequestVoteArgs) (rf : Raft Bytes Command)
      (out : Raft Bytes Command × RequestVoteReply)
      → request_vote args rf ≡ some out
      → run 18 (tests_later args) rf ≡ some (replied out.1, out.0)
  answers args rf out h =
      run-request_vote args rf 18 (omega arith)
      ∙ ap (λ o. o >>= λ (rf', reply). some (replied reply, rf')) h

  tells :
      (args : RequestVoteArgs) (rf : Raft Bytes Command)
      (out : Raft Bytes Command × RequestVoteReply)
      → rf.current_term <ℤ args.term
      → request_vote args rf ≡ some out
      → out.1.term ≡ args.term
  tells args rf out low h =
      let all = request_vote-term args rf {rf' = out.0} {reply = out.1} h in
      ground (arith, all.0, all.1)

module _ {Bytes Command : Type 0} ⦃gob : Gob Bytes Command⦄ (sort : SortInts) where
  -- The call at place `k` goes on.
  run-Races :
      (n k : ℕ) (h h' : Handling) (rf rf' : Raft Bytes Command) (cs : List Handling)
      {r : Racing Bytes Command}
      → get_elem? cs k ≡ some h
      → run n h rf ≡ some (h', rf')
      → Races sort r (record { raft = rf; calls = cs })
      → Races sort r (record { raft = rf'; calls = set cs k h' })
  unfolding run
  run-Races zero k h h' rf rf' cs {r} at_k e before =
      let same : (h, rf) ≡ (h', rf') = Option.some-injective _ _ e in
      let at_k' : get_elem? cs k ≡ some h' = at_k ∙ ap (λ o. some o.0) same in
      let calls : cs ≡ set cs k h' = sym (set-get_elem? cs k h' at_k') in
      let racing : Raft Bytes Command → List Handling → Racing Bytes Command =
        λ q l. record { raft = q; calls = l } in
      subst (Races sort r) (ap₂ racing (ap (λ o. o.1) same) calls) before
  run-Races (suc n) k h h' rf rf' cs {r} at_k e before =
      let ((h1, rf1), first, rest) = bind-some (resume h rf) _ e in
      subst (λ l. Races sort r (record { raft = rf'; calls = l })) (set-set cs k h1 h')
        (run-Races n k h1 h' rf1 rf' (set cs k h1) (get_elem?-set_self cs k h h1 at_k) rest
          (onward before (went_on k h h1 rf1 at_k first refl)))

  -- A peer gets requests of two terms, both later than its own. There is a race in which it replies to
  -- the one of the later term with that term, and then to the other with the earlier term, in which it
  -- ends, and has written that down.
  pub Races-falls :
      (args later : RequestVoteArgs) (rf : Raft Bytes Command)
      → rf.current_term <ℤ args.term
      → args.term <ℤ later.term
      → (first second : RequestVoteReply) × (rf' : Raft Bytes Command) × Races sort
          (record { raft = rf; calls = [] })
          (record { raft = rf'; calls = replied second ∷ replied first ∷ [] })
        × (second.term ≡ later.term)
        × (first.term ≡ args.term)
        × (rf'.current_term ≡ args.term)
        × IsDurable rf'
  Races-falls args later rf low high =
      let (newer, fresh) = Option-some (is_newer args rf.log) (is_newer-ne-none args rf.log) in
      let voted : Raft Bytes Command = record rf { voted_for = vote_of args newer } in
      let (n, to_write) = later-Gets args newer rf voted low fresh refl in
      let (answered, ran, _) = request_vote-grants later voted in
      let waits = sets_term args newer in
      let first_call =
        run-Races n 0 (tests_later args) waits rf voted (tests_later args ∷ []) refl to_write
          (onward here (came args refl)) in
      let second_call =
        run-Races 18 0 (tests_later later) (replied answered.1) voted answered.0
          (tests_later later ∷ waits ∷ []) refl (answers later voted answered ran)
          (onward first_call (came later refl)) in
      let out = answer_vote newer (enter_term args.term (vote_of args newer) answered.0) in
      let (told, term, durable) = written args newer answered.0 in
      (
        out.1,
        answered.1,
        out.0,
        run-Races 6 1 waits (replied out.1) answered.0 out.0 (replied answered.1 ∷ waits ∷ []) refl
            (writes args newer answered.0 6 (omega arith)) second_call,
        tells later voted answered (ground arith) ran,
        told,
        term,
        durable,
      )
