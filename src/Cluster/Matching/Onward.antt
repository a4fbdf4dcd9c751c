-- ===== src/Cluster/Matching/Onward.antt =====
-- What one step of a cluster, in which no two peers lead in one term, keeps of the matching of the logs.
use unique_freshman.Prelude.{
  ℕ, ◌≡◌, ◌⊎◌, inl, inr, sym, ap, ◌∙◌, subst, ℤ, pos, List, [], ◌∷◌, some, get_elem?, Every, arith,
}
use unique_freshman.Raft.Types.{LogEntry, Raft, leader}
use unique_freshman.Raft.Gob.{Gob}
use unique_freshman.Raft.Rising.{final, final-append}
use unique_freshman.Raft.Leader.{SortInts}
use unique_freshman.Raft.Peer.Logs.{HasGrown}
use unique_freshman.Raft.Peer.Roles.{Turn, stepped_down, stayed, stood, won, Step-Turn}
use unique_freshman.Cluster.{Cluster, Sent, Move, Runs, onward}
use unique_freshman.Cluster.Matching.Prefix.{
  IsPrefix, IsGrown, IsFunctional, IsPrefix-refl, IsPrefix-trans, IsPrefix-unique, IsPrefix-snoc,
  IsPrefix-IsGrown,
}
use unique_freshman.Cluster.Matching.Moments.{
  Moment, OneLeadsATerm, Led, at_present, IsPast, led-IsPast,
}
use unique_freshman.Cluster.Matching.Moves.{
  IsGenuine, IsMatched, LogMove, kept, grew, copied, was_cut, Move-Moved,
}

module _ {Bytes Command : Type 0} ⦃gob : Gob Bytes Command⦄ (sort : SortInts) (n : ℕ) where
  -- The peer that leads after a step led before it, in the same term, if it has ever led in it.
  led_before :
      (t : ℤ) (rf rf' : Raft Bytes Command)
      → Turn rf rf'
      → rf'.state ≡ leader
      → t ≡ rf'.current_term
      → IsPast t rf
      → (rf.state ≡ leader) × (t ≡ rf.current_term)
  led_before t rf rf' (stepped_down down) leads same past = cc
  led_before t rf rf' (stayed role term) leads same past = (sym role ∙ leads, same ∙ term)
  led_before t rf rf' (stood role term vote count) leads same past = cc
  led_before t rf rf' (won stands l term votes) leads same (inl later) =
      absurd (ground (arith, term, same))
  led_before t rf rf' (won stands l term votes) leads same (inr (e, other)) = absurd (other stands)

  -- The log of a peer that leads after a step.
  leader_keeps :
      {c : Cluster Bytes Command} (r : Runs sort n c) (rf rf' : Raft Bytes Command)
      → LogMove sort n r rf rf'
      → rf'.state ≡ leader
      → IsPrefix rf.log rf'.log
  leader_keeps r rf rf' (kept same) leads =
      subst (IsPrefix rf.log) (sym same) (IsPrefix-refl rf.log)
  leader_keeps r rf rf' (grew g) leads = (g.entry ∷ [], g.log)
  leader_keeps r rf rf' (copied down j q m e) leads = absurd (down leads)
  leader_keeps r rf rf' (was_cut down le) leads = absurd (down leads)

  module _ {c c' : Cluster Bytes Command} (r : Runs sort n c) (move : Move sort c c')
      (one : OneLeadsATerm sort n (onward r move)) (im : IsMatched sort n r) where
    one_so_far : OneLeadsATerm sort n r
    one_so_far i j rf q m m' = one i j rf q (inr m) (inr m')

    Led-onward : (p : List (LogEntry Command)) → Led sort n r p → Led sort n (onward r move) p
    Led-onward p (i, rf, m, leads, term, le) = (i, rf, inr m, leads, term, le)

    IsGrown-onward :
        (log : List (LogEntry Command))
        → IsGrown (Led sort n r) log
        → IsGrown (Led sort n (onward r move)) log
    IsGrown-onward log g p le there = Led-onward p (g p le there)

    later_on :
        (i : ℕ) (rf q : Raft Bytes Command)
        → Moment sort n i rf (onward r move)
        → rf.state ≡ leader
        → get_elem? c'.rafts i ≡ some q
        → q.state ≡ leader
        → rf.current_term ≡ q.current_term
        → IsPrefix rf.log q.log
    later_on i rf q (inl there) leads here leads' same =
        let e : rf ≡ q = cc in subst (λ x. IsPrefix rf.log x.log) e (IsPrefix-refl rf.log)
    later_on i rf q (inr there) leads here leads' same =
        let (old, before, how) = Move-Moved sort n r i q one_so_far im move here in
        elim how [
          | inl e ↦
              subst (λ x. IsPrefix rf.log x.log) (sym e)
                (im.later i rf old there leads before (subst (λ x. x.state ≡ leader) e leads')
                  (same ∙ ap (λ x. x.current_term) e))
          | inr (st, lm) ↦
              let (led, term) =
                led_before rf.current_term old q (Step-Turn sort st) leads' same
                  (led-IsPast sort n i rf old r there leads before) in
              IsPrefix-trans rf.log old.log q.log (im.later i rf old there leads before led term)
                (leader_keeps r old q lm leads')
        ]

    Moment-IsGrown :
        (i : ℕ) (rf : Raft Bytes Command)
        → Moment sort n i rf (onward r move)
        → IsGrown (Led sort n (onward r move)) rf.log
    Moment-IsGrown i rf (inr there) = IsGrown-onward rf.log (im.grown i rf there)
    Moment-IsGrown i rf (inl here) =
        let (old, before, how) = Move-Moved sort n r i rf one_so_far im move here in
        let so_far = im.grown i old (at_present sort n i old r before) in
        elim how [
          | inl e ↦ IsGrown-onward rf.log (subst (λ x. IsGrown (Led sort n r) x.log) (sym e) so_far)
          | inr (st, lm) ↦ grown_by old rf so_far (λ g. here_led i old rf here g) lm
        ]
      where
        here_led :
            (i : ℕ) (old rf : Raft Bytes Command)
            → get_elem? c'.rafts i ≡ some rf
            → HasGrown old rf
            → Led sort n (onward r move) rf.log
        here_led i old rf here g = (
          i,
          rf,
          inl here,
          g.leads,
          g.term
              ∙ sym g.of_term
              ∙ sym (final-append (pos 0) old.log (g.entry ∷ []))
              ∙ ap (final (pos 0)) (sym g.log),
          IsPrefix-refl rf.log,
        )

        grown_by :
            (old rf : Raft Bytes Command)
            → IsGrown (Led sort n r) old.log
            → (HasGrown old rf → Led sort n (onward r move) rf.log)
            → LogMove sort n r old rf
            → IsGrown (Led sort n (onward r move)) rf.log
        grown_by old rf so_far mine (kept same) =
            IsGrown-onward rf.log (subst (IsGrown (Led sort n r)) (sym same) so_far)
        grown_by old rf so_far mine (grew g) = λ p le there.
            elim (IsPrefix-snoc p old.log g.entry (subst (IsPrefix p) g.log le)) [
              | inl le' ↦ Led-onward p (so_far p le' there)
              | inr all ↦ subst (Led sort n (onward r move)) (g.log ∙ sym all) (mine g)
            ]
        grown_by old rf so_far mine (copied down j q m e) =
            IsGrown-onward rf.log (subst (IsGrown (Led sort n r)) (sym e) (im.grown j q m))
        grown_by old rf so_far mine (was_cut down le) =
            IsGrown-onward rf.log (IsPrefix-IsGrown (Led sort n r) rf.log old.log le so_far)

    nested_on :
        (i : ℕ) (rf q : Raft Bytes Command)
        → Moment sort n i rf (onward r move)
        → Moment sort n i q (onward r move)
        → rf.state ≡ leader
        → q.state ≡ leader
        → rf.current_term ≡ q.current_term
        → IsPrefix rf.log q.log ⊎ IsPrefix q.log rf.log
    nested_on i rf q (inr m) (inr m') leads leads' same = im.nested i rf q m m' leads leads' same
    nested_on i rf q m (inl here) leads leads' same = inl (later_on i rf q m leads here leads' same)
    nested_on i rf q (inl here) (inr m) leads leads' same =
        inr (later_on i q rf (inr m) leads' here leads (sym same))

    IsGenuine-onward : (m : Sent _) → IsGenuine sort n r m → IsGenuine sort n (onward r move) m
    IsGenuine-onward m g = record {
      other = g.other;
      sender = g.sender;
      moment = inr g.moment;
      led = g.led;
      index = g.index;
      fits = g.fits;
      request = g.request;
    }

    pub old_calls-IsGenuine : Every (IsGenuine sort n (onward r move)) c.append_calls
    old_calls-IsGenuine k m sent = IsGenuine-onward m (im.calls k m sent)

    functional_on : IsFunctional (Led sort n (onward r move))
    functional_on p q (i, rf, m, leads, term, le) (j, rf', m', leads', term', le') len same =
        let terms : rf.current_term ≡ rf'.current_term = term ∙ same ∙ sym term' in
        let at_i : Moment sort n i rf' (onward r move) =
          subst (λ k. Moment sort n k rf' (onward r move))
            (sym (one i j rf rf' m m' leads leads' terms)) m' in
        elim (nested_on i rf rf' m at_i leads leads' terms) [
          | inl within ↦
              IsPrefix-unique p q rf'.log (IsPrefix-trans p rf.log rf'.log le within) le' len
          | inr within ↦
              IsPrefix-unique p q rf.log le (IsPrefix-trans q rf'.log rf.log le' within) len
        ]

    pub onward-IsMatched :
        Every (IsGenuine sort n (onward r move)) c'.append_calls → IsMatched sort n (onward r move)
    onward-IsMatched calls = record {
      calls = calls;
      grown = Moment-IsGrown;
      functional = functional_on;
      later = later_on;
      nested = nested_on;
    }
