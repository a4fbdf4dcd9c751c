-- ===== src/Cluster/Matching/Moments.antt =====
-- The moments of a run of a cluster, and the leaders that it has seen.
use unique_freshman.Prelude.{
  ℕ, ◌≡◌, ◌≢◌, ◌⊎◌, inl, inr, sym, ap, ◌∙◌, subst, ℤ, pos, ◌<ℤ◌, ◌≤ℤ◌, List, some, get_elem?, arith,
  int_laws,
}
use unique_freshman.Raft.Types.{LogEntry, Raft, leader, candidate}
use unique_freshman.Raft.Gob.{Gob}
use unique_freshman.Raft.State.Restart.{IsSaved}
use unique_freshman.Raft.Leader.{SortInts}
use unique_freshman.Raft.Rising.{final}
use unique_freshman.Raft.Peer.Durable.{Reach-IsSaved}
use unique_freshman.Raft.Peer.Terms.{Step-grows}
use unique_freshman.Raft.Peer.Roles.{Turn, stepped_down, stayed, stood, won, Step-Turn}
use unique_freshman.Cluster.{Cluster, Runs, began, onward}
use unique_freshman.Cluster.Peers.{Runs-Reach, Move-Change, Change-at}
use unique_freshman.Cluster.Matching.Prefix.{IsPrefix}

module _ {Bytes Command : Type 0} where
  -- A peer that once led in the term is past standing for it.
  abbrev pub IsPast : ℤ → Raft Bytes Command → Type 0
  IsPast t rf = (t <ℤ rf.current_term) ⊎ ((t ≡ rf.current_term) × (rf.state ≢ candidate))

  Turn-IsPast :
      (t : ℤ) (rf rf' : Raft Bytes Command)
      → Turn rf rf'
      → rf.current_term ≤ℤ rf'.current_term
      → IsPast t rf
      → IsPast t rf'
  Turn-IsPast t rf rf' turn grows (inl later) = inl (omega arith)
  Turn-IsPast t rf rf' (stepped_down down) grows (inr (same, other)) = ground (arith, down)
  Turn-IsPast t rf rf' (stayed role term) grows (inr (same, other)) =
      inr (same ∙ sym term, λ stands. other (sym role ∙ stands))
  Turn-IsPast t rf rf' (stood role term vote count) grows (inr (same, other)) =
      inl (rw (term, same) (omega int_laws))
  Turn-IsPast t rf rf' (won stands leads term votes) grows (inr (same, other)) =
      absurd (other stands)

module _ {Bytes Command : Type 0} ⦃gob : Gob Bytes Command⦄ (sort : SortInts) (n : ℕ) where
  -- At some moment of the run, now included, the peer with index `i` was this one.
  abbrev pub Moment : ℕ → Raft Bytes Command → {c : Cluster Bytes Command} → Runs sort n c → Type 0
  Moment i rf (began c fresh a b d e) = get_elem? c.rafts i ≡ some rf
  Moment i rf (onward {c} {c'} r move) = (get_elem? c'.rafts i ≡ some rf) ⊎ Moment i rf r

  -- No two peers lead in one term, whenever that is.
  abbrev pub OneLeadsATerm : {c : Cluster Bytes Command} → Runs sort n c → Type 0
  OneLeadsATerm r =
      (i j : ℕ) (rf q : Raft Bytes Command)
      → Moment i rf r
      → Moment j q r
      → rf.state ≡ leader
      → q.state ≡ leader
      → rf.current_term ≡ q.current_term
      → i ≡ j

  -- The list is where the log of a peer begins that led in the term in which the list ends.
  abbrev pub Led : {c : Cluster Bytes Command} → Runs sort n c → List (LogEntry Command) → Type 0
  Led r p =
      (i : ℕ) × (rf : Raft Bytes Command) × Moment i rf r
      × (rf.state ≡ leader)
      × (rf.current_term ≡ final (pos 0) p)
      × IsPrefix p rf.log

  pub at_present :
      (i : ℕ) (rf : Raft Bytes Command) {c : Cluster Bytes Command} (r : Runs sort n c)
      → get_elem? c.rafts i ≡ some rf
      → Moment i rf r
  at_present i rf (began c fresh a b d e) here = here
  at_present i rf (onward r move) here = inl here

  pub is_saved :
      (i : ℕ) (rf : Raft Bytes Command) {c : Cluster Bytes Command} (r : Runs sort n c)
      → get_elem? c.rafts i ≡ some rf
      → IsSaved rf
  is_saved i rf r here = Reach-IsSaved sort n i (Runs-Reach sort n i rf r here)

  -- A peer that leads, at a moment and now.
  pub led-IsPast :
      (i : ℕ) (rf q : Raft Bytes Command) {c : Cluster Bytes Command} (r : Runs sort n c)
      → Moment i rf r
      → rf.state ≡ leader
      → get_elem? c.rafts i ≡ some q
      → IsPast rf.current_term q
  led-IsPast i rf q (began c fresh a b d e) there leads here =
      let same : rf ≡ q = cc in inr (ap (λ x. x.current_term) same, λ stands. cc)
  led-IsPast i rf q (onward r move) (inl there) leads here =
      let same : rf ≡ q = cc in inr (ap (λ x. x.current_term) same, λ stands. cc)
  led-IsPast i rf q (onward r move) (inr there) leads here =
      let (old, before, how) = Change-at sort i q (Move-Change sort move) here in
      let past = led-IsPast i rf old r there leads before in
      elim how [
        | inl same ↦ subst (IsPast rf.current_term) (sym same) past
        | inr st ↦
            Turn-IsPast rf.current_term old q (Step-Turn sort st)
              (Step-grows sort st (is_saved i old r before)) past
      ]
