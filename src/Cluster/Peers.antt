-- ===== src/Cluster/Peers.antt =====
-- Every peer of a cluster is one that its own steps may reach.
use unique_freshman.Prelude.{
  ℕ, ◌≡◌, refl, sym, subst, ap, ◌⊎◌, inl, inr, some, get_elem?, set, get_elem?-set_cases,
}
use unique_freshman.Raft.Types.{Raft}
use unique_freshman.Raft.Gob.{Gob}
use unique_freshman.Raft.Leader.{SortInts}
use unique_freshman.Raft.Peer as Peer
use unique_freshman.Raft.Peer.{Step, Reach}
use unique_freshman.Cluster.{
  Cluster, Alone, Move, Runs, submitted, round_began, woke, was_killed, crowded, restarted, acted,
  called_vote, answered_vote, took_vote, called_append, answered_append, took_append, began, onward,
}

module _ {Bytes Command : Type 0} ⦃gob : Gob Bytes Command⦄ (sort : SortInts) where
  unfoldable pub Alone-Step : {rf rf' : Raft Bytes Command} → Alone sort rf rf' → Step sort rf rf'
  Alone-Step (submitted command e) = Peer.submitted command e
  Alone-Step (round_began draw e) = Peer.round_began draw e
  Alone-Step (woke event wait e) = Peer.woke event wait e
  Alone-Step (was_killed e) = Peer.was_killed e
  Alone-Step (crowded ch e) = Peer.crowded ch e
  Alone-Step (restarted draw e) = Peer.restarted draw e

  -- The one peer that a step of the cluster may change, by a step of its own.
  pub data Change (c c' : Cluster Bytes Command) : Type 0 where
    none_moved : c'.rafts ≡ c.rafts → Change c c'
    one_moved :
        (i : ℕ) (rf rf' : Raft Bytes Command)
        → get_elem? c.rafts i ≡ some rf
        → Step sort rf rf'
        → c'.rafts ≡ set c.rafts i rf'
        → Change c c'

  pub Move-Change : {c c' : Cluster Bytes Command} → Move sort c c' → Change c c'
  Move-Change (acted i rf rf' here a e) =
      one_moved i rf rf' here (Alone-Step a) (ap (λ d. d.rafts) (sym e))
  Move-Change (called_vote i j rf args other here made e) = none_moved (ap (λ d. d.rafts) (sym e))
  Move-Change (answered_vote k m rf rf' reply sent here ran e) =
      one_moved m.to rf rf' here (Peer.asked m.body reply ran) (ap (λ d. d.rafts) (sym e))
  Move-Change (took_vote k n m rf sent here e) =
      one_moved m.to rf _ here (Peer.vote_came m.body.0 (some m.body.1) n refl)
        (ap (λ d. d.rafts) (sym e))
  Move-Change (called_append i j rf args other here made e) = none_moved (ap (λ d. d.rafts) (sym e))
  Move-Change (answered_append k m rf rf' reply sent here ran e) =
      one_moved m.to rf rf' here (Peer.told m.body reply ran) (ap (λ d. d.rafts) (sym e))
  Move-Change (took_append k m rf rf' then_do sent here ran e) =
      one_moved m.to rf rf' here (Peer.answer_came m.from m.body.0 (some m.body.1) then_do ran)
        (ap (λ d. d.rafts) (sym e))

  -- A peer after a step of the cluster is the peer that it was before, or one step further.
  pub Change-at :
      {c c' : Cluster Bytes Command} (i : ℕ) (rf' : Raft Bytes Command)
      → Change c c'
      → get_elem? c'.rafts i ≡ some rf'
      → (rf : Raft Bytes Command) × (get_elem? c.rafts i ≡ some rf)
        × ((rf' ≡ rf) ⊎ Step sort rf rf')
  Change-at i rf' (none_moved same) here =
      (rf', subst (λ rs. get_elem? rs i ≡ some rf') same here, inl refl)
  Change-at {c} i rf' (one_moved j rf new there st same) here =
      elim (get_elem?-set_cases c.rafts j i new rf'
        (subst (λ rs. get_elem? rs i ≡ some rf') same here)) [
          | inl (at_j, is_new) ↦ (
            rf,
            subst (λ k. get_elem? c.rafts k ≡ some rf) (sym at_j) there,
            inr (subst (Step sort rf) (sym is_new) st),
          )
          | inr old ↦ (rf', old, inl refl)
        ]

  -- Whatever happens in a cluster, every peer of it is one that its own handlers, rounds and
  -- restarts may lead to: all that holds of every such peer holds of every peer of a cluster.
  pub Runs-Reach :
      (n i : ℕ) {c : Cluster Bytes Command} (rf : Raft Bytes Command)
      → Runs sort n c
      → get_elem? c.rafts i ≡ some rf
      → Reach sort n i rf
  Runs-Reach n i rf (began c fresh _ _ _ _) here =
      let (draw, e) = fresh i rf here in Peer.made draw rf e
  Runs-Reach n i rf (onward r move) here =
      let (old, there, how) = Change-at i rf (Move-Change move) here in
      elim how [
        | inl same ↦ subst (Reach sort n i) (sym same) (Runs-Reach n i old r there)
        | inr st ↦ Peer.next (Runs-Reach n i old r there) st
      ]
