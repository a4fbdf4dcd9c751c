-- ===== src/Config/Testbed/Restart.antt =====
-- `crash1` and `start1` of Task5/raft/config.go: the client ends, and the servers.
use mathlib.Core.Option
use unique_freshman.Prelude.{
  ℕ, ◌<◌, ◌≡◌, refl, sym, ap, ◌∙◌, ◌==◌, Bool, false, List, some, length, length-set, get_elem?,
  set, get_elem?-lt_length, get_elem?-set_self, set-set, arith, Bool-cases, inl, inr, ◌⊎◌,
  bind-some, subst,
}
use unique_freshman.Persister.{Persister}
use unique_freshman.Raft.Types.{Raft}
use unique_freshman.Raft.Gob.{Gob}
use unique_freshman.Raft.State.{make}
use unique_freshman.Raft.Leader.{SortInts}
use unique_freshman.Raft.Peer.{Reach}
use unique_freshman.Config.Testbed.{
  Network, Testbed, Slot, crashed, running, make_ends, write, name_at, is_connected, disconnect,
  crash1, serve, start1, crash_slot, saved_anew,
}
use unique_freshman.Config.Testbed.Switches.{make_ends-new, make_ends-old}
use unique_freshman.Config.Testbed.Wiring.{IsWired, IsNew, write-inv, is_connected-set, name_at-set}
use unique_freshman.Config.Testbed.Attach.{disconnect-IsWired, disconnect-rest}
use unique_freshman.Config.Testbed.Own.{AreOwn, set-AreOwn, crash_slot-IsOwn, made-IsOwn}

-- A name after a row is replaced.
name_at-set_cases :
    {Name : Type 0} (rows : List (List Name)) (names : List Name) (i k l : ℕ) (x : Name)
    → i < length rows
    → name_at (set rows i names) k l ≡ some x
    → ((k ≡ i) × (get_elem? names l ≡ some x)) ⊎ (name_at rows k l ≡ some x)
name_at-set_cases rows names i k l x i_row named =
    let e = name_at-set rows names i k l i_row in
    elim (Bool-cases (k == i)) [
      | inl same ↦ inl (ground arith, ground arith)
      | inr other ↦ inr (ground arith)
    ]

module _ {Net Name : Type 0} (network : Network Net Name) where
  -- New names for the ends of a server that is not connected.
  renamed :
      (cs : List Bool) (rows : List (List Name)) (net : Net) (i : ℕ) (names : List Name)
      → i < length cs
      → i < length rows
      → is_connected cs i ≡ false
      → IsNew (length cs) rows names
      → IsWired network cs rows net
      → IsWired network cs (set rows i names) (make_ends network 0 names net)
  renamed cs rows net i names i_in i_row off new w = record {
    fits = λ k l x named. elim (name_at-set_cases rows names i k l x i_row named) [
      | inl (same, found) ↦
          let short = get_elem?-lt_length names l x found in
          let count = new.count in (omega arith, omega arith)
      | inr old ↦ w.fits k l x old
    ];
    distinct = λ k l k' l' x here there. elim (name_at-set_cases rows names i k l x i_row here) [
      | inl (same, found) ↦ elim (name_at-set_cases rows names i k' l' x i_row there) [
        | inl (same', found') ↦ (same ∙ sym same', new.apart l l' x found found')
        | inr old ↦ absurd (new.unused k' l' l x old found)
      ]
      | inr old ↦ elim (name_at-set_cases rows names i k' l' x i_row there) [
        | inl (same', found') ↦ absurd (new.unused k l l' x old found')
        | inr old' ↦ w.distinct k l k' l' x old old'
      ]
    ];
    wired = λ k l x named. elim (name_at-set_cases rows names i k l x i_row named) [
      | inl (same, found) ↦ make_ends-new network 0 names net x l found ∙ rw (same, off) refl
      | inr old ↦
          make_ends-old network 0 names net x (λ m. new.unused k l m x old) ∙ w.wired k l x old
    ];
  }

module _ {Net Name Bytes Command : Type 0} ⦃gob : Gob Bytes Command⦄ (sort : SortInts)
    (network : Network Net Name) where
  -- The tester is in order: its client ends, and its servers.
  pub record IsStanding (n : ℕ) (cfg : Testbed Net Name Bytes Command) : Type 0 where
    pub size : length cfg.connected ≡ n
    pub rows : length cfg.endnames ≡ n
    pub wired : IsWired network cfg.connected cfg.endnames cfg.net
    pub own : AreOwn sort n cfg.slots

  pub disconnect-IsStanding :
      (n i : ℕ) (cfg cfg' : Testbed Net Name Bytes Command)
      → disconnect network i cfg ≡ some cfg'
      → IsStanding n cfg
      → IsStanding n cfg'
  disconnect-IsStanding n i cfg cfg' h s =
      let (flags, inside, names, slots) = disconnect-rest network i cfg cfg' h in
      record {
        size = ap length flags ∙ length-set cfg.connected i false ∙ s.size;
        rows = ap length names ∙ s.rows;
        wired = disconnect-IsWired network i cfg cfg' h s.wired;
        own = subst (AreOwn sort n) (sym slots) s.own;
      }

  -- The server `i` has crashed.
  record HasCrashed (n i : ℕ) (cfg cfg' : Testbed Net Name Bytes Command) : Type 0 where
    standing : IsStanding n cfg'
    inside : i < length cfg'.connected
    off : is_connected cfg'.connected i ≡ false
    names : cfg'.endnames ≡ cfg.endnames

  crash1-HasCrashed :
      (n i : ℕ) (cfg cfg' : Testbed Net Name Bytes Command)
      → crash1 network i cfg ≡ some cfg'
      → IsStanding n cfg
      → HasCrashed n i cfg cfg'
  unfolding crash1
  crash1-HasCrashed n i cfg cfg' h s =
      let (cfg1, off, h1) = bind-some (disconnect network i cfg) _ h in
      let (slot, there, h2) = bind-some (get_elem? cfg1.slots i) _ h1 in
      let (flags, inside, names, slots) = disconnect-rest network i cfg cfg1 off in
      let s1 = disconnect-IsStanding n i cfg cfg1 off s in
      let size = length-set cfg.connected i false in
      subst (HasCrashed n i cfg) (Option.some-injective _ _ h2) (record {
        standing = record {
          size = s1.size;
          rows = s1.rows;
          wired = record {
            fits = s1.wired.fits;
            distinct = s1.wired.distinct;
            wired = λ k l x named.
                network.delete_server-is_enabled x i cfg1.net ∙ s1.wired.wired k l x named;
          };
          own =
              set-AreOwn sort n i cfg1.slots (crash_slot slot)
                (crash_slot-IsOwn sort n i slot (s1.own i slot there)) s1.own;
        };
        inside = rw flags (omega arith);
        off = rw flags (is_connected-set cfg.connected i i false inside ∙ ground arith);
        names = names;
      })

  pub crash1-IsStanding :
      (n i : ℕ) (cfg cfg' : Testbed Net Name Bytes Command)
      → crash1 network i cfg ≡ some cfg'
      → IsStanding n cfg
      → IsStanding n cfg'
  crash1-IsStanding n i cfg cfg' h s = let c = crash1-HasCrashed n i cfg cfg' h s in c.standing

  -- A persister on which a new server may run.
  served :
      (n i draw : ℕ) (p : Persister Bytes) (cfg cfg' : Testbed Net Name Bytes Command)
      (slots : List (Slot Bytes Command)) (old : Slot Bytes Command)
      → get_elem? slots i ≡ some old
      → serve network i draw (record cfg { slots = set slots i (crashed p) }) ≡ some cfg'
      → Reach sort n i (make {Command = Command} n i p draw)
      → AreOwn sort n slots
      → length cfg.connected ≡ n
      → length cfg.endnames ≡ n
      → IsWired network cfg.connected cfg.endnames cfg.net
      → IsStanding n cfg'
  unfolding serve
  served n i draw p cfg cfg' slots old here h r own size rows w =
      let there = get_elem?-set_self slots i old (crashed p) here in
      let run : Raft Bytes Command = make (length cfg.connected) i p draw in
      let done : record cfg {
        net = network.add_server i cfg.net;
        slots = set (set slots i (crashed p)) i (running run);
      }
          ≡ cfg' =
        Option.some-injective _ _ (rw (there, serve) at h) in
      subst (IsStanding n) done (record {
        size = size;
        rows = rows;
        wired = record {
          fits = w.fits;
          distinct = w.distinct;
          wired = λ k l x named. network.add_server-is_enabled x i cfg.net ∙ w.wired k l x named;
        };
        own = subst (AreOwn sort n) (sym (set-set slots i (crashed p) (running run))) (
            set-AreOwn sort n i slots (running run)
              (subst (λ k. Reach sort n i (make {Command = Command} k i p draw)) (sym size) r) own);
      })

  pub start1-IsStanding :
      (n i : ℕ) (names : List Name) (draw : ℕ) (cfg cfg' : Testbed Net Name Bytes Command)
      → IsNew n cfg.endnames names
      → start1 network i names draw cfg ≡ some cfg'
      → IsStanding n cfg
      → IsStanding n cfg'
  unfolding start1
  start1-IsStanding n i names draw cfg cfg' new h s =
      let (cfg1, down, h1) = bind-some (crash1 network i cfg) _ h in
      let (rows, wrote, h2) = bind-some (write i names cfg1.endnames) _ h1 in
      let (slot, there, h3) = bind-some (get_elem? cfg1.slots i) _ h2 in
      let c = crash1-HasCrashed n i cfg cfg1 down s in
      let (i_row, same) = write-inv i names cfg1.endnames rows wrote in
      let new' : IsNew (length cfg1.connected) cfg1.endnames names =
        rw (c.names, c.standing.size) new in
      let w =
        renamed network cfg1.connected cfg1.endnames cfg1.net i names c.inside i_row c.off new'
          c.standing.wired in
      let net' = make_ends network 0 names cfg1.net in
      served n i draw (saved_anew slot) (record cfg1 { net = net'; endnames = rows }) cfg'
        cfg1.slots slot there h3 (made-IsOwn sort n i draw slot (c.standing.own i slot there))
        c.standing.own c.standing.size
        (ap length same ∙ length-set cfg1.endnames i names ∙ c.standing.rows)
        (subst (λ r. IsWired network cfg1.connected r net') (sym same) w)
