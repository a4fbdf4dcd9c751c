-- ===== src/Config/Testbed.antt =====
-- How Task5/raft/config.go starts, crashes, connects and disconnects servers. The network of
-- Task5/labrpc is an interface, of which only the switches of the client ends are read.
pub mod Switches
pub mod Wiring
pub mod Attach
pub mod Own
pub mod Restart
pub mod Course
pub mod Setup
pub mod Cleanup
pub mod Killed
use unique_freshman.Prelude.{
  ℕ, zero, suc, ℤ, ◌≡◌, ◌↔◌, Bool, true, false, List, [], ◌∷◌, Option, none, some, ◌>>=◌,
  if◌then◌else◌, length, get_elem?, set, ◌++◌,
}
use unique_freshman.Persister.{Persister, make_persister, copy, save_raft_state, read_raft_state}
use unique_freshman.Raft.Types.{Raft}
use unique_freshman.Raft.Gob.{Gob}
use unique_freshman.Raft.State.{make, kill}

-- `labrpc.Network`: what the tester calls, and whether an end, by its name, may send. Names are
-- compared by `same`, Go's `==`; a new end may not send.
pub record Network (Net Name : Type 0) : Type 0 where
  pub same : Name → Name → Bool
  pub make_end : Name → Net → Net
  pub link : Name → ℕ → Net → Net
  pub enable : Name → Bool → Net → Net
  pub add_server : ℕ → Net → Net
  pub delete_server : ℕ → Net → Net
  pub reliable : Bool → Net → Net
  pub long_reordering : Bool → Net → Net
  pub long_delays : Bool → Net → Net
  pub clean_up : Net → Net
  pub get_count : ℕ → Net → ℤ
  pub get_total_count : Net → ℤ
  pub get_total_bytes : Net → ℤ
  pub is_enabled : Name → Net → Bool
  pub same_iff : (x y : Name) → (same x y ≡ true) ↔ (x ≡ y)
  pub make_end-is_enabled :
      (x y : Name) (net : Net)
      → is_enabled x (make_end y net) ≡ (if same x y then false else is_enabled x net)
  pub enable-is_enabled :
      (x y : Name) (b : Bool) (net : Net)
      → is_enabled x (enable y b net) ≡ (if same x y then b else is_enabled x net)
  pub link-is_enabled :
      (x y : Name) (j : ℕ) (net : Net) → is_enabled x (link y j net) ≡ is_enabled x net
  pub add_server-is_enabled :
      (x : Name) (i : ℕ) (net : Net) → is_enabled x (add_server i net) ≡ is_enabled x net
  pub delete_server-is_enabled :
      (x : Name) (i : ℕ) (net : Net) → is_enabled x (delete_server i net) ≡ is_enabled x net
  pub clean_up-is_enabled : (x : Name) (net : Net) → is_enabled x (clean_up net) ≡ is_enabled x net

-- `rafts[i]` and `saved[i]`. A running server writes to the persister that `saved[i]` points to: it
-- is the one in its own state.
pub data Slot (Bytes Command : Type 0) : Type 0 where
  vacant : Slot Bytes Command
  crashed : Persister Bytes → Slot Bytes Command
  running : Raft Bytes Command → Slot Bytes Command

-- `killed` are the servers that have been killed; their goroutines go on, with a persister of their
-- own. A row of `endnames` is `[]` while it is `nil`.
pub record Testbed (Net Name Bytes Command : Type 0) : Type 0 where
  pub net : Net
  pub connected : List Bool
  pub endnames : List (List Name)
  pub slots : List (Slot Bytes Command)
  pub killed : List (Raft Bytes Command)

module _ {ℓ} {A : Type ℓ} where
  -- `xs[i] = x`
  abbrev pub write : ℕ → A → List A → Option (List A)
  write i x xs = get_elem? xs i >>= λ old. some (set xs i x)

-- `endnames[i][j]`
abbrev pub name_at : {Name : Type 0} → List (List Name) → ℕ → ℕ → Option Name
name_at endnames i j = get_elem? endnames i >>= λ row. get_elem? row j

-- `connected[j]` and `endnames[j] != nil`, for a `j` in range.
abbrev pub is_connected : List Bool → ℕ → Bool
is_connected connected j = elim (get_elem? connected j) [ none ↦ false | some b ↦ b ]

abbrev pub has_names : {Name : Type 0} → List (List Name) → ℕ → Bool
has_names endnames j = elim (get_elem? endnames j) [
  | none ↦ false
  | some [] ↦ false
  | some (x ∷ xs) ↦ true
]

module _ {Bytes Command : Type 0} ⦃gob : Gob Bytes Command⦄ where
  -- `saved[i]`, which may be `nil`.
  abbrev pub saved : Slot Bytes Command → Option (Persister Bytes)
  saved vacant = none
  saved (crashed p) = some p
  saved (running rf) = some rf.persister

  -- The state that was written last, in a new persister.
  abbrev pub crash_slot : Slot Bytes Command → Slot Bytes Command
  crash_slot slot = elim (saved slot) [
    | none ↦ vacant
    | some p ↦
        let raftlog = read_raft_state (copy gob.nil_bytes p) in
        crashed (save_raft_state (make_persister gob.nil_bytes) raftlog)
  ]

  abbrev pub killed_by : Slot Bytes Command → List (Raft Bytes Command)
  killed_by vacant = []
  killed_by (crashed p) = []
  killed_by (running rf) = kill rf ∷ []

  -- The persister of the new server.
  abbrev pub saved_anew : Slot Bytes Command → Persister Bytes
  saved_anew slot = elim (saved slot) [
    | none ↦ make_persister gob.nil_bytes
    | some p ↦ copy gob.nil_bytes p
  ]

module _ {Net Name : Type 0} (network : Network Net Name) where
  -- The loops of `connect` and `disconnect` over `j`, for `k` rounds: an end is switched where the
  -- guard holds.
  unfoldable pub switch : Bool → (ℕ → Bool) → (ℕ → Option Name) → ℕ → ℕ → Net → Option Net
  switch b guard name j zero net = some net
  switch b guard name j (suc k) net = elim (guard j) [
    | false ↦ switch b guard name (suc j) k net
    | true ↦ name j >>= λ x. switch b guard name (suc j) k (network.enable x b net)
  ]

  -- `MakeEnd` and `Connect` for the new names, from server `j` on.
  unfoldable pub make_ends : ℕ → List Name → Net → Net
  make_ends j [] net = net
  make_ends j (x ∷ xs) net = make_ends (suc j) xs (network.link x j (network.make_end x net))

  module _ {Bytes Command : Type 0} where
    unfoldable pub connect :
        ℕ → Testbed Net Name Bytes Command → Option (Testbed Net Name Bytes Command)
    connect i cfg = write i true cfg.connected >>= λ connected.
        let n = length connected in
        switch true (is_connected connected) (λ j. name_at cfg.endnames i j) 0 n cfg.net >>= λ net.
        switch true (is_connected connected) (λ j. name_at cfg.endnames j i) 0 n net >>= λ net'.
        some (record cfg { connected = connected; net = net' })

    unfoldable pub disconnect :
        ℕ → Testbed Net Name Bytes Command → Option (Testbed Net Name Bytes Command)
    disconnect i cfg = write i false cfg.connected >>= λ connected.
        let n = length connected in
        switch false (λ j. has_names cfg.endnames i) (λ j. name_at cfg.endnames i j) 0 n cfg.net
        >>= λ net.
            switch false (has_names cfg.endnames) (λ j. name_at cfg.endnames j i) 0 n net
            >>= λ net'. some (record cfg { connected = connected; net = net' })

    module _ ⦃gob : Gob Bytes Command⦄ where
      unfoldable pub crash1 :
          ℕ → Testbed Net Name Bytes Command → Option (Testbed Net Name Bytes Command)
      unfolding disconnect
      crash1 i cfg = disconnect i cfg >>= λ cfg'. get_elem? cfg'.slots i >>= λ slot.
          some (record cfg' {
            net = network.delete_server i cfg'.net;
            slots = set cfg'.slots i (crash_slot slot);
            killed = killed_by slot ++ cfg'.killed;
          })

      -- From the call of `Make` on, with the number `draw` that it draws.
      unfoldable pub serve :
          ℕ → ℕ → Testbed Net Name Bytes Command → Option (Testbed Net Name Bytes Command)
      serve i draw cfg = get_elem? cfg.slots i >>= λ slot. saved slot >>= λ p.
          let rf = make (length cfg.connected) i p draw in
          some (record cfg {
            net = network.add_server i cfg.net;
            slots = set cfg.slots i (running rf);
          })

      -- `names` are the random strings.
      unfoldable pub start1 :
          ℕ
          → List Name
          → ℕ
          → Testbed Net Name Bytes Command
          → Option (Testbed Net Name Bytes Command)
      unfolding crash1 serve
      start1 i names draw cfg = crash1 i cfg >>= λ cfg'. write i names cfg'.endnames >>= λ endnames.
          get_elem? cfg'.slots i >>= λ slot. serve i draw (record cfg' {
            net = make_ends 0 names cfg'.net;
            endnames = endnames;
            slots = set cfg'.slots i (crashed (saved_anew slot));
          })
