-- ===== src/Tests/Testing.antt =====
-- A tester of two servers, on a network whose client ends have numbers for names.
use unique_freshman.Prelude.{
  pos, length, ℕ, zero, suc, ◌≡◌, ◌≢◌, ◌==◌, ◌↔◌, refl, Bool, true, false, List, [], ◌∷◌, some,
  if◌then◌else◌, get_elem?, arith, ◌<◌, ◌⊎◌, inl, inr,
}
use unique_freshman.Persister.{make_persister, read_raft_state, copy, save_raft_state}
use unique_freshman.Raft.Gob.{Item}
use unique_freshman.Raft.State.{make, kill, read_persist, decode_int, decode_log}
use unique_freshman.Config.Testbed.{
  Network, Testbed, vacant, connect, disconnect, crash1, serve, start1, switch, make_ends, name_at,
}
use unique_freshman.Config.Testbed.Wiring.{IsNew}
use unique_freshman.Config.Testbed.Restart.{IsStanding}
use unique_freshman.Config.Testbed.Course.{
  Course, allocated, further, started, attached, Course-IsStanding,
}
use unique_freshman.Config.Testbed.Setup.{allocate, start_all, connect_all, make_config}
use unique_freshman.Config.Testbed.Cleanup.{cleanup}
use unique_freshman.Raft.Types.{Raft}
use unique_freshman.Raft.State.{killed}
use unique_freshman.Tests.Samples.{plain, outcome}
use unique_freshman.Tests.Sorting.{by_insertion}

-- The switches that have been set, the newest first.
abbrev pub Switches : Type 0
Switches = List (ℕ × Bool)

abbrev pub is_on : ℕ → Switches → Bool
is_on x [] = false
is_on x ((y, b) ∷ net) = let rest = is_on x net in if x == y then b else rest

pub same_number : (x y : ℕ) → ((x == y) ≡ true) ↔ (x ≡ y)
same_number x y = (λ h. ground arith, λ h. ground arith)

abbrev pub ends : Network Switches ℕ
ends = record {
  same = λ x y. x == y;
  make_end = λ x net. (x, false) ∷ net;
  link = λ x j net. net;
  enable = λ x b net. (x, b) ∷ net;
  add_server = λ i net. net;
  delete_server = λ i net. net;
  reliable = λ yes net. net;
  long_reordering = λ yes net. net;
  long_delays = λ yes net. net;
  clean_up = λ net. net;
  get_count = λ i net. pos 0;
  get_total_count = λ net. pos (length net);
  get_total_bytes = λ net. pos 0;
  is_enabled = is_on;
  same_iff = same_number;
  make_end-is_enabled = λ x y net. refl;
  enable-is_enabled = λ x y b net. refl;
  link-is_enabled = λ x y j net. refl;
  add_server-is_enabled = λ x i net. refl;
  delete_server-is_enabled = λ x i net. refl;
  clean_up-is_enabled = λ x net. refl;
}

abbrev Bed : Type 0
Bed = Testbed Switches ℕ (List (Item ℕ)) ℕ

abbrev blank : Bed
blank = record {
  net = [];
  connected = false ∷ false ∷ [];
  endnames = [] ∷ [] ∷ [];
  slots = vacant ∷ vacant ∷ [];
  killed = [];
}

abbrev started_one : Bed
started_one =
    unfold start1 serve crash1 disconnect switch make_ends make_persister make read_persist
      read_raft_state decode_int decode_log copy save_raft_state kill in
    outcome blank (start1 ends 0 (10 ∷ 11 ∷ []) 5 blank)

abbrev started_both : Bed
started_both =
    unfold start1 serve crash1 disconnect switch make_ends make_persister make read_persist
      read_raft_state decode_int decode_log copy save_raft_state kill in
    outcome blank (start1 ends 1 (20 ∷ 21 ∷ []) 6 started_one)

abbrev attached_one : Bed
attached_one = unfold connect switch in outcome blank (connect ends 0 started_both)

abbrev attached_both : Bed
attached_both = unfold connect switch in outcome blank (connect ends 1 attached_one)

-- Both may send to each other.
ends_on : ends.is_enabled 11 attached_both.net ≡ true
unfolding start1 serve crash1 disconnect switch make_ends make_persister make read_persist
    read_raft_state decode_int decode_log copy save_raft_state kill connect
ends_on = refl

-- The same in one.
all_in_one :
    make_config ends false ((10 ∷ 11 ∷ [], 5) ∷ (20 ∷ 21 ∷ [], 6) ∷ []) [] ≡ some attached_both
unfolding start1 serve crash1 disconnect switch make_ends make_persister make read_persist
    read_raft_state decode_int decode_log copy save_raft_state kill connect make_config start_all
    connect_all allocate
all_in_one = refl

at_two :
    (a b l x : ℕ) → get_elem? (a ∷ b ∷ []) l ≡ some x → ((l ≡ 0) × (x ≡ a)) ⊎ ((l ≡ 1) × (x ≡ b))
at_two a b zero x h = inl (refl, ground arith)
at_two a b (suc zero) x h = inr (refl, ground arith)
at_two a b (suc (suc l)) x h = absurd (ground arith)

two_apart :
    (a b : ℕ)
    → a < b
    → (l m x : ℕ) → get_elem? (a ∷ b ∷ []) l ≡ some x
    → get_elem? (a ∷ b ∷ []) m ≡ some x
    → l ≡ m
two_apart a b less l m x h h' = ground (arith, at_two a b l x h, at_two a b m x h')

first_names : IsNew 2 blank.endnames (10 ∷ 11 ∷ [])
first_names = record { count = refl; apart = two_apart 10 11 (omega arith); unused = unused }
  where
    unused :
        (i j m x : ℕ) → name_at blank.endnames i j ≡ some x → get_elem? (10 ∷ 11 ∷ []) m ≢ some x
    unused zero j m x named h = absurd (ground arith)
    unused (suc zero) j m x named h = absurd (ground arith)
    unused (suc (suc i)) j m x named h = absurd (ground arith)

second_names : IsNew {Name = ℕ} 2 ((10 ∷ 11 ∷ []) ∷ [] ∷ []) (20 ∷ 21 ∷ [])
second_names = record { count = refl; apart = two_apart 20 21 (omega arith); unused = unused }
  where
    unused :
        (i j m x : ℕ)
        → name_at {Name = ℕ} ((10 ∷ 11 ∷ []) ∷ [] ∷ []) i j ≡ some x
        → get_elem? (20 ∷ 21 ∷ []) m ≢ some x
    unused zero j m x named h = ground (arith, at_two 10 11 j x named, at_two 20 21 m x h)
    unused (suc zero) j m x named h = absurd (ground arith)
    unused (suc (suc i)) j m x named h = absurd (ground arith)

attached_both-Course : Course by_insertion ends 2 attached_both
unfolding start1 serve crash1 disconnect switch make_ends make_persister make read_persist
    read_raft_state decode_int decode_log copy save_raft_state kill connect
attached_both-Course =
    further
      (further
        (further
          (further (allocated blank refl refl refl refl)
            (started 0 (10 ∷ 11 ∷ []) 5 first_names refl))
          (started 1 (20 ∷ 21 ∷ []) 6 second_names refl))
        (attached 0 refl))
      (attached 1 refl)

Course-IsStanding_example : IsStanding by_insertion ends 2 attached_both
Course-IsStanding_example = Course-IsStanding by_insertion ends 2 attached_both-Course

-- Server 1 is crashed, and the tester cleans up.
abbrev one_down : Bed
one_down =
    unfold crash1 start1 serve disconnect switch make_ends make_persister make read_persist
      read_raft_state decode_int decode_log copy save_raft_state kill connect in
    outcome attached_both (crash1 ends 1 attached_both)

abbrev cleaned : Bed
cleaned = (cleanup ends false (pos 0) (pos 0) one_down).0

-- Server 0 is dead in its place, and takes a command all the same, as it does not look.
abbrev dead_one : Raft (List (Item ℕ)) ℕ
dead_one = kill (make 2 0 (make_persister []) 5)
