-- ===== src/Config/Testbed/Switches.antt =====
-- What the loops of `connect`, `disconnect` and `start1` in Task5/raft/config.go do to one client end.
use unique_freshman.Prelude.{
  ℕ, zero, suc, ◌+◌, ◌≤◌, ◌<◌, ◌≡◌, ◌≢◌, refl, sym, ap, ◌∙◌, ◌==◌, Bool, true, false, List, [], ◌∷◌,
  Option, some, if◌then◌else◌, get_elem?, arith, Bool-cases, Option-cases, inl, inr,
}
use unique_freshman.Config.Testbed.{Network, switch, make_ends}

module _ {Net Name : Type 0} (network : Network Net Name) where
  same_self : (x : Name) → network.same x x ≡ true
  same_self x = (network.same_iff x x).1 refl

  differs : (x y : Name) → x ≢ y → network.same x y ≡ false
  differs x y other = elim (Bool-cases (network.same x y)) [
    | inl same ↦ absurd (other ((network.same_iff x y).0 same))
    | inr apart ↦ apart
  ]

  -- An end that is switched to `b`, or stays at it.
  keep :
      (x y : Name) (b : Bool) (net : Net)
      → network.is_enabled x net ≡ b
      → network.is_enabled x (network.enable y b net) ≡ b
  keep x y b net h = ground (arith, network.enable-is_enabled x y b net)

  pub switch-keep :
      (b : Bool) (guard : ℕ → Bool) (name : ℕ → Option Name) (j k : ℕ) (net net' : Net) (x : Name)
      → switch network b guard name j k net ≡ some net'
      → network.is_enabled x net ≡ b
      → network.is_enabled x net' ≡ b
  unfolding switch
  switch-keep b guard name j zero net net' x h e = ground arith
  switch-keep b guard name j (suc k) net net' x h e = elim (Bool-cases (guard j)) [
    | inl on ↦ elim (Option-cases (name j)) [
      | inl bad ↦ absurd (ground arith)
      | inr (y, found) ↦
          switch-keep b guard name (suc j) k (network.enable y b net) net' x (ground arith)
            (keep x y b net e)
    ]
    | inr off ↦ switch-keep b guard name (suc j) k net net' x (ground arith) e
  ]

  -- The end is among those that the loop switches.
  pub switch-hit :
      (b : Bool) (guard : ℕ → Bool) (name : ℕ → Option Name) (j k : ℕ) (net net' : Net) (x : Name)
      (m : ℕ)
      → switch network b guard name j k net ≡ some net'
      → j ≤ m
      → m < j + k
      → guard m ≡ true
      → name m ≡ some x
      → network.is_enabled x net' ≡ b
  unfolding switch
  switch-hit b guard name j zero net net' x m h low high on found = absurd (omega arith)
  switch-hit b guard name j (suc k) net net' x m h low high on found = elim (Bool-cases (j == m)) [
    | inl here ↦
        let same : j ≡ m = ground arith in
        let now : switch network b guard name (suc j) k (network.enable x b net) ≡ some net' =
          ground arith in
        switch-keep b guard name (suc j) k (network.enable x b net) net' x now
          (ground (arith, network.enable-is_enabled x x b net, same_self x))
    | inr not_here ↦ elim (Bool-cases (guard j)) [
      | inl also ↦ elim (Option-cases (name j)) [
        | inl bad ↦ absurd (ground arith)
        | inr (y, other) ↦
            switch-hit b guard name (suc j) k (network.enable y b net) net' x m (ground arith)
              (ground arith) (omega arith) on found
      ]
      | inr off ↦
          switch-hit b guard name (suc j) k net net' x m (ground arith) (ground arith) (omega arith)
            on found
    ]
  ]

  -- The end is not among them.
  pub switch-miss :
      (b : Bool) (guard : ℕ → Bool) (name : ℕ → Option Name) (j k : ℕ) (net net' : Net) (x : Name)
      → switch network b guard name j k net ≡ some net'
      → ((m : ℕ) → guard m ≡ true → name m ≢ some x)
      → network.is_enabled x net' ≡ network.is_enabled x net
  unfolding switch
  switch-miss b guard name j zero net net' x h never = ground arith
  switch-miss b guard name j (suc k) net net' x h never = elim (Bool-cases (guard j)) [
    | inl on ↦ elim (Option-cases (name j)) [
      | inl bad ↦ absurd (ground arith)
      | inr (y, found) ↦
          let other : x ≢ y = λ e. never j on (found ∙ ap some (sym e)) in
          switch-miss b guard name (suc j) k (network.enable y b net) net' x (ground arith) never
          ∙ ground (arith, network.enable-is_enabled x y b net, differs x y other)
    ]
    | inr off ↦ switch-miss b guard name (suc j) k net net' x (ground arith) never
  ]

  -- The round of `start1` for one new end.
  end_made :
      (x y : Name) (j : ℕ) (net : Net)
      → network.is_enabled x (network.link y j (network.make_end y net))
        ≡ (if network.same x y then false else network.is_enabled x net)
  end_made x y j net =
      network.link-is_enabled x y j (network.make_end y net) ∙ network.make_end-is_enabled x y net

  pub make_ends-off :
      (j : ℕ) (names : List Name) (net : Net) (x : Name)
      → network.is_enabled x net ≡ false
      → network.is_enabled x (make_ends network j names net) ≡ false
  unfolding make_ends
  make_ends-off j [] net x off = off
  make_ends-off j (y ∷ names) net x off =
      make_ends-off (suc j) names _ x (ground (arith, end_made x y j net))

  pub make_ends-new :
      (j : ℕ) (names : List Name) (net : Net) (x : Name) (m : ℕ)
      → get_elem? names m ≡ some x
      → network.is_enabled x (make_ends network j names net) ≡ false
  unfolding make_ends
  make_ends-new j [] net x m h = absurd (ground arith)
  make_ends-new j (y ∷ names) net x zero h =
      let same : y ≡ x = ground arith in
      make_ends-off (suc j) names _ x (rw same (end_made x x j net ∙ ground (arith, same_self x)))
  make_ends-new j (y ∷ names) net x (suc m) h = make_ends-new (suc j) names _ x m h

  pub make_ends-old :
      (j : ℕ) (names : List Name) (net : Net) (x : Name)
      → ((m : ℕ) → get_elem? names m ≢ some x)
      → network.is_enabled x (make_ends network j names net) ≡ network.is_enabled x net
  unfolding make_ends
  make_ends-old j [] net x never = refl
  make_ends-old j (y ∷ names) net x never =
      let other : x ≢ y = λ e. never 0 (ap some (sym e)) in
      make_ends-old (suc j) names _ x (λ m. never (suc m))
      ∙ end_made x y j net
      ∙ ground (arith, differs x y other)
