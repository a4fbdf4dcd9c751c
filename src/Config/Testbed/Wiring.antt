-- ===== src/Config/Testbed/Wiring.antt =====
-- Which client ends of the tester may send (`connect`, `disconnect` and `start1` of
-- Task5/raft/config.go).
use unique_freshman.Prelude.{
  ℕ, zero, suc, ◌<◌, ◌≡◌, ◌≢◌, refl, sym, ap, ◌∙◌, ◌==◌, Bool, true, false, ◌&&◌, List, [], ◌∷◌,
  some, if◌then◌else◌, length, length-set, get_elem?, set, get_elem?-lt_length, arith, Bool-cases,
  inl, inr, bind-some, subst,
}
use unique_freshman.Config.Testbed.{Network, switch, write, name_at, is_connected, has_names}
use unique_freshman.Config.Testbed.Switches.{switch-keep, switch-hit, switch-miss}

-- An end's name stands at one place, and it may send exactly if both servers are connected.
pub record IsWired {Net Name : Type 0} (network : Network Net Name) (connected : List Bool)
    (endnames : List (List Name)) (net : Net) : Type 0 where
  pub fits :
      (i j : ℕ) (x : Name)
      → name_at endnames i j ≡ some x
      → (i < length connected) × (j < length connected)
  pub distinct :
      (i j k l : ℕ) (x : Name)
      → name_at endnames i j ≡ some x
      → name_at endnames k l ≡ some x
      → (i ≡ k) × (j ≡ l)
  pub wired :
      (i j : ℕ) (x : Name)
      → name_at endnames i j ≡ some x
      → network.is_enabled x net ≡ (is_connected connected i && is_connected connected j)

-- New names for the ends of a server, one for each server, as random strings are in all likelihood.
pub record IsNew {Name : Type 0} (n : ℕ) (endnames : List (List Name)) (names : List Name)
    : Type 0 where
  pub count : length names ≡ n
  pub apart : (l m : ℕ) (x : Name) → get_elem? names l ≡ some x → get_elem? names m ≡ some x → l ≡ m
  pub unused : (i j m : ℕ) (x : Name) → name_at endnames i j ≡ some x → get_elem? names m ≢ some x

pub write-inv :
    {A : Type 0} (i : ℕ) (x : A) (xs ys : List A)
    → write i x xs ≡ some ys
    → (i < length xs) × (ys ≡ set xs i x)
write-inv i x xs ys h =
    let (old, there, same) = bind-some (get_elem? xs i) _ h in
    (get_elem?-lt_length xs i old there, ground arith)

pub is_connected-set :
    (cs : List Bool) (i j : ℕ) (b : Bool)
    → i < length cs
    → is_connected (set cs i b) j ≡ (if j == i then b else is_connected cs j)
is_connected-set [] i j b h = absurd (omega arith)
is_connected-set (c ∷ cs) zero zero b h = refl
is_connected-set (c ∷ cs) zero (suc j) b h = ground arith
is_connected-set (c ∷ cs) (suc i) zero b h = ground arith
is_connected-set (c ∷ cs) (suc i) (suc j) b h =
    is_connected-set cs i j b (omega arith) ∙ ground arith

pub name_at-set :
    {Name : Type 0} (rows : List (List Name)) (row : List Name) (i k l : ℕ)
    → i < length rows
    → name_at (set rows i row) k l ≡ (if k == i then get_elem? row l else name_at rows k l)
name_at-set [] row i k l h = absurd (omega arith)
name_at-set (r ∷ rows) row zero zero l h = refl
name_at-set (r ∷ rows) row zero (suc k) l h = ground arith
name_at-set (r ∷ rows) row (suc i) zero l h = ground arith
name_at-set (r ∷ rows) row (suc i) (suc k) l h =
    name_at-set rows row i k l (omega arith) ∙ ground arith

name_at-has_names :
    {Name : Type 0} (rows : List (List Name)) (i j : ℕ) (x : Name)
    → name_at rows i j ≡ some x
    → has_names rows i ≡ true
name_at-has_names rows i j x h = ground arith

module _ {Net Name : Type 0} (network : Network Net Name) (cs : List Bool) (rows : List (List Name))
    (net net' net'' : Net) (i : ℕ) (w : IsWired network cs rows net) where
  -- The end of server `k` for server `l`, once server `i` is connected; `on` are the flags then.
  pub connected_end :
      (on : ℕ → Bool) (n : ℕ)
      → ((j : ℕ) → on j ≡ (if j == i then true else is_connected cs j))
      → switch network true on (λ j. name_at rows i j) 0 n net ≡ some net'
      → switch network true on (λ j. name_at rows j i) 0 n net' ≡ some net''
      → (k l : ℕ) (x : Name) → name_at rows k l ≡ some x
      → k < n
      → l < n
      → network.is_enabled x net'' ≡ (on k && on l)
  connected_end on n after out back k l x named k_in l_in =
      let before = w.wired k l x named in
      let at_k = after k in
      let at_l = after l in
      let later : network.is_enabled x net' ≡ true → network.is_enabled x net'' ≡ true =
        switch-keep network true on (λ j. name_at rows j i) 0 n net' net'' x back in
      elim (Bool-cases (on k && on l)) [
        | inl both ↦ elim (Bool-cases (k == i)) [
          | inl from ↦
              let same : k ≡ i = ground arith in
              later (
                switch-hit network true on (λ j. name_at rows i j) 0 n net net' x l out
                  (omega arith) (omega arith) (ground arith)
                  (subst (λ a. name_at rows a l ≡ some x) same named))
              ∙ sym both
          | inr not_from ↦ elim (Bool-cases (l == i)) [
            | inl to ↦
                let same : l ≡ i = ground arith in
                switch-hit network true on (λ j. name_at rows j i) 0 n net' net'' x k back
                  (omega arith) (omega arith) (ground arith)
                  (subst (λ a. name_at rows k a ≡ some x) same named)
                ∙ sym both
            | inr not_to ↦
                later (
                  switch-keep network true on (λ j. name_at rows i j) 0 n net net' x out
                    (ground arith))
                ∙ sym both
          ]
        ]
        | inr not_both ↦
            switch-miss network true on (λ j. name_at rows j i) 0 n net' net'' x back
              (λ m on_m there.
                let (from, to) = w.distinct k l m i x named there in
                let at_i = after i in ground (arith, ap on from, ap on to))
            ∙ switch-miss network true on (λ j. name_at rows i j) 0 n net net' x out
                (λ m on_m there.
                  let (from, to) = w.distinct k l i m x named there in
                  let at_i = after i in ground (arith, ap on from, ap on to))
            ∙ ground arith
      ]

  -- The same once it is disconnected.
  pub disconnected_end :
      (on : ℕ → Bool) (n : ℕ)
      → ((j : ℕ) → on j ≡ (if j == i then false else is_connected cs j))
      → switch network false (λ j. has_names rows i) (λ j. name_at rows i j) 0 n net ≡ some net'
      → switch network false (has_names rows) (λ j. name_at rows j i) 0 n net' ≡ some net''
      → (k l : ℕ) (x : Name) → name_at rows k l ≡ some x
      → k < n
      → l < n
      → network.is_enabled x net'' ≡ (on k && on l)
  disconnected_end on n after out back k l x named k_in l_in =
      let before = w.wired k l x named in
      let at_k = after k in
      let at_l = after l in
      elim (Bool-cases (k == i)) [
        | inl from ↦
            let same : k ≡ i = ground arith in
            let named' = subst (λ a. name_at rows a l ≡ some x) same named in
            switch-keep network false (has_names rows) (λ j. name_at rows j i) 0 n net' net'' x back
              (switch-hit network false (λ j. has_names rows i) (λ j. name_at rows i j) 0 n net net'
                x l out (omega arith) (omega arith) (name_at-has_names rows i l x named') named')
            ∙ ground arith
        | inr not_from ↦ elim (Bool-cases (l == i)) [
          | inl to ↦
              let same : l ≡ i = ground arith in
              let named' = subst (λ a. name_at rows k a ≡ some x) same named in
              switch-hit network false (has_names rows) (λ j. name_at rows j i) 0 n net' net'' x k
                back (omega arith) (omega arith) (name_at-has_names rows k i x named') named'
              ∙ ground arith
          | inr not_to ↦
              switch-miss network false (has_names rows) (λ j. name_at rows j i) 0 n net' net'' x
                back
                (λ m _ there. let (from, to) = w.distinct k l m i x named there in ground arith)
              ∙ switch-miss network false (λ j. has_names rows i) (λ j. name_at rows i j) 0 n net
                  net' x out
                  (λ m _ there. let (from, to) = w.distinct k l i m x named there in ground arith)
              ∙ before
              ∙ ground arith
        ]
      ]

  -- Only the switches are left to look at.
  pub rewired :
      (b : Bool) (cs' : List Bool)
      → cs' ≡ set cs i b
      → ((k l : ℕ) (x : Name)
          → name_at rows k l ≡ some x
          → k < length cs'
          → l < length cs'
          → network.is_enabled x net'' ≡ (is_connected cs' k && is_connected cs' l))
      → IsWired network cs' rows net''
  rewired b cs' same h =
      let size : length cs' ≡ length cs = ap length same ∙ length-set cs i b in
      record {
        fits = λ k l x named. let (k_in, l_in) = w.fits k l x named in (omega arith, omega arith);
        distinct = w.distinct;
        wired = λ k l x named.
            let (k_in, l_in) = w.fits k l x named in h k l x named (omega arith) (omega arith);
      }
