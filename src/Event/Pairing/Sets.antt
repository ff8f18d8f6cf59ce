-- ===== src/Event/Pairing/Sets.antt =====
-- The laws of the sets of crates/agent-event/src/pairing.rs, kept as lists of keys.
use rof_harness.Base.{◌≡◌, refl, ap, ◌↔◌, Bool, true, ◌||◌, List, [], ◌∷◌, arith, all}
use rof_harness.Event.Pairing.{contains, insert}

module _ {K : Type 0} (eq : K → K → Bool) (eq_law : (a b : K) → (eq a b ≡ true) ↔ (a ≡ b)) where
  contains-eq : (j k : K) (ks : List K) → eq j k ≡ true → contains eq j ks ≡ contains eq k ks
  contains-eq j k ks h = ap (λ x. contains eq x ks) ((eq_law j k).0 h)

  pub contains-insert :
      (j k : K) (ks : List K) → contains eq k (insert eq j ks) ≡ (eq j k || contains eq k ks)
  unfolding insert contains
  contains-insert j k ks = ground (arith, contains-eq j k ks)

  pub all-contains :
      (starts ends : List K)
      → all (λ t. contains eq t ends) starts ≡ true
      → (k : K) → contains eq k starts ≡ true
      → contains eq k ends ≡ true
  unfolding contains
  all-contains [] ends h k m = cc
  all-contains (s ∷ ss) ends h k m =
      ground (arith, contains-eq s k ends, all-contains ss ends (ground arith) k)

  contains_self : (k : K) (ks : List K) → contains eq k (k ∷ ks) ≡ true
  unfolding contains
  contains_self k ks = ground (arith, eq_law k k)

  contains_later : (j k : K) (ks : List K) → contains eq k ks ≡ true → contains eq k (j ∷ ks) ≡ true
  unfolding contains
  contains_later j k ks h = ground arith

  pub all_of_contains :
      (starts ends : List K)
      → ((k : K) → contains eq k starts ≡ true → contains eq k ends ≡ true)
      → all (λ t. contains eq t ends) starts ≡ true
  all_of_contains [] ends h = refl
  all_of_contains (s ∷ ss) ends h =
      let here = h s (contains_self s ss) in
      let rest = all_of_contains ss ends (λ k m. h k (contains_later s k ss m)) in ground arith
