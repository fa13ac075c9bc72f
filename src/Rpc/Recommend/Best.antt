-- ===== src/Rpc/Recommend/Best.antt =====
-- The loop over the candidates of src/rpc/RpcDependencyGraph.cpp.
use faabric.Prelude.{
  ℕ, ◌≡◌, ◌≤◌, ◌<◌, refl, inl, inr, Bool, true, false, Option, none, some, List, [], ◌∷◌, String,
  arith, ltb, same_name, same_name_iff, ap, Bool-cases,
}
use faabric.Rpc.Recommend.{better, best_of, has_name}

module _ (cost : String → ℕ) (has_capacity : String → Bool) (current : String) where
  -- A host that the loop considers.
  abbrev pub IsEligible : String → Type 0
  IsEligible h = (same_name h current ≡ false) × (has_capacity h ≡ true)

  best_of_le :
      (hs : List String) (best : Option String × ℕ)
      → (best_of cost has_capacity current hs best).1 ≤ best.1
  unfolding best_of better
  best_of_le [] best = omega arith
  best_of_le (h ∷ hs) best = ground (arith, best_of_le hs (better cost has_capacity current h best))

  better_le :
      (best : Option String × ℕ) (h : String)
      → IsEligible h
      → (better cost has_capacity current h best).1 ≤ cost h
  unfolding better
  better_le best h e = ground (arith, e.0, e.1)

  pub best_of_minimal :
      (hs : List String) (best : Option String × ℕ) (h : String)
      → has_name h hs ≡ true
      → IsEligible h
      → (best_of cost has_capacity current hs best).1 ≤ cost h
  unfolding best_of has_name
  best_of_minimal [] best h here e = absurd cc
  best_of_minimal (g ∷ hs) best h here e = elim (Bool-cases (same_name g h)) [
    | inl same ↦ omega (
      arith,
      best_of_le hs (better cost has_capacity current g best),
      better_le best h e,
      ap (λ x. (better cost has_capacity current x best).1) ((same_name_iff g h).0 same),
    )
    | inr other ↦ best_of_minimal hs (better cost has_capacity current g best) h (ground arith) e
  ]

  -- What the loop finds in `hs` when it starts with the cost `start` and no host.
  abbrev pub IsFound : ℕ → List String → Option String × ℕ → Type 0
  IsFound start hs (none, c) = c ≡ start
  IsFound start hs (some h, c) = (c ≡ cost h) × (c < start) × IsEligible h × (has_name h hs ≡ true)

  within_start :
      (start : ℕ) (hs : List String) (best : Option String × ℕ)
      → IsFound start hs best
      → best.1 ≤ start
  within_start start hs (none, c) f = omega (arith, f)
  within_start start hs (some h, c) f = omega (arith, f.1)

  better-IsFound :
      (start : ℕ) (hs : List String) (g : String) (best : Option String × ℕ)
      → has_name g hs ≡ true
      → IsFound start hs best
      → IsFound start hs (better cost has_capacity current g best)
  unfolding better
  better-IsFound start hs g best here f = elim (Bool-cases (same_name g current)) [
    | inl same ↦ rw same f
    | inr other ↦ elim (Bool-cases (has_capacity g)) [
      | inr full ↦ rw (other, full) f
      | inl free ↦ elim (Bool-cases (ltb (cost g) best.1)) [
        | inr worse ↦ rw (other, free, worse) f
        | inl cheaper ↦
            rw (other, free, cheaper)
              (refl, ground (arith, within_start start hs best f), (other, free), here)
      ]
    ]
  ]

  best_of_within :
      (start : ℕ) (all hs : List String) (best : Option String × ℕ)
      → ((h : String) → has_name h hs ≡ true → has_name h all ≡ true)
      → IsFound start all best
      → IsFound start all (best_of cost has_capacity current hs best)
  unfolding best_of has_name
  best_of_within start all [] best within f = f
  best_of_within start all (g ∷ hs) best within f =
      best_of_within start all hs (better cost has_capacity current g best)
        (λ h here. within h (ground (arith, here)))
        (better-IsFound start all g best (within g (ground (arith, same_name_iff g g))) f)

  pub best_of-IsFound :
      (start : ℕ) (hs : List String)
      → IsFound start hs (best_of cost has_capacity current hs (none, start))
  best_of-IsFound start hs = best_of_within start hs hs (none, start) (λ h here. here) refl
