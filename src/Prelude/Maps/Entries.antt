-- ===== src/Prelude/Maps/Entries.antt =====
-- Maps whose keys are distinct and whose entries all have a property.
use faabric.Prelude.{
  ◌≡◌, ◌∙◌, ap, sym, refl, inl, inr, true, false, ◌&&◌, not, none, some, [], ◌∷◌, arith, Key,
  Bool-cases,
}
use mathlib.Core.Path.{subst}
use mathlib.Core.Option.{some-injective}
use faabric.Prelude.Maps.{Map, lookup, contains, insert, erase, lookup-insert, lookup-erase}

module _ {K V : Type 0} ⦃key : Key K⦄ where
  unfoldable pub IsMapOf : (K → V → Type 0) → Map K V → Type 0
  IsMapOf P [] = Unit
  IsMapOf P ((k, v) ∷ m) = (lookup k m ≡ none) × P k v × IsMapOf P m

  substitute : (P : K → V → Type 0) (j k : K) (w v : V) → j ≡ k → some w ≡ some v → P j w → P k v
  substitute P j k w v e f p = subst (λ i. P i v) e (subst (P j) (some-injective w v f) p)

  pub lookup-IsMapOf :
      (P : K → V → Type 0) (k : K) (v : V) (m : Map K V) → IsMapOf P m → lookup k m ≡ some v → P k v
  unfolding IsMapOf lookup
  lookup-IsMapOf P k v [] h e = absurd cc
  lookup-IsMapOf P k v ((j, w) ∷ m) h e = elim (Bool-cases (key.beq j k)) [
    | inl same ↦ substitute P j k w v ((key.beq_iff j k).0 same) (ground (arith, e, same)) (h.1)
    | inr other ↦ lookup-IsMapOf P k v m h.2 (ground (arith, e, other))
  ]

  pub insert-IsMapOf :
      (P : K → V → Type 0) (k : K) (v : V) (m : Map K V)
      → IsMapOf P m
      → P k v
      → IsMapOf P (insert k v m)
  unfolding IsMapOf insert lookup
  insert-IsMapOf P k v [] h p = (refl, p, tt)
  insert-IsMapOf P k v ((j, w) ∷ m) h p = elim (Bool-cases (key.beq j k)) [
    | inl same ↦ rw same (rw (sym ((key.beq_iff j k).0 same)) h.0, p, h.2)
    | inr other ↦ elim (Bool-cases (not (contains k m) && key.before k j)) [
      | inl first ↦ rw (other, first) (ground (arith, first, other), p, h)
      | inr later ↦
          rw (other, later)
            (
              lookup-insert k j v m ∙ ground (arith, h.0, key.beq_iff k j, key.beq_iff j k, other),
              h.1,
              insert-IsMapOf P k v m h.2 p,
            )
    ]
  ]

  pub erase-IsMapOf :
      (P : K → V → Type 0) (k : K) (m : Map K V) → IsMapOf P m → IsMapOf P (erase k m)
  unfolding IsMapOf erase
  erase-IsMapOf P k [] h = tt
  erase-IsMapOf P k ((j, w) ∷ m) h = elim (Bool-cases (key.beq j k)) [
    | inl same ↦ rw same (erase-IsMapOf P k m h.2)
    | inr other ↦ rw other (
      lookup-erase k j m ∙ ground (arith, h.0, key.beq_iff k j, key.beq_iff j k, other),
      h.1,
      erase-IsMapOf P k m h.2,
    )
  ]

  pub lookup-insert_same : (k : K) (v : V) (m : Map K V) → lookup k (insert k v m) ≡ some v
  lookup-insert_same k v m = lookup-insert k k v m ∙ ground (arith, key.beq_iff k k)

  pub lookup-insert_other :
      (k i : K) (v : V) (m : Map K V) → key.beq k i ≡ false → lookup i (insert k v m) ≡ lookup i m
  lookup-insert_other k i v m e = lookup-insert k i v m ∙ ground (arith, e)

  pub insert-insert : (k : K) (v w : V) (m : Map K V) → insert k v (insert k w m) ≡ insert k v m
  unfolding insert lookup
  insert-insert k v w [] = ground (arith, key.beq_iff k k)
  insert-insert k v w ((j, x) ∷ m) = elim (Bool-cases (key.beq j k)) [
    | inl same ↦ rw same (ground (arith, key.beq_iff k k))
    | inr other ↦ elim (Bool-cases (not (contains k m) && key.before k j)) [
      | inl first ↦ rw (other, first) (ground (arith, key.beq_iff k k))
      | inr later ↦ rw (other, later, there, insert-insert k v w m, other) refl
    ]
  ]
    where
      there : contains k (insert k w m) ≡ true
      there = ap (λ o. elim o [ none ↦ false | some x ↦ true ]) (lookup-insert_same k w m)
