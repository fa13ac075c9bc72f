-- ===== src/Prelude/Maps.antt =====
-- `std::map`: entries in the order of the keys, each key once. The laws hold of any list.
pub mod Entries
use faabric.Prelude.{
  ◌≡◌, refl, Bool, true, false, ◌&&◌, not, Option, none, some, List, [], ◌∷◌, arith, if◌then◌else◌,
  Key,
}

abbrev pub Map {ℓ} : Type 0 → Type ℓ → Type ℓ
Map K V = List (K × V)

module _ {ℓ} {K : Type 0} {V : Type ℓ} ⦃key : Key K⦄ where
  -- `m.find(k)`
  unfoldable pub lookup : K → Map K V → Option V
  lookup k [] = none
  lookup k ((j, v) ∷ m) = if key.beq j k then some v else lookup k m

  -- `m.contains(k)`
  abbrev pub contains : K → Map K V → Bool
  contains k m = elim (lookup k m) [ none ↦ false | some _ ↦ true ]

  -- `m[k] = v`: a new entry stands before the first later key.
  unfoldable pub insert : K → V → Map K V → Map K V
  insert k v [] = (k, v) ∷ []
  insert k v ((j, w) ∷ m) =
      let rest = insert k v m in
      if key.beq j k
      then (k, v) ∷ m
      else if not (contains k m) && key.before k j
      then (k, v) ∷ (j, w) ∷ m
      else (j, w) ∷ rest

  -- `m.erase(k)`
  unfoldable pub erase : K → Map K V → Map K V
  erase k [] = []
  erase k ((j, w) ∷ m) = if key.beq j k then erase k m else (j, w) ∷ erase k m

  pub lookup-insert :
      (k i : K) (v : V) (m : Map K V)
      → lookup i (insert k v m) ≡ (if key.beq k i then some v else lookup i m)
  unfolding lookup insert
  lookup-insert k i v [] = refl
  lookup-insert k i v ((j, w) ∷ m) =
      ground (arith, key.beq_iff j k, key.beq_iff k i, key.beq_iff j i, lookup-insert k i v m)

  pub lookup-erase :
      (k i : K) (m : Map K V) → lookup i (erase k m) ≡ (if key.beq k i then none else lookup i m)
  unfolding lookup erase
  lookup-erase k i [] = ground arith
  lookup-erase k i ((j, w) ∷ m) =
      ground (arith, key.beq_iff j k, key.beq_iff k i, key.beq_iff j i, lookup-erase k i m)
