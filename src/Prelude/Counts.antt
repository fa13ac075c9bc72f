-- ===== src/Prelude/Counts.antt =====
-- How often a name occurs in a list.
use faabric.Prelude.{
  ℕ, zero, suc, ◌+◌, ◌≡◌, List, [], ◌∷◌, ◌++◌, String, arith, if◌then◌else◌, same_name, replicate,
  take, ◌≤◌,
}

unfoldable pub count : String → List String → ℕ
count a [] = 0
count a (x ∷ xs) = if same_name x a then suc (count a xs) else count a xs

pub count-append : (a : String) (xs ys : List String) → count a (xs ++ ys) ≡ count a xs + count a ys
unfolding count
count-append a [] ys = omega arith
count-append a (x ∷ xs) ys = ground (arith, count-append a xs ys)

pub count-replicate :
    (a x : String) (n : ℕ) → count a (replicate n x) ≡ (if same_name x a then n else 0)
unfolding count
count-replicate a x zero = ground arith
count-replicate a x (suc n) = ground (arith, count-replicate a x n)

pub count-take_le : (a : String) (n : ℕ) (xs : List String) → count a (take n xs) ≤ count a xs
unfolding count
count-take_le a zero xs = omega arith
count-take_le a (suc n) [] = omega arith
count-take_le a (suc n) (x ∷ xs) = ground (arith, count-take_le a n xs)
