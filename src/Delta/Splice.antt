-- ===== src/Delta/Splice.antt =====
-- A part of a buffer replaced by the same part of the new data.
use mathlib.Core.List.{append-nil}
use faabric.Prelude.{
  ℕ, zero, suc, ◌+◌, ◌≤◌, ◌≡◌, refl, ap, ◌∙◌, List, [], ◌∷◌, ◌++◌, arith, length, take, drop,
  length-append, length-take, length-drop, take-append-drop,
}
use faabric.Delta.Buffer.{take-append}
use faabric.Delta.Format.{region}

-- The buffer `a` with `n` bytes from `start` on replaced.
abbrev pub splice : List ℕ → ℕ → ℕ → List ℕ → List ℕ
splice a start n bytes = take start a ++ bytes ++ drop (start + n) a

take-add : (s n m : ℕ) (xs : List ℕ) → m ≡ s + n → take s xs ++ take n (drop s xs) ≡ take m xs
take-add zero n m xs e = ap (λ k. take k xs) (omega (arith, e))
take-add (suc s) zero zero [] e = absurd (omega arith)
take-add (suc s) (suc n) zero xs e = absurd (omega arith)
take-add (suc s) zero zero (x ∷ xs) e = absurd (omega arith)
take-add (suc s) zero (suc m) [] e = refl
take-add (suc s) (suc n) (suc m) [] e = refl
take-add (suc s) n (suc m) (x ∷ xs) e = ap (◌∷◌ x) (take-add s n m xs (omega arith))

pub length-region :
    (new_data : List ℕ) (s n : ℕ) → s + n ≤ length new_data → length (region new_data s n) ≡ n
length-region new_data s n h =
    omega (arith, length-take n (drop s new_data), length-drop s new_data)

pub length-splice :
    (a bytes : List ℕ) (s n : ℕ)
    → length bytes ≡ n
    → s + n ≤ length a
    → length (splice a s n bytes) ≡ length a
length-splice a bytes s n e h = omega (
  arith,
  length-append (take s a ++ bytes) (drop (s + n) a),
  length-append (take s a) bytes,
  length-take s a,
  length-drop (s + n) a,
)

-- Where the buffer agrees with the new data up to `s`, it does up to `s + n` after the next `n` bytes.
pub take-splice :
    (a new_data : List ℕ) (s n : ℕ)
    → take s a ≡ take s new_data
    → s + n ≤ length new_data
    → take (s + n) (splice a s n (region new_data s n)) ≡ take (s + n) new_data
take-splice a new_data s n e h =
    ap (λ front. take (s + n) (front ++ region new_data s n ++ drop (s + n) a)) e
    ∙ ap (λ front. take (s + n) (front ++ drop (s + n) a)) (take-add s n (s + n) new_data refl)
    ∙ take-append (take (s + n) new_data) (drop (s + n) a) (s + n)
        (omega (arith, length-take (s + n) new_data))

pub splice-zero :
    (a : List ℕ) (s n : ℕ) (new_data : List ℕ) → n ≡ 0 → splice a s n (region new_data s n) ≡ a
splice-zero a s n new_data e =
    ap (λ k. splice a s k (region new_data s k)) e
    ∙ ap (λ k. take s a ++ [] ++ drop k a) back
    ∙ ap (λ front. front ++ drop s a) (append-nil (take s a))
    ∙ take-append-drop s a
  where
    back : s + 0 ≡ s
    back = omega arith
