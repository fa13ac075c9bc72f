-- ===== src/Scheduler/Minimise/Columns.antt =====
-- The columns of a decision that `addMessageInPosition` grows, seen at their final length.
use faabric.Prelude.{
  ℕ, zero, suc, ◌-◌, ◌<◌, ◌≤◌, ◌≡◌, refl, sym, ap, ◌∙◌, max, inl, inr, List, [], ◌∷◌, ◌++◌, arith,
  ltb, length, set, take, replicate, get_or, Bool-cases, length-set,
}
use faabric.Scheduler.Decision.{resize, put_column}

module _ {ℓ} {A : Type ℓ} where
  -- The list, extended to at least `n` entries.
  abbrev pub pad : ℕ → A → List A → List A
  pad zero a xs = xs
  pad (suc n) a [] = a ∷ pad n a []
  pad (suc n) a (x ∷ xs) = x ∷ pad n a xs

  length-pad : (n : ℕ) (a : A) (xs : List A) → length xs ≤ n → length (pad n a xs) ≡ n
  length-pad zero a [] h = refl
  length-pad zero a (x ∷ xs) h = absurd (omega arith)
  length-pad (suc n) a [] h = ap suc (length-pad n a [] (omega arith))
  length-pad (suc n) a (x ∷ xs) h = ap suc (length-pad n a xs (omega arith))

  pub pad-full : (n : ℕ) (a : A) (xs : List A) → n ≤ length xs → pad n a xs ≡ xs
  pad-full zero a xs h = refl
  pad-full (suc n) a [] h = absurd (omega arith)
  pad-full (suc n) a (x ∷ xs) h = ap (◌∷◌ x) (pad-full n a xs (omega arith))

  pub pad-nil : (n : ℕ) (a : A) → pad n a [] ≡ replicate n a
  pad-nil zero a = refl
  pad-nil (suc n) a = ap (◌∷◌ a) (pad-nil n a)

  pad-pad : (n k : ℕ) (a : A) (xs : List A) → k ≤ n → pad n a (pad k a xs) ≡ pad n a xs
  pad-pad n zero a xs h = refl
  pad-pad zero (suc k) a xs h = absurd (omega arith)
  pad-pad (suc n) (suc k) a [] h = ap (◌∷◌ a) (pad-pad n k a [] (omega arith))
  pad-pad (suc n) (suc k) a (x ∷ xs) h = ap (◌∷◌ x) (pad-pad n k a xs (omega arith))

  pad-set :
      (n i : ℕ) (a v : A) (xs : List A)
      → i < length xs
      → pad n a (set xs i v) ≡ set (pad n a xs) i v
  pad-set zero i a v xs h = refl
  pad-set (suc n) i a v [] h = absurd (omega arith)
  pad-set (suc n) zero a v (x ∷ xs) h = refl
  pad-set (suc n) (suc i) a v (x ∷ xs) h = ap (◌∷◌ x) (pad-set n i a v xs (omega arith))

  pub get_or-pad : (n i : ℕ) (a : A) (xs : List A) → get_or (pad n a xs) i a ≡ get_or xs i a
  get_or-pad zero i a xs = refl
  get_or-pad (suc n) zero a [] = refl
  get_or-pad (suc n) (suc i) a [] = get_or-pad n i a []
  get_or-pad (suc n) zero a (x ∷ xs) = refl
  get_or-pad (suc n) (suc i) a (x ∷ xs) = get_or-pad n i a xs

  resize-pad : (n : ℕ) (a : A) (xs : List A) → length xs ≤ n → resize n a xs ≡ pad n a xs
  unfolding resize
  resize-pad zero a [] h = refl
  resize-pad zero a (x ∷ xs) h = absurd (omega arith)
  resize-pad (suc n) a [] h =
      ap (λ k. replicate k a) (minus_zero (suc n)) ∙ ap (◌∷◌ a) (sym (pad-nil n a))
    where
      minus_zero : (m : ℕ) → m - 0 ≡ m
      minus_zero m = omega arith
  resize-pad (suc n) a (x ∷ xs) h =
      ap (λ k. x ∷ take n xs ++ replicate k a) (minus_suc n (length xs))
      ∙ ap (◌∷◌ x) (unfold resize in resize-pad n a xs (omega arith))
    where
      minus_suc : (m k : ℕ) → suc m - suc k ≡ m - k
      minus_suc m k = omega arith

  -- A write of `addMessageInPosition` is a write in the padded column.
  pub pad-put_column :
      (n size len i : ℕ) (a v : A) (xs : List A)
      → length xs ≡ len
      → size ≤ n
      → i < size
      → pad n a (put_column (ltb len size) size a i v xs) ≡ set (pad n a xs) i v
  unfolding put_column
  pad-put_column n size len i a v xs same h p = elim (Bool-cases (ltb len size)) [
    | inl grow ↦
        rw (grow, resize-pad size a xs (ground arith))
          (pad-set n i a v (pad size a xs) (rw (length-pad size a xs (ground arith)) p)
            ∙ ap (λ ys. set ys i v) (pad-pad n size a xs h))
    | inr fits ↦ rw fits (pad-set n i a v xs (ground arith))
  ]

  pub length-put_column :
      (size len i : ℕ) (a v : A) (xs : List A)
      → length xs ≡ len
      → length (put_column (ltb len size) size a i v xs) ≡ max len size
  unfolding put_column
  length-put_column size len i a v xs same = elim (Bool-cases (ltb len size)) [
    | inl grow ↦
        rw
          (
            grow,
            length-set (resize size a xs) i v,
            resize-pad size a xs (ground arith),
            length-pad size a xs (ground arith),
          )
          (ground arith)
    | inr fits ↦ rw (fits, length-set xs i v) (ground arith)
  ]
