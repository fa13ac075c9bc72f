-- ===== src/Delta/Buffer.antt =====
-- Buffers after a write, and commands read back.
use faabric.Prelude.{
  ℕ, zero, suc, ◌^◌, ◌<◌, ◌≡◌, refl, ap, ap₂, false, List, [], ◌∷◌, ◌++◌, arith, ltb, length, take,
  drop, length-append,
}
use faabric.Prelude.Results.{ok}
use faabric.Delta.Bytes.{
  le_bytes, read_bytes_of, length-le_bytes, from_le-le_bytes, bit_xor-bit_xor,
}
use faabric.Delta.Format.{xor_all}

pub take-append : (xs ys : List ℕ) (n : ℕ) → length xs ≡ n → take n (xs ++ ys) ≡ xs
take-append [] ys zero e = refl
take-append [] ys (suc n) e = absurd (omega arith)
take-append (x ∷ xs) ys zero e = absurd (omega arith)
take-append (x ∷ xs) ys (suc n) e = ap (◌∷◌ x) (take-append xs ys n (omega arith))

pub drop-append : (xs ys : List ℕ) (n : ℕ) → length xs ≡ n → drop n (xs ++ ys) ≡ ys
drop-append [] ys zero e = refl
drop-append [] ys (suc n) e = absurd (omega arith)
drop-append (x ∷ xs) ys zero e = absurd (omega arith)
drop-append (x ∷ xs) ys (suc n) e = drop-append xs ys n (omega arith)

-- A number that fits is read back.
pub read_bytes_of-le_bytes :
    (k v : ℕ) (rest : List ℕ) → v < 256 ^ k → read_bytes_of k (le_bytes k v ++ rest) ≡ ok (v, rest)
unfolding read_bytes_of
read_bytes_of-le_bytes k v rest h =
    rw
      (
        enough,
        take-append (le_bytes k v) rest k (length-le_bytes k v),
        drop-append (le_bytes k v) rest k (length-le_bytes k v),
        from_le-le_bytes k v h,
      )
      refl
  where
    enough : ltb (length (le_bytes k v ++ rest)) k ≡ false
    enough = ground (arith, length-append (le_bytes k v) rest, length-le_bytes k v)

-- Bytes that are numbers below 256.
abbrev pub AreBytes : List ℕ → Type 0
AreBytes [] = Unit {0}
AreBytes (b ∷ bs) = (b < 256) × AreBytes bs

pub take-AreBytes : (n : ℕ) (bs : List ℕ) → AreBytes bs → AreBytes (take n bs)
take-AreBytes zero bs a = tt
take-AreBytes (suc n) [] a = tt
take-AreBytes (suc n) (b ∷ bs) (h, a) = (h, take-AreBytes n bs a)

pub length-xor_all : (xs ys : List ℕ) → length xs ≡ length ys → length (xor_all xs ys) ≡ length xs
unfolding xor_all
length-xor_all [] ys e = refl
length-xor_all (x ∷ xs) [] e = absurd (omega arith)
length-xor_all (x ∷ xs) (y ∷ ys) e = ap suc (length-xor_all xs ys (omega arith))

-- Applying the same bytes twice gives the bytes back.
pub xor_all-xor_all :
    (xs ys : List ℕ) → AreBytes xs → length xs ≡ length ys → xor_all (xor_all xs ys) ys ≡ xs
unfolding xor_all
xor_all-xor_all [] ys a e = refl
xor_all-xor_all (x ∷ xs) [] a e = absurd (omega arith)
xor_all-xor_all (x ∷ xs) (y ∷ ys) (h, a) e =
    ap₂ ◌∷◌ (bit_xor-bit_xor x y h) (xor_all-xor_all xs ys a (omega arith))
