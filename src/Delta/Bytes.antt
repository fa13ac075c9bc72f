-- ===== src/Delta/Bytes.antt =====
-- The byte helpers of include/faabric/util/bytes.h on a little-endian machine, and `std::bit_xor` on
-- bytes. A byte is a number below 256. A place in a buffer is what is left of the buffer from there.
use native.Mathlib.Nat.{pow-zero, pow-suc}
use faabric.Prelude.{
  ℕ, zero, suc, ◌+◌, ◌*◌, ◌/◌, ◌%◌, ◌^◌, ◌<◌, ◌≡◌, refl, ap, ◌∙◌, List, [], ◌∷◌, ◌++◌, arith, ltb,
  if◌then◌else◌, length, take, drop,
}
use faabric.Prelude.Results.{Result, ok, throws}

pub data DeltaError : Type 0 where
  too_short : DeltaError
  unsupported_version : DeltaError
  out_of_range : DeltaError
  zstd_failed : DeltaError
  mismatched_sizes : DeltaError
  undefined_behaviour : DeltaError
  out_of_fuel : DeltaError

-- The low `k` bytes of a number, the lowest first.
unfoldable pub le_bytes : ℕ → ℕ → List ℕ
le_bytes zero v = []
le_bytes (suc k) v = v % 256 ∷ le_bytes k (v / 256)

unfoldable pub from_le : List ℕ → ℕ
from_le [] = 0
from_le (b ∷ bs) = b + 256 * from_le bs

-- `appendBytesOf(container, value)` for a value of `k` bytes.
unfoldable pub append_bytes_of : ℕ → List ℕ → ℕ → List ℕ
unfolding le_bytes
append_bytes_of k container value = container ++ le_bytes k value

-- `readBytesOf(container, offset, &value)` for a value of `k` bytes: the value and what follows it.
unfoldable pub read_bytes_of : ℕ → List ℕ → Result DeltaError (ℕ × List ℕ)
unfolding from_le
read_bytes_of k rest =
    if ltb (length rest) k then throws out_of_range else ok (from_le (take k rest), drop k rest)

-- The low `k` bits.
xor_bits : ℕ → ℕ → ℕ → ℕ
xor_bits zero a b = 0
xor_bits (suc k) a b = (a + b) % 2 + 2 * xor_bits k (a / 2) (b / 2)

-- `std::bit_xor<uint8_t>`
pub bit_xor : ℕ → ℕ → ℕ
unfolding xor_bits
bit_xor a b = xor_bits 8 a b

xor_bits-xor_bits : (k a b : ℕ) → a < 2 ^ k → xor_bits k (xor_bits k a b) b ≡ a
unfolding xor_bits
xor_bits-xor_bits zero a b h = omega (arith, pow-zero 2)
xor_bits-xor_bits (suc k) a b h =
    rw
      (ap (λ x. xor_bits k x (b / 2)) half
        ∙ xor_bits-xor_bits k (a / 2) (b / 2) (omega (arith, pow-suc 2 k)))
      (omega arith)
  where
    half : ((a + b) % 2 + 2 * xor_bits k (a / 2) (b / 2)) / 2 ≡ xor_bits k (a / 2) (b / 2)
    half = omega arith

pub length-le_bytes : (k v : ℕ) → length (le_bytes k v) ≡ k
unfolding le_bytes
length-le_bytes zero v = refl
length-le_bytes (suc k) v = ap suc (length-le_bytes k (v / 256))

pub from_le-le_bytes : (k v : ℕ) → v < 256 ^ k → from_le (le_bytes k v) ≡ v
unfolding le_bytes from_le
from_le-le_bytes zero v h = omega (arith, pow-zero 256)
from_le-le_bytes (suc k) v h =
    omega (arith, pow-suc 256 k, from_le-le_bytes k (v / 256) (omega (arith, pow-suc 256 k)))

-- Applying a byte twice gives the other byte back.
pub bit_xor-bit_xor : (a b : ℕ) → a < 256 → bit_xor (bit_xor a b) b ≡ a
unfolding bit_xor
bit_xor-bit_xor a b h = xor_bits-xor_bits 8 a b h
