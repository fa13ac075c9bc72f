-- ===== src/Delta/Tests.antt =====
-- Runs of the delta codec.
use faabric.Prelude.{
  ℕ, zero, suc, ◌-◌, ◌≤◌, ◌≡◌, refl, ap, true, false, Option, some, List, [], ◌∷◌, ◌++◌, arith,
  length, take, replicate, length-append, length-take, length-replicate,
}
use faabric.Prelude.Int.{ℤ, pos}
use faabric.Prelude.Results.{ok, ◌>>=◌}
use faabric.Delta.Bytes.{append_bytes_of, read_bytes_of, le_bytes, from_le}
use faabric.Delta.Format.{DeltaSettings}
use faabric.Delta.Encode.{
  serialize_delta, serialize_commands, encode_pages, encode_page, same_bytes,
}
use faabric.Delta.Decode.{apply_delta, run_commands, run_command, check_header}
use faabric.Delta.Roundtrip.{apply_delta-serialize_delta}

-- `std::vector<uint8_t>::resize`
abbrev set_size : ℕ → List ℕ → List ℕ
set_size n b = take n b ++ replicate (n - length b) 0

length-set_size : (n : ℕ) (b : List ℕ) → length (set_size n b) ≡ n
length-set_size n b = omega (
  arith,
  length-append (take n b) (replicate (n - length b) 0),
  length-take n b,
  length-replicate {A = ℕ} (n - length b) 0,
)

take-front :
    (n : ℕ) (xs ys : List ℕ) (k : ℕ) → k ≤ n → k ≤ length xs → take k (take n xs ++ ys) ≡ take k xs
take-front n xs ys zero h g = refl
take-front zero xs ys (suc k) h g = absurd (omega arith)
take-front (suc n) [] ys (suc k) h g = absurd (omega arith)
take-front (suc n) (x ∷ xs) ys (suc k) h g =
    ap (◌∷◌ x) (take-front n xs ys k (omega arith) (omega arith))

-- Stands in for the zstd library.
abbrev store : ℤ → List ℕ → Option (List ℕ)
store level bytes = some bytes

abbrev load : List ℕ → ℕ → Option (List ℕ)
load bytes size = some bytes

abbrev with_xor : DeltaSettings
with_xor = record {
  use_pages = false;
  page_size = 4096;
  xor_with_old = true;
  use_zstd = false;
  zstd_level = pos 1;
}

delta_example :
    (delta : List ℕ) × (serialize_delta store load with_xor (7 ∷ 9 ∷ []) (7 ∷ 200 ∷ 3 ∷ [])
      ≡ ok delta)
    × (apply_delta store load set_size 4 delta (7 ∷ 9 ∷ []) ≡ ok (7 ∷ 200 ∷ 3 ∷ []))
delta_example =
    apply_delta-serialize_delta store load set_size with_xor (7 ∷ 9 ∷ []) (7 ∷ 200 ∷ 3 ∷ []) 4
      length-set_size (λ n b k h g. take-front n b (replicate (n - length b) 0) k h g) refl refl
      (omega arith, (omega arith, (omega arith, tt))) (omega arith) (omega arith)

abbrev by_pages : DeltaSettings
by_pages = record with_xor { use_pages = true; page_size = 2 }

-- With pages, a second page that changes into the first page of the old data is left as it was.
stale_page :
    (serialize_delta store load by_pages (1 ∷ 2 ∷ 9 ∷ 9 ∷ []) (1 ∷ 2 ∷ 1 ∷ 2 ∷ []) >>= λ delta.
    apply_delta store load set_size 4 delta (1 ∷ 2 ∷ 9 ∷ 9 ∷ []))
    ≡ ok (1 ∷ 2 ∷ 9 ∷ 9 ∷ [])
unfolding serialize_delta serialize_commands encode_pages encode_page same_bytes append_bytes_of
    le_bytes apply_delta run_commands run_command check_header read_bytes_of from_le
stale_page = refl
