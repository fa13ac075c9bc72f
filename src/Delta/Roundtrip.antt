-- ===== src/Delta/Roundtrip.antt =====
-- `serializeDelta` followed by `applyDelta`, without pages and without compression.
use mathlib.Core.List.{append_assoc}
use faabric.Prelude.{
  ℕ, zero, suc, ◌+◌, ◌^◌, ◌<◌, ◌≤◌, ◌≡◌, refl, sym, ap, ap₂, ◌∙◌, false, Option, List, [], ◌∷◌,
  ◌++◌, arith, length, take,
}
use faabric.Prelude.Int.{ℤ}
use faabric.Prelude.Results.{ok}
use faabric.Delta.Bytes.{le_bytes, read_bytes_of, append_bytes_of}
use faabric.Delta.Buffer.{AreBytes, read_bytes_of-le_bytes}
use faabric.Delta.Format.{DeltaSettings}
use faabric.Delta.Encode.{encode_whole, serialize_commands, serialize_delta}
use faabric.Delta.Decode.{apply_delta, check_header, run_command, run_commands}
use faabric.Delta.Apply.{more, more_lem}
use faabric.Delta.Regions.{Ran}
use faabric.Delta.Whole.{whole}

module _ (zstd_compress : ℤ → List ℕ → Option (List ℕ))
    (zstd_decompress : List ℕ → ℕ → Option (List ℕ)) (set_data_size : ℕ → List ℕ → List ℕ) where
  serialize_delta_lem :
      (cfg : DeltaSettings) (old_data new_data : List ℕ)
      → cfg.use_pages ≡ false
      → cfg.use_zstd ≡ false
      → serialize_delta zstd_compress zstd_decompress cfg old_data new_data
        ≡ ok (encode_whole cfg old_data new_data (1 ∷ 0 ∷ le_bytes 4 (length new_data)) ++ 254 ∷ [])
  unfolding serialize_delta serialize_commands append_bytes_of
  serialize_delta_lem cfg old_data new_data e f = rw (e, f) refl

  run_end :
      (fuel delta_len : ℕ) (b : List ℕ)
      → 0 < fuel
      → run_commands zstd_compress zstd_decompress set_data_size fuel delta_len (254 ∷ []) b ≡ ok b
  unfolding run_commands run_command
  run_end zero delta_len b h = absurd (omega arith)
  run_end (suc fuel) delta_len b h = refl

  run_size :
      (fuel delta_len n : ℕ) (rest b : List ℕ)
      → n < 256 ^ 4
      → run_commands zstd_compress zstd_decompress set_data_size
          (suc fuel)
          delta_len
          (0 ∷ (le_bytes 4 n ++ rest))
          b
        ≡ run_commands zstd_compress zstd_decompress set_data_size fuel delta_len rest
            (set_data_size n b)
  unfolding run_commands run_command read_bytes_of le_bytes
  run_size fuel delta_len n rest b h = rw (read_bytes_of-le_bytes 4 n rest h) refl

  apply_header :
      (fuel : ℕ) (rest b : List ℕ)
      → apply_delta zstd_compress zstd_decompress set_data_size fuel (1 ∷ 0 ∷ rest) b
        ≡ run_commands zstd_compress zstd_decompress set_data_size fuel
            (length (1 ∷ 0 ∷ rest))
            (0 ∷ rest)
            b
  unfolding apply_delta check_header
  apply_header fuel rest b = refl

  applied :
      (fuel n k : ℕ) (cmds old_data new_data : List ℕ)
      → n < 256 ^ 4
      → Ran zstd_compress zstd_decompress set_data_size k cmds (set_data_size n old_data) new_data
      → k + 2 ≤ fuel
      → apply_delta zstd_compress zstd_decompress set_data_size fuel
          ((1 ∷ 0 ∷ le_bytes 4 n) ++ cmds ++ 254 ∷ [])
          old_data
        ≡ ok new_data
  applied fuel n k cmds old_data new_data small r h =
      let (left, e, sum) = more_lem (suc k) fuel (omega (arith, h)) in
      let delta_len = length ((1 ∷ 0 ∷ le_bytes 4 n) ++ cmds ++ 254 ∷ []) in
      apply_header fuel (le_bytes 4 n ++ cmds ++ 254 ∷ []) old_data
      ∙ ap₂
          (λ f cs.
            run_commands zstd_compress zstd_decompress set_data_size f delta_len (0 ∷ cs) old_data)
          (sym e) (append_assoc (le_bytes 4 n) cmds (254 ∷ []))
      ∙ run_size (more k left) delta_len n (cmds ++ 254 ∷ []) old_data small
      ∙ r left delta_len (254 ∷ [])
      ∙ run_end left delta_len new_data (omega (arith, h, sum))

  -- For settings with no pages and no compression, with or without XOR, and new data of bytes that
  -- are fewer than 2^32, `serializeDelta` makes a delta, and `applyDelta` of it to the old data gives
  -- the new data, with fuel for 4 commands. The callback that sets the size is taken to give a buffer
  -- of that size that agrees with the one before as far as both go.
  pub apply_delta-serialize_delta :
      (cfg : DeltaSettings) (old_data new_data : List ℕ) (fuel : ℕ)
      → ((n : ℕ) (b : List ℕ) → length (set_data_size n b) ≡ n)
      → ((n : ℕ) (b : List ℕ) (k : ℕ)
          → k ≤ n
          → k ≤ length b
          → take k (set_data_size n b) ≡ take k b)
      → cfg.use_pages ≡ false
      → cfg.use_zstd ≡ false
      → AreBytes new_data
      → length new_data < 2 ^ 32
      → 4 ≤ fuel
      → (delta : List ℕ) × (serialize_delta zstd_compress zstd_decompress cfg old_data new_data
          ≡ ok delta)
        × (apply_delta zstd_compress zstd_decompress set_data_size fuel delta old_data
            ≡ ok new_data)
  apply_delta-serialize_delta cfg old_data new_data fuel sized keeps no_pages no_zstd b small
        enough =
      let n = length new_data in
      let a = set_data_size n old_data in
      let (cmds, k, writes, r, h) =
        whole zstd_compress zstd_decompress set_data_size cfg old_data new_data a b
          (omega (arith, small)) (sized n old_data) (keeps n old_data) in
      (
        _,
        serialize_delta_lem cfg old_data new_data no_pages no_zstd,
        ap
              (λ x.
                apply_delta zstd_compress zstd_decompress set_data_size fuel (x ++ 254 ∷ [])
                  old_data)
              (writes (1 ∷ 0 ∷ le_bytes 4 n))
            ∙ applied fuel n k cmds old_data new_data (omega (arith, small)) r
                (omega (arith, h, enough)),
      )
