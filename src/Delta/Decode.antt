-- ===== src/Delta/Decode.antt =====
-- `applyDelta` of src/util/delta.cpp, on fuel. `readIdx` is the place where the rest of the delta
-- begins, and the callbacks are a function that changes the size of a buffer.
use faabric.Prelude.{
  ℕ, zero, suc, ◌+◌, ◌-◌, ◌%◌, ◌^◌, Option, none, some, List, [], ◌∷◌, ◌++◌, ltb, ◌==◌,
  if◌then◌else◌, length, take, drop,
}
use faabric.Prelude.Int.{ℤ}
use faabric.Prelude.Results.{Result, ok, throws, ◌>>=◌}
use faabric.Delta.Bytes.{
  DeltaError, too_short, unsupported_version, out_of_range, zstd_failed, mismatched_sizes,
  undefined_behaviour, out_of_fuel, read_bytes_of,
}
use faabric.Delta.Format.{
  delta_protocol_version, DeltaCommand, command_of, region, xor_all, total_size,
  zstd_compressed_commands, delta_overwrite, delta_xor, end, unknown,
}

-- The zstd library: `ZSTD_compress` at a level, and `ZSTD_decompress` into a buffer of some size.
module _ (zstd_compress : ℤ → List ℕ → Option (List ℕ))
    (zstd_decompress : List ℕ → ℕ → Option (List ℕ)) where
  module _ (set_data_size : ℕ → List ℕ → List ℕ) where
    -- A write past the end of the data is undefined.
    unfoldable pub write_data : ℕ → List ℕ → List ℕ → Result DeltaError (List ℕ)
    write_data offset bytes buffer =
        if ltb (length buffer) (offset + length bytes)
        then throws undefined_behaviour
        else ok (take offset buffer ++ bytes ++ drop (offset + length bytes) buffer)

    unfoldable pub xor_data : ℕ → List ℕ → List ℕ → Result DeltaError (List ℕ)
    unfolding write_data
    xor_data offset bytes buffer =
        if ltb (length buffer) (offset + length bytes)
        then throws undefined_behaviour
        else write_data offset (xor_all bytes (region buffer offset (length bytes))) buffer

    -- The two tests at the start of `applyDelta`.
    unfoldable pub check_header :
        (List ℕ → List ℕ → Result DeltaError (List ℕ))
        → List ℕ
        → List ℕ
        → Result DeltaError (List ℕ)
    check_header run [] buffer = throws too_short
    check_header run (version ∷ []) buffer = throws too_short
    check_header run (version ∷ b ∷ rest) buffer =
        if version == delta_protocol_version
        then run (b ∷ rest) buffer
        else throws unsupported_version

    -- A command with offset, length and data.
    unfoldable pub run_region :
        (List ℕ → List ℕ → Result DeltaError (List ℕ))
        → (ℕ → List ℕ → Result DeltaError (List ℕ))
        → List ℕ
        → Result DeltaError (List ℕ)
    run_region run write rest = do
      (offset, rest1) ← read_bytes_of 4 rest
      (n, rest2) ← read_bytes_of 4 rest1
      (if ltb (length rest2) n
          then throws out_of_range
          else (write offset (take n rest2) >>= λ buffer. run (drop n rest2) buffer))

    -- A block of compressed commands; `readIdx + compressedSize` is a 64-bit sum.
    run_compressed :
        (List ℕ → List ℕ → Result DeltaError (List ℕ))
        → (List ℕ → List ℕ → Result DeltaError (List ℕ))
        → ℕ
        → List ℕ
        → List ℕ
        → Result DeltaError (List ℕ)
    run_compressed run nested delta_len rest buffer = do
      (compressed_size, rest1) ← read_bytes_of 8 rest
      (decompressed_size, rest2) ← read_bytes_of 8 rest1
      (if ltb delta_len ((delta_len - length rest2 + compressed_size) % 2 ^ 64)
          then throws out_of_range
          else if ltb (length rest2) compressed_size
          then throws undefined_behaviour
          else elim (zstd_decompress (take compressed_size rest2) decompressed_size) [
            | none ↦ throws zstd_failed
            | some commands ↦
                if length commands == decompressed_size
                then (nested commands buffer >>= λ buffer'.
                    run (drop compressed_size rest2) buffer')
                else throws mismatched_sizes
          ])

    -- One round of the loop: `run` goes on with the rest, `nested` is `applyDelta` of other commands.
    unfoldable pub run_command :
        (List ℕ → List ℕ → Result DeltaError (List ℕ))
        → (List ℕ → List ℕ → Result DeltaError (List ℕ))
        → ℕ
        → DeltaCommand
        → List ℕ
        → List ℕ
        → Result DeltaError (List ℕ)
    unfolding read_bytes_of write_data xor_data run_region run_compressed
    run_command run nested delta_len total_size rest buffer = do
      (size, rest1) ← read_bytes_of 4 rest
      run rest1 (set_data_size size buffer)
    run_command run nested delta_len zstd_compressed_commands rest buffer =
        run_compressed run nested delta_len rest buffer
    run_command run nested delta_len delta_overwrite rest buffer =
        run_region run (λ offset bytes. write_data offset bytes buffer) rest
    run_command run nested delta_len delta_xor rest buffer =
        run_region run (λ offset bytes. xor_data offset bytes buffer) rest
    run_command run nested delta_len end rest buffer = ok buffer
    run_command run nested delta_len unknown rest buffer = run rest buffer

    -- The loop over the commands.
    unfoldable pub run_commands : ℕ → ℕ → List ℕ → List ℕ → Result DeltaError (List ℕ)
    unfolding run_command check_header
    run_commands fuel delta_len [] buffer = ok buffer
    run_commands zero delta_len (cmd ∷ rest) buffer = throws out_of_fuel
    run_commands (suc fuel) delta_len (cmd ∷ rest) buffer =
        run_command (run_commands fuel delta_len)
          (λ commands. check_header (run_commands fuel (length commands)) commands) delta_len
          (command_of cmd) rest buffer

    unfoldable pub apply_delta : ℕ → List ℕ → List ℕ → Result DeltaError (List ℕ)
    unfolding run_commands check_header
    apply_delta fuel delta buffer = check_header (run_commands fuel (length delta)) delta buffer
