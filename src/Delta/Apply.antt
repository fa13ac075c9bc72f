-- ===== src/Delta/Apply.antt =====
-- What `applyDelta` does with the commands that `serializeDelta` writes without pages.
use mathlib.Core.List.{append_assoc}
use faabric.Prelude.{
  ℕ, zero, suc, ◌+◌, ◌^◌, ◌<◌, ◌≤◌, ◌≡◌, refl, sym, ap, ◌∙◌, false, Option, List, [], ◌∷◌, ◌++◌,
  arith, ltb, length, take, drop, length-append, length-take, length-drop,
}
use faabric.Prelude.Int.{ℤ}
use faabric.Prelude.Results.{Result, ok}
use faabric.Delta.Bytes.{DeltaError, le_bytes, read_bytes_of, append_bytes_of}
use faabric.Delta.Buffer.{
  take-append, drop-append, read_bytes_of-le_bytes, AreBytes, length-xor_all, xor_all-xor_all,
}
use faabric.Delta.Format.{DeltaCommand, delta_overwrite, delta_xor, code, region, xor_all}
use faabric.Delta.Encode.{encode_region}
use faabric.Delta.Decode.{write_data, xor_data, run_region, run_command, run_commands}

-- The bytes of a command.
pub command : DeltaCommand → ℕ → ℕ → List ℕ → List ℕ
command cmd start n bytes = code cmd ∷ le_bytes 4 start ++ le_bytes 4 n ++ bytes

pub encode_region_lem :
    (cmd : DeltaCommand) (start n : ℕ) (bytes outb : List ℕ)
    → encode_region cmd start n bytes outb ≡ outb ++ command cmd start n bytes
unfolding encode_region append_bytes_of command
encode_region_lem cmd start n bytes outb =
    append_assoc ((outb ++ code cmd ∷ []) ++ le_bytes 4 start) (le_bytes 4 n) bytes
    ∙ append_assoc (outb ++ code cmd ∷ []) (le_bytes 4 start) (le_bytes 4 n ++ bytes)
    ∙ append_assoc outb (code cmd ∷ []) (le_bytes 4 start ++ le_bytes 4 n ++ bytes)

-- `k` more rounds than `fuel`.
abbrev pub more : ℕ → ℕ → ℕ
more zero fuel = fuel
more (suc k) fuel = suc (more k fuel)

pub more_lem : (k fuel : ℕ) → k ≤ fuel → (left : ℕ) × (more k left ≡ fuel) × (left + k ≡ fuel)
more_lem zero fuel h = (fuel, refl, omega arith)
more_lem (suc k) zero h = absurd (omega arith)
more_lem (suc k) (suc fuel) h =
    let (left, e, sum) = more_lem k fuel (omega arith) in (left, ap suc e, omega (arith, sum))

pub more-more : (k j fuel : ℕ) → more (more k j) fuel ≡ more k (more j fuel)
more-more zero j fuel = refl
more-more (suc k) j fuel = ap suc (more-more k j fuel)

pub more_sum : (k j : ℕ) → more k j ≡ k + j
more_sum zero j = omega arith
more_sum (suc k) j = omega (arith, more_sum k j)

module _ (zstd_compress : ℤ → List ℕ → Option (List ℕ))
    (zstd_decompress : List ℕ → ℕ → Option (List ℕ)) (set_data_size : ℕ → List ℕ → List ℕ) where
  -- The commands `cmds` take the buffer `a` to `b` in `k` rounds, whatever comes after them.
  abbrev pub Runs : ℕ → List ℕ → List ℕ → List ℕ → Type 0
  Runs k cmds a b =
      (fuel delta_len : ℕ) (rest : List ℕ)
      → run_commands zstd_compress zstd_decompress set_data_size (more k fuel) delta_len
          (cmds ++ rest) a
        ≡ run_commands zstd_compress zstd_decompress set_data_size fuel delta_len rest b

  abbrev pub written : List ℕ → ℕ → List ℕ → List ℕ
  written a start bytes = take start a ++ bytes ++ drop (start + length bytes) a

  run_region_lem :
      (run : List ℕ → List ℕ → Result DeltaError (List ℕ))
      (write : ℕ → List ℕ → Result DeltaError (List ℕ)) (start : ℕ) (bytes rest b : List ℕ)
      → start < 256 ^ 4
      → length bytes < 256 ^ 4
      → write start bytes ≡ ok b
      → run_region zstd_compress zstd_decompress set_data_size run write
          (le_bytes 4 start ++ le_bytes 4 (length bytes) ++ bytes ++ rest)
        ≡ run rest b
  unfolding run_region read_bytes_of le_bytes
  run_region_lem run write start bytes rest b h k e =
      rw
        (
          read_bytes_of-le_bytes 4 start (le_bytes 4 (length bytes) ++ bytes ++ rest) h,
          read_bytes_of-le_bytes 4 (length bytes) (bytes ++ rest) k,
          enough,
          take-append bytes rest (length bytes) refl,
          drop-append bytes rest (length bytes) refl,
          e,
        )
        refl
    where
      enough : ltb (length (bytes ++ rest)) (length bytes) ≡ false
      enough = ground (arith, length-append bytes rest)

  shape :
      (start : ℕ) (bytes rest : List ℕ)
      → (le_bytes 4 start ++ le_bytes 4 (length bytes) ++ bytes) ++ rest
        ≡ le_bytes 4 start ++ le_bytes 4 (length bytes) ++ bytes ++ rest
  unfolding le_bytes
  shape start bytes rest =
      append_assoc (le_bytes 4 start) (le_bytes 4 (length bytes) ++ bytes) rest
      ∙ ap (λ cs. le_bytes 4 start ++ cs) (append_assoc (le_bytes 4 (length bytes)) bytes rest)

  write_data_lem :
      (a : List ℕ) (start : ℕ) (bytes : List ℕ)
      → start + length bytes ≤ length a
      → write_data zstd_compress zstd_decompress set_data_size start bytes a
        ≡ ok (written a start bytes)
  unfolding write_data
  write_data_lem a start bytes room = rw fits refl
    where
      fits : ltb (length a) (start + length bytes) ≡ false
      fits = ground (arith, room)

  xor_data_lem :
      (a : List ℕ) (start : ℕ) (bytes : List ℕ)
      → start + length bytes ≤ length a
      → xor_data zstd_compress zstd_decompress set_data_size start bytes a
        ≡ write_data zstd_compress zstd_decompress set_data_size start
            (xor_all bytes (region a start (length bytes)))
            a
  unfolding xor_data
  xor_data_lem a start bytes room = rw fits refl
    where
      fits : ltb (length a) (start + length bytes) ≡ false
      fits = ground (arith, room)

  pub Runs-overwrite :
      (start : ℕ) (bytes a : List ℕ)
      → start < 256 ^ 4
      → length bytes < 256 ^ 4
      → start + length bytes ≤ length a
      → Runs 1 (command delta_overwrite start (length bytes) bytes) a (written a start bytes)
  unfolding run_commands run_command command
  Runs-overwrite start bytes a h k room fuel delta_len rest =
      ap
        (λ cs.
          run_region zstd_compress zstd_decompress set_data_size go
            (λ offset bs. write_data zstd_compress zstd_decompress set_data_size offset bs a) cs)
        (shape start bytes rest)
      ∙ run_region_lem go
          (λ offset bs. write_data zstd_compress zstd_decompress set_data_size offset bs a) start
          bytes rest (written a start bytes) h k (write_data_lem a start bytes room)
    where
      go : List ℕ → List ℕ → Result DeltaError (List ℕ)
      go = run_commands zstd_compress zstd_decompress set_data_size fuel delta_len

  -- The bytes that `delta_xor` carries give `bytes` on a buffer that has `before` there.
  pub Runs-xor :
      (start : ℕ) (bytes a : List ℕ)
      → start < 256 ^ 4
      → length bytes < 256 ^ 4
      → start + length bytes ≤ length a
      → AreBytes bytes
      → Runs 1
          (command delta_xor start (length bytes) (xor_all bytes (region a start (length bytes))))
          a
          (written a start bytes)
  unfolding run_commands run_command command
  Runs-xor start bytes a h k room b fuel delta_len rest =
      ap
        (λ n.
          run_region zstd_compress zstd_decompress set_data_size go write
            ((le_bytes 4 start ++ le_bytes 4 n ++ carried) ++ rest))
        (sym same_length)
      ∙ ap (λ cs. run_region zstd_compress zstd_decompress set_data_size go write cs)
          (shape start carried rest)
      ∙ run_region_lem go write start carried rest (written a start bytes) h
          (omega (arith, same_length))
          (xor_data_lem a start carried (omega (arith, room, same_length))
            ∙ ap (λ bs. write_data zstd_compress zstd_decompress set_data_size start bs a) twice
            ∙ write_data_lem a start bytes room)
    where
      go : List ℕ → List ℕ → Result DeltaError (List ℕ)
      go = run_commands zstd_compress zstd_decompress set_data_size fuel delta_len

      write : ℕ → List ℕ → Result DeltaError (List ℕ)
      write offset bs = xor_data zstd_compress zstd_decompress set_data_size offset bs a

      before : List ℕ
      before = region a start (length bytes)

      carried : List ℕ
      carried = xor_all bytes before

      before_length : length bytes ≡ length before
      before_length = omega (arith, length-take (length bytes) (drop start a), length-drop start a)

      same_length : length carried ≡ length bytes
      same_length = length-xor_all bytes before before_length

      twice : xor_all carried (region a start (length carried)) ≡ bytes
      twice =
          ap (λ n. xor_all carried (region a start n)) same_length
          ∙ xor_all-xor_all bytes before b before_length
