-- ===== src/Delta/Regions.antt =====
-- What the encoding of one region writes, and what `applyDelta` does with it.
use mathlib.Core.List.{append-nil}
use mathlib.Core.Path.{subst}
use faabric.Prelude.{
  ℕ, ◌+◌, ◌^◌, ◌<◌, ◌≤◌, ◌≡◌, refl, sym, ap, ◌∙◌, inl, inr, Option, List, [], ◌++◌, arith, ◌==◌,
  length, Bool-cases,
}
use faabric.Prelude.Int.{ℤ}
use faabric.Delta.Buffer.{AreBytes}
use faabric.Delta.Format.{DeltaSettings, delta_overwrite, delta_xor, region, xor_all}
use faabric.Delta.Encode.{encode_changed_region, encode_new_region}
use faabric.Delta.Decode.{run_commands}
use faabric.Delta.Apply.{command, encode_region_lem, Runs, Runs-overwrite, Runs-xor}
use faabric.Delta.Splice.{splice, length-region, splice-zero}

module _ (zstd_compress : ℤ → List ℕ → Option (List ℕ))
    (zstd_decompress : List ℕ → ℕ → Option (List ℕ)) (set_data_size : ℕ → List ℕ → List ℕ) where
  abbrev pub Ran : ℕ → List ℕ → List ℕ → List ℕ → Type 0
  Ran = Runs zstd_compress zstd_decompress set_data_size

  -- What `encode` writes takes the buffer `a` to `b` in at most one round.
  abbrev Encodes : (List ℕ → List ℕ) → List ℕ → List ℕ → Type 0
  Encodes encode a b =
      (cmds : List ℕ) × (k : ℕ) × ((outb : List ℕ) → encode outb ≡ outb ++ cmds)
      × Ran k cmds a b
      × (k ≤ 1)

  Encodes-nothing :
      (encode : List ℕ → List ℕ) (a b : List ℕ)
      → ((outb : List ℕ) → encode outb ≡ outb)
      → a ≡ b
      → Encodes encode a b
  Encodes-nothing encode a b same e = (
    [],
    0,
    (λ outb. same outb ∙ sym (append-nil outb)),
    (λ fuel delta_len rest.
        ap (run_commands zstd_compress zstd_decompress set_data_size fuel delta_len rest) e),
    omega arith,
  )

  module _ (cfg : DeltaSettings) (old_data new_data a : List ℕ) (s n : ℕ)
      (in_new : s + n ≤ length new_data) (in_buffer : s + n ≤ length a)
      (small : s + n < 256 ^ 4) where
    abbrev bytes : List ℕ
    bytes = region new_data s n

    length-bytes : length bytes ≡ n
    length-bytes = length-region new_data s n in_new

    overwrites : Ran 1 (command delta_overwrite s n bytes) a (splice a s n bytes)
    overwrites =
        subst (λ m. Ran 1 (command delta_overwrite s m bytes) a (splice a s m bytes)) length-bytes
          (Runs-overwrite zstd_compress zstd_decompress set_data_size s bytes a
            (omega (arith, small)) (omega (arith, small, length-bytes))
            (omega (arith, in_buffer, length-bytes)))

    xors :
        AreBytes bytes
        → region a s n ≡ region old_data s n
        → Ran 1 (command delta_xor s n (xor_all bytes (region old_data s n))) a (splice a s n bytes)
    xors b e =
        subst
          (λ before. Ran 1 (command delta_xor s n (xor_all bytes before)) a (splice a s n bytes)) e
          (subst
            (λ m.
              Ran 1 (command delta_xor s m (xor_all bytes (region a s m))) a (splice a s m bytes))
            length-bytes
            (Runs-xor zstd_compress zstd_decompress set_data_size s bytes a (omega (arith, small))
              (omega (arith, small, length-bytes)) (omega (arith, in_buffer, length-bytes)) b))

    pub encode_new_region-Encodes : Encodes (encode_new_region new_data s n) a (splice a s n bytes)
    unfolding encode_new_region
    encode_new_region-Encodes = elim (Bool-cases (n == 0)) [
      | inl none_left ↦
          Encodes-nothing (encode_new_region new_data s n) a (splice a s n bytes)
            (λ outb. rw none_left refl)
            (sym (splice-zero a s n new_data (ground (arith, none_left))))
      | inr some_left ↦ (
        command delta_overwrite s n bytes,
        1,
        (λ outb. rw some_left (encode_region_lem delta_overwrite s n bytes outb)),
        overwrites,
        omega arith,
      )
    ]

    pub encode_changed_region-Encodes :
        AreBytes bytes
        → region a s n ≡ region old_data s n
        → Encodes (encode_changed_region cfg old_data new_data s n) a (splice a s n bytes)
    unfolding encode_changed_region
    encode_changed_region-Encodes b e = elim (Bool-cases (n == 0)) [
      | inl none_left ↦
          Encodes-nothing (encode_changed_region cfg old_data new_data s n) a (splice a s n bytes)
            (λ outb. rw none_left refl)
            (sym (splice-zero a s n new_data (ground (arith, none_left))))
      | inr some_left ↦ elim (Bool-cases cfg.xor_with_old) [
        | inl with_old ↦ (
          command delta_xor s n (xor_all bytes (region old_data s n)),
          1,
          (λ outb.
              rw (some_left, with_old)
                (encode_region_lem delta_xor s n (xor_all bytes (region old_data s n)) outb)),
          xors b e,
          omega arith,
        )
        | inr without ↦ (
          command delta_overwrite s n bytes,
          1,
          (λ outb. rw (some_left, without) (encode_region_lem delta_overwrite s n bytes outb)),
          overwrites,
          omega arith,
        )
      ]
    ]
