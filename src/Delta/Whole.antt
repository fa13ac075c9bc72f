-- ===== src/Delta/Whole.antt =====
-- What `serializeDelta` writes without pages, after the header.
use mathlib.Core.List.{append_assoc}
use mathlib.Core.Path.{subst}
use faabric.Prelude.{
  ℕ, ◌+◌, ◌-◌, ◌^◌, ◌<◌, ◌≤◌, ◌≡◌, refl, sym, ap, ap₂, ◌∙◌, inl, inr, Option, List, ◌++◌, arith,
  leb, length, take, take_all, Bool-cases,
}
use faabric.Prelude.Int.{ℤ}
use faabric.Delta.Buffer.{AreBytes, take-AreBytes}
use faabric.Delta.Format.{DeltaSettings, region}
use faabric.Delta.Encode.{encode_changed_region, encode_new_region, encode_whole}
use faabric.Delta.Decode.{run_commands}
use faabric.Delta.Apply.{more, more-more, more_sum}
use faabric.Delta.Splice.{splice, length-region, length-splice, take-splice}
use faabric.Delta.Regions.{Ran, encode_new_region-Encodes, encode_changed_region-Encodes}

module _ (zstd_compress : ℤ → List ℕ → Option (List ℕ))
    (zstd_decompress : List ℕ → ℕ → Option (List ℕ)) (set_data_size : ℕ → List ℕ → List ℕ) where
  Ran-append :
      (k j : ℕ) (c1 c2 a b c : List ℕ)
      → Ran zstd_compress zstd_decompress set_data_size k c1 a b
      → Ran zstd_compress zstd_decompress set_data_size j c2 b c
      → Ran zstd_compress zstd_decompress set_data_size (more k j) (c1 ++ c2) a c
  Ran-append k j c1 c2 a b c r1 r2 fuel delta_len rest =
      ap₂ (λ n cs. run_commands zstd_compress zstd_decompress set_data_size n delta_len cs a)
        (more-more k j fuel) (append_assoc c1 c2 rest)
      ∙ r1 (more j fuel) delta_len (c2 ++ rest)
      ∙ r2 fuel delta_len rest

  -- `set_data_size` gives a buffer of that size, which agrees with the old one as far as both go.
  module _ (cfg : DeltaSettings) (old_data new_data a : List ℕ) (b : AreBytes new_data)
      (small : length new_data < 256 ^ 4) (sized : length a ≡ length new_data)
      (keeps : (k : ℕ)
        → k ≤ length new_data
        → k ≤ length old_data
        → take k a ≡ take k old_data) where
    abbrev WholeEncodes : (List ℕ → List ℕ) → Type 0
    WholeEncodes encode =
        (cmds : List ℕ) × (k : ℕ) × ((outb : List ℕ) → encode outb ≡ outb ++ cmds)
        × Ran zstd_compress zstd_decompress set_data_size k cmds a new_data
        × (k ≤ 2)

    all_taken :
        (xs : List ℕ) (n : ℕ)
        → length xs ≡ n
        → n ≡ length new_data
        → take n xs ≡ take n new_data
        → xs ≡ new_data
    all_taken xs n e e' same =
        sym (take_all n xs (omega (arith, e))) ∙ same ∙ take_all n new_data (omega (arith, e'))

    front :
        (o : ℕ)
        → o ≤ length new_data
        → take o (splice a 0 o (region new_data 0 o)) ≡ take o new_data
    front o h =
        subst (λ k. take k (splice a 0 o (region new_data 0 o)) ≡ take k new_data) zero_plus
          (take-splice a new_data 0 o refl (omega (arith, h)))
      where
        zero_plus : 0 + o ≡ o
        zero_plus = omega arith

    whole_grown :
        length old_data ≤ length new_data
        → WholeEncodes (λ outb.
          encode_new_region new_data
            (length old_data)
            (length new_data - length old_data)
            (encode_changed_region cfg old_data new_data 0 (length old_data) outb))
    whole_grown le =
        let o = length old_data in
        let n = length new_data - o in
        let (c1, k1, w1, r1, h1) =
          encode_changed_region-Encodes zstd_compress zstd_decompress set_data_size cfg old_data
            new_data a 0 o (omega (arith, le)) (omega (arith, le, sized)) (omega (arith, le, small))
            (take-AreBytes o new_data b) (keeps o le (omega arith)) in
        let a1 = splice a 0 o (region new_data 0 o) in
        let len1 : length a1 ≡ length a =
          length-splice a (region new_data 0 o) 0 o (length-region new_data 0 o (omega (arith, le)))
            (omega (arith, le, sized)) in
        let (c2, k2, w2, r2, h2) =
          encode_new_region-Encodes zstd_compress zstd_decompress set_data_size cfg old_data
            new_data a1 o n (omega (arith, le)) (omega (arith, le, len1, sized))
            (omega (arith, le, small)) in
        (
          c1 ++ c2,
          more k1 k2,
          (λ outb.
              w2 (encode_changed_region cfg old_data new_data 0 o outb)
              ∙ ap (λ x. x ++ c2) (w1 outb)
              ∙ append_assoc outb c1 c2),
          Ran-append k1 k2 c1 c2 a a1 new_data r1 (
              subst (λ z. Ran zstd_compress zstd_decompress set_data_size k2 c2 a1 z)
                (all_taken (splice a1 o n (region new_data o n)) (o + n)
                  (omega (
                    arith,
                    le,
                    len1,
                    sized,
                    length-splice a1 (region new_data o n) o n
                        (length-region new_data o n (omega (arith, le)))
                        (omega (arith, le, len1, sized)),
                  ))
                  (omega (arith, le))
                  (take-splice a1 new_data o n (front o (omega (arith, le))) (omega (arith, le))))
                r2),
          omega (arith, more_sum k1 k2, h1, h2),
        )

    whole_shrunk :
        length new_data ≤ length old_data
        → WholeEncodes (encode_changed_region cfg old_data new_data 0 (length new_data))
    whole_shrunk le =
        let n = length new_data in
        let (c1, k1, w1, r1, h1) =
          encode_changed_region-Encodes zstd_compress zstd_decompress set_data_size cfg old_data
            new_data a 0 n (omega arith) (omega (arith, sized)) (omega (arith, small))
            (take-AreBytes n new_data b) (keeps n (omega arith) le) in
        (
          c1,
          k1,
          w1,
          subst (λ z. Ran zstd_compress zstd_decompress set_data_size k1 c1 a z)
              (all_taken (splice a 0 n (region new_data 0 n)) n
                (omega (
                  arith,
                  sized,
                  length-splice a (region new_data 0 n) 0 n
                      (length-region new_data 0 n (omega arith)) (omega (arith, sized)),
                ))
                refl (front n (omega arith)))
              r1,
          omega (arith, h1),
        )

    pub whole : WholeEncodes (encode_whole cfg old_data new_data)
    unfolding encode_whole
    whole = elim (Bool-cases (leb (length old_data) (length new_data))) [
      | inl grown ↦ rw grown (whole_grown (ground (arith, grown)))
      | inr shrunk ↦ rw shrunk (whole_shrunk (ground (arith, shrunk)))
    ]
