-- ===== src/Delta/Encode.antt =====
-- `serializeDelta` of src/util/delta.cpp. The loop over the pages runs on fuel.
use faabric.Prelude.{
  ℕ, zero, suc, ◌+◌, ◌-◌, min, Bool, true, false, ◌&&◌, not, Option, none, some, List, [], ◌∷◌,
  ◌++◌, ltb, leb, ◌==◌, if◌then◌else◌, length,
}
use faabric.Prelude.Int.{ℤ}
use faabric.Prelude.Results.{Result, ok, throws, ◌>>=◌}
use faabric.Delta.Bytes.{DeltaError, zstd_failed, undefined_behaviour, out_of_fuel, append_bytes_of}
use faabric.Delta.Format.{
  DeltaSettings, delta_protocol_version, DeltaCommand, code, region, xor_all, total_size,
  zstd_compressed_commands, delta_overwrite, delta_xor, end,
}

-- A command with offset, length and data. The low four bytes of a number are its `uint32_t`.
unfoldable pub encode_region : DeltaCommand → ℕ → ℕ → List ℕ → List ℕ → List ℕ
unfolding append_bytes_of
encode_region cmd start n bytes outb =
    append_bytes_of 4 (append_bytes_of 4 (outb ++ code cmd ∷ []) start) n ++ bytes

unfoldable pub encode_changed_region : DeltaSettings → List ℕ → List ℕ → ℕ → ℕ → List ℕ → List ℕ
unfolding encode_region xor_all
encode_changed_region cfg old_data new_data start_byte new_length outb =
    if new_length == 0
    then outb
    else if cfg.xor_with_old
    then encode_region delta_xor start_byte new_length
        (xor_all (region new_data start_byte new_length) (region old_data start_byte new_length))
        outb
    else encode_region delta_overwrite start_byte new_length (region new_data start_byte new_length)
        outb

unfoldable pub encode_new_region : List ℕ → ℕ → ℕ → List ℕ → List ℕ
unfolding encode_region
encode_new_region new_data new_start new_length outb =
    if new_length == 0
    then outb
    else encode_region delta_overwrite new_start new_length (region new_data new_start new_length)
        outb

unfoldable pub same_bytes : List ℕ → List ℕ → Bool
same_bytes [] ys = true
same_bytes (x ∷ xs) [] = false
same_bytes (x ∷ xs) (y ∷ ys) = (x == y) && same_bytes xs ys

any_non_zero : List ℕ → Bool
any_non_zero [] = false
any_non_zero (x ∷ xs) = if x == 0 then any_non_zero xs else true

-- One round of the loop over the pages. As in the source, a page is compared with the first page of
-- the old data. The scan for a byte that is not 0 goes up to the end of the page: past the data that
-- is undefined.
unfoldable pub encode_page :
    DeltaSettings → List ℕ → List ℕ → ℕ → List ℕ → Result DeltaError (List ℕ)
unfolding encode_changed_region encode_new_region same_bytes any_non_zero
encode_page cfg old_data new_data page_start outb =
    let page_end = page_start + cfg.page_size in
    let start_in_both = ltb page_start (length old_data) in
    let end_in_both = leb page_end (length new_data) && leb page_end (length old_data) in
    let new_length = min page_end (length new_data) - page_start in
    if start_in_both && end_in_both
    then ok (
        if same_bytes (region new_data page_start cfg.page_size) (region old_data 0 cfg.page_size)
        then outb
        else encode_changed_region cfg old_data new_data page_start cfg.page_size outb)
    else if not start_in_both
    then if any_non_zero (region new_data page_start cfg.page_size)
      then ok (encode_new_region new_data page_start new_length outb)
      else if ltb (length new_data) page_end
      then throws undefined_behaviour
      else ok outb
    else ok (encode_new_region new_data page_start new_length outb)

-- With a page size of 0 the loop does not end.
unfoldable pub encode_pages :
    ℕ → DeltaSettings → List ℕ → List ℕ → ℕ → List ℕ → Result DeltaError (List ℕ)
unfolding encode_page
encode_pages zero cfg old_data new_data page_start outb =
    if ltb page_start (length new_data) then throws out_of_fuel else ok outb
encode_pages (suc fuel) cfg old_data new_data page_start outb =
    elim (ltb page_start (length new_data)) [
      | true ↦ encode_page cfg old_data new_data page_start outb >>= λ outb'.
          encode_pages fuel cfg old_data new_data (page_start + cfg.page_size) outb'
      | false ↦ ok outb
    ]

-- The branch without pages.
unfoldable pub encode_whole : DeltaSettings → List ℕ → List ℕ → List ℕ → List ℕ
unfolding encode_changed_region encode_new_region
encode_whole cfg old_data new_data outb =
    if leb (length old_data) (length new_data)
    then encode_new_region new_data (length old_data) (length new_data - length old_data)
        (encode_changed_region cfg old_data new_data 0 (length old_data) outb)
    else encode_changed_region cfg old_data new_data 0 (length new_data) outb

-- The commands, before they are compressed.
unfoldable pub serialize_commands : DeltaSettings → List ℕ → List ℕ → Result DeltaError (List ℕ)
unfolding append_bytes_of encode_pages encode_whole
serialize_commands cfg old_data new_data = do
  let outb = append_bytes_of 4 (delta_protocol_version ∷ code total_size ∷ []) (length new_data)
  outb' ←
      (if cfg.use_pages
        then encode_pages (length new_data) cfg old_data new_data 0 outb
        else ok (encode_whole cfg old_data new_data outb))
  ok (outb' ++ code end ∷ [])

-- The zstd library: `ZSTD_compress` at a level, and `ZSTD_decompress` into a buffer of some size.
module _ (zstd_compress : ℤ → List ℕ → Option (List ℕ))
    (zstd_decompress : List ℕ → ℕ → Option (List ℕ)) where
  unfoldable pub serialize_delta : DeltaSettings → List ℕ → List ℕ → Result DeltaError (List ℕ)
  unfolding serialize_commands append_bytes_of
  serialize_delta cfg old_data new_data = do
    outb ← serialize_commands cfg old_data new_data
    (if cfg.use_zstd
        then elim (zstd_compress cfg.zstd_level outb) [
          | none ↦ throws zstd_failed
          | some compressed ↦ ok (
              append_bytes_of 8
                (append_bytes_of 8 (delta_protocol_version ∷ code zstd_compressed_commands ∷ [])
                  (length compressed))
                (length outb)
              ++ compressed
              ++ code end ∷ [])
        ]
        else ok outb)
