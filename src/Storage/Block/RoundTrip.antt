-- ===== src/Storage/Block/RoundTrip.antt =====
-- Blocks that are written and read.
use noe_db.Base.{
  refl, arith, ℕ, length, take, ◌<◌, drop, ◌≡◌, ◌^◌, ◌++◌, ◌+◌, ◌≤◌, true, ap, append_assoc, ◌∙◌,
  drop-append_at, sym, length-append, take-append_at,
}
use noe_db.Base.Bytes.{Bytes}
use noe_db.Base.Words.{to_le_bytes, from_le_bytes, from_le_bytes-to_le_bytes, length-to_le_bytes}
use noe_db.Storage.Error.{ok}
use noe_db.Storage.Block.{encode_block, decode_block_at, checked_payload}

module _ (crc32c : Bytes → ℕ) where
  decode_block-fields :
      (file payload : Bytes) (off : ℕ)
      → from_le_bytes (take 4 (drop off file)) ≡ length payload
      → from_le_bytes (take 4 (drop (off + 4) file)) ≡ crc32c payload
      → take (length payload) (drop (off + 8) file) ≡ payload
      → off + 8 + length payload ≤ length file
      → decode_block_at crc32c file off true ≡ ok payload
  unfolding decode_block_at checked_payload
  decode_block-fields file payload off len crc cut room =
      ground (arith, len, crc, cut, ap crc32c cut)

  -- A block is read back at its offset, whatever stands in front of it and behind it, if its length and
  -- its checksum fit in 32 bits.
  pub decode_block_at-encode_block :
      (before payload after : Bytes)
      → length payload < 256 ^ 4
      → crc32c payload < 256 ^ 4
      → decode_block_at crc32c
          (before ++ (encode_block crc32c payload ++ after))
          (length before)
          true
        ≡ ok payload
  unfolding encode_block
  decode_block_at-encode_block before payload after fits small =
      let size : Bytes = to_le_bytes 4 (length payload) in
      let crc : Bytes = to_le_bytes 4 (crc32c payload) in
      let tail : Bytes = payload ++ after in
      let block : Bytes = size ++ (crc ++ tail) in
      let file : Bytes = before ++ block in
      let regroup : before ++ ((size ++ (crc ++ payload)) ++ after) ≡ file =
        ap (λ (bs : Bytes). before ++ bs)
          (append_assoc size (crc ++ payload) after
            ∙ ap (λ (bs : Bytes). size ++ bs) (append_assoc crc payload after)) in
      let behind : drop (length before) file ≡ block =
        drop-append_at before block (length before) refl in
      let size_len : length size ≡ 4 = length-to_le_bytes 4 (length payload) in
      let crc_len : length crc ≡ 4 = length-to_le_bytes 4 (crc32c payload) in
      let behind_size : drop (length before + 4) file ≡ crc ++ tail =
        ap (λ (bs : Bytes). drop (length before + 4) bs)
          (sym (append_assoc before size (crc ++ tail)))
        ∙ drop-append_at (before ++ size) (crc ++ tail) (length before + 4)
            (omega (arith, length-append before size, size_len)) in
      let behind_crc : drop (length before + 8) file ≡ tail =
        ap (λ (bs : Bytes). drop (length before + 8) bs)
          (sym (append_assoc before size (crc ++ tail))
            ∙ sym (append_assoc (before ++ size) crc tail))
        ∙ drop-append_at ((before ++ size) ++ crc) tail (length before + 8) (
            omega (
              arith,
              length-append before size,
              length-append (before ++ size) crc,
              size_len,
              crc_len,
            )) in
      ap (λ (bs : Bytes). decode_block_at crc32c bs (length before) true) regroup
      ∙ decode_block-fields file payload (length before)
          (ap (λ (bs : Bytes). from_le_bytes (take 4 bs)) behind
            ∙ ap from_le_bytes (take-append_at size (crc ++ tail) 4 size_len)
            ∙ from_le_bytes-to_le_bytes 4 (length payload) fits)
          (ap (λ (bs : Bytes). from_le_bytes (take 4 bs)) behind_size
            ∙ ap from_le_bytes (take-append_at crc tail 4 crc_len)
            ∙ from_le_bytes-to_le_bytes 4 (crc32c payload) small)
          (ap (λ (bs : Bytes). take (length payload) bs) behind_crc
            ∙ take-append_at payload after (length payload) refl)
          (omega (
            arith,
            length-append before block,
            length-append size (crc ++ tail),
            length-append crc tail,
            length-append payload after,
            size_len,
            crc_len,
          ))
