-- ===== src/Storage/Block.antt =====
-- crates/noedb-storage/src/sstable/block.rs: the blocks of a sorted table. CRC-32C is that of a crate
-- and a parameter; offsets are far below the limits of machine words.
pub mod RoundTrip
use noe_db.Base.{
  none, some, [], ◌∷◌, ltb, ℕ, Bool, length, ◌++◌, ◌+◌, not, take, if◌then◌else◌, drop, ◌==◌,
}
use noe_db.Base.Bytes.{Bytes}
use noe_db.Base.Words.{to_le_bytes, from_le_bytes}
use noe_db.Storage.Error.{
  Result, ok, err, ◌>>=◌, ◌>>◌, refuse_if, corrupt_sstable, checksum_mismatch,
}

abbrev pub legacy_block_header : ℕ
legacy_block_header = 4

abbrev pub checksum_block_header : ℕ
checksum_block_header = 8

module _ (crc32c : Bytes → ℕ) where
  unfoldable pub encode_block : Bytes → Bytes
  encode_block payload =
      to_le_bytes 4 (length payload) ++ (to_le_bytes 4 (crc32c payload) ++ payload)

  -- The part behind the length, for a block with a checksum and for one without.
  unfoldable pub checked_payload : Bytes → ℕ → ℕ → Result Bytes
  checked_payload file off len = do
    refuse_if (ltb (length file) (off + checksum_block_header + len)) corrupt_sstable
    refuse_if
        (not (
          crc32c (take len (drop (off + checksum_block_header) file))
          == from_le_bytes (take 4 (drop (off + 4) file))))
        checksum_mismatch
    ok (take len (drop (off + checksum_block_header) file))

  unfoldable pub legacy_payload : Bytes → ℕ → ℕ → Result Bytes
  legacy_payload file off len = do
    refuse_if (ltb (length file) (off + legacy_block_header + len)) corrupt_sstable
    ok (take len (drop (off + legacy_block_header) file))

  unfoldable pub decode_block_at : Bytes → ℕ → Bool → Result Bytes
  decode_block_at file off checksum_blocks = do
    refuse_if
        (ltb (length file)
          (off + (if checksum_blocks then checksum_block_header else legacy_block_header)))
        corrupt_sstable
    let len = from_le_bytes (take 4 (drop off file))
    if checksum_blocks then checked_payload file off len else legacy_payload file off len
