-- ===== src/Mvcc/Codec.antt =====
-- crates/noedb-storage/src/mvcc/codec.rs: the encoding of versions.
use noe_db.Storage.Error.{Result, ok, err, ◌>>=◌, invalid_input, corrupt_sstable}
use noe_db.Base.Bytes.{slice}
use noe_db.Base.{
  ℕ, ◌+◌, ◌<◌, ◌^◌, ◌≡◌, refl, Bool, true, false, not, none, some, [], ◌∷◌, ◌++◌, length, take,
  drop, ltb, ◌==◌, if◌then◌else◌, arith, take_all,
}
use noe_db.Base.Bytes.{Bytes}
use noe_db.Base.Words.{to_le_bytes, from_le_bytes, from_le_bytes-to_le_bytes}
use noe_db.Mvcc.Version.{Version, CommitTs, put_version}

-- b"MVCC"
abbrev pub magic : Bytes
magic = b'M' ∷ b'V' ∷ b'C' ∷ b'C' ∷ []

abbrev pub format_v1 : ℕ
format_v1 = 1

abbrev pub bool_byte : Bool → ℕ
bool_byte true = 1
bool_byte false = 0

-- `value.len() as u32` keeps the low four bytes, which are those that are written.
abbrev pub encoded : Version → Bytes
encoded v =
    magic
    ++ (format_v1
        ∷ (to_le_bytes 8 v.commit_ts
            ++ (bool_byte v.deleted ∷ (to_le_bytes 4 (length v.value) ++ v.value))))

unfoldable pub encode_version : Version → Result Bytes
encode_version v = if v.commit_ts == 0 then err invalid_input else ok (encoded v)

-- `read_u64` and `read_u32`, for the number of bytes: the word that stands at an offset.
unfoldable pub read_word : ℕ → Bytes → ℕ → Result ℕ
unfolding slice
read_word n bytes off = elim (slice bytes off n) [
  | none ↦ err corrupt_sstable
  | some word ↦ ok (from_le_bytes word)
]

-- `bytes[off]`, within the bytes
abbrev pub byte_at : Bytes → ℕ → ℕ
byte_at bytes off = from_le_bytes (take 1 (drop off bytes))

abbrev pub same_bytes : Bytes → Bytes → Bool
same_bytes [] [] = true
same_bytes [] (y ∷ ys) = false
same_bytes (x ∷ xs) [] = false
same_bytes (x ∷ xs) (y ∷ ys) = if x == y then same_bytes xs ys else false

-- The payload behind the header.
abbrev pub take_value : Bytes → CommitTs → ℕ → Result Version
take_value bytes commit_ts val_len =
    if ltb (length bytes) (18 + val_len)
    then err corrupt_sstable
    else ok (record {
      commit_ts = commit_ts;
      value = take val_len (drop 18 bytes);
      deleted = not (byte_at bytes 13 == 0);
    })

unfoldable pub decode_version : Bytes → Result Version
unfolding read_word
decode_version bytes =
    if ltb (length bytes) 18
    then err corrupt_sstable
    else if not (same_bytes (take 4 bytes) magic)
    then err corrupt_sstable
    else if not (byte_at bytes 4 == format_v1)
    then err corrupt_sstable
    else do
      commit_ts ← read_word 8 bytes 5
      val_len ← read_word 4 bytes 14
      take_value bytes commit_ts val_len

unfoldable pub decode_or_legacy : Bytes → Result Version
unfolding decode_version
decode_or_legacy bytes =
    if same_bytes (take 4 bytes) magic then decode_version bytes else ok (put_version 1 bytes)

byte_bool : (b : Bool) → not (bool_byte b == 0) ≡ b
byte_bool true = refl
byte_bool false = refl

decode-encoded :
    (v : Version)
    → v.commit_ts < 256 ^ 8
    → length v.value < 256 ^ 4
    → decode_version (encoded v) ≡ ok v
unfolding decode_version to_le_bytes from_le_bytes
decode-encoded v w n =
    let ts : from_le_bytes (to_le_bytes 8 v.commit_ts) ≡ v.commit_ts =
      from_le_bytes-to_le_bytes 8 v.commit_ts w in
    let len : from_le_bytes (to_le_bytes 4 (length v.value)) ≡ length v.value =
      from_le_bytes-to_le_bytes 4 (length v.value) n in
    let all : take (length v.value) v.value ≡ v.value =
      take_all (length v.value) v.value (omega arith) in
    ground (arith, ts, len, all, byte_bool v.deleted)

-- A version reads back from its encoding if its timestamp is a 64-bit word and its value is shorter
-- than 2^32 bytes.
pub decode-encode_version :
    (v : Version) (bytes : Bytes)
    → v.commit_ts < 256 ^ 8
    → length v.value < 256 ^ 4
    → encode_version v ≡ ok bytes
    → decode_version bytes ≡ ok v
unfolding encode_version
decode-encode_version v bytes w n e =
    let same : encoded v ≡ bytes = ground arith in rw (← same) (decode-encoded v w n)
