-- ===== src/Storage/Wal.antt =====
-- crates/noedb-storage/src/wal (entry.rs, mod.rs): the records of the write-ahead log and its files.
-- A file is the string of its bytes.
pub mod RoundTrip
pub mod Recovery
pub mod Replay
use noe_db.Base.{
  none, some, [], ◌∷◌, refl, zero, suc, ltb, Bool, ◌++◌, ℕ, ◌&&◌, not, Option, false, if◌then◌else◌,
  length, ◌==◌, true, ◌+◌, List, drop, take,
}
use noe_db.Base.Bytes.{Bytes, slice, to_be_bytes, is_eq, cmp_bytes}
use noe_db.Storage.Error.{
  Result, ok, err, ◌>>=◌, ◌>>◌, refuse_if, invalid_input, corrupt_wal, checksum_mismatch,
}
use noe_db.Storage.MemTable.{MemTable, is_nil}
use noe_db.Storage.MemTable
use noe_db.Storage.Error.{io}
use noe_db.Base.Words.{to_le_bytes, from_le_bytes}
use noe_db.Storage.Checksum.{crc32}

abbrev pub wal_magic : Bytes
wal_magic = b'N' ∷ b'O' ∷ b'E' ∷ b'W' ∷ []

abbrev pub wal_version : ℕ
wal_version = 1

pub data OpType : Type 0 where
  put_op : OpType
  delete_op : OpType

abbrev pub to_byte : OpType → ℕ
to_byte put_op = 0
to_byte delete_op = 1

unfoldable pub from_byte : ℕ → Result OpType
from_byte b = if b == 0 then ok put_op else if b == 1 then ok delete_op else err corrupt_wal

abbrev pub is_delete : OpType → Bool
is_delete put_op = false
is_delete delete_op = true

pub record LogEntry : Type 0 where
  pub op : OpType
  pub key : Bytes
  pub value : Bytes

abbrev pub put_entry : Bytes → Bytes → LogEntry
put_entry key value = record { op = put_op; key = key; value = value }

abbrev pub delete_entry : Bytes → LogEntry
delete_entry key = record { op = delete_op; key = key; value = [] }

-- A length as a `u32`, and the bytes behind it.
abbrev pub len_prefixed : Bytes → Bytes → Bytes
len_prefixed bytes rest = to_le_bytes 4 (length bytes) ++ (bytes ++ rest)

unfoldable pub payload_of : LogEntry → Bytes
payload_of e = to_byte e.op ∷ len_prefixed e.key (len_prefixed e.value [])

-- `| u32 len | u32 crc | payload |`
unfoldable pub record_of : Bytes → Bytes
record_of payload = to_le_bytes 4 (4 + length payload) ++ (to_le_bytes 4 (crc32 payload) ++ payload)

unfoldable pub encode : LogEntry → Result Bytes
encode e = do
  refuse_if (is_nil e.key) invalid_input
  refuse_if (is_delete e.op && not (is_nil e.value)) invalid_input
  ok (record_of (payload_of e))

unfoldable pub read_u32 : Bytes → ℕ → Result ℕ
read_u32 bytes off = elim (slice bytes off 4) [
  | none ↦ err corrupt_wal
  | some word ↦ ok (from_le_bytes word)
]

-- The field, and the offset behind it.
unfoldable pub read_len_prefixed : Bytes → ℕ → Result (Bytes × ℕ)
read_len_prefixed bytes off = do
  n ← read_u32 bytes off
  refuse_if (ltb (length bytes) (off + 4 + n)) corrupt_wal
  ok (take n (drop (off + 4) bytes), off + 4 + n)

unfoldable pub decode_payload : Bytes → Result LogEntry
decode_payload [] = err corrupt_wal
decode_payload (b ∷ bytes) = do
  op ← from_byte b
  (key, off) ← read_len_prefixed (b ∷ bytes) 1
  (value, end) ← read_len_prefixed (b ∷ bytes) off
  refuse_if (is_nil key) corrupt_wal
  refuse_if (is_delete op && not (is_nil value)) corrupt_wal
  ok (record { op = op; key = key; value = value })

-- The body of a record: the checksum and the payload.
unfoldable pub decode_record : Bytes → Result LogEntry
decode_record body = do
  refuse_if (ltb (length body) 4) corrupt_wal
  expected_crc ← read_u32 body 0
  refuse_if (not (crc32 (drop 4 body) == expected_crc)) checksum_mismatch
  decode_payload (drop 4 body)

-- The entry, and the number of bytes that it took.
unfoldable pub decode : Bytes → Result (LogEntry × ℕ)
decode bytes = do
  refuse_if (ltb (length bytes) 4) corrupt_wal
  record_len ← read_u32 bytes 0
  refuse_if (ltb (length bytes) (4 + record_len)) corrupt_wal
  entry ← decode_record (take record_len (drop 4 bytes))
  ok (entry, 4 + record_len)

-- The loop of `read_all` over the bytes that are left. `none`: the fuel ran out.
unfoldable pub read_entries : ℕ → Bytes → Option (Result (List LogEntry))
read_entries fuel [] = some (ok [])
read_entries zero (b ∷ bytes) = none
read_entries (suc fuel) (b ∷ bytes) = elim (decode (b ∷ bytes)) [
  | err e ↦ some (err e)
  | ok (entry, n) ↦ elim (read_entries fuel (drop n (b ∷ bytes))) [
    | none ↦ none
    | some rest ↦ some (rest >>= λ entries. ok (entry ∷ entries))
  ]
]

abbrev pub header : Bytes
header = wal_magic ++ to_le_bytes 2 wal_version

abbrev pub same_bytes : Bytes → Bytes → Bool
same_bytes a b = is_eq (cmp_bytes a b)

-- `read_exact` of the magic and of the version.
unfoldable pub validate_header : Bytes → Result (Unit {0})
validate_header file = do
  refuse_if (ltb (length file) 4) io
  refuse_if (not (same_bytes (take 4 file) wal_magic)) corrupt_wal
  refuse_if (ltb (length file) 6) io
  refuse_if (not (from_le_bytes (take 2 (drop 4 file)) == wal_version)) corrupt_wal
  ok tt

-- The file after `open`, which writes the header of a new one.
unfoldable pub open_wal : Bytes → Result Bytes
unfolding validate_header
open_wal [] = ok header
open_wal (b ∷ file) = do
  refuse_if (ltb (length (b ∷ file)) 6) corrupt_wal
  validate_header (b ∷ file)
  ok (b ∷ file)

unfoldable pub append_entry : Bytes → LogEntry → Result Bytes
append_entry file e = do bytes ← encode e; ok (file ++ bytes)

-- Every record of a file, in its order. Each takes a byte at least, so the fuel is enough.
unfoldable pub read_all : Bytes → Option (Result (List LogEntry))
read_all file = elim (validate_header file) [
  | err e ↦ some (err e)
  | ok u ↦ read_entries (length file) (drop 6 file)
]

unfoldable pub apply_entry : MemTable → LogEntry → Result MemTable
apply_entry t e = elim e.op [
  | put_op ↦ MemTable.put t e.key e.value
  | delete_op ↦ MemTable.delete t e.key >>= λ r. ok r.0
]

unfoldable pub apply_entries : MemTable → List LogEntry → Result MemTable
apply_entries t [] = ok t
apply_entries t (e ∷ entries) = apply_entry t e >>= λ t'. apply_entries t' entries

-- The table, and the number of entries.
unfoldable pub replay_into_memtable : Bytes → MemTable → Option (Result (MemTable × ℕ))
replay_into_memtable file t = elim (read_all file) [
  | none ↦ none
  | some r ↦ some (r >>= λ entries. apply_entries t entries >>= λ t'. ok (t', length entries))
]
