-- ===== src/Storage/Wal/Recovery.antt =====
-- Logs that are written, read and replayed.
use noe_db.Base.{
  some, [], ◌∷◌, refl, zero, suc, ℕ, List, All, ◌<◌, length, ◌≡◌, ◌+◌, ◌++◌, ap, drop, sym, arith,
  append-nil, ◌∙◌, append_assoc, ◌≤◌, drop-append_at, length-append, ◌^◌, Bool-cases, ltb, inl, inr,
  take, take-append_le, ge_of_ltb, take-append_at,
}
use noe_db.Base.Bytes.{Bytes, cmp_bytes, slice}
use noe_db.Storage.Error.{Result, ok, err, ◌>>=◌, corrupt_wal}
use noe_db.Storage.MemTable.{MemTable}
use noe_db.Storage.Wal.{
  LogEntry, append_entry, read_all, read_entries, record_of, payload_of, decode, validate_header,
  header, encode, replay_into_memtable, apply_entries, read_u32,
}
use noe_db.Storage.Wal.RoundTrip.{IsWritable, decode-encode, encode-IsWritable, length-payload_of}
use noe_db.Base.Words.{to_le_bytes, length-to_le_bytes, from_le_bytes, from_le_bytes-to_le_bytes}
use noe_db.Storage.Checksum.{crc32}

-- The records of some entries, one behind the other.
abbrev records : List LogEntry → Bytes
records [] = []
records (e ∷ entries) = record_of (payload_of e) ++ records entries

-- Appends to a log file, one after the other.
abbrev pub append_all : Bytes → List LogEntry → Result Bytes
append_all file [] = ok file
append_all file (e ∷ entries) = append_entry file e >>= λ file'. append_all file' entries

append_all-records :
    (file : Bytes) (entries : List LogEntry)
    → All IsWritable entries
    → append_all file entries ≡ ok (file ++ records entries)
unfolding append_entry
append_all-records file [] h = ap (λ bs. ok bs) (sym (append-nil file))
append_all-records file (e ∷ entries) h = rw (encode-IsWritable e h.0) (
    append_all-records (file ++ record_of (payload_of e)) entries h.1
    ∙ ap (λ bs. ok bs) (append_assoc file (record_of (payload_of e)) (records entries)))

-- Entries in front of what the rest of a log gives.
abbrev behind : List LogEntry → Result (List LogEntry) → Result (List LogEntry)
behind entries (ok later) = ok (entries ++ later)
behind entries (err e) = err e

length-record_of : (payload : Bytes) → length (record_of payload) ≡ 8 + length payload
unfolding record_of
length-record_of payload = omega (
  arith,
  length-to_le_bytes 4 (4 + length payload),
  length-to_le_bytes 4 (crc32 payload),
  length-append (to_le_bytes 4 (4 + length payload)) (to_le_bytes 4 (crc32 payload) ++ payload),
  length-append (to_le_bytes 4 (crc32 payload)) payload,
)

read_entries-step :
    (fuel n : ℕ) (bytes rest : Bytes) (e : LogEntry) (r : Result (List LogEntry))
    → decode bytes ≡ ok (e, n)
    → drop n bytes ≡ rest
    → read_entries fuel rest ≡ some r
    → 0 < length bytes
    → read_entries (suc fuel) bytes ≡ some (behind (e ∷ []) r)
unfolding read_entries
read_entries-step fuel n [] rest e r h cut later full = absurd (omega arith)
read_entries-step fuel n (b ∷ bytes) rest e (ok x) h cut later full = ground (arith, h, cut, later)
read_entries-step fuel n (b ∷ bytes) rest e (err x) h cut later full = ground (arith, h, cut, later)

behind-cons :
    (e : LogEntry) (entries : List LogEntry) (r : Result (List LogEntry))
    → behind (e ∷ []) (behind entries r) ≡ behind (e ∷ entries) r
behind-cons e entries (ok x) = refl
behind-cons e entries (err x) = refl

-- Reading records and then a tail reads the records and goes on with the tail.
read_entries-records :
    (entries : List LogEntry) (tail : Bytes) (needed fuel : ℕ) (r : Result (List LogEntry))
    → All IsWritable entries
    → ((k : ℕ) → needed ≤ k → read_entries k tail ≡ some r)
    → length entries + needed ≤ fuel
    → read_entries fuel (records entries ++ tail) ≡ some (behind entries r)
read_entries-records [] tail needed fuel (ok x) h last enough = last fuel (omega arith)
read_entries-records [] tail needed fuel (err x) h last enough = last fuel (omega arith)
read_entries-records (e ∷ entries) tail needed zero r h last enough = absurd (omega arith)
read_entries-records (e ∷ entries) tail needed (suc fuel) r h last enough =
    let bytes : Bytes = record_of (payload_of e) in
    let later : Bytes = records entries ++ tail in
    let regroup : (bytes ++ records entries) ++ tail ≡ bytes ++ later =
      append_assoc bytes (records entries) tail in
    let ih = read_entries-records entries tail needed fuel r h.1 last (omega arith) in
    rw regroup (
      read_entries-step fuel (length bytes) (bytes ++ later) later e (behind entries r)
        (decode-encode e bytes later h.0 (encode-IsWritable e h.0))
        (drop-append_at bytes later (length bytes) refl) ih
        (omega (arith, length-record_of (payload_of e), length-append bytes later))
      ∙ ap (λ x. some x) (behind-cons e entries r))

validate_header-header : (rest : Bytes) → validate_header (header ++ rest) ≡ ok tt
unfolding validate_header to_le_bytes from_le_bytes cmp_bytes
validate_header-header rest = ground arith

length-records : (entries : List LogEntry) → length entries ≤ length (records entries)
length-records [] = omega arith
length-records (e ∷ entries) = omega (
  arith,
  length-records entries,
  length-append (record_of (payload_of e)) (records entries),
  length-record_of (payload_of e),
)

read_all-records :
    (entries : List LogEntry) (tail : Bytes) (needed : ℕ) (r : Result (List LogEntry))
    → All IsWritable entries
    → ((k : ℕ) → needed ≤ k → read_entries k tail ≡ some r)
    → needed ≤ length tail
    → read_all ((header ++ records entries) ++ tail) ≡ some (behind entries r)
unfolding read_all to_le_bytes
read_all-records entries tail needed r h last small =
    let rest : Bytes = records entries ++ tail in
    let regroup : (header ++ records entries) ++ tail ≡ header ++ rest =
      append_assoc header (records entries) tail in
    let inner = read_entries-records entries tail needed (length (header ++ rest)) r h last (
      omega (
        arith,
        length-records entries,
        length-append header rest,
        length-append (records entries) tail,
      )) in
    ground (arith, regroup, validate_header-header rest, inner)

-- The log that is written by appending entries to a new file reads back as these entries.
pub read_all-append_all :
    (entries : List LogEntry) (file : Bytes)
    → All IsWritable entries
    → append_all header entries ≡ ok file
    → read_all file ≡ some (ok entries)
read_all-append_all entries file h written =
    let same : header ++ records entries ≡ file =
      cc (written, append_all-records header entries h) in
    let r =
      read_all-records entries [] 0 (ok []) h (λ k le. unfold read_entries in refl) (omega arith) in
    ap read_all (sym same ∙ sym (append-nil (header ++ records entries)))
    ∙ r
    ∙ ap (λ es. some (ok es)) (append-nil entries)

-- Replaying the log that is written by appending entries to a new file does to a table what applying
-- the entries to it does, errors included, and counts them.
pub replay-append_all :
    (entries : List LogEntry) (file : Bytes) (t : MemTable)
    → All IsWritable entries
    → append_all header entries ≡ ok file
    → replay_into_memtable file t ≡ some (apply_entries t entries >>= λ t'. ok (t', length entries))
unfolding replay_into_memtable
replay-append_all entries file t h written =
    let all = read_all-append_all entries file h written in ground (arith, all)

-- A proper piece of a record, as a crash in the middle of a write leaves it.
abbrev pub IsTorn : Bytes → LogEntry → Type 0
IsTorn piece e =
    (0 < length piece) × ((lost : Bytes) × (0 < length lost) × (encode e ≡ ok (piece ++ lost)))

decode-torn :
    (piece lost payload : Bytes)
    → 0 < length lost
    → 4 + length payload < 256 ^ 4
    → record_of payload ≡ piece ++ lost
    → decode piece ≡ err corrupt_wal
unfolding decode read_u32 slice record_of
decode-torn piece lost payload missing fits e = elim (Bool-cases (ltb (length piece) 4)) [
  | inl short ↦ ground arith
  | inr long ↦
      let size : Bytes = to_le_bytes 4 (4 + length payload) in
      let first : take 4 piece ≡ size =
        sym (take-append_le 4 piece lost (ge_of_ltb (length piece) 4 long))
        ∙ ap (λ (bs : Bytes). take 4 bs) (sym e)
        ∙ take-append_at size _ 4 (length-to_le_bytes 4 (4 + length payload)) in
      let word : from_le_bytes (take 4 piece) ≡ 4 + length payload =
        ap from_le_bytes first ∙ from_le_bytes-to_le_bytes 4 (4 + length payload) fits in
      let total : length piece + length lost ≡ 8 + length payload = omega (
        arith,
        ap (λ (bs : Bytes). length bs) e,
        length-append piece lost,
        length-record_of payload,
      ) in
      ground (arith, word, total)
]

read_entries-refused :
    (k : ℕ) (bytes : Bytes)
    → 1 ≤ k
    → 0 < length bytes
    → decode bytes ≡ err corrupt_wal
    → read_entries k bytes ≡ some (err corrupt_wal)
unfolding read_entries
read_entries-refused k [] le full h = absurd (omega arith)
read_entries-refused zero (b ∷ bytes) le full h = absurd (omega arith)
read_entries-refused (suc k) (b ∷ bytes) le full h = ground (arith, h)

-- A log whose last record was not written whole cannot be read at all, nor replayed: the entries in
-- front of it are lost with it.
pub read_all-torn :
    (entries : List LogEntry) (file piece : Bytes) (e : LogEntry) (t : MemTable)
    → All IsWritable entries
    → IsWritable e
    → append_all header entries ≡ ok file
    → IsTorn piece e
    → (read_all (file ++ piece) ≡ some (err corrupt_wal))
      × (replay_into_memtable (file ++ piece) t ≡ some (err corrupt_wal))
unfolding replay_into_memtable
read_all-torn entries file piece e t h we written (some_left, (lost, missing, torn)) =
    let payload : Bytes = payload_of e in
    let same : header ++ records entries ≡ file =
      cc (written, append_all-records header entries h) in
    let whole : record_of payload ≡ piece ++ lost = cc (torn, encode-IsWritable e we) in
    let refused =
      decode-torn piece lost payload missing (omega (arith, we.fits, length-payload_of e)) whole in
    let r : read_all (file ++ piece) ≡ some (err corrupt_wal) =
      ap (λ (bs : Bytes). read_all (bs ++ piece)) (sym same)
      ∙ read_all-records entries piece 1 (err corrupt_wal) h
          (λ k le. read_entries-refused k piece le some_left refused) (omega arith) in
    (r, ground (arith, r))
