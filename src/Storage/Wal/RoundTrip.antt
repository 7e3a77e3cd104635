-- ===== src/Storage/Wal/RoundTrip.antt =====
-- Records of the log and their bytes.
use noe_db.Base.{
  [], ◌∷◌, refl, ℕ, length, ◌≡◌, ◌<◌, ◌^◌, ◌++◌, ◌+◌, arith, ap, length-append, drop,
  take-append_at, append_assoc, drop-append_at, false, ◌&&◌, not, take, ◌∙◌, ◌≤◌,
}
use noe_db.Base.Bytes.{Bytes, slice-append}
use noe_db.Storage.Error.{ok}
use noe_db.Storage.Wal.{
  LogEntry, OpType, put_op, delete_op, read_len_prefixed, read_u32, len_prefixed, from_byte,
  decode_payload, payload_of, to_byte, is_delete, decode, decode_record, record_of, encode,
}
use noe_db.Base.Words.{to_le_bytes, length-to_le_bytes, from_le_bytes-to_le_bytes}
use noe_db.Storage.MemTable.{is_nil}
use noe_db.Storage.Checksum.{crc32, crc32-lt}

read_u32-append :
    (a rest : Bytes) (n off : ℕ)
    → length a ≡ off
    → n < 256 ^ 4
    → read_u32 (a ++ (to_le_bytes 4 n ++ rest)) off ≡ ok n
unfolding read_u32
read_u32-append a rest n off e w = ground (
  arith,
  slice-append a (to_le_bytes 4 n) rest off 4 e (length-to_le_bytes 4 n),
  from_le_bytes-to_le_bytes 4 n w,
)

-- A field with its length is read back from where it stands.
read_len_prefixed-append :
    (a field rest : Bytes) (off : ℕ)
    → length a ≡ off
    → length field < 256 ^ 4
    → read_len_prefixed (a ++ len_prefixed field rest) off ≡ ok (field, off + 4 + length field)
unfolding read_len_prefixed
read_len_prefixed-append a field rest off e w =
    let bytes : Bytes = a ++ len_prefixed field rest in
    let n_lem = read_u32-append a (field ++ rest) (length field) off e w in
    let whole : length bytes ≡ off + (4 + (length field + length rest)) = omega (
      arith,
      length-append a (len_prefixed field rest),
      length-append (to_le_bytes 4 (length field)) (field ++ rest),
      length-to_le_bytes 4 (length field),
      length-append field rest,
    ) in
    let behind : drop (off + 4) bytes ≡ field ++ rest =
      rw (← append_assoc a (to_le_bytes 4 (length field)) (field ++ rest)) (
        drop-append_at (a ++ to_le_bytes 4 (length field)) (field ++ rest) (off + 4) (
          omega (
            arith,
            length-append a (to_le_bytes 4 (length field)),
            length-to_le_bytes 4 (length field),
          ))) in
    ground (arith, n_lem, whole, behind, take-append_at field rest (length field) refl)

from_byte-to_byte : (op : OpType) → from_byte (to_byte op) ≡ ok op
unfolding from_byte
from_byte-to_byte put_op = refl
from_byte-to_byte delete_op = refl

-- What `encode` accepts: a key, no value for a delete, and fields whose record fits in 32 bits.
pub record IsWritable (e : LogEntry) : Type 0 where
  pub has_key : is_nil e.key ≡ false
  pub is_consistent : (is_delete e.op && not (is_nil e.value)) ≡ false
  pub fits : 13 + length e.key + length e.value < 256 ^ 4

pub length-payload_of : (e : LogEntry) → length (payload_of e) ≡ 9 + length e.key + length e.value
unfolding payload_of
length-payload_of e = omega (
  arith,
  length-append (to_le_bytes 4 (length e.key)) (e.key ++ len_prefixed e.value []),
  length-append e.key (len_prefixed e.value []),
  length-append (to_le_bytes 4 (length e.value)) (e.value ++ []),
  length-append e.value [],
  length-to_le_bytes 4 (length e.key),
  length-to_le_bytes 4 (length e.value),
)

decode_payload-fields :
    (b : ℕ) (bytes key value : Bytes) (op : OpType) (off end : ℕ)
    → from_byte b ≡ ok op
    → read_len_prefixed (b ∷ bytes) 1 ≡ ok (key, off)
    → read_len_prefixed (b ∷ bytes) off ≡ ok (value, end)
    → is_nil key ≡ false
    → (is_delete op && not (is_nil value)) ≡ false
    → decode_payload (b ∷ bytes) ≡ ok (record { op = op; key = key; value = value })
unfolding decode_payload
decode_payload-fields b bytes key value op off end o k v full consistent =
    rw (o, k, v, full, consistent) refl

decode_payload-payload_of : (e : LogEntry) → IsWritable e → decode_payload (payload_of e) ≡ ok e
unfolding payload_of
decode_payload-payload_of e w =
    let b = to_byte e.op in
    let tail : Bytes = len_prefixed e.value [] in
    let sized : Bytes = to_le_bytes 4 (length e.key) in
    let first = read_len_prefixed-append (b ∷ []) e.key tail 1 refl (omega (arith, w.fits)) in
    let before : Bytes = b ∷ (sized ++ e.key) in
    let len : length before ≡ 1 + 4 + length e.key =
      omega (arith, length-append sized e.key, length-to_le_bytes 4 (length e.key)) in
    let second =
      read_len_prefixed-append before e.value [] (1 + 4 + length e.key) len
        (omega (arith, w.fits)) in
    let regroup : before ++ tail ≡ payload_of e =
      ap (λ bs. b ∷ bs) (append_assoc sized e.key tail) in
    decode_payload-fields b (len_prefixed e.key tail) e.key e.value e.op (1 + 4 + length e.key)
      (1 + 4 + length e.key + 4 + length e.value) (from_byte-to_byte e.op) first
      (rw regroup at second) w.has_key w.is_consistent

decode_record-fields :
    (body payload : Bytes) (e : LogEntry)
    → 4 ≤ length body
    → read_u32 body 0 ≡ ok (crc32 payload)
    → drop 4 body ≡ payload
    → decode_payload payload ≡ ok e
    → decode_record body ≡ ok e
unfolding decode_record
decode_record-fields body payload e long sum rest inner = ground arith

decode-fields :
    (bytes body : Bytes) (n : ℕ) (e : LogEntry)
    → 4 + n ≤ length bytes
    → read_u32 bytes 0 ≡ ok n
    → take n (drop 4 bytes) ≡ body
    → decode_record body ≡ ok e
    → decode bytes ≡ ok (e, 4 + n)
unfolding decode
decode-fields bytes body n e long size cut inner = ground arith

decode-record_of :
    (payload rest : Bytes) (e : LogEntry)
    → 4 + length payload < 256 ^ 4
    → decode_payload payload ≡ ok e
    → decode (record_of payload ++ rest) ≡ ok (e, length (record_of payload))
unfolding record_of
decode-record_of payload rest e fits inner =
    let size : Bytes = to_le_bytes 4 (4 + length payload) in
    let sum : Bytes = to_le_bytes 4 (crc32 payload) in
    let body : Bytes = sum ++ payload in
    let regroup : (size ++ body) ++ rest ≡ size ++ (body ++ rest) = append_assoc size body rest in
    let size_len = length-to_le_bytes 4 (4 + length payload) in
    let sum_len = length-to_le_bytes 4 (crc32 payload) in
    let body_len : length body ≡ 4 + length payload =
      omega (arith, length-append sum payload, sum_len) in
    let whole : length (size ++ (body ++ rest)) ≡ 8 + length payload + length rest =
      omega
        (arith, size_len, body_len, length-append size (body ++ rest), length-append body rest) in
    let total : length (record_of payload) ≡ 8 + length payload =
      omega (arith, size_len, body_len, length-append size body) in
    let size_lem = read_u32-append [] (body ++ rest) (4 + length payload) 0 refl fits in
    let cut : drop 4 (size ++ (body ++ rest)) ≡ body ++ rest =
      drop-append_at size (body ++ rest) 4 size_len in
    let taken : take (4 + length payload) (body ++ rest) ≡ body =
      take-append_at body rest (4 + length payload) body_len in
    let crc_lem = read_u32-append [] payload (crc32 payload) 0 refl (crc32-lt payload) in
    let paid : drop 4 body ≡ payload = drop-append_at sum payload 4 sum_len in
    let recorded : decode_record body ≡ ok e =
      decode_record-fields body payload e (omega (arith, body_len)) crc_lem paid inner in
    let decoded : decode (size ++ (body ++ rest)) ≡ ok (e, 4 + (4 + length payload)) =
      decode-fields (size ++ (body ++ rest)) body (4 + length payload) e (omega (arith, whole))
        size_lem (ap (λ bs. take (4 + length payload) bs) cut ∙ taken) recorded in
    rw regroup (decoded ∙ ap (λ n. ok (e, n)) (omega (arith, total)))

pub encode-IsWritable : (e : LogEntry) → IsWritable e → encode e ≡ ok (record_of (payload_of e))
unfolding encode
encode-IsWritable e w = rw (w.has_key, w.is_consistent) refl

-- A record is read back from the front of any bytes that begin with its encoding, and the bytes that
-- it took are counted, if it has a key, no value where it is a delete, and fits in 32 bits.
pub decode-encode :
    (e : LogEntry) (bytes rest : Bytes)
    → IsWritable e
    → encode e ≡ ok bytes
    → decode (bytes ++ rest) ≡ ok (e, length bytes)
decode-encode e bytes rest w h =
    let same : record_of (payload_of e) ≡ bytes = cc (h, encode-IsWritable e w) in
    rw (← same) (
      decode-record_of (payload_of e) rest e (omega (arith, w.fits, length-payload_of e))
        (decode_payload-payload_of e w))
