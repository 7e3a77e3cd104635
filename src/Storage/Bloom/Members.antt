-- ===== src/Storage/Bloom/Members.antt =====
-- The keys of a filter.
use native.Mathlib.Nat.{mod-lt}
use noe_db.Storage.Error.{ok}
use noe_db.Base.{
  [], ◌∷◌, refl, zero, suc, arith, List, ℕ, ◌/◌, length, ◌<◌, get_or, ◌≡◌, true, set, length-set,
  if◌then◌else◌, ◌==◌, ◌^◌, ◌%◌, ◌++◌, ◌≤◌, ◌*◌, ◌+◌, ◌∙◌, length-replicate,
}
use noe_db.Base.Bytes.{Bytes}
use noe_db.Base.Digits.{bit_or-left, bit_or-right, bit_and_self}
use noe_db.Storage.Bloom.{
  new_filter, encode, decode, BloomFilter, insert, insert_all, build, may_contain, set_bit, get_bit,
  bit_or, hash_pair, double_hash, insert_probes, all_probes,
}
use noe_db.Base.Words.{to_le_bytes, from_le_bytes, from_le_bytes-to_le_bytes}

length-set_bit : (bits : Bytes) (idx : ℕ) → length (set_bit bits idx) ≡ length bits
unfolding set_bit
length-set_bit bits idx = length-set bits (idx / 8) _

get_or-set :
    (xs : List ℕ) (i j v : ℕ)
    → i < length xs
    → get_or (set xs i v) j 0 ≡ (if i == j then v else get_or xs j 0)
get_or-set [] i j v h = absurd (omega arith)
get_or-set (x ∷ xs) zero zero v h = refl
get_or-set (x ∷ xs) zero (suc j) v h = ground arith
get_or-set (x ∷ xs) (suc i) zero v h = ground arith
get_or-set (x ∷ xs) (suc i) (suc j) v h = ground (arith, get_or-set xs i j v)

get_bit-set_bit_self :
    (bits : Bytes) (idx : ℕ) → idx / 8 < length bits → get_bit (set_bit bits idx) idx ≡ true
unfolding get_bit set_bit
get_bit-set_bit_self bits idx h =
    let old = get_or bits (idx / 8) 0 in
    ground (
      arith,
      get_or-set bits (idx / 8) (idx / 8) (bit_or old (2 ^ (idx % 8))) h,
      length-set bits (idx / 8) (bit_or old (2 ^ (idx % 8))),
      bit_or-right old (2 ^ (idx % 8)) (idx % 8),
      bit_and_self (idx % 8),
    )

get_bit-set_bit :
    (bits : Bytes) (idx other : ℕ)
    → idx / 8 < length bits
    → get_bit bits other ≡ true
    → get_bit (set_bit bits idx) other ≡ true
unfolding get_bit set_bit
get_bit-set_bit bits idx other h g =
    let old = get_or bits (idx / 8) 0 in
    ground (
      arith,
      get_or-set bits (idx / 8) (other / 8) (bit_or old (2 ^ (idx % 8))) h,
      length-set bits (idx / 8) (bit_or old (2 ^ (idx % 8))),
      bit_or-left old (2 ^ (idx % 8)) (other % 8),
      g,
    )

-- The bits that are set in the one string are set in the other.
abbrev Within : Bytes → Bytes → Type 0
Within bits bits' = (o : ℕ) → get_bit bits o ≡ true → get_bit bits' o ≡ true

all_probes-Within :
    (bits bits' : Bytes) (h : ℕ × ℕ) (m n : ℕ)
    → Within bits bits'
    → all_probes bits h m n ≡ true
    → all_probes bits' h m n ≡ true
all_probes-Within bits bits' h m zero w p = refl
all_probes-Within bits bits' h m (suc n) w p =
    ground (arith, all_probes-Within bits bits' h m n w, w (double_hash h.0 h.1 n m))

length-insert_probes :
    (bits : Bytes) (h : ℕ × ℕ) (m n : ℕ) → length (insert_probes bits h m n) ≡ length bits
length-insert_probes bits h m zero = refl
length-insert_probes bits h m (suc n) =
    length-set_bit (insert_probes bits h m n) (double_hash h.0 h.1 n m)
    ∙ length-insert_probes bits h m n

-- There is a byte for each bit.
abbrev HasRoom : Bytes → ℕ → Type 0
HasRoom bits m = (0 < m) × (m ≤ 8 * length bits)

probe-lt :
    (bits : Bytes) (h : ℕ × ℕ) (m n : ℕ)
    → HasRoom bits m
    → double_hash h.0 h.1 n m / 8 < length (insert_probes bits h m n)
unfolding double_hash
probe-lt bits h m n room = omega (
  arith,
  room.0,
  room.1,
  mod-lt ((h.0 + (n * h.1) % 2 ^ 32) % 2 ^ 32) room.0,
  length-insert_probes bits h m n,
)

insert_probes-Within :
    (bits : Bytes) (h : ℕ × ℕ) (m n : ℕ) → HasRoom bits m → Within bits (insert_probes bits h m n)
insert_probes-Within bits h m zero room o g = g
insert_probes-Within bits h m (suc n) room o g =
    get_bit-set_bit (insert_probes bits h m n) (double_hash h.0 h.1 n m) o
      (probe-lt bits h m n room) (insert_probes-Within bits h m n room o g)

all_probes-insert_probes :
    (bits : Bytes) (h : ℕ × ℕ) (m n : ℕ)
    → HasRoom bits m
    → all_probes (insert_probes bits h m n) h m n ≡ true
all_probes-insert_probes bits h m zero room = refl
all_probes-insert_probes bits h m (suc n) room =
    let before = insert_probes bits h m n in
    let idx = double_hash h.0 h.1 n m in
    let bound = probe-lt bits h m n room in
    ground (
      arith,
      all_probes-Within before (set_bit before idx) h m n
          (λ o g. get_bit-set_bit before idx o bound g),
      all_probes-insert_probes bits h m n room,
      get_bit-set_bit_self before idx bound,
    )

may_contain-insert_self :
    (f : BloomFilter) (key : Bytes) → HasRoom f.bits f.m → may_contain (insert f key) key ≡ true
unfolding may_contain insert
may_contain-insert_self f key room = all_probes-insert_probes f.bits (hash_pair key) f.m f.k room

may_contain-insert :
    (f : BloomFilter) (key other : Bytes)
    → HasRoom f.bits f.m
    → may_contain f other ≡ true
    → may_contain (insert f key) other ≡ true
unfolding may_contain insert
may_contain-insert f key other room h =
    all_probes-Within f.bits (insert_probes f.bits (hash_pair key) f.m f.k) (hash_pair other) f.m
      f.k (insert_probes-Within f.bits (hash_pair key) f.m f.k room) h

insert-HasRoom :
    (f : BloomFilter) (key : Bytes)
    → HasRoom f.bits f.m
    → HasRoom (insert f key).bits (insert f key).m
unfolding insert
insert-HasRoom f key room =
    (room.0, omega (arith, room.1, length-insert_probes f.bits (hash_pair key) f.m f.k))

insert_all-keeps :
    (keys : List Bytes) (f : BloomFilter) (key : Bytes)
    → HasRoom f.bits f.m
    → may_contain f key ≡ true
    → may_contain (insert_all keys f) key ≡ true
insert_all-keeps [] f key room h = h
insert_all-keeps (k ∷ keys) f key room h =
    insert_all-keeps keys (insert f k) key (insert-HasRoom f k room)
      (may_contain-insert f k key room h)

insert_all-members :
    (before after : List Bytes) (f : BloomFilter) (key : Bytes)
    → HasRoom f.bits f.m
    → may_contain (insert_all (before ++ (key ∷ after)) f) key ≡ true
insert_all-members [] after f key room =
    insert_all-keeps after (insert f key) key (insert-HasRoom f key room)
      (may_contain-insert_self f key room)
insert_all-members (k ∷ before) after f key room =
    insert_all-members before after (insert f k) key (insert-HasRoom f k room)

-- A filter of at least one bit has no false negatives: each of the keys that it was built from may be
-- contained, whatever the number of bits and of probes.
pub build-members :
    (before after : List Bytes) (key : Bytes) (m k : ℕ)
    → 0 < m
    → may_contain (build (before ++ (key ∷ after)) m k) key ≡ true
unfolding build
build-members before after key m k h =
    insert_all-members before after (new_filter m k) key
      (h, omega (arith, length-replicate {A = ℕ} ((m + 7) / 8) 0))

-- Such a filter also reads back from its bytes, if its number of bits fits in 32 of them and that of
-- its probes in 8.
pub decode-encode_bloom : (f : BloomFilter) → f.m < 256 ^ 4 → f.k < 256 → decode (encode f) ≡ ok f
unfolding encode decode to_le_bytes from_le_bytes
decode-encode_bloom f fits small =
    let read : from_le_bytes (to_le_bytes 4 f.m) ≡ f.m = from_le_bytes-to_le_bytes 4 f.m fits in
    ground (arith, read)
