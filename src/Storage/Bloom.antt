-- ===== src/Storage/Bloom.antt =====
-- crates/noedb-storage/src/bloom.rs: the Bloom filter. Its two sizes, which `build` computes in floating
-- point, are arguments.
pub mod Members
use Prim.Native.Nat.{bit_and, bit_or}
use noe_db.Base.{
  none, some, [], ◌∷◌, refl, zero, suc, ltb, leb, length, ℕ, List, ◌++◌, Bool, ◌/◌, replicate, drop,
  ◌%◌, ◌+◌, set, true, ◌*◌, get_or, ◌&&◌, take, ◌^◌, not, ◌==◌,
}
use noe_db.Base.Bytes.{Bytes}
use noe_db.Base.Words.{to_le_bytes, from_le_bytes}
use noe_db.Storage.Error.{Result, ok, err, ◌>>=◌, ◌>>◌, refuse_if, corrupt_sstable}
use noe_db.Storage.Checksum.{crc32}

pub record BloomFilter : Type 0 where
  pub bits : Bytes
  pub m : ℕ
  pub k : ℕ

unfoldable pub hash_pair : Bytes → ℕ × ℕ
hash_pair key = let h1 = crc32 key in (h1, bit_or (crc32 (to_le_bytes 4 h1 ++ key)) 1)

unfoldable pub double_hash : ℕ → ℕ → ℕ → ℕ → ℕ
double_hash h1 h2 i m = ((h1 + (i * h2) % 2 ^ 32) % 2 ^ 32) % m

-- A bit behind the last byte is not set.
unfoldable pub set_bit : Bytes → ℕ → Bytes
set_bit bits idx = set bits (idx / 8) (bit_or (get_or bits (idx / 8) 0) (2 ^ (idx % 8)))

unfoldable pub get_bit : Bytes → ℕ → Bool
get_bit bits idx =
    ltb (idx / 8) (length bits) && not (bit_and (get_or bits (idx / 8) 0) (2 ^ (idx % 8)) == 0)

-- The probes `0` to `n - 1`, in this order.
abbrev pub insert_probes : Bytes → ℕ × ℕ → ℕ → ℕ → Bytes
insert_probes bits h m zero = bits
insert_probes bits h m (suc n) = set_bit (insert_probes bits h m n) (double_hash h.0 h.1 n m)

unfoldable pub insert : BloomFilter → Bytes → BloomFilter
insert f key = record { bits = insert_probes f.bits (hash_pair key) f.m f.k; m = f.m; k = f.k }

abbrev pub all_probes : Bytes → ℕ × ℕ → ℕ → ℕ → Bool
all_probes bits h m zero = true
all_probes bits h m (suc n) = all_probes bits h m n && get_bit bits (double_hash h.0 h.1 n m)

unfoldable pub may_contain : BloomFilter → Bytes → Bool
may_contain f key = all_probes f.bits (hash_pair key) f.m f.k

abbrev pub insert_all : List Bytes → BloomFilter → BloomFilter
insert_all [] f = f
insert_all (key ∷ keys) f = insert_all keys (insert f key)

-- `(m as usize).div_ceil(8)` bytes of zeros
abbrev pub new_filter : ℕ → ℕ → BloomFilter
new_filter m k = record { bits = replicate ((m + 7) / 8) 0; m = m; k = k }

unfoldable pub build : List Bytes → ℕ → ℕ → BloomFilter
build keys m k = insert_all keys (new_filter m k)

unfoldable pub encode : BloomFilter → Bytes
encode f = to_le_bytes 4 f.m ++ ((f.k % 256) ∷ 0 ∷ 0 ∷ 0 ∷ f.bits)

unfoldable pub decode : Bytes → Result BloomFilter
decode file =
    refuse_if (ltb (length file) 8) corrupt_sstable
    >> ok (record { bits = drop 8 file; m = from_le_bytes (take 4 file); k = get_or file 4 0 })
