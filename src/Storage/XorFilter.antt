-- ===== src/Storage/XorFilter.antt =====
-- crates/noedb-storage/src/xor_filter.rs: the filter of a sorted table. At most 2^29 keys, so that no
-- size wraps around.
pub mod Growth
pub mod Lost
pub mod RoundTrip
use Prim.Native.Nat.{bit_and, bit_or, bit_xor}
use noe_db.Base.{
  none, some, [], ◌∷◌, refl, zero, suc, ltb, leb, List, set, ◌++◌, ℕ, length, Bool, ◌^◌,
  if◌then◌else◌, get_or, Option, ◌-◌, max, take, replicate, ◌/◌, min, not, ◌%◌, drop, ◌==◌, ◌*◌,
  ◌||◌,
}
use noe_db.Base.Bytes.{Bytes}
use noe_db.Base.Words.{to_le_bytes, from_le_bytes}
use noe_db.Storage.Error.{Result, ok, err, ◌>>=◌, ◌>>◌, refuse_if, corrupt_sstable}
use noe_db.Storage.Checksum.{crc32}

-- A slot of 0 is empty.
pub record XorFilter : Type 0 where
  pub slots : List ℕ
  pub size : ℕ
  pub seed : ℕ

abbrev pub filter_seed : ℕ
filter_seed = 0x9E3779B97F4A7C15

abbrev pub largest_size : ℕ
largest_size = 2 ^ 20

abbrev pub smear : ℕ → ℕ → ℕ
smear shift n = bit_or n (n / 2 ^ shift)

unfoldable pub next_pow2 : ℕ → ℕ
next_pow2 n = if leb n 1 then 1 else suc (smear 16 (smear 8 (smear 4 (smear 2 (smear 1 (n - 1))))))

unfoldable pub fingerprint : Bytes → ℕ
fingerprint key =
    let h = crc32 key in let fp = bit_xor (h / 2 ^ 16) (h % 2 ^ 16) in if fp == 0 then 1 else fp

-- `h & (size - 1)` of both hashes
unfoldable pub locations : Bytes → ℕ → ℕ → ℕ × ℕ
locations key size seed =
    (bit_and (crc32 key) (size - 1), bit_and (crc32 (key ++ to_le_bytes 8 seed)) (size - 1))

-- A location is below the size, and there are `size` slots, so no index is out of range.
unfoldable pub insert : XorFilter → Bytes → XorFilter
insert f key =
    let fp = fingerprint key in
    let at = locations key f.size f.seed in
    record { slots = set (set f.slots at.0 fp) at.1 fp; size = f.size; seed = f.seed }

unfoldable pub may_contain : XorFilter → Bytes → Bool
may_contain f key =
    let fp = fingerprint key in
    let at = locations key f.size f.seed in
    get_or f.slots at.0 0 == fp || get_or f.slots at.1 0 == fp

abbrev pub new_filter : ℕ → XorFilter
new_filter size = record { slots = replicate size 0; size = size; seed = filter_seed }

abbrev pub insert_all : List Bytes → XorFilter → XorFilter
insert_all [] f = f
insert_all (key ∷ keys) f = insert_all keys (insert f key)

-- The loop over the keys: `none` where one is not found behind its insertion.
unfoldable pub try_insert_all : List Bytes → XorFilter → Option XorFilter
try_insert_all [] f = some f
try_insert_all (key ∷ keys) f =
    let rest = try_insert_all keys (insert f key) in
    if not (may_contain (insert f key) key) then none else rest

-- The loop over the sizes. `none`: the fuel ran out.
unfoldable pub grow : ℕ → List Bytes → ℕ → Option XorFilter
grow zero keys size = none
grow (suc fuel) keys size =
    let size' = min (2 * size) largest_size in
    let rest = grow fuel keys size' in
    elim (try_insert_all keys (new_filter size)) [
      | some f ↦ some f
      | none ↦
          if leb largest_size size' then some (insert_all keys (new_filter largest_size)) else rest
    ]

abbrev pub size_for : List Bytes → ℕ → ℕ
size_for keys expected_keys =
    let n = max (max (length keys) expected_keys) 1 in
    next_pow2 (max (min (n * 4) (2 ^ 32 - 1)) 256)

-- A size that does not double to the largest one is below it, so 20 doublings are enough.
unfoldable pub build : List Bytes → ℕ → Option XorFilter
build keys expected_keys = grow 21 keys (size_for keys expected_keys)

abbrev pub slot_bytes : List ℕ → Bytes
slot_bytes [] = []
slot_bytes (s ∷ slots) = to_le_bytes 2 s ++ slot_bytes slots

unfoldable pub encode : XorFilter → Bytes
encode f = to_le_bytes 4 f.size ++ (to_le_bytes 8 f.seed ++ slot_bytes f.slots)

-- `chunks_exact(2)`
abbrev pub slots_of : Bytes → List ℕ
slots_of (a ∷ b ∷ rest) = from_le_bytes (a ∷ b ∷ []) ∷ slots_of rest
slots_of _ = []

unfoldable pub decode : Bytes → Result XorFilter
decode file =
    refuse_if (ltb (length file) 12) corrupt_sstable
    >> (let size = from_le_bytes (take 4 file) in
        let seed = from_le_bytes (take 8 (drop 4 file)) in
        let rest = drop 12 file in
        refuse_if (not (length rest == size * 2)) corrupt_sstable
        >> ok (record { slots = slots_of rest; size = size; seed = seed }))
