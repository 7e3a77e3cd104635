-- ===== src/Storage/XorFilter/Growth.antt =====
-- The sizes that the build of a filter tries.
use noe_db.Base.{
  some, [], ◌∷◌, refl, zero, suc, arith, length, length-set, ℕ, List, set, ◌≡◌, ◌<◌, get_or,
  length-replicate, true, ◌++◌, ◌∙◌,
}
use noe_db.Base.Bytes.{Bytes}
use noe_db.Base.Digits.{bit_and-lt}
use noe_db.Storage.Checksum.{crc32}
use noe_db.Storage.XorFilter.{
  XorFilter, insert, insert_all, may_contain, locations, next_pow2, try_insert_all, build,
  new_filter, grow, fingerprint, size_for,
}
use noe_db.Base.Words.{to_le_bytes}

-- The filter has a slot for each location.
pub record IsSized (f : XorFilter) : Type 0 where
  pub has_slots : length f.slots ≡ f.size
  pub has_one : 0 < f.size

pub locations-lt :
    (key : Bytes) (size seed : ℕ)
    → 0 < size
    → ((locations key size seed).0 < size) × ((locations key size seed).1 < size)
unfolding locations
locations-lt key size seed h =
    (bit_and-lt (crc32 key) size h, bit_and-lt (crc32 (key ++ to_le_bytes 8 seed)) size h)

pub insert-IsSized : (f : XorFilter) (key : Bytes) → IsSized f → IsSized (insert f key)
unfolding insert
insert-IsSized f key h = record {
  has_slots =
      length-set (set f.slots (locations key f.size f.seed).0 (fingerprint key))
        (locations key f.size f.seed).1 (fingerprint key)
      ∙ length-set f.slots (locations key f.size f.seed).0 (fingerprint key)
      ∙ h.has_slots;
  has_one = h.has_one;
}

pub get_or-set_self : (xs : List ℕ) (i v d : ℕ) → i < length xs → get_or (set xs i v) i d ≡ v
get_or-set_self [] i v d h = absurd (omega arith)
get_or-set_self (x ∷ xs) zero v d h = refl
get_or-set_self (x ∷ xs) (suc i) v d h = get_or-set_self xs i v d (omega arith)

pub may_contain-insert :
    (f : XorFilter) (key : Bytes) → IsSized f → may_contain (insert f key) key ≡ true
unfolding may_contain insert
may_contain-insert f key h =
    let at = locations key f.size f.seed in
    let bound = (locations-lt key f.size f.seed h.has_one).1 in
    let fp = fingerprint key in
    let second =
      get_or-set_self (set f.slots at.0 fp) at.1 fp 0
        (omega (arith, bound, h.has_slots, length-set f.slots at.0 fp)) in
    ground (arith, second)

try_insert_all-insert_all :
    (keys : List Bytes) (f : XorFilter)
    → IsSized f
    → try_insert_all keys f ≡ some (insert_all keys f)
unfolding try_insert_all
try_insert_all-insert_all [] f h = refl
try_insert_all-insert_all (key ∷ keys) f h = ground (
  arith,
  may_contain-insert f key h,
  try_insert_all-insert_all keys (insert f key) (insert-IsSized f key h),
)

pub new_filter-IsSized : (n : ℕ) → 0 < n → IsSized (new_filter n)
new_filter-IsSized n h = record { has_slots = length-replicate n 0; has_one = h }

grow-suc :
    (fuel : ℕ) (keys : List Bytes) (size : ℕ)
    → 0 < size
    → grow (suc fuel) keys size ≡ some (insert_all keys (new_filter size))
unfolding grow
grow-suc fuel keys size h =
    ground (arith, try_insert_all-insert_all keys (new_filter size) (new_filter-IsSized size h))

pub size_for-pos : (keys : List Bytes) (expected_keys : ℕ) → 0 < size_for keys expected_keys
unfolding next_pow2
size_for-pos keys expected_keys = ground arith

-- The build never grows the table: whatever the keys are, it returns the table of the first size with
-- the keys inserted one after the other.
pub build-insert_all :
    (keys : List Bytes) (expected_keys : ℕ)
    → build keys expected_keys ≡ some (insert_all keys (new_filter (size_for keys expected_keys)))
unfolding build
build-insert_all keys expected_keys =
    grow-suc 20 keys (size_for keys expected_keys) (size_for-pos keys expected_keys)
