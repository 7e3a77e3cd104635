-- ===== src/Storage/Error.antt =====
-- crates/noedb-storage/src/error.rs: the errors of storage, without their messages.
use noe_db.Base.{◌⊎◌, inl, inr, refl, ◌≡◌, Bool, true, false}

pub data StorageError : Type 0 where
  invalid_input : StorageError
  io : StorageError
  corrupt_wal : StorageError
  checksum_mismatch : StorageError
  corrupt_sstable : StorageError
  resource_exhausted : StorageError

pub data Result {ℓ} (A : Type ℓ) : Type ℓ where
  ok : A → Result A
  err : StorageError → Result A

infixl 5 ◌>>=◌ ◌>>◌
abbrev pub ◌>>=◌ {ℓ κ} : {A : Type ℓ} {B : Type κ} → Result A → (A → Result B) → Result B
err failure >>= next = err failure
ok value >>= next = next value

abbrev pub ◌>>◌ {ℓ} : {B : Type ℓ} → Result (Unit {0}) → Result B → Result B
check >> then_do = check >>= λ u. then_do

-- An early return of an error where the test holds.
abbrev pub refuse_if : Bool → StorageError → Result (Unit {0})
refuse_if true e = err e
refuse_if false e = ok tt

pub ok_inj {ℓ} : {A : Type ℓ} (a b : A) → ok a ≡ ok b → a ≡ b
ok_inj a b h = cc

pub Result-cases {ℓ} :
    {A : Type ℓ} (r : Result A) → ((a : A) × (r ≡ ok a)) ⊎ ((e : StorageError) × (r ≡ err e))
Result-cases (ok a) = inl (a, refl)
Result-cases (err e) = inr (e, refl)
