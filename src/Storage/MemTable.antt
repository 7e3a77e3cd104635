-- ===== src/Storage/MemTable.antt =====
-- crates/noedb-storage/src/memtable.rs: the sorted table in memory.
pub mod Counted
use noe_db.Base.{none, some, [], ◌∷◌, refl, Option, List, Bool, ℕ, ◌-◌, length, false, true, ◌+◌}
use noe_db.Base.Bytes.{Bytes, cmp_bytes, is_gt}
use noe_db.Base.ByteMap.{ByteMap, lookup, insert, remove, range}
use noe_db.Storage.Error.{Result, ok, err, ◌>>=◌, ◌>>◌, refuse_if, invalid_input}

-- `bytes` is the sum of the lengths of the keys and the values.
pub record MemTable : Type 0 where
  pub map : ByteMap Bytes
  pub bytes : ℕ

abbrev pub empty_table : MemTable
empty_table = record { map = []; bytes = 0 }

abbrev pub is_nil {ℓ} : {A : Type ℓ} → List A → Bool
is_nil [] = true
is_nil (x ∷ xs) = false

abbrev pub len : MemTable → ℕ
len t = length t.map

unfoldable pub is_empty : MemTable → Bool
is_empty t = is_nil t.map

abbrev pub validate_key : Bytes → Result (Unit {0})
validate_key key = refuse_if (is_nil key) invalid_input

abbrev pub entry_bytes : Bytes → Bytes → ℕ
entry_bytes key value = length key + length value

-- `self.bytes - entry_bytes(key, &old)` does not underflow in a table whose count is right.
abbrev pub bytes_after_put : MemTable → Bytes → Bytes → ℕ
bytes_after_put t key value = elim (lookup key t.map) [
  | some old ↦ t.bytes - entry_bytes key old + entry_bytes key value
  | none ↦ t.bytes + entry_bytes key value
]

unfoldable pub put : MemTable → Bytes → Bytes → Result MemTable
put t key value =
    validate_key key
    >> ok (record { map = insert key value t.map; bytes = bytes_after_put t key value })

unfoldable pub get : MemTable → Bytes → Result (Option Bytes)
get t key = validate_key key >> ok (lookup key t.map)

abbrev pub take_out : MemTable → Bytes → Option Bytes → MemTable × Bool
take_out t key none = (t, false)
take_out t key (some old) =
    (record { map = remove key t.map; bytes = t.bytes - entry_bytes key old }, true)

-- The table, and whether a value was removed.
unfoldable pub delete : MemTable → Bytes → Result (MemTable × Bool)
delete t key = validate_key key >> ok (take_out t key (lookup key t.map))
