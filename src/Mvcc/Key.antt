-- ===== src/Mvcc/Key.antt =====
-- crates/noedb-storage/src/mvcc/key.rs: internal keys, `user_key || !commit_ts`.
pub mod Order
use noe_db.Base.{◌+◌, ◌-◌, Option, none, some, [], ◌∷◌, ◌++◌, length, take, ◌==◌, if◌then◌else◌}
use noe_db.Base.Bytes.{Bytes, to_be_bytes}
use noe_db.Base.Words.{u64_max, saturating_sub}
use noe_db.Mvcc.Version.{CommitTs}

-- `!commit_ts` of a 64-bit word is what it lacks of the greatest word.
unfoldable pub encode_internal_key : Bytes → CommitTs → Bytes
encode_internal_key user_key ts = user_key ++ to_be_bytes 8 (u64_max - ts)

unfoldable pub decode_user_key : Bytes → Bytes
decode_user_key internal = take (saturating_sub (length internal) 8) internal

-- The key with its last byte below 255 raised and those behind it dropped; `none` if there is none.
unfoldable pub raise_last : Bytes → Option Bytes
raise_last [] = none
raise_last (b ∷ bs) = elim (raise_last bs) [
  | some e ↦ some (b ∷ e)
  | none ↦ if b == 255 then none else some ((b + 1) ∷ [])
]

unfoldable pub user_key_prefix_end : Bytes → Bytes
unfolding raise_last
user_key_prefix_end k = elim (raise_last k) [ some e ↦ e | none ↦ [] ]
