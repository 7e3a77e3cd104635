-- ===== src/Storage/MemTable/Counted.antt =====
-- The count of the bytes of a table.
use noe_db.Base.{
  inl, inr, Option-cases, none, some, [], ◌∷◌, refl, ℕ, ◌≡◌, length, arith, ◌+◌, ◌≤◌, subst, Bool,
}
use noe_db.Base.Bytes.{Bytes, eq_of_cmp_bytes}
use noe_db.Base.ByteMap.{ByteMap, lookup, insert, remove}
use noe_db.Base.ByteMap.Sorted.{
  IsSorted, lookup-AllAbove, AllAbove-trans, IsSorted-remove, IsSorted-insert,
}
use noe_db.Storage.Error.{ok, ok_inj}
use noe_db.Storage.MemTable.{bytes_after_put, take_out, MemTable, put, delete}

abbrev pub total : ByteMap Bytes → ℕ
total [] = 0
total ((k, v) ∷ m) = length k + length v + total m

-- The keys are in order, and the count is that of the entries.
pub record IsCounted (t : MemTable) : Type 0 where
  pub sorted : IsSorted t.map
  pub counted : t.bytes ≡ total t.map

lookup_size :
    (k v : Bytes) (m : ByteMap Bytes) → lookup k m ≡ some v → length k + length v ≤ total m
unfolding lookup
lookup_size k v [] h = cc
lookup_size k v ((j, w) ∷ m) h = ground (arith, lookup_size k v m, eq_of_cmp_bytes k j)

total-insert_new :
    (k v : Bytes) (m : ByteMap Bytes)
    → lookup k m ≡ none
    → total (insert k v m) ≡ total m + (length k + length v)
unfolding lookup insert
total-insert_new k v [] h = omega arith
total-insert_new k v ((j, w) ∷ m) h = ground (arith, total-insert_new k v m)

total-insert_old :
    (k v old : Bytes) (m : ByteMap Bytes)
    → IsSorted m
    → lookup k m ≡ some old
    → total (insert k v m) + length old ≡ total m + length v
unfolding lookup insert
total-insert_old k v old [] s h = cc
total-insert_old k v old ((j, w) ∷ m) s h = ground (
  arith,
  total-insert_old k v old m,
  eq_of_cmp_bytes k j,
  lookup-AllAbove k m,
  AllAbove-trans k j m,
)

total-remove-none :
    (k : Bytes) (m : ByteMap Bytes) → lookup k m ≡ none → total (remove k m) ≡ total m
unfolding lookup remove
total-remove-none k [] h = refl
total-remove-none k ((j, w) ∷ m) h = ground (arith, total-remove-none k m)

total-remove :
    (k old : Bytes) (m : ByteMap Bytes)
    → IsSorted m
    → lookup k m ≡ some old
    → total (remove k m) + (length k + length old) ≡ total m
unfolding lookup remove
total-remove k old [] s h = cc
total-remove k old ((j, w) ∷ m) s h =
    ground
      (arith, total-remove k old m, total-remove-none k m, eq_of_cmp_bytes k j, lookup-AllAbove k m)

entry_bytes-put :
    (t : MemTable) (key value : Bytes)
    → IsCounted t
    → bytes_after_put t key value ≡ total (insert key value t.map)
entry_bytes-put t key value c = elim (Option-cases (lookup key t.map)) [
  | inl new ↦ ground (arith, total-insert_new key value t.map new, c.counted)
  | inr (old, held) ↦ ground (
    arith,
    total-insert_old key value old t.map c.sorted held,
    lookup_size key old t.map held,
    c.counted,
  )
]

pub put-IsCounted :
    (t t' : MemTable) (key value : Bytes) → IsCounted t → put t key value ≡ ok t' → IsCounted t'
unfolding put
put-IsCounted t t' [] value c h = cc
put-IsCounted t t' (b ∷ key) value c h =
    subst IsCounted
      (ok_inj
        (record { map = insert (b ∷ key) value t.map; bytes = bytes_after_put t (b ∷ key) value })
        t' h)
      (record {
        sorted = IsSorted-insert (b ∷ key) value t.map c.sorted;
        counted = entry_bytes-put t (b ∷ key) value c;
      })

take_out-IsCounted :
    (t : MemTable) (key : Bytes) → IsCounted t → IsCounted (take_out t key (lookup key t.map)).0
take_out-IsCounted t key c = elim (Option-cases (lookup key t.map)) [
  | inl e ↦ rw e c
  | inr (old, held) ↦ rw held (record {
    sorted = IsSorted-remove key t.map c.sorted;
    counted = ground (arith, total-remove key old t.map c.sorted held, c.counted);
  })
]

pub delete-IsCounted :
    (t : MemTable) (r : MemTable × Bool) (key : Bytes)
    → IsCounted t
    → delete t key ≡ ok r
    → IsCounted r.0
unfolding delete
delete-IsCounted t r [] c h = cc
delete-IsCounted t r (b ∷ key) c h =
    subst (λ (x : MemTable × Bool). IsCounted x.0)
      (ok_inj (take_out t (b ∷ key) (lookup (b ∷ key) t.map)) r h)
      (take_out-IsCounted t (b ∷ key) c)
