-- ===== src/Storage/Wal/Replay.antt =====
-- What a replay leaves in a table.
use noe_db.Base.{
  ◌⊎◌, inl, inr, Option-cases, subst, ◌∙◌, ap, none, some, [], ◌∷◌, refl, arith, Option, ◌≡◌, List,
  if◌then◌else◌, Bool,
}
use noe_db.Base.Bytes.{Bytes, eq_of_cmp_bytes}
use noe_db.Base.ByteMap.{lookup, lookup-insert, lookup-remove}
use noe_db.Storage.Error.{ok, ok_inj, Result-cases}
use noe_db.Storage.MemTable.{MemTable, is_nil}
use noe_db.Storage.MemTable
use noe_db.Storage.MemTable.Counted.{IsCounted, put-IsCounted, delete-IsCounted}
use noe_db.Storage.Wal.{OpType, LogEntry, put_op, delete_op, apply_entry, apply_entries, same_bytes}

-- What an entry says of a key that read as `before`.
abbrev said_by : Bytes → Option Bytes → LogEntry → Option Bytes
said_by k before e =
    if same_bytes k e.key then elim e.op [ put_op ↦ some e.value | delete_op ↦ none ] else before

-- What the last of the entries for a key says of it.
abbrev pub last_said : Bytes → Option Bytes → List LogEntry → Option Bytes
last_said k before [] = before
last_said k before (e ∷ entries) = last_said k (said_by k before e) entries

op_cases : (o : OpType) → (o ≡ put_op) ⊎ (o ≡ delete_op)
op_cases put_op = inl refl
op_cases delete_op = inr refl

lookup-put :
    (t t' : MemTable) (key value k : Bytes)
    → MemTable.put t key value ≡ ok t'
    → lookup k t'.map ≡ (if same_bytes k key then some value else lookup k t.map)
unfolding MemTable.put
lookup-put t t' [] value k h = cc
lookup-put t t' (b ∷ key) value k h =
    ground (arith, ok_inj _ t' h, lookup-insert (b ∷ key) k value t.map)

lookup-take_out :
    (t : MemTable) (key k : Bytes)
    → lookup k (MemTable.take_out t key (lookup key t.map)).0.map
      ≡ (if same_bytes k key then none else lookup k t.map)
lookup-take_out t key k = elim (Option-cases (lookup key t.map)) [
  | inl gone ↦ rw gone (ground (arith, gone, eq_of_cmp_bytes k key))
  | inr (old, held) ↦ rw held (lookup-remove key k t.map)
]

lookup-delete :
    (t : MemTable) (r : MemTable × Bool) (key k : Bytes)
    → MemTable.delete t key ≡ ok r
    → lookup k r.0.map ≡ (if same_bytes k key then none else lookup k t.map)
unfolding MemTable.delete
lookup-delete t r [] k h = cc
lookup-delete t r (b ∷ key) k h =
    subst
      (λ (x : MemTable × Bool).
        lookup k x.0.map ≡ (if same_bytes k (b ∷ key) then none else lookup k t.map))
      (ok_inj _ r h) (lookup-take_out t (b ∷ key) k)

-- Both parts of an entry that was applied.
applied :
    (t t' : MemTable) (e : LogEntry)
    → apply_entry t e ≡ ok t'
    → ((e.op ≡ put_op) × (MemTable.put t e.key e.value ≡ ok t'))
      ⊎ ((e.op ≡ delete_op)
          × ((r : MemTable × Bool) × (MemTable.delete t e.key ≡ ok r) × (r.0 ≡ t')))
unfolding apply_entry
applied t t' e h = elim (op_cases e.op) [
  | inl is_put ↦ inl (is_put, ground (arith, is_put, h))
  | inr is_delete ↦ elim (Result-cases (MemTable.delete t e.key)) [
    | inl (r, done) ↦ inr (is_delete, (r, done, ground (arith, is_delete, done, h)))
    | inr (x, bad) ↦ absurd (ground (arith, is_delete, bad, h))
  ]
]

apply_entry-IsCounted :
    (t t' : MemTable) (e : LogEntry) → IsCounted t → apply_entry t e ≡ ok t' → IsCounted t'
apply_entry-IsCounted t t' e c h = elim (applied t t' e h) [
  | inl (is_put, done) ↦ put-IsCounted t t' e.key e.value c done
  | inr (is_delete, (r, done, same)) ↦ subst IsCounted same (delete-IsCounted t r e.key c done)
]

lookup-apply_entry :
    (t t' : MemTable) (e : LogEntry) (k : Bytes)
    → apply_entry t e ≡ ok t'
    → lookup k t'.map ≡ said_by k (lookup k t.map) e
lookup-apply_entry t t' e k h = elim (applied t t' e h) [
  | inl (is_put, done) ↦ ground (arith, is_put, lookup-put t t' e.key e.value k done)
  | inr (is_delete, (r, done, same)) ↦
      ground (arith, is_delete, same, lookup-delete t r e.key k done)
]

-- Entries that apply without an error leave under every key what the last entry for the key says (its
-- value, or nothing after a delete; what was there where no entry has the key), and a table that is in
-- order with a right count of its bytes is so again.
pub apply_entries_lem :
    (entries : List LogEntry) (t t' : MemTable)
    → IsCounted t
    → apply_entries t entries ≡ ok t'
    → IsCounted t' × ((k : Bytes) → lookup k t'.map ≡ last_said k (lookup k t.map) entries)
unfolding apply_entries
apply_entries_lem [] t t' c h =
    subst (λ (x : MemTable). IsCounted x × ((k : Bytes) → lookup k x.map ≡ lookup k t.map))
      (ok_inj t t' h) (c, λ k. refl)
apply_entries_lem (e ∷ entries) t t' c h = elim (Result-cases (apply_entry t e)) [
  | inl (mid, done) ↦
      let later =
        apply_entries_lem entries mid t' (apply_entry-IsCounted t mid e c done)
          (ground (arith, done, h)) in
      (
        later.0,
        λ k.
            later.1 k
            ∙ ap (λ (o : Option Bytes). last_said k o entries) (lookup-apply_entry t mid e k done),
      )
  | inr (x, bad) ↦ absurd (ground (arith, bad, h))
]
