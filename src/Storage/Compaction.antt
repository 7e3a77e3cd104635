-- ===== src/Storage/Compaction.antt =====
-- crates/noedb-storage/src/compaction.rs: the merge of the files of level 0. A file is the map that it
-- was written from, and its scan gives the entries in their order.
pub mod Merge
use Prim.Native.Nat.{compare, Ordering}
use Prim.Native.Nat.Ordering.{lt, eq, gt}
use noe_db.Base.{
  none, some, [], ◌∷◌, refl, zero, suc, ltb, leb, ℕ, List, if◌then◌else◌, Option, length, ◌+◌,
}
use noe_db.Base.Bytes.{Bytes, cmp_bytes, is_lt}
use noe_db.Base.ByteMap.{ByteMap}
use noe_db.Storage.Error.{Result, ok, err, ◌>>=◌, invalid_input}
use noe_db.Storage.MemTable.{MemTable, empty_table}
use noe_db.Storage.MemTable

-- `Reverse((key, value, file))`
pub record MergeEntry : Type 0 where
  pub key : Bytes
  pub value : Bytes
  pub file : ℕ

abbrev pub or_else : Ordering → Ordering → Ordering
or_else eq second = second
or_else first second = first

-- The order of the tuples.
unfoldable pub cmp_entry : MergeEntry → MergeEntry → Ordering
cmp_entry a b =
    or_else (cmp_bytes a.key b.key) (or_else (cmp_bytes a.value b.value) (compare a.file b.file))

-- The heap gives its least entry first: a list in ascending order.
unfoldable pub push : MergeEntry → List MergeEntry → List MergeEntry
push e [] = e ∷ []
push e (x ∷ heap) =
    let rest = push e heap in if is_lt (cmp_entry x e) then x ∷ rest else e ∷ x ∷ heap

-- The first entry of each stream on the heap, and what is left of the streams.
unfoldable pub first_entries : ℕ → List (ByteMap Bytes) → List MergeEntry × List (ByteMap Bytes)
first_entries i [] = ([], [])
first_entries i ([] ∷ streams) = let r = first_entries (suc i) streams in (r.0, [] ∷ r.1)
first_entries i (((k, v) ∷ stream) ∷ streams) =
    let r = first_entries (suc i) streams in
    (push (record { key = k; value = v; file = i }) r.0, stream ∷ r.1)

-- `streams[i].next()`
unfoldable pub next_of : ℕ → List (ByteMap Bytes) → Option (Bytes × Bytes) × List (ByteMap Bytes)
next_of i [] = (none, [])
next_of zero ([] ∷ streams) = (none, [] ∷ streams)
next_of zero ((e ∷ stream) ∷ streams) = (some e, stream ∷ streams)
next_of (suc i) (stream ∷ streams) = let r = next_of i streams in (r.0, stream ∷ r.1)

abbrev pub push_next : ℕ → Option (Bytes × Bytes) → List MergeEntry → List MergeEntry
push_next i none heap = heap
push_next i (some (k, v)) heap = push (record { key = k; value = v; file = i }) heap

-- The loop over the heap. `none`: the fuel ran out.
unfoldable pub merge :
    ℕ → List MergeEntry → List (ByteMap Bytes) → MemTable → Option (Result MemTable)
unfolding push next_of
merge fuel [] streams merged = some (ok merged)
merge zero (e ∷ heap) streams merged = none
merge (suc fuel) (e ∷ heap) streams merged = elim (MemTable.put merged e.key e.value) [
  | err x ↦ some (err x)
  | ok merged' ↦
      let r = next_of e.file streams in merge fuel (push_next e.file r.0 heap) r.1 merged'
]

abbrev pub total_entries : List (ByteMap Bytes) → ℕ
total_entries [] = 0
total_entries (file ∷ files) = length file + total_entries files

-- The file of level 1. Each round takes an entry, so the fuel is enough.
unfoldable pub compact_level0_to_l1 : List (ByteMap Bytes) → Option (Result (ByteMap Bytes))
unfolding merge first_entries
compact_level0_to_l1 [] = some (err invalid_input)
compact_level0_to_l1 (file ∷ files) =
    let r = first_entries 0 (file ∷ files) in
    elim (merge (total_entries (file ∷ files)) r.0 r.1 empty_table) [
      | none ↦ none
      | some merged ↦ some (merged >>= λ t. ok t.map)
    ]
