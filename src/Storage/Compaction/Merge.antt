-- ===== src/Storage/Compaction/Merge.antt =====
-- The loop of the merge, and the value that it keeps for a key.
use Prim.Native.Nat.{compare, Ordering}
use Prim.Native.Nat.Ordering.{lt, gt}
use noe_db.Base.{
  none, some, [], ◌∷◌, refl, zero, suc, inl, inr, arith, List, ◌≡◌, ℕ, length, false, ◌+◌, ◌≤◌,
  Option, ◌∙◌, ap,
}
use noe_db.Base.Bytes.{Bytes, cmp_bytes, cmp_bytes_refl}
use noe_db.Base.ByteMap.{ByteMap, lookup, insert}
use noe_db.Storage.Error.{Result, ok, err, ◌>>=◌, Result-cases, invalid_input}
use noe_db.Storage.MemTable.{MemTable, empty_table, is_nil}
use noe_db.Storage.MemTable
use noe_db.Storage.Compaction.{
  MergeEntry, push, push_next, next_of, merge, total_entries, first_entries, compact_level0_to_l1,
  cmp_entry, or_else,
}
use noe_db.Base.ByteMap.Sorted.{cmp_bytes_turn}

length-push : (e : MergeEntry) (heap : List MergeEntry) → length (push e heap) ≡ suc (length heap)
unfolding push
length-push e [] = refl
length-push e (x ∷ heap) = ground (arith, length-push e heap)

abbrev count_of : Option (Bytes × Bytes) → ℕ
count_of none = 0
count_of (some e) = 1

length-push_next :
    (i : ℕ) (o : Option (Bytes × Bytes)) (heap : List MergeEntry)
    → length (push_next i o heap) ≡ length heap + count_of o
length-push_next i none heap = omega arith
length-push_next i (some (k, v)) heap =
    omega (arith, length-push (record { key = k; value = v; file = i }) heap)

next_of-size :
    (i : ℕ) (streams : List (ByteMap Bytes))
    → count_of (next_of i streams).0 + total_entries (next_of i streams).1 ≡ total_entries streams
unfolding next_of
next_of-size i [] = refl
next_of-size zero ([] ∷ streams) = omega arith
next_of-size zero ((e ∷ stream) ∷ streams) = omega arith
next_of-size (suc i) (stream ∷ streams) = omega (arith, next_of-size i streams)

first_entries-size :
    (i : ℕ) (streams : List (ByteMap Bytes))
    → length (first_entries i streams).0 + total_entries (first_entries i streams).1
      ≡ total_entries streams
unfolding first_entries
first_entries-size i [] = refl
first_entries-size i ([] ∷ streams) = omega (arith, first_entries-size (suc i) streams)
first_entries-size i (((k, v) ∷ stream) ∷ streams) = omega (
  arith,
  first_entries-size (suc i) streams,
  length-push (record { key = k; value = v; file = i }) (first_entries (suc i) streams).0,
)

merge-terminates :
    (fuel : ℕ) (heap : List MergeEntry) (streams : List (ByteMap Bytes)) (merged : MemTable)
    → length heap + total_entries streams ≤ fuel
    → (r : Result MemTable) × (merge fuel heap streams merged ≡ some r)
unfolding merge
merge-terminates fuel [] streams merged h = (ok merged, refl)
merge-terminates zero (e ∷ heap) streams merged h = absurd (omega arith)
merge-terminates (suc fuel) (e ∷ heap) streams merged h =
    elim (Result-cases (MemTable.put merged e.key e.value)) [
      | inr (x, bad) ↦ (err x, ground (arith, bad))
      | inl (merged', done) ↦
          let r = next_of e.file streams in
          let ih =
            merge-terminates fuel (push_next e.file r.0 heap) r.1 merged'
              (omega (arith, next_of-size e.file streams, length-push_next e.file r.0 heap)) in
          (ih.0, ground (arith, done, ih.1))
    ]

-- The merge of a level comes to an end within its fuel.
pub compact-terminates :
    (files : List (ByteMap Bytes))
    → (r : Result (ByteMap Bytes)) × (compact_level0_to_l1 files ≡ some r)
unfolding compact_level0_to_l1
compact-terminates [] = (err invalid_input, refl)
compact-terminates (file ∷ files) =
    let r = first_entries 0 (file ∷ files) in
    let end =
      merge-terminates (total_entries (file ∷ files)) r.0 r.1 empty_table
        (omega (arith, first_entries-size 0 (file ∷ files))) in
    (end.0 >>= λ t. ok t.map, ground (arith, end.1))

abbrev pub one_entry : Bytes → Bytes → ByteMap Bytes
one_entry key value = (key, value) ∷ []

abbrev entry_at : Bytes → Bytes → ℕ → MergeEntry
entry_at key value file = record { key = key; value = value; file = file }

cmp_entry-value :
    (key v w : Bytes) (a b : ℕ) (r : Ordering)
    → or_else (cmp_bytes v w) (compare a b) ≡ r
    → cmp_entry (entry_at key v a) (entry_at key w b) ≡ r
unfolding cmp_entry
cmp_entry-value key v w a b r h = rw (cmp_bytes_refl key) h

put_first :
    (key value : Bytes)
    → is_nil key ≡ false
    → MemTable.put empty_table key value
      ≡ ok (record { map = one_entry key value; bytes = length key + length value })
unfolding MemTable.put lookup insert
put_first key value named = ground (arith, named)

put_second :
    (key old value : Bytes)
    → is_nil key ≡ false
    → MemTable.put (record { map = one_entry key old; bytes = length key + length old }) key value
      ≡ ok (record { map = one_entry key value; bytes = length key + length value })
unfolding MemTable.put lookup insert
put_second key old value named = ground (arith, named, cmp_bytes_refl key)

merge-step :
    (fuel : ℕ) (e : MergeEntry) (heap : List MergeEntry) (streams : List (ByteMap Bytes))
    (merged merged' : MemTable)
    → MemTable.put merged e.key e.value ≡ ok merged'
    → next_of e.file streams ≡ (none, streams)
    → merge (suc fuel) (e ∷ heap) streams merged ≡ merge fuel heap streams merged'
unfolding merge
merge-step fuel e heap streams merged merged' done dry = ground (arith, done, dry)

abbrev no_more : List (ByteMap Bytes)
no_more = [] ∷ [] ∷ []

two_on_heap :
    (key first second : Bytes) (a b : ℕ)
    → next_of a no_more ≡ (none, no_more)
    → next_of b no_more ≡ (none, no_more)
    → is_nil key ≡ false
    → merge 2 (entry_at key first a ∷ entry_at key second b ∷ []) no_more empty_table
      ≡ some (ok (record { map = one_entry key second; bytes = length key + length second }))
unfolding merge
two_on_heap key first second a b da db named =
    let once : MemTable = record { map = one_entry key first; bytes = length key + length first } in
    let twice : MemTable = record {
      map = one_entry key second;
      bytes = length key + length second;
    } in
    merge-step 1 (entry_at key first a) (entry_at key second b ∷ []) no_more empty_table once
      (put_first key first named) da
    ∙ merge-step 0 (entry_at key second b) [] no_more once twice (put_second key first second named)
        db

push_before : (e x : MergeEntry) → cmp_entry x e ≡ gt → push e (x ∷ []) ≡ e ∷ x ∷ []
unfolding push
push_before e x h = ground (arith, h)

push_behind : (e x : MergeEntry) → cmp_entry x e ≡ lt → push e (x ∷ []) ≡ x ∷ e ∷ []
unfolding push
push_behind e x h = ground (arith, h)

compact_two :
    (key v w : Bytes) (heap : List MergeEntry) (t : MemTable)
    → push (entry_at key v 0) (entry_at key w 1 ∷ []) ≡ heap
    → merge 2 heap no_more empty_table ≡ some (ok t)
    → compact_level0_to_l1 (one_entry key v ∷ one_entry key w ∷ []) ≡ some (ok t.map)
unfolding compact_level0_to_l1 first_entries push
compact_two key v w heap t h m = ground (arith, h, m)

-- Of two files of level 0 that hold the same key, one that is not empty, and nothing else, the merge
-- keeps the greater value, whichever of the files is the newer.
pub compact-keeps_greater :
    (key low high : Bytes)
    → is_nil key ≡ false
    → cmp_bytes low high ≡ lt
    → (compact_level0_to_l1 (one_entry key low ∷ one_entry key high ∷ [])
        ≡ some (ok (one_entry key high)))
      × (compact_level0_to_l1 (one_entry key high ∷ one_entry key low ∷ [])
          ≡ some (ok (one_entry key high)))
unfolding next_of
compact-keeps_greater key low high named less = (
  compact_two key low high _ _
      (push_before (entry_at key low 0) (entry_at key high 1) (
        cmp_entry-value key high low 1 0 gt
          (ap (λ o. or_else o (compare 1 0)) (cmp_bytes_turn low high less))))
      (two_on_heap key low high 0 1 refl refl named),
  compact_two key high low _ _
      (push_behind (entry_at key high 0) (entry_at key low 1)
        (cmp_entry-value key low high 1 0 lt (ap (λ o. or_else o (compare 1 0)) less)))
      (two_on_heap key low high 1 0 refl refl named),
)
