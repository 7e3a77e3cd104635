-- ===== src/Storage/Lsm.antt =====
-- crates/noedb-storage/src (lsm.rs, lsm_mvcc.rs): the tree of a log, a table in memory and files in two
-- levels. A file is the map that it was written from, and the log is that of the active segment: a
-- flush removes the others. Keys have a byte below 255: for the others the range of the table panics.
pub mod Logged
pub mod Batches
pub mod Runs
pub mod Levels
pub mod Flush
use noe_db.Base.{
  none, some, [], ◌∷◌, refl, zero, suc, ltb, leb, if◌then◌else◌, ℕ, Option, Bool, List, true,
  length, take, ◌||◌, ◌++◌,
}
use noe_db.Base.Bytes.{Bytes, cmp_bytes, is_lt}
use noe_db.Base.ByteMap.{ByteMap, lookup, range}
use noe_db.Mvcc.Version.{Version, tombstone, CommitTs}
use noe_db.Mvcc.View.{ReadView, is_visible}
use noe_db.Mvcc.Key.{encode_internal_key, decode_user_key, user_key_prefix_end}
use noe_db.Mvcc.Codec.{encode_version, decode_or_legacy, same_bytes, magic}
use noe_db.Mvcc.Table.{live_value, consider, view_at}
use noe_db.Storage.Error.{Result, ok, err, ◌>>=◌}
use noe_db.Storage.MemTable.{MemTable, empty_table, is_empty}
use noe_db.Storage.MemTable
use noe_db.Storage.Wal.{append_entry, header, put_entry, delete_entry}
use noe_db.Storage.WriteStall
use noe_db.Storage.WriteStall.{WriteStallConfig}
use noe_db.Storage.Compaction.{compact_level0_to_l1}
use noe_db.Base.Words.{u64_max, saturating_add}

pub record LsmConfig : Type 0 where
  pub max_mem_bytes : ℕ
  pub l0_compaction_trigger : ℕ
  pub write_stall : WriteStallConfig

-- The files of a level, the oldest first.
pub record LsmTree : Type 0 where
  pub wal : Bytes
  pub active : MemTable
  pub level0 : List (ByteMap Bytes)
  pub level1 : List (ByteMap Bytes)
  pub config : LsmConfig

abbrev pub new_tree : LsmConfig → LsmTree
new_tree config = record {
  wal = header;
  active = empty_table;
  level0 = [];
  level1 = [];
  config = config;
}

unfoldable pub gate_write : LsmTree → Result ℕ
gate_write t =
    WriteStall.gate_write t.config.write_stall (length t.level0) t.active.bytes
      t.config.max_mem_bytes

abbrev pub with_active : LsmTree → Bytes → MemTable → LsmTree
with_active t wal active = record {
  wal = wal;
  active = active;
  level0 = t.level0;
  level1 = t.level1;
  config = t.config;
}

unfoldable pub flush_active : LsmTree → LsmTree
flush_active t = if is_empty t.active then t else record {
  wal = header;
  active = empty_table;
  level0 = t.level0 ++ (t.active.map ∷ []);
  level1 = t.level1;
  config = t.config;
}

-- A merge that ran out of fuel would leave the tree as it is; it does not.
abbrev pub after_compaction : LsmTree → Option (Result (ByteMap Bytes)) → Result LsmTree
after_compaction t none = ok t
after_compaction t (some (err e)) = err e
after_compaction t (some (ok file)) = ok (record {
  wal = t.wal;
  active = t.active;
  level0 = [];
  level1 = t.level1 ++ (file ∷ []);
  config = t.config;
})

unfoldable pub run_compaction : LsmTree → Result LsmTree
run_compaction t = after_compaction t (compact_level0_to_l1 t.level0)

unfoldable pub maybe_flush_and_compact : LsmTree → Result LsmTree
maybe_flush_and_compact t =
    if ltb t.active.bytes t.config.max_mem_bytes
    then ok t
    else (let t' = flush_active t in
        if leb t'.config.l0_compaction_trigger (length t'.level0) then run_compaction t' else ok t')

-- The log and the table in memory, before a flush.
unfoldable pub log_put : LsmTree → Bytes → Bytes → Result LsmTree
log_put t key value = do
  wal ← append_entry t.wal (put_entry key value)
  active ← MemTable.put t.active key value
  ok (with_active t wal active)

unfoldable pub put : LsmTree → Bytes → Bytes → Result LsmTree
put t key value = do sleep ← gate_write t; t' ← log_put t key value; maybe_flush_and_compact t'

-- The loop over the entries of a batch, up to the first that fails: what is written before stays.
unfoldable pub put_all : LsmTree → List (Bytes × Bytes) → LsmTree × Result (Unit {0})
put_all t [] = (t, ok tt)
put_all t ((key, value) ∷ entries) = elim (log_put t key value) [
  | err e ↦ (t, err e)
  | ok t' ↦ put_all t' entries
]

-- A merge that fails leaves the flushed tree.
abbrev pub after_batch : LsmTree → Result (Unit {0}) → LsmTree × Result (Unit {0})
after_batch t (err e) = (t, err e)
after_batch t (ok u) = elim (maybe_flush_and_compact t) [
  | err e ↦ (flush_active t, err e)
  | ok t' ↦ (t', ok tt)
]

unfoldable pub put_batch : LsmTree → List (Bytes × Bytes) → LsmTree × Result (Unit {0})
put_batch t entries = elim (gate_write t) [
  | err e ↦ (t, err e)
  | ok sleep ↦ after_batch (put_all t entries).0 (put_all t entries).1
]

unfoldable pub put_version : LsmTree → Bytes → Version → Result LsmTree
put_version t user_key version = do
  val ← encode_version version
  t' ← log_put t (encode_internal_key user_key version.commit_ts) val
  maybe_flush_and_compact t'

abbrev pub is_version_of : Bytes → Bytes → Bool
is_version_of user_key ik = same_bytes (decode_user_key ik) user_key || same_bytes ik user_key

-- One entry of the scan.
abbrev pub consider_entry :
    Bytes → ReadView → Option Version → Bytes → Bytes → Result (Option Version)
consider_entry user_key view best ik raw =
    if is_version_of user_key ik
    then (decode_or_legacy raw >>= λ ver. ok (consider (is_visible view ver none) ver best))
    else ok best

unfoldable pub best_in : Bytes → ReadView → Option Version → ByteMap Bytes → Result (Option Version)
best_in user_key view best [] = ok best
best_in user_key view best ((ik, raw) ∷ entries) =
    consider_entry user_key view best ik raw >>= λ best'. best_in user_key view best' entries

abbrev pub window : Bytes → ByteMap Bytes → ByteMap Bytes
window user_key m = range user_key (user_key_prefix_end user_key) m

-- The maps in the order of the scan: the first of equal stamps stays.
unfoldable pub best_of :
    Bytes → ReadView → Option Version → List (ByteMap Bytes) → Result (Option Version)
best_of user_key view best [] = ok best
best_of user_key view best (m ∷ maps) =
    best_in user_key view best (window user_key m) >>= λ best'. best_of user_key view best' maps

abbrev pub rev_onto : List (ByteMap Bytes) → List (ByteMap Bytes) → List (ByteMap Bytes)
rev_onto [] acc = acc
rev_onto (f ∷ files) acc = rev_onto files (f ∷ acc)

-- `level0.iter().rev().chain(level1.iter().rev())`
abbrev pub newest_first : LsmTree → List (ByteMap Bytes)
newest_first t = rev_onto t.level0 (rev_onto t.level1 [])

unfoldable pub find_visible_version : LsmTree → Bytes → ReadView → Result (Option Version)
find_visible_version t user_key view = best_of user_key view none (t.active.map ∷ newest_first t)

unfoldable pub get_visible : LsmTree → Bytes → ReadView → Result (Option Bytes)
get_visible t user_key view = find_visible_version t user_key view >>= λ ver. ok (live_value ver)

abbrev pub latest_view : ReadView
latest_view = view_at u64_max

unfoldable pub get_latest : LsmTree → Bytes → Result (Option Bytes)
get_latest t user_key = get_visible t user_key latest_view

-- The raw value of the table in memory decides, if it is not a broken version.
abbrev pub raw_answer : Option Bytes → Option (Option Bytes)
raw_answer none = none
raw_answer (some raw) =
    if same_bytes (take 4 raw) magic
    then (elim (decode_or_legacy raw) [ ok ver ↦ some (live_value (some ver)) | err e ↦ none ])
    else some (some raw)

-- The lookup of a file, through its filter and its index, is a parameter.
module _ (file_get : ByteMap Bytes → Bytes → Option Bytes) where
  unfoldable pub get_from_files : List (ByteMap Bytes) → Bytes → Option Bytes
  get_from_files [] key = none
  get_from_files (file ∷ files) key = elim (file_get file key) [
    | some v ↦ some v
    | none ↦ get_from_files files key
  ]

  abbrev pub get_below : LsmTree → Bytes → Option Version → Option Bytes
  get_below t key none = get_from_files (newest_first t) key
  get_below t key (some ver) = live_value (some ver)

  abbrev pub get_behind_raw : LsmTree → Bytes → Option (Option Bytes) → Result (Option Bytes)
  get_behind_raw t key (some answer) = ok answer
  get_behind_raw t key none =
      find_visible_version t key latest_view >>= λ ver. ok (get_below t key ver)

  unfoldable pub get : LsmTree → Bytes → Result (Option Bytes)
  get t key = do raw ← MemTable.get t.active key; get_behind_raw t key (raw_answer raw)

  abbrev pub next_stamp : Option Version → CommitTs
  next_stamp none = 2
  next_stamp (some v) = saturating_add v.commit_ts 1

  abbrev pub bury : LsmTree → Bytes → Bool → Option Bytes → Result (LsmTree × Bool)
  bury t key removed none = maybe_flush_and_compact t >>= λ t'. ok (t', removed)
  bury t key removed (some v) = do
    ver ← find_visible_version t key latest_view
    t' ← put_version t key (tombstone (next_stamp ver))
    t'' ← maybe_flush_and_compact t'
    ok (t'', true)

  -- The tree, and whether a value was there.
  unfoldable pub delete : LsmTree → Bytes → Result (LsmTree × Bool)
  delete t key = do
    sleep ← gate_write t
    wal ← append_entry t.wal (delete_entry key)
    (active, removed) ← MemTable.delete t.active key
    found ← get (with_active t wal active) key
    bury (with_active t wal active) key removed found
