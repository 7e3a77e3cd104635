-- ===== src/Storage/Tests.antt =====
-- Examples, and the theorems of storage at concrete inputs.
use noe_db.Base.{
  some, [], ◌∷◌, refl, arith, All, length, ◌++◌, List, ◌≡◌, ℕ, Option, take, false, ◌≤◌, true, drop,
  ◌+◌, ◌-◌,
}
use noe_db.Base.Bytes.{Bytes, cmp_bytes}
use noe_db.Base.ByteMap.{ByteMap, lookup, insert, remove}
use noe_db.Base.Words.{to_le_bytes}
use noe_db.Mvcc.Version.{Version, tombstone}
use noe_db.Storage.Error.{Result, ok, err, corrupt_wal, ◌>>=◌}
use noe_db.Storage.Checksum.{crc32, crc_round, crc_rounds, update}
use noe_db.Storage.MemTable.{MemTable, empty_table}
use noe_db.Storage.MemTable
use noe_db.Storage.MemTable.Counted.{IsCounted}
use noe_db.Storage.Wal.{
  LogEntry, put_entry, delete_entry, header, append_entry, encode, payload_of, record_of,
  apply_entry, apply_entries, read_all, replay_into_memtable,
}
use noe_db.Storage.Wal.RoundTrip.{IsWritable}
use noe_db.Storage.Wal.Recovery.{append_all, IsTorn, replay-append_all, read_all-torn}
use noe_db.Storage.Wal.Replay.{last_said, apply_entries_lem}
use noe_db.Storage.Block.{encode_block, decode_block_at}
use noe_db.Storage.Block.RoundTrip.{decode_block_at-encode_block}
use noe_db.Storage.XorFilter
use noe_db.Storage.XorFilter.Lost.{Overwrites}
use noe_db.Storage.XorFilter.Growth.{build-insert_all}
use noe_db.Storage.Bloom
use noe_db.Storage.Bloom.Members.{build-members}
use noe_db.Storage.Compaction.{compact_level0_to_l1}
use noe_db.Storage.Compaction.Merge.{one_entry, compact-keeps_greater}
use noe_db.Storage.WriteStall
use noe_db.Storage.WriteStall.{default_stall}
use noe_db.Storage.Lsm
use noe_db.Storage.Lsm.{
  LsmTree, LsmConfig, new_tree, flush_active, log_put, maybe_flush_and_compact,
}
use noe_db.Storage.Lsm.Runs.{Runs, is_new, after, did_put, replay-Runs}
use noe_db.Storage.Lsm.Levels.{Runs-IsLow, gate_write-opens}

abbrev or_default {ℓ} : {A : Type ℓ} → A → Result A → A
or_default d (ok a) = a
or_default d (err e) = d

-- The check value of CRC-32: that of the digits from 1 to 9.
crc32_digits :
    crc32 (b'1' ∷ b'2' ∷ b'3' ∷ b'4' ∷ b'5' ∷ b'6' ∷ b'7' ∷ b'8' ∷ b'9' ∷ []) ≡ 0xCBF43926
unfolding crc32 update crc_rounds crc_round
crc32_digits = refl

abbrev one_put : LogEntry
one_put = put_entry (1 ∷ []) (2 ∷ 3 ∷ [])

abbrev one_delete : LogEntry
one_delete = delete_entry (1 ∷ [])

abbrev two_entries : List LogEntry
two_entries = one_put ∷ one_delete ∷ []

one_put-IsWritable : IsWritable one_put
one_put-IsWritable = record { has_key = refl; is_consistent = refl; fits = omega arith }

one_delete-IsWritable : IsWritable one_delete
one_delete-IsWritable = record { has_key = refl; is_consistent = refl; fits = omega arith }

two_entries-IsWritable : All IsWritable two_entries
two_entries-IsWritable = (one_put-IsWritable, (one_delete-IsWritable, tt))

abbrev two_log : Bytes
two_log = or_default [] (append_all header two_entries)

two_log_written : append_all header two_entries ≡ ok two_log
unfolding append_entry encode payload_of record_of crc32 update crc_rounds crc_round to_le_bytes
two_log_written = refl

replay-append_all_example :
    replay_into_memtable two_log empty_table
    ≡ some (apply_entries empty_table two_entries >>= λ t'. ok (t', 2))
replay-append_all_example =
    replay-append_all two_entries two_log empty_table two_entries-IsWritable two_log_written

abbrev whole_put : Bytes
whole_put = or_default [] (encode one_put)

one_put-IsTorn : IsTorn (take 10 whole_put) one_put
unfolding encode payload_of record_of crc32 update crc_rounds crc_round to_le_bytes
one_put-IsTorn = (omega arith, (drop 10 whole_put, omega arith, refl))

read_all-torn_example :
    (read_all (two_log ++ take 10 whole_put) ≡ some (err corrupt_wal))
    × (replay_into_memtable (two_log ++ take 10 whole_put) empty_table ≡ some (err corrupt_wal))
read_all-torn_example =
    read_all-torn two_entries two_log (take 10 whole_put) one_put empty_table two_entries-IsWritable
      one_put-IsWritable two_log_written one_put-IsTorn

abbrev put_table : MemTable
put_table = or_default empty_table (apply_entries empty_table two_entries)

empty_table-IsCounted : IsCounted empty_table
empty_table-IsCounted = record { sorted = tt; counted = refl }

put_table_applied : apply_entries empty_table two_entries ≡ ok put_table
unfolding apply_entries apply_entry MemTable.put MemTable.delete insert remove lookup
put_table_applied = refl

apply_entries_lem_example :
    IsCounted put_table
    × ((k : Bytes) → lookup k put_table.map ≡ last_said k (lookup k empty_table.map) two_entries)
apply_entries_lem_example =
    apply_entries_lem two_entries empty_table put_table empty_table-IsCounted put_table_applied

abbrev lost_key : Bytes
lost_key = b'/' ∷ []

abbrev later_key : Bytes
later_key = b'c' ∷ b'g' ∷ []

abbrev both_keys : List Bytes
both_keys = lost_key ∷ later_key ∷ []

abbrev both_filter : XorFilter.XorFilter
both_filter = XorFilter.insert_all both_keys (XorFilter.new_filter (XorFilter.size_for both_keys 2))

both_filter_lem : XorFilter.build both_keys 2 ≡ some both_filter
both_filter_lem = build-insert_all both_keys 2

later_key-Overwrites :
    Overwrites later_key lost_key (XorFilter.size_for both_keys 2) XorFilter.filter_seed
unfolding XorFilter.next_pow2 XorFilter.locations XorFilter.fingerprint crc32 update crc_rounds
    crc_round to_le_bytes
later_key-Overwrites = record { slots_swapped = refl; other_fingerprint = refl }

build-members_example : Bloom.may_contain (Bloom.build both_keys 64 4) later_key ≡ true
build-members_example = build-members (lost_key ∷ []) [] later_key 64 4 (omega arith)

compact-keeps_greater_example :
    (compact_level0_to_l1 (one_entry lost_key (1 ∷ []) ∷ one_entry lost_key (2 ∷ []) ∷ [])
      ≡ some (ok (one_entry lost_key (2 ∷ []))))
    × (compact_level0_to_l1 (one_entry lost_key (2 ∷ []) ∷ one_entry lost_key (1 ∷ []) ∷ [])
        ≡ some (ok (one_entry lost_key (2 ∷ []))))
compact-keeps_greater_example =
    compact-keeps_greater lost_key (1 ∷ []) (2 ∷ []) refl (unfold cmp_bytes in refl)

abbrev small_config : LsmConfig
small_config = record {
  max_mem_bytes = 1000;
  l0_compaction_trigger = 4;
  write_stall = default_stall;
}

abbrev first_tree : LsmTree
first_tree = new_tree small_config

abbrev put_tree : LsmTree
put_tree = or_default first_tree (Lsm.put first_tree lost_key (1 ∷ []))

abbrev plain_get : ByteMap Bytes → Bytes → Option Bytes
plain_get m key = lookup key m

put_tree_lem : Lsm.put first_tree lost_key (1 ∷ []) ≡ ok put_tree
unfolding Lsm.put Lsm.gate_write WriteStall.gate_write log_put maybe_flush_and_compact append_entry
    encode payload_of record_of crc32 update crc_rounds crc_round to_le_bytes MemTable.put insert
    lookup
put_tree_lem = refl

put_tree-Runs : Runs plain_get put_tree
put_tree-Runs =
    after first_tree put_tree (is_new small_config)
      (did_put first_tree put_tree lost_key (1 ∷ []) (omega arith) put_tree_lem)

replay-Runs_example :
    (n : ℕ) × (replay_into_memtable put_tree.wal empty_table ≡ some (ok (put_tree.active, n)))
replay-Runs_example = replay-Runs plain_get put_tree put_tree-Runs

Runs-IsLow_example : length put_tree.level0 ≤ put_tree.config.l0_compaction_trigger - 1
Runs-IsLow_example = Runs-IsLow plain_get put_tree put_tree-Runs

gate_write-opens_example :
    (ms : ℕ) × (Lsm.gate_write put_tree ≡ ok ms)
    × (ms ≤ put_tree.config.write_stall.max_slowdown_ms + 5)
unfolding Lsm.put Lsm.gate_write WriteStall.gate_write log_put maybe_flush_and_compact append_entry
    encode payload_of record_of crc32 update crc_rounds crc_round to_le_bytes MemTable.put insert
    lookup
gate_write-opens_example =
    gate_write-opens plain_get put_tree put_tree-Runs (omega arith) (omega arith)

-- A put, a flush, a delete and a put of the same key.
abbrev flushed_tree : LsmTree
flushed_tree = flush_active put_tree

abbrev deleted_tree : LsmTree
deleted_tree = (or_default (first_tree, false) (Lsm.delete plain_get flushed_tree lost_key)).0

abbrev again_tree : LsmTree
again_tree = or_default first_tree (Lsm.put deleted_tree lost_key (7 ∷ []))

abbrev dead : Version
dead = tombstone 2

-- A checksum that is the sum of the bytes.
abbrev sum_of : Bytes → ℕ
sum_of [] = 0
sum_of (b ∷ bytes) = b + sum_of bytes

decode_block_at-encode_block_example :
    decode_block_at sum_of ((9 ∷ []) ++ (encode_block sum_of (1 ∷ 2 ∷ []) ++ (8 ∷ []))) 1 true
    ≡ ok (1 ∷ 2 ∷ [])
decode_block_at-encode_block_example =
    decode_block_at-encode_block sum_of (9 ∷ []) (1 ∷ 2 ∷ []) (8 ∷ []) (omega arith) (omega arith)
