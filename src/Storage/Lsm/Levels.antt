-- ===== src/Storage/Lsm/Levels.antt =====
-- The number of files in level 0.
use noe_db.Base.{
  none, some, [], ◌∷◌, refl, arith, Bool-cases, inl, inr, ◌≡◌, length, Option, subst, ltb, Bool,
  ◌≤◌, ◌-◌, leb, ◌++◌, ◌<◌, ℕ, ◌+◌, ◌&&◌, if◌then◌else◌, false, ◌*◌, min, ◌/◌, List, sym, ◌∙◌,
}
use noe_db.Base.Bytes.{Bytes}
use noe_db.Base.ByteMap.{ByteMap}
use noe_db.Mvcc.Version.{tombstone, Version}
use noe_db.Storage.Error.{Result, ok, err, ◌>>=◌, ok_inj, Result-cases}
use noe_db.Storage.Wal.{append_entry, put_entry}
use noe_db.Storage.MemTable
use noe_db.Storage.Compaction.Merge.{compact-terminates}
use noe_db.Storage.WriteStall
use noe_db.Storage.Lsm
use noe_db.Storage.Lsm.{
  LsmTree, LsmConfig, log_put, with_active, flush_active, run_compaction, maybe_flush_and_compact,
  put_version, bury, find_visible_version, latest_view, next_stamp, after_compaction, put_batch,
  put_all, after_batch,
}
use noe_db.Storage.Lsm.Logged.{bind_ok}
use noe_db.Storage.Lsm.Runs.{
  Runs, is_new, after, did_put, did_put_version, did_delete, deleted_by, buried_by, did_put_batch,
}
use noe_db.Mvcc.Key.{encode_internal_key}
use noe_db.Storage.Compaction.{compact_level0_to_l1}
use noe_db.Mvcc.Codec.{encode_version}
use noe_db.Storage.WriteStall.{WriteStallConfig}
use noe_db.Base.Words.{u64_max}

-- One file less than the trigger at most, and none where the trigger is 0.
abbrev pub IsLow : LsmTree → Type 0
IsLow t = length t.level0 ≤ t.config.l0_compaction_trigger - 1

-- The same levels and settings.
record IsAlike (t t' : LsmTree) : Type 0 where
  level0 : t'.level0 ≡ t.level0
  config : t'.config ≡ t.config

IsLow-IsAlike : (t t' : LsmTree) → IsAlike t t' → IsLow t → IsLow t'
IsLow-IsAlike t t' a low = rw (a.level0, a.config) low

log_put-IsAlike : (t t' : LsmTree) (key value : Bytes) → log_put t key value ≡ ok t' → IsAlike t t'
unfolding log_put
log_put-IsAlike t t' key value h =
    let logged =
      bind_ok (append_entry t.wal (put_entry key value))
        (λ wal. MemTable.put t.active key value >>= λ active. ok (with_active t wal active)) t' h in
    let done =
      bind_ok (MemTable.put t.active key value) (λ active. ok (with_active t logged.0 active)) t'
        logged.2 in
    subst (λ x. IsAlike t x) (ok_inj _ t' done.2) (record { level0 = refl; config = refl })

run_compaction-IsLow : (t t' : LsmTree) → run_compaction t ≡ ok t' → IsLow t'
unfolding run_compaction
run_compaction-IsLow t t' h = merged (compact-terminates t.level0)
  where
    merged : ((r : Result (ByteMap Bytes)) × (compact_level0_to_l1 t.level0 ≡ some r)) → IsLow t'
    merged (err e, same) = absurd (ground (arith, same, h))
    merged (ok file, same) =
        subst IsLow
          (ok_inj
            (record {
              wal = t.wal;
              active = t.active;
              level0 = [];
              level1 = t.level1 ++ (file ∷ []);
              config = t.config;
            })
            t' (ground (arith, same, h)))
          (omega arith)

maybe_flush_and_compact-IsLow :
    (t t' : LsmTree) → IsLow t → maybe_flush_and_compact t ≡ ok t' → IsLow t'
unfolding maybe_flush_and_compact
maybe_flush_and_compact-IsLow t t' low h =
    let flushed = flush_active t in
    elim (Bool-cases (ltb t.active.bytes t.config.max_mem_bytes)) [
      | inl small ↦ subst IsLow (ok_inj t t' (ground (arith, small, h))) low
      | inr full ↦
          elim (Bool-cases (leb flushed.config.l0_compaction_trigger (length flushed.level0))) [
            | inl many ↦ run_compaction-IsLow flushed t' (ground (arith, full, many, h))
            | inr few ↦
                subst IsLow (ok_inj flushed t' (ground (arith, full, few, h))) (ground (arith, few))
          ]
    ]

put-IsLow : (t t' : LsmTree) (key value : Bytes) → IsLow t → Lsm.put t key value ≡ ok t' → IsLow t'
unfolding Lsm.put
put-IsLow t t' key value low h =
    let gated =
      bind_ok (Lsm.gate_write t) (λ sleep. log_put t key value >>= λ t1. maybe_flush_and_compact t1)
        t' h in
    let logged = bind_ok (log_put t key value) (λ t1. maybe_flush_and_compact t1) t' gated.2 in
    maybe_flush_and_compact-IsLow logged.0 t'
      (IsLow-IsAlike t logged.0 (log_put-IsAlike t logged.0 key value logged.1) low) logged.2

put_all-IsAlike : (t : LsmTree) (entries : List (Bytes × Bytes)) → IsAlike t (put_all t entries).0
unfolding put_all
put_all-IsAlike t [] = record { level0 = refl; config = refl }
put_all-IsAlike t ((key, value) ∷ entries) = elim (Result-cases (log_put t key value)) [
  | inl (t', done) ↦
      let first = log_put-IsAlike t t' key value done in
      let later = put_all-IsAlike t' entries in
      let same : put_all t ((key, value) ∷ entries) ≡ put_all t' entries = ground (arith, done) in
      subst (λ (r : LsmTree × Result (Unit {0})). IsAlike t r.0) (sym same)
        (record { level0 = later.level0 ∙ first.level0; config = later.config ∙ first.config })
  | inr (e, failed) ↦
      let same : put_all t ((key, value) ∷ entries) ≡ (t, err e) = ground (arith, failed) in
      subst (λ (r : LsmTree × Result (Unit {0})). IsAlike t r.0) (sym same)
        (record { level0 = refl; config = refl })
]

-- A batch that did not fail.
abbrev BatchLow : LsmTree × Result (Unit {0}) → Type 0
BatchLow r = (r.1 ≡ ok tt) → IsLow r.0

after_batch-IsLow : (t : LsmTree) (r : Result (Unit {0})) → IsLow t → BatchLow (after_batch t r)
after_batch-IsLow t (err e) low = λ h. low
after_batch-IsLow t (ok u) low = elim (Result-cases (maybe_flush_and_compact t)) [
  | inl (t', done) ↦
      let same : after_batch t (ok u) ≡ (t', ok tt) = ground (arith, done) in
      subst BatchLow (sym same) (λ h. maybe_flush_and_compact-IsLow t t' low done)
  | inr (e, failed) ↦
      let same : after_batch t (ok u) ≡ (flush_active t, err e) = ground (arith, failed) in
      subst BatchLow (sym same) (λ h. cc)
]

put_batch-IsLow :
    (t : LsmTree) (entries : List (Bytes × Bytes)) → IsLow t → BatchLow (put_batch t entries)
unfolding put_batch
put_batch-IsLow t entries low = elim (Result-cases (Lsm.gate_write t)) [
  | inl (ms, opened) ↦
      let same : put_batch t entries ≡ after_batch (put_all t entries).0 (put_all t entries).1 =
        ground (arith, opened) in
      subst BatchLow (sym same) (
        after_batch-IsLow (put_all t entries).0 (put_all t entries).1
          (IsLow-IsAlike t (put_all t entries).0 (put_all-IsAlike t entries) low))
  | inr (e, stopped) ↦
      let same : put_batch t entries ≡ (t, err e) = ground (arith, stopped) in
      subst BatchLow (sym same) (λ h. low)
]

put_version-IsLow :
    (t t' : LsmTree) (key : Bytes) (ver : Version)
    → IsLow t
    → put_version t key ver ≡ ok t'
    → IsLow t'
unfolding put_version
put_version-IsLow t t' key ver low h =
    let ik = encode_internal_key key ver.commit_ts in
    let coded =
      bind_ok (encode_version ver) (λ val. log_put t ik val >>= λ t1. maybe_flush_and_compact t1) t'
        h in
    let logged = bind_ok (log_put t ik coded.0) (λ t1. maybe_flush_and_compact t1) t' coded.2 in
    maybe_flush_and_compact-IsLow logged.0 t'
      (IsLow-IsAlike t logged.0 (log_put-IsAlike t logged.0 ik coded.0 logged.1) low) logged.2

bury-IsLow :
    (file_get : ByteMap Bytes → Bytes → Option Bytes) (t : LsmTree) (r : LsmTree × Bool)
    (key : Bytes) (removed : Bool) (found : Option Bytes)
    → IsLow t
    → bury file_get t key removed found ≡ ok r
    → IsLow r.0
bury-IsLow file_get t r key removed none low h =
    let flushed = bind_ok (maybe_flush_and_compact t) (λ t1. ok (t1, removed)) r h in
    subst (λ (x : LsmTree × Bool). IsLow x.0) (ok_inj _ r flushed.2)
      (maybe_flush_and_compact-IsLow t flushed.0 low flushed.1)
bury-IsLow file_get t r key removed (some v) low h =
    let end = buried_by file_get t r key v removed h in
    subst (λ (x : LsmTree × Bool). IsLow x.0) (ok_inj _ r end.flushed)
      (maybe_flush_and_compact-IsLow end.mid end.last
        (put_version-IsLow t end.mid key (tombstone end.stamp) low end.buried) end.compacted)

delete-IsLow :
    (file_get : ByteMap Bytes → Bytes → Option Bytes) (t : LsmTree) (r : LsmTree × Bool)
    (key : Bytes)
    → IsLow t
    → Lsm.delete file_get t key ≡ ok r
    → IsLow r.0
delete-IsLow file_get t r key low h =
    let parts = deleted_by file_get t r key h in
    bury-IsLow file_get (with_active t parts.wal parts.removed.0) r key parts.removed.1 parts.found
      low parts.rest

-- After any writes on a new tree that did not fail, level 0 has fewer files than the trigger of the
-- merge, and none where the trigger is 0.
pub Runs-IsLow :
    (file_get : ByteMap Bytes → Bytes → Option Bytes) (t : LsmTree) → Runs file_get t → IsLow t
Runs-IsLow file_get _ (is_new config) = omega arith
Runs-IsLow file_get _ (after t t' run (did_put _ _ key value fits h)) =
    put-IsLow t t' key value (Runs-IsLow file_get t run) h
Runs-IsLow file_get _ (after t _ run (did_put_batch _ entries fits h)) =
    put_batch-IsLow t entries (Runs-IsLow file_get t run) h
Runs-IsLow file_get _ (after t t' run (did_put_version _ _ key ver fits h)) =
    put_version-IsLow t t' key ver (Runs-IsLow file_get t run) h
Runs-IsLow file_get _ (after t _ run (did_delete _ r key fits h)) =
    delete-IsLow file_get t r key (Runs-IsLow file_get t run) h

abbrev sleep_files : WriteStallConfig → ℕ → ℕ
sleep_files c l0_count =
    if leb c.l0_slowdown_trigger l0_count
    then min (min ((l0_count - c.l0_slowdown_trigger + 1) * c.slowdown_ms_per_file) u64_max)
        c.max_slowdown_ms
    else 0

abbrev sleep_mem : ℕ → ℕ → ℕ
sleep_mem mem_bytes max_mem_bytes =
    if ltb 0 max_mem_bytes && leb (max_mem_bytes * 9 / 10) mem_bytes then 5 else 0

sleep_files-le : (c : WriteStallConfig) (n : ℕ) → sleep_files c n ≤ c.max_slowdown_ms
sleep_files-le c n = elim (Bool-cases (leb c.l0_slowdown_trigger n)) [
  | inl slow ↦ rw slow (omega arith)
  | inr fast ↦ rw fast (omega arith)
]

sleep_mem-le : (a b : ℕ) → sleep_mem a b ≤ 5
sleep_mem-le a b = elim (Bool-cases (ltb 0 b && leb (b * 9 / 10) a)) [
  | inl slow ↦ rw slow (omega arith)
  | inr fast ↦ rw fast (omega arith)
]

gate-open :
    (c : WriteStallConfig) (n mem max_mem : ℕ)
    → leb c.l0_stop_trigger n ≡ false
    → (ms : ℕ) × (WriteStall.gate_write c n mem max_mem ≡ ok ms) × (ms ≤ c.max_slowdown_ms + 5)
unfolding WriteStall.gate_write
gate-open c n mem max_mem h = (
  sleep_files c n + sleep_mem mem max_mem,
  rw h refl,
  omega (arith, sleep_files-le c n, sleep_mem-le mem max_mem),
)

-- Where the count of files that stops writes is above 0 and not below the count that triggers the
-- merge: after any writes on a new tree that did not fail the gate lets the next write pass, behind
-- a sleep of at most 5 ms more than the configured one.
pub gate_write-opens :
    (file_get : ByteMap Bytes → Bytes → Option Bytes) (t : LsmTree)
    → Runs file_get t
    → 0 < t.config.write_stall.l0_stop_trigger
    → t.config.l0_compaction_trigger ≤ t.config.write_stall.l0_stop_trigger
    → (ms : ℕ) × (Lsm.gate_write t ≡ ok ms) × (ms ≤ t.config.write_stall.max_slowdown_ms + 5)
unfolding Lsm.gate_write
gate_write-opens file_get t run some_stop below =
    let low = Runs-IsLow file_get t run in
    let passes : leb t.config.write_stall.l0_stop_trigger (length t.level0) ≡ false =
      ground (arith, low, some_stop, below) in
    gate-open t.config.write_stall (length t.level0) t.active.bytes t.config.max_mem_bytes passes
