-- ===== src/Storage/Lsm/Runs.antt =====
-- Writes one after the other, and the log.
use noe_db.Base.{
  none, some, refl, arith, Option, Bool, ◌≡◌, ℕ, length, ◌+◌, ◌<◌, ◌^◌, ap, subst, true, List, All,
}
use noe_db.Base.Bytes.{Bytes}
use noe_db.Base.ByteMap.{ByteMap}
use noe_db.Mvcc.Version.{Version, tombstone, CommitTs}
use noe_db.Storage.Error.{Result, ok, ◌>>=◌, ok_inj}
use noe_db.Storage.MemTable.{MemTable, empty_table}
use noe_db.Storage.MemTable
use noe_db.Storage.Wal.{delete_entry, append_entry, apply_entry, replay_into_memtable}
use noe_db.Storage.Wal.Recovery.{replay-append_all}
use noe_db.Storage.Lsm
use noe_db.Storage.Lsm.{
  LsmTree, LsmConfig, new_tree, with_active, put_version, bury, find_visible_version, latest_view,
  maybe_flush_and_compact, next_stamp, put_batch,
}
use noe_db.Storage.Lsm.Logged.{
  IsLogged, Fits, empty-IsLogged, bind_ok, log_entry-IsLogged, append_entry-has_key, put-IsLogged,
  put_version-IsLogged, maybe_flush_and_compact-IsLogged,
}
use noe_db.Storage.Lsm.Batches.{put_batch-IsLogged}

-- The parts of a burial that did not fail.
pub record Burial (file_get : ByteMap Bytes → Bytes → Option Bytes) (t : LsmTree)
    (r : LsmTree × Bool) (key : Bytes) : Type 0 where
  pub stamp : CommitTs
  pub mid : LsmTree
  pub last : LsmTree
  pub buried : put_version t key (tombstone stamp) ≡ ok mid
  pub compacted : maybe_flush_and_compact mid ≡ ok last
  pub flushed : ok (last, true) ≡ ok r

pub buried_by :
    (file_get : ByteMap Bytes → Bytes → Option Bytes) (t : LsmTree) (r : LsmTree × Bool)
    (key v : Bytes) (removed : Bool)
    → bury file_get t key removed (some v) ≡ ok r
    → Burial file_get t r key
buried_by file_get t r key v removed h =
    let seen =
      bind_ok (find_visible_version t key latest_view)
        (λ ver. put_version t key (tombstone (next_stamp file_get ver)) >>= λ t1.
          maybe_flush_and_compact t1 >>= λ t2. ok (t2, true))
        r h in
    let buried =
      bind_ok (put_version t key (tombstone (next_stamp file_get seen.0)))
        (λ t1. maybe_flush_and_compact t1 >>= λ t2. ok (t2, true)) r seen.2 in
    let flushed = bind_ok (maybe_flush_and_compact buried.0) (λ t2. ok (t2, true)) r buried.2 in
    record {
      stamp = next_stamp file_get seen.0;
      mid = buried.0;
      last = flushed.0;
      buried = buried.1;
      compacted = flushed.1;
      flushed = flushed.2;
    }

bury-IsLogged :
    (file_get : ByteMap Bytes → Bytes → Option Bytes) (t : LsmTree) (r : LsmTree × Bool)
    (key : Bytes) (removed : Bool) (found : Option Bytes)
    → IsLogged t.wal t.active
    → 39 + length key < 256 ^ 4
    → bury file_get t key removed found ≡ ok r
    → IsLogged r.0.wal r.0.active
bury-IsLogged file_get t r key removed none l fits h =
    let flushed = bind_ok (maybe_flush_and_compact t) (λ t1. ok (t1, removed)) r h in
    subst (λ (x : LsmTree × Bool). IsLogged x.0.wal x.0.active) (ok_inj _ r flushed.2)
      (maybe_flush_and_compact-IsLogged t flushed.0 l flushed.1)
bury-IsLogged file_get t r key removed (some v) l fits h =
    let end = buried_by file_get t r key v removed h in
    subst (λ (x : LsmTree × Bool). IsLogged x.0.wal x.0.active) (ok_inj _ r end.flushed)
      (maybe_flush_and_compact-IsLogged end.mid end.last
        (put_version-IsLogged t end.mid key (tombstone end.stamp) l (omega (arith, fits))
          end.buried)
        end.compacted)

-- The rest of a delete, from its log on.
abbrev found_in :
    (file_get : ByteMap Bytes → Bytes → Option Bytes) (t : LsmTree) (key wal : Bytes)
    (x : MemTable × Bool)
    → Result (LsmTree × Bool)
found_in file_get t key wal x = Lsm.get file_get (with_active t wal x.0) key >>= λ found.
    bury file_get (with_active t wal x.0) key x.1 found

abbrev deleted_in :
    (file_get : ByteMap Bytes → Bytes → Option Bytes) (t : LsmTree) (key wal : Bytes)
    → Result (LsmTree × Bool)
deleted_in file_get t key wal = MemTable.delete t.active key >>= λ x. found_in file_get t key wal x

abbrev written_delete :
    (file_get : ByteMap Bytes → Bytes → Option Bytes) (t : LsmTree) (key : Bytes)
    → Result (LsmTree × Bool)
written_delete file_get t key =
    append_entry t.wal (delete_entry key) >>= λ wal. deleted_in file_get t key wal

-- The parts of a delete that did not fail.
pub record Deletion (file_get : ByteMap Bytes → Bytes → Option Bytes) (t : LsmTree)
    (r : LsmTree × Bool) (key : Bytes) : Type 0 where
  pub wal : Bytes
  pub removed : MemTable × Bool
  pub found : Option Bytes
  pub logged : append_entry t.wal (delete_entry key) ≡ ok wal
  pub done : MemTable.delete t.active key ≡ ok removed
  pub rest : bury file_get (with_active t wal removed.0) key removed.1 found ≡ ok r

pub deleted_by :
    (file_get : ByteMap Bytes → Bytes → Option Bytes) (t : LsmTree) (r : LsmTree × Bool)
    (key : Bytes)
    → Lsm.delete file_get t key ≡ ok r
    → Deletion file_get t r key
unfolding Lsm.delete
deleted_by file_get t r key h =
    let gated = bind_ok (Lsm.gate_write t) (λ sleep. written_delete file_get t key) r h in
    let logged =
      bind_ok (append_entry t.wal (delete_entry key)) (λ wal. deleted_in file_get t key wal) r
        gated.2 in
    let removed =
      bind_ok (MemTable.delete t.active key) (λ x. found_in file_get t key logged.0 x) r logged.2 in
    let mid = with_active t logged.0 removed.0.0 in
    let found =
      bind_ok (Lsm.get file_get mid key) (λ o. bury file_get mid key removed.0.1 o) r removed.2 in
    record {
      wal = logged.0;
      removed = removed.0;
      found = found.0;
      logged = logged.1;
      done = removed.1;
      rest = found.2;
    }

delete-IsLogged :
    (file_get : ByteMap Bytes → Bytes → Option Bytes) (t : LsmTree) (r : LsmTree × Bool)
    (key : Bytes)
    → IsLogged t.wal t.active
    → 39 + length key < 256 ^ 4
    → Lsm.delete file_get t key ≡ ok r
    → IsLogged r.0.wal r.0.active
unfolding apply_entry
delete-IsLogged file_get t r key l fits h =
    let parts = deleted_by file_get t r key h in
    bury-IsLogged file_get (with_active t parts.wal parts.removed.0) r key parts.removed.1
      parts.found
      (log_entry-IsLogged t.wal parts.wal t.active parts.removed.0 (delete_entry key) l
        (record {
          has_key = append_entry-has_key t.wal parts.wal (delete_entry key) parts.logged;
          is_consistent = refl;
          fits = omega (arith, fits);
        })
        parts.logged (ap (λ x. x >>= λ y. ok y.0) parts.done))
      fits parts.rest

-- A write that did not fail, its record within 32 bits.
pub data Writes (file_get : ByteMap Bytes → Bytes → Option Bytes) : LsmTree → LsmTree → Type 0 where
  did_put :
      (t t' : LsmTree) (key value : Bytes)
      → Fits key value
      → Lsm.put t key value ≡ ok t'
      → Writes file_get t t'
  did_put_batch :
      (t : LsmTree) (entries : List (Bytes × Bytes))
      → All (λ (e : Bytes × Bytes). Fits e.0 e.1) entries
      → (put_batch t entries).1 ≡ ok tt
      → Writes file_get t (put_batch t entries).0
  did_put_version :
      (t t' : LsmTree) (key : Bytes) (ver : Version)
      → 39 + length key + length ver.value < 256 ^ 4
      → put_version t key ver ≡ ok t'
      → Writes file_get t t'
  did_delete :
      (t : LsmTree) (r : LsmTree × Bool) (key : Bytes)
      → 39 + length key < 256 ^ 4
      → Lsm.delete file_get t key ≡ ok r
      → Writes file_get t r.0

pub data Runs (file_get : ByteMap Bytes → Bytes → Option Bytes) : LsmTree → Type 0 where
  is_new : (config : LsmConfig) → Runs file_get (new_tree config)
  after : (t t' : LsmTree) → Runs file_get t → Writes file_get t t' → Runs file_get t'

Writes-IsLogged :
    (file_get : ByteMap Bytes → Bytes → Option Bytes) (t t' : LsmTree)
    → IsLogged t.wal t.active
    → Writes file_get t t'
    → IsLogged t'.wal t'.active
Writes-IsLogged file_get _ _ l (did_put t t' key value fits h) =
    put-IsLogged t t' key value l fits h
Writes-IsLogged file_get _ _ l (did_put_batch t entries fits h) =
    put_batch-IsLogged t entries l fits
Writes-IsLogged file_get _ _ l (did_put_version t t' key ver fits h) =
    put_version-IsLogged t t' key ver l fits h
Writes-IsLogged file_get _ _ l (did_delete t r key fits h) =
    delete-IsLogged file_get t r key l fits h

Runs-IsLogged :
    (file_get : ByteMap Bytes → Bytes → Option Bytes) (t : LsmTree)
    → Runs file_get t
    → IsLogged t.wal t.active
Runs-IsLogged file_get _ (is_new config) = empty-IsLogged
Runs-IsLogged file_get _ (after t t' run w) =
    Writes-IsLogged file_get t t' (Runs-IsLogged file_get t run) w

-- After any puts, batches, deletes and versions on a new tree, with flushes and merges as they fall, whose
-- records fit in 32 bits and none of which failed, a replay of the log gives the table in memory.
pub replay-Runs :
    (file_get : ByteMap Bytes → Bytes → Option Bytes) (t : LsmTree)
    → Runs file_get t
    → (n : ℕ) × (replay_into_memtable t.wal empty_table ≡ some (ok (t.active, n)))
replay-Runs file_get t run =
    let l = Runs-IsLogged file_get t run in
    let whole = replay-append_all l.entries t.wal empty_table l.writable l.written in
    (length l.entries, ground (arith, whole, l.applied))
