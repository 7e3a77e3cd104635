-- ===== src/Txn/Calls/Snapshots.antt =====
-- What a snapshot reads under the later calls of all sessions.
use noe_db.Base.{
  refl, [], ◌∷◌, suc, ◌≤◌, ◌≡◌, ap, subst, arith, sym, ◌<◌, ℕ, ◌∙◌, Option-cases, Bool-cases, inl,
  inr, true, Bool, false,
}
use noe_db.Mvcc.Table.{get, put, delete, MvccMemTable}
use noe_db.Txn.Manager.{TxnManager, begin, get_key, with_txn, track_rw_dependencies}
use noe_db.Txn.Calls.{
  Call, after_call, begin_call, get_call, put_call, delete_call, commit_call, rollback_call,
  gc_call,
}
use noe_db.Txn.Transaction.{put_op, delete_op, done, failed, TxnResult}
use noe_db.Txn.Ssi.{allow, abort, SsiDecision, check_commit}
use noe_db.Txn.Commit.{
  commit_with_durable, rollback, apply_writes, apply_op, make_durable, finish_commit, Durable,
  after_durable, after_poll, after_check, check_and_commit,
}
use noe_db.Mvcc.Table.Stamps.{
  IsClean, get-commit_late, commit_version-IsClean, abort_intents-IsClean,
}
use noe_db.Mvcc.View.{ReadView}
use noe_db.Base.Bytes.{Bytes}
use noe_db.Base.ByteMap.{ByteMap}
use noe_db.Mvcc.Version.{next_ts, TimestampOracle, CommitTs, TxnId, put_version, tombstone}
use noe_db.Txn.Transaction.{WriteOp, put_op, Transaction, failed, done}
use noe_db.Base.Words.{u64_max}
use noe_db.Base.IdMap.{contains_id, lookup_id}
use noe_db.Txn.Deadlock.{poll}

-- A table that is clean, and in which a snapshot reads what it reads in another.
abbrev pub Keeps : ReadView → MvccMemTable → MvccMemTable → Type 0
Keeps view t t' = IsClean t' × ((key : Bytes) → get t' key view ≡ get t key view)

keep : (view : ReadView) (t t' : MvccMemTable) → IsClean t → t' ≡ t → Keeps view t t'
keep view t t' clean e = subst (λ x. Keeps view t x) (sym e) (clean, λ key. refl)

apply_op-Keeps :
    (view : ReadView) (key : Bytes) (op : WriteOp) (ts : CommitTs) (t : MvccMemTable)
    → IsClean t
    → view.snapshot_ts < ts
    → ts ≤ u64_max
    → Keeps view t (apply_op key op ts t)
unfolding apply_op put delete
apply_op-Keeps view key (put_op v) ts t clean late w = (
  commit_version-IsClean t key (put_version ts v) clean w,
  λ k. get-commit_late t view key k (put_version ts v) clean late w,
)
apply_op-Keeps view key delete_op ts t clean late w = (
  commit_version-IsClean t key (tombstone ts) clean w,
  λ k. get-commit_late t view key k (tombstone ts) clean late w,
)

apply_writes-Keeps :
    (view : ReadView) (pending : ByteMap WriteOp) (ts : CommitTs) (t : MvccMemTable)
    → IsClean t
    → view.snapshot_ts < ts
    → ts ≤ u64_max
    → Keeps view t (apply_writes pending ts t)
unfolding apply_writes
apply_writes-Keeps view [] ts t clean late w = (clean, λ key. refl)
apply_writes-Keeps view ((key, op) ∷ pending) ts t clean late w =
    let first = apply_op-Keeps view key op ts t clean late w in
    let rest = apply_writes-Keeps view pending ts (apply_op key op ts t) first.0 late w in
    (rest.0, λ k. rest.1 k ∙ first.1 k)

-- After a call the clock has moved on by one step at most, and the snapshot reads as before.
abbrev pub Steps : ReadView → TxnManager → TxnManager → Type 0
Steps view m m' =
    (m.oracle.last ≤ m'.oracle.last)
    × (m'.oracle.last ≤ suc m.oracle.last)
    × Keeps view m.mvcc m'.mvcc

-- A call that is no garbage collection.
abbrev pub keeps_versions : Call → Bool
keeps_versions (gc_call ts) = false
keeps_versions (begin_call now s) = true
keeps_versions (get_call s key) = true
keeps_versions (put_call s key value) = true
keeps_versions (delete_call s key) = true
keeps_versions (commit_call durable now s) = true
keeps_versions (rollback_call s) = true

module _ (view : ReadView) where
  same_table :
      (m m' : TxnManager)
      → IsClean m.mvcc
      → m'.mvcc ≡ m.mvcc
      → m'.oracle ≡ m.oracle
      → Steps view m m'
  same_table m m' clean e o =
      let last = ap (λ (x : TimestampOracle). x.last) o in
      (omega (arith, last), omega (arith, last), keep view m.mvcc m'.mvcc clean e)

  moved : (m a b : TxnManager) → a ≡ b → Steps view m b → Steps view m a
  moved m a b e h = subst (λ x. Steps view m x) (sym e) h

  next_ts-last : (o : TimestampOracle) → o.last < u64_max → (next_ts o).0.last ≡ suc o.last
  unfolding next_ts
  next_ts-last o h = omega arith

  next_ts-ts : (o : TimestampOracle) → o.last < u64_max → (next_ts o).1 ≡ suc o.last
  unfolding next_ts
  next_ts-ts o h = omega arith

  after_durable-Steps :
      (r : TxnResult (Unit {0})) (s : ℕ) (id : TxnId) (pending : ByteMap WriteOp) (m : TxnManager)
      → IsClean m.mvcc
      → view.snapshot_ts ≤ m.oracle.last
      → m.oracle.last < u64_max
      → Steps view m
          (after_durable r s id pending
            (next_ts m.oracle).1
            (record m { oracle = (next_ts m.oracle).0 })).0
  unfolding after_durable finish_commit
  after_durable-Steps (failed e) s id pending m clean seen room =
      let last = next_ts-last m.oracle room in
      (omega (arith, last), omega (arith, last), (clean, λ key. refl))
  after_durable-Steps (done u) s id pending m clean seen room =
      let last = next_ts-last m.oracle room in
      let ts = next_ts-ts m.oracle room in
      (
        omega (arith, last),
        omega (arith, last),
        apply_writes-Keeps view pending (next_ts m.oracle).1 m.mvcc clean (omega (arith, ts))
            (omega (arith, ts)),
      )

  after_check-Steps :
      (d : SsiDecision) (durable : Durable) (s : ℕ) (id : TxnId) (txn : Transaction)
      (m : TxnManager)
      → IsClean m.mvcc
      → view.snapshot_ts ≤ m.oracle.last
      → m.oracle.last < u64_max
      → Steps view m (after_check d durable s id txn m).0
  unfolding after_check make_durable
  after_check-Steps allow durable s id txn m clean seen room =
      after_durable-Steps (durable (next_ts m.oracle).1 txn.write_set) s id txn.write_set m clean
        seen room
  after_check-Steps (abort msg) durable s id txn m clean seen room = same_table m m clean refl refl

  after_poll-Steps :
      (r : TxnResult (Unit {0})) (durable : Durable) (s : ℕ) (id : TxnId) (m : TxnManager)
      → IsClean m.mvcc
      → view.snapshot_ts ≤ m.oracle.last
      → m.oracle.last < u64_max
      → Steps view m (after_poll r durable s id m).0
  unfolding after_poll check_and_commit
  after_poll-Steps (failed e) durable s id m clean seen room = same_table m m clean refl refl
  after_poll-Steps (done u) durable s id m clean seen room =
      elim (Option-cases (lookup_id id m.active)) [
        | inl missing ↦
            moved m (after_poll (done u) durable s id m).0 m (ground arith)
              (same_table m m clean refl refl)
        | inr (txn, found) ↦
            moved m (after_poll (done u) durable s id m).0
              (after_check (check_commit txn m.ssi) durable s id txn m).0 (ground arith)
              (after_check-Steps (check_commit txn m.ssi) durable s id txn m clean seen room)
      ]

  commit-Steps :
      (durable : Durable) (now s : ℕ) (m : TxnManager)
      → IsClean m.mvcc
      → view.snapshot_ts ≤ m.oracle.last
      → m.oracle.last < u64_max
      → Steps view m (commit_with_durable durable now s m).0
  unfolding commit_with_durable
  commit-Steps durable now s m clean seen room = elim (Option-cases (lookup_id s m.sessions)) [
    | inl missing ↦
        moved m (commit_with_durable durable now s m).0 m (ground arith)
          (same_table m m clean refl refl)
    | inr (id, found) ↦
        let polled = poll now m.active id m.deadlock in
        let m1 : TxnManager = record m { deadlock = polled.0 } in
        moved m (commit_with_durable durable now s m).0 (after_poll polled.1 durable s id m1).0
          (ground arith) (after_poll-Steps polled.1 durable s id m1 clean seen room)
  ]

  rollback-Steps : (s : ℕ) (m : TxnManager) → IsClean m.mvcc → Steps view m (rollback s m).0
  unfolding rollback
  rollback-Steps s m clean = elim (Option-cases (lookup_id s m.sessions)) [
    | inl missing ↦ same_table m (rollback s m).0 clean (ground arith) (ground arith)
    | inr (id, found) ↦
        same_table m (rollback s m).0 clean (ground (arith, abort_intents-IsClean m.mvcc id clean))
          (ground arith)
  ]

  begin-Steps :
      (now s : ℕ) (m : TxnManager)
      → IsClean m.mvcc
      → m.oracle.last < u64_max
      → Steps view m (begin now s m).0
  unfolding begin
  begin-Steps now s m clean room = elim (Bool-cases (contains_id s m.sessions)) [
    | inl taken ↦ rw taken (same_table m m clean refl refl)
    | inr free ↦
        let last = next_ts-last m.oracle room in
        rw free (omega (arith, last), omega (arith, last), (clean, λ key. refl))
  ]

  pub call-Steps :
      (c : Call) (m : TxnManager)
      → keeps_versions c ≡ true
      → IsClean m.mvcc
      → view.snapshot_ts ≤ m.oracle.last
      → m.oracle.last < u64_max
      → Steps view m (after_call c m)
  unfolding after_call
  call-Steps (begin_call now s) m k clean seen room = begin-Steps now s m clean room
  call-Steps (get_call s key) m k clean seen room =
      unfold get_key with_txn track_rw_dependencies in
      same_table m (get_key s key m).0 clean (ground arith) (ground arith)
  call-Steps (put_call s key value) m k clean seen room =
      unfold with_txn in
      same_table m (after_call (put_call s key value) m) clean (ground arith) (ground arith)
  call-Steps (delete_call s key) m k clean seen room =
      unfold with_txn in
      same_table m (after_call (delete_call s key) m) clean (ground arith) (ground arith)
  call-Steps (commit_call durable now s) m k clean seen room =
      commit-Steps durable now s m clean seen room
  call-Steps (rollback_call s) m k clean seen room = rollback-Steps s m clean
  call-Steps (gc_call ts) m k clean seen room = cc
