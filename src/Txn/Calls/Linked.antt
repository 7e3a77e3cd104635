-- ===== src/Txn/Calls/Linked.antt =====
-- Sessions and their transactions under each operation of the manager (manager.rs).
use noe_db.Base.{
  some, refl, ℕ, ◌≡◌, ◌<◌, Option-cases, inl, subst, Bool-cases, sym, arith, inr, ◌+◌, ◌∙◌,
}
use noe_db.Base.IdMap.{IdMap, lookup_id, insert_id, remove_id, contains_id}
use noe_db.Txn.Manager.{TxnManager, begin, get_key, with_txn, session_txn, track_rw_dependencies}
use noe_db.Txn.Commit.{
  commit_with_durable, rollback, after_poll, after_check, Durable, after_durable, check_and_commit,
  make_durable, finish_commit, CommitResult,
}
use noe_db.Txn.Transaction.{
  Transaction, done, failed, TxnResult, WriteOp, new_transaction, record_read,
}
use noe_db.Txn.Ssi.{allow, abort, SsiDecision, check_commit}
use noe_db.Txn.Calls.Sessions.{IsLinked, IsLinked-update, IsLinked-close, IsLinked-open}
use noe_db.Mvcc.Version.{TxnId, next_ts, CommitTs}
use noe_db.Base.Words.{u64_max}
use noe_db.Base.ByteMap.{ByteMap}
use noe_db.Txn.Deadlock.{poll}
use noe_db.Txn.Manager.OwnWrites.{with_txn-Runs}
use noe_db.Base.Bytes.{Bytes}

abbrev pub Linked : TxnManager → Type 0
Linked m = IsLinked m.sessions m.active m.next_id

Linked-parts :
    (m : TxnManager) (sessions : IdMap TxnId) (txns : IdMap Transaction) (n : TxnId)
    → m.sessions ≡ sessions
    → m.active ≡ txns
    → m.next_id ≡ n
    → IsLinked sessions txns n
    → Linked m
Linked-parts m sessions txns n e f g h =
    subst (λ x. IsLinked x m.active m.next_id) (sym e)
      (subst (λ x. IsLinked sessions x m.next_id) (sym f)
        (subst (λ x. IsLinked sessions txns x) (sym g) h))

pub with_txn-Linked :
    (s : ℕ) (f : Transaction → Transaction × Unit {0}) (m : TxnManager)
    → ((t : Transaction) → (f t).0.state ≡ t.state)
    → Linked m
    → Linked (with_txn {0} s f m).0
unfolding with_txn session_txn
with_txn-Linked s f m same linked = elim (Option-cases (lookup_id s m.sessions)) [
  | inl free ↦
      Linked-parts (with_txn {0} s f m).0 m.sessions m.active m.next_id (ground arith)
        (ground arith) (ground arith) linked
  | inr (id, session) ↦
      let (txn, found, act) = (linked.0 s id session).0 in
      let changed = with_txn-Runs {0} s f id txn m (session, found, act) in
      subst (λ (x : TxnManager × TxnResult (Unit {0})). Linked x.0) (sym changed)
        (IsLinked-update id (f txn).0 m.sessions m.active m.next_id (same txn ∙ act) linked)
]

after_durable-Linked :
    (r : TxnResult (Unit {0})) (s id : ℕ) (pending : ByteMap WriteOp) (ts : CommitTs)
    (m : TxnManager)
    → lookup_id s m.sessions ≡ some id
    → Linked m
    → Linked (after_durable r s id pending ts m).0
unfolding after_durable finish_commit
after_durable-Linked (failed e) s id pending ts m session linked = linked
after_durable-Linked (done u) s id pending ts m session linked =
    IsLinked-close s id m.sessions m.active m.next_id session linked

after_check-Linked :
    (d : SsiDecision) (durable : Durable) (s id : ℕ) (txn : Transaction) (m : TxnManager)
    → lookup_id s m.sessions ≡ some id
    → Linked m
    → Linked (after_check d durable s id txn m).0
unfolding after_check make_durable
after_check-Linked allow durable s id txn m session linked =
    after_durable-Linked (durable (next_ts m.oracle).1 txn.write_set) s id txn.write_set
      (next_ts m.oracle).1 (record m { oracle = (next_ts m.oracle).0 }) session linked
after_check-Linked (abort msg) durable s id txn m session linked = linked

after_poll-Linked :
    (r : TxnResult (Unit {0})) (durable : Durable) (s id : ℕ) (m : TxnManager)
    → lookup_id s m.sessions ≡ some id
    → Linked m
    → Linked (after_poll r durable s id m).0
unfolding after_poll check_and_commit
after_poll-Linked (failed e) durable s id m session linked = linked
after_poll-Linked (done u) durable s id m session linked =
    let (txn, found, act) = (linked.0 s id session).0 in
    let taken : after_poll (done u) durable s id m
        ≡ after_check (check_commit txn m.ssi) durable s id txn m =
      ground (arith, found) in
    subst (λ (x : TxnManager × TxnResult CommitResult). Linked x.0) (sym taken)
      (after_check-Linked (check_commit txn m.ssi) durable s id txn m session linked)

pub commit-Linked :
    (durable : Durable) (now s : ℕ) (m : TxnManager)
    → Linked m
    → Linked (commit_with_durable durable now s m).0
unfolding commit_with_durable
commit-Linked durable now s m linked = elim (Option-cases (lookup_id s m.sessions)) [
  | inl free ↦
      Linked-parts (commit_with_durable durable now s m).0 m.sessions m.active m.next_id
        (ground arith) (ground arith) (ground arith) linked
  | inr (id, session) ↦
      let polled = poll now m.active id m.deadlock in
      let m1 : TxnManager = record m { deadlock = polled.0 } in
      let taken : commit_with_durable durable now s m ≡ after_poll polled.1 durable s id m1 =
        ground (arith, session) in
      subst (λ (x : TxnManager × TxnResult CommitResult). Linked x.0) (sym taken)
        (after_poll-Linked polled.1 durable s id m1 session linked)
]

pub rollback-Linked : (s : ℕ) (m : TxnManager) → Linked m → Linked (rollback s m).0
unfolding rollback
rollback-Linked s m linked = elim (Option-cases (lookup_id s m.sessions)) [
  | inl free ↦
      Linked-parts (rollback s m).0 m.sessions m.active m.next_id (ground arith) (ground arith)
        (ground arith) linked
  | inr (id, session) ↦
      Linked-parts (rollback s m).0 (remove_id s m.sessions) (remove_id id m.active) m.next_id
        (ground arith) (ground arith) (ground arith)
        (IsLinked-close s id m.sessions m.active m.next_id session linked)
]

pub begin-Linked :
    (now s : ℕ) (m : TxnManager) → m.next_id < u64_max → Linked m → Linked (begin now s m).0
unfolding begin
begin-Linked now s m room linked = elim (Bool-cases (contains_id s m.sessions)) [
  | inl taken ↦
      Linked-parts (begin now s m).0 m.sessions m.active m.next_id (ground arith) (ground arith)
        (ground arith) linked
  | inr free ↦
      let txn = new_transaction m.next_id (next_ts m.oracle).1 now in
      Linked-parts (begin now s m).0 (insert_id s m.next_id m.sessions)
        (insert_id m.next_id txn m.active) (m.next_id + 1) (ground arith) (ground arith)
        (ground arith) (IsLinked-open s m.next_id txn m.sessions m.active refl linked)
]

pub get_key-Linked : (s : ℕ) (key : Bytes) (m : TxnManager) → Linked m → Linked (get_key s key m).0
unfolding get_key track_rw_dependencies
get_key-Linked s key m linked =
    let recorded = with_txn {0} s (λ txn. (record_read key txn, tt)) m in
    let kept =
      with_txn-Linked s (λ txn. (record_read key txn, tt)) m (λ t. unfold record_read in refl)
        linked in
    elim (Option-cases (session_txn s m)) [
      | inl free ↦
          Linked-parts (get_key s key m).0 m.sessions m.active m.next_id (ground arith)
            (ground arith) (ground arith) linked
      | inr (found, e) ↦
          Linked-parts (get_key s key m).0 recorded.0.sessions recorded.0.active recorded.0.next_id
            (ground (arith, e)) (ground (arith, e)) (ground (arith, e)) kept
    ]
