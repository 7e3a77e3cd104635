-- ===== src/Txn/Manager/OwnWrites.antt =====
-- What a transaction reads of its own writes (manager.rs, transaction.rs).
use noe_db.Base.{some, refl, ℕ, ◌≡◌, arith, ◌∙◌}
use noe_db.Base.IdMap.{lookup_id, insert_id, lookup-insert_id}
use noe_db.Base.ByteMap.{lookup-insert}
use noe_db.Txn.Manager.{
  TxnManager, get_key, with_txn, session_txn, read_key, read_view, track_rw_dependencies,
}
use noe_db.Txn.Transaction.{active, done, read_own, Transaction, record_read, stage_put, put_op}
use noe_db.Mvcc.Table.{returns}
use noe_db.Base.Bytes.{Bytes, cmp_bytes_refl}
use noe_db.Mvcc.Version.{TxnId}

read_own-stage_put :
    (key value : Bytes) (txn : Transaction)
    → read_own key (stage_put key value txn) ≡ some (some value)
unfolding read_own stage_put
read_own-stage_put key value txn =
    ground (arith, lookup-insert key key (put_op value) txn.write_set, cmp_bytes_refl key)

read_own-record_read :
    (key k : Bytes) (txn : Transaction) → read_own key (record_read k txn) ≡ read_own key txn
unfolding read_own record_read
read_own-record_read key k txn = refl

-- The session's transaction is there and active.
abbrev pub Runs : ℕ → TxnId → Transaction → TxnManager → Type 0
Runs s id txn m =
    (lookup_id s m.sessions ≡ some id) × (lookup_id id m.active ≡ some txn) × (txn.state ≡ active)

pub with_txn-Runs {ℓ} :
    {A : Type ℓ} (s : ℕ) (f : Transaction → Transaction × A) (id : TxnId) (txn : Transaction)
    (m : TxnManager)
    → Runs s id txn m
    → with_txn s f m ≡ (record m { active = insert_id id (f txn).0 m.active }, done (f txn).1)
unfolding with_txn session_txn
with_txn-Runs s f id txn m (session, found, act) = ground (arith, session, found, act)

pub Runs-with_txn :
    (s : ℕ) (id : TxnId) (txn new_txn : Transaction) (m : TxnManager)
    → Runs s id txn m
    → new_txn.state ≡ active
    → Runs s id new_txn (record m { active = insert_id id new_txn m.active })
Runs-with_txn s id txn new_txn m (session, found, act) h =
    (session, ground (arith, lookup-insert_id id id new_txn m.active), h)

read_key-own :
    (s : ℕ) (key value : Bytes) (id : TxnId) (txn : Transaction) (m : TxnManager)
    → Runs s id txn m
    → read_own key txn ≡ some (some value)
    → read_key s key m ≡ returns (done (some value))
unfolding read_key read_view session_txn
read_key-own s key value id txn m runs own =
    ground (arith, runs.0, runs.1, with_txn-Runs s (λ t. (t, read_own key t)) id txn m runs, own)

-- What a running transaction has put last under a key is what it gets from there, whatever the table
-- holds and whichever other transactions run.
pub get_key-put :
    (s : ℕ) (key value : Bytes) (id : TxnId) (txn : Transaction) (m : TxnManager)
    → lookup_id s m.sessions ≡ some id
    → lookup_id id m.active ≡ some txn
    → txn.state ≡ active
    → (get_key s key (with_txn {0} s (λ t. (stage_put key value t, tt)) m).0).1
      ≡ returns (done (some value))
unfolding get_key session_txn
get_key-put s key value id txn m session found act =
    let put_txn = stage_put key value txn in
    let m1 : TxnManager = record m { active = insert_id id put_txn m.active } in
    let runs1 = Runs-with_txn s id txn put_txn m (session, found, act) (unfold stage_put in act) in
    let read_txn = record_read key put_txn in
    let m2 : TxnManager = record m1 { active = insert_id id read_txn m1.active } in
    let runs2 =
      Runs-with_txn s id put_txn read_txn m1 runs1 (unfold stage_put record_read in act) in
    let put_lem =
      with_txn-Runs {0} s (λ t. (stage_put key value t, tt)) id txn m (session, found, act) in
    let read_lem = with_txn-Runs {0} s (λ t. (record_read key t, tt)) id put_txn m1 runs1 in
    let m3 : TxnManager = track_rw_dependencies id key m2 in
    let own =
      read_key-own s key value id read_txn m3 (unfold track_rw_dependencies in runs2)
        (read_own-record_read key key put_txn ∙ read_own-stage_put key value txn) in
    ground (arith, put_lem, read_lem, runs1.0, runs1.1, own)
