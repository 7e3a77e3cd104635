-- ===== src/Txn/Deadlock.antt =====
-- crates/noedb-txn/src/deadlock.rs: the waits between transactions.
pub mod Cycles
pub mod Complete
use noe_db.Base.{none, some, zero, suc}
use noe_db.Base.IdMap.{IdMap, lookup_id, insert_id, remove_id}
use noe_db.Txn.Transaction.{
  Transaction, TxnError, TxnResult, done, failed, wait_timeout, deadlock_victim,
}
use noe_db.Mvcc.View.{is_member}
use noe_db.Base.{
  [], Option, ℕ, Bool, List, true, if◌then◌else◌, none, false, some, leb, suc, ltb, ◌==◌, ◌-◌, ◌∷◌,
  length,
}
use noe_db.Mvcc.Version.{TxnId}

-- Durations are numbers of milliseconds.
pub record DeadlockPolicy : Type 0 where
  pub check_interval : ℕ
  pub wait_timeout_ms : ℕ

abbrev pub default_policy : DeadlockPolicy
default_policy = record { check_interval = 100; wait_timeout_ms = 5000 }

pub record DeadlockGuard : Type 0 where
  pub waits : IdMap TxnId
  pub policy : DeadlockPolicy
  pub last_check : Option ℕ

abbrev pub new_guard : DeadlockGuard
new_guard = record { waits = []; policy = default_policy; last_check = none }

unfoldable pub record_wait : TxnId → TxnId → DeadlockGuard → DeadlockGuard
record_wait waiter holder g = record g { waits = insert_id waiter holder g.waits }

-- `retain`: the waits for the transaction are dropped.
unfoldable pub drop_holder : TxnId → IdMap TxnId → IdMap TxnId
drop_holder txn_id [] = []
drop_holder txn_id ((waiter, holder) ∷ waits) =
    let rest = drop_holder txn_id waits in
    if holder == txn_id then rest else (waiter, holder) ∷ rest

unfoldable pub clear : TxnId → DeadlockGuard → DeadlockGuard
unfolding drop_holder
clear txn_id g = record g { waits = drop_holder txn_id (remove_id txn_id g.waits) }

-- What the walk from one waiter comes to.
pub data Walk : Type 0 where
  cycle : Walk
  ends : Walk
  out_of_fuel : Walk

-- The loop over the stack, which never holds more than one transaction.
unfoldable pub walk : ℕ → IdMap TxnId → TxnId → List TxnId → TxnId → Walk
walk zero waits start visited cur = out_of_fuel
walk (suc fuel) waits start visited cur =
    if is_member visited cur then ends else elim (lookup_id cur waits) [
      | none ↦ ends
      | some next ↦ if next == start then cycle else walk fuel waits start (cur ∷ visited) next
    ]

abbrev pub is_cycle : Walk → Bool
is_cycle cycle = true
is_cycle ends = false
is_cycle out_of_fuel = false

-- The loop over the waiters. A walk takes at most one step more than there are waits.
unfoldable pub first_on_cycle : IdMap TxnId → IdMap TxnId → Option TxnId
unfolding walk
first_on_cycle waits [] = none
first_on_cycle waits ((start, holder) ∷ rest) =
    if is_cycle (walk (suc (length waits)) waits start [] start)
    then some start
    else first_on_cycle waits rest

unfoldable pub find_cycle_victim : DeadlockGuard → Option TxnId
unfolding first_on_cycle
find_cycle_victim g = first_on_cycle g.waits g.waits

abbrev pub is_late : Option Transaction → ℕ → ℕ → Bool
is_late none limit now = false
is_late (some txn) limit now = ltb limit (now - txn.started_at)

abbrev pub is_check_due : Option ℕ → ℕ → ℕ → Bool
is_check_due none interval now = true
is_check_due (some t) interval now = leb interval (now - t)

abbrev pub resolve : Option TxnId → DeadlockGuard → DeadlockGuard × TxnResult (Unit {0})
resolve none g = (g, done tt)
resolve (some victim) g = (clear victim g, failed deadlock_victim)

-- `Instant::now()` is an argument; `duration_since` saturates.
unfoldable pub poll :
    ℕ → IdMap Transaction → TxnId → DeadlockGuard → DeadlockGuard × TxnResult (Unit {0})
poll now txns committing g =
    if is_late (lookup_id committing txns) g.policy.wait_timeout_ms now
    then (g, failed wait_timeout)
    else if is_check_due g.last_check g.policy.check_interval now
    then resolve (find_cycle_victim g) (record g { last_check = some now })
    else (g, done tt)
