-- ===== src/Txn/Ssi.antt =====
-- crates/noedb-txn/src/ssi.rs: conflicts between concurrent transactions.
pub mod Cycles
use noe_db.Base.{none, some, zero, suc}
use noe_db.Base.IdMap.{IdMap, IdSet, lookup_id, insert_id, remove_id, contains_id}
use noe_db.Txn.Transaction.{
  Transaction, KeySet, AbortReason, has_key, write_read_conflict, rw_cycle,
}
use noe_db.Base.{if◌then◌else◌, Bool, [], Option, false, ◌==◌, some, true, ◌∷◌, not, ◌&&◌, ◌||◌}
use noe_db.Mvcc.Version.{TxnId}

pub data SsiDecision : Type 0 where
  allow : SsiDecision
  abort : AbortReason → SsiDecision

-- The writers that each reader depends on, and the keys that each transaction wrote.
pub record SsiChecker : Type 0 where
  pub rw_edges : IdMap IdSet
  pub write_keys : IdMap KeySet

abbrev pub new_checker : SsiChecker
new_checker = record { rw_edges = []; write_keys = [] }

unfoldable pub register_commit : TxnId → KeySet → SsiChecker → SsiChecker
register_commit txn_id keys c = record c { write_keys = insert_id txn_id keys c.write_keys }

-- `entry(reader).or_default()`
abbrev pub writers_or_default : Option IdSet → IdSet
writers_or_default none = []
writers_or_default (some s) = s

unfoldable pub note_rw_dependency : TxnId → TxnId → SsiChecker → SsiChecker
note_rw_dependency reader writer c =
    let writers = insert_id writer tt (writers_or_default (lookup_id reader c.rw_edges)) in
    if reader == writer then c else record c { rw_edges = insert_id reader writers c.rw_edges }

-- A key of the set that the transaction has read and written.
unfoldable pub any_overlap : Transaction → KeySet → Bool
any_overlap txn [] = false
any_overlap txn ((k, u) ∷ keys) =
    has_key k txn.read_set && has_key k txn.write_set || any_overlap txn keys

unfoldable pub has_conflict : Transaction → IdMap KeySet → Bool
unfolding any_overlap
has_conflict txn [] = false
has_conflict txn ((other_id, keys) ∷ rest) =
    not (other_id == txn.id) && any_overlap txn keys || has_conflict txn rest

-- A writer that the transaction depends on and that depends on it.
abbrev pub points_back : IdMap IdSet → TxnId → TxnId → Bool
points_back edges id pred = elim (lookup_id pred edges) [ none ↦ false | some s ↦ contains_id id s ]

unfoldable pub any_points_back : IdMap IdSet → TxnId → IdSet → Bool
any_points_back edges id [] = false
any_points_back edges id ((pred, u) ∷ out) =
    points_back edges id pred || any_points_back edges id out

unfoldable pub has_rw_cycle : IdMap IdSet → TxnId → Bool
unfolding any_points_back
has_rw_cycle edges id = elim (lookup_id id edges) [
  | none ↦ false
  | some out ↦ any_points_back edges id out
]

unfoldable pub check_commit : Transaction → SsiChecker → SsiDecision
unfolding has_conflict has_rw_cycle
check_commit txn c =
    if has_conflict txn c.write_keys
    then abort write_read_conflict
    else if has_rw_cycle c.rw_edges txn.id
    then abort rw_cycle
    else allow

abbrev pub is_empty_set : IdSet → Bool
is_empty_set [] = true
is_empty_set (x ∷ s) = false

-- `retain`: the writer is removed from each set, and the sets that are then empty are dropped.
unfoldable pub drop_writer : TxnId → IdMap IdSet → IdMap IdSet
drop_writer txn_id [] = []
drop_writer txn_id ((reader, writers) ∷ edges) =
    let rest = drop_writer txn_id edges in
    let left = remove_id txn_id writers in if is_empty_set left then rest else (reader, left) ∷ rest

unfoldable pub purge : TxnId → SsiChecker → SsiChecker
unfolding drop_writer
purge txn_id c = record {
  rw_edges = drop_writer txn_id (remove_id txn_id c.rw_edges);
  write_keys = remove_id txn_id c.write_keys;
}
