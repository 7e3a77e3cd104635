-- ===== src/Mvcc/View.antt =====
-- crates/noedb-storage/src/mvcc/read_view.rs: what a snapshot sees.
use noe_db.Base.{
  Bool, false, not, ◌&&◌, ◌||◌, Option, none, some, List, [], ◌∷◌, ltb, ◌==◌, if◌then◌else◌,
}
use noe_db.Mvcc.Version.{Version, CommitTs, TxnId}

-- The set of active transactions is the list of its members.
pub record ReadView : Type 0 where
  pub snapshot_ts : CommitTs
  pub active_txns : List TxnId
  pub txn_id : TxnId

unfoldable pub is_member : List TxnId → TxnId → Bool
is_member [] t = false
is_member (x ∷ xs) t = x == t || is_member xs t

-- `writer_txn == Some(self.txn_id)`
abbrev pub is_own : Option TxnId → TxnId → Bool
is_own none t = false
is_own (some w) t = w == t

-- `if let Some(w) = writer_txn { active_txns.contains(&w) && w != self.txn_id }`
abbrev pub is_foreign_active : Option TxnId → ReadView → Bool
is_foreign_active none view = false
is_foreign_active (some w) view = is_member view.active_txns w && not (w == view.txn_id)

unfoldable pub is_visible : ReadView → Version → Option TxnId → Bool
is_visible view version writer_txn =
    if version.commit_ts == 0
    then is_own writer_txn view.txn_id
    else if ltb view.snapshot_ts version.commit_ts
    then false
    else not (is_foreign_active writer_txn view)
