-- ===== src/Txn/Manager/Crossing.antt =====
-- What reads between two running transactions note, and the check of their commits (manager.rs,
-- ssi.rs).
use noe_db.Base.Bytes.{Bytes}
use noe_db.Base.IdMap.{IdMap}
use noe_db.Txn.Transaction.{Transaction}
