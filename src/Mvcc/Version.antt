-- ===== src/Mvcc/Version.antt =====
-- crates/noedb-storage/src/mvcc/version.rs, and the oracle of timestamps of oracle.rs.
use noe_db.Base.{ℕ, ◌+◌, ◌%◌, ◌^◌, Bool, true, false, [], max}
use noe_db.Base.Bytes.{Bytes}
use noe_db.Base.Words.{saturating_add}

abbrev pub CommitTs : Type 0
CommitTs = ℕ

abbrev pub TxnId : Type 0
TxnId = ℕ

pub record Version : Type 0 where
  pub commit_ts : CommitTs
  pub value : Bytes
  pub deleted : Bool

abbrev pub put_version : CommitTs → Bytes → Version
put_version ts value = record { commit_ts = ts; value = value; deleted = false }

abbrev pub tombstone : CommitTs → Version
tombstone ts = record { commit_ts = ts; value = []; deleted = true }

abbrev pub intent_version : Bytes → Version
intent_version value = record { commit_ts = 0; value = value; deleted = false }

abbrev pub delete_intent_version : Version
delete_intent_version = record { commit_ts = 0; value = []; deleted = true }

pub record TimestampOracle : Type 0 where
  pub last : ℕ

abbrev pub new_oracle : TimestampOracle
new_oracle = record { last = 0 }

-- `fetch_add(1)` wraps; the sum that is returned saturates.
unfoldable pub next_ts : TimestampOracle → TimestampOracle × CommitTs
next_ts o = (record { last = (o.last + 1) % 2 ^ 64 }, max (saturating_add o.last 1) 1)

unfoldable pub now : TimestampOracle → CommitTs
now o = o.last
