-- ===== src/Raft/Membership/Codec.antt =====
-- The encoding of conf changes in the log.
use noe_db.Base.{◌≡◌, some}
use noe_db.Raft.Log.{ConfChange}
use noe_db.Raft.Membership.{Bincode, encode_conf_change, decode_conf_change}

-- A conf change survives its trip through the log if `bincode` reads back what it writes for it.
pub decode-encode_conf_change :
    (b : Bincode) (cc : ConfChange)
    → b.deserialize (b.serialize cc) ≡ some cc
    → decode_conf_change b (encode_conf_change b cc) ≡ some cc
unfolding decode_conf_change encode_conf_change
decode-encode_conf_change b cc h = h
