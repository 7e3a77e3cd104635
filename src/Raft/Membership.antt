-- ===== src/Raft/Membership.antt =====
-- crates/noedb-raft/src/membership.rs: joint configurations and the encoding of conf changes.
pub mod Codec
use noe_db.Base.{
  ℕ, ◌+◌, ◌/◌, Bool, true, false, ◌&&◌, Option, none, some, List, [], ◌∷◌, ◌++◌, length, drop, ◌==◌,
  if◌then◌else◌,
}
use noe_db.Raft.Types.{NodeId}
use noe_db.Raft.Log.{ConfChange}
use noe_db.Raft.Config.{contains}

-- b"NOEDB_CONF"
abbrev pub conf_magic : List ℕ
conf_magic = b'N' ∷ b'O' ∷ b'E' ∷ b'D' ∷ b'B' ∷ b'_' ∷ b'C' ∷ b'O' ∷ b'N' ∷ b'F' ∷ []

pub record JointConfig : Type 0 where
  pub outgoing : List NodeId
  pub incoming : List NodeId

unfoldable pub outgoing_quorum : JointConfig → ℕ
outgoing_quorum j = length j.outgoing / 2 + 1

unfoldable pub incoming_quorum : JointConfig → ℕ
incoming_quorum j = length j.incoming / 2 + 1

-- `<[u8]>::starts_with`
unfoldable pub starts_with : List ℕ → List ℕ → Bool
starts_with bytes [] = true
starts_with [] (p ∷ ps) = false
starts_with (b ∷ bs) (p ∷ ps) = b == p && starts_with bs ps

-- What the code takes from the `bincode` crate at type `ConfChange`: the bytes of a value (the
-- empty list where serialising fails), and the value that bytes stand for.
pub record Bincode : Type 0 where
  pub serialize : ConfChange → List ℕ
  pub deserialize : List ℕ → Option ConfChange

unfoldable pub encode_conf_change : Bincode → ConfChange → List ℕ
encode_conf_change b cc = conf_magic ++ b.serialize cc

unfoldable pub decode_conf_change : Bincode → List ℕ → Option ConfChange
unfolding starts_with
decode_conf_change b cmd =
    if starts_with cmd conf_magic then b.deserialize (drop (length conf_magic) cmd) else none

-- `if !voters.contains(&id) { voters.push(id) }`
abbrev pub push_new : List NodeId → NodeId → List NodeId
push_new vs id = if contains vs id then vs else vs ++ id ∷ []

unfoldable pub joint_add_voter : Option JointConfig → List NodeId → NodeId → Option JointConfig
unfolding contains
joint_add_voter (some j) voters id = some (record j { incoming = push_new j.incoming id })
joint_add_voter none voters id = some (record { outgoing = voters; incoming = push_new voters id })

-- The joint configuration left (`take` empties it), and the voters.
unfoldable pub joint_finalize : Option JointConfig → List NodeId → Option JointConfig × List NodeId
joint_finalize none voters = (none, voters)
joint_finalize (some j) voters = (none, j.incoming)
