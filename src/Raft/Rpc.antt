-- ===== src/Raft/Rpc.antt =====
-- crates/noedb-raft/src/rpc.rs: the messages between nodes.
use noe_db.Base.{ℕ, Bool, List}
use noe_db.Raft.Types.{NodeId, Term, LogIndex}
use noe_db.Raft.Log.{LogEntry}

pub record RequestVoteReq : Type 0 where
  pub term : Term
  pub candidate_id : NodeId
  pub last_log_index : LogIndex
  pub last_log_term : Term

pub record RequestVoteResp : Type 0 where
  pub term : Term
  pub vote_granted : Bool

pub record AppendEntriesReq : Type 0 where
  pub term : Term
  pub leader_id : NodeId
  pub prev_log_index : LogIndex
  pub prev_log_term : Term
  pub entries : List LogEntry
  pub leader_commit : LogIndex

pub record AppendEntriesResp : Type 0 where
  pub term : Term
  pub success : Bool
  pub last_log_index : LogIndex

pub record InstallSnapshotReq : Type 0 where
  pub term : Term
  pub leader_id : NodeId
  pub last_included_index : LogIndex
  pub last_included_term : Term
  pub payload : List ℕ
  pub offset : ℕ
  pub done : Bool

pub record InstallSnapshotResp : Type 0 where
  pub term : Term

pub record ReadIndexReq : Type 0 where
  pub term : Term
  pub leader_id : NodeId
  pub read_id : ℕ

pub record ReadIndexResp : Type 0 where
  pub term : Term
  pub read_index : LogIndex
  pub read_id : ℕ

pub data RpcMessage : Type 0 where
  request_vote : RequestVoteReq → RpcMessage
  request_vote_resp : RequestVoteResp → RpcMessage
  append_entries : AppendEntriesReq → RpcMessage
  append_entries_resp : AppendEntriesResp → RpcMessage
  install_snapshot : InstallSnapshotReq → RpcMessage
  install_snapshot_resp : InstallSnapshotResp → RpcMessage
  read_index : ReadIndexReq → RpcMessage
  read_index_resp : ReadIndexResp → RpcMessage
