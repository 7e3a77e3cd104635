-- ===== src/Raft/State.antt =====
-- The state of one node (crates/noedb-raft/src/state.rs, and `struct Raft` and `enum Action` of
-- crates/noedb-raft/src/raft_core.rs).
use noe_db.Base.{ℕ, ◌+◌, Option, none, some, List, [], ◌∷◌, ◌==◌, if◌then◌else◌}
use noe_db.Raft.Types.{NodeId, Term, LogIndex, Role, follower}
use noe_db.Raft.Log.{LogEntry, RaftLog, Command}
use noe_db.Raft.Config.{RaftConfig, contains, election_timeout}
use noe_db.Raft.Membership.{JointConfig, Bincode}
use noe_db.Raft.Rpc.{RpcMessage}

pub record HardState : Type 0 where
  pub current_term : Term
  pub voted_for : Option NodeId
  pub commit_index : LogIndex
  pub last_applied : LogIndex

pub record SoftState : Type 0 where
  pub role : Role
  pub leader_id : Option NodeId

pub record Progress : Type 0 where
  pub next_index : LogIndex
  pub match_index : LogIndex

-- crates/noedb-raft/src/storage.rs
pub record Snapshot : Type 0 where
  pub index : LogIndex
  pub term : Term
  pub payload : List ℕ

pub data Action : Type 0 where
  persist_hard_state : Action
  persist_log : LogIndex → List LogEntry → Action
  send : NodeId → RpcMessage → Action
  apply : List Command → Action
  snapshot : Snapshot → Action

-- `BTreeMap<NodeId, Progress>`: the code only looks up, inserts and clears, so the order of its
-- entries is not seen.
abbrev pub ProgressMap : Type 0
ProgressMap = NodeId → Option Progress

abbrev pub no_progress : ProgressMap
no_progress _ = none

abbrev pub insert_progress : ProgressMap → NodeId → Progress → ProgressMap
insert_progress m peer p other = if other == peer then some p else m other

-- `HashSet::insert` on the members of the set, each listed once
unfoldable pub insert_vote : List NodeId → NodeId → List NodeId
unfolding contains
insert_vote votes id = if contains votes id then votes else id ∷ votes

-- What the node takes from other crates: the draws of `rand`, and `bincode`.
pub record Externals : Type 0 where
  pub gen_range : ℕ → ℕ → ℕ → ℕ
  pub bincode : Bincode

-- `draws` counts the numbers drawn from the random source so far.
pub record Raft : Type 0 where
  pub config : RaftConfig
  pub hard : HardState
  pub soft : SoftState
  pub log : RaftLog
  pub progress : ProgressMap
  pub votes : List NodeId
  pub election_remaining_ms : ℕ
  pub heartbeat_remaining_ms : ℕ
  pub pending_reads : List (ℕ × LogIndex)
  pub joint_config : Option JointConfig
  pub compact_threshold : ℕ
  pub draws : ℕ

-- `RaftError::internal`, or the outcome
pub data Result {ℓ} (A : Type ℓ) : Type ℓ where
  ok : A → Result A
  not_leader : Result A

-- `Raft::new`
unfoldable pub new : Externals → RaftConfig → HardState → RaftLog → Raft
unfolding election_timeout
new ext config hard log = record {
  config = config;
  hard = hard;
  soft = record { role = follower; leader_id = none };
  log = log;
  progress = no_progress;
  votes = [];
  election_remaining_ms = election_timeout ext.gen_range 0 config;
  heartbeat_remaining_ms = 0;
  pending_reads = [];
  joint_config = none;
  compact_threshold = 64;
  draws = 1;
}

unfoldable pub reset_election_timer : Externals → Raft → Raft
unfolding election_timeout
reset_election_timer ext r = record r {
  election_remaining_ms = election_timeout ext.gen_range r.draws r.config;
  draws = r.draws + 1;
}
