-- ===== src/Raft/Replication.antt =====
-- How the leader replicates (crates/noedb-raft/src/raft_core.rs): the messages to one peer and to
-- all peers, the count of the peers that hold an index, and the reset of the peers' progress.
use noe_db.Base.{
  ℕ, ◌+◌, Bool, true, false, ◌&&◌, Option, none, some, List, [], ◌∷◌, ◌++◌, take, ltb, leb, ◌==◌,
  if◌then◌else◌,
}
use noe_db.Raft.Types.{NodeId, LogIndex, prev, next, is_leader}
use noe_db.Raft.Log.{last_index, term_at, slice_from}
use noe_db.Raft.Config.{quorum}
use noe_db.Raft.Membership.{JointConfig, outgoing_quorum, incoming_quorum}
use noe_db.Raft.Rpc.{AppendEntriesReq, InstallSnapshotReq, append_entries, install_snapshot}
use noe_db.Raft.State.{Progress, ProgressMap, no_progress, insert_progress, Action, send, Raft}

-- `is_some_and(|p| p.match_index >= index)`
abbrev pub holds_index : Option Progress → LogIndex → Bool
holds_index none index = false
holds_index (some p) index = leb index p.match_index

-- One of the counting loops, over the peers left and the count so far.
unfoldable pub count_holders : ProgressMap → NodeId → LogIndex → List NodeId → ℕ → ℕ
count_holders m id index [] count = count
count_holders m id index (peer ∷ peers) count =
    count_holders m id index peers
      (if peer == id then count else if holds_index (m peer) index then count + 1 else count)

abbrev pub has_joint_quorum : Raft → JointConfig → LogIndex → Bool
has_joint_quorum r joint index =
    let out = count_holders r.progress r.config.id index joint.outgoing 1 in
    let inc = count_holders r.progress r.config.id index joint.incoming 1 in
    leb (outgoing_quorum joint) out && leb (incoming_quorum joint) inc

unfoldable pub has_quorum_for_index : Raft → LogIndex → Bool
has_quorum_for_index r index = elim r.joint_config [
  | some joint ↦ has_joint_quorum r joint index
  | none ↦ leb (quorum r.config) (count_holders r.progress r.config.id index r.config.voters 1)
]

-- `map_or(default, |p| p.next_index)`
abbrev pub next_index_or : Option Progress → LogIndex → LogIndex
next_index_or none i = i
next_index_or (some p) i = p.next_index

-- The `AppendEntriesReq` that `append_to_peer` builds.
abbrev pub append_req : Raft → NodeId → AppendEntriesReq
append_req r peer =
    let nxt = next_index_or (r.progress peer) 1 in
    record {
      term = r.hard.current_term;
      leader_id = r.config.id;
      prev_log_index = prev nxt;
      prev_log_term = term_at r.log (prev nxt);
      entries = take r.config.max_append_batch (slice_from r.log nxt);
      leader_commit = r.hard.commit_index;
    }

-- The `InstallSnapshotReq` that it builds.
abbrev pub snapshot_req : Raft → InstallSnapshotReq
snapshot_req r = record {
  term = r.hard.current_term;
  leader_id = r.config.id;
  last_included_index = r.hard.last_applied;
  last_included_term = term_at r.log r.hard.last_applied;
  payload = [];
  offset = 0;
  done = true;
}

-- The part of `append_to_peer` behind the test for the leader.
abbrev pub message_to_peer : Raft → NodeId → Action
message_to_peer r peer =
    if next_index_or (r.progress peer) 1 == 1 && ltb r.compact_threshold (last_index r.log)
    then send peer (install_snapshot (snapshot_req r))
    else send peer (append_entries (append_req r peer))

unfoldable pub append_to_peer : Raft → NodeId → List Action
append_to_peer r peer = if is_leader r.soft.role then message_to_peer r peer ∷ [] else []

-- `filter(|p| *p != self.config.id)`
unfoldable pub peers_of : NodeId → List NodeId → List NodeId
peers_of id [] = []
peers_of id (v ∷ vs) = let rest = peers_of id vs in if v == id then rest else v ∷ rest

-- `for peer in peers { actions.extend(self.append_to_peer(peer)) }`
unfoldable pub append_to_peers : Raft → List NodeId → List Action
append_to_peers r [] = []
append_to_peers r (peer ∷ peers) = append_to_peer r peer ++ append_to_peers r peers

unfoldable pub broadcast_append : Raft → List Action
broadcast_append r =
    if is_leader r.soft.role then append_to_peers r (peers_of r.config.id r.config.voters) else []

-- The loop that gives each other voter a fresh progress.
unfoldable pub fresh_progress : NodeId → LogIndex → List NodeId → ProgressMap → ProgressMap
fresh_progress id nxt [] m = m
fresh_progress id nxt (peer ∷ peers) m = fresh_progress id nxt peers (
    if peer == id then m else insert_progress m peer (record { next_index = nxt; match_index = 0 }))

unfoldable pub rebuild_progress : Raft → Raft
rebuild_progress r =
    if is_leader r.soft.role
    then record r {
      progress = fresh_progress r.config.id (next (last_index r.log)) r.config.voters no_progress;
    }
    else r
