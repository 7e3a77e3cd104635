-- ===== src/Raft/Machine.antt =====
-- The entry points of a node: the timer, the messages and the client's calls
-- (crates/noedb-raft/src/raft_core.rs, and `dispatch` of crates/noedb-raft/src/node.rs).
pub mod Events
pub mod Votes
pub mod VoteHandlers
pub mod Terms
pub mod Growth
pub mod GrowthHandlers
pub mod Indexes
pub mod Ballots
pub mod Leaders
use noe_db.Base.{ℕ, ◌-◌, none, List, [], ◌∷◌, ◌++◌, leb, if◌then◌else◌}
use noe_db.Raft.Types.{NodeId, next, is_leader}
use noe_db.Raft.Log.{LogEntry, Command, ConfChange, last_index, append}
use noe_db.Raft.Membership.{encode_conf_change}
use noe_db.Raft.Rpc.{
  RpcMessage, request_vote, request_vote_resp, append_entries, append_entries_resp,
  install_snapshot, read_index,
}
use noe_db.Raft.State.{Action, persist_log, send, Raft, Externals, Result, ok, not_leader}
use noe_db.Raft.Replication.{broadcast_append}
use noe_db.Raft.Election.{start_election}
use noe_db.Raft.Handlers.{
  Outcome, handle_request_vote, handle_append_entries, handle_install_snapshot, handle_read_index,
  step_vote_response, step_append_response,
}

unfoldable pub tick : Externals → Raft → ℕ → Raft × List Action
tick ext r elapsed_ms =
    if is_leader r.soft.role
    then (if leb r.heartbeat_remaining_ms elapsed_ms
        then (let r1 = record r { heartbeat_remaining_ms = r.config.heartbeat_interval } in
            (r1, broadcast_append r1))
        else (record r { heartbeat_remaining_ms = r.heartbeat_remaining_ms - elapsed_ms }, []))
    else if leb r.election_remaining_ms elapsed_ms
    then start_election ext r
    else (record r { election_remaining_ms = r.election_remaining_ms - elapsed_ms }, [])

-- A message that is no request goes back to its sender.
unfoldable pub step : Externals → Raft → NodeId → RpcMessage → Outcome
step ext r from (request_vote req) = handle_request_vote ext r req
step ext r from (append_entries req) = handle_append_entries ext r req
step ext r from (install_snapshot req) = handle_install_snapshot ext r req
step ext r from (read_index req) = handle_read_index r req
step ext r from other = (r, none, send from other ∷ [])

-- The new entry at the end of the log, and the actions.
abbrev pub push_entry : Raft → LogEntry → Raft
push_entry r entry = record r { log = (append r.log (entry ∷ [])).0 }

abbrev pub persist_entry : Raft → LogEntry → Action
persist_entry r entry = persist_log (next (last_index r.log)) (entry ∷ [])

unfoldable pub propose : Raft → Command → Result (Raft × List Action)
propose r cmd =
    if is_leader r.soft.role
    then (let entry : LogEntry = record { term = r.hard.current_term; command = cmd } in
        let r1 = push_entry r entry in ok (r1, persist_entry r entry ∷ broadcast_append r1))
    else not_leader

unfoldable pub begin_read_index : Raft → ℕ → Result (Raft × List Action)
begin_read_index r read_id =
    if is_leader r.soft.role
    then (let entry : LogEntry = record { term = r.hard.current_term; command = [] } in
        let r1 = push_entry r entry in
        let r2 = record r1 {
          pending_reads = r1.pending_reads ++ (read_id, last_index r1.log) ∷ [];
        } in
        ok (r2, persist_entry r entry ∷ broadcast_append r2))
    else not_leader

unfoldable pub propose_conf_change : Externals → Raft → ConfChange → Result (Raft × List Action)
propose_conf_change ext r cc =
    if is_leader r.soft.role then propose r (encode_conf_change ext.bincode cc) else not_leader

-- `RaftNode::dispatch`: replies go to their own handlers, all else to `step`.
unfoldable pub dispatch : Externals → Raft → NodeId → RpcMessage → Outcome
dispatch ext r from (request_vote_resp resp) =
    let (r', actions) = step_vote_response ext r from resp in (r', none, actions)
dispatch ext r from (append_entries_resp resp) =
    let (r', actions) = step_append_response ext r from resp in (r', none, actions)
dispatch ext r from other = step ext r from other
