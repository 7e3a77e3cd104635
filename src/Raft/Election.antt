-- ===== src/Raft/Election.antt =====
-- Elections (crates/noedb-raft/src/raft_core.rs): the changes of role.
use noe_db.Base.{
  Bool, ◌&&◌, ◌||◌, Option, none, some, List, [], ◌∷◌, ◌++◌, length, ltb, leb, ◌==◌, if◌then◌else◌,
}
use noe_db.Raft.Types.{
  NodeId, Term, LogIndex, follower, candidate, leader, next, next_term, is_leader,
}
use noe_db.Raft.Log.{last_index, term_at}
use noe_db.Raft.Config.{quorum}
use noe_db.Raft.Rpc.{request_vote}
use noe_db.Raft.State.{
  Action, persist_hard_state, send, no_progress, insert_vote, Raft, Externals, reset_election_timer,
}
use noe_db.Raft.Replication.{fresh_progress, broadcast_append}

-- `if term > current_term { current_term = term; voted_for = None }`
abbrev pub adopt_term : Raft → Term → Raft
adopt_term r term =
    if ltb r.hard.current_term term
    then record r { hard = record r.hard { current_term = term; voted_for = none } }
    else r

-- The node; the action is always `persist_hard_state`.
unfoldable pub become_follower : Externals → Raft → Term → Option NodeId → Raft
become_follower ext r term known =
    let r1 = record r {
      soft = record { role = follower; leader_id = known };
      votes = [];
      progress = no_progress;
      pending_reads = [];
    } in
    reset_election_timer ext (adopt_term r1 term)

unfoldable pub become_leader : Raft → Raft × List Action
become_leader r =
    let r1 = record r {
      soft = record { role = leader; leader_id = some r.config.id };
      progress = fresh_progress r.config.id (next (last_index r.log)) r.config.voters no_progress;
      heartbeat_remaining_ms = 0;
    } in
    (r1, broadcast_append r1)

-- The loop over the voters: a request to each but the node itself.
unfoldable pub vote_requests : Raft → Term → List NodeId → List Action
vote_requests r term [] = []
vote_requests r term (peer ∷ peers) =
    let rest = vote_requests r term peers in
    if peer == r.config.id
    then rest
    else send peer (
        request_vote (record {
          term = term;
          candidate_id = r.config.id;
          last_log_index = last_index r.log;
          last_log_term = term_at r.log (last_index r.log);
        }))
      ∷ rest

-- The node as a candidate of the next term that votes for itself.
unfoldable pub as_candidate : Externals → Raft → Raft
unfolding insert_vote
as_candidate ext r = reset_election_timer ext (record r {
  hard = record r.hard {
    current_term = next_term r.hard.current_term;
    voted_for = some r.config.id;
  };
  soft = record { role = candidate; leader_id = none };
  votes = insert_vote [] r.config.id;
})

-- A node with the votes of a quorum leads, from the actions so far.
unfoldable pub elect_if_quorate : Raft → List Action → Raft × List Action
elect_if_quorate r actions =
    if leb (quorum r.config) (length r.votes)
    then (let (r', more) = become_leader r in (r', actions ++ more))
    else (r, actions)

unfoldable pub become_candidate : Externals → Raft → Raft × List Action
unfolding elect_if_quorate
become_candidate ext r =
    let r1 = as_candidate ext r in
    elect_if_quorate r1
      (persist_hard_state ∷ vote_requests r1 r1.hard.current_term r1.config.voters)

unfoldable pub start_election : Externals → Raft → Raft × List Action
start_election ext r = if is_leader r.soft.role then (r, []) else become_candidate ext r

unfoldable pub log_is_up_to_date : Raft → LogIndex → Term → Bool
log_is_up_to_date r last_idx last_term =
    let my_last = last_index r.log in
    let my_term = term_at r.log my_last in
    ltb my_term last_term || last_term == my_term && leb my_last last_idx
