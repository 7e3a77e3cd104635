-- ===== src/Raft/Handlers.antt =====
-- The handlers of inbound messages (crates/noedb-raft/src/raft_core.rs). Each returns the node, the
-- reply and the actions.
pub mod Appends
pub mod Votes
use noe_db.Base.{
  min, max, Bool, true, false, not, ◌&&◌, ◌||◌, Option, none, some, List, [], ◌∷◌, ◌++◌, length,
  ltb, leb, ◌==◌, if◌then◌else◌,
}
use noe_db.Base.Words.{saturating_sub}
use noe_db.Raft.Types.{NodeId, next, is_leader, is_candidate}
use noe_db.Raft.Log.{last_index, term_at, append, truncate_from, restore}
use noe_db.Raft.Config.{quorum}
use noe_db.Raft.Rpc.{
  RequestVoteReq, RequestVoteResp, AppendEntriesReq, AppendEntriesResp, InstallSnapshotReq,
  ReadIndexReq, RpcMessage, request_vote_resp, append_entries_resp, install_snapshot_resp,
  read_index_resp,
}
use noe_db.Raft.State.{
  Progress, insert_progress, insert_vote, Action, persist_hard_state, persist_log, snapshot, Raft,
  Externals, reset_election_timer,
}
use noe_db.Raft.Replication.{next_index_or, append_to_peer, broadcast_append}
use noe_db.Raft.Commit.{is_empty, apply_committed, try_advance_commit, try_confirm_reads}
use noe_db.Raft.Election.{become_follower, become_leader, log_is_up_to_date}

abbrev pub Outcome : Type 0
Outcome = Raft × Option RpcMessage × List Action

-- `voted_for.is_none() || voted_for == Some(id)`
abbrev pub may_vote_for : Option NodeId → NodeId → Bool
may_vote_for none id = true
may_vote_for (some v) id = v == id

abbrev pub vote_reply : Raft → Bool → Option RpcMessage
vote_reply r granted =
    some (request_vote_resp (record { term = r.hard.current_term; vote_granted = granted }))

-- `handle_request_vote` behind its two tests of the term, with the actions so far.
abbrev pub decide_vote : Externals → RequestVoteReq → Raft → List Action → Outcome
decide_vote ext req r actions =
    if may_vote_for r.hard.voted_for req.candidate_id
      && log_is_up_to_date r req.last_log_index req.last_log_term
    then (let r1 =
          reset_election_timer ext
            (record r { hard = record r.hard { voted_for = some req.candidate_id } }) in
        (r1, vote_reply r1 true, actions ++ persist_hard_state ∷ []))
    else (r, vote_reply r false, actions)

unfoldable pub handle_request_vote : Externals → Raft → RequestVoteReq → Outcome
handle_request_vote ext r req =
    if ltb req.term r.hard.current_term
    then (r, vote_reply r false, [])
    else if ltb r.hard.current_term req.term
    then decide_vote ext req (become_follower ext r req.term none) (persist_hard_state ∷ [])
    else decide_vote ext req r []

abbrev pub append_reply : Raft → Bool → Option RpcMessage
append_reply r success = some (
    append_entries_resp
      (record { term = r.hard.current_term; success = success; last_log_index = last_index r.log }))

-- Whether the receiver of an append steps down, rather than only noting the leader.
abbrev pub steps_down : Raft → AppendEntriesReq → Bool
steps_down r req =
    ltb r.hard.current_term req.term
    || (req.term == r.hard.current_term
        && (is_leader r.soft.role && not (req.leader_id == r.config.id)))

unfoldable pub note_leader : Externals → Raft → AppendEntriesReq → Raft × List Action
note_leader ext r req =
    if steps_down r req
    then (become_follower ext r req.term (some req.leader_id), persist_hard_state ∷ [])
    else (
      reset_election_timer ext
          (record r { soft = record r.soft { leader_id = some req.leader_id } }),
      [],
    )

-- `if !req.entries.is_empty() { … }`
unfoldable pub store_entries : Raft → AppendEntriesReq → Raft × List Action
store_entries r req = if is_empty req.entries then (r, []) else (
  record r { log = (append (truncate_from r.log req.prev_log_index) req.entries).0 },
  persist_log (next req.prev_log_index) req.entries ∷ [],
)

-- `if req.leader_commit > self.hard.commit_index { … }`
unfoldable pub follow_commit : Externals → Raft → AppendEntriesReq → Raft × List Action
follow_commit ext r req =
    let commit = min req.leader_commit (last_index r.log) in
    if ltb r.hard.commit_index req.leader_commit && term_at r.log commit == req.term
    then (let (r', actions) =
          apply_committed ext (record r { hard = record r.hard { commit_index = commit } }) in
        (r', persist_hard_state ∷ actions))
    else (r, [])

-- `handle_append_entries` behind the choice of the role, with the actions so far.
unfoldable pub accept_entries : Externals → AppendEntriesReq → Raft × List Action → Outcome
accept_entries ext req (r, actions) =
    if term_at r.log req.prev_log_index == req.prev_log_term
    then (let (r1, stored) = store_entries r req in
        let (r2, committed) = follow_commit ext r1 req in
        (r2, append_reply r2 true, actions ++ (stored ++ committed)))
    else (r, append_reply r false, actions)

unfoldable pub handle_append_entries : Externals → Raft → AppendEntriesReq → Outcome
handle_append_entries ext r req =
    if ltb req.term r.hard.current_term
    then (r, append_reply r false, [])
    else accept_entries ext req (note_leader ext r req)

-- `if req.done { … }`, on the node that has stepped down and restored its log.
abbrev pub finish_snapshot : Raft → InstallSnapshotReq → Raft × List Action
finish_snapshot r req =
    if req.done
    then (
      record r {
        hard = record r.hard {
          commit_index = req.last_included_index;
          last_applied = req.last_included_index;
        };
      },
      snapshot (record {
        index = req.last_included_index;
        term = req.last_included_term;
        payload = req.payload;
      })
          ∷ persist_hard_state
          ∷ [],
    )
    else (r, [])

abbrev pub snapshot_reply : Raft → Option RpcMessage
snapshot_reply r = some (install_snapshot_resp (record { term = r.hard.current_term }))

abbrev pub restored : Externals → Raft → InstallSnapshotReq → Raft
restored ext r req =
    let r1 = become_follower ext r req.term (some req.leader_id) in
    record r1 { log = restore r1.log req.last_included_index req.last_included_term [] }

unfoldable pub handle_install_snapshot : Externals → Raft → InstallSnapshotReq → Outcome
handle_install_snapshot ext r req =
    if leb r.hard.current_term req.term
    then (let (r1, actions) = finish_snapshot (restored ext r req) req in
        (r1, snapshot_reply r1, persist_hard_state ∷ actions))
    else (r, snapshot_reply r, [])

unfoldable pub handle_read_index : Raft → ReadIndexReq → Outcome
handle_read_index r req =
    if not (is_leader r.soft.role) || not (req.term == r.hard.current_term)
    then (r, none, [])
    else let idx = last_index r.log in
      let r1 = record r { pending_reads = r.pending_reads ++ (req.read_id, idx) ∷ [] } in
      let r2 = try_confirm_reads r1 in
      (
        r2,
        some (
            read_index_resp
              (record { term = r2.hard.current_term; read_index = idx; read_id = req.read_id })),
        broadcast_append r1,
      )

unfoldable pub step_vote_response : Externals → Raft → NodeId → RequestVoteResp → Raft × List Action
step_vote_response ext r from resp =
    if ltb r.hard.current_term resp.term
    then (become_follower ext r resp.term none, persist_hard_state ∷ [])
    else if not (is_candidate r.soft.role) || not (resp.term == r.hard.current_term)
    then (r, [])
    else let r1 = if resp.vote_granted then record r { votes = insert_vote r.votes from } else r in
      if leb (quorum r1.config) (length r1.votes) then become_leader r1 else (r1, [])

-- The progress of a peer after its reply: `prog.next_index.0.saturating_sub(1).max(1)` on failure.
unfoldable pub update_progress : Progress → AppendEntriesResp → Progress
update_progress p resp =
    if resp.success
    then record { next_index = next resp.last_log_index; match_index = resp.last_log_index }
    else record p { next_index = max (saturating_sub p.next_index 1) 1 }

-- What follows once the peer's progress has been updated.
unfoldable pub after_progress : Externals → Raft → NodeId → Raft × List Action
after_progress ext r from =
    let (r', actions) = try_advance_commit ext r in
    let nxt = next_index_or (r'.progress from) 0 in
    (r', if leb nxt (last_index r'.log) then actions ++ append_to_peer r' from else actions)

-- `let Some(prog) = self.progress.get_mut(&from) else { return … }`, and what follows.
unfoldable pub from_peer :
    Externals → Raft → NodeId → AppendEntriesResp → Option Progress → Raft × List Action
from_peer ext r from resp none = (r, [])
from_peer ext r from resp (some p) =
    after_progress ext
      (record r { progress = insert_progress r.progress from (update_progress p resp) }) from

unfoldable pub step_append_response :
    Externals → Raft → NodeId → AppendEntriesResp → Raft × List Action
step_append_response ext r from resp =
    if ltb r.hard.current_term resp.term
    then (become_follower ext r resp.term none, persist_hard_state ∷ [])
    else if not (is_leader r.soft.role)
    then (r, [])
    else from_peer ext r from resp (r.progress from)
