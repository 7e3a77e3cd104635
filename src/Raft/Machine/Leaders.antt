-- ===== src/Raft/Machine/Leaders.antt =====
-- The votes with which a node becomes leader.
use noe_db.Base.{
  ◌≡◌, refl, Option, none, some, List, [], false, not, arith, Bool-cases, inl, inr, length,
  if◌then◌else◌, leb, ltb, leb→le, min, ◌||◌, ◌==◌, ap,
}
use noe_db.Raft.State.{
  Raft, Externals, Action, reset_election_timer, Progress, insert_progress, SoftState,
}
use noe_db.Raft.Types.{is_leader, NodeId, is_candidate}
use noe_db.Raft.Election.{become_follower, become_leader}
use noe_db.Raft.Config.{quorum}
use noe_db.Raft.Handlers.{
  handle_install_snapshot, step_append_response, accept_entries, note_leader, handle_request_vote,
  handle_append_entries, handle_read_index, from_peer, step_vote_response, follow_commit,
  after_progress, store_entries, update_progress,
}
use noe_db.Raft.Machine.{propose, dispatch, step, begin_read_index, propose_conf_change}
use noe_db.Raft.Machine.Events.{after, or_unchanged, Event, timer, message, command, read, change}
use noe_db.Raft.Commit.{try_confirm_reads}
use noe_db.Raft.Rpc.{
  AppendEntriesReq, InstallSnapshotReq, RequestVoteReq, AppendEntriesResp, RequestVoteResp,
  ReadIndexReq, request_vote, request_vote_resp, append_entries, append_entries_resp,
  install_snapshot, read_index, install_snapshot_resp, read_index_resp,
}
use noe_db.Raft.Log.{Command, last_index}
use noe_db.Raft.Commit.Advance.{try_advance_commit-SameCore, with_commit}
use noe_db.Raft.Commit.Frame.{SameCore-apply_committed}
use noe_db.Raft.Membership.{encode_conf_change}
use noe_db.Raft.Machine.Ballots.{
  AreDistinct, Elects, Elects-same, Elects-no_leader, become_follower-Elects,
  AreDistinct-insert_vote, become_leader-Elects, tick-Elects,
}

handle_request_vote-Elects :
    (ext : Externals) (r : Raft) (req : RequestVoteReq) → Elects r (handle_request_vote ext r req).0
unfolding handle_request_vote become_follower reset_election_timer
handle_request_vote-Elects ext r req = record {
  distinct = λ d. ground arith;
  quorate = λ n l. ground arith;
}

-- Accepting entries changes neither the role nor the votes.
accept_entries-roles :
    (ext : Externals) (req : AppendEntriesReq) (p : Raft × List Action)
    → ((accept_entries ext req p).0.soft ≡ p.0.soft)
      × ((accept_entries ext req p).0.votes ≡ p.0.votes)
unfolding accept_entries follow_commit store_entries
accept_entries-roles ext req (r, actions) =
    let r1 : Raft = (store_entries r req).0 in
    let c = min req.leader_commit (last_index r1.log) in
    let same = SameCore-apply_committed ext (with_commit r1 c) in
    (ground (arith, same.soft), ground (arith, same.votes))

note_leader-roles :
    (ext : Externals) (r : Raft) (req : AppendEntriesReq)
    → (is_leader r.soft.role ≡ false → is_leader (note_leader ext r req).0.soft.role ≡ false)
      × (AreDistinct r.votes → AreDistinct (note_leader ext r req).0.votes)
unfolding note_leader become_follower reset_election_timer
note_leader-roles ext r req = (λ n. ground arith, λ d. ground arith)

handle_append_entries-Elects :
    (ext : Externals) (r : Raft) (req : AppendEntriesReq)
    → Elects r (handle_append_entries ext r req).0
unfolding handle_append_entries
handle_append_entries-Elects ext r req = elim (Bool-cases (ltb req.term r.hard.current_term)) [
  | inl stale ↦ rw stale (Elects-same r r refl refl)
  | inr fresh ↦
      let n = note_leader-roles ext r req in
      let a = accept_entries-roles ext req (note_leader ext r req) in
      rw fresh (record { distinct = λ d. rw a.1 (n.1 d); quorate = λ s l. cc (a.0, n.0 s) })
]

handle_install_snapshot-Elects :
    (ext : Externals) (r : Raft) (req : InstallSnapshotReq)
    → Elects r (handle_install_snapshot ext r req).0
unfolding handle_install_snapshot become_follower reset_election_timer
handle_install_snapshot-Elects ext r req = record {
  distinct = λ d. ground arith;
  quorate = λ n l. ground arith;
}

handle_read_index-Elects : (r : Raft) (req : ReadIndexReq) → Elects r (handle_read_index r req).0
unfolding handle_read_index try_confirm_reads
handle_read_index-Elects r req = Elects-same _ _ (ground arith) (ground arith)

-- The test for the quorum, on the node with the vote counted.
count_votes-Elects :
    (a b : Raft)
    → (AreDistinct a.votes → AreDistinct b.votes)
    → (is_leader b.soft.role ≡ false)
    → Elects a (if leb (quorum b.config) (length b.votes) then become_leader b else (b, [])).0
count_votes-Elects a b d s = elim (Bool-cases (leb (quorum b.config) (length b.votes))) [
  | inl enough ↦ rw enough (become_leader-Elects a b d (leb→le _ _ enough))
  | inr few ↦ rw few (Elects-no_leader a b s d)
]

step_vote_response-Elects :
    (ext : Externals) (r : Raft) (from : NodeId) (resp : RequestVoteResp)
    → Elects r (step_vote_response ext r from resp).0
unfolding step_vote_response
step_vote_response-Elects ext r from resp = elim (Bool-cases (ltb r.hard.current_term resp.term)) [
  | inl newer ↦ rw newer (become_follower-Elects ext r resp.term none)
  | inr same ↦
      rw same
        (elim (Bool-cases
          (not (is_candidate r.soft.role) || not (resp.term == r.hard.current_term))) [
            | inl ignored ↦ rw ignored (Elects-same r r refl refl)
            | inr counted ↦ rw counted (
                count_votes-Elects r _ (λ d. ground (arith, AreDistinct-insert_vote r.votes from d))
                  (ground arith))
          ])
]

from_peer-Elects :
    (ext : Externals) (r : Raft) (from : NodeId) (resp : AppendEntriesResp) (o : Option Progress)
    → Elects r (from_peer ext r from resp o).0
unfolding from_peer after_progress
from_peer-Elects ext r from resp none = Elects-same r r refl refl
from_peer-Elects ext r from resp (some p) =
    let r1 : Raft = record r {
      progress = insert_progress r.progress from (update_progress p resp);
    } in
    let (c, a) = try_advance_commit-SameCore ext r1 in
    Elects-same _ _ (ap (λ (s : SoftState). s.role) a.soft) a.votes

step_append_response-Elects :
    (ext : Externals) (r : Raft) (from : NodeId) (resp : AppendEntriesResp)
    → Elects r (step_append_response ext r from resp).0
unfolding step_append_response
step_append_response-Elects ext r from resp =
    elim (Bool-cases (ltb r.hard.current_term resp.term)) [
      | inl newer ↦ rw newer (become_follower-Elects ext r resp.term none)
      | inr same ↦ rw same (elim (Bool-cases (is_leader r.soft.role)) [
        | inl lead ↦ rw lead (from_peer-Elects ext r from resp (r.progress from))
        | inr other ↦ rw other (Elects-same r r refl refl)
      ])
    ]

propose-Elects : (r : Raft) (cmd : Command) → Elects r (or_unchanged r (propose r cmd))
unfolding propose
propose-Elects r cmd = Elects-same _ _ (ground arith) (ground arith)

-- Whatever the call, if the votes that a node has counted are of different senders, so are those
-- after the call, and a node that the call turns into a leader has counted at least as many as the
-- quorum of its configuration. That the senders are voters is not stated.
pub after-Elects : (ext : Externals) (r : Raft) (e : Event) → Elects r (after ext r e)
unfolding after dispatch step begin_read_index propose_conf_change
after-Elects ext r (timer ms) = tick-Elects ext r ms
after-Elects ext r (message from (request_vote m)) = handle_request_vote-Elects ext r m
after-Elects ext r (message from (request_vote_resp m)) = step_vote_response-Elects ext r from m
after-Elects ext r (message from (append_entries m)) = handle_append_entries-Elects ext r m
after-Elects ext r (message from (append_entries_resp m)) = step_append_response-Elects ext r from m
after-Elects ext r (message from (install_snapshot m)) = handle_install_snapshot-Elects ext r m
after-Elects ext r (message from (read_index m)) = handle_read_index-Elects r m
after-Elects ext r (message from (install_snapshot_resp m)) = Elects-same r r refl refl
after-Elects ext r (message from (read_index_resp m)) = Elects-same r r refl refl
after-Elects ext r (command cmd) = propose-Elects r cmd
after-Elects ext r (read id) = Elects-same _ _ (ground arith) (ground arith)
after-Elects ext r (change cc) = elim (Bool-cases (is_leader r.soft.role)) [
  | inl lead ↦ rw lead (propose-Elects r (encode_conf_change ext.bincode cc))
  | inr other ↦ rw other (Elects-same r r refl refl)
]
