-- ===== src/Raft/Machine/VoteHandlers.antt =====
-- The term and the vote of a node under its handlers of messages.
use noe_db.Base.{
  ◌≤◌, refl, Option, none, some, List, [], ◌∷◌, arith, Bool-cases, inl, inr, leb, min, ◌==◌, ltb,
}
use noe_db.Base.Words.{u64_max}
use noe_db.Raft.Types.{NodeId, is_leader}
use noe_db.Raft.State.{Raft, Externals, Action, reset_election_timer, Progress, persist_hard_state}
use noe_db.Raft.Election.{become_leader}
use noe_db.Raft.Handlers.{
  store_entries, note_leader, after_progress, accept_entries, follow_commit, decide_vote,
  steps_down, handle_install_snapshot, handle_append_entries, step_vote_response,
  handle_request_vote, from_peer, handle_read_index, step_append_response,
}
use noe_db.Raft.Rpc.{
  RequestVoteReq, AppendEntriesReq, AppendEntriesResp, RequestVoteResp, ReadIndexReq,
  InstallSnapshotReq,
}
use noe_db.Raft.Commit.{try_confirm_reads}
use noe_db.Raft.Commit.Frame.{SameCore-apply_committed}
use noe_db.Raft.Commit.Advance.{with_commit}
use noe_db.Raft.Log.{term_at, last_index}
use noe_db.Raft.Machine.Votes.{
  KeepsVote, KeepsVote-refl, KeepsVote-trans, KeepsVote-same, become_follower-KeepsVote,
  try_advance_commit-KeepsVote,
}

decide_vote-KeepsVote :
    (ext : Externals) (req : RequestVoteReq) (r : Raft) (actions : List Action)
    → KeepsVote r (decide_vote ext req r actions).0
unfolding reset_election_timer
decide_vote-KeepsVote ext req r actions = record {
  grows = ground arith;
  word = λ h. ground arith;
  vote = λ c e m h. ground arith;
}

pub handle_request_vote-KeepsVote :
    (ext : Externals) (r : Raft) (req : RequestVoteReq)
    → req.term ≤ u64_max
    → KeepsVote r (handle_request_vote ext r req).0
unfolding handle_request_vote
handle_request_vote-KeepsVote ext r req w = elim (Bool-cases (ltb req.term r.hard.current_term)) [
  | inl stale ↦ rw stale (KeepsVote-refl r)
  | inr fresh ↦ rw fresh (elim (Bool-cases (ltb r.hard.current_term req.term)) [
    | inl newer ↦ rw newer (
        KeepsVote-trans _ _ _ (become_follower-KeepsVote ext r req.term none w)
          (decide_vote-KeepsVote ext req _ (persist_hard_state ∷ [])))
    | inr same ↦ rw same (decide_vote-KeepsVote ext req r [])
  ])
]

note_leader-KeepsVote :
    (ext : Externals) (r : Raft) (req : AppendEntriesReq)
    → req.term ≤ u64_max
    → KeepsVote r (note_leader ext r req).0
unfolding note_leader
note_leader-KeepsVote ext r req w = elim (Bool-cases (steps_down r req)) [
  | inl down ↦ rw down (become_follower-KeepsVote ext r req.term (some req.leader_id) w)
  | inr up ↦ rw up (unfold reset_election_timer in KeepsVote-same _ _ refl refl)
]

store_entries-KeepsVote : (r : Raft) (req : AppendEntriesReq) → KeepsVote r (store_entries r req).0
unfolding store_entries
store_entries-KeepsVote r req = KeepsVote-same _ _ (ground arith) (ground arith)

follow_commit-KeepsVote :
    (ext : Externals) (r : Raft) (req : AppendEntriesReq) → KeepsVote r (follow_commit ext r req).0
unfolding follow_commit
follow_commit-KeepsVote ext r req =
    let c = min req.leader_commit (last_index r.log) in
    let h = SameCore-apply_committed ext (with_commit r c) in
    KeepsVote-same _ _ (ground (arith, h.term)) (ground (arith, h.vote))

accept_entries-KeepsVote :
    (ext : Externals) (req : AppendEntriesReq) (p : Raft × List Action)
    → KeepsVote p.0 (accept_entries ext req p).0
unfolding accept_entries
accept_entries-KeepsVote ext req (r, actions) =
    elim (Bool-cases (term_at r.log req.prev_log_index == req.prev_log_term)) [
      | inl matches ↦ rw matches (
          KeepsVote-trans _ _ _ (store_entries-KeepsVote r req) (follow_commit-KeepsVote ext _ req))
      | inr differs ↦ rw differs (KeepsVote-refl r)
    ]

pub handle_append_entries-KeepsVote :
    (ext : Externals) (r : Raft) (req : AppendEntriesReq)
    → req.term ≤ u64_max
    → KeepsVote r (handle_append_entries ext r req).0
unfolding handle_append_entries
handle_append_entries-KeepsVote ext r req w = elim (Bool-cases (ltb req.term r.hard.current_term)) [
  | inl stale ↦ rw stale (KeepsVote-refl r)
  | inr fresh ↦ rw fresh (
      KeepsVote-trans _ _ _ (note_leader-KeepsVote ext r req w)
        (accept_entries-KeepsVote ext req _))
]

pub handle_install_snapshot-KeepsVote :
    (ext : Externals) (r : Raft) (req : InstallSnapshotReq)
    → req.term ≤ u64_max
    → KeepsVote r (handle_install_snapshot ext r req).0
unfolding handle_install_snapshot
handle_install_snapshot-KeepsVote ext r req w =
    let h = become_follower-KeepsVote ext r req.term (some req.leader_id) w in
    elim (Bool-cases (leb r.hard.current_term req.term)) [
      | inl fresh ↦
          rw fresh (KeepsVote-trans _ _ _ h (KeepsVote-same _ _ (ground arith) (ground arith)))
      | inr stale ↦ rw stale (KeepsVote-refl r)
    ]

pub handle_read_index-KeepsVote :
    (r : Raft) (req : ReadIndexReq) → KeepsVote r (handle_read_index r req).0
unfolding handle_read_index try_confirm_reads
handle_read_index-KeepsVote r req = KeepsVote-same _ _ (ground arith) (ground arith)

pub step_vote_response-KeepsVote :
    (ext : Externals) (r : Raft) (from : NodeId) (resp : RequestVoteResp)
    → resp.term ≤ u64_max
    → KeepsVote r (step_vote_response ext r from resp).0
unfolding step_vote_response
step_vote_response-KeepsVote ext r from resp w =
    elim (Bool-cases (ltb r.hard.current_term resp.term)) [
      | inl newer ↦ rw newer (become_follower-KeepsVote ext r resp.term none w)
      | inr same ↦
          rw same (unfold become_leader in KeepsVote-same _ _ (ground arith) (ground arith))
    ]

after_progress-KeepsVote :
    (ext : Externals) (r : Raft) (from : NodeId) → KeepsVote r (after_progress ext r from).0
unfolding after_progress
after_progress-KeepsVote ext r from = try_advance_commit-KeepsVote ext r

from_peer-KeepsVote :
    (ext : Externals) (r : Raft) (from : NodeId) (resp : AppendEntriesResp) (o : Option Progress)
    → KeepsVote r (from_peer ext r from resp o).0
unfolding from_peer
from_peer-KeepsVote ext r from resp none = KeepsVote-refl r
from_peer-KeepsVote ext r from resp (some p) =
    KeepsVote-trans _ _ _ (KeepsVote-same _ _ refl refl) (after_progress-KeepsVote ext _ from)

pub step_append_response-KeepsVote :
    (ext : Externals) (r : Raft) (from : NodeId) (resp : AppendEntriesResp)
    → resp.term ≤ u64_max
    → KeepsVote r (step_append_response ext r from resp).0
unfolding step_append_response
step_append_response-KeepsVote ext r from resp w =
    elim (Bool-cases (ltb r.hard.current_term resp.term)) [
      | inl newer ↦ rw newer (become_follower-KeepsVote ext r resp.term none w)
      | inr same ↦ rw same (elim (Bool-cases (is_leader r.soft.role)) [
        | inl lead ↦ rw lead (from_peer-KeepsVote ext r from resp (r.progress from))
        | inr other ↦ rw other (KeepsVote-refl r)
      ])
    ]
