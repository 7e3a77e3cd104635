-- ===== src/Raft/Handlers/Votes.antt =====
-- When a node grants its vote, and what it records.
use noe_db.Base.{
  [], ◌∷◌, List, ◌≤◌, ◌<◌, ◌≡◌, ◌↔◌, ◌⊎◌, Option, some, Bool, true, false, arith, List, ◌∷◌,
}
use noe_db.Raft.State.{persist_hard_state, Raft, Externals, Action, reset_election_timer}
use noe_db.Raft.Rpc.{RpcMessage, RequestVoteReq, request_vote_resp}
use noe_db.Raft.Handlers.{handle_request_vote, may_vote_for}
use noe_db.Raft.Election.{log_is_up_to_date, become_follower}

abbrev pub granted : Option RpcMessage → Bool
granted (some (request_vote_resp resp)) = resp.vote_granted
granted _ = false

-- What a grant asks for: a term that is not old, a log at least as far on as the node's own, and a
-- vote that is free, which it is in a newer term.
abbrev pub Deserves : Raft → RequestVoteReq → Type 0
Deserves r req =
    (r.hard.current_term ≤ req.term)
    × (log_is_up_to_date r req.last_log_index req.last_log_term ≡ true)
    × ((r.hard.current_term < req.term) ⊎ (may_vote_for r.hard.voted_for req.candidate_id ≡ true))

-- A node grants a vote exactly when the candidate's term is not older than its own, the candidate's
-- log is up to date, and its vote of that term is free or the candidate's already.
pub vote_granted_iff :
    (ext : Externals) (r : Raft) (req : RequestVoteReq)
    → (granted (handle_request_vote ext r req).1 ≡ true) ↔ Deserves r req
unfolding handle_request_vote become_follower reset_election_timer log_is_up_to_date
vote_granted_iff ext r req = (λ h. ground arith, λ h. ground arith)

abbrev pub last_is_persist : List Action → Bool
last_is_persist [] = false
last_is_persist (persist_hard_state ∷ []) = true
last_is_persist (a ∷ rest) = last_is_persist rest

-- A granted vote is recorded: the node is in the candidate's term with its vote for the candidate,
-- and it leaves its log and commit index alone. The actions end by persisting this.
pub granted_vote_recorded :
    (ext : Externals) (r : Raft) (req : RequestVoteReq)
    → granted (handle_request_vote ext r req).1 ≡ true
    → ((handle_request_vote ext r req).0.hard.voted_for ≡ some req.candidate_id)
      × ((handle_request_vote ext r req).0.hard.current_term ≡ req.term)
      × ((handle_request_vote ext r req).0.hard.commit_index ≡ r.hard.commit_index)
      × ((handle_request_vote ext r req).0.log ≡ r.log)
      × (last_is_persist (handle_request_vote ext r req).2 ≡ true)
unfolding handle_request_vote become_follower reset_election_timer
granted_vote_recorded ext r req h =
    (ground arith, ground arith, ground arith, ground arith, ground arith)
