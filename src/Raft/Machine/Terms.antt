-- ===== src/Raft/Machine/Terms.antt =====
-- The term of a node and its vote over runs of calls.
use noe_db.Base.{◌≤◌, ◌<◌, ◌≡◌, some, List, [], ◌∷◌, arith, Bool-cases, inl, inr}
use noe_db.Base.Words.{u64_max}
use noe_db.Raft.Types.{NodeId, Term, is_leader}
use noe_db.Raft.State.{Raft, Externals}
use noe_db.Raft.Machine.{propose, dispatch, step, begin_read_index, propose_conf_change}
use noe_db.Raft.Rpc.{
  RpcMessage, request_vote, request_vote_resp, append_entries, append_entries_resp,
  install_snapshot, install_snapshot_resp, read_index, read_index_resp,
}
use noe_db.Raft.Log.{Command}
use noe_db.Raft.Machine.Events.{
  command, Event, run, after, message, or_unchanged, timer, read, change,
}
use noe_db.Raft.Membership.{encode_conf_change}
use noe_db.Raft.Machine.Votes.{
  KeepsVote, KeepsVote-refl, KeepsVote-trans, KeepsVote-same, tick-KeepsVote,
}
use noe_db.Raft.Machine.VoteHandlers.{
  handle_request_vote-KeepsVote, handle_append_entries-KeepsVote, handle_install_snapshot-KeepsVote,
  handle_read_index-KeepsVote, step_vote_response-KeepsVote, step_append_response-KeepsVote,
}

-- The term that a message carries.
abbrev pub term_of : RpcMessage → Term
term_of (request_vote m) = m.term
term_of (request_vote_resp m) = m.term
term_of (append_entries m) = m.term
term_of (append_entries_resp m) = m.term
term_of (install_snapshot m) = m.term
term_of (install_snapshot_resp m) = m.term
term_of (read_index m) = m.term
term_of (read_index_resp m) = m.term

dispatch-KeepsVote :
    (ext : Externals) (r : Raft) (from : NodeId) (msg : RpcMessage)
    → term_of msg ≤ u64_max
    → KeepsVote r (dispatch ext r from msg).0
unfolding dispatch step
dispatch-KeepsVote ext r from (request_vote m) w = handle_request_vote-KeepsVote ext r m w
dispatch-KeepsVote ext r from (request_vote_resp m) w = step_vote_response-KeepsVote ext r from m w
dispatch-KeepsVote ext r from (append_entries m) w = handle_append_entries-KeepsVote ext r m w
dispatch-KeepsVote ext r from (append_entries_resp m) w =
    step_append_response-KeepsVote ext r from m w
dispatch-KeepsVote ext r from (install_snapshot m) w = handle_install_snapshot-KeepsVote ext r m w
dispatch-KeepsVote ext r from (read_index m) w = handle_read_index-KeepsVote r m
dispatch-KeepsVote ext r from (install_snapshot_resp m) w = KeepsVote-refl r
dispatch-KeepsVote ext r from (read_index_resp m) w = KeepsVote-refl r

propose-KeepsVote : (r : Raft) (cmd : Command) → KeepsVote r (or_unchanged r (propose r cmd))
unfolding propose
propose-KeepsVote r cmd = KeepsVote-same _ _ (ground arith) (ground arith)

-- The term of an event's message is a 64-bit word; other events carry none.
abbrev pub IsWordEvent : Event → Type 0
IsWordEvent (message from msg) = term_of msg ≤ u64_max
IsWordEvent _ = Unit

after-KeepsVote :
    (ext : Externals) (r : Raft) (e : Event)
    → r.hard.current_term ≤ u64_max
    → IsWordEvent e
    → KeepsVote r (after ext r e)
unfolding after begin_read_index propose_conf_change
after-KeepsVote ext r (timer ms) w h = tick-KeepsVote ext r ms w
after-KeepsVote ext r (message from msg) w h = dispatch-KeepsVote ext r from msg h
after-KeepsVote ext r (command cmd) w h = propose-KeepsVote r cmd
after-KeepsVote ext r (read id) w h = KeepsVote-same _ _ (ground arith) (ground arith)
after-KeepsVote ext r (change cc) w h = elim (Bool-cases (is_leader r.soft.role)) [
  | inl lead ↦ rw lead (propose-KeepsVote r (encode_conf_change ext.bincode cc))
  | inr other ↦ rw other (KeepsVote-refl r)
]

abbrev pub AreWordEvents : List Event → Type 0
AreWordEvents [] = Unit
AreWordEvents (e ∷ es) = IsWordEvent e × AreWordEvents es

run-KeepsVote :
    (ext : Externals) (r : Raft) (es : List Event)
    → r.hard.current_term ≤ u64_max
    → AreWordEvents es
    → KeepsVote r (run ext r es)
unfolding run
run-KeepsVote ext r [] w h = KeepsVote-refl r
run-KeepsVote ext r (e ∷ es) w h =
    let first = after-KeepsVote ext r e w h.0 in
    KeepsVote-trans _ _ _ first (run-KeepsVote ext (after ext r e) es (first.word w) h.1)

-- Over any run of timer ticks, messages and client calls whose terms are 64-bit words, the term of a
-- node does not fall.
pub current_term_grows :
    (ext : Externals) (r : Raft) (es : List Event)
    → r.hard.current_term ≤ u64_max
    → AreWordEvents es
    → r.hard.current_term ≤ (run ext r es).hard.current_term
current_term_grows ext r es w h = (run-KeepsVote ext r es w h).grows

-- Over any run of calls whose terms are 64-bit words, a node that has voted for `c` and ends in
-- the same term, below the greatest 64-bit word, has its vote still with `c`.
pub votes_once_per_term :
    (ext : Externals) (r : Raft) (es : List Event) (c : NodeId)
    → r.hard.current_term ≤ u64_max
    → AreWordEvents es
    → r.hard.voted_for ≡ some c
    → (run ext r es).hard.current_term ≡ r.hard.current_term
    → (run ext r es).hard.current_term < u64_max
    → (run ext r es).hard.voted_for ≡ some c
votes_once_per_term ext r es c w h v e m = (run-KeepsVote ext r es w h).vote c e m v
