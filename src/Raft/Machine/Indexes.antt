-- ===== src/Raft/Machine/Indexes.antt =====
-- The commit and apply indexes over a run.
use noe_db.Base.{List, [], ◌∷◌, arith, Bool-cases, inl, inr, length, ◌≤◌}
use noe_db.Raft.State.{Externals, Raft}
use noe_db.Raft.Machine.{dispatch, step, begin_read_index, propose_conf_change}
use noe_db.Raft.Rpc.{
  append_entries, install_snapshot, request_vote, request_vote_resp, append_entries_resp,
  read_index, install_snapshot_resp, read_index_resp,
}
use noe_db.Raft.Types.{is_leader}
use noe_db.Raft.Log.{LogEntry}
use noe_db.Raft.Log.{length-append_log}
use noe_db.Raft.Machine.Events.{command, run, Event, after, message, timer, read, change}
use noe_db.Raft.Membership.{encode_conf_change}
use noe_db.Raft.Machine.Growth.{
  IsApplied, Grows, Grows-same, Grows-refl, Grows-trans, tick-Grows, handle_request_vote-Grows,
}
use noe_db.Raft.Machine.GrowthHandlers.{
  ReachesCommit, handle_read_index-Grows, step_vote_response-Grows, handle_append_entries-Grows,
  SnapshotReaches, handle_install_snapshot-Grows, step_append_response-Grows, propose-Grows,
}
use noe_db.Base.Words.{u64_max}

-- An event that does not run behind what the node has committed; the log of a node that gets the
-- response to an append has fewer than 2^64 entries.
abbrev pub IsCurrent : Raft → Event → Type 0
IsCurrent r (message from (append_entries req)) = ReachesCommit r req
IsCurrent r (message from (install_snapshot req)) = SnapshotReaches r req
IsCurrent r (message from (append_entries_resp resp)) = length r.log.entries ≤ u64_max
IsCurrent r _ = Unit

after-Grows :
    (ext : Externals) (r : Raft) (e : Event) → IsCurrent r e → IsApplied r → Grows r (after ext r e)
unfolding after dispatch step begin_read_index propose_conf_change
after-Grows ext r (timer ms) h v = tick-Grows ext r ms v
after-Grows ext r (message from (request_vote m)) h v = handle_request_vote-Grows ext r m v
after-Grows ext r (message from (request_vote_resp m)) h v = step_vote_response-Grows ext r from m v
after-Grows ext r (message from (append_entries m)) h v = handle_append_entries-Grows ext r m h v
after-Grows ext r (message from (append_entries_resp m)) h v =
    step_append_response-Grows ext r from m h v
after-Grows ext r (message from (install_snapshot m)) h v =
    handle_install_snapshot-Grows ext r m h v
after-Grows ext r (message from (read_index m)) h v = handle_read_index-Grows r m v
after-Grows ext r (message from (install_snapshot_resp m)) h v = Grows-refl r v
after-Grows ext r (message from (read_index_resp m)) h v = Grows-refl r v
after-Grows ext r (command cmd) h v = propose-Grows r cmd v
after-Grows ext r (read id) h v =
    let entry : LogEntry = record { term = r.hard.current_term; command = [] } in
    Grows-same _ _ (ground arith) (ground arith)
      (ground (arith, length-append_log r.log (entry ∷ []))) v
after-Grows ext r (change cc) h v = elim (Bool-cases (is_leader r.soft.role)) [
  | inl lead ↦ rw lead (propose-Grows r (encode_conf_change ext.bincode cc) v)
  | inr other ↦ rw other (Grows-refl r v)
]

-- Each event of the run, at the node that it meets.
abbrev pub AreCurrent : Externals → Raft → List Event → Type 0
AreCurrent ext r [] = Unit
AreCurrent ext r (e ∷ es) = IsCurrent r e × AreCurrent ext (after ext r e) es

-- Over any run in which no append with entries and no snapshot ends before the receiver's commit
-- index when it arrives, in which the previous index of an append and the index of a snapshot are
-- below the greatest 64-bit word, and the log of a node that gets the response to an append has
-- fewer than 2^64 entries, a node that starts with `last_applied ≤ commit_index ≤` its last index has
-- the same at the end, and neither index has fallen.
pub run-Grows :
    (ext : Externals) (r : Raft) (es : List Event)
    → AreCurrent ext r es
    → IsApplied r
    → Grows r (run ext r es)
unfolding run
run-Grows ext r [] h v = Grows-refl r v
run-Grows ext r (e ∷ es) h v =
    let first = after-Grows ext r e h.0 v in
    Grows-trans _ _ _ first (run-Grows ext (after ext r e) es h.1 first.valid)
