-- ===== src/Raft/Handlers/Appends.antt =====
-- What an append does to the log of its receiver.
use noe_db.Base.{
  ◌+◌, ◌≤◌, ◌<◌, ◌≡◌, refl, ap, ◌∙◌, List, ◌++◌, true, false, arith, length, take, min, ltb,
  length-append, ◌==◌, length-take,
}
use noe_db.Raft.State.{Raft, Externals, reset_election_timer}
use noe_db.Raft.Log.{LogEntry, last_index, append, term_at, entries-truncate_from, RaftLog}
use noe_db.Raft.Handlers.{
  handle_append_entries, follow_commit, note_leader, store_entries, accept_entries, append_reply,
}
use noe_db.Raft.Rpc.{AppendEntriesReq}
use noe_db.Raft.Election.{become_follower}
use noe_db.Base.Words.{u64_max}
use noe_db.Raft.Commit.Frame.{SameCore-apply_committed}
use noe_db.Raft.Commit.Advance.{with_commit}
use noe_db.Raft.Commit.{is_empty}

log-note_leader :
    (ext : Externals) (r : Raft) (req : AppendEntriesReq) → (note_leader ext r req).0.log ≡ r.log
unfolding note_leader become_follower reset_election_timer
log-note_leader ext r req = ground arith

log-follow_commit :
    (ext : Externals) (r : Raft) (req : AppendEntriesReq) → (follow_commit ext r req).0.log ≡ r.log
unfolding follow_commit
log-follow_commit ext r req =
    let c = min req.leader_commit (last_index r.log) in
    ground (arith, (SameCore-apply_committed ext (with_commit r c)).log)

-- The log that an accepted append with entries leaves.
abbrev appended : Raft → AppendEntriesReq → List LogEntry
appended r req = take (req.prev_log_index + 1) r.log.entries ++ req.entries

entries-store_entries :
    (r : Raft) (req : AppendEntriesReq)
    → req.prev_log_index < u64_max
    → is_empty req.entries ≡ false
    → (store_entries r req).0.log.entries ≡ appended r req
unfolding store_entries append
entries-store_entries r req w sent =
    rw sent (ap (λ es. es ++ req.entries) (entries-truncate_from r.log req.prev_log_index w))

-- A follower that takes an append of its term or a newer one, with a term of the previous entry
-- that matches, keeps its log up to that entry, has the new entries behind it and nothing else, and
-- replies with success.
pub accepted_append :
    (ext : Externals) (r : Raft) (req : AppendEntriesReq)
    → r.hard.current_term ≤ req.term
    → term_at r.log req.prev_log_index ≡ req.prev_log_term
    → req.prev_log_index < u64_max
    → is_empty req.entries ≡ false
    → ((handle_append_entries ext r req).0.log.entries ≡ appended r req)
      × ((handle_append_entries ext r req).1
          ≡ append_reply (handle_append_entries ext r req).0 true)
unfolding handle_append_entries accept_entries
accepted_append ext r req t matches w sent =
    let fresh : ltb req.term r.hard.current_term ≡ false = ground arith in
    let noted = log-note_leader ext r req in
    let r1 : Raft = (note_leader ext r req).0 in
    let same : (term_at r1.log req.prev_log_index == req.prev_log_term) ≡ true =
      rw noted (ground arith) in
    let logs : (store_entries r1 req).0.log.entries ≡ appended r1 req =
      entries-store_entries r1 req w sent in
    (
      rw (fresh, same)
          (ap (λ (l : RaftLog). l.entries) (log-follow_commit ext (store_entries r1 req).0 req)
            ∙ logs
            ∙ ap (λ (l : RaftLog). take (req.prev_log_index + 1) l.entries ++ req.entries) noted),
      rw (fresh, same) refl,
    )

-- An append with entries that the receiver takes, and that ends before the receiver's commit index,
-- cuts off entries that are committed: the log then ends before the commit index that it had.
pub stale_append-drops_committed :
    (ext : Externals) (r : Raft) (req : AppendEntriesReq)
    → r.hard.current_term ≤ req.term
    → term_at r.log req.prev_log_index ≡ req.prev_log_term
    → req.prev_log_index < u64_max
    → is_empty req.entries ≡ false
    → req.prev_log_index + length req.entries < r.hard.commit_index
    → last_index (handle_append_entries ext r req).0.log < r.hard.commit_index
unfolding last_index
stale_append-drops_committed ext r req t matches w sent short =
    rw (accepted_append ext r req t matches w sent).0 (
      omega (
        arith,
        length-append (take (req.prev_log_index + 1) r.log.entries) req.entries,
        length-take (req.prev_log_index + 1) r.log.entries,
      ))
