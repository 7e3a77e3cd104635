-- ===== src/Raft/Machine/GrowthHandlers.antt =====
-- The commit and apply indexes under the handlers of messages.
use noe_db.Base.{
  ◌≤◌, ◌<◌, ◌≡◌, refl, Option, none, some, List, [], ◌∷◌, arith, Bool-cases, inl, inr, length,
  false, min, ◌+◌, ltb, ◌&&◌, ◌==◌, leb,
}
use noe_db.Raft.State.{Externals, Raft, reset_election_timer, Action, Progress, insert_progress}
use noe_db.Raft.Election.{become_follower, become_leader}
use noe_db.Raft.Handlers.{
  store_entries, note_leader, handle_read_index, step_vote_response, follow_commit,
  handle_install_snapshot, from_peer, handle_append_entries, accept_entries, step_append_response,
  finish_snapshot, after_progress, restored, update_progress,
}
use noe_db.Raft.Machine.{propose}
use noe_db.Raft.Commit.{try_confirm_reads, is_empty}
use noe_db.Base.Words.{u64_max}
use noe_db.Raft.Rpc.{
  AppendEntriesReq, RequestVoteResp, ReadIndexReq, InstallSnapshotReq, AppendEntriesResp,
}
use noe_db.Raft.Commit.Advance.{with_commit}
use noe_db.Raft.Types.{Term, NodeId, LogIndex, is_leader}
use noe_db.Raft.Log.{
  last_index, truncate_from, length-truncate_from, term_at, RaftLog, restore, Command,
  last_index-restore, restore-IsLog, LogEntry,
}
use noe_db.Raft.Log.{length-append_log}
use noe_db.Raft.Commit.Frame.{SameCore-apply_committed, apply_committed_le}
use noe_db.Raft.Machine.Events.{or_unchanged}
use noe_db.Raft.Machine.Growth.{
  IsApplied, Grows, Grows-same, Grows-refl, Grows-trans, become_follower-Grows,
  try_advance_commit-Grows, note_leader-Grows, nonempty_pos,
}

-- An append that carries entries reaches what the receiver has committed, and its index is no
-- 64-bit maximum.
abbrev pub ReachesCommit : Raft → AppendEntriesReq → Type 0
ReachesCommit r req =
    (req.prev_log_index < u64_max)
    × (is_empty req.entries ≡ false → r.hard.commit_index ≤ req.prev_log_index + length req.entries)

store_entries-Grows :
    (r : Raft) (req : AppendEntriesReq)
    → ReachesCommit r req
    → IsApplied r
    → Grows r (store_entries r req).0
unfolding store_entries
store_entries-Grows r req h v = elim (Bool-cases (is_empty req.entries)) [
  | inl none_sent ↦ rw none_sent (Grows-refl r v)
  | inr sent ↦
      let reach = h.1 sent in
      rw sent (record {
        commit = omega arith;
        applied = omega arith;
        valid = record {
          committed = v.committed;
          word = v.word;
          stored = omega (
            arith,
            v.stored,
            length-append_log (truncate_from r.log req.prev_log_index) req.entries,
            length-truncate_from r.log req.prev_log_index h.0,
            nonempty_pos req.entries sent,
          );
        };
      })
]

follow_commit-Grows :
    (ext : Externals) (r : Raft) (req : AppendEntriesReq)
    → IsApplied r
    → Grows r (follow_commit ext r req).0
unfolding follow_commit
follow_commit-Grows ext r req v =
    let c = min req.leader_commit (last_index r.log) in
    elim (Bool-cases (ltb r.hard.commit_index req.leader_commit && term_at r.log c == req.term)) [
      | inl moves ↦
          let le : r.hard.commit_index ≤ c = unfold last_index in ground (arith, v.stored) in
          let lt : c < length r.log.entries = unfold last_index in ground (arith, v.stored) in
          let same = SameCore-apply_committed ext (with_commit r c) in
          let l = apply_committed_le ext (with_commit r c) v.word (omega (arith, v.committed)) in
          rw moves (record {
            commit = omega (arith, same.commit);
            applied = l.0;
            valid = record {
              committed = omega (arith, l.1, same.commit);
              word = l.2;
              stored = rw (same.log, same.commit) lt;
            };
          })
      | inr stays ↦ rw stays (Grows-refl r v)
    ]

pub handle_read_index-Grows :
    (r : Raft) (req : ReadIndexReq) → IsApplied r → Grows r (handle_read_index r req).0
unfolding handle_read_index try_confirm_reads
handle_read_index-Grows r req v = Grows-same _ _ (ground arith) (ground arith) (ground arith) v

pub step_vote_response-Grows :
    (ext : Externals) (r : Raft) (from : NodeId) (resp : RequestVoteResp)
    → IsApplied r
    → Grows r (step_vote_response ext r from resp).0
unfolding step_vote_response become_leader become_follower reset_election_timer
step_vote_response-Grows ext r from resp v =
    Grows-same _ _ (ground arith) (ground arith) (ground arith) v

accept_entries-Grows :
    (ext : Externals) (req : AppendEntriesReq) (p : Raft × List Action)
    → ReachesCommit p.0 req
    → IsApplied p.0
    → Grows p.0 (accept_entries ext req p).0
unfolding accept_entries
accept_entries-Grows ext req (r, actions) h v =
    elim (Bool-cases (term_at r.log req.prev_log_index == req.prev_log_term)) [
      | inl matches ↦
          let stored = store_entries-Grows r req h v in
          rw matches (Grows-trans _ _ _ stored (follow_commit-Grows ext _ req stored.valid))
      | inr differs ↦ rw differs (Grows-refl r v)
    ]

commit_index-note_leader :
    (ext : Externals) (r : Raft) (req : AppendEntriesReq)
    → (note_leader ext r req).0.hard.commit_index ≡ r.hard.commit_index
unfolding note_leader become_follower reset_election_timer
commit_index-note_leader ext r req = ground arith

pub handle_append_entries-Grows :
    (ext : Externals) (r : Raft) (req : AppendEntriesReq)
    → ReachesCommit r req
    → IsApplied r
    → Grows r (handle_append_entries ext r req).0
unfolding handle_append_entries
handle_append_entries-Grows ext r req h v = elim (Bool-cases (ltb req.term r.hard.current_term)) [
  | inl stale ↦ rw stale (Grows-refl r v)
  | inr fresh ↦
      let noted = note_leader-Grows ext r req v in
      rw fresh (
        Grows-trans _ _ _ noted
          (accept_entries-Grows ext req _ (rw commit_index-note_leader h) noted.valid))
]

-- A snapshot that reaches what the receiver has committed, and its index is no 64-bit maximum.
abbrev pub SnapshotReaches : Raft → InstallSnapshotReq → Type 0
SnapshotReaches r req =
    (r.hard.commit_index ≤ req.last_included_index) × (req.last_included_index < u64_max)

length-restore :
    (l : RaftLog) (i : LogIndex) (t : Term) → i < u64_max → i < length (restore l i t []).entries
unfolding last_index
length-restore l i t w = omega (arith, last_index-restore l i t w, restore-IsLog l i t w)

finish_snapshot-Grows :
    (ext : Externals) (r : Raft) (req : InstallSnapshotReq)
    → SnapshotReaches r req
    → IsApplied r
    → Grows r (finish_snapshot (restored ext r req) req).0
unfolding become_follower reset_election_timer
finish_snapshot-Grows ext r req h v =
    let long = length-restore r.log req.last_included_index req.last_included_term h.1 in
    ground (arith, long, v.committed, v.word, v.stored)

pub handle_install_snapshot-Grows :
    (ext : Externals) (r : Raft) (req : InstallSnapshotReq)
    → SnapshotReaches r req
    → IsApplied r
    → Grows r (handle_install_snapshot ext r req).0
unfolding handle_install_snapshot
handle_install_snapshot-Grows ext r req h v = elim (Bool-cases (leb r.hard.current_term req.term)) [
  | inl fresh ↦ rw fresh (finish_snapshot-Grows ext r req h v)
  | inr stale ↦ rw stale (Grows-refl r v)
]

from_peer-Grows :
    (ext : Externals) (r : Raft) (from : NodeId) (resp : AppendEntriesResp) (o : Option Progress)
    → length r.log.entries ≤ u64_max
    → IsApplied r
    → Grows r (from_peer ext r from resp o).0
unfolding from_peer after_progress
from_peer-Grows ext r from resp none fits v = Grows-refl r v
from_peer-Grows ext r from resp (some p) fits v =
    let r1 : Raft = record r {
      progress = insert_progress r.progress from (update_progress p resp);
    } in
    let same : Grows r r1 = Grows-same _ _ refl refl (omega arith) v in
    Grows-trans _ _ _ same (try_advance_commit-Grows ext r1 fits same.valid)

pub step_append_response-Grows :
    (ext : Externals) (r : Raft) (from : NodeId) (resp : AppendEntriesResp)
    → length r.log.entries ≤ u64_max
    → IsApplied r
    → Grows r (step_append_response ext r from resp).0
unfolding step_append_response
step_append_response-Grows ext r from resp fits v =
    elim (Bool-cases (ltb r.hard.current_term resp.term)) [
      | inl newer ↦ rw newer (become_follower-Grows ext r resp.term none v)
      | inr same ↦ rw same (elim (Bool-cases (is_leader r.soft.role)) [
        | inl lead ↦ rw lead (from_peer-Grows ext r from resp (r.progress from) fits v)
        | inr other ↦ rw other (Grows-refl r v)
      ])
    ]

pub propose-Grows :
    (r : Raft) (cmd : Command) → IsApplied r → Grows r (or_unchanged r (propose r cmd))
unfolding propose
propose-Grows r cmd v =
    let entry : LogEntry = record { term = r.hard.current_term; command = cmd } in
    Grows-same _ _ (ground arith) (ground arith)
      (ground (arith, length-append_log r.log (entry ∷ []))) v
