-- ===== src/Raft/Commit.antt =====
-- Committing and applying (crates/noedb-raft/src/raft_core.rs). A function that changes the node
-- and emits actions returns both.
pub mod Frame
pub mod Advance
pub mod Voters
use noe_db.Base.{
  ℕ, zero, suc, ◌+◌, ◌-◌, Bool, true, false, Option, none, some, List, [], ◌∷◌, ◌++◌, length, ltb,
  ◌==◌, ◌&&◌, if◌then◌else◌,
}
use noe_db.Base.Words.{saturating_sub, wrapping_add}
use noe_db.Raft.Types.{NodeId, Term, LogIndex, next, is_leader}
use noe_db.Raft.Log.{
  LogEntry, Command, ConfChange, add_voter, remove_voter, last_index, term_at, get,
}
use noe_db.Raft.Config.{contains}
use noe_db.Raft.Membership.{Bincode, decode_conf_change, joint_add_voter, joint_finalize}
use noe_db.Raft.State.{Action, persist_hard_state, apply, snapshot, Raft, Externals}
use noe_db.Raft.Replication.{has_quorum_for_index, rebuild_progress}

abbrev pub is_empty {ℓ} : {A : Type ℓ} → List A → Bool
is_empty [] = true
is_empty (x ∷ xs) = false

-- `retain(|(_, idx)| *idx > commit_index)`
unfoldable pub reads_above : LogIndex → List (ℕ × LogIndex) → List (ℕ × LogIndex)
reads_above commit [] = []
reads_above commit ((id, idx) ∷ reads) =
    let rest = reads_above commit reads in if ltb commit idx then (id, idx) ∷ rest else rest

unfoldable pub try_confirm_reads : Raft → Raft
try_confirm_reads r = record r { pending_reads = reads_above r.hard.commit_index r.pending_reads }

-- `retain(|v| *v != id)`
unfoldable pub without : NodeId → List NodeId → List NodeId
without id [] = []
without id (v ∷ vs) = let rest = without id vs in if v == id then rest else v ∷ rest

-- The node after a conf change; the action is always `persist_hard_state`.
unfoldable pub apply_conf_change : Raft → ConfChange → Raft
apply_conf_change r (add_voter id) =
    if contains r.config.voters id
    then r
    else let joint = joint_add_voter r.joint_config r.config.voters id in
      let (joint', voters) = joint_finalize joint r.config.voters in
      rebuild_progress
        (record r { joint_config = joint'; config = record r.config { voters = voters } })
apply_conf_change r (remove_voter id) =
    if ltb 1 (length r.config.voters)
    then rebuild_progress (record r {
      joint_config = none;
      config = record r.config { voters = without id r.config.voters };
    })
    else r

-- One round of the loop of `apply_committed` for the decoded entry: the node, the commands and the
-- actions so far.
abbrev pub Applied : Type 0
Applied = Raft × List Command × List Action

abbrev pub apply_decoded : Option ConfChange → Command → Applied → Applied
apply_decoded (some cc) cmd (r, cmds, actions) =
    (apply_conf_change r cc, cmds, actions ++ persist_hard_state ∷ [])
apply_decoded none cmd (r, cmds, actions) =
    (r, if is_empty cmd then cmds else cmds ++ cmd ∷ [], actions)

unfoldable pub apply_entry : Bincode → Option LogEntry → Applied → Applied
apply_entry b none a = a
apply_entry b (some e) a = apply_decoded (decode_conf_change b e.command) e.command a

abbrev pub set_applied : LogIndex → Applied → Applied
set_applied i (r, cmds, actions) =
    (record r { hard = record r.hard { last_applied = i } }, cmds, actions)

abbrev pub apply_next : Bincode → Applied → Applied
apply_next b a =
    let nxt = next a.0.hard.last_applied in set_applied nxt (apply_entry b (get a.0.log nxt) a)

-- `while last_applied < commit_index`, with fuel for the entries that are left.
unfoldable pub apply_loop : ℕ → Bincode → Applied → Applied
apply_loop zero b a = a
apply_loop (suc fuel) b a =
    let rest = apply_loop fuel b (apply_next b a) in
    if ltb a.0.hard.last_applied a.0.hard.commit_index then rest else a

abbrev pub with_commands : List Command → List Action → List Action
with_commands cmds actions = if is_empty cmds then actions else actions ++ apply cmds ∷ []

abbrev pub with_persist : List Action → List Action
with_persist actions = if is_empty actions then actions else actions ++ persist_hard_state ∷ []

unfoldable pub apply_committed : Externals → Raft → Raft × List Action
apply_committed ext r =
    let fuel = r.hard.commit_index - r.hard.last_applied in
    let (r', cmds, actions) = apply_loop fuel ext.bincode (r, [], []) in
    (r', with_persist (with_commands cmds actions))

-- One round of the loop of `try_advance_commit`.
unfoldable pub advance_to : Term → LogIndex → Raft → Raft × List Action
advance_to current_term idx r =
    if term_at r.log idx == current_term && has_quorum_for_index r idx
    then (record r { hard = record r.hard { commit_index = idx } }, persist_hard_state ∷ [])
    else (r, [])

-- The loop over `n` indexes from `idx` up.
unfoldable pub advance_loop : ℕ → Term → LogIndex → Raft → Raft × List Action
advance_loop zero current_term idx r = (r, [])
advance_loop (suc n) current_term idx r =
    let (r', actions) = advance_to current_term idx r in
    let (r'', more) = advance_loop n current_term (idx + 1) r' in (r'', actions ++ more)

-- A leader whose log has run more than the threshold past what it applied asks for a snapshot.
abbrev pub compaction : Raft → List Action
compaction r =
    if is_leader r.soft.role
      && ltb r.compact_threshold (saturating_sub (last_index r.log) r.hard.last_applied)
    then snapshot (record {
      index = r.hard.last_applied;
      term = term_at r.log r.hard.last_applied;
      payload = [];
    })
      ∷ []
    else []

-- The indexes from `commit_index + 1` to the last one; the sum wraps around, or it is a panic in a
-- build that checks for overflow.
unfoldable pub try_advance_commit : Externals → Raft → Raft × List Action
try_advance_commit ext r =
    let first = wrapping_add r.hard.commit_index 1 in
    let (r1, advanced) = advance_loop (last_index r.log + 1 - first) r.hard.current_term first r in
    let (r2, applied) = apply_committed ext r1 in
    let r3 = try_confirm_reads r2 in (r3, advanced ++ (applied ++ compaction r3))
