-- ===== src/Raft/Tests.antt =====
-- The theorems about Raft at concrete nodes, and runs of the code.
use noe_db.Base.{
  ℕ, ◌<◌, ◌≡◌, refl, none, some, [], ◌∷◌, true, false, arith, ◌↔◌, if◌then◌else◌, ◌==◌,
}
use noe_db.Raft.State.{
  Raft, Externals, HardState, reset_election_timer, insert_progress, no_progress, insert_vote,
}
use noe_db.Raft.Config.{RaftConfig, quorum, contains}
use noe_db.Raft.Machine.Events.{run, after, message, timer, Event}
use noe_db.Raft.Machine.Ballots.{Elects}
use noe_db.Raft.Machine.Leaders.{after-Elects}
use noe_db.Raft.Machine.Growth.{Grows, IsApplied}
use noe_db.Raft.Machine.Indexes.{run-Grows}
use noe_db.Raft.Handlers.Votes.{granted, Deserves, vote_granted_iff}
use noe_db.Raft.Rpc.{
  RequestVoteReq, AppendEntriesReq, request_vote, append_entries, request_vote_resp,
}
use noe_db.Raft.Log.{term_at, last_index, LogEntry, RaftLog, add_voter, remove_voter}
use noe_db.Raft.Commit.{try_advance_commit, compaction}
use noe_db.Raft.Handlers.{handle_request_vote, handle_append_entries, step_vote_response}
use noe_db.Raft.Node.{RaftNode, exec}
use noe_db.Raft.Node.Compaction.{compaction-drops_unapplied}
use noe_db.Raft.Commit.Advance.{Commits, commit_index-try_advance_commit}
use noe_db.Raft.Election.{
  start_election, become_candidate, log_is_up_to_date, as_candidate, become_leader,
  elect_if_quorate,
}
use noe_db.Raft.Machine.{tick, dispatch, step}
use noe_db.Raft.Handlers.Appends.{stale_append-drops_committed}
use noe_db.Raft.Machine.Terms.{votes_once_per_term}
use noe_db.Raft.Types.{is_leader, Role}

-- The encoding of a conf change as a tag and the id.
abbrev ext : Externals
ext = record {
  gen_range = λ draw lo hi. lo;
  bincode = record {
    serialize = λ cc. elim cc [ add_voter id ↦ 0 ∷ id ∷ [] | remove_voter id ↦ 1 ∷ id ∷ [] ];
    deserialize = λ bytes. elim bytes [
      | [] ↦ none
      | t ∷ rest ↦ elim rest [
        | [] ↦ none
        | id ∷ more ↦ if t == 0 then some (add_voter id) else some (remove_voter id)
      ]
    ];
  };
}

abbrev config : RaftConfig
config = record {
  id = 1;
  voters = 1 ∷ 2 ∷ 3 ∷ [];
  election_timeout_min = 120;
  election_timeout_max = 120;
  heartbeat_interval = 25;
  max_append_batch = 64;
  max_pipeline_bytes = 262144;
  auth = [];
}

abbrev entry : ℕ → ℕ → LogEntry
entry t b = record { term = t; command = b ∷ [] }

abbrev log3 : RaftLog
log3 = record {
  entries = record { term = 0; command = [] } ∷ entry 1 7 ∷ entry 2 8 ∷ entry 2 9 ∷ [];
}

abbrev hard : HardState
hard = record { current_term = 2; voted_for = some 2; commit_index = 2; last_applied = 1 }

-- A follower in term 2 that has voted for node 2.
abbrev follower2 : Raft
follower2 = record {
  config = config;
  hard = hard;
  soft = record { role = Role.follower; leader_id = some 2 };
  log = log3;
  progress = no_progress;
  votes = [];
  election_remaining_ms = 120;
  heartbeat_remaining_ms = 0;
  pending_reads = [];
  joint_config = none;
  compact_threshold = 1;
  draws = 1;
}

-- The same node as the leader of term 2, with node 2 caught up.
abbrev leader2 : Raft
leader2 = record follower2 {
  soft = record { role = Role.leader; leader_id = some 1 };
  progress =
      insert_progress (insert_progress no_progress 2 (record { next_index = 4; match_index = 3 })) 3
        (record { next_index = 2; match_index = 0 });
}

abbrev vote3 : RequestVoteReq
vote3 = record { term = 2; candidate_id = 3; last_log_index = 9; last_log_term = 2 }

abbrev vote4 : RequestVoteReq
vote4 = record { term = 4; candidate_id = 3; last_log_index = 3; last_log_term = 2 }

votes_once_per_term_example :
    (run ext follower2 (message 3 (request_vote vote3) ∷ timer 10 ∷ [])).hard.voted_for ≡ some 2
unfolding run after dispatch step handle_request_vote tick log_is_up_to_date
votes_once_per_term_example =
    votes_once_per_term ext follower2 (message 3 (request_vote vote3) ∷ timer 10 ∷ []) 2
      (omega arith) (omega arith) refl refl (omega arith)

-- The candidate of term 3, and the vote of node 2 with which it becomes leader.
abbrev candidate3 : Raft
candidate3 = after ext follower2 (timer 500)

abbrev yes3 : Event
yes3 = message 2 (request_vote_resp (record { term = 3; vote_granted = true }))

after-Elects_example : Elects candidate3 (after ext candidate3 yes3)
after-Elects_example = after-Elects ext candidate3 yes3

becomes_leader :
    (is_leader candidate3.soft.role ≡ false)
    × (is_leader (after ext candidate3 yes3).soft.role ≡ true)
unfolding after tick start_election become_candidate as_candidate reset_election_timer quorum
    dispatch step step_vote_response become_leader insert_vote contains elect_if_quorate
becomes_leader = (refl, refl)

-- A vote of node 9 counts as well, which is none of the voters.
stranger_elects :
    is_leader
      (after ext candidate3
        (message 9 (request_vote_resp (record { term = 3; vote_granted = true })))).soft.role
    ≡ true
unfolding after tick start_election become_candidate as_candidate reset_election_timer quorum
    dispatch step step_vote_response become_leader insert_vote contains elect_if_quorate
stranger_elects = refl

-- A follower whose timer runs out turns candidate and asks the others for votes.
elects_only_with_votes :
    (is_leader (after ext follower2 (timer 500)).soft.role ≡ false)
    × ((after ext follower2 (timer 500)).hard.current_term ≡ 3)
unfolding after tick start_election become_candidate as_candidate reset_election_timer quorum
elects_only_with_votes = (refl, refl)

follower2-IsApplied : IsApplied follower2
follower2-IsApplied = omega arith

abbrev append3 : AppendEntriesReq
append3 = record {
  term = 2;
  leader_id = 2;
  prev_log_index = 3;
  prev_log_term = 2;
  entries = entry 2 10 ∷ [];
  leader_commit = 3;
}

run-Grows_example : Grows follower2 (run ext follower2 (message 2 (append_entries append3) ∷ []))
run-Grows_example =
    run-Grows ext follower2 (message 2 (append_entries append3) ∷ [])
      ((omega arith, λ h. omega arith), tt) follower2-IsApplied

commit_index-try_advance_commit_example :
    Commits leader2 (try_advance_commit ext leader2).0.hard.commit_index
commit_index-try_advance_commit_example = commit_index-try_advance_commit ext leader2 (omega arith)

vote_granted_iff_example :
    (granted (handle_request_vote ext follower2 vote4).1 ≡ true) ↔ Deserves follower2 vote4
vote_granted_iff_example = vote_granted_iff ext follower2 vote4

abbrev stale : AppendEntriesReq
stale = record {
  term = 2;
  leader_id = 2;
  prev_log_index = 0;
  prev_log_term = 0;
  entries = entry 1 7 ∷ [];
  leader_commit = 0;
}

stale_append-drops_committed_example :
    last_index (handle_append_entries ext follower2 stale).0.log < 2
unfolding term_at
stale_append-drops_committed_example =
    stale_append-drops_committed ext follower2 stale (omega arith) refl (omega arith) refl
      (omega arith)

abbrev node2 : RaftNode
node2 = record {
  raft = leader2;
  storage = record { hard = hard; log = log3; snapshot = none };
  applied = [];
}

compaction-drops_unapplied_example :
    (last_index (exec node2 (compaction node2.raft)).0.raft.log ≡ 1)
    × (last_index (exec node2 (compaction node2.raft)).0.storage.log ≡ 1)
compaction-drops_unapplied_example =
    compaction-drops_unapplied node2 refl (omega arith) (unfold last_index in omega arith)
