-- ===== src/Raft/Machine/Growth.antt =====
-- The commit and apply indexes under the changes of role, votes and committing.
use noe_db.Base.{ℕ, ◌≤◌, ◌<◌, ◌≡◌, refl, Option, List, [], ◌∷◌, arith, inl, inr, length, false}
use noe_db.Raft.State.{Externals, Raft, reset_election_timer}
use noe_db.Raft.Election.{
  become_follower, start_election, become_candidate, become_leader, as_candidate,
}
use noe_db.Raft.Handlers.{note_leader, handle_request_vote}
use noe_db.Raft.Machine.{tick}
use noe_db.Raft.Commit.{try_advance_commit, is_empty}
use noe_db.Base.Words.{u64_max}
use noe_db.Raft.Rpc.{AppendEntriesReq, RequestVoteReq}
use noe_db.Raft.Commit.Advance.{try_advance_commit-Advanced, Commits}
use noe_db.Raft.Types.{Term, NodeId, LogIndex}
use noe_db.Raft.Log.{last_index}

-- What is applied is committed, what is committed is in the log, and the index of what is applied
-- fits in a word.
pub record IsApplied (r : Raft) : Type 0 where
  pub committed : r.hard.last_applied ≤ r.hard.commit_index
  pub word : r.hard.last_applied ≤ u64_max
  pub stored : r.hard.commit_index < length r.log.entries

-- The indexes grow, and what is applied stays committed.
pub record Grows (a b : Raft) : Type 0 where
  pub commit : a.hard.commit_index ≤ b.hard.commit_index
  pub applied : a.hard.last_applied ≤ b.hard.last_applied
  pub valid : IsApplied b

pub Grows-same :
    (a b : Raft)
    → b.hard.commit_index ≡ a.hard.commit_index
    → b.hard.last_applied ≡ a.hard.last_applied
    → length a.log.entries ≤ length b.log.entries
    → IsApplied a
    → Grows a b
Grows-same a b c l n v = record {
  commit = omega arith;
  applied = omega arith;
  valid = record {
    committed = omega (arith, v.committed);
    word = omega (arith, v.word);
    stored = omega (arith, v.stored);
  };
}

pub Grows-refl : (a : Raft) → IsApplied a → Grows a a
Grows-refl a v = Grows-same a a refl refl (omega arith) v

pub Grows-trans : (a b c : Raft) → Grows a b → Grows b c → Grows a c
Grows-trans a b c h k = record {
  commit = omega (arith, h.commit, k.commit);
  applied = omega (arith, h.applied, k.applied);
  valid = k.valid;
}

pub become_follower-Grows :
    (ext : Externals) (r : Raft) (t : Term) (l : Option NodeId)
    → IsApplied r
    → Grows r (become_follower ext r t l)
unfolding become_follower reset_election_timer
become_follower-Grows ext r t l v = Grows-same _ _ (ground arith) (ground arith) (ground arith) v

pub tick-Grows : (ext : Externals) (r : Raft) (ms : ℕ) → IsApplied r → Grows r (tick ext r ms).0
unfolding tick start_election become_candidate become_leader as_candidate reset_election_timer
tick-Grows ext r ms v = Grows-same _ _ (ground arith) (ground arith) (ground arith) v

stored_commit : (r : Raft) (c : LogIndex) → IsApplied r → Commits r c → c < length r.log.entries
unfolding last_index
stored_commit r c v k = elim k.reason [
  | inl e ↦ omega (arith, v.stored)
  | inr (t, q, le) ↦ omega (arith, v.stored)
]

pub try_advance_commit-Grows :
    (ext : Externals) (r : Raft)
    → length r.log.entries ≤ u64_max
    → IsApplied r
    → Grows r (try_advance_commit ext r).0
try_advance_commit-Grows ext r fits v =
    let (c, a) = try_advance_commit-Advanced ext r (omega (arith, v.stored)) in
    let l = a.applied v.word v.committed in
    record {
      commit = omega (arith, a.commits.grows, a.same.commit);
      applied = l.0;
      valid = record {
        committed = omega (arith, l.1, a.same.commit);
        word = l.2;
        stored = rw (a.same.log, a.same.commit) (stored_commit r c v a.commits);
      };
    }

pub handle_request_vote-Grows :
    (ext : Externals) (r : Raft) (req : RequestVoteReq)
    → IsApplied r
    → Grows r (handle_request_vote ext r req).0
unfolding handle_request_vote become_follower reset_election_timer
handle_request_vote-Grows ext r req v =
    Grows-same _ _ (ground arith) (ground arith) (ground arith) v

pub note_leader-Grows :
    (ext : Externals) (r : Raft) (req : AppendEntriesReq)
    → IsApplied r
    → Grows r (note_leader ext r req).0
unfolding note_leader become_follower reset_election_timer
note_leader-Grows ext r req v = Grows-same _ _ (ground arith) (ground arith) (ground arith) v

pub nonempty_pos {ℓ} : {A : Type ℓ} (xs : List A) → is_empty xs ≡ false → 0 < length xs
nonempty_pos [] h = cc
nonempty_pos (x ∷ xs) h = omega arith
