-- ===== src/Raft/Machine/Votes.antt =====
-- The term and the vote of a node under the changes of role, the timer and committing.
use noe_db.Base.{ℕ, ◌≤◌, ◌<◌, ◌≡◌, refl, Option, some, arith, Bool-cases, inl, inr, leb, length}
use noe_db.Base.Words.{u64_max}
use noe_db.Raft.Types.{NodeId, Term, is_leader}
use noe_db.Raft.State.{Raft, Externals, reset_election_timer}
use noe_db.Raft.Machine.{tick}
use noe_db.Raft.Election.{
  become_follower, start_election, become_leader, as_candidate, become_candidate,
}
use noe_db.Raft.Config.{quorum}
use noe_db.Raft.Commit.{try_advance_commit}
use noe_db.Raft.Commit.Frame.{SameCore}
use noe_db.Raft.Commit.Advance.{try_advance_commit-SameCore}

-- What every call keeps of the term and of the vote.
pub record KeepsVote (a b : Raft) : Type 0 where
  pub grows : a.hard.current_term ≤ b.hard.current_term
  pub word : a.hard.current_term ≤ u64_max → b.hard.current_term ≤ u64_max
  pub vote :
      (c : NodeId)
      → b.hard.current_term ≡ a.hard.current_term
      → b.hard.current_term < u64_max
      → a.hard.voted_for ≡ some c
      → b.hard.voted_for ≡ some c

pub KeepsVote-refl : (a : Raft) → KeepsVote a a
KeepsVote-refl a = record { grows = omega arith; word = λ h. h; vote = λ c e m h. h }

pub KeepsVote-trans : (a b c : Raft) → KeepsVote a b → KeepsVote b c → KeepsVote a c
KeepsVote-trans a b c h k = record {
  grows = omega (arith, h.grows, k.grows);
  word = λ w. k.word (h.word w);
  vote = λ d e m v.
      k.vote d (omega (arith, h.grows, k.grows)) m
        (h.vote d (omega (arith, h.grows, k.grows)) (omega (arith, k.grows)) v);
}

pub KeepsVote-same :
    (a b : Raft)
    → b.hard.current_term ≡ a.hard.current_term
    → b.hard.voted_for ≡ a.hard.voted_for
    → KeepsVote a b
KeepsVote-same a b t v = record {
  grows = omega arith;
  word = λ w. omega arith;
  vote = λ c e m h. cc;
}

-- `become_follower` at a term that fits in a word.
pub become_follower-KeepsVote :
    (ext : Externals) (r : Raft) (t : Term) (l : Option NodeId)
    → t ≤ u64_max
    → KeepsVote r (become_follower ext r t l)
unfolding become_follower reset_election_timer
become_follower-KeepsVote ext r t l w = record {
  grows = ground arith;
  word = λ h. ground arith;
  vote = λ c e m h. ground arith;
}

become_leader-KeepsVote : (r : Raft) → KeepsVote r (become_leader r).0
unfolding become_leader
become_leader-KeepsVote r = KeepsVote-same _ _ refl refl

as_candidate-KeepsVote :
    (ext : Externals) (r : Raft) → r.hard.current_term ≤ u64_max → KeepsVote r (as_candidate ext r)
unfolding as_candidate reset_election_timer
as_candidate-KeepsVote ext r h = record {
  grows = omega arith;
  word = λ w. omega arith;
  vote = λ c e m v. absurd (omega arith);
}

start_election-KeepsVote :
    (ext : Externals) (r : Raft)
    → r.hard.current_term ≤ u64_max
    → KeepsVote r (start_election ext r).0
unfolding start_election become_candidate
start_election-KeepsVote ext r h = elim (Bool-cases (is_leader r.soft.role)) [
  | inl lead ↦ rw lead (KeepsVote-refl r)
  | inr other ↦
      rw other
        (elim (Bool-cases
          (leb (quorum (as_candidate ext r).config) (length (as_candidate ext r).votes))) [
            | inl won ↦ rw won (
                KeepsVote-trans _ _ _ (as_candidate-KeepsVote ext r h)
                  (become_leader-KeepsVote (as_candidate ext r)))
            | inr lost ↦ rw lost (as_candidate-KeepsVote ext r h)
          ])
]

pub tick-KeepsVote :
    (ext : Externals) (r : Raft) (ms : ℕ)
    → r.hard.current_term ≤ u64_max
    → KeepsVote r (tick ext r ms).0
unfolding tick
tick-KeepsVote ext r ms h = elim (Bool-cases (is_leader r.soft.role)) [
  | inl lead ↦ rw lead (KeepsVote-same _ _ (ground arith) (ground arith))
  | inr other ↦ rw other (elim (Bool-cases (leb r.election_remaining_ms ms)) [
    | inl due ↦ rw due (start_election-KeepsVote ext r h)
    | inr early ↦ rw early (KeepsVote-same _ _ refl refl)
  ])
]

SameCore-KeepsVote : (a b : Raft) → SameCore a b → KeepsVote a b
SameCore-KeepsVote a b h = KeepsVote-same a b h.term h.vote

pub try_advance_commit-KeepsVote :
    (ext : Externals) (r : Raft) → KeepsVote r (try_advance_commit ext r).0
try_advance_commit-KeepsVote ext r =
    let (c, a) = try_advance_commit-SameCore ext r in KeepsVote-same _ _ a.term a.vote
