-- ===== src/Raft/Machine/Ballots.antt =====
-- The votes and the role of a node under the changes of role and the timer.
use noe_db.Base.{
  ℕ, ◌≤◌, ◌≡◌, refl, Option, List, [], ◌∷◌, true, false, arith, Bool-cases, inl, inr, length, leb,
  leb→le,
}
use noe_db.Raft.State.{
  Raft, Externals, Action, reset_election_timer, insert_vote, persist_hard_state,
}
use noe_db.Raft.Types.{is_leader, NodeId, Term}
use noe_db.Raft.Election.{
  become_follower, as_candidate, become_leader, start_election, become_candidate, elect_if_quorate,
  vote_requests,
}
use noe_db.Raft.Config.{contains, quorum}
use noe_db.Raft.Machine.{tick}

-- The members of the set of votes are listed once each.
abbrev pub AreDistinct : List NodeId → Type 0
AreDistinct [] = Unit
AreDistinct (v ∷ vs) = (contains vs v ≡ false) × AreDistinct vs

-- What every call keeps of the votes: the senders that are counted stay distinct, and a node that
-- turns leader has counted at least as many as its quorum.
pub record Elects (a b : Raft) : Type 0 where
  pub distinct : AreDistinct a.votes → AreDistinct b.votes
  pub quorate :
      is_leader a.soft.role ≡ false
      → is_leader b.soft.role ≡ true
      → quorum b.config ≤ length b.votes

pub Elects-same : (a b : Raft) → b.soft.role ≡ a.soft.role → b.votes ≡ a.votes → Elects a b
Elects-same a b s v = record { distinct = λ d. rw v d; quorate = λ n l. cc }

-- A call that ends with no leader and with no votes but those that were.
pub Elects-no_leader :
    (a b : Raft)
    → is_leader b.soft.role ≡ false
    → (AreDistinct a.votes → AreDistinct b.votes)
    → Elects a b
Elects-no_leader a b s v = record { distinct = v; quorate = λ n l. cc }

pub become_follower-Elects :
    (ext : Externals) (r : Raft) (t : Term) (l : Option NodeId)
    → Elects r (become_follower ext r t l)
unfolding become_follower reset_election_timer
become_follower-Elects ext r t l = Elects-no_leader _ _ (ground arith) (λ d. ground arith)

pub AreDistinct-insert_vote :
    (votes : List NodeId) (id : NodeId) → AreDistinct votes → AreDistinct (insert_vote votes id)
unfolding insert_vote
AreDistinct-insert_vote votes id d = elim (Bool-cases (contains votes id)) [
  | inl old ↦ rw old d
  | inr new_vote ↦ rw new_vote (new_vote, d)
]

as_candidate-votes : (ext : Externals) (r : Raft) → (as_candidate ext r).votes ≡ r.config.id ∷ []
unfolding as_candidate reset_election_timer insert_vote
as_candidate-votes ext r = refl

as_candidate-role : (ext : Externals) (r : Raft) → is_leader (as_candidate ext r).soft.role ≡ false
unfolding as_candidate reset_election_timer
as_candidate-role ext r = refl

-- `become_leader` on a node whose distinct votes are a quorum.
pub become_leader-Elects :
    (a b : Raft)
    → (AreDistinct a.votes → AreDistinct b.votes)
    → quorum b.config ≤ length b.votes
    → Elects a (become_leader b).0
unfolding become_leader
become_leader-Elects a b d q = record { distinct = d; quorate = λ n l. q }

elect_if_quorate-Elects :
    (a b : Raft) (actions : List Action)
    → (AreDistinct a.votes → AreDistinct b.votes)
    → is_leader b.soft.role ≡ false
    → Elects a (elect_if_quorate b actions).0
unfolding elect_if_quorate
elect_if_quorate-Elects a b actions d s =
    elim (Bool-cases (leb (quorum b.config) (length b.votes))) [
      | inl enough ↦ rw enough (become_leader-Elects a b d (leb→le _ _ enough))
      | inr few ↦ rw few (Elects-no_leader a b s d)
    ]

start_election-Elects : (ext : Externals) (r : Raft) → Elects r (start_election ext r).0
unfolding start_election become_candidate
start_election-Elects ext r = elim (Bool-cases (is_leader r.soft.role)) [
  | inl lead ↦ rw lead (Elects-same r r refl refl)
  | inr other ↦ rw other (
      elect_if_quorate-Elects r (as_candidate ext r)
        (persist_hard_state
          ∷ vote_requests (as_candidate ext r) (as_candidate ext r).hard.current_term
              (as_candidate ext r).config.voters)
        (λ d. rw as_candidate-votes (unfold contains in (refl, tt))) (as_candidate-role ext r))
]

pub tick-Elects : (ext : Externals) (r : Raft) (ms : ℕ) → Elects r (tick ext r ms).0
unfolding tick
tick-Elects ext r ms = elim (Bool-cases (is_leader r.soft.role)) [
  | inl lead ↦ rw lead (Elects-same _ _ (ground arith) (ground arith))
  | inr other ↦ rw other (elim (Bool-cases (leb r.election_remaining_ms ms)) [
    | inl due ↦ rw due (start_election-Elects ext r)
    | inr early ↦ rw early (Elects-same _ _ refl refl)
  ])
]
