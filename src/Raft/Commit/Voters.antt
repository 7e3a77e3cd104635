-- ===== src/Raft/Commit/Voters.antt =====
-- What a committed conf change does to the set of voters.
use noe_db.Base.{
  ◌≡◌, refl, none, List, [], ◌∷◌, ◌++◌, true, not, ◌&&◌, ◌||◌, arith, Bool-cases, inl, inr, length,
  ◌==◌, ltb,
}
use noe_db.Raft.State.{Raft}
use noe_db.Raft.Log.{add_voter, remove_voter}
use noe_db.Raft.Config.{contains}
use noe_db.Raft.Replication.{rebuild_progress}
use noe_db.Raft.Commit.{apply_conf_change, without}
use noe_db.Raft.Membership.{joint_add_voter, joint_finalize}
use noe_db.Raft.Types.{NodeId}

contains-snoc :
    (vs : List NodeId) (id v : NodeId) → contains (vs ++ id ∷ []) v ≡ (contains vs v || id == v)
unfolding contains
contains-snoc [] id v = ground arith
contains-snoc (w ∷ vs) id v = ground (arith, contains-snoc vs id v)

contains-without :
    (id : NodeId) (vs : List NodeId) (v : NodeId)
    → contains (without id vs) v ≡ (contains vs v && not (id == v))
unfolding contains without
contains-without id [] v = refl
contains-without id (w ∷ vs) v = ground (arith, contains-without id vs v)

contains_eq : (vs : List NodeId) (id v : NodeId) → (id == v) ≡ true → contains vs v ≡ contains vs id
unfolding contains
contains_eq [] id v e = refl
contains_eq (w ∷ vs) id v e = ground (arith, contains_eq vs id v e)

voters-rebuild_progress : (r : Raft) → (rebuild_progress r).config ≡ r.config
unfolding rebuild_progress
voters-rebuild_progress r = ground arith

-- Outside a joint configuration, a committed `add_voter` makes the voters the old ones and the new
-- one, and leaves no joint configuration behind.
pub add_voter-voters :
    (r : Raft) (id v : NodeId)
    → r.joint_config ≡ none
    → (contains (apply_conf_change r (add_voter id)).config.voters v
        ≡ (contains r.config.voters v || id == v))
      × ((apply_conf_change r (add_voter id)).joint_config ≡ none)
unfolding apply_conf_change rebuild_progress joint_add_voter joint_finalize
add_voter-voters r id v none_joint = elim (Bool-cases (contains r.config.voters id)) [
  | inl old ↦ (ground (arith, contains_eq r.config.voters id v), ground arith)
  | inr fresh ↦ (ground (arith, contains-snoc r.config.voters id v), ground arith)
]

-- A committed `remove_voter` takes that voter alone from two or more, and leaves a single voter.
pub remove_voter-voters :
    (r : Raft) (id v : NodeId)
    → contains (apply_conf_change r (remove_voter id)).config.voters v
      ≡ (contains r.config.voters v && not (ltb 1 (length r.config.voters) && id == v))
unfolding apply_conf_change rebuild_progress
remove_voter-voters r id v = ground (arith, contains-without id r.config.voters v)
