-- ===== src/Raft/Config.antt =====
-- crates/noedb-raft/src/config.rs. Durations are numbers of milliseconds, and the cluster's shared
-- secret, which only the transport reads, is its bytes.
use noe_db.Base.{ℕ, ◌+◌, ◌/◌, Bool, false, ◌||◌, List, [], ◌∷◌, length, max, ◌==◌, if◌then◌else◌}
use noe_db.Raft.Types.{NodeId}

pub record RaftConfig : Type 0 where
  pub id : NodeId
  pub voters : List NodeId
  pub election_timeout_min : ℕ
  pub election_timeout_max : ℕ
  pub heartbeat_interval : ℕ
  pub max_append_batch : ℕ
  pub max_pipeline_bytes : ℕ
  pub auth : List ℕ

-- `voters.contains(&node)`
unfoldable pub contains : List NodeId → NodeId → Bool
contains [] node = false
contains (v ∷ vs) node = v == node || contains vs node

unfoldable pub quorum : RaftConfig → ℕ
quorum c = length c.voters / 2 + 1

unfoldable pub is_voter : RaftConfig → NodeId → Bool
is_voter c node = contains c.voters node

-- `gen_range` is the call of the `rand` crate, `thread_rng().gen_range(min..=max)`: the number that
-- it yields, of the draws made so far, the lower and the upper bound.
unfoldable pub election_timeout : (ℕ → ℕ → ℕ → ℕ) → ℕ → RaftConfig → ℕ
election_timeout gen_range draws c =
    let lo = c.election_timeout_min in
    let hi = c.election_timeout_max in if lo == hi then lo else gen_range draws lo (max hi lo)
