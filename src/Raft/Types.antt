-- ===== src/Raft/Types.antt =====
-- crates/noedb-raft/src/types.rs. The newtypes over `u64` are numbers; their `prev` and `next`
-- saturate as the source's do.
use noe_db.Base.{ℕ, Bool}
use noe_db.Base.Words.{saturating_add, saturating_sub}

abbrev pub NodeId : Type 0
NodeId = ℕ

abbrev pub Term : Type 0
Term = ℕ

abbrev pub LogIndex : Type 0
LogIndex = ℕ

pub data Role : Type 0 where
  follower candidate leader : Role

abbrev pub prev : LogIndex → LogIndex
prev i = saturating_sub i 1

abbrev pub next : LogIndex → LogIndex
next i = saturating_add i 1

abbrev pub next_term : Term → Term
next_term t = saturating_add t 1

-- The derived `==` of `Role`, against each variant.
abbrev pub is_leader : Role → Bool
is_leader leader = Bool.true
is_leader _ = Bool.false

abbrev pub is_candidate : Role → Bool
is_candidate candidate = Bool.true
is_candidate _ = Bool.false
