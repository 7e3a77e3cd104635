-- ===== src/Raft/Commit/Frame.antt =====
-- What committing and applying leave alone: the term, the vote, the log, the role and the votes.
use noe_db.Base.{
  ℕ, zero, suc, ◌-◌, ◌≤◌, ◌<◌, ◌≡◌, refl, inl, inr, Option, none, some, arith, Bool-cases, ltb, ◌∙◌,
  [],
}
use noe_db.Base.Words.{u64_max}
use noe_db.Raft.Types.{next}
use noe_db.Raft.Log.{LogEntry, ConfChange, add_voter, remove_voter, get}
use noe_db.Raft.Membership.{Bincode, decode_conf_change}
use noe_db.Raft.State.{Raft}
use noe_db.Raft.Replication.{rebuild_progress}
use noe_db.Raft.Commit.{
  apply_conf_change, Applied, apply_decoded, apply_entry, apply_next, apply_loop, apply_committed,
  try_confirm_reads, Externals,
}

-- `b` differs from `a` in what applying may change only: `last_applied`, the voters, the joint
-- configuration, the progress of the peers and the pending reads.
pub record SameCore (a b : Raft) : Type 0 where
  pub term : b.hard.current_term ≡ a.hard.current_term
  pub vote : b.hard.voted_for ≡ a.hard.voted_for
  pub commit : b.hard.commit_index ≡ a.hard.commit_index
  pub log : b.log ≡ a.log
  pub soft : b.soft ≡ a.soft
  pub votes : b.votes ≡ a.votes
  pub id : b.config.id ≡ a.config.id
  pub threshold : b.compact_threshold ≡ a.compact_threshold

pub SameCore-refl : (a : Raft) → SameCore a a
SameCore-refl a = record {
  term = refl;
  vote = refl;
  commit = refl;
  log = refl;
  soft = refl;
  votes = refl;
  id = refl;
  threshold = refl;
}

pub SameCore-trans : (a b c : Raft) → SameCore a b → SameCore b c → SameCore a c
SameCore-trans a b c h k = record {
  term = cc;
  vote = cc;
  commit = cc;
  log = cc;
  soft = cc;
  votes = cc;
  id = cc;
  threshold = cc;
}

pub SameCore-rebuild_progress : (r : Raft) → SameCore r (rebuild_progress r)
unfolding rebuild_progress
SameCore-rebuild_progress r = ground arith

-- A conf change leaves `last_applied` alone too.
pub SameCore-apply_conf_change :
    (r : Raft) (c : ConfChange)
    → SameCore r (apply_conf_change r c)
      × ((apply_conf_change r c).hard.last_applied ≡ r.hard.last_applied)
unfolding apply_conf_change rebuild_progress
SameCore-apply_conf_change r (add_voter id) = ground arith
SameCore-apply_conf_change r (remove_voter id) = ground arith

SameCore-apply_entry :
    (b : Bincode) (e : Option LogEntry) (a : Applied)
    → SameCore a.0 (apply_entry b e a).0
      × ((apply_entry b e a).0.hard.last_applied ≡ a.0.hard.last_applied)
unfolding apply_entry
SameCore-apply_entry b none a = (SameCore-refl a.0, refl)
SameCore-apply_entry b (some e) a = go (decode_conf_change b e.command)
  where
    go :
        (c : Option ConfChange)
        → SameCore a.0 (apply_decoded c e.command a).0
          × ((apply_decoded c e.command a).0.hard.last_applied ≡ a.0.hard.last_applied)
    go none = (SameCore-refl a.0, refl)
    go (some c) = SameCore-apply_conf_change a.0 c

SameCore-apply_next :
    (b : Bincode) (a : Applied)
    → SameCore a.0 (apply_next b a).0
      × ((apply_next b a).0.hard.last_applied ≡ next a.0.hard.last_applied)
SameCore-apply_next b a =
    let h = SameCore-apply_entry b (get a.0.log (next a.0.hard.last_applied)) a in
    let k = h.0 in
    (
      record {
        term = k.term;
        vote = k.vote;
        commit = k.commit;
        log = k.log;
        soft = k.soft;
        votes = k.votes;
        id = k.id;
        threshold = k.threshold;
      },
      refl,
    )

pub SameCore-apply_loop :
    (fuel : ℕ) (b : Bincode) (a : Applied) → SameCore a.0 (apply_loop fuel b a).0
unfolding apply_loop
SameCore-apply_loop zero b a = SameCore-refl a.0
SameCore-apply_loop (suc fuel) b a =
    elim (Bool-cases (ltb a.0.hard.last_applied a.0.hard.commit_index)) [
      | inl more ↦ rw more (
          SameCore-trans _ _ _ (SameCore-apply_next b a).0
            (SameCore-apply_loop fuel b (apply_next b a)))
      | inr done ↦ rw done (SameCore-refl a.0)
    ]

-- The loop ends with everything that is committed applied, and `last_applied` never past it.
last_applied-apply_loop :
    (fuel : ℕ) (b : Bincode) (a : Applied)
    → a.0.hard.commit_index ≤ u64_max
    → a.0.hard.last_applied ≤ a.0.hard.commit_index
    → a.0.hard.commit_index - a.0.hard.last_applied ≤ fuel
    → (apply_loop fuel b a).0.hard.last_applied ≡ a.0.hard.commit_index
unfolding apply_loop
last_applied-apply_loop zero b a word le enough = omega arith
last_applied-apply_loop (suc fuel) b a word le enough =
    elim (Bool-cases (ltb a.0.hard.last_applied a.0.hard.commit_index)) [
      | inl more ↦
          let s = SameCore-apply_next b a in
          let lt : a.0.hard.last_applied < a.0.hard.commit_index = ground arith in
          let c : (apply_next b a).0.hard.commit_index ≡ a.0.hard.commit_index = s.0.commit in
          let l : (apply_next b a).0.hard.last_applied ≡ next a.0.hard.last_applied = s.1 in
          rw more (
            last_applied-apply_loop fuel b (apply_next b a) (omega arith) (omega arith)
              (omega arith)
            ∙ c)
      | inr done ↦ rw done (ground arith)
    ]

-- The loop never applies past the commit index, and never un-applies.
apply_loop_le :
    (fuel : ℕ) (b : Bincode) (a : Applied)
    → a.0.hard.last_applied ≤ u64_max
    → a.0.hard.last_applied ≤ a.0.hard.commit_index
    → (a.0.hard.last_applied ≤ (apply_loop fuel b a).0.hard.last_applied)
      × ((apply_loop fuel b a).0.hard.last_applied ≤ a.0.hard.commit_index)
      × ((apply_loop fuel b a).0.hard.last_applied ≤ u64_max)
unfolding apply_loop
apply_loop_le zero b a word le = (omega arith, le, word)
apply_loop_le (suc fuel) b a word le =
    elim (Bool-cases (ltb a.0.hard.last_applied a.0.hard.commit_index)) [
      | inl more ↦
          let s = SameCore-apply_next b a in
          let lt : a.0.hard.last_applied < a.0.hard.commit_index = ground arith in
          let c : (apply_next b a).0.hard.commit_index ≡ a.0.hard.commit_index = s.0.commit in
          let l : (apply_next b a).0.hard.last_applied ≡ next a.0.hard.last_applied = s.1 in
          let ih = apply_loop_le fuel b (apply_next b a) (omega arith) (omega arith) in
          rw more (omega (arith, ih.0), omega (arith, ih.1), ih.2)
      | inr done ↦ rw done (omega arith, le, word)
    ]

pub SameCore-apply_committed : (ext : Externals) (r : Raft) → SameCore r (apply_committed ext r).0
unfolding apply_committed
SameCore-apply_committed ext r =
    SameCore-apply_loop (r.hard.commit_index - r.hard.last_applied) ext.bincode (r, [], [])

-- From a node that has applied no more than is committed, `apply_committed` returns with all of it
-- applied.
pub last_applied-apply_committed :
    (ext : Externals) (r : Raft)
    → r.hard.commit_index ≤ u64_max
    → r.hard.last_applied ≤ r.hard.commit_index
    → (apply_committed ext r).0.hard.last_applied ≡ r.hard.commit_index
unfolding apply_committed
last_applied-apply_committed ext r word le =
    last_applied-apply_loop (r.hard.commit_index - r.hard.last_applied) ext.bincode (r, [], []) word
      le (omega arith)

pub apply_committed_le :
    (ext : Externals) (r : Raft)
    → r.hard.last_applied ≤ u64_max
    → r.hard.last_applied ≤ r.hard.commit_index
    → (r.hard.last_applied ≤ (apply_committed ext r).0.hard.last_applied)
      × ((apply_committed ext r).0.hard.last_applied ≤ r.hard.commit_index)
      × ((apply_committed ext r).0.hard.last_applied ≤ u64_max)
unfolding apply_committed
apply_committed_le ext r word le =
    apply_loop_le (r.hard.commit_index - r.hard.last_applied) ext.bincode (r, [], []) word le

pub SameCore-try_confirm_reads : (a r : Raft) → SameCore a r → SameCore a (try_confirm_reads r)
unfolding try_confirm_reads
SameCore-try_confirm_reads a r h = record {
  term = h.term;
  vote = h.vote;
  commit = h.commit;
  log = h.log;
  soft = h.soft;
  votes = h.votes;
  id = h.id;
  threshold = h.threshold;
}
