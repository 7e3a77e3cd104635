-- ===== src/Raft/Commit/Advance.antt =====
-- The leader's rule for the commit index: the greatest index of its own term that a quorum holds.
use noe_db.Base.{
  ℕ, zero, suc, ◌+◌, ◌-◌, ◌≤◌, ◌<◌, ◌≡◌, refl, ◌⊎◌, inl, inr, Bool, true, false, arith, Bool-cases,
  ◌==◌, ◌&&◌,
}
use native.Mathlib.Decide.{ℕ_discrete}
use noe_db.Base.Words.{u64_max, wrapping_add}
use noe_db.Raft.Types.{Term, LogIndex}
use noe_db.Raft.Log.{last_index, term_at}
use noe_db.Raft.State.{Raft, Externals}
use noe_db.Raft.Replication.{has_quorum_for_index}
use noe_db.Raft.Commit.{
  advance_to, advance_loop, apply_committed, try_advance_commit, try_confirm_reads,
}
use noe_db.Raft.Commit.Frame.{
  SameCore, SameCore-apply_committed, last_applied-apply_committed, apply_committed_le,
  SameCore-try_confirm_reads,
}

-- The leader may commit `j`: its entry there is of the term `t`, and a quorum holds it.
abbrev pub committable : Raft → Term → LogIndex → Bool
committable r t j = term_at r.log j == t && has_quorum_for_index r j

abbrev pub with_commit : Raft → LogIndex → Raft
with_commit r c = record r { hard = record r.hard { commit_index = c } }

-- `c` is what the rounds over the `n` indexes from `idx` make of the commit index of `r`.
pub record Advances (r : Raft) (t : Term) (idx : LogIndex) (n : ℕ) (c : LogIndex) : Type 0 where
  pub grows : r.hard.commit_index ≤ c
  pub reason : (c ≡ r.hard.commit_index) ⊎ ((committable r t c ≡ true) × (idx ≤ c) × (c < idx + n))
  pub greatest : (j : LogIndex) → c < j → idx ≤ j → j < idx + n → committable r t j ≡ false

Advances-good :
    (r : Raft) (t : Term) (idx : LogIndex) (n : ℕ) (c : LogIndex)
    → r.hard.commit_index < idx
    → committable r t idx ≡ true
    → Advances (with_commit r idx) t (idx + 1) n c
    → Advances r t idx (suc n) c
unfolding has_quorum_for_index
Advances-good r t idx n c h good a = record {
  grows = omega (arith, a.grows);
  reason = inr (elim a.reason [
    | inl e ↦ (rw e good, omega (arith, a.grows), omega arith)
    | inr (g, p, q) ↦ (g, omega arith, omega arith)
  ]);
  greatest = λ j p q s. a.greatest j p (omega (arith, a.grows)) (omega arith);
}

Advances-bad :
    (r : Raft) (t : Term) (idx : LogIndex) (n : ℕ) (c : LogIndex)
    → committable r t idx ≡ false
    → Advances r t (idx + 1) n c
    → Advances r t idx (suc n) c
Advances-bad r t idx n c bad a = record {
  grows = a.grows;
  reason = elim a.reason [ inl e ↦ inl e | inr (g, p, q) ↦ inr (g, omega arith, omega arith) ];
  greatest = λ j p q s. elim (ℕ_discrete j idx) [
    | yes e ↦ rw e bad
    | no ne ↦ a.greatest j p (omega arith) (omega arith)
  ];
}

advance_loop-Advances :
    (n : ℕ) (t : Term) (idx : LogIndex) (r : Raft)
    → r.hard.commit_index < idx
    → (c : LogIndex) × ((advance_loop n t idx r).0 ≡ with_commit r c) × Advances r t idx n c
unfolding advance_loop advance_to
advance_loop-Advances zero t idx r h = (
  r.hard.commit_index,
  refl,
  record { grows = omega arith; reason = inl refl; greatest = λ j p q s. absurd (omega arith) },
)
advance_loop-Advances (suc n) t idx r h = elim (Bool-cases (committable r t idx)) [
  | inl good ↦
      let (c, e, a) = advance_loop-Advances n t (idx + 1) (with_commit r idx) (omega arith) in
      (c, rw good e, Advances-good r t idx n c h good a)
  | inr bad ↦
      let (c, e, a) = advance_loop-Advances n t (idx + 1) r (omega arith) in
      (c, rw bad e, Advances-bad r t idx n c bad a)
]

-- The rounds change the commit index only.
advance_loop-commit :
    (n : ℕ) (t : Term) (idx : LogIndex) (r : Raft)
    → (c : LogIndex) × ((advance_loop n t idx r).0 ≡ with_commit r c)
unfolding advance_loop advance_to
advance_loop-commit zero t idx r = (r.hard.commit_index, refl)
advance_loop-commit (suc n) t idx r = elim (Bool-cases (committable r t idx)) [
  | inl good ↦ let (c, e) = advance_loop-commit n t (idx + 1) (with_commit r idx) in (c, rw good e)
  | inr bad ↦ let (c, e) = advance_loop-commit n t (idx + 1) r in (c, rw bad e)
]

-- The indexes that `try_advance_commit` goes through, and the commit index that it reaches.
pub record Commits (r : Raft) (c : LogIndex) : Type 0 where
  pub grows : r.hard.commit_index ≤ c
  pub reason :
      (c ≡ r.hard.commit_index)
      ⊎ ((term_at r.log c ≡ r.hard.current_term)
          × (has_quorum_for_index r c ≡ true)
          × (c ≤ last_index r.log))
  pub greatest :
      (j : LogIndex)
      → c < j
      → j ≤ last_index r.log
      → term_at r.log j ≡ r.hard.current_term
      → has_quorum_for_index r j ≡ false

Advances-Commits :
    (r : Raft) (c : LogIndex)
    → Advances r r.hard.current_term
        (r.hard.commit_index + 1)
        (last_index r.log - r.hard.commit_index)
        c
    → Commits r c
Advances-Commits r c a = record {
  grows = a.grows;
  reason = elim a.reason [
    | inl e ↦ inl e
    | inr (g, p, q) ↦ inr (ground arith, ground arith, omega arith)
  ];
  greatest =
      λ j p q e. ground (arith, a.greatest j p (omega (arith, a.grows)) (omega (arith, a.grows)));
}

-- `try_advance_commit` sets the commit index by the rule, applies, and leaves the rest alone.
pub record Advanced (ext : Externals) (r : Raft) (c : LogIndex) (r' : Raft) : Type 0 where
  pub commits : Commits r c
  pub same : SameCore (with_commit r c) r'
  pub applied :
      r.hard.last_applied ≤ u64_max
      → r.hard.last_applied ≤ r.hard.commit_index
      → (r.hard.last_applied ≤ r'.hard.last_applied)
        × (r'.hard.last_applied ≤ c)
        × (r'.hard.last_applied ≤ u64_max)
  pub applied_all :
      c ≤ u64_max → r.hard.last_applied ≤ r.hard.commit_index → r'.hard.last_applied ≡ c

apply-Advanced :
    (ext : Externals) (r : Raft) (c : LogIndex)
    → Commits r c
    → Advanced ext r c (try_confirm_reads (apply_committed ext (with_commit r c)).0)
unfolding try_confirm_reads
apply-Advanced ext r c k =
    let r1 : Raft = with_commit r c in
    record {
      commits = k;
      same =
          SameCore-try_confirm_reads r1 (apply_committed ext r1).0
            (SameCore-apply_committed ext r1);
      applied = λ w h. apply_committed_le ext r1 w (omega (arith, k.grows));
      applied_all = λ w h. last_applied-apply_committed ext r1 w (omega (arith, k.grows));
    }

-- Whatever its commit index, the node keeps all but what committing and applying change.
pub try_advance_commit-SameCore :
    (ext : Externals) (r : Raft)
    → (c : LogIndex) × SameCore (with_commit r c) (try_advance_commit ext r).0
unfolding try_advance_commit
try_advance_commit-SameCore ext r =
    let first = wrapping_add r.hard.commit_index 1 in
    let (c, e) = advance_loop-commit (last_index r.log + 1 - first) r.hard.current_term first r in
    let r1 : Raft = with_commit r c in
    (
      c,
      rw e (
          SameCore-try_confirm_reads r1 (apply_committed ext r1).0
            (SameCore-apply_committed ext r1)),
    )

-- The rounds over the range of `try_advance_commit`, whose start does not wrap around.
range-Advances :
    (r : Raft)
    → r.hard.commit_index < u64_max
    → let first = wrapping_add r.hard.commit_index 1 in
      (c : LogIndex) × ((advance_loop (last_index r.log + 1 - first) r.hard.current_term first r).0
        ≡ with_commit r c)
      × Advances r r.hard.current_term
          (r.hard.commit_index + 1)
          (last_index r.log - r.hard.commit_index)
          c
range-Advances r small =
    let first : wrapping_add r.hard.commit_index 1 ≡ r.hard.commit_index + 1 = omega arith in
    let n = last_index r.log - r.hard.commit_index in
    let rounds : last_index r.log + 1 - (r.hard.commit_index + 1) ≡ n = omega arith in
    rw (first, rounds)
      (advance_loop-Advances n r.hard.current_term (r.hard.commit_index + 1) r (omega arith))

pub try_advance_commit-Advanced :
    (ext : Externals) (r : Raft)
    → r.hard.commit_index < u64_max
    → (c : LogIndex) × Advanced ext r c (try_advance_commit ext r).0
unfolding try_advance_commit
try_advance_commit-Advanced ext r small =
    let (c, e, a) = range-Advances r small in
    (c, rw e (apply-Advanced ext r c (Advances-Commits r c a)))

-- The leader's commit index after `try_advance_commit`, from one below the greatest 64-bit word, is the greatest index, above the old one
-- and in the log, whose entry is of the leader's term and that a quorum holds; where there is none
-- it stays.
pub commit_index-try_advance_commit :
    (ext : Externals) (r : Raft)
    → r.hard.commit_index < u64_max
    → Commits r (try_advance_commit ext r).0.hard.commit_index
commit_index-try_advance_commit ext r small =
    let (c, a) = try_advance_commit-Advanced ext r small in rw a.same.commit a.commits

-- From a node that has applied no more than is committed, `try_advance_commit` returns with all
-- that is then committed applied, if the commit index was below the greatest 64-bit word and still fits
-- in one.
pub last_applied-try_advance_commit :
    (ext : Externals) (r : Raft)
    → r.hard.last_applied ≤ r.hard.commit_index
    → r.hard.commit_index < u64_max
    → (try_advance_commit ext r).0.hard.commit_index ≤ u64_max
    → (try_advance_commit ext r).0.hard.last_applied
      ≡ (try_advance_commit ext r).0.hard.commit_index
last_applied-try_advance_commit ext r h small w =
    let (c, a) = try_advance_commit-Advanced ext r small in
    omega (arith, a.applied_all (omega (arith, a.same.commit)) h, a.same.commit)
