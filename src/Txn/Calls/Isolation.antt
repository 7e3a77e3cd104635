-- ===== src/Txn/Calls/Isolation.antt =====
-- Snapshots over runs of calls.
use noe_db.Base.{
  refl, [], ◌∷◌, suc, List, ℕ, ◌≤◌, ◌+◌, ◌≡◌, ◌<◌, Bool, length, false, true, arith, ◌&&◌,
  Bool-cases, ◌∙◌, inl, inr,
}
use noe_db.Mvcc.Table.{get, gc_versions, view_at}
use noe_db.Txn.Manager.{TxnManager, new_manager}
use noe_db.Txn.Commit.{gc}
use noe_db.Txn.Calls.{
  Call, after_call, run, begin_call, get_call, put_call, delete_call, commit_call, rollback_call,
  gc_call,
}
use noe_db.Txn.Calls.Snapshots.{keeps_versions, call-Steps}
use noe_db.Mvcc.Table.Stamps.{IsClean, prune_below-IsClean}
use noe_db.Mvcc.View.{ReadView}
use noe_db.Base.Words.{u64_max}
use noe_db.Base.Bytes.{Bytes}

-- No call of the list is a garbage collection.
abbrev pub all_keep : List Call → Bool
all_keep [] = true
all_keep (c ∷ calls) = keeps_versions c && all_keep calls

-- The table is clean and the clock has not moved on by more than one step per call.
abbrev IsSound : ℕ → TxnManager → Type 0
IsSound n m = IsClean m.mvcc × (m.oracle.last ≤ n)

kept-IsSound :
    (c : Call) (m : TxnManager) (n : ℕ)
    → keeps_versions c ≡ true
    → n < u64_max
    → IsSound n m
    → IsSound (suc n) (after_call c m)
kept-IsSound c m n keeps room (clean, low) =
    let step = call-Steps (view_at 0) c m keeps clean (omega arith) (omega arith) in
    (step.2.0, omega (arith, step.1))

collected-IsSound :
    (c : Call) (m : TxnManager) (n : ℕ)
    → keeps_versions c ≡ false
    → IsSound n m
    → IsSound (suc n) (after_call c m)
unfolding after_call gc gc_versions
collected-IsSound (gc_call ts) m n h (clean, low) =
    (prune_below-IsClean m.mvcc ts clean, omega arith)
collected-IsSound (begin_call now s) m n h sound = cc
collected-IsSound (get_call s key) m n h sound = cc
collected-IsSound (put_call s key value) m n h sound = cc
collected-IsSound (delete_call s key) m n h sound = cc
collected-IsSound (commit_call durable now s) m n h sound = cc
collected-IsSound (rollback_call s) m n h sound = cc

call-IsSound :
    (c : Call) (m : TxnManager) (n : ℕ)
    → n < u64_max
    → IsSound n m
    → IsSound (suc n) (after_call c m)
call-IsSound c m n room sound = elim (Bool-cases (keeps_versions c)) [
  | inl keeps ↦ kept-IsSound c m n keeps room sound
  | inr collects ↦ collected-IsSound c m n collects sound
]

run-IsSound :
    (calls : List Call) (m : TxnManager) (n : ℕ)
    → n + length calls < u64_max
    → IsSound n m
    → IsSound (n + length calls) (run calls m)
unfolding run
run-IsSound [] m n room sound = (sound.0, omega (arith, sound.1))
run-IsSound (c ∷ calls) m n room sound =
    let rest =
      run-IsSound calls (after_call c m) (suc n) (omega arith)
        (call-IsSound c m n (omega arith) sound) in
    (rest.0, omega (arith, rest.1))

run-get :
    (calls : List Call) (m : TxnManager) (n : ℕ) (view : ReadView) (key : Bytes)
    → all_keep calls ≡ true
    → n + length calls < u64_max
    → IsSound n m
    → view.snapshot_ts ≤ m.oracle.last
    → get (run calls m).mvcc key view ≡ get m.mvcc key view
unfolding run
run-get [] m n view key keeps room sound seen = refl
run-get (c ∷ calls) m n view key keeps room sound seen =
    let kept : keeps_versions c ≡ true = ground arith in
    let step = call-Steps view c m kept sound.0 seen (omega (arith, sound.1)) in
    run-get calls (after_call c m) (suc n) view key (ground arith) (omega arith)
      (call-IsSound c m n (omega arith) sound) (omega (arith, step.0))
    ∙ step.2.1 key

-- Snapshot isolation. Take any calls on a new manager, then a snapshot whose timestamp is not above
-- the clock, then any calls that do not collect garbage, fewer than 2^64 - 1 calls in all. Whatever
-- these later calls begin, write, commit and roll back, every key reads in the snapshot as it did.
pub reads_are_repeatable :
    (before after : List Call) (view : ReadView) (key : Bytes)
    → all_keep after ≡ true
    → length before + length after < u64_max
    → view.snapshot_ts ≤ (run before new_manager).oracle.last
    → get (run after (run before new_manager)).mvcc key view
      ≡ get (run before new_manager).mvcc key view
reads_are_repeatable before after view key keeps room seen =
    let sound = run-IsSound before new_manager 0 (omega arith) ((refl, tt), omega arith) in
    run-get after (run before new_manager) (length before) view key keeps room
      (sound.0, omega (arith, sound.1)) seen
