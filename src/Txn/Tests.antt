-- ===== src/Txn/Tests.antt =====
-- The theorems about transactions at concrete managers, and runs of the code.
use noe_db.Txn.Calls.Running.{open_sessions_run}
use noe_db.Txn.Calls.Sessions.{IsRunning}
use noe_db.Txn.Deadlock.Complete.{find_cycle_victim_complete}
use noe_db.Base.{refl, [], ◌∷◌, ◌≢◌, List, ◌≡◌, arith, none, ℕ}
use noe_db.Base.IdMap.{lookup_id, insert_id, remove_id, contains_id}
use noe_db.Base.ByteMap.{lookup, insert}
use noe_db.Mvcc.Table.{get, view_at}
use noe_db.Txn.Manager.{
  TxnManager, begin, get_key, with_txn, session_txn, new_manager, track_rw_dependencies, note_all,
  writers_of,
}
use noe_db.Txn.Commit.{
  commit, commit_with_durable, Durable, after_poll, check_and_commit, after_check, make_durable,
  after_durable, finish_commit,
}
use noe_db.Txn.Transaction.{
  done, failed, serialization_failure, write_read_conflict, Transaction, stage_put, new_transaction,
  record_read,
}
use noe_db.Txn.Ssi.{purge, check_commit, has_conflict, has_rw_cycle, register_commit}
use noe_db.Txn.Calls.{Call, after_call, run, begin_call, get_call, put_call, commit_call}
use noe_db.Txn.Deadlock.{
  clear, record_wait, DeadlockGuard, walk, new_guard, find_cycle_victim, poll, first_on_cycle,
}
use noe_db.Base.Bytes.{Bytes, cmp_bytes}
use noe_db.Mvcc.Version.{next_ts}
use noe_db.Txn.Calls.Conflicts.{commit-never_conflicts}
use noe_db.Txn.Deadlock.Cycles.{WaitsFor, find_cycle_victim-WaitsFor, waits_through, waits_directly}
use noe_db.Mvcc.View.{is_member}
use noe_db.Txn.Calls.Isolation.{reads_are_repeatable}

abbrev seven : Bytes
seven = 7 ∷ []

abbrev no_hook : Durable
no_hook = λ ts pending. done tt

-- One session commits a write of key 7.
abbrev first_calls : List Call
first_calls = begin_call 0 1 ∷ put_call 1 seven (1 ∷ []) ∷ commit_call no_hook 0 1 ∷ []

-- Two sessions read and write key 7 at the same time, and one of them commits.
abbrev crossing_calls : List Call
crossing_calls =
    begin_call 0 1
    ∷ begin_call 0 2
    ∷ get_call 1 seven
    ∷ get_call 2 seven
    ∷ put_call 1 seven (1 ∷ [])
    ∷ put_call 2 seven (2 ∷ [])
    ∷ commit_call no_hook 0 1
    ∷ []

-- Two sessions begin.
abbrev crossing_start : List Call
crossing_start = begin_call 0 1 ∷ begin_call 0 2 ∷ []

reads_are_repeatable_example :
    get (run crossing_calls (run first_calls new_manager)).mvcc seven (view_at 2)
    ≡ get (run first_calls new_manager).mvcc seven (view_at 2)
unfolding run after_call begin get_key with_txn session_txn stage_put commit_with_durable poll
    lookup_id insert_id remove_id contains_id insert lookup cmp_bytes after_poll check_and_commit
    after_check check_commit has_conflict has_rw_cycle make_durable after_durable finish_commit
    next_ts find_cycle_victim
reads_are_repeatable_example =
    reads_are_repeatable first_calls crossing_calls (view_at 2) seven refl (omega arith)
      (omega arith)

commit-never_conflicts_example :
    (commit 0 2 (run crossing_calls new_manager)).1
    ≢ failed (serialization_failure write_read_conflict)
commit-never_conflicts_example = commit-never_conflicts crossing_calls 0 2

abbrev eight : Bytes
eight = 8 ∷ []

-- Two sessions, the first with a write of key 7 and the second with one of key 8.
abbrev two_writers : TxnManager
two_writers =
    run
      (begin_call 0 1 ∷ begin_call 0 2 ∷ put_call 1 seven (1 ∷ []) ∷ put_call 2 eight (2 ∷ []) ∷ [])
      new_manager

abbrev writes_seven : Transaction
writes_seven = stage_put seven (1 ∷ []) (new_transaction 1 1 0)

abbrev writes_eight : Transaction
writes_eight = stage_put eight (2 ∷ []) (new_transaction 2 2 0)

-- Write skew: each session reads the key that the other writes afterwards, and the first commits.
abbrev skew_calls : List Call
skew_calls =
    begin_call 0 1
    ∷ begin_call 0 2
    ∷ get_call 1 eight
    ∷ get_call 2 seven
    ∷ put_call 1 seven (1 ∷ [])
    ∷ put_call 2 eight (2 ∷ [])
    ∷ commit_call no_hook 0 1
    ∷ []

-- Then the second commits too: the reads came before the writes, so nothing was noted.
skew_commits :
    (commit 0 2 (run skew_calls new_manager)).1 ≡ done (record { commit_ts = 4; keys_written = 1 })
unfolding run after_call begin get_key with_txn session_txn stage_put commit commit_with_durable
    poll lookup_id insert_id remove_id contains_id insert lookup cmp_bytes after_poll
    check_and_commit after_check check_commit has_conflict has_rw_cycle make_durable after_durable
    finish_commit next_ts record_read track_rw_dependencies purge register_commit note_all
    writers_of find_cycle_victim clear
skew_commits = refl

-- 1 waits for 2, 2 for 3 and 3 for 2.
abbrev guard : DeadlockGuard
guard = record_wait 3 2 (record_wait 2 3 (record_wait 1 2 new_guard))

find_cycle_victim-WaitsFor_example : WaitsFor guard.waits 2 2
unfolding record_wait insert_id lookup_id find_cycle_victim first_on_cycle walk is_member
find_cycle_victim-WaitsFor_example = find_cycle_victim-WaitsFor guard 2 refl

-- Both writers of the same key commit, and the second write covers the first.
second_commits :
    (commit 0 2 (run crossing_calls new_manager)).1
    ≡ done (record { commit_ts = 4; keys_written = 1 })
unfolding run after_call begin get_key with_txn session_txn stage_put commit commit_with_durable
    poll lookup_id insert_id remove_id contains_id insert lookup cmp_bytes after_poll
    check_and_commit after_check check_commit has_conflict has_rw_cycle make_durable after_durable
    finish_commit next_ts record_read track_rw_dependencies purge register_commit note_all
    writers_of find_cycle_victim clear
second_commits = refl

find_cycle_victim_complete_example : find_cycle_victim guard ≢ none
unfolding record_wait insert_id lookup_id
find_cycle_victim_complete_example =
    find_cycle_victim_complete guard 3 (waits_through 3 2 3 (waits_directly 3 2 refl) refl)

abbrev first_session : ℕ
first_session = 1

open_sessions_run_example :
    IsRunning 1 (run crossing_start new_manager).active × (first_session ≡ first_session)
unfolding run after_call begin insert_id lookup_id contains_id next_ts
open_sessions_run_example =
    open_sessions_run crossing_start first_session first_session 1 (omega arith) refl refl
