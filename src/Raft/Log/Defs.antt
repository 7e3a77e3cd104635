-- ===== src/Raft/Log/Defs.antt =====
-- The operations of `RaftLog`.
use noe_db.Base.{
  ℕ, ◌-◌, Option, none, some, List, [], ◌∷◌, ◌++◌, length, get_elem?, take, drop, replicate, ltb,
  leb, if◌then◌else◌,
}
use noe_db.Base.Words.{saturating_add, saturating_sub, wrapping_add}
use noe_db.Raft.Types.{NodeId, Term, LogIndex, next}

abbrev pub Command : Type 0
Command = List ℕ

pub record LogEntry : Type 0 where
  pub term : Term
  pub command : Command

pub data ConfChange : Type 0 where
  add_voter remove_voter : NodeId → ConfChange

pub record RaftLog : Type 0 where
  pub entries : List LogEntry

-- `RaftLog::new`: the sentinel alone
abbrev pub new_log : RaftLog
new_log = record { entries = record { term = 0; command = [] } ∷ [] }

unfoldable pub last_index : RaftLog → LogIndex
last_index l = saturating_sub (length l.entries) 1

-- `map_or(Term(0), |e| e.term)`
abbrev pub term_or_zero : Option LogEntry → Term
term_or_zero none = 0
term_or_zero (some e) = e.term

unfoldable pub term_at : RaftLog → LogIndex → Term
term_at l i = term_or_zero (get_elem? l.entries i)

unfoldable pub get : RaftLog → LogIndex → Option LogEntry
get l i = get_elem? l.entries i

-- The new log, and the first new index.
unfoldable pub append : RaftLog → List LogEntry → RaftLog × LogIndex
append l es = (record { entries = l.entries ++ es }, next (last_index l))

unfoldable pub truncate_from : RaftLog → LogIndex → RaftLog
truncate_from l i =
    let keep = saturating_add i 1 in
    if ltb keep (length l.entries) then record { entries = take keep l.entries } else l

unfoldable pub slice_from : RaftLog → LogIndex → List LogEntry
slice_from l from = if leb (length l.entries) from then [] else drop from l.entries

-- `Vec::resize`
abbrev pub resize : List LogEntry → ℕ → LogEntry → List LogEntry
resize es n e = if leb n (length es) then take n es else es ++ replicate (n - length es) e

-- `if let Some(last) = entries.last_mut() { last.term = t }`
abbrev pub set_last_term : List LogEntry → Term → List LogEntry
set_last_term [] t = []
set_last_term (e ∷ []) t = record e { term = t } ∷ []
set_last_term (e ∷ d ∷ es) t = e ∷ set_last_term (d ∷ es) t

-- At the greatest index the length wraps around to 0, or it is a panic in a build that checks for
-- overflow.
unfoldable pub restore : RaftLog → LogIndex → Term → List LogEntry → RaftLog
restore l snapshot_index snapshot_term suffix =
    let blank : LogEntry = record { term = snapshot_term; command = [] } in
    let base : List LogEntry = blank ∷ [] in
    let filled : List LogEntry =
      if ltb 0 snapshot_index
      then set_last_term (resize base (wrapping_add snapshot_index 1) blank) snapshot_term
      else base in
    record { entries = filled ++ suffix }
