-- ===== src/Raft/Log/Laws.antt =====
-- Laws of the log operations: lengths and entries.
use noe_db.Base.{
  ℕ, suc, ◌+◌, ◌-◌, ◌<◌, ◌≡◌, refl, ap, List, [], ◌∷◌, length, take, drop, replicate, length-append,
  length-take, length-replicate, min, arith, Bool-cases, ltb, inl, inr, leb, append-nil, leb→le,
  gt_of_leb, sym, ge_of_ltb, take_all, drop_all,
}
use noe_db.Base.Words.{u64_max, wrapping_add}
use noe_db.Raft.Types.{Term, LogIndex}
use noe_db.Raft.Log.Defs.{
  LogEntry, RaftLog, last_index, append, truncate_from, slice_from, restore, set_last_term, resize,
}

-- The sentinel is there.
abbrev pub IsLog : RaftLog → Type 0
IsLog l = 0 < length l.entries

pub length-append_log :
    (l : RaftLog) (es : List LogEntry)
    → length (append l es).0.entries ≡ length l.entries + length es
unfolding append
length-append_log l es = length-append l.entries es

pub length-truncate_from :
    (l : RaftLog) (i : LogIndex)
    → i < u64_max
    → length (truncate_from l i).entries ≡ min (i + 1) (length l.entries)
unfolding truncate_from
length-truncate_from l i w = elim (Bool-cases (ltb (min (i + 1) u64_max) (length l.entries))) [
  | inl cut ↦ rw cut (omega (arith, length-take (min (i + 1) u64_max) l.entries))
  | inr short ↦ rw short (ground arith)
]

length-set_last_term : (es : List LogEntry) (t : Term) → length (set_last_term es t) ≡ length es
length-set_last_term [] t = refl
length-set_last_term (e ∷ []) t = refl
length-set_last_term (e ∷ d ∷ es) t = ap suc (length-set_last_term (d ∷ es) t)

length-resize : (es : List LogEntry) (n : ℕ) (e : LogEntry) → length (resize es n e) ≡ n
length-resize es n e = elim (Bool-cases (leb n (length es))) [
  | inl fits ↦ rw fits (omega (arith, length-take n es, leb→le n (length es) fits))
  | inr longer ↦ rw longer (
      omega (
        arith,
        length-append es (replicate (n - length es) e),
        length-replicate (n - length es) e,
        gt_of_leb n (length es) longer,
      ))
]

abbrev blank_entry : Term → LogEntry
blank_entry t = record { term = t; command = [] }

-- A log restored from a snapshot with no suffix ends at the snapshot's index.
pub last_index-restore :
    (l : RaftLog) (i : LogIndex) (t : Term) → i < u64_max → last_index (restore l i t []) ≡ i
unfolding last_index restore
last_index-restore l i t w = elim (Bool-cases (ltb 0 i)) [
  | inl far ↦
      let base : List LogEntry = resize (blank_entry t ∷ []) (wrapping_add i 1) (blank_entry t) in
      rw (append-nil, far)
        (omega (
          arith,
          length-set_last_term base t,
          length-resize (blank_entry t ∷ []) (wrapping_add i 1) (blank_entry t),
        ))
  | inr zero_index ↦ rw (append-nil, zero_index) (omega (arith, ge_of_ltb 0 i zero_index))
]

pub restore-IsLog : (l : RaftLog) (i : LogIndex) (t : Term) → i < u64_max → IsLog (restore l i t [])
unfolding restore
restore-IsLog l i t w = elim (Bool-cases (ltb 0 i)) [
  | inl far ↦
      let base : List LogEntry = resize (blank_entry t ∷ []) (wrapping_add i 1) (blank_entry t) in
      rw (append-nil, far)
        (omega (
          arith,
          length-set_last_term base t,
          length-resize (blank_entry t ∷ []) (wrapping_add i 1) (blank_entry t),
        ))
  | inr zero_index ↦ rw (append-nil, zero_index) (omega arith)
]

pub entries-truncate_from :
    (l : RaftLog) (i : LogIndex)
    → i < u64_max
    → (truncate_from l i).entries ≡ take (i + 1) l.entries
unfolding truncate_from
entries-truncate_from l i w =
    let keep : min (i + 1) u64_max ≡ i + 1 = omega arith in
    elim (Bool-cases (ltb (min (i + 1) u64_max) (length l.entries))) [
      | inl cut ↦ rw (cut, keep)
      | inr short ↦ rw short (sym (take_all (i + 1) l.entries (ground arith)))
    ]

pub slice_from-eq-drop : (l : RaftLog) (i : LogIndex) → slice_from l i ≡ drop i l.entries
unfolding slice_from
slice_from-eq-drop l i = elim (Bool-cases (leb (length l.entries) i)) [
  | inl past ↦ rw past (sym (drop_all i l.entries (leb→le _ _ past)))
  | inr inside ↦ rw inside
]
