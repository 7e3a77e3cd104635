-- ===== src/Mvcc/Table/Stamps.antt =====
-- Tables whose keys carry the timestamps of their versions, and snapshots of them.
use noe_db.Base.{
  none, refl, [], ◌∷◌, drop, length, ◌≡◌, ◌-◌, ◌<◌, ◌≤◌, false, ◌++◌, ◌≢◌, arith, sym,
  length-append, ◌∙◌, ap, Bool-cases, inl, inr,
}
use noe_db.Base.Bytes.{
  Bytes, to_be_bytes, cmp-to_be_bytes, eq_of_cmp_bytes, cmp_bytes_refl, length-to_be_bytes,
}
use noe_db.Base.ByteMap.{ByteMap, insert, remove, range, lookup}
use noe_db.Mvcc.Table.{
  get, MvccMemTable, best_version, commit_version, retained, abort_intents, get_version,
  prune_below, intents_of, remove_all, is_retained,
}
use noe_db.Mvcc.View.{ReadView, is_visible}
use noe_db.Mvcc.Version.{Version, CommitTs, TxnId}
use noe_db.Mvcc.Key.{encode_internal_key, user_key_prefix_end}
use noe_db.Base.Words.{u64_max}
use noe_db.Mvcc.Table.Prune.{drop_intents_none}

-- The last eight bytes of a key.
abbrev key_stamp : Bytes → Bytes
key_stamp ik = drop (length ik - 8) ik

-- Each key ends in the inverted timestamp of its version, which is a word.
abbrev pub IsStamped : ByteMap Version → Type 0
IsStamped [] = Unit
IsStamped ((ik, ver) ∷ m) =
    (key_stamp ik ≡ to_be_bytes 8 (u64_max - ver.commit_ts))
    × (ver.commit_ts ≤ u64_max)
    × IsStamped m

-- A table without intents, as the transaction manager keeps it.
abbrev pub IsClean : MvccMemTable → Type 0
IsClean t = (t.intents ≡ []) × IsStamped t.versions

drop-length_append : (u s : Bytes) → drop (length u) (u ++ s) ≡ s
drop-length_append [] s = refl
drop-length_append (x ∷ u) s = drop-length_append u s

key_stamp-encode_internal_key :
    (u : Bytes) (ts : CommitTs)
    → key_stamp (encode_internal_key u ts) ≡ to_be_bytes 8 (u64_max - ts)
unfolding encode_internal_key
key_stamp-encode_internal_key u ts =
    let inv = to_be_bytes 8 (u64_max - ts) in
    let len : length (u ++ inv) - 8 ≡ length u =
      omega (arith, length-append u inv, length-to_be_bytes 8 (u64_max - ts)) in
    rw len (drop-length_append u inv)

to_be_bytes-differ :
    (a b : CommitTs)
    → a < b
    → b ≤ u64_max
    → to_be_bytes 8 (u64_max - a) ≢ to_be_bytes 8 (u64_max - b)
to_be_bytes-differ a b lt w e =
    let less = cmp-to_be_bytes 8 (u64_max - b) (u64_max - a) (omega arith) (omega arith) in
    let same = cmp_bytes_refl (to_be_bytes 8 (u64_max - b)) in absurd (cc (e, less, same))

stamps-agree :
    (a b : CommitTs)
    → a ≤ u64_max
    → b ≤ u64_max
    → to_be_bytes 8 (u64_max - a) ≡ to_be_bytes 8 (u64_max - b)
    → a ≡ b
stamps-agree a b wa wb e = grind (arith, to_be_bytes-differ a b, to_be_bytes-differ b a, sym e)

IsStamped-insert :
    (u : Bytes) (ver : Version) (m : ByteMap Version)
    → ver.commit_ts ≤ u64_max
    → IsStamped m
    → IsStamped (insert (encode_internal_key u ver.commit_ts) ver m)
unfolding insert
IsStamped-insert u ver [] w h = (key_stamp-encode_internal_key u ver.commit_ts, w, tt)
IsStamped-insert u ver ((j, x) ∷ m) w h =
    ground (arith, key_stamp-encode_internal_key u ver.commit_ts, IsStamped-insert u ver m w h.2)

late-hidden :
    (view : ReadView) (w : Version)
    → view.snapshot_ts < w.commit_ts
    → is_visible view w none ≡ false
unfolding is_visible
late-hidden view w h = ground arith

same_key-hidden :
    (view : ReadView) (u j : Bytes) (ts : CommitTs) (w : Version)
    → view.snapshot_ts < ts
    → ts ≤ u64_max
    → w.commit_ts ≤ u64_max
    → key_stamp j ≡ to_be_bytes 8 (u64_max - w.commit_ts)
    → encode_internal_key u ts ≡ j
    → is_visible view w none ≡ false
same_key-hidden view u j ts w late wt ww stamp e =
    let same : ts ≡ w.commit_ts =
      stamps-agree ts w.commit_ts wt ww
        (sym (key_stamp-encode_internal_key u ts) ∙ ap (λ k. key_stamp k) e ∙ stamp) in
    late-hidden view w (omega arith)

best_version-insert_late :
    (view : ReadView) (start end u : Bytes) (ver : Version) (m : ByteMap Version)
    → view.snapshot_ts < ver.commit_ts
    → ver.commit_ts ≤ u64_max
    → IsStamped m
    → best_version [] view (range start end (insert (encode_internal_key u ver.commit_ts) ver m))
      ≡ best_version [] view (range start end m)
unfolding best_version range insert lookup
best_version-insert_late view start end u ver [] late w h =
    ground (arith, late-hidden view ver late)
best_version-insert_late view start end u ver ((j, x) ∷ m) late w h = ground (
  arith,
  late-hidden view ver late,
  eq_of_cmp_bytes (encode_internal_key u ver.commit_ts) j,
  same_key-hidden view u j ver.commit_ts x late w,
  best_version-insert_late view start end u ver m late w,
)

-- A version committed above a snapshot, in a table without intents, changes nothing that is read in
-- the snapshot, whatever the keys.
pub get-commit_late :
    (t : MvccMemTable) (view : ReadView) (user_key key : Bytes) (ver : Version)
    → IsClean t
    → view.snapshot_ts < ver.commit_ts
    → ver.commit_ts ≤ u64_max
    → get (commit_version t user_key ver) key view ≡ get t key view
unfolding get get_version commit_version remove
get-commit_late t view user_key key ver (no_intents, stamped) late w =
    let end = user_key_prefix_end key in
    ground (
      arith,
      no_intents,
      best_version-insert_late view key end user_key ver t.versions late w stamped,
    )

pub commit_version-IsClean :
    (t : MvccMemTable) (user_key : Bytes) (ver : Version)
    → IsClean t
    → ver.commit_ts ≤ u64_max
    → IsClean (commit_version t user_key ver)
unfolding commit_version remove
commit_version-IsClean t user_key ver (no_intents, stamped) w =
    (rw no_intents, IsStamped-insert user_key ver t.versions w stamped)

IsStamped-retained :
    (min_ts : CommitTs) (m : ByteMap Version) → IsStamped m → IsStamped (retained min_ts m)
unfolding retained
IsStamped-retained min_ts [] h = tt
IsStamped-retained min_ts ((ik, ver) ∷ m) h = elim (Bool-cases (is_retained min_ts ver)) [
  | inl kept ↦ rw kept (h.0, h.1, IsStamped-retained min_ts m h.2)
  | inr dropped ↦ rw dropped (IsStamped-retained min_ts m h.2)
]

pub prune_below-IsClean :
    (t : MvccMemTable) (min_ts : CommitTs) → IsClean t → IsClean (prune_below t min_ts).0
unfolding prune_below
prune_below-IsClean t min_ts (no_intents, stamped) = (
  rw no_intents (drop_intents_none min_ts t.versions),
  IsStamped-retained min_ts t.versions stamped,
)

-- Without intents an abort changes nothing.
pub abort_intents-IsClean :
    (t : MvccMemTable) (txn_id : TxnId) → IsClean t → abort_intents t txn_id ≡ t
unfolding abort_intents intents_of remove_all
abort_intents-IsClean t txn_id (no_intents, stamped) = rw no_intents
