-- ===== src/Mvcc/Table/Prune.antt =====
-- What garbage collection keeps and what it loses.
use noe_db.Base.{ℕ, suc, ◌≤◌, ◌≡◌, refl, Option, none, some, [], ◌∷◌, arith}
use noe_db.Mvcc.Version.{Version, CommitTs}
use noe_db.Mvcc.Table.{
  best_version, retained, get_version, prune_below, drop_intents, MvccMemTable, returns,
}
use noe_db.Mvcc.View.{ReadView}
use noe_db.Base.ByteMap.{ByteMap, range, remove}
use noe_db.Base.Bytes.{Bytes}
use noe_db.Mvcc.Key.{user_key_prefix_end}

abbrev rank : Option Version → ℕ
rank none = 0
rank (some v) = suc v.commit_ts

rank-retained :
    (view : ReadView) (min_ts : CommitTs) (m : ByteMap Version)
    → rank (best_version [] view (retained min_ts m)) ≤ rank (best_version [] view m)
unfolding best_version retained
rank-retained view min_ts [] = omega arith
rank-retained view min_ts ((ik, ver) ∷ m) = ground (arith, rank-retained view min_ts m)

best-retained :
    (view : ReadView) (min_ts : CommitTs) (m : ByteMap Version) (b : Version)
    → best_version [] view m ≡ some b
    → min_ts ≤ b.commit_ts
    → best_version [] view (retained min_ts m) ≡ some b
unfolding best_version retained
best-retained view min_ts [] b h le = cc
best-retained view min_ts ((ik, ver) ∷ m) b h le =
    ground (arith, best-retained view min_ts m b, rank-retained view min_ts m)

range-retained :
    (start end : Bytes) (min_ts : CommitTs) (m : ByteMap Version)
    → range start end (retained min_ts m) ≡ retained min_ts (range start end m)
unfolding range retained
range-retained start end min_ts [] = refl
range-retained start end min_ts ((ik, ver) ∷ m) = ground (arith, range-retained start end min_ts m)

pub drop_intents_none : (min_ts : CommitTs) (m : ByteMap Version) → drop_intents min_ts m [] ≡ []
unfolding drop_intents remove
drop_intents_none min_ts [] = refl
drop_intents_none min_ts ((ik, ver) ∷ m) = ground (arith, drop_intents_none min_ts m)

-- In a table with no intents, garbage collection does not change what a snapshot reads of a key whose
-- newest visible version is not older than the bound.
pub get_version-prune_below :
    (t : MvccMemTable) (key : Bytes) (view : ReadView) (min_ts : CommitTs) (b : Version)
    → t.intents ≡ []
    → get_version t key view ≡ returns (some b)
    → min_ts ≤ b.commit_ts
    → get_version (prune_below t min_ts).0 key view ≡ returns (some b)
unfolding get_version prune_below
get_version-prune_below t key view min_ts b clean h le =
    let end = user_key_prefix_end key in
    let was : best_version [] view (range key end t.versions) ≡ some b = ground arith in
    let same : drop_intents min_ts t.versions t.intents ≡ [] =
      rw clean (drop_intents_none min_ts t.versions) in
    ground (
      arith,
      same,
      range-retained key end min_ts t.versions,
      best-retained view min_ts (range key end t.versions) b was le,
    )
