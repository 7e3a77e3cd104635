-- ===== src/Mvcc/Table.antt =====
-- crates/noedb-storage/src/mvcc/memtable.rs and gc.rs: the table of versions.
pub mod Stability
pub mod Prefix
pub mod Prune
pub mod Stamps
use noe_db.Base.{
  ℕ, ◌-◌, Bool, true, false, not, ◌&&◌, ◌||◌, Option, none, some, List, [], ◌∷◌, length, ltb, leb,
  ◌==◌, if◌then◌else◌,
}
use noe_db.Base.Bytes.{Bytes, cmp_bytes, is_gt}
use noe_db.Base.Words.{u64_max}
use noe_db.Base.ByteMap.{ByteMap, lookup, insert, remove, range}
use noe_db.Mvcc.Version.{
  Version, CommitTs, TxnId, put_version, tombstone, intent_version, delete_intent_version,
}
use noe_db.Mvcc.Key.{encode_internal_key, user_key_prefix_end}
use noe_db.Mvcc.View.{ReadView, is_visible}

pub record MvccMemTable : Type 0 where
  pub versions : ByteMap Version
  pub intents : ByteMap TxnId

abbrev pub new_table : MvccMemTable
new_table = record { versions = []; intents = [] }

-- The common part of `put` and `delete`.
unfoldable pub commit_version : MvccMemTable → Bytes → Version → MvccMemTable
commit_version t user_key ver =
    let ik = encode_internal_key user_key ver.commit_ts in
    record { versions = insert ik ver t.versions; intents = remove ik t.intents }

unfoldable pub put : MvccMemTable → Bytes → Bytes → CommitTs → MvccMemTable
unfolding commit_version
put t user_key value ts = commit_version t user_key (put_version ts value)

unfoldable pub delete : MvccMemTable → Bytes → CommitTs → MvccMemTable
unfolding commit_version
delete t user_key ts = commit_version t user_key (tombstone ts)

abbrev pub stage : MvccMemTable → Bytes → Version → TxnId → MvccMemTable
stage t user_key ver txn_id =
    let ik = encode_internal_key user_key u64_max in
    record { versions = insert ik ver t.versions; intents = insert ik txn_id t.intents }

unfoldable pub put_intent : MvccMemTable → Bytes → Bytes → TxnId → MvccMemTable
put_intent t user_key value txn_id = stage t user_key (intent_version value) txn_id

unfoldable pub delete_intent : MvccMemTable → Bytes → TxnId → MvccMemTable
delete_intent t user_key txn_id = stage t user_key delete_intent_version txn_id

-- The keys of the intents that a transaction owns.
unfoldable pub intents_of : TxnId → ByteMap TxnId → List Bytes
intents_of txn_id [] = []
intents_of txn_id ((ik, t) ∷ m) =
    let rest = intents_of txn_id m in if t == txn_id then ik ∷ rest else rest

unfoldable pub remove_all : List Bytes → MvccMemTable → MvccMemTable
remove_all [] t = t
remove_all (ik ∷ keys) t =
    remove_all keys (record { versions = remove ik t.versions; intents = remove ik t.intents })

unfoldable pub abort_intents : MvccMemTable → TxnId → MvccMemTable
unfolding intents_of remove_all
abort_intents t txn_id = remove_all (intents_of txn_id t.intents) t

-- `best.is_none_or(|b| ver.commit_ts > b.commit_ts)`
abbrev pub newer : Version → Option Version → Bool
newer ver none = true
newer ver (some b) = ltb b.commit_ts ver.commit_ts

abbrev pub consider : Bool → Version → Option Version → Option Version
consider visible ver best = if visible && newer ver best then some ver else best

-- The loop of `get_version`. It goes through the entries in descending order of their keys, so those
-- behind the first come before it.
unfoldable pub best_version : ByteMap TxnId → ReadView → ByteMap Version → Option Version
best_version intents view [] = none
best_version intents view ((ik, ver) ∷ entries) =
    consider (is_visible view ver (lookup ik intents)) ver (best_version intents view entries)

-- A value, or the panic of `BTreeMap::range` where its start lies above its end.
pub data Checked {ℓ} (A : Type ℓ) : Type ℓ where
  returns : A → Checked A
  panics : Checked A

abbrev pub map_checked {ℓ κ} : {A : Type ℓ} {B : Type κ} → (A → B) → Checked A → Checked B
map_checked f (returns a) = returns (f a)
map_checked f panics = panics

unfoldable pub get_version : MvccMemTable → Bytes → ReadView → Checked (Option Version)
unfolding best_version
get_version t user_key view =
    let end = user_key_prefix_end user_key in
    if is_gt (cmp_bytes user_key end)
    then panics
    else returns (best_version t.intents view (range user_key end t.versions))

-- `filter(|v| !v.deleted).map(|v| v.value)`
abbrev pub live_value : Option Version → Option Bytes
live_value none = none
live_value (some v) = if v.deleted then none else some v.value

unfoldable pub get : MvccMemTable → Bytes → ReadView → Checked (Option Bytes)
unfolding get_version
get t user_key view = map_checked live_value (get_version t user_key view)

-- `ReadView::new(0, read_ts, BTreeSet::new())`
abbrev pub view_at : CommitTs → ReadView
view_at read_ts = record { snapshot_ts = read_ts; active_txns = []; txn_id = 0 }

unfoldable pub get_at_ts : MvccMemTable → Bytes → CommitTs → Checked (Option Bytes)
unfolding get
get_at_ts t user_key read_ts = get t user_key (view_at read_ts)

-- `retain`, and the entries that it drops
abbrev pub is_retained : CommitTs → Version → Bool
is_retained min_ts ver = ver.commit_ts == 0 || leb min_ts ver.commit_ts

unfoldable pub retained : CommitTs → ByteMap Version → ByteMap Version
retained min_ts [] = []
retained min_ts ((ik, ver) ∷ m) =
    let rest = retained min_ts m in if is_retained min_ts ver then (ik, ver) ∷ rest else rest

unfoldable pub drop_intents : CommitTs → ByteMap Version → ByteMap TxnId → ByteMap TxnId
drop_intents min_ts [] intents = intents
drop_intents min_ts ((ik, ver) ∷ m) intents =
    drop_intents min_ts m (if is_retained min_ts ver then intents else remove ik intents)

-- The table, and the number of versions dropped.
unfoldable pub prune_below : MvccMemTable → CommitTs → MvccMemTable × ℕ
unfolding retained drop_intents
prune_below t min_ts =
    let kept = retained min_ts t.versions in
    (
      record { versions = kept; intents = drop_intents min_ts t.versions t.intents },
      length t.versions - length kept,
    )

pub record GcStats : Type 0 where
  pub versions_pruned : ℕ
  pub min_retain_ts : CommitTs

unfoldable pub gc_versions : MvccMemTable → CommitTs → MvccMemTable × GcStats
unfolding prune_below
gc_versions t min_retain_ts =
    let (t', pruned) = prune_below t min_retain_ts in
    (t', record { versions_pruned = pruned; min_retain_ts = min_retain_ts })
