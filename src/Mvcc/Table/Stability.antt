-- ===== src/Mvcc/Table/Stability.antt =====
-- Snapshots and the versions that are committed after them.
use noe_db.Mvcc.Table.{get, get_version, MvccMemTable, commit_version, best_version}
use noe_db.Mvcc.Version.{Version}
use noe_db.Base.{◌<◌, ◌≡◌, refl, false, none, [], ◌∷◌, arith}
use noe_db.Mvcc.Table.{best_version, get_version, commit_version, MvccMemTable}
use noe_db.Mvcc.View.{ReadView, is_visible}
use noe_db.Base.Bytes.{Bytes, eq_of_cmp_bytes}
use noe_db.Base.ByteMap.{ByteMap, range, lookup, insert, remove, lookup-remove}
use noe_db.Mvcc.Version.{Version, TxnId}
use noe_db.Mvcc.Key.{encode_internal_key, user_key_prefix_end}

module _ (view : ReadView) (ik : Bytes) (ver : Version) where
  -- An entry that the snapshot does not see, at a key that is free, changes nothing that it reads.
  best_version-insert :
      (intents : ByteMap TxnId) (start end : Bytes) (m : ByteMap Version)
      → is_visible view ver (lookup ik intents) ≡ false
      → lookup ik m ≡ none
      → best_version intents view (range start end (insert ik ver m))
        ≡ best_version intents view (range start end m)
  unfolding best_version range insert lookup
  best_version-insert intents start end [] hidden free = ground arith
  best_version-insert intents start end ((j, w) ∷ m) hidden free =
      ground (arith, best_version-insert intents start end m)

-- Removing an intent that is not there leaves every lookup as it is.
best_version-intents :
    (a b : ByteMap TxnId) (view : ReadView)
    → ((k : Bytes) → lookup k a ≡ lookup k b)
    → (m : ByteMap Version) → best_version a view m ≡ best_version b view m
unfolding best_version
best_version-intents a b view h [] = refl
best_version-intents a b view h ((ik, ver) ∷ m) = cc (h ik, best_version-intents a b view h m)

lookup-remove_free :
    (ik : Bytes) (intents : ByteMap TxnId)
    → lookup ik intents ≡ none
    → (k : Bytes) → lookup k (remove ik intents) ≡ lookup k intents
lookup-remove_free ik intents free k =
    ground (arith, lookup-remove ik k intents, eq_of_cmp_bytes k ik)

-- What a transaction reads does not change when a version is committed with a timestamp above its
-- snapshot, whatever the keys, if neither the versions nor the intents of the table have the
-- internal key of the new version.
pub get-commit_version :
    (t : MvccMemTable) (view : ReadView) (user_key key : Bytes) (ver : Version)
    → view.snapshot_ts < ver.commit_ts
    → lookup (encode_internal_key user_key ver.commit_ts) t.versions ≡ none
    → lookup (encode_internal_key user_key ver.commit_ts) t.intents ≡ none
    → get (commit_version t user_key ver) key view ≡ get t key view
unfolding get get_version commit_version
get-commit_version t view user_key key ver late free unowned =
    let ik = encode_internal_key user_key ver.commit_ts in
    let end = user_key_prefix_end key in
    let intents : ByteMap TxnId = remove ik t.intents in
    let same = lookup-remove_free ik t.intents unowned in
    let hidden : is_visible view ver (lookup ik intents) ≡ false =
      unfold is_visible in ground arith in
    ground (
      arith,
      best_version-insert view ik ver intents key end t.versions hidden free,
      best_version-intents intents t.intents view same (range key end t.versions),
    )
