-- ===== src/Mvcc/Table/Prefix.antt =====
-- Which keys a lookup goes through.
use noe_db.Base.{
  ℕ, ◌-◌, ◌≤◌, ◌<◌, ◌≡◌, ◌≢◌, refl, ap, true, false, none, some, [], ◌∷◌, ◌++◌, arith, inl, inr,
  Option-cases, subst, append-nil, append_assoc, length, length-append,
}
use noe_db.Mvcc.Key.{raise_last, encode_internal_key, user_key_prefix_end}
use noe_db.Base.Bytes.{cmp_bytes, Bytes, is_gt, is_lt, to_be_bytes, cmp_bytes_refl}
use noe_db.Mvcc.Table.{
  get, MvccMemTable, get_at_ts, best_version, put, get_version, returns, newer, view_at, panics,
}
use noe_db.Mvcc.Version.{CommitTs, Version, TxnId, put_version}
use noe_db.Base.ByteMap.{ByteMap, range, insert, lookup, in_range, remove, lookup-remove}
use noe_db.Mvcc.View.{ReadView, is_visible}
use noe_db.Base.Words.{u64_max}

prefix-le : (k j : Bytes) → is_gt (cmp_bytes k (k ++ j)) ≡ false
unfolding cmp_bytes
prefix-le [] [] = refl
prefix-le [] (x ∷ j) = refl
prefix-le (b ∷ bs) j = ground (arith, prefix-le bs j)

prefix-lt : (k e j : Bytes) → raise_last k ≡ some e → is_lt (cmp_bytes (k ++ j) e) ≡ true
unfolding raise_last cmp_bytes
prefix-lt [] e j h = cc
prefix-lt (b ∷ bs) e j h = elim (Option-cases (raise_last bs)) [
  | inl all_full ↦ ground arith
  | inr (e', s) ↦ ground (arith, prefix-lt bs e' j s)
]

-- The timestamps of the versions that stand in the table.
abbrev pub AllBelow : CommitTs → ByteMap Version → Type 0
AllBelow ts [] = Unit
AllBelow ts ((ik, ver) ∷ m) = (ver.commit_ts < ts) × AllBelow ts m

below_best :
    (intents : ByteMap TxnId) (view : ReadView) (start end : Bytes) (ver : Version)
    (m : ByteMap Version)
    → AllBelow ver.commit_ts m
    → newer ver (best_version intents view (range start end m)) ≡ true
unfolding best_version range
below_best intents view start end ver [] h = refl
below_best intents view start end ver ((ik, w) ∷ m) h =
    ground (arith, below_best intents view start end ver m h.1)

best_version-insert_newest :
    (intents : ByteMap TxnId) (view : ReadView) (start end ik : Bytes) (ver : Version)
    (m : ByteMap Version)
    → is_visible view ver (lookup ik intents) ≡ true
    → in_range start end ik ≡ true
    → AllBelow ver.commit_ts m
    → best_version intents view (range start end (insert ik ver m)) ≡ some ver
unfolding best_version range insert
best_version-insert_newest intents view start end ik ver [] seen inside h = ground arith
best_version-insert_newest intents view start end ik ver ((j, w) ∷ m) seen inside h = ground (
  arith,
  below_best intents view start end ver m h.1,
  best_version-insert_newest intents view start end ik ver m seen inside h.1,
)

-- A version that is committed under `k ++ s`, newer than all in the table and not above the
-- snapshot, is what a read of `k` returns, whatever `s` is.
get-put_extension :
    (t : MvccMemTable) (k e s value : Bytes) (ts read_ts : CommitTs)
    → raise_last k ≡ some e
    → 0 < ts
    → ts ≤ read_ts
    → AllBelow ts t.versions
    → get_at_ts (put t (k ++ s) value ts) k read_ts ≡ returns (some value)
unfolding get_at_ts put encode_internal_key user_key_prefix_end
get-put_extension t k e s value ts read_ts r pos le h =
    let suffix = to_be_bytes 8 (u64_max - ts) in
    let ver : Version = put_version ts value in
    let ik : Bytes = (k ++ s) ++ suffix in
    let regroup : ik ≡ k ++ (s ++ suffix) = append_assoc k s suffix in
    let inside : in_range k e ik ≡ true =
      rw regroup (ground (arith, prefix-le k (s ++ suffix), prefix-lt k e (s ++ suffix) r)) in
    let ordered : is_lt (cmp_bytes k e) ≡ true = rw append-nil at (prefix-lt k e [] r) in
    let unowned : lookup ik (remove ik t.intents) ≡ none =
      ground (arith, lookup-remove ik ik t.intents, cmp_bytes_refl ik) in
    let seen : is_visible (view_at read_ts) ver (lookup ik (remove ik t.intents)) ≡ true =
      rw unowned (unfold is_visible in ground arith) in
    ground (
      arith,
      best_version-insert_newest (remove ik t.intents) (view_at read_ts) k e ik ver t.versions seen
          inside h,
    )

-- A value that is put under a key with a byte below 255, with a timestamp above 0 that is newer than
-- all in the table, is what a read of that key at that time or later returns.
pub get-put_newest :
    (t : MvccMemTable) (k e value : Bytes) (ts read_ts : CommitTs)
    → raise_last k ≡ some e
    → 0 < ts
    → ts ≤ read_ts
    → AllBelow ts t.versions
    → get_at_ts (put t k value ts) k read_ts ≡ returns (some value)
get-put_newest t k e value ts read_ts r pos le h =
    subst (λ key. get_at_ts (put t key value ts) k read_ts ≡ returns (some value)) (append-nil k)
      (get-put_extension t k e [] value ts read_ts r pos le h)

append-cancel : (k s : Bytes) → k ++ s ≡ k → s ≡ []
append-cancel k [] h = refl
append-cancel k (x ∷ s) h =
    absurd (omega (arith, ap (λ (l : Bytes). length l) h, length-append k (x ∷ s)))

-- A value that is put under another key that begins with `k`, a key with a byte below 255, with a
-- timestamp above 0 that is newer than all in the table, is what a read of `k` at that time or
-- later returns.
pub longer_key-shadows :
    (t : MvccMemTable) (k e s value : Bytes) (ts read_ts : CommitTs)
    → raise_last k ≡ some e
    → 0 < ts
    → ts ≤ read_ts
    → AllBelow ts t.versions
    → s ≢ []
    → (k ++ s ≢ k) × (get_at_ts (put t (k ++ s) value ts) k read_ts ≡ returns (some value))
longer_key-shadows t k e s value ts read_ts r pos le h ne =
    (λ same. ne (append-cancel k s same), get-put_extension t k e s value ts read_ts r pos le h)

prefix_end_full : (k : Bytes) → raise_last k ≡ none → user_key_prefix_end k ≡ []
unfolding user_key_prefix_end
prefix_end_full k full = ground arith

-- Reading a key that is not empty and has no byte below 255 panics, whatever the table and the
-- snapshot.
pub full_key-panics :
    (t : MvccMemTable) (b : ℕ) (k : Bytes) (view : ReadView)
    → raise_last (b ∷ k) ≡ none
    → get t (b ∷ k) view ≡ panics
unfolding get get_version cmp_bytes
full_key-panics t b k view full =
    let no_end : user_key_prefix_end (b ∷ k) ≡ [] = prefix_end_full (b ∷ k) full in rw no_end
