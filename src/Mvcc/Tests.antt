-- ===== src/Mvcc/Tests.antt =====
-- The theorems about multi-version storage at concrete tables, and runs of the code.
use noe_db.Mvcc.Table.{
  get, get_version, get_at_ts, put, MvccMemTable, abort_intents, best_version, new_table,
  commit_version, put_intent, intents_of, remove_all, view_at, prune_below, returns, retained,
  drop_intents,
}
use noe_db.Base.ByteMap.{insert, remove, range, lookup}
use noe_db.Mvcc.Key.{raise_last, encode_internal_key, user_key_prefix_end}
use noe_db.Base.Bytes.{Bytes, cmp_bytes, to_be_bytes}
use noe_db.Storage.Error.{err, invalid_input}
use noe_db.Mvcc.Codec.{encode_version, encoded}
use noe_db.Mvcc.Version.{next_ts, intent_version, put_version}
use noe_db.Base.{refl, ◌^◌, ◌∷◌, ◌-◌, ◌≡◌, [], ◌++◌, ◌≢◌, arith, some, none}
use noe_db.Mvcc.Table.Stability.{get-commit_version}
use noe_db.Mvcc.View.{is_visible}
use noe_db.Mvcc.Table.Prefix.{longer_key-shadows}
use noe_db.Mvcc.Table.Prune.{get_version-prune_below}

-- Key 7 holds an old version at 3 and a new one at 5; key 7 8 has one at 4.
abbrev table : MvccMemTable
table = put (put (put new_table (7 ∷ []) (1 ∷ []) 3) (7 ∷ 8 ∷ []) (9 ∷ []) 4) (7 ∷ []) (2 ∷ []) 5

abbrev seven : Bytes
seven = 7 ∷ []

reads_old : get_at_ts table seven 3 ≡ returns (some (1 ∷ []))
unfolding get_at_ts get get_version best_version put commit_version insert remove range cmp_bytes
    lookup encode_internal_key user_key_prefix_end raise_last is_visible to_be_bytes
reads_old = refl

reads_new : get_at_ts table seven 9 ≡ returns (some (2 ∷ []))
unfolding get_at_ts get get_version best_version put commit_version insert remove range cmp_bytes
    lookup encode_internal_key user_key_prefix_end raise_last is_visible to_be_bytes
reads_new = refl

aborts_intent : abort_intents (put_intent new_table seven (1 ∷ []) 2) 2 ≡ new_table
unfolding abort_intents put_intent intents_of remove_all insert remove cmp_bytes encode_internal_key
    to_be_bytes
aborts_intent = refl

get-commit_version_example :
    get (commit_version table seven (put_version 6 (4 ∷ []))) seven (view_at 5)
    ≡ get table seven (view_at 5)
unfolding put commit_version insert remove cmp_bytes lookup encode_internal_key to_be_bytes
get-commit_version_example =
    get-commit_version table (view_at 5) seven seven (put_version 6 (4 ∷ [])) (omega arith) refl
      refl

longer_key-shadows_example :
    (seven ++ (8 ∷ []) ≢ seven)
    × (get_at_ts (put table (seven ++ (8 ∷ [])) (4 ∷ []) 6) seven 6 ≡ returns (some (4 ∷ [])))
unfolding put commit_version insert remove cmp_bytes encode_internal_key to_be_bytes raise_last
longer_key-shadows_example =
    longer_key-shadows table seven (8 ∷ []) (8 ∷ []) (4 ∷ []) 6 6 refl (omega arith) (omega arith)
      (omega arith, (omega arith, (omega arith, tt))) (λ h. cc)

get_version-prune_below_example :
    get_version (prune_below table 5).0 seven (view_at 9) ≡ returns (some (put_version 5 (2 ∷ [])))
unfolding put commit_version insert remove cmp_bytes encode_internal_key to_be_bytes get_version
    best_version range user_key_prefix_end raise_last is_visible lookup
get_version-prune_below_example =
    get_version-prune_below table seven (view_at 9) 5 (put_version 5 (2 ∷ [])) refl refl
      (omega arith)

-- The newest version of key 7 is lost where the bound lies above it.
newest_lost : get_at_ts (prune_below table 6).0 seven 9 ≡ returns none
unfolding get_at_ts get get_version best_version put commit_version insert remove range cmp_bytes
    lookup encode_internal_key user_key_prefix_end raise_last is_visible to_be_bytes prune_below
    retained drop_intents
newest_lost = refl

abbrev put_bytes : Bytes
put_bytes = encoded (put_version 5 (2 ∷ []))

refuses_intent : encode_version (intent_version seven) ≡ err invalid_input
unfolding encode_version
refuses_intent = refl

wraps : next_ts (record { last = 2 ^ 64 - 1 }) ≡ (record { last = 0 }, 2 ^ 64 - 1)
unfolding next_ts
wraps = refl
