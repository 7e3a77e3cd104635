-- ===== src/Storage/Lsm/Logged.antt =====
-- The log and the table in memory.
use noe_db.Base.{
  none, some, [], ◌∷◌, refl, arith, Bool-cases, inl, inr, List, ◌≡◌, All, ◌++◌, All-append, ◌+◌,
  Option, subst, false, length, ◌<◌, ◌^◌, ltb, leb, ℕ, length-append, ◌-◌,
}
use noe_db.Base.Bytes.{Bytes, to_be_bytes, length-to_be_bytes}
use noe_db.Mvcc.Key.{encode_internal_key}
use noe_db.Mvcc.Codec.{encode_version}
use noe_db.Base.Words.{u64_max, to_le_bytes}
use noe_db.Base.ByteMap.{ByteMap}
use noe_db.Mvcc.Version.{Version}
use noe_db.Storage.Error.{Result, ok, err, ◌>>=◌, Result-cases, ok_inj}
use noe_db.Storage.MemTable.{MemTable, empty_table, is_empty, is_nil}
use noe_db.Storage.MemTable
use noe_db.Storage.Wal.{
  LogEntry, put_entry, append_entry, apply_entry, apply_entries, header, encode,
}
use noe_db.Storage.Wal.RoundTrip.{IsWritable}
use noe_db.Storage.Wal.Recovery.{append_all}
use noe_db.Storage.Lsm
use noe_db.Storage.Lsm.{
  LsmTree, log_put, with_active, flush_active, run_compaction, maybe_flush_and_compact,
  after_compaction, put_version, bury, after_batch, put_all, put_batch,
}
use noe_db.Storage.Compaction.{compact_level0_to_l1}

-- The log holds what led from an empty table to that in memory.
pub record IsLogged (wal : Bytes) (active : MemTable) : Type 0 where
  pub entries : List LogEntry
  pub writable : All IsWritable entries
  pub written : append_all header entries ≡ ok wal
  pub applied : apply_entries empty_table entries ≡ ok active

pub empty-IsLogged : IsLogged header empty_table
unfolding apply_entries
empty-IsLogged = record { entries = []; writable = tt; written = refl; applied = refl }

append_all-append_entry :
    (file mid wal : Bytes) (entries : List LogEntry) (e : LogEntry)
    → append_all file entries ≡ ok mid
    → append_entry mid e ≡ ok wal
    → append_all file (entries ++ (e ∷ [])) ≡ ok wal
append_all-append_entry file mid wal [] e h k = ground (arith, h, k)
append_all-append_entry file mid wal (x ∷ entries) e h k =
    elim (Result-cases (append_entry file x)) [
      | inl (file', done) ↦
          ground (
            arith,
            done,
            append_all-append_entry file' mid wal entries e (ground (arith, done, h)) k,
          )
      | inr (bad, failed) ↦ absurd (ground (arith, failed, h))
    ]

apply_entries-apply_entry :
    (t mid t' : MemTable) (entries : List LogEntry) (e : LogEntry)
    → apply_entries t entries ≡ ok mid
    → apply_entry mid e ≡ ok t'
    → apply_entries t (entries ++ (e ∷ [])) ≡ ok t'
unfolding apply_entries
apply_entries-apply_entry t mid t' [] e h k = ground (arith, h, k)
apply_entries-apply_entry t mid t' (x ∷ entries) e h k = elim (Result-cases (apply_entry t x)) [
  | inl (t1, done) ↦
      ground
        (arith, done, apply_entries-apply_entry t1 mid t' entries e (ground (arith, done, h)) k)
  | inr (bad, failed) ↦ absurd (ground (arith, failed, h))
]

pub log_entry-IsLogged :
    (wal wal' : Bytes) (active active' : MemTable) (e : LogEntry)
    → IsLogged wal active
    → IsWritable e
    → append_entry wal e ≡ ok wal'
    → apply_entry active e ≡ ok active'
    → IsLogged wal' active'
log_entry-IsLogged wal wal' active active' e l w h k = record {
  entries = l.entries ++ (e ∷ []);
  writable = All-append IsWritable l.entries e l.writable w;
  written = append_all-append_entry header wal wal' l.entries e l.written h;
  applied = apply_entries-apply_entry empty_table active active' l.entries e l.applied k;
}

pub append_entry-has_key :
    (wal wal' : Bytes) (e : LogEntry) → append_entry wal e ≡ ok wal' → is_nil e.key ≡ false
unfolding append_entry encode
append_entry-has_key wal wal' e h = elim (Bool-cases (is_nil e.key)) [
  | inl empty ↦ absurd (ground (arith, empty, h))
  | inr named ↦ named
]

-- The record of the entry fits in 32 bits.
abbrev pub Fits : Bytes → Bytes → Type 0
Fits key value = 13 + length key + length value < 256 ^ 4

pub log_put-IsLogged :
    (t t' : LsmTree) (key value : Bytes)
    → IsLogged t.wal t.active
    → Fits key value
    → log_put t key value ≡ ok t'
    → IsLogged t'.wal t'.active
unfolding log_put
log_put-IsLogged t t' key value l fits h =
    elim (Result-cases (append_entry t.wal (put_entry key value))) [
      | inr (bad, failed) ↦ absurd (ground (arith, failed, h))
      | inl (wal, logged) ↦ elim (Result-cases (MemTable.put t.active key value)) [
        | inr (bad, failed) ↦ absurd (ground (arith, logged, failed, h))
        | inl (active, done) ↦
            let next : IsLogged wal active =
              log_entry-IsLogged t.wal wal t.active active (put_entry key value) l
                (record {
                  has_key = append_entry-has_key t.wal wal (put_entry key value) logged;
                  is_consistent = refl;
                  fits = fits;
                })
                logged (unfold apply_entry in done) in
            let same : with_active t wal active ≡ t' =
              ok_inj _ t' (ground (arith, logged, done, h)) in
            subst (λ (x : LsmTree). IsLogged x.wal x.active) same next
      ]
    ]

pub flush_active-IsLogged :
    (t : LsmTree) → IsLogged t.wal t.active → IsLogged (flush_active t).wal (flush_active t).active
unfolding flush_active
flush_active-IsLogged t l = elim (Bool-cases (is_empty t.active)) [
  | inl empty ↦ rw empty l
  | inr full ↦ rw full empty-IsLogged
]

after_compaction-IsLogged :
    (t t' : LsmTree) (r : Option (Result (ByteMap Bytes)))
    → IsLogged t.wal t.active
    → after_compaction t r ≡ ok t'
    → IsLogged t'.wal t'.active
after_compaction-IsLogged t t' none l h =
    subst (λ (x : LsmTree). IsLogged x.wal x.active) (ok_inj t t' h) l
after_compaction-IsLogged t t' (some (err e)) l h = cc
after_compaction-IsLogged t t' (some (ok file)) l h =
    subst (λ (x : LsmTree). IsLogged x.wal x.active) (ok_inj _ t' h) l

pub maybe_flush_and_compact-IsLogged :
    (t t' : LsmTree)
    → IsLogged t.wal t.active
    → maybe_flush_and_compact t ≡ ok t'
    → IsLogged t'.wal t'.active
unfolding maybe_flush_and_compact run_compaction
maybe_flush_and_compact-IsLogged t t' l h =
    let flushed = flush_active t in
    let l' = flush_active-IsLogged t l in
    let kept = λ (x : LsmTree) (e : x ≡ t') (lx : IsLogged x.wal x.active).
      subst (λ (y : LsmTree). IsLogged y.wal y.active) e lx in
    elim (Bool-cases (ltb t.active.bytes t.config.max_mem_bytes)) [
      | inl small ↦ kept t (ok_inj t t' (ground (arith, small, h))) l
      | inr full ↦
          elim (Bool-cases (leb flushed.config.l0_compaction_trigger (length flushed.level0))) [
            | inl many ↦
                after_compaction-IsLogged flushed t' (compact_level0_to_l1 flushed.level0) l'
                  (ground (arith, full, many, h))
            | inr few ↦ kept flushed (ok_inj flushed t' (ground (arith, full, few, h))) l'
          ]
    ]

-- The second of two steps that did not fail, behind the first.
pub bind_ok {ℓ κ} :
    {A : Type ℓ} {B : Type κ} (r : Result A) (f : A → Result B) (b : B)
    → (r >>= f) ≡ ok b
    → (a : A) × (r ≡ ok a) × (f a ≡ ok b)
bind_ok (ok a) f b h = (a, refl, h)
bind_ok (err e) f b h = cc

pub put-IsLogged :
    (t t' : LsmTree) (key value : Bytes)
    → IsLogged t.wal t.active
    → Fits key value
    → Lsm.put t key value ≡ ok t'
    → IsLogged t'.wal t'.active
unfolding Lsm.put
put-IsLogged t t' key value l fits h =
    let gated =
      bind_ok (Lsm.gate_write t) (λ sleep. log_put t key value >>= λ t1. maybe_flush_and_compact t1)
        t' h in
    let logged = bind_ok (log_put t key value) (λ t1. maybe_flush_and_compact t1) t' gated.2 in
    maybe_flush_and_compact-IsLogged logged.0 t'
      (log_put-IsLogged t logged.0 key value l fits logged.1) logged.2

length-encode_internal_key :
    (key : Bytes) (ts : ℕ) → length (encode_internal_key key ts) ≡ length key + 8
unfolding encode_internal_key
length-encode_internal_key key ts =
    omega
      (arith, length-append key (to_be_bytes 8 (u64_max - ts)), length-to_be_bytes 8 (u64_max - ts))

length-encode_version :
    (ver : Version) (val : Bytes) → encode_version ver ≡ ok val → length val ≡ 18 + length ver.value
unfolding encode_version to_le_bytes
length-encode_version ver val h = ground (arith, h)

pub put_version-IsLogged :
    (t t' : LsmTree) (key : Bytes) (ver : Version)
    → IsLogged t.wal t.active
    → 39 + length key + length ver.value < 256 ^ 4
    → put_version t key ver ≡ ok t'
    → IsLogged t'.wal t'.active
unfolding put_version
put_version-IsLogged t t' key ver l fits h =
    let ik = encode_internal_key key ver.commit_ts in
    let coded =
      bind_ok (encode_version ver) (λ val. log_put t ik val >>= λ t1. maybe_flush_and_compact t1) t'
        h in
    let logged = bind_ok (log_put t ik coded.0) (λ t1. maybe_flush_and_compact t1) t' coded.2 in
    let sized : 13 + length ik + length coded.0 < 256 ^ 4 = omega (
      arith,
      fits,
      length-encode_internal_key key ver.commit_ts,
      length-encode_version ver coded.0 coded.1,
    ) in
    maybe_flush_and_compact-IsLogged logged.0 t'
      (log_put-IsLogged t logged.0 ik coded.0 l sized logged.1) logged.2
