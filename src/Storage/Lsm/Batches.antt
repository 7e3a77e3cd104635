-- ===== src/Storage/Lsm/Batches.antt =====
-- Batches of puts, and the log.
use noe_db.Base.{[], ◌∷◌, arith, inl, inr, ◌≡◌, List, subst, All, sym}
use noe_db.Base.Bytes.{Bytes}
use noe_db.Storage.Error.{Result, ok, err, Result-cases}
use noe_db.Storage.Lsm
use noe_db.Storage.Lsm.{
  LsmTree, log_put, put_all, after_batch, put_batch, flush_active, maybe_flush_and_compact,
}
use noe_db.Storage.Lsm.Logged.{
  IsLogged, Fits, log_put-IsLogged, flush_active-IsLogged, maybe_flush_and_compact-IsLogged,
}

-- The tree of a batch, whether it failed or not.
abbrev pub BatchLogged : LsmTree × Result (Unit {0}) → Type 0
BatchLogged r = IsLogged r.0.wal r.0.active

put_all-IsLogged :
    (t : LsmTree) (entries : List (Bytes × Bytes))
    → IsLogged t.wal t.active
    → All (λ (e : Bytes × Bytes). Fits e.0 e.1) entries
    → BatchLogged (put_all t entries)
unfolding put_all
put_all-IsLogged t [] l fits = l
put_all-IsLogged t ((key, value) ∷ entries) l fits = elim (Result-cases (log_put t key value)) [
  | inl (t', done) ↦
      let same : put_all t ((key, value) ∷ entries) ≡ put_all t' entries = ground (arith, done) in
      subst BatchLogged (sym same)
        (put_all-IsLogged t' entries (log_put-IsLogged t t' key value l fits.0 done) fits.1)
  | inr (e, failed) ↦
      let same : put_all t ((key, value) ∷ entries) ≡ (t, err e) = ground (arith, failed) in
      subst BatchLogged (sym same) l
]

after_batch-IsLogged :
    (t : LsmTree) (r : Result (Unit {0})) → IsLogged t.wal t.active → BatchLogged (after_batch t r)
after_batch-IsLogged t (err e) l = l
after_batch-IsLogged t (ok u) l = elim (Result-cases (maybe_flush_and_compact t)) [
  | inl (t', done) ↦
      let same : after_batch t (ok u) ≡ (t', ok tt) = ground (arith, done) in
      subst BatchLogged (sym same) (maybe_flush_and_compact-IsLogged t t' l done)
  | inr (e, failed) ↦
      let same : after_batch t (ok u) ≡ (flush_active t, err e) = ground (arith, failed) in
      subst BatchLogged (sym same) (flush_active-IsLogged t l)
]

pub put_batch-IsLogged :
    (t : LsmTree) (entries : List (Bytes × Bytes))
    → IsLogged t.wal t.active
    → All (λ (e : Bytes × Bytes). Fits e.0 e.1) entries
    → BatchLogged (put_batch t entries)
unfolding put_batch
put_batch-IsLogged t entries l fits = elim (Result-cases (Lsm.gate_write t)) [
  | inl (ms, opened) ↦
      let same : put_batch t entries ≡ after_batch (put_all t entries).0 (put_all t entries).1 =
        ground (arith, opened) in
      subst BatchLogged (sym same) (
        after_batch-IsLogged (put_all t entries).0 (put_all t entries).1
          (put_all-IsLogged t entries l fits))
  | inr (e, stopped) ↦
      let same : put_batch t entries ≡ (t, err e) = ground (arith, stopped) in
      subst BatchLogged (sym same) l
]
