-- ===== src/Storage/Lsm/Flush.antt =====
-- What a flush does to reads.
use noe_db.Base.{none, [], ◌∷◌, refl, Bool-cases, inl, inr, ◌≡◌, List, ◌++◌, ◌∙◌, ap}
use noe_db.Base.Bytes.{Bytes}
use noe_db.Base.ByteMap.{ByteMap, range}
use noe_db.Mvcc.Version.{Version}
use noe_db.Mvcc.View.{ReadView}
use noe_db.Storage.MemTable.{MemTable, empty_table, is_empty}
use noe_db.Storage.MemTable
use noe_db.Storage.Lsm.{LsmTree, flush_active, find_visible_version, best_of, best_in, rev_onto}

rev_onto-append :
    (files acc : List (ByteMap Bytes)) (m : ByteMap Bytes)
    → rev_onto (files ++ (m ∷ [])) acc ≡ m ∷ rev_onto files acc
rev_onto-append [] acc m = refl
rev_onto-append (f ∷ files) acc m = rev_onto-append files (f ∷ acc) m

best_of-nil :
    (key : Bytes) (view : ReadView) (maps : List (ByteMap Bytes))
    → best_of key view none ([] ∷ maps) ≡ best_of key view none maps
unfolding best_of best_in range
best_of-nil key view maps = refl

-- A flush changes no version that a snapshot sees.
pub find_visible_version-flush_active :
    (t : LsmTree) (key : Bytes) (view : ReadView)
    → find_visible_version (flush_active t) key view ≡ find_visible_version t key view
unfolding find_visible_version flush_active
find_visible_version-flush_active t key view = elim (Bool-cases (is_empty t.active)) [
  | inl empty ↦ rw empty refl
  | inr full ↦ rw full (
      best_of-nil key view (rev_onto (t.level0 ++ (t.active.map ∷ [])) (rev_onto t.level1 []))
      ∙ ap (λ maps. best_of key view none maps)
          (rev_onto-append t.level0 (rev_onto t.level1 []) t.active.map))
]
