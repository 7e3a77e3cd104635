-- ===== src/Engine/StmtCache.antt =====
-- crates/noedb-engine/src/stmt_cache.rs: the cache of parsed statements. The text of a statement is the
-- string of its bytes, and the hash map a map by keys: no two stamps are equal, so that the order of
-- its entries does not matter.
pub mod Bounds
use noe_db.Base.{
  none, some, [], ◌∷◌, zero, suc, ltb, leb, if◌then◌else◌, Option, ℕ, Bool, ◌==◌, ◌+◌, length, true,
  false, ◌&&◌, not,
}
use noe_db.Base.Bytes.{Bytes}
use noe_db.Base.ByteMap
use noe_db.Base.ByteMap.{ByteMap, lookup, remove}

module _ {ℓ} (Statement : Type ℓ) where
  pub record StatementCache : Type ℓ where
    pub capacity : ℕ
    pub clock : ℕ
    pub entries : ByteMap (Statement × ℕ)
    pub hits : ℕ
    pub misses : ℕ

module _ {ℓ} {Statement : Type ℓ} where
  abbrev pub with_capacity : ℕ → StatementCache Statement
  with_capacity capacity = record {
    capacity = capacity;
    clock = 0;
    entries = [];
    hits = 0;
    misses = 0;
  }

  abbrev pub hit_or_miss :
      StatementCache Statement
      → Bytes
      → Option (Statement × ℕ)
      → StatementCache Statement × Option Statement
  hit_or_miss c sql none = (
    record {
      capacity = c.capacity;
      clock = c.clock + 1;
      entries = c.entries;
      hits = c.hits;
      misses = c.misses + 1;
    },
    none,
  )
  hit_or_miss c sql (some (stmt, used)) = (
    record {
      capacity = c.capacity;
      clock = c.clock + 1;
      entries = ByteMap.insert sql (stmt, c.clock + 1) c.entries;
      hits = c.hits + 1;
      misses = c.misses;
    },
    some stmt,
  )

  unfoldable pub get :
      StatementCache Statement → Bytes → StatementCache Statement × Option Statement
  get c sql = hit_or_miss c sql (lookup sql c.entries)

  -- `min_by_key`: the first of the entries with the least stamp.
  unfoldable pub oldest_from : Bytes → ℕ → ByteMap (Statement × ℕ) → Bytes
  oldest_from k used [] = k
  oldest_from k used ((j, (stmt, other)) ∷ entries) =
      let here = oldest_from j other entries in
      let before = oldest_from k used entries in if ltb other used then here else before

  unfoldable pub evict : ByteMap (Statement × ℕ) → ByteMap (Statement × ℕ)
  unfolding oldest_from
  evict [] = []
  evict ((k, (stmt, used)) ∷ entries) =
      remove (oldest_from k used entries) ((k, (stmt, used)) ∷ entries)

  abbrev pub contains_key : Bytes → ByteMap (Statement × ℕ) → Bool
  contains_key k m = elim (lookup k m) [ some e ↦ true | none ↦ false ]

  unfoldable pub insert : StatementCache Statement → Bytes → Statement → StatementCache Statement
  insert c sql stmt =
      if c.capacity == 0
      then c
      else (let room =
            if leb c.capacity (length c.entries) && not (contains_key sql c.entries)
            then evict c.entries
            else c.entries in
          record {
            capacity = c.capacity;
            clock = c.clock + 1;
            entries = ByteMap.insert sql (stmt, c.clock + 1) room;
            hits = c.hits;
            misses = c.misses;
          })
