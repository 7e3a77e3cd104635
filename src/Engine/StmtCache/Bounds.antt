-- ===== src/Engine/StmtCache/Bounds.antt =====
-- The size of the cache.
use noe_db.Base.{
  some, [], ◌∷◌, suc, refl, arith, Bool-cases, Option-cases, inl, inr, ◌≡◌, length, ℕ, ◌<◌, ◌≤◌,
  ◌-◌, ◌+◌, true, List, ◌==◌, false, leb, ◌&&◌, not,
}
use noe_db.Base.Bytes.{Bytes, cmp_bytes_refl}
use noe_db.Base.ByteMap
use noe_db.Base.ByteMap.{ByteMap, lookup, remove}
use noe_db.Base.ByteMap.Sorted.{
  IsSorted, IsSorted-insert, IsSorted-remove, lookup-AllAbove, AllAbove-trans,
}
use noe_db.Engine.StmtCache.{
  contains_key, StatementCache, with_capacity, get, insert, evict, oldest_from,
}

module _ {ℓ} {V : Type ℓ} where
  length-insert_le :
      (k : Bytes) (v : V) (m : ByteMap V) → length (ByteMap.insert k v m) ≤ suc (length m)
  unfolding ByteMap.insert
  length-insert_le k v [] = omega arith
  length-insert_le k v ((j, w) ∷ m) = ground (arith, length-insert_le k v m)

  length-insert_old :
      (k : Bytes) (v old : V) (m : ByteMap V)
      → IsSorted m
      → lookup k m ≡ some old
      → length (ByteMap.insert k v m) ≡ length m
  unfolding ByteMap.insert lookup
  length-insert_old k v old [] s h = cc
  length-insert_old k v old ((j, w) ∷ m) s h =
      ground (arith, length-insert_old k v old m, lookup-AllAbove k m, AllAbove-trans k j m)

  length-remove_le : (k : Bytes) (m : ByteMap V) → length (remove k m) ≤ length m
  unfolding remove
  length-remove_le k [] = omega arith
  length-remove_le k ((j, w) ∷ m) = ground (arith, length-remove_le k m)

  length-remove_held :
      (k : Bytes) (v : V) (m : ByteMap V) → lookup k m ≡ some v → length (remove k m) < length m
  unfolding remove lookup
  length-remove_held k v [] h = cc
  length-remove_held k v ((j, w) ∷ m) h =
      ground (arith, length-remove_held k v m, length-remove_le k m)

module _ {ℓ} {Statement : Type ℓ} where
  contains_key-oldest_from :
      (k : Bytes) (used : ℕ) (stmt : Statement) (entries : ByteMap (Statement × ℕ))
      → contains_key (oldest_from k used entries) ((k, (stmt, used)) ∷ entries) ≡ true
  unfolding oldest_from lookup
  contains_key-oldest_from k used stmt [] = ground (arith, cmp_bytes_refl k)
  contains_key-oldest_from k used stmt ((j, (s, other)) ∷ entries) = ground (
    arith,
    contains_key-oldest_from k used stmt entries,
    contains_key-oldest_from j other s entries,
  )

  length-remove_contained :
      (k : Bytes) (m : ByteMap (Statement × ℕ))
      → contains_key k m ≡ true
      → length (remove k m) < length m
  length-remove_contained k m h = elim (Option-cases (lookup k m)) [
    | inl gone ↦ absurd (ground (arith, gone, h))
    | inr (e, held) ↦ length-remove_held k e m held
  ]

  length-evict : (entries : ByteMap (Statement × ℕ)) → length (evict entries) ≤ length entries - 1
  unfolding evict
  length-evict [] = omega arith
  length-evict ((k, (stmt, used)) ∷ entries) = omega (
    arith,
    length-remove_contained (oldest_from k used entries) ((k, (stmt, used)) ∷ entries)
        (contains_key-oldest_from k used stmt entries),
  )

  IsSorted-evict : (entries : ByteMap (Statement × ℕ)) → IsSorted entries → IsSorted (evict entries)
  unfolding evict
  IsSorted-evict [] s = tt
  IsSorted-evict ((k, (stmt, used)) ∷ entries) s =
      IsSorted-remove (oldest_from k used entries) ((k, (stmt, used)) ∷ entries) s

module _ {ℓ} (Statement : Type ℓ) where
  -- A call of the cache.
  pub data CacheCall : Type ℓ where
    called_get : Bytes → CacheCall
    called_insert : Bytes → Statement → CacheCall

module _ {ℓ} {Statement : Type ℓ} where
  abbrev pub after_call : StatementCache Statement → CacheCall Statement → StatementCache Statement
  after_call c (called_get sql) = (get c sql).0
  after_call c (called_insert sql stmt) = insert c sql stmt

  abbrev pub after_calls :
      StatementCache Statement → List (CacheCall Statement) → StatementCache Statement
  after_calls c [] = c
  after_calls c (call ∷ calls) = after_calls (after_call c call) calls

  record IsBounded (n : ℕ) (c : StatementCache Statement) : Type ℓ where
    capacity : c.capacity ≡ n
    sorted : IsSorted c.entries
    bounded : length c.entries ≤ n

  hit_or_miss-IsBounded :
      (n : ℕ) (c : StatementCache Statement) (sql : Bytes)
      → IsBounded n c
      → IsBounded n (get c sql).0
  unfolding get
  hit_or_miss-IsBounded n c sql b = elim (Option-cases (lookup sql c.entries)) [
    | inl miss ↦ rw miss (record { capacity = b.capacity; sorted = b.sorted; bounded = b.bounded })
    | inr ((stmt, used), hit) ↦ rw hit (record {
      capacity = b.capacity;
      sorted = IsSorted-insert sql (stmt, c.clock + 1) c.entries b.sorted;
      bounded = omega (
        arith,
        length-insert_old sql (stmt, c.clock + 1) (stmt, used) c.entries b.sorted hit,
        b.bounded,
      );
    })
  ]

  insert-IsBounded :
      (n : ℕ) (c : StatementCache Statement) (sql : Bytes) (stmt : Statement)
      → IsBounded n c
      → IsBounded n (insert c sql stmt)
  unfolding insert
  insert-IsBounded n c sql stmt b = elim (Bool-cases (c.capacity == 0)) [
    | inl off ↦ rw off (record { capacity = b.capacity; sorted = b.sorted; bounded = b.bounded })
    | inr on ↦
        elim (Bool-cases (leb c.capacity (length c.entries) && not (contains_key sql c.entries))) [
          | inl full ↦
              rw (on, full)
                (record {
                  capacity = b.capacity;
                  sorted =
                      IsSorted-insert sql (stmt, c.clock + 1) (evict c.entries)
                        (IsSorted-evict c.entries b.sorted);
                  bounded =
                      evicted (length c.entries) (length (evict c.entries))
                        (length (ByteMap.insert sql (stmt, c.clock + 1) (evict c.entries)))
                        (positive c.capacity on) b.capacity
                        (length-insert_le sql (stmt, c.clock + 1) (evict c.entries))
                        (length-evict c.entries) b.bounded;
                })
          | inr free ↦
              rw (on, free)
                (record {
                  capacity = b.capacity;
                  sorted = IsSorted-insert sql (stmt, c.clock + 1) c.entries b.sorted;
                  bounded = elim (Option-cases (lookup sql c.entries)) [
                    | inl new ↦ ground (
                      arith,
                      free,
                      new,
                      length-insert_le sql (stmt, c.clock + 1) c.entries,
                      b.capacity,
                    )
                    | inr (e, held) ↦ omega (
                      arith,
                      length-insert_old sql (stmt, c.clock + 1) e c.entries b.sorted held,
                      b.bounded,
                    )
                  ];
                })
        ]
  ]
    where
      positive : (m : ℕ) → (m == 0) ≡ false → 0 < m
      positive m h = ground (arith, h)

      evicted :
          (old less new : ℕ)
          → 0 < c.capacity
          → c.capacity ≡ n
          → new ≤ suc less
          → less ≤ old - 1
          → old ≤ n
          → new ≤ n
      evicted old less new pos same a d e = omega arith

  after_call-IsBounded :
      (n : ℕ) (c : StatementCache Statement) (call : CacheCall Statement)
      → IsBounded n c
      → IsBounded n (after_call c call)
  after_call-IsBounded n c (called_get sql) b = hit_or_miss-IsBounded n c sql b
  after_call-IsBounded n c (called_insert sql stmt) b = insert-IsBounded n c sql stmt b

  after_calls-IsBounded :
      (n : ℕ) (c : StatementCache Statement) (calls : List (CacheCall Statement))
      → IsBounded n c
      → IsBounded n (after_calls c calls)
  after_calls-IsBounded n c [] b = b
  after_calls-IsBounded n c (call ∷ calls) b =
      after_calls-IsBounded n (after_call c call) calls (after_call-IsBounded n c call b)

  -- After any calls on a new cache it holds as many statements as its capacity at most.
  pub after_calls-bounded :
      (n : ℕ) (calls : List (CacheCall Statement))
      → length (after_calls (with_capacity n) calls).entries ≤ n
  after_calls-bounded n calls =
      let b =
        after_calls-IsBounded n (with_capacity n) calls
          (record { capacity = refl; sorted = tt; bounded = omega arith }) in
      b.bounded
