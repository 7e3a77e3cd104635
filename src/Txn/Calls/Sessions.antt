-- ===== src/Txn/Calls/Sessions.antt =====
-- The sessions, the transactions that they run, and the next id.
use noe_db.Base.{some, ℕ, ◌≢◌, ◌≡◌, ◌+◌, Bool-cases, ◌∙◌, ◌<◌, arith, ap, ◌==◌, sym, inl, inr, ◌⊎◌}
use noe_db.Base.IdMap.{IdMap, lookup_id, insert_id, remove_id, lookup-insert_id, lookup-remove_id}
use noe_db.Txn.Transaction.{Transaction, active}
use noe_db.Mvcc.Version.{TxnId}

-- A transaction of the map that is active.
abbrev pub IsRunning : TxnId → IdMap Transaction → Type 0
IsRunning id txns = (txn : Transaction) × (lookup_id id txns ≡ some txn) × (txn.state ≡ active)

-- Each session's transaction is running and has an id below the next, and no two sessions share one.
abbrev pub IsLinked : IdMap TxnId → IdMap Transaction → TxnId → Type 0
IsLinked sessions txns next_id =
    ((s id : ℕ) → lookup_id s sessions ≡ some id → IsRunning id txns × (id < next_id))
    × ((s r id : ℕ) → lookup_id s sessions ≡ some id → lookup_id r sessions ≡ some id → s ≡ r)

IsRunning-insert :
    (id other : TxnId) (txn : Transaction) (txns : IdMap Transaction)
    → txn.state ≡ active
    → IsRunning other txns
    → IsRunning other (insert_id id txn txns)
IsRunning-insert id other txn txns act (t, found, runs) = elim (Bool-cases (other == id)) [
  | inl same ↦ (txn, ground (arith, lookup-insert_id id other txn txns), act)
  | inr differ ↦ (t, ground (arith, lookup-insert_id id other txn txns), runs)
]

IsRunning-remove :
    (id other : TxnId) (txns : IdMap Transaction)
    → other ≢ id
    → IsRunning other txns
    → IsRunning other (remove_id id txns)
IsRunning-remove id other txns ne (t, found, runs) =
    (t, ground (arith, lookup-remove_id id other txns), runs)

-- A change of a transaction that leaves it active.
pub IsLinked-update :
    (id : TxnId) (txn : Transaction) (sessions : IdMap TxnId) (txns : IdMap Transaction) (n : TxnId)
    → txn.state ≡ active
    → IsLinked sessions txns n
    → IsLinked sessions (insert_id id txn txns) n
IsLinked-update id txn sessions txns n act (runs, apart) =
    (λ s i h. (IsRunning-insert id i txn txns act (runs s i h).0, (runs s i h).1), apart)

lookup-remove_some :
    (s r id : ℕ) (sessions : IdMap TxnId)
    → lookup_id r (remove_id s sessions) ≡ some id
    → (r ≢ s) × (lookup_id r sessions ≡ some id)
lookup-remove_some s r id sessions h =
    (ground (arith, lookup-remove_id s r sessions), ground (arith, lookup-remove_id s r sessions))

-- The end of a session and its transaction.
pub IsLinked-close :
    (s id : ℕ) (sessions : IdMap TxnId) (txns : IdMap Transaction) (n : TxnId)
    → lookup_id s sessions ≡ some id
    → IsLinked sessions txns n
    → IsLinked (remove_id s sessions) (remove_id id txns) n
IsLinked-close s id sessions txns n open_lem (runs, apart) = (
  λ r i h.
      let was = lookup-remove_some s r i sessions h in
      let other : i ≢ id =
        λ e. was.0 (apart r s i was.1 (open_lem ∙ ap (λ (x : ℕ). some x) (sym e))) in
      (IsRunning-remove id i txns other (runs r i was.1).0, (runs r i was.1).1),
  λ r q i h k.
      apart r q i (lookup-remove_some s r i sessions h).1 (lookup-remove_some s q i sessions k).1,
)

lookup-insert_cases :
    (s r n i : ℕ) (sessions : IdMap TxnId)
    → lookup_id r (insert_id s n sessions) ≡ some i
    → ((r ≡ s) × (i ≡ n)) ⊎ (lookup_id r sessions ≡ some i)
lookup-insert_cases s r n i sessions h = elim (Bool-cases (r == s)) [
  | inl same ↦ inl (ground arith, ground (arith, h, lookup-insert_id s r n sessions))
  | inr differ ↦ inr (ground (arith, h, lookup-insert_id s r n sessions))
]

-- A new session with a new transaction.
pub IsLinked-open :
    (s n : ℕ) (txn : Transaction) (sessions : IdMap TxnId) (txns : IdMap Transaction)
    → txn.state ≡ active
    → IsLinked sessions txns n
    → IsLinked (insert_id s n sessions) (insert_id n txn txns) (n + 1)
IsLinked-open s n txn sessions txns act (runs, apart) = (
  λ r i h. elim (Bool-cases (r == s)) [
    | inl same ↦
        let e : n ≡ i = ground (arith, h, lookup-insert_id s r n sessions) in
        ((txn, ground (arith, e, lookup-insert_id n i txn txns), act), omega (arith, e))
    | inr differ ↦
        let was : lookup_id r sessions ≡ some i =
          ground (arith, h, lookup-insert_id s r n sessions) in
        (IsRunning-insert n i txn txns act (runs r i was).0, omega (arith, (runs r i was).1))
  ],
  λ r q i h k. elim (lookup-insert_cases s r n i sessions h) [
    | inl (rs, e) ↦ elim (lookup-insert_cases s q n i sessions k) [
      | inl (qs, e2) ↦ rs ∙ sym qs
      | inr was ↦ absurd (omega (arith, e, (runs q i was).1))
    ]
    | inr first ↦ elim (lookup-insert_cases s q n i sessions k) [
      | inl (qs, e2) ↦ absurd (omega (arith, e2, (runs r i first).1))
      | inr second ↦ apart r q i first second
    ]
  ],
)
