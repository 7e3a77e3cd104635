-- ===== src/Txn/Deadlock/Cycles.antt =====
-- The search for a cycle of waits (deadlock.rs): its end, and its victim.
use noe_db.Base.{
  some, zero, suc, refl, [], ◌∷◌, ℕ, List, ◌≡◌, length, ◌≤◌, Bool-cases, ◌<◌, false, ap,
  if◌then◌else◌, ◌≢◌, arith, inl, inr, Option-cases, ◌==◌, subst, true,
}
use noe_db.Base.IdMap.{IdMap, lookup_id}
use noe_db.Txn.Deadlock.{
  walk, Walk, cycle, ends, out_of_fuel, find_cycle_victim, first_on_cycle, DeadlockGuard, is_cycle,
}
use noe_db.Mvcc.Version.{TxnId}
use noe_db.Mvcc.View.{is_member}

-- The number of waits whose waiter the walk has not visited.
abbrev unvisited : IdMap TxnId → List TxnId → ℕ
unvisited [] visited = 0
unvisited ((waiter, holder) ∷ waits) visited =
    let rest = unvisited waits visited in if is_member visited waiter then rest else suc rest

unvisited-cons :
    (waits : IdMap TxnId) (visited : List TxnId) (cur : TxnId)
    → unvisited waits (cur ∷ visited) ≤ unvisited waits visited
unfolding is_member
unvisited-cons [] visited cur = omega arith
unvisited-cons ((w, h) ∷ waits) visited cur = ground (arith, unvisited-cons waits visited cur)

unvisited-visit :
    (waits : IdMap TxnId) (visited : List TxnId) (cur next : TxnId)
    → is_member visited cur ≡ false
    → lookup_id cur waits ≡ some next
    → unvisited waits (cur ∷ visited) < unvisited waits visited
unfolding is_member lookup_id
unvisited-visit [] visited cur next fresh h = cc
unvisited-visit ((w, x) ∷ waits) visited cur next fresh h =
    ground (arith, unvisited-cons waits visited cur, unvisited-visit waits visited cur next)

unvisited-nil : (waits : IdMap TxnId) → unvisited waits [] ≡ length waits
unfolding is_member
unvisited-nil [] = refl
unvisited-nil ((w, h) ∷ waits) = ap suc (unvisited-nil waits)

walk-ends :
    (fuel : ℕ) (waits : IdMap TxnId) (start : TxnId) (visited : List TxnId) (cur : TxnId)
    → unvisited waits visited < fuel
    → walk fuel waits start visited cur ≢ out_of_fuel
unfolding walk
walk-ends zero waits start visited cur h = absurd (omega arith)
walk-ends (suc fuel) waits start visited cur h = elim (Bool-cases (is_member visited cur)) [
  | inl seen ↦ ground arith
  | inr fresh ↦ elim (Option-cases (lookup_id cur waits)) [
    | inl free ↦ ground arith
    | inr (next, found) ↦ ground (
      arith,
      unvisited-visit waits visited cur next fresh found,
      walk-ends fuel waits start (cur ∷ visited) next,
    )
  ]
]

-- The walk that looks for a cycle through a waiter comes to an end within the fuel that it has, one
-- more than there are waits.
pub walk-terminates :
    (waits : IdMap TxnId) (start : TxnId)
    → walk (suc (length waits)) waits start [] start ≢ out_of_fuel
walk-terminates waits start =
    walk-ends (suc (length waits)) waits start [] start (omega (arith, unvisited-nil waits))

-- One transaction waits for another, directly or through others.
pub data WaitsFor (waits : IdMap TxnId) : TxnId → TxnId → Type 0 where
  waits_directly : (a b : TxnId) → lookup_id a waits ≡ some b → WaitsFor waits a b
  waits_through :
      (a b c : TxnId) → WaitsFor waits a b → lookup_id b waits ≡ some c → WaitsFor waits a c

walk-WaitsFor :
    (fuel : ℕ) (waits : IdMap TxnId) (start : TxnId) (visited : List TxnId) (cur : TxnId)
    → ((next : TxnId) → lookup_id cur waits ≡ some next → WaitsFor waits start next)
    → walk fuel waits start visited cur ≡ cycle
    → WaitsFor waits start start
unfolding walk
walk-WaitsFor zero waits start visited cur reach h = cc
walk-WaitsFor (suc fuel) waits start visited cur reach h =
    elim (Bool-cases (is_member visited cur)) [
      | inl seen ↦ absurd (ground arith)
      | inr fresh ↦ elim (Option-cases (lookup_id cur waits)) [
        | inl free ↦ absurd (ground arith)
        | inr (next, found) ↦ elim (Bool-cases (next == start)) [
          | inl back ↦
              let same : next ≡ start = ground arith in
              subst (λ x. WaitsFor waits start x) same (reach next found)
          | inr other ↦
              walk-WaitsFor fuel waits start (cur ∷ visited) next
                (λ after e. waits_through start next after (reach next found) e) (ground arith)
        ]
      ]
    ]

is_cycle-eq : (w : Walk) → is_cycle w ≡ true → w ≡ cycle
is_cycle-eq cycle h = refl
is_cycle-eq ends h = cc
is_cycle-eq out_of_fuel h = cc

first_on_cycle-WaitsFor :
    (waits rest : IdMap TxnId) (victim : TxnId)
    → first_on_cycle waits rest ≡ some victim
    → WaitsFor waits victim victim
unfolding first_on_cycle
first_on_cycle-WaitsFor waits [] victim h = absurd (ground arith)
first_on_cycle-WaitsFor waits ((start, holder) ∷ rest) victim h =
    elim (Bool-cases (is_cycle (walk (suc (length waits)) waits start [] start))) [
      | inl on_cycle ↦
          let fuel : ℕ = suc (length waits) in
          let found : walk fuel waits start [] start ≡ cycle = is_cycle-eq _ on_cycle in
          let same : start ≡ victim = ground arith in
          subst (λ x. WaitsFor waits x x) same
            (walk-WaitsFor fuel waits start [] start (λ next e. waits_directly start next e) found)
      | inr off_cycle ↦ first_on_cycle-WaitsFor waits rest victim (ground arith)
    ]

-- A victim of the search for deadlocks waits for itself, directly or through others.
pub find_cycle_victim-WaitsFor :
    (g : DeadlockGuard) (victim : TxnId)
    → find_cycle_victim g ≡ some victim
    → WaitsFor g.waits victim victim
unfolding find_cycle_victim
find_cycle_victim-WaitsFor g victim h = first_on_cycle-WaitsFor g.waits g.waits victim h
