-- ===== src/Txn/Deadlock/Complete.antt =====
-- Cycles of waits, and whether the search of deadlock.rs comes to them.
use noe_db.Base.{
  none, some, zero, suc, refl, [], ◌∷◌, ◌≢◌, ◌≡◌, ℕ, ◌⊎◌, List, true, length, inl, subst, arith,
  false, Bool-cases, ◌<◌, inr, ◌==◌, ap,
}
use noe_db.Base.IdMap.{IdMap, lookup_id}
use noe_db.Txn.Deadlock.{
  walk, Walk, cycle, ends, out_of_fuel, first_on_cycle, find_cycle_victim, DeadlockGuard, is_cycle,
}
use noe_db.Txn.Deadlock.Cycles.{WaitsFor, waits_directly, waits_through, walk-terminates}
use noe_db.Mvcc.Version.{TxnId}
use noe_db.Mvcc.View.{is_member}

module _ (waits : IdMap TxnId) (start : TxnId) where
  -- The first return to the start lies behind `n` further waiters.
  data Far : ℕ → TxnId → Type 0 where
    near : (cur : TxnId) → lookup_id cur waits ≡ some start → Far zero cur
    step :
        (n : ℕ) (cur next : TxnId)
        → lookup_id cur waits ≡ some next
        → next ≢ start
        → Far n next
        → Far (suc n) cur

  abbrev IsBefore : TxnId → Type 0
  IsBefore b = (b ≡ start) ⊎ ((n : ℕ) × Far n b)

  before-wait : (a b : TxnId) → lookup_id a waits ≡ some b → IsBefore b → (n : ℕ) × Far n a
  before-wait a b h (inl same) = (zero, near a (subst (λ x. lookup_id a waits ≡ some x) same h))
  before-wait a b h (inr (n, far)) = elim (Bool-cases (b == start)) [
    | inl back ↦ (zero, near a (ground (arith, h)))
    | inr other ↦ (suc n, step n a b h (λ e. absurd (ground (arith, e))) far)
  ]

  WaitsFor-Far : (a b : TxnId) → WaitsFor waits a b → IsBefore b → (n : ℕ) × Far n a
  WaitsFor-Far a b (waits_directly _ _ h) before = before-wait a b h before
  WaitsFor-Far a c (waits_through _ b _ to_b h) before =
      WaitsFor-Far a b to_b (inr (before-wait b c h before))

  Far-unique : (n m : ℕ) (cur : TxnId) → Far n cur → Far m cur → n ≡ m
  Far-unique n m cur (near _ h) (near _ k) = refl
  Far-unique n m cur (near _ h) (step k _ next e other far) = absurd (other (ground (arith, h, e)))
  Far-unique n m cur (step k _ next e other far) (near _ h) = absurd (other (ground (arith, h, e)))
  Far-unique n m cur (step k _ next e other far) (step l _ next2 e2 other2 far2) =
      let same : next2 ≡ next = ground (arith, e, e2) in
      ap suc (Far-unique k l next far (subst (λ x. Far l x) same far2))

  -- Every transaction of the list is farther from the return than `n`.
  abbrev AllFarther : ℕ → List TxnId → Type 0
  AllFarther n [] = Unit
  AllFarther n (v ∷ visited) = ((m : ℕ) × (n < m) × Far m v) × AllFarther n visited

  AllFarther-nearer :
      (n : ℕ) (visited : List TxnId) → AllFarther (suc n) visited → AllFarther n visited
  AllFarther-nearer n [] h = tt
  AllFarther-nearer n (v ∷ visited) h =
      ((h.0.0, omega (arith, h.0.1), h.0.2), AllFarther-nearer n visited h.1)

  AllFarther-fresh :
      (n : ℕ) (cur : TxnId) (visited : List TxnId)
      → Far n cur
      → AllFarther n visited
      → is_member visited cur ≡ false
  unfolding is_member
  AllFarther-fresh n cur [] far h = refl
  AllFarther-fresh n cur (v ∷ visited) far h = elim (Bool-cases (v == cur)) [
    | inl same ↦
        let e : v ≡ cur = ground arith in
        absurd (omega (arith, h.0.1, Far-unique n h.0.0 cur far (subst (λ x. Far h.0.0 x) e h.0.2)))
    | inr other ↦ ground (arith, AllFarther-fresh n cur visited far h.1)
  ]

  walk-Far :
      (fuel n : ℕ) (visited : List TxnId) (cur : TxnId)
      → Far n cur
      → AllFarther n visited
      → walk fuel waits start visited cur ≢ ends
  unfolding walk
  walk-Far zero n visited cur far h = ground arith
  walk-Far (suc fuel) zero visited cur (near _ e) h =
      let fresh = AllFarther-fresh zero cur visited (near cur e) h in ground (arith, fresh, e)
  walk-Far (suc fuel) (suc n) visited cur (step _ _ next e other far) h =
      let here = step n cur next e other far in
      let fresh = AllFarther-fresh (suc n) cur visited here h in
      let rest =
        walk-Far fuel n (cur ∷ visited) next far
          ((suc n, omega arith, here), AllFarther-nearer n visited h) in
      ground (arith, fresh, e, other, rest)

finds-cycle : (w : Walk) → w ≢ ends → w ≢ out_of_fuel → is_cycle w ≡ true
finds-cycle cycle a b = refl
finds-cycle ends a b = absurd (a refl)
finds-cycle out_of_fuel a b = absurd (b refl)

first_on_cycle-some :
    (waits rest : IdMap TxnId) (t holder : TxnId)
    → lookup_id t rest ≡ some holder
    → is_cycle (walk (suc (length waits)) waits t [] t) ≡ true
    → first_on_cycle waits rest ≢ none
unfolding first_on_cycle lookup_id
first_on_cycle-some waits [] t holder h found = cc
first_on_cycle-some waits ((start, x) ∷ rest) t holder h found = elim (Bool-cases (t == start)) [
  | inl same ↦
      let e : t ≡ start = ground arith in
      let here : is_cycle (walk (suc (length waits)) waits start [] start) ≡ true =
        subst (λ s. is_cycle (walk (suc (length waits)) waits s [] s) ≡ true) e found in
      rw here (λ none_found. cc none_found)
  | inr other ↦ ground (arith, first_on_cycle-some waits rest t holder (ground arith) found)
]

WaitsFor-lookup :
    (waits : IdMap TxnId) (a b : TxnId)
    → WaitsFor waits a b
    → (c : TxnId) × (lookup_id a waits ≡ some c)
WaitsFor-lookup waits a b (waits_directly _ _ h) = (b, h)
WaitsFor-lookup waits a c (waits_through _ b _ to_b h) = WaitsFor-lookup waits a b to_b

-- If any transaction waits for itself, directly or through others, the search finds a victim.
pub find_cycle_victim_complete :
    (g : DeadlockGuard) (t : TxnId) → WaitsFor g.waits t t → find_cycle_victim g ≢ none
unfolding find_cycle_victim
find_cycle_victim_complete g t w =
    let far = WaitsFor-Far g.waits t t t w (inl refl) in
    let held = WaitsFor-lookup g.waits t t w in
    let fuel : ℕ = suc (length g.waits) in
    first_on_cycle-some g.waits g.waits t held.0 held.1 (
      finds-cycle (walk fuel g.waits t [] t) (walk-Far g.waits t fuel far.0 [] t far.1 tt)
        (walk-terminates g.waits t))
