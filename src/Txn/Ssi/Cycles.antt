-- ===== src/Txn/Ssi/Cycles.antt =====
-- Transactions that depend on each other.
use noe_db.Base.{none, refl, [], ◌∷◌, ◌≢◌, ◌≡◌, Bool, true, false, arith, Option-cases, inl, inr}
use noe_db.Base.IdMap.{
  IdMap, lookup_id, insert_id, remove_id, contains_id, lookup-insert_id, lookup-remove_id, IdSet,
}
use noe_db.Txn.Ssi.{
  purge, drop_writer, has_rw_cycle, note_rw_dependency, any_points_back, SsiChecker, points_back,
  writers_or_default,
}
use noe_db.Mvcc.Version.{TxnId}

contains-any_points_back :
    (edges : IdMap IdSet) (id pred : TxnId) (out : IdSet)
    → contains_id pred out ≡ true
    → points_back edges id pred ≡ true
    → any_points_back edges id out ≡ true
unfolding any_points_back contains_id lookup_id
contains-any_points_back edges id pred [] h back = cc
contains-any_points_back edges id pred ((p, u) ∷ out) h back =
    ground (arith, contains-any_points_back edges id pred out)

-- The edge from one transaction to another.
abbrev pub depends : TxnId → TxnId → SsiChecker → Bool
depends a b c = points_back c.rw_edges b a

pub depends-note_rw_dependency :
    (a b : TxnId) (c : SsiChecker) → a ≢ b → depends a b (note_rw_dependency a b c) ≡ true
unfolding note_rw_dependency contains_id
depends-note_rw_dependency a b c ne =
    let writers = writers_or_default (lookup_id a c.rw_edges) in
    ground (
      arith,
      lookup-insert_id a a (insert_id b tt writers) c.rw_edges,
      lookup-insert_id b b tt writers,
    )

-- A dependency that is recorded stays when another is.
pub depends-stays :
    (a b x y : TxnId) (c : SsiChecker)
    → depends a b c ≡ true
    → depends a b (note_rw_dependency x y c) ≡ true
unfolding note_rw_dependency contains_id
depends-stays a b x y c h =
    let writers = writers_or_default (lookup_id x c.rw_edges) in
    ground (
      arith,
      lookup-insert_id x a (insert_id y tt writers) c.rw_edges,
      lookup-insert_id y b tt writers,
    )

pub has_rw_cycle-mutual :
    (a b : TxnId) (c : SsiChecker)
    → depends a b c ≡ true
    → depends b a c ≡ true
    → has_rw_cycle c.rw_edges a ≡ true
unfolding has_rw_cycle
has_rw_cycle-mutual a b c ab ba = elim (Option-cases (lookup_id a c.rw_edges)) [
  | inl free ↦ absurd (ground arith)
  | inr (out, found) ↦ ground (arith, contains-any_points_back c.rw_edges a b out (ground arith) ba)
]

contains-remove_id : (id : TxnId) (s : IdSet) → contains_id id (remove_id id s) ≡ false
unfolding contains_id
contains-remove_id id s = ground (arith, lookup-remove_id id id s)

-- No set of writers in a list of edges has the transaction.
points_back-drop_writer :
    (id reader : TxnId) (edges : IdMap IdSet) → points_back (drop_writer id edges) id reader ≡ false
unfolding drop_writer lookup_id
points_back-drop_writer id reader [] = refl
points_back-drop_writer id reader ((r, writers) ∷ edges) =
    ground (arith, contains-remove_id id writers, points_back-drop_writer id reader edges)

lookup-drop_writer :
    (id reader : TxnId) (edges : IdMap IdSet)
    → lookup_id reader edges ≡ none
    → lookup_id reader (drop_writer id edges) ≡ none
unfolding drop_writer lookup_id
lookup-drop_writer id reader [] h = refl
lookup-drop_writer id reader ((r, writers) ∷ edges) h =
    ground (arith, lookup-drop_writer id reader edges)

-- After a purge no dependency from or to the transaction is left.
pub purge-forgets :
    (c : SsiChecker) (id reader : TxnId)
    → (depends reader id (purge id c) ≡ false) × (depends id reader (purge id c) ≡ false)
unfolding purge
purge-forgets c id reader =
    let gone : lookup_id id (remove_id id c.rw_edges) ≡ none =
      ground (arith, lookup-remove_id id id c.rw_edges) in
    (
      points_back-drop_writer id reader (remove_id id c.rw_edges),
      ground (arith, lookup-drop_writer id id (remove_id id c.rw_edges) gone),
    )
