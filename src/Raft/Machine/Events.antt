-- ===== src/Raft/Machine/Events.antt =====
-- The calls that a runtime makes of a node, as one type, and runs of several of them.
use noe_db.Base.{ℕ, List, [], ◌∷◌}
use noe_db.Raft.Types.{NodeId}
use noe_db.Raft.Log.{Command, ConfChange}
use noe_db.Raft.Rpc.{RpcMessage}
use noe_db.Raft.State.{Action, Raft, Externals, Result, ok, not_leader}
use noe_db.Raft.Machine.{tick, propose, begin_read_index, propose_conf_change, dispatch}

pub data Event : Type 0 where
  timer : ℕ → Event
  message : NodeId → RpcMessage → Event
  command : Command → Event
  read : ℕ → Event
  change : ConfChange → Event

-- A refused call leaves the node as it is.
abbrev pub or_unchanged : Raft → Result (Raft × List Action) → Raft
or_unchanged r (ok (r', actions)) = r'
or_unchanged r not_leader = r

unfoldable pub after : Externals → Raft → Event → Raft
after ext r (timer ms) = (tick ext r ms).0
after ext r (message from msg) = (dispatch ext r from msg).0
after ext r (command cmd) = or_unchanged r (propose r cmd)
after ext r (read read_id) = or_unchanged r (begin_read_index r read_id)
after ext r (change cc) = or_unchanged r (propose_conf_change ext r cc)

unfoldable pub run : Externals → Raft → List Event → Raft
run ext r [] = r
run ext r (e ∷ es) = run ext (after ext r e) es
