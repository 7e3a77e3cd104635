-- ===== src/Raft/Node.antt =====
-- `RaftNode<MemStorage>` of crates/noedb-raft/src/node.rs: a node with its store, which carries out
-- the actions of the core. The store does not fail, so only a refusal of the core is an error.
pub mod Compaction
use noe_db.Base.{ℕ, List, [], ◌∷◌, ◌++◌, Option}
use noe_db.Raft.Types.{NodeId}
use noe_db.Raft.Log.{Command, ConfChange, restore}
use noe_db.Raft.Config.{RaftConfig}
use noe_db.Raft.Rpc.{RpcMessage}
use noe_db.Raft.State.{
  Action, persist_hard_state, persist_log, send, apply, snapshot, Raft, Externals, Result, ok,
  not_leader, new,
}
use noe_db.Raft.Machine.{tick, propose, begin_read_index, propose_conf_change, dispatch}
use noe_db.Raft.Storage.{MemStorage, save_hard_state, append_stored, save_snapshot}

pub record RaftNode : Type 0 where
  pub raft : Raft
  pub storage : MemStorage
  pub applied : List Command

abbrev pub Outbound : Type 0
Outbound = List (NodeId × RpcMessage)

-- `RaftNode::open`: the state is what the store holds.
unfoldable pub open_node : Externals → RaftConfig → MemStorage → RaftNode
open_node ext config s = record { raft = new ext config s.hard s.log; storage = s; applied = [] }

-- One action: the node, and what it sends.
unfoldable pub exec_one : RaftNode → Action → RaftNode × Outbound
unfolding save_hard_state append_stored save_snapshot
exec_one n persist_hard_state = (record n { storage = save_hard_state n.storage n.raft.hard }, [])
exec_one n (persist_log from entries) =
    (record n { storage = append_stored n.storage from entries }, [])
exec_one n (apply cmds) = (record n { applied = n.applied ++ cmds }, [])
exec_one n (snapshot snap) = (
  record n {
    storage = save_snapshot n.storage snap;
    raft = record n.raft { log = restore n.raft.log snap.index snap.term [] };
  },
  [],
)
exec_one n (send to msg) = (n, (to, msg) ∷ [])

unfoldable pub exec : RaftNode → List Action → RaftNode × Outbound
unfolding exec_one
exec n [] = (n, [])
exec n (a ∷ actions) =
    let (n1, out) = exec_one n a in let (n2, more) = exec n1 actions in (n2, out ++ more)

-- The node after the core has moved, with the actions that it asked for carried out.
unfoldable pub exec_core : RaftNode → Raft × List Action → RaftNode × Outbound
unfolding exec
exec_core n (r, actions) = exec (record n { raft = r }) actions

unfoldable pub tick_ms : Externals → RaftNode → ℕ → RaftNode × Outbound
tick_ms ext n ms = exec_core n (tick ext n.raft ms)

unfoldable pub step_node :
    Externals → RaftNode → NodeId → RpcMessage → RaftNode × Option RpcMessage × Outbound
step_node ext n from msg =
    let (r, resp, actions) = dispatch ext n.raft from msg in
    let (n', out) = exec_core n (r, actions) in (n', resp, out)

abbrev pub exec_result : RaftNode → Result (Raft × List Action) → Result (RaftNode × Outbound)
exec_result n (ok p) = ok (exec_core n p)
exec_result n not_leader = not_leader

unfoldable pub propose_node : RaftNode → Command → Result (RaftNode × Outbound)
propose_node n cmd = exec_result n (propose n.raft cmd)

unfoldable pub read_index_node : RaftNode → ℕ → Result (RaftNode × Outbound)
read_index_node n read_id = exec_result n (begin_read_index n.raft read_id)

unfoldable pub propose_conf_change_node :
    Externals → RaftNode → ConfChange → Result (RaftNode × Outbound)
propose_conf_change_node ext n cc = exec_result n (propose_conf_change ext n.raft cc)
