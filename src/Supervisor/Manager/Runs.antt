-- ===== src/Supervisor/Manager/Runs.antt =====
-- Runs of the manager: its methods and the events of the processes in any order.

use dtvn.Prelude.{
  ℕ, zero, suc, String, Bool, true, Option, none, some, List, [], ◌∷◌, ◌≡◌, refl, ◌==◌, string_eq,
  nat_eq, Bool-cases, Option-cases, inl, inr,
}
use dtvn.Prelude.GoMap.{GoMap, lookup, delete}
use dtvn.Prelude.GoMap.Laws.{Each-delete_where}
use dtvn.Supervisor.Manager.{
  NodeManager, ManagedNode, NodeStatus, is_active, is_running, new, same, start_node_with_total,
  stop_entry, stop_node, stop_each, stop_all_nodes, update_entry, update_primary_status,
  remove_entry, remove_node, set_total_nodes, get_node,
}
use dtvn.Supervisor.Manager.Process.{ProcessEvent, happen}
use dtvn.Supervisor.Manager.Valid.{
  IsBound, IsValid, set_entry-IsValid, start_node_with_total-IsValid, happen-IsValid,
}
use dtvn.Supervisor.Manager.Cluster.{start_cluster, cleared}

stop_entry-IsValid :
    (m : NodeManager) (ref : ℕ) (o : Option ManagedNode)
    → lookup ref m.entries ≡ o
    → IsValid m
    → IsValid (stop_entry m ref o).0
unfolding stop_entry
stop_entry-IsValid m ref none held v = v
stop_entry-IsValid m ref (some node) held v = elim (Bool-cases (is_running node.status)) [
  | inl r ↦ rw r (
      set_entry-IsValid m ref node
        (record node { status = NodeStatus.stopping; is_cancelled = true }) held (refl, refl, refl)
        v)
  | inr r ↦ rw r v
]

pub stop_node-IsValid : (m : NodeManager) (id : String) → IsValid m → IsValid (stop_node m id).0
unfolding stop_node
stop_node-IsValid m id v = elim (Option-cases (lookup id m.nodes)) [
  | inl e ↦ rw (e, stop_node) v
  | inr (ref, e) ↦ rw (e, stop_node) (stop_entry-IsValid m ref (lookup ref m.entries) refl v)
]

stop_each-IsValid :
    (m : NodeManager) (nodes : GoMap String ℕ) → IsValid m → IsValid (stop_each m nodes)
unfolding stop_each
stop_each-IsValid m [] v = v
stop_each-IsValid m ((id, ref) ∷ nodes) v =
    stop_each-IsValid (stop_node m id).0 nodes (stop_node-IsValid m id v)

update_entry-IsValid :
    (m : NodeManager) (ref : ℕ) (p : Bool) (o : Option ManagedNode)
    → lookup ref m.entries ≡ o
    → IsValid m
    → IsValid (update_entry m ref p o).0
unfolding update_entry
update_entry-IsValid m ref p none held v = v
update_entry-IsValid m ref p (some node) held v = elim (Bool-cases (same node.is_primary p)) [
  | inl r ↦ rw r v
  | inr r ↦
      rw r (set_entry-IsValid m ref node (record node { is_primary = p }) held (refl, refl, refl) v)
]

pub update_primary_status-IsValid :
    (m : NodeManager) (id : String) (p : Bool)
    → IsValid m
    → IsValid (update_primary_status m id p).0
unfolding update_primary_status
update_primary_status-IsValid m id p v = elim (Option-cases (lookup id m.nodes)) [
  | inl e ↦ rw (e, update_primary_status) v
  | inr (ref, e) ↦
      rw (e, update_primary_status) (update_entry-IsValid m ref p (lookup ref m.entries) refl v)
]

remove_entry-IsValid :
    (m : NodeManager) (id : String) (o : Option ManagedNode)
    → IsValid m
    → IsValid (remove_entry m id o).0
unfolding remove_entry delete
remove_entry-IsValid m id none v = v
remove_entry-IsValid m id (some node) v = elim (Bool-cases (is_active node.status)) [
  | inl r ↦ rw r v
  | inr r ↦ rw r (
      Each-delete_where (IsBound m.base_port m.base_api_port m.entries m.next) (λ j. j == id)
        m.nodes v)
]

stop_all_nodes-IsValid : (m : NodeManager) → IsValid m → IsValid (stop_all_nodes m)
unfolding stop_all_nodes
stop_all_nodes-IsValid m v = stop_each-IsValid m m.nodes v

-- The methods that change the manager, a process's event, and the goroutine of `StartCluster`, of
-- which the starts and the events are operations of their own.
pub data Op : Type 0 where
  start : String → Bool → Bool → ℕ → Op
  stop remove : String → Op
  stop_all : Op
  update : String → Bool → Op
  set_total : ℕ → Op
  process : ℕ × ProcessEvent → Op
  start_all : List (ℕ × ProcessEvent) → ℕ → Op

unfoldable pub apply : NodeManager → Op → NodeManager
apply m (start id is_primary is_bootstrap total) =
    (start_node_with_total m id is_primary is_bootstrap total).0
apply m (stop id) = (stop_node m id).0
apply m (remove id) = (remove_node m id).0
apply m stop_all = stop_all_nodes m
apply m (update id is_primary) = (update_primary_status m id is_primary).0
apply m (set_total count) = set_total_nodes m count
apply m (process e) = happen m e
apply m (start_all events node_count) = (start_cluster m events node_count).0

unfoldable pub run : NodeManager → List Op → NodeManager
unfolding apply
run m [] = m
run m (op ∷ ops) = run (apply m op) ops

start_cluster-IsValid :
    (m : NodeManager) (events : List (ℕ × ProcessEvent)) (node_count : ℕ)
    → IsValid m
    → IsValid (start_cluster m events node_count).0
unfolding start_cluster cleared lookup
start_cluster-IsValid m events zero v = v
start_cluster-IsValid m events (suc others) v = elim (Bool-cases m.is_locked) [
  | inl locked ↦ rw locked v
  | inr free ↦ rw free (λ id ref l. absurd (cc l))
]

apply-IsValid : (m : NodeManager) (op : Op) → IsValid m → IsValid (apply m op)
unfolding apply set_total_nodes remove_node
apply-IsValid m (start id p b total) v = start_node_with_total-IsValid m id p b total v
apply-IsValid m (stop id) v = stop_node-IsValid m id v
apply-IsValid m (remove id) v = remove_entry-IsValid m id (get_node m id) v
apply-IsValid m stop_all v = stop_all_nodes-IsValid m v
apply-IsValid m (update id p) v = update_primary_status-IsValid m id p v
apply-IsValid m (set_total count) v = v
apply-IsValid m (process e) v = happen-IsValid m e v
apply-IsValid m (start_all events node_count) v = start_cluster-IsValid m events node_count v

run-IsValid : (m : NodeManager) (ops : List Op) → IsValid m → IsValid (run m ops)
unfolding run
run-IsValid m [] v = v
run-IsValid m (op ∷ ops) v = run-IsValid (apply m op) ops (apply-IsValid m op v)

-- In whatever order methods of a new manager are called and processes start, write and end, each
-- node of the manager has an entry of its name, whose port is not below the base, and whose API
-- port is as far from its base as the port is.
pub run-new-IsValid :
    (base_port base_api_port : ℕ) (ops : List Op) → IsValid (run (new base_port base_api_port) ops)
unfolding new lookup
run-new-IsValid base_port base_api_port ops =
    run-IsValid (new base_port base_api_port) ops (λ id ref l. absurd (cc l))
