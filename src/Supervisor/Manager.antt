-- ===== src/Supervisor/Manager.antt =====
-- pkg/supervisor/manager.go, the registry of `NodeManager`: what its methods do to the nodes and
-- their states. The map holds pointers to entries, so that the goroutine of a process still writes
-- to the entry of a node that was started again: the entries stand in a store, by number. A node's
-- mutex and the manager's make each method one step. A call of a callback is recorded as a notice.
-- The paths and the key, `StartedAt` and a node's `Config`, which nothing reads, are left out. The
-- text of an error that a method returns is dropped.
pub mod Process
pub mod Cluster
pub mod Valid
pub mod Runs
pub mod Ports
pub mod Packed
pub mod Exits
use dtvn.Prelude.{
  ℕ, zero, suc, ◌+◌, ◌-◌, String, Bool, true, false, not, ◌==◌, Option, none, some, List, [], ◌∷◌,
  if◌then◌else◌, ltb, length, string_eq, nat_eq,
}
use dtvn.Prelude.GoMap.{GoMap, lookup, insert, delete}
use dtvn.Supervisor.Buffer.{OutputBuffer, get_lines}
use dtvn.Supervisor.Buffer

pub data NodeStatus : Type 0 where
  stopped starting running stopping error : NodeStatus

-- `is_cancelled` says whether the context of the process is cancelled.
pub record ManagedNode : Type 0 where
  pub id : String
  pub port : ℕ
  pub api_port : ℕ
  pub status : NodeStatus
  pub is_primary : Bool
  pub is_bootstrap : Bool
  pub error : String
  pub output_buf : OutputBuffer
  pub is_cancelled : Bool

pub data ClusterStatus : Type 0 where
  idle starting running stopping : ClusterStatus

-- the calls of `statusCallback`, `outputCallback` and `clusterCallback`
pub data Notice : Type 0 where
  status_of : String → NodeStatus → Notice
  output_of : String → String → Notice
  cluster : ClusterStatus → ℕ → ℕ → Notice

-- `entries` is the store, `next` the number of the next entry, and `is_locked` whether `clusterMu`
-- is held.
pub record NodeManager : Type 0 where
  pub nodes : GoMap String ℕ
  pub entries : GoMap ℕ ManagedNode
  pub next : ℕ
  pub base_port : ℕ
  pub base_api_port : ℕ
  pub total_nodes : ℕ
  pub cluster_status : ClusterStatus
  pub is_locked : Bool
  pub notices : List Notice

pub data Error : Type 0 where
  already_running not_found not_running cannot_remove : Error
  no_nodes in_progress : Error

unfoldable pub new : ℕ → ℕ → NodeManager
new base_port base_api_port = record {
  nodes = [];
  entries = [];
  next = 0;
  base_port = if base_port == 0 then 4001 else base_port;
  base_api_port = if base_api_port == 0 then 9001 else base_api_port;
  total_nodes = 0;
  cluster_status = idle;
  is_locked = false;
  notices = [];
}

abbrev pub notify : Notice → NodeManager → NodeManager
notify notice m = record m { notices = notice ∷ m.notices }

-- the entry that a pointer of the map points to
abbrev pub entry_at : GoMap ℕ ManagedNode → Option ℕ → Option ManagedNode
entry_at entries none = none
entry_at entries (some ref) = lookup ref entries

abbrev pub get_node : NodeManager → String → Option ManagedNode
get_node m node_id = entry_at m.entries (lookup node_id m.nodes)

abbrev pub set_entry : NodeManager → ℕ → ManagedNode → NodeManager
set_entry m ref node = record m { entries = insert ref node m.entries }

-- `status == NodeStatusRunning || status == NodeStatusStarting`
abbrev pub is_active : NodeStatus → Bool
is_active NodeStatus.running = true
is_active NodeStatus.starting = true
is_active _ = false

-- `status == NodeStatusStopped || status == NodeStatusError`
abbrev pub is_over : NodeStatus → Bool
is_over stopped = true
is_over NodeStatus.error = true
is_over _ = false

-- the nodes without the entry of one that is over
unfoldable pub cleaned : GoMap String ℕ → String → Option ManagedNode → GoMap String ℕ
cleaned nodes node_id none = nodes
cleaned nodes node_id (some existing) =
    if is_over existing.status then delete node_id nodes else nodes

-- No entry has a port below the base, since `new_node` makes every entry.
unfoldable pub node_index : NodeManager → Option ManagedNode → ℕ
node_index m none = length m.nodes
node_index m (some existing) = existing.port - m.base_port

unfoldable pub new_node : NodeManager → String → Bool → Bool → ManagedNode
unfolding node_index
new_node m node_id is_primary is_bootstrap =
    let index = node_index m (get_node m node_id) in
    record {
      id = node_id;
      port = m.base_port + index;
      api_port = m.base_api_port + index;
      status = NodeStatus.starting;
      is_primary = is_primary;
      is_bootstrap = is_bootstrap;
      error = "";
      output_buf = Buffer.new 1000;
      is_cancelled = false;
    }

-- the new entry and the total, once the guards have passed
unfoldable pub add_node : NodeManager → String → Bool → Bool → ℕ → NodeManager
unfolding new_node
add_node m node_id is_primary is_bootstrap target_total =
    let nodes = insert node_id m.next m.nodes in
    record m {
      nodes = nodes;
      entries = insert m.next (new_node m node_id is_primary is_bootstrap) m.entries;
      next = suc m.next;
      total_nodes = if ltb 0 target_total then target_total else length nodes;
    }

-- Whether the node is there and active.
abbrev pub is_taken : Option ManagedNode → Bool
is_taken none = false
is_taken (some existing) = is_active existing.status

abbrev pub clean_up : NodeManager → String → NodeManager
clean_up m node_id = record m { nodes = cleaned m.nodes node_id (get_node m node_id) }

unfoldable pub start_node_with_total :
    NodeManager → String → Bool → Bool → ℕ → NodeManager × Option Error
unfolding add_node
start_node_with_total m node_id is_primary is_bootstrap target_total =
    if is_taken (get_node m node_id)
    then (m, some already_running)
    else (add_node (clean_up m node_id) node_id is_primary is_bootstrap target_total, none)

unfoldable pub start_node : NodeManager → String → Bool → Bool → NodeManager × Option Error
unfolding start_node_with_total
start_node m node_id is_primary is_bootstrap =
    start_node_with_total m node_id is_primary is_bootstrap 0

abbrev pub is_running : NodeStatus → Bool
is_running NodeStatus.running = true
is_running _ = false

-- the part of `StopNode` that has the entry
unfoldable pub stop_entry : NodeManager → ℕ → Option ManagedNode → NodeManager × Option Error
stop_entry m ref none = (m, some not_found)
stop_entry m ref (some node) =
    let halted = record node { status = NodeStatus.stopping; is_cancelled = true } in
    if is_running node.status
    then (notify (status_of node.id NodeStatus.stopping) (set_entry m ref halted), none)
    else (m, some not_running)

unfoldable pub stop_node : NodeManager → String → NodeManager × Option Error
unfolding stop_entry
stop_node m node_id = elim (lookup node_id m.nodes) [
  | none ↦ (m, some not_found)
  | some ref ↦ stop_entry m ref (lookup ref m.entries)
]

unfoldable pub stop_each : NodeManager → GoMap String ℕ → NodeManager
unfolding stop_node
stop_each m [] = m
stop_each m ((id, ref) ∷ nodes) = stop_each (stop_node m id).0 nodes

unfoldable pub stop_all_nodes : NodeManager → NodeManager
unfolding stop_each
stop_all_nodes m = stop_each m m.nodes

-- `==` on Booleans
abbrev pub same : Bool → Bool → Bool
same true b = b
same false b = not b

unfoldable pub update_entry : NodeManager → ℕ → Bool → Option ManagedNode → NodeManager × Bool
update_entry m ref is_primary none = (m, false)
update_entry m ref is_primary (some node) =
    if same node.is_primary is_primary
    then (m, false)
    else (set_entry m ref (record node { is_primary = is_primary }), true)

unfoldable pub update_primary_status : NodeManager → String → Bool → NodeManager × Bool
unfolding update_entry
update_primary_status m node_id is_primary = elim (lookup node_id m.nodes) [
  | none ↦ (m, false)
  | some ref ↦ update_entry m ref is_primary (lookup ref m.entries)
]

unfoldable pub get_node_logs : NodeManager → String → Option (List String)
get_node_logs m node_id = elim (get_node m node_id) [
  | none ↦ none
  | some node ↦ some (get_lines node.output_buf)
]

-- the part of `RemoveNode` that has the entry
unfoldable pub remove_entry : NodeManager → String → Option ManagedNode → NodeManager × Option Error
remove_entry m node_id none = (m, some not_found)
remove_entry m node_id (some node) =
    let nodes = delete node_id m.nodes in
    if is_active node.status
    then (m, some cannot_remove)
    else (record m { nodes = nodes; total_nodes = length nodes }, none)

unfoldable pub remove_node : NodeManager → String → NodeManager × Option Error
unfolding remove_entry
remove_node m node_id = remove_entry m node_id (get_node m node_id)

unfoldable pub set_total_nodes : NodeManager → ℕ → NodeManager
set_total_nodes m count = record m { total_nodes = count }
