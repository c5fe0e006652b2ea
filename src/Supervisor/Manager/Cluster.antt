-- ===== src/Supervisor/Manager/Cluster.antt =====
-- pkg/supervisor/manager.go, `StartCluster` and `startClusterAsync`. The goroutines of a batch take
-- the manager's lock in some order: `order` lists the nodes' numbers as they come to it. `events`
-- says what happens to processes after each start, by the number of the next entry. The waits for
-- the processes end by their timeouts at the latest, whatever they saw; pauses are left out.
pub mod Names
pub mod Ports
use Prim.Native.String.{◌++◌ as str_append}
use dtvn.Prelude.{
  ℕ, zero, suc, ◌+◌, ◌-◌, String, Bool, true, false, ◌&&◌, Option, none, some, List, [], ◌∷◌,
  if◌then◌else◌, ltb, leb, filter,
}
use dtvn.Prelude.Int.{pos}
use dtvn.Prelude.Decimal.{format_int}
use dtvn.Supervisor.Manager.{
  NodeManager, ManagedNode, Error, idle, starting, running, cluster, notify, in_progress, no_nodes,
  get_node, start_node_with_total, stop_all_nodes,
}
use dtvn.Supervisor.Manager.Process.{ProcessEvent, happen_all}

abbrev pub Events : Type 0
Events = ℕ → List (ℕ × ProcessEvent)

unfoldable pub node_name : ℕ → String
node_name i = str_append "node" (format_int (pos i))

-- a start in a batch, and what happens until the next
unfoldable pub start_then : NodeManager → Events → String → ℕ → NodeManager
unfolding start_node_with_total happen_all
start_then m events id total =
    let m' = (start_node_with_total m id false false total).0 in happen_all m' (events m'.next)

unfoldable pub start_batch : NodeManager → Events → ℕ → List ℕ → NodeManager
unfolding start_then
start_batch m events total [] = m
start_batch m events total (i ∷ batch) =
    start_batch (start_then m events (node_name i) total) events total batch

abbrev pub in_batch : ℕ → ℕ → ℕ → Bool
in_batch from to i = leb from i && ltb i to

abbrev pub batch_end : ℕ → ℕ → ℕ
batch_end from node_count = if ltb node_count (from + 10) then node_count else from + 10

abbrev pub batch_of : List ℕ → ℕ → ℕ → List ℕ
batch_of order from node_count = filter (in_batch from (batch_end from node_count)) order

-- The loop over the batches, of 10 nodes each. The nodes before `from` are started.
unfoldable pub start_batches : ℕ → NodeManager → Events → List ℕ → ℕ → ℕ → NodeManager
unfolding start_batch
start_batches zero m events order from node_count = m
start_batches (suc fuel) m events order from node_count =
    let to = batch_end from node_count in
    let m' = start_batch m events node_count (batch_of order from node_count) in
    let rest =
      start_batches fuel (notify (cluster starting to node_count) m') events order to node_count in
    if ltb from node_count then rest else m

abbrev unlocked : NodeManager → NodeManager
unlocked m = record m { is_locked = false }

-- The rest, once the bootstrap node's process was waited for: its entry and, by its key, its peer's
-- name.
unfoldable pub start_others :
    NodeManager → Events → List ℕ → ℕ → Option ManagedNode → Option String → NodeManager
unfolding start_batches
start_others m events order node_count (some node) (some peer_id) =
    notify (cluster running node_count node_count)
      (record (start_batches node_count m events order 1 node_count) { cluster_status = running })
start_others m events order node_count _ _ = notify (cluster idle 0 node_count) m

unfoldable pub after_bootstrap :
    NodeManager × Option Error → Events → List ℕ → ℕ → Option String → NodeManager
unfolding start_others
after_bootstrap (m, some e) events order node_count peer_id = notify (cluster idle 0 node_count) m
after_bootstrap (m, none) events order node_count peer_id =
    let m' = happen_all m (events m.next) in
    start_others m' events order node_count (get_node m' (node_name 0)) peer_id

unfoldable pub start_cluster_async : NodeManager → Events → List ℕ → ℕ → Option String → NodeManager
unfolding after_bootstrap
start_cluster_async m events order node_count peer_id = unlocked (
    after_bootstrap (start_node_with_total m (node_name 0) true true node_count) events order
      node_count peer_id)

-- the manager once the old processes were waited for; `events` is what happens to them meanwhile
unfoldable pub cleared : NodeManager → List (ℕ × ProcessEvent) → ℕ → NodeManager
unfolding happen_all stop_all_nodes
cleared m events node_count =
    let waited = happen_all (stop_all_nodes (record m { is_locked = true })) events in
    notify (cluster starting 0 node_count)
      (record waited { nodes = []; total_nodes = node_count; cluster_status = starting })

-- Up to the start of the goroutine.
unfoldable pub start_cluster :
    NodeManager → List (ℕ × ProcessEvent) → ℕ → NodeManager × Option Error
start_cluster m events zero = (m, some no_nodes)
start_cluster m events (suc others) =
    if m.is_locked then (m, some in_progress) else (cleared m events (suc others), none)
