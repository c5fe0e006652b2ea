-- ===== src/Supervisor/Server.antt =====
-- pkg/supervisor/server.go, `Server`: the callbacks of the node manager, the handlers of requests
-- about nodes and clusters, and the watch over which node is the primary. A handler is one step, but
-- for what happens to processes while it sleeps. Of an answer, the status code and what the body
-- names are kept, `wsBroadcast` is the list of the messages that wait in it, and times are
-- nanoseconds of the monotonic clock.
pub mod Throttle
pub mod Primary
pub mod Restart
use dtvn.Prelude.{
  ℕ, zero, suc, ◌+◌, ◌-◌, ◌*◌, String, Bool, true, false, ◌==◌, Option, none, some, List, [], ◌∷◌,
  ◌++◌, if◌then◌else◌, ltb, length, string_eq,
}
use dtvn.Prelude.Int.{ℤ, pos, negsuc}
use dtvn.Prelude.GoMap.{GoMap, lookup, insert}
use dtvn.Supervisor.Manager.{
  NodeManager, ManagedNode, NodeStatus, ClusterStatus, Notice, status_of, output_of, cluster, Error,
  get_node, start_node, stop_node, stop_all_nodes, update_primary_status, is_running, get_node_logs,
}
use dtvn.Supervisor.Manager
use dtvn.Supervisor.Manager.Process.{ProcessEvent, happen_all}
use dtvn.Supervisor.Manager.Cluster.{start_cluster}

-- what is broadcast to the clients, without the time
pub data Message : Type 0 where
  node_output : String → String → Message
  node_status : String → NodeStatus → Option ManagedNode → Message
  cluster_status : ClusterStatus → ℕ → ℕ → Message
  ticket_event : String → String → Option String → Message
  tickets_seeded : ℤ → ℕ → Message

pub record Server : Type 0 where
  pub node_manager : NodeManager
  pub ws_broadcast : List Message
  pub output_throttle : GoMap String ℕ

abbrev pub new : Server
new = record { node_manager = Manager.new 0 0; ws_broadcast = []; output_throttle = [] }

-- A full channel drops the message.
unfoldable pub broadcast_ws_message : Server → Message → Server
broadcast_ws_message s message =
    if ltb (length s.ws_broadcast) 512
    then record s { ws_broadcast = s.ws_broadcast ++ (message ∷ []) }
    else s

-- `exists && now.Sub(last) < 50*time.Millisecond`
abbrev pub is_throttled : ℕ → Option ℕ → Bool
is_throttled now none = false
is_throttled now (some last) = ltb (now - last) (50 * 1000000)

-- The result says whether the line is handed to the broadcast.
unfoldable pub output_callback : Server → ℕ → String → String → Server × Bool
unfolding broadcast_ws_message
output_callback s now node_id line =
    let marked = record s { output_throttle = insert node_id now s.output_throttle } in
    if is_throttled now (lookup node_id s.output_throttle)
    then (s, false)
    else (broadcast_ws_message marked (node_output node_id line), true)

unfoldable pub status_callback : Server → String → NodeStatus → Server
unfolding broadcast_ws_message
status_callback s node_id status =
    broadcast_ws_message s (node_status node_id status (get_node s.node_manager node_id))

unfoldable pub cluster_callback : Server → ClusterStatus → ℕ → ℕ → Server
unfolding broadcast_ws_message
cluster_callback s status nodes_started nodes_total =
    broadcast_ws_message s (cluster_status status nodes_started nodes_total)

-- what the manager calls
unfoldable pub callback : Server → ℕ → Notice → Server
unfolding output_callback status_callback cluster_callback
callback s now (status_of node_id status) = status_callback s node_id status
callback s now (output_of node_id line) = (output_callback s now node_id line).0
callback s now (cluster status nodes_started nodes_total) =
    cluster_callback s status nodes_started nodes_total

-- An error with its status code, an error of the manager, or what was done, to which node or nodes.
pub data Response : Type 0 where
  failed : ℕ → String → Response
  refused : ℕ → Error → Response
  told : String → String → Response
  told_count : String → ℕ → Response
  told_node : ManagedNode → Response
  told_logs : String → List String → Response

abbrev pub with_manager : Server → NodeManager → Server
with_manager s m = record s { node_manager = m }

unfoldable pub handle_get_node : Server → String → Response
handle_get_node s node_id = elim (get_node s.node_manager node_id) [
  | none ↦ refused 404 Manager.not_found
  | some node ↦ told_node node
]

unfoldable pub handle_get_node_logs : Server → String → Response
handle_get_node_logs s node_id = elim (get_node_logs s.node_manager node_id) [
  | none ↦ refused 404 Manager.not_found
  | some logs ↦ told_logs node_id logs
]

-- The answer to what the manager returned.
abbrev pub answer : Server → NodeManager × Option Error → Response → Server × Response
answer s (m, some e) done = (with_manager s m, refused 500 e)
answer s (m, none) done = (with_manager s m, done)

-- The body is the name and the two flags, if it can be decoded; the address of a bootstrap node only
-- goes to the process.
unfoldable pub handle_start_node : Server → Option (String × Bool × Bool) → Server × Response
handle_start_node s none = (s, failed 400 "invalid request body")
handle_start_node s (some (node_id, is_primary, is_bootstrap)) =
    if node_id == ""
    then (s, failed 400 "node_id is required")
    else answer s (start_node s.node_manager node_id is_primary is_bootstrap)
        (told "starting" node_id)

unfoldable pub handle_stop_node : Server → String → Server × Response
handle_stop_node s node_id = answer s (stop_node s.node_manager node_id) (told "stopping" node_id)

-- the start at the end of `handleRestartNode`
unfoldable pub start_again : Server → String → ManagedNode → Server × Response
start_again s node_id node =
    answer s (start_node s.node_manager node_id node.is_primary node.is_bootstrap)
      (told "restarting" node_id)

-- once `StopNode` has returned; `events` is what happens to processes in the second of the wait
unfoldable pub after_stop :
    Server
    → NodeManager × Option Error
    → List (ℕ × ProcessEvent)
    → String
    → ManagedNode
    → Server × Response
unfolding start_again
after_stop s (m, some e) events node_id node = (with_manager s m, refused 500 e)
after_stop s (m, none) events node_id node =
    start_again (with_manager s (happen_all m events)) node_id node

unfoldable pub restart_known :
    Server → List (ℕ × ProcessEvent) → String → ManagedNode → Server × Response
unfolding after_stop start_again
restart_known s events node_id node =
    if is_running node.status
    then after_stop s (stop_node s.node_manager node_id) events node_id node
    else start_again s node_id node

unfoldable pub handle_restart_node : Server → List (ℕ × ProcessEvent) → String → Server × Response
unfolding restart_known
handle_restart_node s events node_id = elim (get_node s.node_manager node_id) [
  | none ↦ (s, refused 404 Manager.not_found)
  | some node ↦ restart_known s events node_id node
]

-- `if req.NodeCount < 1 { req.NodeCount = 4 }`
abbrev pub node_count_or_default : ℤ → ℕ
node_count_or_default (pos zero) = 4
node_count_or_default (pos (suc n)) = suc n
node_count_or_default (negsuc n) = 4

unfoldable pub handle_start_cluster :
    Server → List (ℕ × ProcessEvent) → Option ℤ → Server × Response
handle_start_cluster s events none = (s, failed 400 "invalid request body")
handle_start_cluster s events (some n) =
    let node_count = node_count_or_default n in
    answer s (start_cluster s.node_manager events node_count) (told_count "starting" node_count)

unfoldable pub handle_stop_cluster : Server → Server × Response
handle_stop_cluster s =
    let stopped = stop_all_nodes s.node_manager in (with_manager s stopped, told "stopping" "")

-- a node that answered whether it is the primary
unfoldable pub take_result : Server → String × Bool → Server
unfolding broadcast_ws_message
take_result s (node_id, is_primary) =
    let (m, is_changed) = update_primary_status s.node_manager node_id is_primary in
    let s' = with_manager s m in
    elim (get_node m node_id) [
      | none ↦ s'
      | some node ↦
          if is_changed
          then broadcast_ws_message s' (node_status node_id node.status (some node))
          else s'
    ]

-- the results in the order in which they come
unfoldable pub refresh_primary_status : Server → List (String × Bool) → Server
unfolding take_result
refresh_primary_status s [] = s
refresh_primary_status s (result ∷ results) = refresh_primary_status (take_result s result) results
