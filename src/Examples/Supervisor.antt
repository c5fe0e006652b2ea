-- ===== src/Examples/Supervisor.antt =====
-- A manager with three nodes, of which the first has stopped and the second is stopping, and the
-- start of a cluster.
use dtvn.Prelude.{
  ℕ, zero, suc, ◌≤◌, ◌<◌, String, true, false, none, some, List, [], ◌∷◌, ◌≡◌, refl, string_eq,
  nat_eq, arith,
}
use dtvn.Prelude.GoMap.{lookup, insert}
use dtvn.Supervisor.Buffer.{get_lines}
use dtvn.Supervisor.Buffer
use dtvn.Supervisor.Buffer.Last.{last, write_all, get_lines-write_all-new}
use dtvn.Supervisor.Manager.{
  ManagedNode, NodeManager, NodeStatus, stopped, get_node, start_node, start_node_with_total, new,
  cleaned, stop_node,
}
use dtvn.Supervisor.Manager
use dtvn.Supervisor.Manager.Process.{started, exited, happen}
use dtvn.Supervisor.Manager.Valid.{IsValid}
use dtvn.Supervisor.Manager.Runs.{Op, start, stop, process, run, run-new-IsValid}
use dtvn.Supervisor.Manager.Cluster.{start_cluster, start_cluster_async, Events}
use dtvn.Supervisor.Manager.Cluster.Ports.{IsCluster, contains, start_cluster_lem}

abbrev pub managed : String → ℕ → ℕ → NodeStatus → ManagedNode
managed id port api_port status = record {
  id = id;
  port = port;
  api_port = api_port;
  status = status;
  is_primary = false;
  is_bootstrap = false;
  error = "";
  output_buf = record { lines = []; max_lines = 1000 };
  is_cancelled = false;
}

abbrev halted : ManagedNode
halted = record (managed "node1" 4002 9002 NodeStatus.stopping) { is_cancelled = true }

abbrev ops : List Op
ops =
    start "node0" false false 0
    ∷ start "node1" false false 0
    ∷ start "node2" false false 0
    ∷ process (0, started)
    ∷ process (1, started)
    ∷ process (2, started)
    ∷ process (0, exited none)
    ∷ stop "node1"
    ∷ []

abbrev pub manager : NodeManager
manager = record {
  nodes = ("node0", 0) ∷ ("node1", 1) ∷ ("node2", 2) ∷ [];
  entries =
      (0, managed "node0" 4001 9001 stopped)
      ∷ (1, halted)
      ∷ (2, managed "node2" 4003 9003 NodeStatus.running)
      ∷ [];
  next = 3;
  base_port = 4001;
  base_api_port = 9001;
  total_nodes = 3;
  cluster_status = Manager.idle;
  is_locked = false;
  notices = (run (new 0 0) ops).notices;
}

pub manager-IsValid : IsValid manager
unfolding run new start_node_with_total cleaned stop_node happen Buffer.new lookup insert
manager-IsValid = run-new-IsValid 0 0 ops

run-new-IsValid_example : IsValid (run (new 0 0) ops)
run-new-IsValid_example = run-new-IsValid 0 0 ops

-- the goroutines of the batch come to the lock in the order 2, 3, 1, and each process starts at once
abbrev order : List ℕ
order = 2 ∷ 3 ∷ 1 ∷ []

abbrev events : Events
events zero = []
events (suc ref) = (ref, started) ∷ []

order-is_complete : (j : ℕ) → 1 ≤ j → j < 4 → contains order j ≡ true
order-is_complete j low high = ground arith

start_cluster_lem_example : IsCluster 4 (
    start_cluster_async
      (start_cluster manager ((1, exited none) ∷ []) 4).0
      events
      order
      4
      (some "peer"))
unfolding start_cluster
start_cluster_lem_example =
    start_cluster_lem manager ((1, exited none) ∷ []) events order 4 "peer"
      (refl, (refl, (refl, tt))) order-is_complete refl

get_lines-write_all-new_example :
    get_lines (write_all (Buffer.new 2) ("a" ∷ "b" ∷ "c" ∷ [])) ≡ last 2 ("a" ∷ "b" ∷ "c" ∷ [])
get_lines-write_all-new_example = get_lines-write_all-new 2 ("a" ∷ "b" ∷ "c" ∷ [])
