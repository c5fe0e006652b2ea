-- ===== src/Examples/Server.antt =====
-- A supervisor of three nodes, of which the third runs, and says that it is the primary.
use dtvn.Prelude.Int.{pos}
use dtvn.Prelude.{
  length, String, Bool, true, false, ◌==◌, Option, none, some, List, [], ◌∷◌, ◌≡◌, refl, string_eq,
  arith,
}
use dtvn.Prelude.GoMap.{lookup}
use dtvn.Supervisor.Manager.{ManagedNode, NodeStatus, get_node}
use dtvn.Supervisor.Manager.Process.{exited}
use dtvn.Supervisor.Server.{
  Server, broadcast_ws_message, tickets_seeded, refresh_primary_status, handle_restart_node,
}
use dtvn.Supervisor.Server
use dtvn.Supervisor.Server.Primary.{shown, get_node-refresh_primary_status}
use dtvn.Supervisor.Server.Restart.{IsHandled, handle_restart_node-IsHandled}
use dtvn.Supervisor.Server.Throttle.{
  Call, times_passed, times_of, spaced_out, IsSpaced, times_passed-new,
}
use dtvn.Supervisor.Proxy.{Client, Reply, get_all_nodes, is_node_reachable}
use dtvn.Supervisor.Proxy.Forward.{
  proxy_ticket_request, handle_proxy_seed_tickets, seed_targets, seeded,
}
use dtvn.Supervisor.Proxy.Seed.{handle_proxy_seed_tickets-Refuses}
use dtvn.Supervisor.Proxy.Route.{IsRouted, proxy_ticket_request-IsRouted}
use dtvn.Examples.Clock.{differ}
use dtvn.Examples.Supervisor.{managed, manager, manager-IsValid}

abbrev server : Server
server = record { node_manager = manager; ws_broadcast = []; output_throttle = [] }

abbrev ok_reply : String → Option Reply
ok_reply text = some (record { status_code = 200; body = text })

abbrev client : Client
client = record {
  get = λ url. ok_reply "yes";
  is_request = λ method url. true;
  send = λ method url body. ok_reply "done";
  read_is_primary = λ text. some (text == "yes");
  read_ticket_id = λ text. text;
  read_target = λ text. none;
  read_seeded = λ text. pos 0;
  validate_body = λ ticket_id. ticket_id;
}

abbrev results : List (String × Bool)
results = ("node2", true) ∷ ("node0", false) ∷ []

abbrev calls : List Call
calls =
    (0, "node2", "a")
    ∷ (10, "node1", "b")
    ∷ (30000000, "node2", "c")
    ∷ (60000000, "node2", "d")
    ∷ []

get_node-refresh_primary_status_example :
    get_node (refresh_primary_status server results).node_manager "node2"
    ≡ shown (lookup "node2" results) (get_node manager "node2")
get_node-refresh_primary_status_example =
    get_node-refresh_primary_status server results "node2" manager-IsValid
      ((differ "node0" "node2" refl, tt), (tt, tt))

handle_restart_node-IsHandled_example :
    IsHandled "node2"
      ((2, exited none) ∷ [])
      (get_node manager "node2")
      server
      (handle_restart_node server ((2, exited none) ∷ []) "node2")
handle_restart_node-IsHandled_example =
    handle_restart_node-IsHandled server ((2, exited none) ∷ []) "node2" manager-IsValid

times_passed-new_example :
    (times_passed "node2" Server.new calls ≡ spaced_out none (times_of "node2" calls))
    × IsSpaced (times_passed "node2" Server.new calls)
times_passed-new_example = times_passed-new "node2" calls

proxy_ticket_request-IsRouted_example :
    IsRouted client server
      (get_all_nodes manager)
      "POST"
      "/tickets/consume"
      (some "t1")
      "ticket_consumed"
      (proxy_ticket_request client server
        (get_all_nodes manager)
        "POST"
        "/tickets/consume"
        (some "t1")
        "ticket_consumed")
proxy_ticket_request-IsRouted_example =
    proxy_ticket_request-IsRouted client server (get_all_nodes manager) "POST" "/tickets/consume"
      (some "t1") "ticket_consumed"

-- the nodes ask for another key
abbrev refusing : Client
refusing = record client {
  send = λ method url body. some (record { status_code = 401; body = "" });
}

abbrev nodes : List ManagedNode
nodes = managed "node2" 4003 9003 NodeStatus.running ∷ []

handle_proxy_seed_tickets-Refuses_example : handle_proxy_seed_tickets refusing server nodes ≡ (
  broadcast_ws_message server (tickets_seeded (pos 0) (length (seed_targets refusing nodes))),
  seeded (pos 0) (length (seed_targets refusing nodes)),
)
unfolding seed_targets is_node_reachable
handle_proxy_seed_tickets-Refuses_example =
    handle_proxy_seed_tickets-Refuses refusing server nodes (omega arith)
      ((refl, (record { status_code = 401; body = "" }, refl, refl, refl)), tt)
