-- ===== src/Supervisor/Proxy/Forward.antt =====
-- pkg/supervisor/proxy.go: what is sent to the node that was chosen, and what is answered.
use Prim.Native.String.{◌++◌ as str_append}
use dtvn.Prelude.Int.{ℤ, pos, add_int64}
use dtvn.Prelude.{
  ℕ, suc, String, Bool, ◌&&◌, ◌==◌, Option, none, some, List, [], ◌∷◌, ◌⊎◌, inl, inr, if◌then◌else◌,
  nat_eq, string_eq,
}
use dtvn.Supervisor.Manager.{ManagedNode, is_running, get_node}
use dtvn.Supervisor.Server.{Server, Message, ticket_event, tickets_seeded, broadcast_ws_message}
use dtvn.Supervisor.Proxy.{
  Reply, Client, ProxyError, url_of, is_node_reachable, get_running_node_url, get_primary_node_url,
}

-- An error with its status code, an error of the choice of a node, a node's answer, or the sum and
-- the number of the nodes that were seeded.
pub data Response : Type 0 where
  failed : ℕ → String → Response
  unavailable : ProxyError → Response
  forwarded : Reply → Response
  seeded : ℤ → ℕ → Response

-- the answer of a node to a request, and a message if it is one of success
abbrev pub after_reply : Server → Option Reply → Message → Server × Response
after_reply s none event = (s, failed 502 "Failed to connect to validator node")
after_reply s (some reply) event =
    (if reply.status_code == 200 then broadcast_ws_message s event else s, forwarded reply)

abbrev pub target_url : String → String → String
target_url node_url endpoint = str_append node_url (str_append "/api/v1" endpoint)

-- A body that cannot be read is none.
unfoldable pub proxy_to :
    Client → Server → String → String → String → Option String → String → Server × Response
proxy_to c s node_url method endpoint none event_type =
    (s, failed 400 "Failed to read request body")
proxy_to c s node_url method endpoint (some body) event_type =
    if c.is_request method (target_url node_url endpoint)
    then after_reply s (c.send method (target_url node_url endpoint) body)
        (ticket_event event_type (c.read_ticket_id body) none)
    else (s, failed 500 "Failed to create proxy request")

abbrev pub routed : Server → ProxyError ⊎ String → (String → Server × Response) → Server × Response
routed s (inl e) go = (s, unavailable e)
routed s (inr url) go = go url

unfoldable pub proxy_ticket_request :
    Client
    → Server
    → List ManagedNode
    → String
    → String
    → Option String
    → String
    → Server × Response
unfolding proxy_to
proxy_ticket_request c s nodes method endpoint body event_type =
    routed s (get_primary_node_url c nodes)
      (λ url. proxy_to c s url method endpoint body event_type)

-- `handleProxyValidateTicketViaNode`, from the look-up of the node on
unfoldable pub validate_via :
    Client → Server → String → String → Option ManagedNode → Server × Response
validate_via c s ticket_id node_id none = (s, failed 404 (str_append "Node not found: " node_id))
validate_via c s ticket_id node_id (some node) =
    let target = target_url (url_of node) "/tickets/validate" in
    if is_running node.status
    then if is_node_reachable c (url_of node)
      then if c.is_request "POST" target
        then after_reply s (c.send "POST" target (c.validate_body ticket_id))
            (ticket_event "ticket_validated" ticket_id (some node_id))
        else (s, failed 500 "Failed to create proxy request")
      else (s, failed 503 "Node is not reachable yet")
    else (s, failed 503 "Node is not running")

abbrev is_empty : String → Bool
is_empty s = s == ""

unfoldable pub validate_ticket_via_node : Client → Server → Option String → Server × Response
unfolding validate_via
validate_ticket_via_node c s none = (s, failed 400 "Failed to read request body")
validate_ticket_via_node c s (some body) = elim (c.read_target body) [
  | none ↦ (s, failed 400 "Invalid request body")
  | some (ticket_id, node_id) ↦
      if is_empty ticket_id
      then (s, failed 400 "ticket_id is required")
      else if is_empty node_id
      then (s, failed 400 "node_id is required")
      else validate_via c s ticket_id node_id (get_node s.node_manager node_id)
]

-- `proxyRequest` once there is a URL; a read is not broadcast
unfoldable pub read_from : Client → String → String → String → Option String → Response
read_from c node_url method endpoint none = failed 500 "Failed to read request body"
read_from c node_url method endpoint (some body) =
    if c.is_request method (target_url node_url endpoint)
    then elim (c.send method (target_url node_url endpoint) body) [
      | none ↦ failed 502 "Failed to connect to validator node"
      | some reply ↦ forwarded reply
    ]
    else failed 500 "Failed to create proxy request"

abbrev pub read_at : Client → ProxyError ⊎ String → String → String → Option String → Response
read_at c (inl e) method endpoint body =
    failed 503 "No running nodes available. Start a cluster first."
read_at c (inr url) method endpoint body = read_from c url method endpoint body

unfoldable pub proxy_request :
    Client → List ManagedNode → String → String → Option String → Response
unfolding read_from
proxy_request c nodes method endpoint body =
    read_at c (get_running_node_url c nodes) method endpoint body

abbrev pub or_running : ProxyError ⊎ String → ProxyError ⊎ String → ProxyError ⊎ String
or_running (inl e) running = running
or_running (inr url) running = inr url

unfoldable pub proxy_request_to_primary :
    Client → List ManagedNode → String → String → Option String → Response
unfolding read_from
proxy_request_to_primary c nodes method endpoint body =
    read_at c (or_running (get_primary_node_url c nodes) (get_running_node_url c nodes)) method
      endpoint body

-- the nodes that are asked to seed
unfoldable pub seed_targets : Client → List ManagedNode → List ManagedNode
seed_targets c [] = []
seed_targets c (node ∷ nodes) =
    let targets = seed_targets c nodes in
    if is_running node.status && is_node_reachable c (url_of node) then node ∷ targets else targets

-- what a node says that it seeded, whatever the status code of its answer
unfoldable pub seed_node : Client → ManagedNode → Option ℤ
seed_node c node =
    let target = target_url (url_of node) "/tickets/seed" in
    if c.is_request "POST" target
    then elim (c.send "POST" target "") [
      | none ↦ none
      | some reply ↦ some (c.read_seeded reply.body)
    ]
    else none

-- the sum, and the number of nodes that answered
unfoldable pub aggregate : Client → List ManagedNode → ℤ × ℕ
unfolding seed_node
aggregate c [] = (pos 0, 0)
aggregate c (node ∷ targets) =
    let (total, count) = aggregate c targets in
    elim (seed_node c node) [ none ↦ (total, count) | some n ↦ (add_int64 n total, suc count) ]

unfoldable pub handle_proxy_seed_tickets : Client → Server → List ManagedNode → Server × Response
unfolding aggregate seed_targets
handle_proxy_seed_tickets c s nodes =
    let (total, count) = aggregate c (seed_targets c nodes) in
    if count == 0
    then (s, failed 503 "No running nodes available or failed to seed")
    else (broadcast_ws_message s (tickets_seeded total count), seeded total count)
