-- ===== src/Supervisor/Proxy/Route.antt =====
-- What the supervisor tells its clients of a ticket that a node has changed.
use mathlib.Core.Path.{subst}
use dtvn.Prelude.{
  String, Bool, false, ◌==◌, Option, none, some, List, ◌⊎◌, inl, inr, ◌≡◌, refl, Bool-cases, nat_eq,
}
use dtvn.Supervisor.Manager.{ManagedNode}
use dtvn.Supervisor.Server.{Server, Message, ticket_event, broadcast_ws_message}
use dtvn.Supervisor.Proxy.{Client, Reply, ProxyError, url_of, get_primary_node_url}
use dtvn.Supervisor.Proxy.Forward.{
  Response, forwarded, target_url, after_reply, proxy_to, routed, proxy_ticket_request,
}
use dtvn.Supervisor.Proxy.Primary.{IsPrimaryNode, IsPrimaryUrl, get_primary_node_url-IsPrimaryUrl}

-- A node at the URL was sent the request, answered it with 200, and the clients are told so.
abbrev pub IsTold :
    Client → Server → String → String → String → Option String → String → Server × Response → Type 0
IsTold c s url method endpoint body event_type (s', response) =
    (text : String) × (reply : Reply) × (body ≡ some text)
    × (c.send method (target_url url endpoint) text ≡ some reply)
    × (reply.status_code ≡ 200)
    × (response ≡ forwarded reply)
    × (s' ≡ broadcast_ws_message s (ticket_event event_type (c.read_ticket_id text) none))

-- the answer of a success
abbrev pub is_success : Response → Bool
is_success (forwarded reply) = reply.status_code == 200
is_success _ = false

-- Nothing is told, and no success is answered.
abbrev pub IsQuiet : Server → Server × Response → Type 0
IsQuiet s (s', response) = (s' ≡ s) × (is_success response ≡ false)

abbrev pub IsRouted :
    Client
    → Server
    → List ManagedNode
    → String
    → String
    → Option String
    → String
    → Server × Response
    → Type 0
IsRouted c s nodes method endpoint body event_type result =
    IsQuiet s result
    ⊎ ((node : ManagedNode) × IsPrimaryNode c nodes node
        × IsTold c s (url_of node) method endpoint body event_type result)

proxy_to-IsTold :
    (c : Client) (s : Server) (url method endpoint : String) (body : Option String)
    (event_type : String)
    → IsQuiet s (proxy_to c s url method endpoint body event_type)
      ⊎ IsTold c s url method endpoint body event_type
          (proxy_to c s url method endpoint body event_type)
unfolding proxy_to
proxy_to-IsTold c s url method endpoint none event_type = inl (refl, refl)
proxy_to-IsTold c s url method endpoint (some text) event_type =
    elim (Bool-cases (c.is_request method (target_url url endpoint))) [
      | inr e ↦ rw e (inl (refl, refl))
      | inl e ↦ rw e (go (c.send method (target_url url endpoint) text) refl)
    ]
  where
    event : Message
    event = ticket_event event_type (c.read_ticket_id text) none

    go :
        (o : Option Reply)
        → c.send method (target_url url endpoint) text ≡ o
        → IsQuiet s (after_reply s o event)
          ⊎ IsTold c s url method endpoint (some text) event_type (after_reply s o event)
    go none sent = inl (refl, refl)
    go (some reply) sent = elim (Bool-cases (reply.status_code == 200)) [
      | inl e ↦
          rw e
            (inr (text, reply, refl, sent, (nat_eq.beq_iff reply.status_code 200).0 e, refl, refl))
      | inr e ↦ rw e (inl (refl, refl))
    ]

-- A request to change a ticket either has nothing told to the clients of the supervisor, and its
-- answer is not a node's success, or was answered with 200 by a node that runs and says that it is
-- the primary or, where none does, by one that is marked as the primary, runs and can be reached.
-- Then that answer is passed on, and the clients are told which ticket it was.
pub proxy_ticket_request-IsRouted :
    (c : Client) (s : Server) (nodes : List ManagedNode) (method endpoint : String)
    (body : Option String) (event_type : String)
    → IsRouted c s nodes method endpoint body event_type
        (proxy_ticket_request c s nodes method endpoint body event_type)
unfolding proxy_ticket_request
proxy_ticket_request-IsRouted c s nodes method endpoint body event_type =
    go (get_primary_node_url c nodes) (get_primary_node_url-IsPrimaryUrl c nodes)
  where
    result : ProxyError ⊎ String → Server × Response
    result r = routed s r (λ url. proxy_to c s url method endpoint body event_type)

    go :
        (r : ProxyError ⊎ String)
        → IsPrimaryUrl c nodes r
        → IsRouted c s nodes method endpoint body event_type (result r)
    go (inl e) found = inl (refl, refl)
    go (inr url) (node, is_primary, at) =
        elim (proxy_to-IsTold c s url method endpoint body event_type) [
          | inl quiet ↦ inl quiet
          | inr told ↦ inr (
            node,
            is_primary,
            subst (λ u. IsTold c s u method endpoint body event_type (result (inr url))) at told,
          )
        ]
