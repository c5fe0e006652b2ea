-- ===== src/Supervisor/Proxy/Seed.antt =====
-- What the supervisor answers once the nodes are seeded.
use dtvn.Prelude.Int.{pos}
use dtvn.Prelude.{
  ◌<◌, true, false, ◌==◌, some, List, [], ◌∷◌, ◌≡◌, refl, arith, All, length, nat_eq,
}
use dtvn.Supervisor.Manager.{ManagedNode}
use dtvn.Supervisor.Server.{Server, tickets_seeded, broadcast_ws_message}
use dtvn.Supervisor.Proxy.{Client, Reply, url_of}
use dtvn.Supervisor.Proxy.Forward.{
  seeded, target_url, seed_targets, seed_node, aggregate, handle_proxy_seed_tickets,
}

-- The node answers the request to seed with an error, so that it seeds nothing.
abbrev pub Refuses : Client → ManagedNode → Type 0
Refuses c node =
    (c.is_request "POST" (target_url (url_of node) "/tickets/seed") ≡ true)
    × ((reply : Reply) × (c.send "POST" (target_url (url_of node) "/tickets/seed") "" ≡ some reply)
        × ((reply.status_code == 200) ≡ false)
        × (c.read_seeded reply.body ≡ pos 0))

seed_node-Refuses :
    (c : Client) (node : ManagedNode) → Refuses c node → seed_node c node ≡ some (pos 0)
unfolding seed_node
seed_node-Refuses c node (is_request, (reply, sent, bad, none_read)) =
    rw (is_request, sent, none_read) refl

aggregate-Refuses :
    (c : Client) (targets : List ManagedNode)
    → All (Refuses c) targets
    → aggregate c targets ≡ (pos 0, length targets)
unfolding aggregate
aggregate-Refuses c [] h = refl
aggregate-Refuses c (node ∷ targets) h =
    rw (aggregate, seed_node-Refuses c node h.0, aggregate-Refuses c targets h.1) refl

-- Where one or more nodes are asked to seed, and each answers with another status code than 200
-- and a body that names no count, the supervisor answers with success, and tells its clients that
-- as many nodes were seeded, with 0 tickets in all.
pub handle_proxy_seed_tickets-Refuses :
    (c : Client) (s : Server) (nodes : List ManagedNode)
    → 0 < length (seed_targets c nodes)
    → All (Refuses c) (seed_targets c nodes)
    → handle_proxy_seed_tickets c s nodes ≡ (
      broadcast_ws_message s (tickets_seeded (pos 0) (length (seed_targets c nodes))),
      seeded (pos 0) (length (seed_targets c nodes)),
    )
unfolding handle_proxy_seed_tickets
handle_proxy_seed_tickets-Refuses c s nodes some_target h =
    rw (aggregate-Refuses c (seed_targets c nodes) h) (ground arith)
