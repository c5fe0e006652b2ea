-- ===== src/Supervisor/Proxy.antt =====
-- pkg/supervisor/proxy.go: which node a request of a client is passed on to, and what is answered.
-- net/http and encoding/json are a `Client`; the nodes answer one thing while a request is handled.
-- The headers of an answer, that the size of a body has a limit, and who sends are left out, and
-- the texts of errors are shortened.
pub mod Primary
pub mod Forward
pub mod Route
pub mod Seed
use Prim.Native.String.{◌++◌ as str_append}
use dtvn.Prelude.{
  ℕ, zero, suc, ◌+◌, String, Bool, true, false, ◌&&◌, ◌==◌, Option, none, some, List, [], ◌∷◌, ◌⊎◌,
  inl, inr, if◌then◌else◌, length, nat_eq, string_eq,
}
use dtvn.Prelude.Int.{ℤ, pos}
use dtvn.Prelude.Decimal.{format_int}
use dtvn.Prelude.GoMap.{GoMap, lookup}
use dtvn.Supervisor.Manager.{NodeManager, ManagedNode, NodeStatus, is_running, get_node}
use dtvn.Supervisor.Server.{Server, Message, ticket_event, tickets_seeded, broadcast_ws_message}

pub record Reply : Type 0 where
  pub status_code : ℕ
  pub body : String

-- `get` and `send` are `proxyClient.Do`, the latter by method, URL and body, `is_request` says
-- whether `http.NewRequest` takes a method and a URL, and the rest is what `encoding/json` reads.
pub record Client : Type 0 where
  pub get : String → Option Reply
  pub is_request : String → String → Bool
  pub send : String → String → String → Option Reply
  pub read_is_primary : String → Option Bool
  pub read_ticket_id : String → String
  pub read_target : String → Option (String × String)
  pub read_seeded : String → ℤ
  pub validate_body : String → String

-- the copies, in the order of the map
abbrev pub all_nodes : GoMap ℕ ManagedNode → GoMap String ℕ → List ManagedNode
all_nodes entries [] = []
all_nodes entries ((id, ref) ∷ nodes) = elim (lookup ref entries) [
  | none ↦ all_nodes entries nodes
  | some node ↦ node ∷ all_nodes entries nodes
]

abbrev pub get_all_nodes : NodeManager → List ManagedNode
get_all_nodes m = all_nodes m.entries m.nodes

abbrev pub url_of : ManagedNode → String
url_of node = str_append "http://127.0.0.1:" (format_int (pos node.api_port))

abbrev is_ok : Option Reply → Bool
is_ok none = false
is_ok (some reply) = reply.status_code == 200

unfoldable pub is_node_reachable : Client → String → Bool
is_node_reachable c base_url = is_ok (c.get (str_append base_url "/health"))

abbrev pub primary_in : Client → Option Reply → Option Bool
primary_in c none = none
primary_in c (some reply) = if reply.status_code == 200 then c.read_is_primary reply.body else none

unfoldable pub check_node_is_primary : Client → String → Option Bool
check_node_is_primary c base_url = primary_in c (c.get (str_append base_url "/api/v1/stats"))

pub data ProxyError : Type 0 where
  starting_up no_running_nodes primary_starting_up no_primary : ProxyError
  primary_not_running : NodeStatus → ProxyError

-- `primaryURL`, `fallbackURL` and `hasRunningNodes`
pub record Candidates : Type 0 where
  pub primary_url : Option String
  pub fallback_url : Option String
  pub has_running_nodes : Bool

abbrev pub or_first : Option String → String → Option String
or_first none url = some url
or_first (some first) url = some first

unfoldable pub consider : Client → Candidates → ManagedNode → Candidates
consider c found node =
    let url = url_of node in
    let found' = record found { has_running_nodes = true } in
    if is_running node.status
    then if is_node_reachable c url
      then if node.is_primary
        then record found' { primary_url = some url }
        else record found' { fallback_url = or_first found.fallback_url url }
      else found'
    else found

unfoldable pub consider_all : Client → Candidates → List ManagedNode → Candidates
unfolding consider
consider_all c found [] = found
consider_all c found (node ∷ nodes) = consider_all c (consider c found node) nodes

abbrev pub chosen : Option String → Option String → Bool → ProxyError ⊎ String
chosen (some url) fallback is_any = inr url
chosen none (some url) is_any = inr url
chosen none none true = inl starting_up
chosen none none false = inl no_running_nodes

unfoldable pub get_running_node_url : Client → List ManagedNode → ProxyError ⊎ String
unfolding consider_all
get_running_node_url c nodes =
    let found =
      consider_all c (record { primary_url = none; fallback_url = none; has_running_nodes = false })
        nodes in
    chosen found.primary_url found.fallback_url found.has_running_nodes

-- the first loop: a running node that says it is the primary
abbrev pub says_primary : Option Bool → Bool
says_primary none = false
says_primary (some is_primary) = is_primary

abbrev pub is_claimant : Client → ManagedNode → Bool
is_claimant c node = is_running node.status && says_primary (check_node_is_primary c (url_of node))

-- the second loop: the first node that is marked as the primary
unfoldable pub find_marked : Client → List ManagedNode → ProxyError ⊎ String
find_marked c [] = inl no_primary
find_marked c (node ∷ nodes) =
    let url = url_of node in
    let at_node =
      if is_running node.status
      then if is_node_reachable c url then inr url else inl primary_starting_up
      else inl (primary_not_running node.status) in
    if node.is_primary then at_node else find_marked c nodes

unfoldable pub find_claimant : Client → List ManagedNode → Option String
find_claimant c [] = none
find_claimant c (node ∷ nodes) =
    if is_claimant c node then some (url_of node) else find_claimant c nodes

abbrev pub or_marked : Option String → ProxyError ⊎ String → ProxyError ⊎ String
or_marked (some url) marked = inr url
or_marked none marked = marked

unfoldable pub get_primary_node_url : Client → List ManagedNode → ProxyError ⊎ String
unfolding find_claimant find_marked
get_primary_node_url c nodes = or_marked (find_claimant c nodes) (find_marked c nodes)
