-- ===== src/Supervisor/Proxy/Primary.antt =====
-- The node that a change of a ticket is passed on to.
use dtvn.Prelude.{
  String, Bool, true, false, Option, none, some, List, [], ◌∷◌, ◌⊎◌, inl, inr, if◌then◌else◌, ◌≡◌,
  refl, arith, All, Bool-cases, nat_eq, if_elim,
}
use dtvn.Supervisor.Manager.{ManagedNode, is_running}
use dtvn.Supervisor.Proxy.{
  Client, ProxyError, primary_starting_up, primary_not_running, url_of, is_node_reachable,
  is_claimant, find_claimant, find_marked, or_marked, get_primary_node_url, says_primary,
  check_node_is_primary,
}

abbrev pub Among : ManagedNode → List ManagedNode → Type 0
Among node [] = ⊥
Among node (other ∷ nodes) = (node ≡ other) ⊎ Among node nodes

-- a node that runs and says that it is the primary
abbrev pub Claims : Client → ManagedNode → Type 0
Claims c node =
    (is_running node.status ≡ true) × (says_primary (check_node_is_primary c (url_of node)) ≡ true)

abbrev pub NoneClaims : Client → List ManagedNode → Type 0
NoneClaims c nodes = All (λ node. ¬ Claims c node) nodes

-- a node that is marked as the primary, runs and can be reached
abbrev pub Serves : Client → ManagedNode → Type 0
Serves c node =
    (node.is_primary ≡ true)
    × (is_running node.status ≡ true)
    × (is_node_reachable c (url_of node) ≡ true)

abbrev pub IsPrimaryNode : Client → List ManagedNode → ManagedNode → Type 0
IsPrimaryNode c nodes node =
    Among node nodes × (Claims c node ⊎ (NoneClaims c nodes × Serves c node))

abbrev pub IsPrimaryUrl : Client → List ManagedNode → ProxyError ⊎ String → Type 0
IsPrimaryUrl c nodes (inr url) =
    (node : ManagedNode) × IsPrimaryNode c nodes node × (url ≡ url_of node)
IsPrimaryUrl c nodes (inl e) =
    NoneClaims c nodes
    × (All (λ node. node.is_primary ≡ false) nodes
        ⊎ ((node : ManagedNode) × Among node nodes × (node.is_primary ≡ true) × ¬ Serves c node))

abbrev IsClaimant : Client → List ManagedNode → Option String → Type 0
IsClaimant c nodes none = NoneClaims c nodes
IsClaimant c nodes (some url) =
    (node : ManagedNode) × Among node nodes × Claims c node × (url ≡ url_of node)

IsClaimant-cons :
    (c : Client) (node : ManagedNode) (nodes : List ManagedNode) (o : Option String)
    → ¬ Claims c node
    → IsClaimant c nodes o
    → IsClaimant c (node ∷ nodes) o
IsClaimant-cons c node nodes none not_it h = (not_it, h)
IsClaimant-cons c node nodes (some url) not_it (found, among, x, y) = (found, inr among, x, y)

find_claimant-IsClaimant :
    (c : Client) (nodes : List ManagedNode) → IsClaimant c nodes (find_claimant c nodes)
unfolding find_claimant
find_claimant-IsClaimant c [] = tt
find_claimant-IsClaimant c (node ∷ nodes) = elim (Bool-cases (is_claimant c node)) [
  | inl e ↦ rw e (node, inl refl, (ground arith), refl)
  | inr e ↦ rw e (
      IsClaimant-cons c node nodes (find_claimant c nodes) (λ h. ground arith)
        (find_claimant-IsClaimant c nodes))
]

abbrev IsMarked : Client → List ManagedNode → ProxyError ⊎ String → Type 0
IsMarked c nodes (inr url) =
    (node : ManagedNode) × Among node nodes × Serves c node × (url ≡ url_of node)
IsMarked c nodes (inl e) =
    All (λ node. node.is_primary ≡ false) nodes
    ⊎ ((node : ManagedNode) × Among node nodes × (node.is_primary ≡ true) × ¬ Serves c node)

IsMarked-cons :
    (c : Client) (node : ManagedNode) (nodes : List ManagedNode) (r : ProxyError ⊎ String)
    → node.is_primary ≡ false
    → IsMarked c nodes r
    → IsMarked c (node ∷ nodes) r
IsMarked-cons c node nodes (inl e) unmarked (inl all) = inl (unmarked, all)
IsMarked-cons c node nodes (inl e) unmarked (inr (found, among, x, y)) =
    inr (found, inr among, x, y)
IsMarked-cons c node nodes (inr url) unmarked (found, among, x, y) = (found, inr among, x, y)

-- what the first node that is marked gives
abbrev at_first : Client → ManagedNode → ProxyError ⊎ String
at_first c node =
    if is_running node.status
    then if is_node_reachable c (url_of node) then inr (url_of node) else inl primary_starting_up
    else inl (primary_not_running node.status)

at_first-IsMarked :
    (c : Client) (node : ManagedNode) (nodes : List ManagedNode) (runs reachable : Bool)
    → node.is_primary ≡ true
    → is_running node.status ≡ runs
    → is_node_reachable c (url_of node) ≡ reachable
    → IsMarked c (node ∷ nodes) (
        if runs
        then if reachable then inr (url_of node) else inl primary_starting_up
        else inl (primary_not_running node.status))
at_first-IsMarked c node nodes false reachable e f k = inr (node, inl refl, e, (λ h. ground arith))
at_first-IsMarked c node nodes true false e f k = inr (node, inl refl, e, (λ h. ground arith))
at_first-IsMarked c node nodes true true e f k = (node, inl refl, (e, f, k), refl)

find_marked-IsMarked :
    (c : Client) (nodes : List ManagedNode) → IsMarked c nodes (find_marked c nodes)
unfolding find_marked
find_marked-IsMarked c [] = inl tt
find_marked-IsMarked c (node ∷ nodes) =
    if_elim (IsMarked c (node ∷ nodes)) node.is_primary (at_first c node) (find_marked c nodes)
      (λ e.
        at_first-IsMarked c node nodes (is_running node.status) (is_node_reachable c (url_of node))
          e refl refl)
      (λ e. IsMarked-cons c node nodes (find_marked c nodes) e (find_marked-IsMarked c nodes))

chosen :
    (c : Client) (nodes : List ManagedNode) (o : Option String) (r : ProxyError ⊎ String)
    → IsClaimant c nodes o
    → IsMarked c nodes r
    → IsPrimaryUrl c nodes (or_marked o r)
chosen c nodes (some url) r (node, among, claims, e) m = (node, (among, inl claims), e)
chosen c nodes none (inl e) silent m = (silent, m)
chosen c nodes none (inr url) silent (node, among, serves, e) =
    (node, (among, inr (silent, serves)), e)

-- The URL is that of a primary; an error says that there is none.
pub get_primary_node_url-IsPrimaryUrl :
    (c : Client) (nodes : List ManagedNode) → IsPrimaryUrl c nodes (get_primary_node_url c nodes)
unfolding get_primary_node_url
get_primary_node_url-IsPrimaryUrl c nodes =
    chosen c nodes (find_claimant c nodes) (find_marked c nodes) (find_claimant-IsClaimant c nodes)
      (find_marked-IsMarked c nodes)
