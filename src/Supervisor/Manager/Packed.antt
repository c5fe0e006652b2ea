-- ===== src/Supervisor/Manager/Packed.antt =====
-- Ports without gaps: what starting a node of a new name, and the events of processes, keep.
use mathlib.Core.Option
use dtvn.Prelude.{
  ◌≢◌, ℕ, suc, ◌+◌, ◌<◌, String, Bool, false, Option, none, some, List, [], ◌∷◌, ◌≡◌, refl, sym, ap,
  ◌∙◌, ◌==◌, if◌then◌else◌, length, string_eq, nat_eq, arith, Bool-cases, inl, inr,
}
use dtvn.Prelude.GoMap.{GoMap, lookup, insert}
use dtvn.Prelude.GoMap.Laws.{lookup-insert, length-insert}
use dtvn.Supervisor.Manager.{
  NodeManager, ManagedNode, get_node, entry_at, is_taken, clean_up, cleaned, new_node, node_index,
  add_node, start_node_with_total,
}
use dtvn.Supervisor.Manager.Process.{ProcessEvent, after_event, happen_to, happen, happen_all}
use dtvn.Supervisor.Manager.Valid.{
  IsEntry, IsValid, Alike-after_event, start_node_with_total-IsValid, happen-IsValid,
}
use dtvn.Supervisor.Manager.Ports.{get_node-start_node_with_total}

abbrev pub port_in : Option ManagedNode → Option ℕ
port_in = Option.map (λ node. node.port)

abbrev pub port_of : NodeManager → String → Option ℕ
port_of m id = port_in (get_node m id)

-- The ports are below the base and the number of nodes, and no two nodes share one.
abbrev pub IsPacked : NodeManager → Type 0
IsPacked m =
    ((id : String) (port : ℕ) → port_of m id ≡ some port → port < m.base_port + length m.nodes)
    × ((id id' : String) (port : ℕ)
        → port_of m id ≡ some port
        → port_of m id' ≡ some port
        → id ≡ id')

abbrev pub IsSound : NodeManager → Type 0
IsSound m = IsValid m × IsPacked m

port_in-insert :
    (entries : GoMap ℕ ManagedNode) (ref : ℕ) (node node' : ManagedNode) (o : Option ℕ)
    → lookup ref entries ≡ some node
    → node'.port ≡ node.port
    → port_in (entry_at (insert ref node' entries) o) ≡ port_in (entry_at entries o)
port_in-insert entries ref node node' none l e = refl
port_in-insert entries ref node node' (some at) l e = elim (Bool-cases (ref == at)) [
  | inl p ↦
      rw (lookup-insert ref at node' entries, p, sym ((nat_eq.beq_iff ref at).0 p), l) (ap some e)
  | inr p ↦ rw (lookup-insert ref at node' entries, p) refl
]

port_of-happen_to :
    (m : NodeManager) (ref : ℕ) (e : ProcessEvent) (o : Option ManagedNode) (id : String)
    → lookup ref m.entries ≡ o
    → port_of (happen_to m ref e o) id ≡ port_of m id
unfolding happen_to
port_of-happen_to m ref e none id l = refl
port_of-happen_to m ref e (some node) id l =
    port_in-insert m.entries ref node (after_event node e) (lookup id m.nodes) l
      (Alike-after_event node e).1

nodes-happen_to :
    (m : NodeManager) (ref : ℕ) (e : ProcessEvent) (o : Option ManagedNode)
    → ((happen_to m ref e o).nodes ≡ m.nodes) × ((happen_to m ref e o).base_port ≡ m.base_port)
unfolding happen_to
nodes-happen_to m ref e none = (refl, refl)
nodes-happen_to m ref e (some node) = (refl, refl)

module _ (m : NodeManager) (e : ℕ × ProcessEvent) where
  port_of-happen : (id : String) → port_of (happen m e) id ≡ port_of m id
  unfolding happen
  port_of-happen id = port_of-happen_to m e.0 e.1 (lookup e.0 m.entries) id refl

  happen-IsPacked : IsPacked m → IsPacked (happen m e)
  unfolding happen
  happen-IsPacked (low, apart) =
      let (nodes, base) = nodes-happen_to m e.0 e.1 (lookup e.0 m.entries) in
      (
        (λ id port l. rw (nodes, base) (low id port (sym (port_of-happen id) ∙ l))),
        (λ id id' port l l'.
            apart id id' port (sym (port_of-happen id) ∙ l) (sym (port_of-happen id') ∙ l')),
      )

pub happen_all-IsSound :
    (m : NodeManager) (events : List (ℕ × ProcessEvent)) → IsSound m → IsSound (happen_all m events)
unfolding happen_all
happen_all-IsSound m [] s = s
happen_all-IsSound m (e ∷ events) (v, p) =
    happen_all-IsSound (happen m e) events (happen-IsValid m e v, happen-IsPacked m e p)

pub port_of-happen_all :
    (m : NodeManager) (events : List (ℕ × ProcessEvent)) (id : String)
    → port_of (happen_all m events) id ≡ port_of m id
unfolding happen_all
port_of-happen_all m [] id = refl
port_of-happen_all m (e ∷ events) id =
    port_of-happen_all (happen m e) events id ∙ port_of-happen m e id

has_port :
    (base base_api : ℕ) (id : String) (o : Option ManagedNode)
    → IsEntry base base_api id o
    → port_in o ≢ none
has_port base base_api id none entry h = entry
has_port base base_api id (some node) entry h = cc

-- a name without a port is not bound
unbound :
    (m : NodeManager) (id : String) (o : Option ℕ)
    → lookup id m.nodes ≡ o
    → IsValid m
    → port_of m id ≡ none
    → lookup id m.nodes ≡ none
unbound m id none l v h = l
unbound m id (some ref) l v h =
    absurd
      (has_port m.base_port m.base_api_port id (lookup ref m.entries) (v id ref l).1 (rw l at h))

module _ (m : NodeManager) (id : String) (p b : Bool) (total : ℕ) (s : IsSound m)
    (fresh : port_of m id ≡ none) where
  bare : lookup id m.nodes ≡ none
  bare = unbound m id (lookup id m.nodes) refl s.0 fresh

  clean_up_bare : clean_up m id ≡ m
  unfolding cleaned
  clean_up_bare = rw bare refl

  free : is_taken (get_node m id) ≡ false
  free = rw bare refl

  port-new_node_bare : (new_node (clean_up m id) id p b).port ≡ m.base_port + length m.nodes
  unfolding new_node node_index
  port-new_node_bare = ap (λ m'. (new_node m' id p b).port) clean_up_bare ∙ (rw bare refl)

  nodes-start :
      ((start_node_with_total m id p b total).0.nodes ≡ insert id m.next m.nodes)
      × ((start_node_with_total m id p b total).0.base_port ≡ m.base_port)
  unfolding start_node_with_total add_node cleaned
  nodes-start = rw bare (refl, refl)

  pub port_of-start :
      (other : String)
      → port_of (start_node_with_total m id p b total).0 other
        ≡ (if id == other then some (m.base_port + length m.nodes) else port_of m other)
  port_of-start other =
      ap port_in (get_node-start_node_with_total m id other p b total s.0).0
      ∙ elim (Bool-cases (id == other)) [
        | inl e ↦ rw (free, e) (ap some port-new_node_bare)
        | inr e ↦ rw (free, e) refl
      ]

  length-start : length (start_node_with_total m id p b total).0.nodes ≡ suc (length m.nodes)
  length-start = rw (nodes-start.0, length-insert id m.next m.nodes, bare) refl

  start-IsPacked : IsPacked (start_node_with_total m id p b total).0
  start-IsPacked =
      let (low, apart) = s.1 in
      (
        (λ j port l. ground (arith, port_of-start j, low j port, nodes-start.1, length-start)),
        (λ i j port l l'. ground (
          arith,
          port_of-start i,
          port_of-start j,
          low i port,
          low j port,
          apart i j port,
          string_eq.beq_iff id i,
          string_eq.beq_iff id j,
        )),
      )

  pub start-IsSound : IsSound (start_node_with_total m id p b total).0
  start-IsSound = (start_node_with_total-IsValid m id p b total s.0, start-IsPacked)
