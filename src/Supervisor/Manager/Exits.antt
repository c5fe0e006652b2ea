-- ===== src/Supervisor/Manager/Exits.antt =====
-- What the events of a process show of its node, and a node that is started while it stops.
use mathlib.Core.Option
use mathlib.Core.Path.{subst}
use dtvn.Prelude.{
  ℕ, ◌+◌, String, Bool, false, Option, none, some, ◌≡◌, refl, ap, ◌∙◌, ◌==◌, if◌then◌else◌,
  string_eq, nat_eq, beq_refl, arith, Bool-cases, inl, inr,
}
use dtvn.Prelude.GoMap.{GoMap, lookup, delete}
use dtvn.Prelude.GoMap.Laws.{lookup-insert, lookup-insert_self}
use dtvn.Supervisor.Manager.{
  NodeManager, ManagedNode, NodeStatus, get_node, entry_at, is_taken, is_active, is_over, cleaned,
  clean_up, node_index, new_node, add_node, start_node, start_node_with_total,
}
use dtvn.Supervisor.Manager.Process.{ProcessEvent, after_event, happen_to, happen}
use dtvn.Supervisor.Manager.Valid.{IsEntry, IsValid}
use dtvn.Supervisor.Manager.Ports.{get_node-start_node_with_total}

-- Whether the pointer of a node is the number.
abbrev pub points_to : Option ℕ → ℕ → Bool
points_to none ref = false
points_to (some at) ref = at == ref

entry_at-happen_to :
    (m : NodeManager) (ref : ℕ) (e : ProcessEvent) (o : Option ManagedNode) (at : Option ℕ)
    → lookup ref m.entries ≡ o
    → entry_at (happen_to m ref e o).entries at ≡ (
        if points_to at ref
        then Option.map (λ node. after_event node e) (entry_at m.entries at)
        else entry_at m.entries at)
unfolding happen_to
entry_at-happen_to m ref e none none l = refl
entry_at-happen_to m ref e (some node) none l = refl
entry_at-happen_to m ref e none (some at) l = elim (Bool-cases (at == ref)) [
  | inl p ↦ rw (p, (nat_eq.beq_iff at ref).0 p, l) refl
  | inr p ↦ rw p refl
]
entry_at-happen_to m ref e (some node) (some at) l = elim (Bool-cases (at == ref)) [
  | inl p ↦
      rw (p, (nat_eq.beq_iff at ref).0 p, lookup-insert_self ref (after_event node e) m.entries, l)
        refl
  | inr p ↦ ground (
    arith,
    lookup-insert ref at (after_event node e) m.entries,
    nat_eq.beq_iff at ref,
    nat_eq.beq_iff ref at,
  )
]

nodes-happen_to :
    (m : NodeManager) (ref : ℕ) (e : ProcessEvent) (o : Option ManagedNode)
    → (happen_to m ref e o).nodes ≡ m.nodes
unfolding happen_to
nodes-happen_to m ref e none = refl
nodes-happen_to m ref e (some node) = refl

-- What happens to a process is shown by the node whose pointer has its entry, and by no other.
pub get_node-happen :
    (m : NodeManager) (ref : ℕ) (e : ProcessEvent) (id : String)
    → get_node (happen m (ref, e)) id ≡ (
        if points_to (lookup id m.nodes) ref
        then Option.map (λ node. after_event node e) (get_node m id)
        else get_node m id)
unfolding happen
get_node-happen m ref e id =
    let m' = happen_to m ref e (lookup ref m.entries) in
    ap (λ (nodes : GoMap String ℕ). entry_at m'.entries (lookup id nodes))
      (nodes-happen_to m ref e (lookup ref m.entries))
    ∙ entry_at-happen_to m ref e (lookup ref m.entries) (lookup id m.nodes) refl

module _ (m : NodeManager) (id : String) (is_primary is_bootstrap : Bool) (ref : ℕ)
    (old : ManagedNode) (v : IsValid m) (bound : lookup id m.nodes ≡ some ref)
    (held : lookup ref m.entries ≡ some old) (ending : old.status ≡ NodeStatus.stopping) where
  known : get_node m id ≡ some old
  known = rw bound held

  free : is_taken (get_node m id) ≡ false
  free = ap is_taken known ∙ ap is_active ending

  kept : clean_up m id ≡ m
  unfolding cleaned
  kept =
      let nodes : cleaned m.nodes id (get_node m id) ≡ m.nodes =
        ap (cleaned m.nodes id) known
        ∙ ap (λ status. if is_over status then delete id m.nodes else m.nodes) ending in
      ap (λ (nodes : GoMap String ℕ). record m { nodes = nodes }) nodes

  new_port : (new_node m id is_primary is_bootstrap).port ≡ old.port
  unfolding new_node node_index
  new_port =
      let entry : IsEntry m.base_port m.base_api_port id (some old) =
        subst (IsEntry m.base_port m.base_api_port id) held (v id ref bound).1 in
      ap (λ o. m.base_port + node_index m o) known ∙ omega (arith, entry.1)

  rebound : lookup id (start_node m id is_primary is_bootstrap).0.nodes ≡ some m.next
  unfolding start_node start_node_with_total add_node
  rebound = rw free (lookup-insert_self id m.next (clean_up m id).nodes)

  shown :
      get_node (start_node m id is_primary is_bootstrap).0 id
      ≡ some (new_node (clean_up m id) id is_primary is_bootstrap)
  unfolding start_node
  shown =
      (get_node-start_node_with_total m id id is_primary is_bootstrap 0 v).0
      ∙ (rw (free, beq_refl id) refl)

  passed : (start_node m id is_primary is_bootstrap).1 ≡ none
  unfolding start_node
  passed = (get_node-start_node_with_total m id id is_primary is_bootstrap 0 v).1 ∙ (rw free refl)

  -- A `Stop` between `Start` and the first step of the goroutine is lost.
  start_node-stopping :
      (started : ManagedNode) × ((start_node m id is_primary is_bootstrap).1 ≡ none)
      × ((e : ProcessEvent)
          → get_node (happen (start_node m id is_primary is_bootstrap).0 (ref, e)) id
            ≡ some started)
      × (started.port ≡ old.port)
      × (started.status ≡ NodeStatus.starting)
  unfolding new_node
  start_node-stopping =
      let m' = (start_node m id is_primary is_bootstrap).0 in
      let apart : (m.next == ref) ≡ false =
        ground (arith, (v id ref bound).0, nat_eq.beq_iff m.next ref) in
      (
        new_node (clean_up m id) id is_primary is_bootstrap,
        passed,
        (λ e.
            get_node-happen m' ref e id
            ∙ ap
                (λ (b : Bool).
                  if b
                  then Option.map (λ node. after_event node e) (get_node m' id)
                  else get_node m' id)
                (ap (λ o. points_to o ref) rebound ∙ apart)
            ∙ shown),
        ap (λ k. (new_node k id is_primary is_bootstrap).port) kept ∙ new_port,
        refl,
      )
