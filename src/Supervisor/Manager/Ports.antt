-- ===== src/Supervisor/Manager/Ports.antt =====
-- The ports that the manager gives out.
use mathlib.Core.Bool.{false≢true}
use dtvn.Prelude.{
  ◌≢◌, ℕ, ◌+◌, String, Bool, true, false, Option, none, some, ◌≡◌, refl, sym, ◌∙◌, ◌==◌,
  if◌then◌else◌, length, string_eq, arith, Bool-cases, inl, inr,
}
use dtvn.Prelude.GoMap.{GoMap, lookup, insert, delete}
use dtvn.Prelude.GoMap.Laws.{lookup-insert, lookup-delete}
use dtvn.Supervisor.Manager.Valid.{IsValid}
use dtvn.Prelude.{nat_eq, beq_refl}
use dtvn.Supervisor.Manager.{
  get_node, entry_at, NodeManager, ManagedNode, NodeStatus, stopped, is_active, already_running,
  is_taken, is_over, cleaned, clean_up, new_node, node_index, add_node, start_node,
  start_node_with_total,
}

lookup-cleaned :
    (nodes : GoMap String ℕ) (id other : String) (existing : Option ManagedNode)
    → (id == other) ≡ false
    → lookup other (cleaned nodes id existing) ≡ lookup other nodes
unfolding cleaned
lookup-cleaned nodes id other none ne = refl
lookup-cleaned nodes id other (some node) ne =
    ground
      (arith, lookup-delete id other nodes, string_eq.beq_iff other id, string_eq.beq_iff id other)

-- an entry that a pointer has does not move when a new one is put in the store
entry_at-insert :
    (m : NodeManager) (id : String) (node : ManagedNode) (o : Option ℕ)
    → lookup id m.nodes ≡ o
    → IsValid m
    → entry_at (insert m.next node m.entries) o ≡ entry_at m.entries o
entry_at-insert m id node none l v = refl
entry_at-insert m id node (some ref) l v =
    ground
      (arith, lookup-insert m.next ref node m.entries, (v id ref l).0, nat_eq.beq_iff m.next ref)

get_node-add_node :
    (m : NodeManager) (id other : String) (is_primary is_bootstrap : Bool) (total : ℕ)
    → IsValid m
    → get_node (add_node (clean_up m id) id is_primary is_bootstrap total) other ≡ (
        if id == other
        then some (new_node (clean_up m id) id is_primary is_bootstrap)
        else get_node m other)
unfolding add_node
get_node-add_node m id other is_primary is_bootstrap total v =
    let nodes = (clean_up m id).nodes in
    let node = new_node (clean_up m id) id is_primary is_bootstrap in
    elim (Bool-cases (id == other)) [
      | inl same ↦
          rw (same, lookup-insert id other m.next nodes, same)
            (lookup-insert m.next m.next node m.entries ∙ (rw (beq_refl m.next) refl))
      | inr apart ↦
          rw
            (
              apart,
              lookup-insert id other m.next nodes,
              apart,
              lookup-cleaned m.nodes id other (get_node m id) apart,
            )
            (entry_at-insert m other node (lookup other m.nodes) refl v)
    ]

-- Starting a node is refused exactly if it is active, and then changes no entry. Otherwise it puts the
-- new entry in its place and leaves the entries of all other nodes.
pub get_node-start_node_with_total :
    (m : NodeManager) (id other : String) (is_primary is_bootstrap : Bool) (target_total : ℕ)
    → IsValid m
    → (get_node (start_node_with_total m id is_primary is_bootstrap target_total).0 other ≡ (
        if is_taken (get_node m id)
        then get_node m other
        else if id == other
        then some (new_node (clean_up m id) id is_primary is_bootstrap)
        else get_node m other))
      × ((start_node_with_total m id is_primary is_bootstrap target_total).1
          ≡ (if is_taken (get_node m id) then some already_running else none))
unfolding start_node_with_total
get_node-start_node_with_total m id other is_primary is_bootstrap target_total v =
    elim (Bool-cases (is_taken (get_node m id))) [
      | inl taken ↦ rw taken (refl, refl)
      | inr free ↦
          rw free (get_node-add_node m id other is_primary is_bootstrap target_total v, refl)
    ]

is_active-is_over : (status : NodeStatus) → is_over status ≡ true → is_active status ≡ false
is_active-is_over stopped h = refl
is_active-is_over NodeStatus.error h = refl
is_active-is_over NodeStatus.running h = absurd (false≢true h)
is_active-is_over NodeStatus.starting h = absurd (false≢true h)
is_active-is_over NodeStatus.stopping h = absurd (false≢true h)

lookup-delete_self : (id : String) (nodes : GoMap String ℕ) → lookup id (delete id nodes) ≡ none
lookup-delete_self id nodes = ground (arith, lookup-delete id id nodes, string_eq.beq_iff id id)

port-new_node :
    (m : NodeManager) (id : String) (is_primary is_bootstrap : Bool) (old : ManagedNode)
    → get_node m id ≡ some old
    → is_over old.status ≡ true
    → (new_node (clean_up m id) id is_primary is_bootstrap).port
      ≡ m.base_port + length (delete id m.nodes)
unfolding new_node node_index cleaned
port-new_node m id is_primary is_bootstrap old held over =
    rw (held, over, lookup-delete_self id m.nodes) refl

-- Where a node is stopped or failed, and another has the port that follows those of as many nodes
-- as there are others, starting the first anew gives it the port of the second, which keeps its
-- entry.
start_node-shared_port :
    (m : NodeManager) (id other : String) (is_primary is_bootstrap : Bool) (old node : ManagedNode)
    → IsValid m
    → id ≢ other
    → get_node m id ≡ some old
    → is_over old.status ≡ true
    → get_node m other ≡ some node
    → node.port ≡ m.base_port + length (delete id m.nodes)
    → (started : ManagedNode) × (get_node (start_node m id is_primary is_bootstrap).0 id
        ≡ some started)
      × (get_node (start_node m id is_primary is_bootstrap).0 other ≡ some node)
      × (started.port ≡ node.port)
unfolding start_node
start_node-shared_port m id other is_primary is_bootstrap old node v ne held over known port =
    let free : is_taken (get_node m id) ≡ false = rw held (is_active-is_over old.status over) in
    let at =
      λ (j : String). (get_node-start_node_with_total m id j is_primary is_bootstrap 0 v).0 in
    (
      new_node (clean_up m id) id is_primary is_bootstrap,
      at id ∙ ground (arith, free, string_eq.beq_iff id id),
      at other ∙ ground (arith, free, known, string_eq.beq_iff id other),
      port-new_node m id is_primary is_bootstrap old held over ∙ sym port,
    )
