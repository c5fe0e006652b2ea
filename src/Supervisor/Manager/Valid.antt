-- ===== src/Supervisor/Manager/Valid.antt =====
-- The store of entries: what every operation and every event of a process keeps of it.
use mathlib.Core.Path.{subst}
use dtvn.Prelude.{
  ℕ, suc, ◌+◌, ◌≤◌, ◌<◌, String, Bool, false, Option, none, some, List, [], ◌∷◌, ◌≡◌, refl, sym, ap,
  ◌∙◌, ◌==◌, string_eq, nat_eq, beq_refl, arith, Bool-cases, inl, inr,
}
use dtvn.Prelude.GoMap.{GoMap, lookup, insert, delete}
use dtvn.Prelude.GoMap.Laws.{lookup-insert, Each, Each-insert, Each-delete_where}
use dtvn.Supervisor.Manager.{
  NodeManager, ManagedNode, is_taken, is_over, cleaned, clean_up, new_node, node_index, add_node,
  set_entry, start_node_with_total, get_node,
}
use dtvn.Supervisor.Manager.Process.{
  ProcessEvent, after_event, after_exit, happen_to, happen, happen_all, not_started, started, wrote,
  exited,
}

-- The pointer of a node points to an entry of its name, with ports that go in step.
abbrev pub IsEntry : ℕ → ℕ → String → Option ManagedNode → Type 0
IsEntry base_port base_api_port id none = ⊥
IsEntry base_port base_api_port id (some node) =
    (node.id ≡ id)
    × (base_port ≤ node.port)
    × (node.api_port + base_port ≡ base_api_port + node.port)

abbrev pub IsBound : ℕ → ℕ → GoMap ℕ ManagedNode → ℕ → String → ℕ → Type 0
IsBound base_port base_api_port entries next id ref =
    (ref < next) × IsEntry base_port base_api_port id (lookup ref entries)

abbrev pub IsValid : NodeManager → Type 0
IsValid m = Each (IsBound m.base_port m.base_api_port m.entries m.next) m.nodes

-- what no write to an entry changes
abbrev pub Alike : ManagedNode → ManagedNode → Type 0
Alike node node' =
    (node'.id ≡ node.id) × (node'.port ≡ node.port) × (node'.api_port ≡ node.api_port)

pub set_entry-IsValid :
    (m : NodeManager) (ref : ℕ) (node node' : ManagedNode)
    → lookup ref m.entries ≡ some node
    → Alike node node'
    → IsValid m
    → IsValid (set_entry m ref node')
set_entry-IsValid m ref node node' held alike v id at l =
    let Entry = IsEntry m.base_port m.base_api_port id in
    let (lt, entry) = v id at l in
    elim (Bool-cases (ref == at)) [
      | inl p ↦
          let same_at : lookup at m.entries ≡ some node =
            ap (λ r. lookup r m.entries) (sym ((nat_eq.beq_iff ref at).0 p)) ∙ held in
          let old : Entry (some node) = subst Entry same_at entry in
          (lt, rw (lookup-insert ref at node' m.entries, p) (ground arith))
      | inr p ↦ (lt, rw (lookup-insert ref at node' m.entries, p) entry)
    ]

Each-cleaned :
    (P : String → ℕ → Type 0) (nodes : GoMap String ℕ) (id : String) (existing : Option ManagedNode)
    → Each P nodes
    → Each P (cleaned nodes id existing)
unfolding cleaned delete
Each-cleaned P nodes id none v = v
Each-cleaned P nodes id (some node) v = elim (Bool-cases (is_over node.status)) [
  | inl over ↦ rw over (Each-delete_where P (λ j. j == id) nodes v)
  | inr busy ↦ rw busy v
]

-- an entry stays where a new one is put
IsBound-insert :
    (base base_api : ℕ) (entries : GoMap ℕ ManagedNode) (next : ℕ) (node : ManagedNode)
    (id : String) (ref : ℕ)
    → IsBound base base_api entries next id ref
    → IsBound base base_api (insert next node entries) (suc next) id ref
IsBound-insert base base_api entries next node id ref (lt, entry) =
    let apart : (next == ref) ≡ false = ground (arith, nat_eq.beq_iff next ref) in
    (omega arith, rw (lookup-insert next ref node entries, apart) entry)

new_node-IsEntry :
    (m : NodeManager) (id : String) (p b : Bool)
    → IsValid m
    → IsEntry m.base_port m.base_api_port id (some (new_node m id p b))
unfolding new_node node_index
new_node-IsEntry m id p b v = (refl, omega arith, omega arith)

add_node-IsValid :
    (m : NodeManager) (id : String) (p b : Bool) (total : ℕ)
    → IsValid m
    → IsValid (add_node m id p b total)
unfolding add_node
add_node-IsValid m id p b total v =
    let node = new_node m id p b in
    let entries = insert m.next node m.entries in
    Each-insert (IsBound m.base_port m.base_api_port entries (suc m.next)) id m.next m.nodes
      (
        omega arith,
        rw (lookup-insert m.next m.next node m.entries, beq_refl m.next)
            (new_node-IsEntry m id p b v),
      )
      (λ j ref l.
        IsBound-insert m.base_port m.base_api_port m.entries m.next node j ref (v j ref l))

pub start_node_with_total-IsValid :
    (m : NodeManager) (id : String) (p b : Bool) (total : ℕ)
    → IsValid m
    → IsValid (start_node_with_total m id p b total).0
unfolding start_node_with_total
start_node_with_total-IsValid m id p b total v = elim (Bool-cases (is_taken (get_node m id))) [
  | inl taken ↦ rw taken v
  | inr free ↦ rw free (
      add_node-IsValid (clean_up m id) id p b total (
        Each-cleaned (IsBound m.base_port m.base_api_port m.entries m.next) m.nodes id
          (get_node m id) v))
]

pub Alike-after_event : (node : ManagedNode) (e : ProcessEvent) → Alike node (after_event node e)
unfolding after_event after_exit
Alike-after_event node (not_started text) = (refl, refl, refl)
Alike-after_event node started = (refl, refl, refl)
Alike-after_event node (wrote source line) = (refl, refl, refl)
Alike-after_event node (exited none) = (refl, refl, refl)
Alike-after_event node (exited (some text)) = ground arith

happen_to-IsValid :
    (m : NodeManager) (ref : ℕ) (e : ProcessEvent) (o : Option ManagedNode)
    → lookup ref m.entries ≡ o
    → IsValid m
    → IsValid (happen_to m ref e o)
unfolding happen_to
happen_to-IsValid m ref e none held v = v
happen_to-IsValid m ref e (some node) held v =
    set_entry-IsValid m ref node (after_event node e) held (Alike-after_event node e) v

pub happen-IsValid : (m : NodeManager) (e : ℕ × ProcessEvent) → IsValid m → IsValid (happen m e)
unfolding happen
happen-IsValid m (ref, e) v = happen_to-IsValid m ref e (lookup ref m.entries) refl v

pub happen_all-IsValid :
    (m : NodeManager) (events : List (ℕ × ProcessEvent)) → IsValid m → IsValid (happen_all m events)
unfolding happen_all
happen_all-IsValid m [] v = v
happen_all-IsValid m (e ∷ events) v = happen_all-IsValid (happen m e) events (happen-IsValid m e v)
