-- ===== src/Supervisor/Server/Primary.antt =====
-- What the answers of the nodes make of the primary that the supervisor shows.
use mathlib.Core.Option
use mathlib.Core.Path.{subst}
use dtvn.Prelude.{
  ℕ, String, Bool, true, false, ◌==◌, Option, none, some, List, [], ◌∷◌, if◌then◌else◌, string_eq,
  nat_eq, ◌≡◌, refl, sym, ap, ◌∙◌, arith, Bool-cases, Option-cases, inl, inr, beq_refl,
}
use dtvn.Prelude.GoMap.{lookup, IsMap}
use dtvn.Prelude.GoMap.Laws.{lookup-insert, lookup-insert_self, lookup_of_IsFresh}
use dtvn.Supervisor.Manager.{
  NodeManager, ManagedNode, get_node, entry_at, set_entry, same, update_entry,
  update_primary_status,
}
use dtvn.Supervisor.Manager.Valid.{IsEntry, IsValid}
use dtvn.Supervisor.Manager.Runs.{update_primary_status-IsValid}
use dtvn.Supervisor.Server.{
  Server, Message, with_manager, broadcast_ws_message, take_result, refresh_primary_status,
}

abbrev pub with_primary : Bool → ManagedNode → ManagedNode
with_primary is_primary node = record node { is_primary = is_primary }

-- a node, by what it answered if it did
abbrev pub shown : Option Bool → Option ManagedNode → Option ManagedNode
shown none o = o
shown (some is_primary) o = Option.map (with_primary is_primary) o

Bool-same : (a b : Bool) → same a b ≡ true → b ≡ a
Bool-same true true h = refl
Bool-same true false h = h
Bool-same false true h = sym h
Bool-same false false h = refl

same-with_primary :
    (b : Bool) (node : ManagedNode) → same node.is_primary b ≡ true → with_primary b node ≡ node
same-with_primary b node h = ap (λ p. with_primary p node) (Bool-same node.is_primary b h)

-- Two nodes do not share an entry.
entry_apart :
    (m : NodeManager) (id other : String) (ref : ℕ)
    → IsValid m
    → lookup id m.nodes ≡ some ref
    → lookup other m.nodes ≡ some ref
    → id ≡ other
entry_apart m id other ref v l k = one_name (lookup ref m.entries) (v id ref l).1 (v other ref k).1
  where
    one_name :
        (o : Option ManagedNode)
        → IsEntry m.base_port m.base_api_port id o
        → IsEntry m.base_port m.base_api_port other o
        → id ≡ other
    one_name none e f = absurd e
    one_name (some node) e f = sym e.0 ∙ f.0

pub get_node-set_entry :
    (m : NodeManager) (id other : String) (ref : ℕ) (node : ManagedNode)
    → IsValid m
    → lookup id m.nodes ≡ some ref
    → get_node (set_entry m ref node) other ≡ (if id == other then some node else get_node m other)
get_node-set_entry m id other ref node v l = elim (Bool-cases (id == other)) [
  | inl e ↦
      rw (sym ((string_eq.beq_iff id other).0 e), l, beq_refl id)
        (lookup-insert_self ref node m.entries)
  | inr e ↦ elim (Option-cases (lookup other m.nodes)) [
    | inl k ↦ rw (e, k) refl
    | inr (at, k) ↦
        rw (e, k, lookup-insert ref at node m.entries)
          (elim (Bool-cases (ref == at)) [
            | inl p ↦ absurd (
                ground (
                  arith,
                  e,
                  string_eq.beq_iff id other,
                  entry_apart m id other ref v l (k ∙ ap some (sym ((nat_eq.beq_iff ref at).0 p))),
                ))
            | inr p ↦ rw p refl
          ])
  ]
]

get_node-update_entry :
    (m : NodeManager) (id other : String) (ref : ℕ) (b : Bool) (o : Option ManagedNode)
    → IsValid m
    → lookup id m.nodes ≡ some ref
    → lookup ref m.entries ≡ o
    → get_node (update_entry m ref b o).0 other
      ≡ (if id == other then Option.map (with_primary b) (get_node m other) else get_node m other)
unfolding update_entry
get_node-update_entry m id other ref b none v l k =
    absurd (subst (IsEntry m.base_port m.base_api_port id) k (v id ref l).1)
get_node-update_entry m id other ref b (some node) v l k =
    let known : get_node m id ≡ some node = ap (entry_at m.entries) l ∙ k in
    let own : (if id == other
          then Option.map (with_primary b) (get_node m other)
          else get_node m other)
        ≡ (if id == other then some (with_primary b node) else get_node m other) =
      elim (Bool-cases (id == other)) [
        | inl p ↦ rw (sym ((string_eq.beq_iff id other).0 p), beq_refl id, known) refl
        | inr p ↦ rw p refl
      ] in
    let unmoved : with_primary b node ≡ node
        → (if id == other then some (with_primary b node) else get_node m other)
          ≡ get_node m other =
      λ q. elim (Bool-cases (id == other)) [
        | inl p ↦ rw (sym ((string_eq.beq_iff id other).0 p), beq_refl id, q) (sym known)
        | inr p ↦ rw p refl
      ] in
    elim (Bool-cases (same node.is_primary b)) [
      | inl e ↦ rw e (sym (own ∙ unmoved (same-with_primary b node e)))
      | inr e ↦ rw e (get_node-set_entry m id other ref (with_primary b node) v l ∙ sym own)
    ]

get_node-update_primary_status :
    (m : NodeManager) (id other : String) (b : Bool)
    → IsValid m
    → get_node (update_primary_status m id b).0 other
      ≡ (if id == other then Option.map (with_primary b) (get_node m other) else get_node m other)
unfolding update_primary_status
get_node-update_primary_status m id other b v = elim (Option-cases (lookup id m.nodes)) [
  | inl e ↦
      rw (e, update_primary_status)
        (elim (Bool-cases (id == other)) [
          | inl p ↦ rw (sym ((string_eq.beq_iff id other).0 p), beq_refl id, e) refl
          | inr p ↦ rw p refl
        ])
  | inr (ref, e) ↦
      rw (e, update_primary_status)
        (get_node-update_entry m id other ref b (lookup ref m.entries) v e refl)
]

manager-broadcast_ws_message :
    (s : Server) (e : Message) → (broadcast_ws_message s e).node_manager ≡ s.node_manager
unfolding broadcast_ws_message
manager-broadcast_ws_message s e = ground arith

manager-take_result :
    (s : Server) (r : String × Bool)
    → (take_result s r).node_manager ≡ (update_primary_status s.node_manager r.0 r.1).0
unfolding take_result
manager-take_result s (id, b) =
    let (m, is_changed) = update_primary_status s.node_manager id b in
    elim (Option-cases (get_node m id)) [
      | inl e ↦ rw (e, take_result) refl
      | inr (node, e) ↦
          rw (e, take_result)
            (elim (Bool-cases is_changed) [
              | inl c ↦ rw c (manager-broadcast_ws_message (with_manager s m) _)
              | inr c ↦ rw c refl
            ])
    ]

-- Where the manager is valid, and each node answers at most once, then in whatever order the
-- answers come, each node that answered is shown as the primary or not as it answered, and is
-- otherwise as before, and every other node is as before.
pub get_node-refresh_primary_status :
    (s : Server) (results : List (String × Bool)) (id : String)
    → IsValid s.node_manager
    → IsMap results
    → get_node (refresh_primary_status s results).node_manager id
      ≡ shown (lookup id results) (get_node s.node_manager id)
unfolding refresh_primary_status lookup
get_node-refresh_primary_status s [] id v d = refl
get_node-refresh_primary_status s ((node_id, b) ∷ results) id v d =
    let s' = take_result s (node_id, b) in
    let m' = (update_primary_status s.node_manager node_id b).0 in
    let kept : IsValid s'.node_manager =
      subst IsValid (sym (manager-take_result s (node_id, b)))
        (update_primary_status-IsValid s.node_manager node_id b v) in
    get_node-refresh_primary_status s' results id kept d.1
    ∙ ap (λ m. shown (lookup id results) (get_node m id)) (manager-take_result s (node_id, b))
    ∙ ap (shown (lookup id results)) (get_node-update_primary_status s.node_manager node_id id b v)
    ∙ (elim (Bool-cases (node_id == id)) [
      | inl p ↦
          rw
            (
              sym ((string_eq.beq_iff node_id id).0 p),
              beq_refl node_id,
              lookup_of_IsFresh node_id results d.0,
            )
            refl
      | inr p ↦ rw p refl
    ])
