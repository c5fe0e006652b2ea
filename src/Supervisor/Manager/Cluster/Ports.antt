-- ===== src/Supervisor/Manager/Cluster/Ports.antt =====
-- The ports of a cluster.
use mathlib.Core.Path.{subst}
use dtvn.Prelude.{
  ℕ, zero, suc, ◌+◌, ◌≤◌, ◌<◌, String, Bool, true, false, ◌&&◌, ◌||◌, Option, none, some, List, [],
  ◌∷◌, ◌≡◌, refl, sym, ap, ◌∙◌, ◌==◌, if◌then◌else◌, ltb, filter, string_eq, nat_eq, beq_refl,
  arith, Bool-cases, inl, inr,
}
use dtvn.Prelude.GoMap.{lookup}
use dtvn.Prelude.GoMap.Laws.{is_some}
use dtvn.Supervisor.Manager.Ports.{get_node-start_node_with_total}
use dtvn.Supervisor.Manager.{
  NodeManager, ManagedNode, get_node, is_taken, already_running, start_node_with_total,
}
use dtvn.Supervisor.Manager.Process.{ProcessEvent, happen_all}
use dtvn.Supervisor.Manager.Packed.{
  IsSound, port_in, port_of, port_of-start, start-IsSound, happen_all-IsSound, port_of-happen_all,
}
use dtvn.Supervisor.Manager.Cluster.{
  Events, node_name, start_then, start_batch, start_batches, in_batch, batch_end, batch_of,
  start_others, after_bootstrap, start_cluster_async, start_cluster, cleared,
}
use dtvn.Supervisor.Manager.Cluster.Names.{node_name_injective}

abbrev pub contains : List ℕ → ℕ → Bool
contains [] j = false
contains (i ∷ is) j = i == j || contains is j

abbrev pub IsDistinct : List ℕ → Type 0
IsDistinct [] = Unit
IsDistinct (i ∷ is) = (contains is i ≡ false) × IsDistinct is

contains-filter :
    (p : ℕ → Bool) (is : List ℕ) (j : ℕ) → contains (filter p is) j ≡ (contains is j && p j)
contains-filter p [] j = refl
contains-filter p (i ∷ is) j = elim (Bool-cases (i == j)) [
  | inl e ↦
      rw ((nat_eq.beq_iff i j).0 e) (ground (arith, contains-filter p is j, nat_eq.beq_iff j j))
  | inr e ↦ ground (arith, contains-filter p is j, nat_eq.beq_iff i j)
]

IsDistinct-filter : (p : ℕ → Bool) (is : List ℕ) → IsDistinct is → IsDistinct (filter p is)
IsDistinct-filter p [] d = tt
IsDistinct-filter p (i ∷ is) d = elim (Bool-cases (p i)) [
  | inl e ↦ rw e (ground (arith, contains-filter p is i), IsDistinct-filter p is d.1)
  | inr e ↦ rw e (IsDistinct-filter p is d.1)
]

-- Whether the node of a number has a port.
abbrev pub has : NodeManager → ℕ → Bool
has m i = is_some (port_of m (node_name i))

missing : (o : Option ℕ) → is_some o ≡ false → o ≡ none
missing none h = refl
missing (some p) h = cc

node_name-eq : (i j : ℕ) → (node_name i == node_name j) ≡ (i == j)
node_name-eq i j = elim (Bool-cases (i == j)) [
  | inl e ↦ rw ((nat_eq.beq_iff i j).0 e) (beq_refl (node_name j) ∙ sym (beq_refl j))
  | inr e ↦ ground (
    arith,
    node_name_injective i j,
    nat_eq.beq_iff i j,
    string_eq.beq_iff (node_name i) (node_name j),
  )
]

has-start :
    (m : NodeManager) (p b : Bool) (total i j : ℕ)
    → IsSound m
    → has m i ≡ false
    → has (start_node_with_total m (node_name i) p b total).0 j ≡ (i == j || has m j)
has-start m p b total i j s h =
    let fresh = missing (port_of m (node_name i)) h in
    ap is_some (port_of-start m (node_name i) p b total s fresh (node_name j))
    ∙ ground (arith, node_name-eq i j)

start_then_lem :
    (m : NodeManager) (events : Events) (total i : ℕ)
    → IsSound m
    → has m i ≡ false
    → IsSound (start_then m events (node_name i) total)
      × ((j : ℕ) → has (start_then m events (node_name i) total) j ≡ (i == j || has m j))
unfolding start_then
start_then_lem m events total i s h =
    let m' = (start_node_with_total m (node_name i) false false total).0 in
    (
      happen_all-IsSound m' (events m'.next)
          (start-IsSound m (node_name i) false false total s (missing (port_of m (node_name i)) h)),
      λ j.
          ap is_some (port_of-happen_all m' (events m'.next) (node_name j))
          ∙ has-start m false false total i j s h,
    )

start_batch_lem :
    (m : NodeManager) (events : Events) (total : ℕ) (batch : List ℕ)
    → IsSound m
    → IsDistinct batch
    → ((i : ℕ) → contains batch i ≡ true → has m i ≡ false)
    → IsSound (start_batch m events total batch)
      × ((j : ℕ) → has (start_batch m events total batch) j ≡ (contains batch j || has m j))
unfolding start_batch
start_batch_lem m events total [] s d h = (s, λ j. refl)
start_batch_lem m events total (i ∷ batch) s d h =
    let (s', has') = start_then_lem m events total i s (h i (rw (beq_refl i) refl)) in
    let (s'', has'') =
      start_batch_lem (start_then m events (node_name i) total) events total batch s' d.1
        (λ k c. ground (arith, has' k, h k, nat_eq.beq_iff i k, d.0)) in
    (s'', λ j. has'' j ∙ ground (arith, has' j))

-- Just the nodes of the cluster have ports, and no two share one.
abbrev pub IsCluster : ℕ → NodeManager → Type 0
IsCluster node_count r =
    ((j : ℕ) → has r j ≡ ltb j node_count)
    × ((id id' : String) (port : ℕ)
        → port_of r id ≡ some port
        → port_of r id' ≡ some port
        → id ≡ id')

unbound_in : (m : NodeManager) (id : String) → m.nodes ≡ [] → get_node m id ≡ none
unfolding lookup
unbound_in m id empty = rw empty refl

empty-IsSound : (m : NodeManager) → m.nodes ≡ [] → IsSound m
unfolding lookup
empty-IsSound m empty = (
  (λ id ref l. absurd (cc (l, empty))),
  (
    (λ id port l. absurd (cc (l, ap port_in (unbound_in m id empty)))),
    (λ id id' port l l'. absurd (cc (l, ap port_in (unbound_in m id empty)))),
  ),
)

module _ (events : Events) (order : List ℕ) (node_count : ℕ) (distinct : IsDistinct order)
    (complete : (j : ℕ) → 1 ≤ j → j < node_count → contains order j ≡ true) where
  batch_lem :
      (m : NodeManager) (from : ℕ)
      → IsSound m
      → 1 ≤ from
      → from < node_count
      → ((j : ℕ) → has m j ≡ ltb j from)
      → IsSound (start_batch m events node_count (batch_of order from node_count))
        × ((j : ℕ)
            → has (start_batch m events node_count (batch_of order from node_count)) j
              ≡ ltb j (batch_end from node_count))
  batch_lem m from s low lt h =
      let to = batch_end from node_count in
      let batch = batch_of order from node_count in
      let within = λ (j : ℕ). contains-filter (in_batch from to) order j in
      let (s', has') =
        start_batch_lem m events node_count batch s
          (IsDistinct-filter (in_batch from to) order distinct)
          (λ i c. ground (arith, within i, h i)) in
      (s', λ j. has' j ∙ ground (arith, within j, h j, complete j))

  start_batches_lem :
      (fuel : ℕ) (m : NodeManager) (from : ℕ)
      → IsSound m
      → 1 ≤ from
      → from ≤ node_count
      → node_count ≤ from + fuel
      → ((j : ℕ) → has m j ≡ ltb j from)
      → IsSound (start_batches fuel m events order from node_count)
        × ((j : ℕ) → has (start_batches fuel m events order from node_count) j ≡ ltb j node_count)
  unfolding start_batches
  start_batches_lem zero m from s low high enough h = (s, λ j. h j ∙ ap (ltb j) (omega arith))
  start_batches_lem (suc fuel) m from s low high enough h =
      elim (Bool-cases (ltb from node_count)) [
        | inl more ↦
            let (s', has') = batch_lem m from s low (ground arith) h in
            rw more (
              start_batches_lem fuel _ (batch_end from node_count) s' (ground arith) (ground arith)
                (ground arith) has')
        | inr over ↦ rw over (s, λ j. h j ∙ ap (ltb j) (ground arith))
      ]

  start_others_lem :
      (m : NodeManager) (peer_id : String) (o : Option ManagedNode)
      → is_some (port_in o) ≡ true
      → 1 ≤ node_count
      → IsSound m
      → ((j : ℕ) → has m j ≡ ltb j 1)
      → IsCluster node_count (start_others m events order node_count o (some peer_id))
  unfolding start_others
  start_others_lem m peer_id none here low s h = cc
  start_others_lem m peer_id (some node) here low s h =
      let (s', has') = start_batches_lem node_count m 1 s (omega arith) low (omega arith) h in
      (has', s'.1.1)

  after_bootstrap_lem :
      (m : NodeManager) (peer_id : String)
      → 1 ≤ node_count
      → IsSound m
      → ((j : ℕ) → has m j ≡ ltb j 1)
      → IsCluster node_count (after_bootstrap (m, none) events order node_count (some peer_id))
  unfolding after_bootstrap
  after_bootstrap_lem m peer_id low s h =
      let m' = happen_all m (events m.next) in
      let has' = λ (j : ℕ). ap is_some (port_of-happen_all m (events m.next) (node_name j)) ∙ h j in
      start_others_lem m' peer_id (get_node m' (node_name 0)) (has' 0) low
        (happen_all-IsSound m (events m.next) s) has'

  start_cluster_async_lem :
      (m : NodeManager) (peer_id : String)
      → 1 ≤ node_count
      → m.nodes ≡ []
      → IsCluster node_count (start_cluster_async m events order node_count (some peer_id))
  unfolding start_cluster_async
  start_cluster_async_lem m peer_id low empty =
      let name = node_name 0 in
      let bare = λ (id : String). unbound_in m id empty in
      let s = empty-IsSound m empty in
      let start = start_node_with_total m name true true node_count in
      let fresh = ap port_in (bare name) in
      let passed : start.1 ≡ none =
        (get_node-start_node_with_total m name name true true node_count s.0).1
        ∙ ap (λ o. if is_taken o then some already_running else none) (bare name) in
      let has0 = λ (j : ℕ).
        has-start m true true node_count 0 j s (ap is_some fresh)
        ∙ ground (arith, ap (λ o. is_some (port_in o)) (bare (node_name j))) in
      subst
        (λ e.
          IsCluster node_count
            (after_bootstrap (start.0, e) events order node_count (some peer_id)))
        (sym passed)
        (after_bootstrap_lem start.0 peer_id low (start-IsSound m name true true node_count s fresh)
          has0)

-- Where `StartCluster` is not refused, and the peer's name can be made, then in whatever order the
-- goroutines of a batch come to the lock, and whatever happens to processes before and between the
-- starts, just the nodes 0 to n - 1 of the cluster have ports in the end, and no two nodes have
-- the same. The order names each of the nodes from 1 on once.
pub start_cluster_lem :
    (m : NodeManager) (stopping : List (ℕ × ProcessEvent)) (events : Events) (order : List ℕ)
    (node_count : ℕ) (peer_id : String)
    → IsDistinct order
    → ((j : ℕ) → 1 ≤ j → j < node_count → contains order j ≡ true)
    → (start_cluster m stopping node_count).1 ≡ none
    → IsCluster node_count (
        start_cluster_async
          (start_cluster m stopping node_count).0
          events
          order
          node_count
          (some peer_id))
unfolding start_cluster cleared
start_cluster_lem m stopping events order zero peer_id distinct complete passed = cc
start_cluster_lem m stopping events order (suc others) peer_id distinct complete passed =
    elim (Bool-cases m.is_locked) [
      | inl locked ↦ cc (rw locked at passed)
      | inr free ↦ rw free (
          start_cluster_async_lem events order (suc others) distinct complete
            (cleared m stopping (suc others)) peer_id (omega arith) refl)
    ]
