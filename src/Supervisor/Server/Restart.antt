-- ===== src/Supervisor/Server/Restart.antt =====
-- The restart of a node by a request.
use mathlib.Core.Option.{none-ne-some}
use mathlib.Core.Path.{subst}
use dtvn.Prelude.{
  ℕ, String, true, false, if◌then◌else◌, ◌==◌, Option, none, some, List, string_eq, ◌≡◌, refl, sym,
  ap, ◌∙◌, Bool-cases, Option-cases, inl, inr,
}
use dtvn.Prelude.GoMap.{lookup}
use dtvn.Supervisor.Manager.{
  NodeManager, ManagedNode, NodeStatus, Error, get_node, entry_at, already_running, not_found,
  is_taken, is_running, start_node, start_node_with_total, new_node, clean_up, stop_node,
  stop_entry,
}
use dtvn.Supervisor.Manager.Process.{ProcessEvent, happen_all}
use dtvn.Supervisor.Manager.Valid.{IsValid, happen_all-IsValid, start_node_with_total-IsValid}
use dtvn.Supervisor.Manager.Ports.{get_node-start_node_with_total}
use dtvn.Supervisor.Manager.Runs.{stop_node-IsValid}
use dtvn.Supervisor.Server.Primary.{get_node-set_entry}
use dtvn.Supervisor.Server.{
  Server, Response, told, refused, answer, with_manager, start_again, after_stop, restart_known,
  handle_restart_node,
}

-- The node is marked as stopping and cancelled; the entries of all others stay.
abbrev pub IsHalted : NodeManager → String → ManagedNode → NodeManager → Type 0
IsHalted m id node halted =
    (halted.nodes ≡ m.nodes)
    × ((other : String)
        → get_node halted other ≡ (
            if id == other
            then some (record node { status = NodeStatus.stopping; is_cancelled = true })
            else get_node m other))

-- The manager at the time of the new start: a node that runs was told to stop, and then the events
-- happened; one that does not run was left alone.
pub data IsReady (m : NodeManager) (events : List (ℕ × ProcessEvent)) (id : String)
    (node : ManagedNode) (ready : NodeManager) : Type 0 where
  halted :
      (stopping : NodeManager)
      → is_running node.status ≡ true
      → IsHalted m id node stopping
      → ready ≡ happen_all stopping events
      → IsReady m events id node ready
  left_alone : is_running node.status ≡ false → ready ≡ m → IsReady m events id node ready

-- If the node is active now, the request is refused and no entry changes. Otherwise the node is
-- starting anew, in the role that it had, and the entries of all others stay.
pub data IsRestarted (id : String) (node : ManagedNode) (ready : NodeManager) (m : NodeManager)
    : Response → Type 0 where
  still_active :
      is_taken (get_node ready id) ≡ true
      → ((other : String) → get_node m other ≡ get_node ready other)
      → IsRestarted id node ready m (refused 500 already_running)
  starting_anew :
      (started : ManagedNode)
      → is_taken (get_node ready id) ≡ false
      → started.status ≡ NodeStatus.starting
      → started.is_primary ≡ node.is_primary
      → started.is_bootstrap ≡ node.is_bootstrap
      → ((other : String)
          → get_node m other ≡ (if id == other then some started else get_node ready other))
      → IsRestarted id node ready m (told "restarting" id)

-- What became of the node that was asked for.
abbrev pub IsHandled :
    String → List (ℕ × ProcessEvent) → Option ManagedNode → Server → Server × Response → Type 0
IsHandled id events none s result = result ≡ (s, refused 404 not_found)
IsHandled id events (some node) s (s', response) =
    IsValid s'.node_manager
    × (ready : NodeManager) × IsReady s.node_manager events id node ready
    × IsRestarted id node ready s'.node_manager response

answer-error :
    (s : Server) (r : NodeManager × Option Error) (done : Response) (o : Option Error)
    → r.1 ≡ o
    → answer s r done ≡ answer s (r.0, o) done
answer-error s (m, e) done o h = ap (λ x. answer s (m, x) done) h

abbrev Restarted : String → ManagedNode → NodeManager → Server × Response → Type 0
Restarted id node ready (s, response) =
    IsValid s.node_manager × IsRestarted id node ready s.node_manager response

start_again-IsRestarted :
    (s : Server) (id : String) (node : ManagedNode)
    → IsValid s.node_manager
    → Restarted id node s.node_manager (start_again s id node)
unfolding start_again start_node new_node
start_again-IsRestarted s id node v =
    let m = s.node_manager in
    let r = start_node_with_total m id node.is_primary node.is_bootstrap 0 in
    let done = told "restarting" id in
    let kept = start_node_with_total-IsValid m id node.is_primary node.is_bootstrap 0 v in
    let at = λ (j : String).
      (get_node-start_node_with_total m id j node.is_primary node.is_bootstrap 0 v).0 in
    let e = (get_node-start_node_with_total m id id node.is_primary node.is_bootstrap 0 v).1 in
    elim (Bool-cases (is_taken (get_node m id))) [
      | inl taken ↦
          subst (Restarted id node m)
            (sym (answer-error s r done (some already_running) (e ∙ (rw taken refl))))
            (kept, still_active taken (λ j. at j ∙ (rw taken refl)))
      | inr free ↦
          subst (Restarted id node m) (sym (answer-error s r done none (e ∙ (rw free refl)))) (
            kept,
            starting_anew (new_node (clean_up m id) id node.is_primary node.is_bootstrap) free refl
                refl refl (λ j. at j ∙ (rw free refl)),
          )
    ]

-- What `StopNode` does to a node that runs.
stop_node-IsHalted :
    (m : NodeManager) (id : String) (node : ManagedNode)
    → IsValid m
    → get_node m id ≡ some node
    → is_running node.status ≡ true
    → ((stop_node m id).1 ≡ none) × IsHalted m id node (stop_node m id).0
unfolding stop_node stop_entry
stop_node-IsHalted m id node v held runs = elim (Option-cases (lookup id m.nodes)) [
  | inl e ↦ absurd (none-ne-some node (sym (ap (entry_at m.entries) e) ∙ held))
  | inr (ref, e) ↦
      let at = sym (ap (entry_at m.entries) e) ∙ held in
      rw (e, stop_node, at, runs) (refl, (refl, λ j. get_node-set_entry m id j ref _ v e))
]

after_stop-eq :
    (s : Server) (r : NodeManager × Option Error) (events : List (ℕ × ProcessEvent)) (id : String)
    (node : ManagedNode)
    → r.1 ≡ none
    → after_stop s r events id node ≡ start_again (with_manager s (happen_all r.0 events)) id node
unfolding after_stop
after_stop-eq s (m, some e) events id node h = absurd (none-ne-some e (sym h))
after_stop-eq s (m, none) events id node h = refl

restart_known-IsHandled :
    (s : Server) (events : List (ℕ × ProcessEvent)) (id : String) (node : ManagedNode)
    → IsValid s.node_manager
    → get_node s.node_manager id ≡ some node
    → IsHandled id events (some node) s (restart_known s events id node)
unfolding restart_known
restart_known-IsHandled s events id node v held = elim (Bool-cases (is_running node.status)) [
  | inl runs ↦
      let m = s.node_manager in
      let r = stop_node m id in
      let (passed, stopping) = stop_node-IsHalted m id node v held runs in
      let ready = happen_all r.0 events in
      let (kept, done) =
        start_again-IsRestarted (with_manager s ready) id node
          (happen_all-IsValid r.0 events (stop_node-IsValid m id v)) in
      rw (runs, restart_known, after_stop-eq s r events id node passed)
        (kept, ready, halted r.0 runs stopping refl, done)
  | inr idle ↦
      let (kept, done) = start_again-IsRestarted s id node v in
      rw (idle, restart_known) (kept, s.node_manager, left_alone idle refl, done)
]

-- Where the manager is valid, a request to restart a node is answered with 404, nothing being
-- changed, if there is no such node. Otherwise a node that runs is marked as stopping and
-- cancelled, no other entry being changed, and then the events of the wait happen; a node that
-- does not run is left alone. If the node is active after that the request is refused and no entry
-- changes. If it is not, the node is starting anew in the role that it had, and every other entry
-- stays. The manager stays valid.
pub handle_restart_node-IsHandled :
    (s : Server) (events : List (ℕ × ProcessEvent)) (id : String)
    → IsValid s.node_manager
    → IsHandled id events (get_node s.node_manager id) s (handle_restart_node s events id)
unfolding handle_restart_node
handle_restart_node-IsHandled s events id v = elim (Option-cases (get_node s.node_manager id)) [
  | inl e ↦ rw (e, handle_restart_node) refl
  | inr (node, e) ↦ rw (e, handle_restart_node) (restart_known-IsHandled s events id node v e)
]
