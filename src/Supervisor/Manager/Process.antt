-- ===== src/Supervisor/Manager/Process.antt =====
-- pkg/supervisor/manager.go, `startNodeProcess`: what the goroutine of a node's process does to the
-- entry that it was started with. Starting the process and waiting for it are the events.
use Prim.Native.String.{◌++◌ as str_append}
use dtvn.Prelude.{
  ℕ, String, Bool, ◌==◌, Option, none, some, List, [], ◌∷◌, ◌++◌, if◌then◌else◌, string_eq, nat_eq,
}
use dtvn.Prelude.Int.{pos}
use dtvn.Prelude.Decimal.{format_int}
use dtvn.Prelude.GoMap.{lookup}
use dtvn.Supervisor.Buffer.{write}
use dtvn.Supervisor.Manager.{
  NodeManager, ManagedNode, NodeStatus, running, stopped, status_of, output_of, Notice, notify,
  set_entry,
}

abbrev when : Bool → List String → List String
when b args = if b then args else []

-- the arguments of the command; `path` is `filepath.Join` of the data directory and the name
unfoldable pub process_args : NodeManager → ManagedNode → String → String → List String
process_args m node path bootstrap_addr =
    ("-id"
      ∷ node.id
      ∷ "-port"
      ∷ format_int (pos node.port)
      ∷ "-api-port"
      ∷ format_int (pos node.api_port)
      ∷ "-data-dir"
      ∷ path
      ∷ "-total-nodes"
      ∷ format_int (pos m.total_nodes)
      ∷ [])
    ++ (when node.is_primary ("-primary" ∷ [])
        ++ (when node.is_bootstrap ("-bootstrap-node" ∷ [])
            ++ (if bootstrap_addr == "" then [] else "-bootstrap" ∷ bootstrap_addr ∷ [])))

-- A pipe or the process cannot be made; the process is started; it writes a line, on the stream
-- named first; it exits, with the error if there is one.
pub data ProcessEvent : Type 0 where
  not_started : String → ProcessEvent
  started : ProcessEvent
  wrote : String → String → ProcessEvent
  exited : Option String → ProcessEvent

abbrev with_error : ManagedNode → String → ManagedNode
with_error node text = record node { status = NodeStatus.error; error = text }

unfoldable pub after_exit : ManagedNode → Option String → ManagedNode
after_exit node none = record node { status = stopped }
after_exit node (some text) =
    if node.is_cancelled
    then record node { status = stopped }
    else with_error node (str_append "process exited with error: " text)

unfoldable pub after_event : ManagedNode → ProcessEvent → ManagedNode
unfolding after_exit
after_event node (not_started text) = with_error node text
after_event node started = record node { status = running }
after_event node (wrote source line) = record node {
  output_buf = write node.output_buf (str_append "[" (str_append source (str_append "] " line)));
}
after_event node (exited e) = after_exit node e

unfoldable pub notice_of : ManagedNode → ProcessEvent → Notice
notice_of node (wrote source line) = output_of node.id line
notice_of node e = status_of node.id node.status

unfoldable pub happen_to : NodeManager → ℕ → ProcessEvent → Option ManagedNode → NodeManager
unfolding after_event notice_of
happen_to m ref e none = m
happen_to m ref e (some node) =
    let node' = after_event node e in notify (notice_of node' e) (set_entry m ref node')

-- what happens to the process of an entry
unfoldable pub happen : NodeManager → ℕ × ProcessEvent → NodeManager
unfolding happen_to
happen m (ref, e) = happen_to m ref e (lookup ref m.entries)

unfoldable pub happen_all : NodeManager → List (ℕ × ProcessEvent) → NodeManager
unfolding happen
happen_all m [] = m
happen_all m (e ∷ events) = happen_all (happen m e) events
