-- ===== src/Examples/Validator.antt =====
-- A node with a ticket in its machine, and what its store and its peers do to it.
use dtvn.Prelude.{◌≤◌, String, true, none, some, List, [], ◌∷◌, ◌≡◌, ◌⊎◌, refl, string_eq, arith}
use dtvn.Prelude.Int.{pos, ltb_ℤ}
use dtvn.Prelude.GoMap.{lookup}
use dtvn.State.Machine.{StateMachine, Ticket, TicketState, issued, validated, consumed, copy_ticket}
use dtvn.Consensus.Types.{Request}
use dtvn.Storage.{save_ticket, get_ticket}
use dtvn.Validator.{ValidatorNode, persist_ticket, load_tickets_from_store}
use dtvn.Validator.Convert.{PbState, PbTicket, record_of}
use dtvn.Validator.Restart.{
  IsKeyed, IsRestored, IsKeyed-save_ticket, load_tickets_from_store-persist_ticket,
}
use dtvn.Validator.Restart.Records.{IsLoaded, load_tickets_from_store-IsLoaded}
use dtvn.Validator.Sync.{StateSyncResponse, handle_state_sync_response}
use dtvn.Validator.Sync.Safe.{IsNew, handle_state_sync_response_lem}
use dtvn.State.Machine.Lifecycle.{consumptions}
use dtvn.Consensus.Types.{CommitMsg, ConsensusMessage}
use dtvn.Consensus.Pbft.{PbftNode}
use dtvn.Consensus.Pbft
use dtvn.Consensus.Pbft.Inputs.{dequeue, run}
use dtvn.Validator.Replay.Once.{ticket_handler, consumptions-run_consensus}
use dtvn.Examples.Pbft.{env}
use dtvn.Examples.Disk.{Disk, bolt, json, bolt-IsBolt, json-IsJson}

abbrev ticket : TicketState → Ticket
ticket state = record {
  id = "t1";
  state = state;
  payload = "data";
  validator_id = "node2";
  timestamp = pos 7;
  vector_clock = record { node_id = "node0"; clocks = ("node0", 1) ∷ [] };
  metadata = [];
}

abbrev machine : List (String × Ticket) → StateMachine
machine tickets = record {
  node_id = "node0";
  current_state = tickets;
  transitions = [];
  vector_clock = record { node_id = "node0"; clocks = ("node0", 1) ∷ [] };
  handlers = [];
  has_publisher = true;
  published = [];
}

abbrev pub node : List (String × Ticket) → ValidatorNode Disk
node tickets = record {
  node_id = "node0";
  state_machine = machine tickets;
  state_notifier = record { subscribers = []; buffers = []; next = 0 };
  storage = none;
}

abbrev pub with_ticket : TicketState → ValidatorNode Disk
with_ticket state = node (("t1", ticket state) ∷ [])

blank-IsKeyed : IsKeyed bolt json bolt-IsBolt none
blank-IsKeyed k v h = absurd (ground arith)

-- the store of a node that has persisted a consumed ticket
abbrev restarted : ValidatorNode Disk
restarted = record (node []) {
  storage = (save_ticket bolt json none (record_of (copy_ticket (ticket consumed)))).0;
}

restarted-IsKeyed : IsKeyed bolt json bolt-IsBolt restarted.storage
unfolding save_ticket
restarted-IsKeyed =
    IsKeyed-save_ticket bolt json bolt-IsBolt json-IsJson none
      (record_of (copy_ticket (ticket consumed))) refl blank-IsKeyed

load_tickets_from_store-IsLoaded_example :
    IsLoaded
      (get_ticket bolt json restarted.storage "t1")
      (lookup "t1" (load_tickets_from_store bolt json restarted).state_machine.current_state)
unfolding save_ticket
load_tickets_from_store-IsLoaded_example =
    load_tickets_from_store-IsLoaded bolt json bolt-IsBolt restarted "t1" refl restarted-IsKeyed
      refl

load_tickets_from_store-persist_ticket_example :
    (u : Ticket) × (lookup "t1"
        (load_tickets_from_store bolt json (record (node []) {
          storage = (persist_ticket bolt json (with_ticket validated) "t1").storage;
        })).state_machine.current_state
      ≡ some u)
    × IsRestored (ticket validated) u
unfolding lookup save_ticket
load_tickets_from_store-persist_ticket_example =
    load_tickets_from_store-persist_ticket bolt json bolt-IsBolt json-IsJson (with_ticket validated)
      (node []) "t1" (ticket validated) refl refl tt refl blank-IsKeyed refl

abbrev offer : PbTicket
offer = record {
  ticket_id = "t2";
  state = PbState.validated;
  last_updated = pos 9;
  validator_id = "node1";
  vector_clock = none;
  metadata = "data";
}

abbrev response : StateSyncResponse
response = record {
  responder_id = "node1";
  current_sequence = pos 4;
  current_view = pos 0;
  validated_tickets = offer ∷ [];
  consensus_log = "t2" ∷ [];
  timestamp = pos 10;
}

handle_state_sync_response_lem_example :
    let n' = handle_state_sync_response bolt json (with_ticket issued) (pos 2) response (pos 11) in
    (lookup "t2" n'.state_machine.current_state
      ≡ lookup "t2" (with_ticket issued).state_machine.current_state)
    ⊎ ((ltb_ℤ (pos 2) response.current_sequence ≡ true)
        × IsNew "t2" response.validated_tickets
            (with_ticket issued).state_machine.current_state
            n'.state_machine.current_state)
handle_state_sync_response_lem_example =
    handle_state_sync_response_lem bolt json (with_ticket issued) (pos 2) response (pos 11) "t2"

abbrev request : String → Request
request operation = record {
  request_id = "r1";
  ticket_id = "t1";
  operation = operation;
  payload = "data";
  timestamp = pos 5;
  node_id = "node2";
}

abbrev commit_by : String → CommitMsg
commit_by node_id = record { view = pos 0; sequence = pos 1; digest = "digest"; node_id = node_id }

abbrev pub consensus_node : PbftNode (ValidatorNode Disk)
consensus_node = record {
  node_id = "node0";
  view = pos 0;
  sequence = pos 1;
  state = Pbft.commit;
  f = 1;
  total_nodes = 4;
  is_primary = true;
  prepare_log = [];
  commit_log = (pos 1, ("node0", commit_by "node0") ∷ ("node1", commit_by "node1") ∷ []) ∷ [];
  request_log = (pos 1, request "CONSUME") ∷ [];
  message_queue = ConsensusMessage.commit (commit_by "node2") ∷ [];
  handlers = ticket_handler bolt json (λ req n. pos 12) (λ e. "failed") ∷ [];
  checkpoints = [];
  checkpoint_votes = [];
  last_stable_checkpoint = pos 0;
  view_change_log = [];
  has_pending_client_request = true;
  request_callbacks = ("r1", true) ∷ [];
  has_replicator = true;
  app = with_ticket validated;
  effects = [];
}

consumptions-run_consensus_example :
    consumptions "t1" (run consensus_node ((env, dequeue) ∷ (env, dequeue) ∷ [])).app.state_machine
    ≤ 1
consumptions-run_consensus_example =
    consumptions-run_consensus bolt json "t1" (λ req n. pos 12) (λ e. "failed") consensus_node
      ((env, dequeue) ∷ (env, dequeue) ∷ []) refl (tt, (tt, tt)) refl
