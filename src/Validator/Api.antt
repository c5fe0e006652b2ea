-- ===== src/Validator/Api.antt =====
-- cmd/validator/main.go, `ValidateTicket` of the API. The rest of the node is the application of its
-- PBFT node, and its own work during a wait is left out. What the method waits for is an argument,
-- in the order in which it happens: a call that has used it all up is still waiting. An error's text
-- is dropped.
pub mod Wait
pub mod Confirmed
use Prim.Native.String.{◌++◌ as str_append}
use dtvn.Prelude.{
  ℕ, zero, suc, ◌-◌, ◌*◌, ◌/◌, String, Bool, true, false, ◌&&◌, Option, none, some, List, [], ◌∷◌,
  if◌then◌else◌, ltb,
}
use mathlib.Core.Option
use dtvn.Prelude.Int.{ℤ}
use dtvn.Prelude.Decimal.{format_int}
use dtvn.State.Machine.{Ticket, TicketState}
use dtvn.State.Machine
use dtvn.State.Notifier
use dtvn.Consensus.Types.{Request}
use dtvn.Consensus.Messages.{serialize_request, serialize_pbft_message}
use dtvn.Consensus.Pbft
use dtvn.Consensus.Pbft.{
  PbftNode, Env, emit, broadcast, register_callback, notify_pending_request, clear_pending_request,
}
use dtvn.Consensus.Pbft.Phases.{propose_request}
use dtvn.Validator.{ValidatorNode}

pub data Error : Type 0 where
  already_validated consensus_failed timed_out shutting_down no_peers serialize_failed : Error
  broadcast_failed : Error
  not_enough_peers : ℕ → ℕ → Error
  proposal_failed : Pbft.Error → Error

-- What a call has come to.
pub data Result : Type 0 where
  waiting success : Result
  failed : Error → Result

-- what a primary waits for: the callback with its result, the timeout or the end of the node
pub data Answer : Type 0 where
  called : Bool → Answer
  late stopped : Answer

-- what another node waits for; a tick has the request sent again
pub data Event : Type 0 where
  deadline done tick : Event
  notified : TicketState → Event

abbrev pub Node : Type 0 → Type 0
Node Db = PbftNode (ValidatorNode Db)

-- `err == nil && ticket != nil && ticket.State == state.StateValidated`
abbrev pub is_confirmed : Option Ticket → Bool
is_confirmed none = false
is_confirmed (some t) = Machine.is_validated t.state

-- `nanos` is the clock in nanoseconds, for the name of the request
unfoldable pub new_request : String → String → String → ℤ → ℤ → Request
new_request node_id ticket_id payload nanos now = record {
  request_id =
      str_append node_id
        (str_append "-" (str_append (format_int nanos) (str_append "-" ticket_id)));
  ticket_id = ticket_id;
  operation = "VALIDATE";
  payload = payload;
  timestamp = now;
  node_id = node_id;
}

-- the `select` of the primary
unfoldable pub answered : Answer → Result
answered (called true) = success
answered (called false) = failed consensus_failed
answered late = failed timed_out
answered stopped = failed shutting_down

-- The loop that waits for peers: each attempt finds a number of peers and, if there is none,
-- whether the node is stopped before the next one. `none` goes on.
unfoldable pub wait_for_peers : ℕ → List (ℕ × Bool) → Option Result
wait_for_peers zero attempts = some (failed no_peers)
wait_for_peers (suc retries) [] = some waiting
wait_for_peers (suc retries) ((peer_count, stopping) ∷ attempts) =
    let rest = wait_for_peers retries attempts in
    if ltb 0 peer_count then none else if stopping then some (failed shutting_down) else rest

abbrev pub max_retries : ℕ
max_retries = 5

module _ {Db : Type 0} where
  abbrev pub confirmed : Node Db → String → Bool
  confirmed n ticket_id = is_confirmed (Machine.get_ticket n.app.state_machine ticket_id)

  unfoldable pub proposed : Node Db × Option Pbft.Error → Node Db × Result
  proposed (n, none) = (n, waiting)
  proposed (n, some e) = (n, failed (proposal_failed e))

  -- the primary's part, up to the wait
  unfoldable pub propose : Env → Node Db → Request → Node Db × Result
  propose env n req =
      let min_peers = 2 * ((n.total_nodes - 1) / 3) in
      if ltb 1 n.total_nodes && ltb env.peer_count min_peers
      then (n, failed (not_enough_peers env.peer_count min_peers))
      else proposed (propose_request env (register_callback n req.request_id true) req)

  -- the loop that waits for the ticket; `bytes` is the request as it is sent
  unfoldable pub wait_loop : Node Db → String → List Event → Node Db × Result
  wait_loop n bytes [] = (n, waiting)
  wait_loop n bytes (deadline ∷ events) = (n, failed timed_out)
  wait_loop n bytes (done ∷ events) = (n, failed shutting_down)
  wait_loop n bytes (tick ∷ events) = wait_loop (emit (broadcast bytes) n) bytes events
  wait_loop n bytes (notified new_state ∷ events) =
      let rest = wait_loop n bytes events in
      if Machine.is_validated new_state then (clear_pending_request n, success) else rest

  abbrev with_notifier : Node Db → Notifier.StateNotifier → Node Db
  with_notifier n notifier = record n { app = record n.app { state_notifier = notifier } }

  -- the deferred `Unsubscribe`, when the call returns
  unfoldable pub unsubscribed : String → ℕ → Node Db × Result → Node Db × Result
  unsubscribed ticket_id ch (n, waiting) = (n, waiting)
  unsubscribed ticket_id ch (n, result) =
      (with_notifier n (Notifier.unsubscribe n.app.state_notifier ticket_id ch), result)

  -- the wait of another node, from the subscription on
  unfoldable pub await : Node Db → String → String → List Event → Node Db × Result
  unfolding wait_loop unsubscribed
  await n ticket_id bytes events =
      let (notifier, ch) = Notifier.subscribe n.app.state_notifier ticket_id in
      let subscribed = with_notifier (notify_pending_request n) notifier in
      unsubscribed ticket_id ch (
        if confirmed subscribed ticket_id
        then (clear_pending_request subscribed, success)
        else wait_loop subscribed bytes events)

  -- the message with the request
  unfoldable pub client_request : Env → Node Db → Request → Option String
  client_request env n req = elim (serialize_request env.protobuf req) [
    | none ↦ none
    | some payload ↦ serialize_pbft_message env.protobuf 7 payload n.node_id
  ]

  -- `sent` says whether `Broadcast` returned no error, and `meanwhile` is what the rest of the node
  -- does until the subscription.
  unfoldable pub send_request :
      Node Db → String → Bool → (Node Db → Node Db) → List Event → Option String → Node Db × Result
  unfolding await
  send_request n ticket_id sent meanwhile events none = (n, failed serialize_failed)
  send_request n ticket_id sent meanwhile events (some bytes) =
      let n' = emit (broadcast bytes) n in
      if sent then await (meanwhile n') ticket_id bytes events else (n', failed broadcast_failed)

  unfoldable pub forward :
      Env → Node Db → Request → Bool → (Node Db → Node Db) → List Event → Node Db × Result
  unfolding send_request client_request
  forward env n req sent meanwhile events =
      send_request n req.ticket_id sent meanwhile events (client_request env n req)

  unfoldable pub forward_when_connected :
      Env
      → Node Db
      → Request
      → List (ℕ × Bool)
      → Bool
      → (Node Db → Node Db)
      → List Event
      → Node Db × Result
  unfolding wait_for_peers forward
  forward_when_connected env n req attempts sent meanwhile events =
      elim (wait_for_peers max_retries attempts) [
        | some result ↦ (n, result)
        | none ↦ forward env n req sent meanwhile events
      ]

  -- The method, up to the primary's wait. The name of the request is the caller's, by `new_request`.
  unfoldable pub api_validate_ticket :
      Env
      → Node Db
      → Request
      → List (ℕ × Bool)
      → Bool
      → (Node Db → Node Db)
      → List Event
      → Node Db × Result
  unfolding propose forward_when_connected
  api_validate_ticket env n req attempts sent meanwhile events =
      if confirmed n req.ticket_id
      then (n, failed already_validated)
      else if n.is_primary
      then propose env n req
      else forward_when_connected env n req attempts sent meanwhile events
