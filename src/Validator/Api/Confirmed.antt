-- ===== src/Validator/Api/Confirmed.antt =====
-- cmd/validator/main.go, `ValidateTicket`: what a node has seen when it answers that the ticket is
-- validated.
use mathlib.Core.Bool.{false≢true}
use dtvn.Prelude.{
  String, Bool, true, false, Option, none, some, List, ℕ, zero, suc, ltb, ◌&&◌, ◌*◌, ◌-◌, ◌/◌, not,
  [], ◌∷◌, ◌≡◌, refl, sym,
}
use dtvn.Consensus.Pbft
use dtvn.Consensus.Pbft.{
  PbftNode, Env, register_callback, clear_pending_request, notify_pending_request, emit, broadcast,
}
use dtvn.Consensus.Pbft.Phases.{propose_request}
use dtvn.Consensus.Types.{Request}
use dtvn.Validator.Api.{
  Node, Event, Result, waiting, success, failed, confirmed, send_request, client_request, proposed,
  forward, forward_when_connected, propose, api_validate_ticket, wait_for_peers, max_retries,
}
use dtvn.Validator.Api.Wait.{if_holds, IsAnswered, await-IsAnswered}

abbrev is_success : Result → Bool
is_success success = true
is_success _ = false

abbrev still_failed : Option Result → Bool
still_failed none = true
still_failed (some r) = not (is_success r)

wait_for_peers-failed :
    (retries : ℕ) (attempts : List (ℕ × Bool))
    → still_failed (wait_for_peers retries attempts) ≡ true
unfolding wait_for_peers
wait_for_peers-failed zero attempts = refl
wait_for_peers-failed (suc retries) [] = refl
wait_for_peers-failed (suc retries) ((peer_count, stopping) ∷ attempts) =
    let Safe : Option Result → Type 0 = λ o. still_failed o ≡ true in
    if_holds Safe (ltb 0 peer_count) refl
      (if_holds Safe stopping refl (wait_for_peers-failed retries attempts))

module _ {Db : Type 0} where
  -- what a call of the method has come to, where `meanwhile` leads to the node that begins to wait
  abbrev pub IsJustified :
      Node Db → String → (Node Db → Node Db) → List Event → Node Db × Result → Type 0
  IsJustified n ticket_id meanwhile events r =
      (bytes : String) × IsAnswered (meanwhile (emit (broadcast bytes) n)) ticket_id events r

  send_request-IsJustified :
      (n : Node Db) (ticket_id : String) (sent : Bool) (meanwhile : Node Db → Node Db)
      (events : List Event) (bytes : Option String)
      → IsJustified n ticket_id meanwhile events
          (send_request n ticket_id sent meanwhile events bytes)
  unfolding send_request
  send_request-IsJustified n ticket_id sent meanwhile events none = ("", tt)
  send_request-IsJustified n ticket_id true meanwhile events (some bytes) =
      (bytes, await-IsAnswered (meanwhile (emit (broadcast bytes) n)) ticket_id bytes events)
  send_request-IsJustified n ticket_id false meanwhile events (some bytes) = (bytes, tt)

  failed-IsJustified :
      (n : Node Db) (ticket_id : String) (meanwhile : Node Db → Node Db) (events : List Event)
      (r : Node Db × Result)
      → is_success r.1 ≡ false
      → IsJustified n ticket_id meanwhile events r
  failed-IsJustified n ticket_id meanwhile events (n', waiting) h = ("", tt)
  failed-IsJustified n ticket_id meanwhile events (n', failed e) h = ("", tt)
  failed-IsJustified n ticket_id meanwhile events (n', success) h = absurd (false≢true (sym h))

  proposed-failed : (r : Node Db × Option Pbft.Error) → is_success (proposed r).1 ≡ false
  unfolding proposed
  proposed-failed (n, none) = refl
  proposed-failed (n, some e) = refl

  propose-failed :
      (env : Env) (n : Node Db) (req : Request) → is_success (propose env n req).1 ≡ false
  unfolding propose
  propose-failed env n req =
      if_holds (λ (r : Node Db × Result). is_success r.1 ≡ false)
        (ltb 1 n.total_nodes && ltb env.peer_count (2 * ((n.total_nodes - 1) / 3))) refl
        (proposed-failed (propose_request env (register_callback n req.request_id true) req))

  attempted-IsJustified :
      (env : Env) (n : Node Db) (req : Request) (sent : Bool) (meanwhile : Node Db → Node Db)
      (events : List Event) (o : Option Result)
      → still_failed o ≡ true
      → IsJustified n req.ticket_id meanwhile events
          (elim o [ some result ↦ (n, result) | none ↦ forward env n req sent meanwhile events ])
  unfolding forward
  attempted-IsJustified env n req sent meanwhile events none h =
      send_request-IsJustified n req.ticket_id sent meanwhile events (client_request env n req)
  attempted-IsJustified env n req sent meanwhile events (some waiting) h = ("", tt)
  attempted-IsJustified env n req sent meanwhile events (some (failed e)) h = ("", tt)
  attempted-IsJustified env n req sent meanwhile events (some success) h = absurd (false≢true h)

  forward_when_connected-IsJustified :
      (env : Env) (n : Node Db) (req : Request) (attempts : List (ℕ × Bool)) (sent : Bool)
      (meanwhile : Node Db → Node Db) (events : List Event)
      → IsJustified n req.ticket_id meanwhile events
          (forward_when_connected env n req attempts sent meanwhile events)
  unfolding forward_when_connected forward
  forward_when_connected-IsJustified env n req attempts sent meanwhile events =
      attempted-IsJustified env n req sent meanwhile events (wait_for_peers max_retries attempts)
        (wait_for_peers-failed max_retries attempts)

  -- Where `ValidateTicket` answers that the ticket is validated, whatever its node is, no request
  -- of a client is pending any more, and the machine had the ticket as VALIDATED when the node had
  -- sent the request and subscribed, or a notification that it is VALIDATED came before the
  -- deadline and the end of the node, after events that the loop passes over. A primary does not
  -- answer so before its wait.
  pub api_validate_ticket-IsJustified :
      (env : Env) (n : Node Db) (req : Request) (attempts : List (ℕ × Bool)) (sent : Bool)
      (meanwhile : Node Db → Node Db) (events : List Event)
      → IsJustified n req.ticket_id meanwhile events
          (api_validate_ticket env n req attempts sent meanwhile events)
  unfolding api_validate_ticket
  api_validate_ticket-IsJustified env n req attempts sent meanwhile events =
      let Good : Node Db × Result → Type 0 = IsJustified n req.ticket_id meanwhile events in
      if_holds Good (confirmed n req.ticket_id) ("", tt)
        (if_holds Good n.is_primary
          (failed-IsJustified n req.ticket_id meanwhile events (propose env n req)
            (propose-failed env n req))
          (forward_when_connected-IsJustified env n req attempts sent meanwhile events))
