-- ===== src/Examples/Api.antt =====
-- A node of four that is not the primary and is asked to validate a ticket.
use dtvn.Prelude.{true, false, List, [], ◌∷◌, ◌≡◌, refl, inr}
use dtvn.Prelude.Int.{pos}
use dtvn.State.Machine
use dtvn.Consensus.Pbft.{PbftNode}
use dtvn.Consensus.Types.{Request}
use dtvn.Validator.{ValidatorNode}
use dtvn.Validator.Api.{Event, tick, notified, success, new_request, api_validate_ticket, await}
use dtvn.Validator.Api.Wait.{await-success}
use dtvn.Validator.Api.Confirmed.{IsJustified, api_validate_ticket-IsJustified}
use dtvn.Examples.Pbft.{env}
use dtvn.Examples.Disk.{Disk}
use dtvn.Examples.Validator.{consensus_node}

abbrev replica : PbftNode (ValidatorNode Disk)
replica = record consensus_node { is_primary = false }

abbrev request : Request
unfolding new_request
request = new_request "node0" "t9" "data" (pos 11) (pos 1)

abbrev events : List Event
events = tick ∷ notified Machine.pending ∷ notified Machine.validated ∷ tick ∷ []

api_validate_ticket-IsJustified_example :
    IsJustified replica "t9"
      (λ n. n)
      events
      (api_validate_ticket env replica request ((0, false) ∷ (3, false) ∷ []) true (λ n. n) events)
unfolding new_request
api_validate_ticket-IsJustified_example =
    api_validate_ticket-IsJustified env replica request ((0, false) ∷ (3, false) ∷ []) true (λ n. n)
      events

await-success_example : (await replica "t9" "request" events).1 ≡ success
await-success_example =
    await-success replica "t9" "request" events
      (inr (tick ∷ notified Machine.pending ∷ [], tick ∷ [], refl, (refl, (refl, tt))))
