-- ===== src/Examples/HttpApi.antt =====
-- A node whose clients consume a ticket twice, and a request with a key.
use dtvn.Prelude.{◌≤◌, ◌+◌, ◌↔◌, String, true, none, some, List, [], ◌∷◌, ◌≡◌, refl, Option}
use dtvn.Prelude.Int.{ℤ, pos}
use dtvn.State.Machine
use dtvn.State.Machine.Ops.{validate}
use dtvn.State.Machine.{issued}
use dtvn.Validator.{ValidatorNode}
use dtvn.Validator.Convert.{PbState}
use dtvn.Validator.Sync.{PbStateUpdate}
use dtvn.HttpApi.{Server}
use dtvn.HttpApi.Once.{
  Input, consume_request, dispute_request, elsewhere, gossip, reopened_times, consumed_times,
  consumed_times-le,
}
use dtvn.HttpApi.Access.{
  Request, api_key_middleware, is_exempt, is_exempt_at_supervisor, IsUnderApi, Presents,
  api_key_middleware_iff,
}
use dtvn.Examples.Clock.{differ}
use dtvn.Examples.Disk.{Disk, bolt, json}
use dtvn.Examples.Validator.{with_ticket}

abbrev server : Server (ValidatorNode Disk)
server = record { validator = with_ticket issued; broadcast = [] }

-- nothing is validated by a request here
abbrev no_validation :
    ValidatorNode Disk → ℤ → String → String → ValidatorNode Disk × Option Machine.Error
no_validation n now ticket_id payload = (n, none)

-- what another node has: the ticket as validated, with a clock that is ahead
abbrev later_copy : PbStateUpdate
later_copy = record {
  tickets =
      (record {
        ticket_id = "t1";
        state = PbState.validated;
        last_updated = pos 9;
        validator_id = "node1";
        vector_clock = some (("node0", 9) ∷ ("node1", 9) ∷ []);
        metadata = "data";
      })
      ∷ [];
  node_id = "node1";
}

abbrev inputs : List (Input bolt json)
inputs =
    consume_request (pos 1) (some "t1")
    ∷ elsewhere "t1" (validate "t1" "node0" (pos 2))
    ∷ consume_request (pos 3) (some "t1")
    ∷ consume_request (pos 4) (some "t1")
    ∷ gossip later_copy
    ∷ consume_request (pos 5) (some "t1")
    ∷ dispute_request (pos 5) (some "t1")
    ∷ consume_request (pos 6) none
    ∷ []

consumed_times-le_example :
    consumed_times bolt json no_validation "t1" server inputs
    ≤ 1 + reopened_times bolt json no_validation "t1" server inputs
consumed_times-le_example = consumed_times-le bolt json no_validation "t1" server inputs

abbrev request : Request
request = record {
  path = "/api/v1/tickets";
  host = "localhost:8080";
  origin = "";
  x_api_key = "";
  authorization = "Bearer secret";
}

api_key_middleware_iff_example :
    ((api_key_middleware is_exempt "secret" request ≡ true)
      ↔ (IsUnderApi request.path → Presents "secret" request))
    × ((api_key_middleware is_exempt_at_supervisor "secret" request ≡ true)
        ↔ (IsUnderApi request.path → Presents "secret" request))
api_key_middleware_iff_example = api_key_middleware_iff "secret" request (differ "secret" "" refl)
