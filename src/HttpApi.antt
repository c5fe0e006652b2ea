-- ===== src/HttpApi.antt =====
-- pkg/api/server.go, the handlers of requests that change tickets, and who is let in. The validator is
-- behind an interface, a body that cannot be decoded is none, and the channel of the broadcasts is
-- the list of what was sent into it; a handler that finds it full waits. What a handler is sent by
-- and the text of an error of the validator are left out.
pub mod Once
pub mod Access
use dtvn.Prelude.{
  ℕ, String, Bool, true, false, ◌==◌, Option, none, some, List, [], ◌∷◌, ◌++◌, ◌⊎◌, inl, inr,
  if◌then◌else◌, string_eq,
}
use dtvn.Prelude.Int.{ℤ}

-- The methods that change tickets and `GetTicket`, with the clock of the call.
pub record ValidatorInterface (V T E : Type 0) : Type 0 where
  pub validate_ticket : V → ℤ → String → String → V × Option E
  pub consume_ticket : V → ℤ → String → V × Option E
  pub dispute_ticket : V → ℤ → String → V × Option E
  pub seed_tickets : V → ℤ → V × (E ⊎ ℕ)
  pub get_ticket : V → String → Option T

pub data Event : Type 0 where
  ticket_event : String → String → Event
  tickets_seeded : ℕ → Event

pub record Server (V : Type 0) : Type 0 where
  pub validator : V
  pub broadcast : List Event

-- 400 or 404 with the text, 500 with the validator's error, or 200 with what is returned
pub data Response (T E : Type 0) : Type 0 where
  failed : ℕ → String → Response T E
  server_error : E → Response T E
  done : Response T E
  found : T → Response T E
  seeded : ℕ → Response T E

abbrev pub send : {V : Type 0} → Server V → Event → Server V
send s event = record s { broadcast = s.broadcast ++ (event ∷ []) }

module _ {V T E : Type 0} (api : ValidatorInterface V T E) where
  -- what a method of the validator returned, and the event of its success
  abbrev pub answer : Server V → V × Option E → Event → Server V × Response T E
  answer s (v, some e) event = (record s { validator = v }, server_error e)
  answer s (v, none) event = (send (record s { validator = v }) event, done)

  unfoldable pub handle_validate_ticket :
      Server V → ℤ → Option (String × String) → Server V × Response T E
  handle_validate_ticket s now none = (s, failed 400 "Invalid request body")
  handle_validate_ticket s now (some (ticket_id, payload)) =
      if ticket_id == ""
      then (s, failed 400 "ticket_id is required")
      else answer s (api.validate_ticket s.validator now ticket_id payload)
          (ticket_event "ticket_validated" ticket_id)

  unfoldable pub handle_consume_ticket : Server V → ℤ → Option String → Server V × Response T E
  handle_consume_ticket s now none = (s, failed 400 "Invalid request body")
  handle_consume_ticket s now (some ticket_id) =
      if ticket_id == ""
      then (s, failed 400 "ticket_id is required")
      else answer s (api.consume_ticket s.validator now ticket_id)
          (ticket_event "ticket_consumed" ticket_id)

  unfoldable pub handle_dispute_ticket : Server V → ℤ → Option String → Server V × Response T E
  handle_dispute_ticket s now none = (s, failed 400 "Invalid request body")
  handle_dispute_ticket s now (some ticket_id) =
      if ticket_id == ""
      then (s, failed 400 "ticket_id is required")
      else answer s (api.dispute_ticket s.validator now ticket_id)
          (ticket_event "ticket_disputed" ticket_id)

  abbrev pub answer_seeded : Server V → V × (E ⊎ ℕ) → Server V × Response T E
  answer_seeded s (v, inl e) = (record s { validator = v }, server_error e)
  answer_seeded s (v, inr n) = (send (record s { validator = v }) (tickets_seeded n), seeded n)

  unfoldable pub handle_seed_tickets : Server V → ℤ → Server V × Response T E
  handle_seed_tickets s now = answer_seeded s (api.seed_tickets s.validator now)

  unfoldable pub handle_get_ticket : Server V → String → Response T E
  handle_get_ticket s ticket_id = elim (api.get_ticket s.validator ticket_id) [
    | none ↦ failed 404 "Ticket not found"
    | some ticket ↦ found ticket
  ]
