-- ===== src/Validator/Seed.antt =====
-- cmd/validator/main.go, `SeedTickets`. `now` is the clock of the call, which the source reads once
-- for each ticket.
pub mod Forgets
use Prim.Native.String.{len, slice, ◌++◌ as str_append}
use dtvn.Prelude.{
  ℕ, zero, suc, ◌+◌, ◌-◌, ◌/◌, ◌%◌, String, List, [], ◌∷◌, if◌then◌else◌, ◌==◌, nat_eq, ltb,
}
use dtvn.Prelude.Int.{ℤ, pos}
use dtvn.Prelude.Decimal.{format_int}
use dtvn.State.VectorClock
use dtvn.State.Machine.{Ticket, TicketState, seed_tickets}
use dtvn.Storage.{Bolt, Json, TicketRecord, save_ticket}
use dtvn.Storage.Keys.{zeros}
use dtvn.Validator.{ValidatorNode}

-- the verb `%03d` for a number that is not negative
unfoldable pub format_03d : ℕ → String
unfolding zeros
format_03d n = let s = format_int (pos n) in zeros (3 - len s) s

-- `sections[sectionIdx]` and `prices[sectionIdx]`
unfoldable pub section_name : ℕ → String
section_name k =
    if k == 0 then "VIP" else if k == 1 then "Floor" else if k == 2 then "Balcony" else "General"

unfoldable pub price : ℕ → String
price k =
    if k == 0 then "150.00" else if k == 1 then "85.00" else if k == 2 then "65.00" else "40.00"

-- `string(rune('A' + k))` for k < 26
unfoldable pub row : ℕ → String
row k = slice "ABCDEFGHIJKLMNOPQRSTUVWXYZ" k (k + 1)

unfoldable pub concat : List String → String
concat [] = ""
concat (s ∷ ss) = str_append s (concat ss)

-- the text of the ticket with the number `i`, from 1 on
unfoldable pub seed_data : ℕ → String
unfolding section_name price row concat format_03d
seed_data i =
    let section_idx = (i - 1) % 4 in
    concat (
      "{\"event\":\"Summer Music Festival 2026\",\"venue\":\"Grand Arena\",\"section\":\""
      ∷ section_name section_idx
      ∷ "\",\"seat\":\""
      ∷ row (((i - 1) / 10) % 26)
      ∷ format_int (pos ((i - 1) % 10 + 1))
      ∷ "\",\"price\":\""
      ∷ price section_idx
      ∷ "\",\"buyer\":\"buyer_"
      ∷ format_03d i
      ∷ "@email.com\"}"
      ∷ [])

unfoldable pub seed_ticket_id : ℕ → String
unfolding format_03d
seed_ticket_id i = str_append "TICKET-" (format_03d i)

-- the vector clock of the source is nil
unfoldable pub seed_ticket : ℕ → ℤ → Ticket
unfolding seed_ticket_id seed_data
seed_ticket i now = record {
  id = seed_ticket_id i;
  state = TicketState.issued;
  payload = seed_data i;
  validator_id = "";
  timestamp = now;
  vector_clock = record { node_id = ""; clocks = [] };
  metadata = ("source", "seed") ∷ [];
}

-- the loop: the tickets with the numbers from `i` on, `count` of them
unfoldable pub seeds_from : ℕ → ℕ → ℤ → List Ticket
unfolding seed_ticket
seeds_from zero i now = []
seeds_from (suc count) i now = seed_ticket i now ∷ seeds_from count (suc i) now

abbrev pub seed_count : ℕ
seed_count = 500

-- the record that the last loop saves for a ticket
unfoldable pub seeded_record : Ticket → TicketRecord
seeded_record t = record {
  id = t.id;
  state = "ISSUED";
  payload = t.payload;
  validator_id = "";
  timestamp = t.timestamp;
  vector_clock = [];
  metadata = t.metadata;
}

module _ {Db Bytes : Type 0} (bolt : Bolt Db Bytes) (json : Json Bytes) where
  -- the last loop; an error is printed
  unfoldable pub save_seeds : Db → List Ticket → Db
  unfolding seeded_record
  save_seeds db [] = db
  save_seeds db (t ∷ ts) = save_seeds (save_ticket bolt json db (seeded_record t)).0 ts

  -- the node with the tickets of the machine's `SeedTickets`, and how many it took
  unfoldable pub seed : ValidatorNode Db → List Ticket → ValidatorNode Db × ℕ
  unfolding save_seeds
  seed n tickets =
      let (machine, seeded) = seed_tickets n.state_machine tickets in
      (record n { state_machine = machine; storage = save_seeds n.storage tickets }, seeded)

  unfoldable pub seed_all : ValidatorNode Db → ℤ → ValidatorNode Db × ℕ
  unfolding seed seeds_from
  seed_all n now = seed n (seeds_from seed_count 1 now)
