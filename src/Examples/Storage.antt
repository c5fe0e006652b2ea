-- ===== src/Examples/Storage.antt =====
-- A ticket and a checkpoint in a store.
use dtvn.Prelude.{String, Bool, none, [], ◌∷◌, ◌≡◌, ◌≢◌, refl, string_eq, arith}
use dtvn.Prelude.Int.{pos, ltb_ℤ}
use dtvn.Storage.{
  TicketRecord, CheckpointRecord, ok, save_ticket, get_ticket, save_checkpoint,
  get_latest_checkpoint,
}
use dtvn.Storage.Laws.{Agrees, get_ticket-save_ticket}
use dtvn.Storage.Latest.{In, SavedAll, saved, empty, get_latest_checkpoint_lem}
use dtvn.Examples.Disk.{Disk, bolt, json, bolt-IsBolt, json-IsJson}

abbrev blank : Disk
blank = none

abbrev ticket_record : TicketRecord
ticket_record = record {
  id = "t1";
  state = "VALIDATED";
  payload = "data";
  validator_id = "node2";
  timestamp = pos 7;
  vector_clock = ("node0", 1) ∷ [];
  metadata = [];
}

get_ticket-save_ticket_example :
    ((t : TicketRecord) × (get_ticket bolt json (save_ticket bolt json blank ticket_record).0 "t1"
        ≡ ok t)
      × Agrees ticket_record t)
    × ((id : String)
        → "t1" ≢ id
        → get_ticket bolt json (save_ticket bolt json blank ticket_record).0 id
          ≡ get_ticket bolt json blank id)
unfolding save_ticket
get_ticket-save_ticket_example =
    get_ticket-save_ticket bolt bolt-IsBolt json json-IsJson blank ticket_record refl

abbrev checkpoint_record : CheckpointRecord
checkpoint_record = record {
  sequence = pos 20;
  state_digest = "digest";
  node_id = "node0";
  timestamp = pos 8;
}

one_saved :
    SavedAll bolt json
      (checkpoint_record ∷ [])
      (save_checkpoint bolt json blank checkpoint_record).0
unfolding save_checkpoint
one_saved =
    saved blank checkpoint_record (empty blank λ k. refl)
      (record { number = 20; sequence_eq = refl; bounded = omega arith }) refl

get_latest_checkpoint_lem_example :
    (c : CheckpointRecord) × (get_latest_checkpoint bolt json
        (save_checkpoint bolt json blank checkpoint_record).0
      ≡ ok c)
    × In c (checkpoint_record ∷ [])
    × ((d : CheckpointRecord)
        → In d (checkpoint_record ∷ [])
        → ltb_ℤ c.sequence d.sequence ≡ Bool.false)
get_latest_checkpoint_lem_example =
    get_latest_checkpoint_lem bolt json bolt-IsBolt json-IsJson []
      (save_checkpoint bolt json blank checkpoint_record).0 checkpoint_record one_saved
