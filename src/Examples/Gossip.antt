-- ===== src/Examples/Gossip.antt =====
-- A cache of two messages, and an engine that hears a message.
use dtvn.Prelude.{◌≤◌, String, Bool, List, [], ◌∷◌, ◌==◌, ◌≡◌, refl, length, string_eq, arith}
use dtvn.Prelude.Int.{pos}
use dtvn.Prelude.Arrays.{take}
use dtvn.Gossip.Message.{Message}
use dtvn.Gossip.Cache
use dtvn.Gossip.Cache.Elements.{entries}
use dtvn.Gossip.Cache.History
use dtvn.Gossip.Cache.History.{Use, added, wanted, history, entries-run-new}
use dtvn.Gossip.Engine.{
  GossipEngine, Hashes, new, receive_message, cleanup_expired_entries, sent_messages_max_size,
}
use dtvn.Gossip.Cache.Recency.{IsValid-new}
use dtvn.Gossip.Engine.Relay.{IsReceived, receive_message-IsReceived}
use dtvn.Gossip.Engine.Forget.{Forgets}
use dtvn.Gossip.Engine.Runs.{EngineEvent, publishes, receives, run, cleanup_expired_entries-run-new}
use dtvn.Prelude.GoMap.{lookup}

abbrev hashes : Hashes
hashes = record { fnv = λ text. 7; sha256_hex = λ text. text }

abbrev message : String → Message
message id = record { id = id; payload = "data"; ttl = pos 3; seen_by = []; timestamp = pos 1 }

abbrev uses : List Use
uses = added (message "a") ∷ added (message "b") ∷ wanted "a" ∷ added (message "c") ∷ []

entries-run-new_example :
    entries (History.run hashes.fnv (Cache.new 2) uses).lru ≡ take 2 (history 2 [] uses)
entries-run-new_example = entries-run-new hashes.fnv 2 uses (omega arith)

abbrev engine : GossipEngine
engine = record {
  node_id = "node0";
  fanout = 3;
  cache = Cache.new 2;
  message_chan = [];
  waiting = [];
  handlers = 1 ∷ [];
  sent_messages = ("a", 5) ∷ [];
  received_digests = [];
  handled = [];
  sent = [];
}

receive_message-IsReceived_example :
    IsReceived engine (message "a") 2 (receive_message hashes engine (message "a"))
receive_message-IsReceived_example =
    receive_message-IsReceived hashes engine (message "a") 2
      (IsValid-new hashes.fnv 2 (omega arith)) refl

-- "a" is older than the cutoff, 10, and "b" is not
abbrev events : List EngineEvent
events = publishes "a" (pos 1) 5 ∷ receives (message "c") ∷ publishes "b" (pos 1) 20 ∷ []

cleanup_expired_entries-run-new_example :
    let g = run hashes (new "node0" 3) events in
    let cleaned = cleanup_expired_entries g 600000000010 in
    (length cleaned.sent_messages ≤ sent_messages_max_size)
    × Forgets 10 cleaned.sent_messages "a" (lookup "a" g.sent_messages)
    × (cleaned.received_digests ≡ [])
cleanup_expired_entries-run-new_example =
    cleanup_expired_entries-run-new hashes "node0" 3 events 600000000010 "a"

abbrev peers : List String
peers = "p" ∷ "q" ∷ "r" ∷ []

abbrev is_q : String → Bool
is_q peer = peer == "q"
