-- ===== src/Gossip/Engine.antt =====
-- pkg/gossip/engine.go, the `GossipEngine`. A handler is a reference; the errors that handlers and
-- peers return are printed and change nothing. `handled` and `sent` list the calls of handlers and
-- of `SendMessage`, newest first. Instants are nanoseconds. A send to a full channel waits: the
-- message is then in `waiting`, and goes on when a round takes one from the channel. The cache
-- stores the pointer to a message that `ReceiveMessage` changes afterwards, so it is stored as
-- changed. An engine that is closed is not modelled.
pub mod Relay
pub mod Cleanup
pub mod Oldest
pub mod Left
pub mod Forget
pub mod Runs
use Prim.Native.String.{◌++◌ as str_append}
use dtvn.Prelude.{
  ℕ, zero, suc, ◌+◌, ◌-◌, ◌*◌, ◌^◌, String, Bool, true, false, Option, none, some, List, [], ◌∷◌,
  ◌++◌, if◌then◌else◌, ◌==◌, ltb, length, nat_eq, string_eq,
}
use dtvn.Prelude.Int.{ℤ, pos, negsuc, ltb_ℤ}
use dtvn.Prelude.GoMap.{GoMap, lookup, insert, delete}
use dtvn.Prelude.Arrays.{get_or, set}
use dtvn.Gossip.Message.{Message}
use dtvn.Gossip.Cache
use dtvn.Gossip.Cache.{MessageCache}
use dtvn.Gossip.Peers.{select_random_peers}

abbrev pub default_ttl : ℤ
default_ttl = pos 10

abbrev pub message_cache_size : ℕ
message_cache_size = 10000

-- ten minutes
abbrev pub sent_messages_ttl : ℕ
sent_messages_ttl = 600000000000

abbrev pub sent_messages_max_size : ℕ
sent_messages_max_size = 50000

abbrev pub channel_capacity : ℕ
channel_capacity = 1000

pub record GossipEngine : Type 0 where
  pub node_id : String
  pub fanout : ℕ
  pub cache : MessageCache
  pub message_chan : List Message
  pub waiting : List Message
  pub handlers : List ℕ
  pub sent_messages : GoMap String ℕ
  pub received_digests : GoMap String ℕ
  pub handled : List (ℕ × Message)
  pub sent : List (String × String)

-- What the engine takes from the standard library: the sum of hash/fnv, and the SHA-256 of a
-- payload in hexadecimal.
pub record Hashes : Type 0 where
  pub fnv : String → ℕ
  pub sha256_hex : String → String

unfoldable pub new : String → ℕ → GossipEngine
new node_id fanout = record {
  node_id = node_id;
  fanout = if fanout == 0 then 3 else fanout;
  cache = Cache.new message_cache_size;
  message_chan = [];
  waiting = [];
  handlers = [];
  sent_messages = [];
  received_digests = [];
  handled = [];
  sent = [];
}

-- `g.messageChan <- msg`
unfoldable pub enqueue : GossipEngine → Message → GossipEngine
enqueue g msg =
    if ltb (length g.message_chan) channel_capacity
    then record g { message_chan = g.message_chan ++ msg ∷ [] }
    else record g { waiting = g.waiting ++ msg ∷ [] }

unfoldable pub generate_message_id : Hashes → String → String
generate_message_id hashes payload = hashes.sha256_hex payload

-- the new message of `Publish`
abbrev pub published : Hashes → GossipEngine → String → ℤ → Message
published hashes g payload unix = record {
  id = generate_message_id hashes payload;
  payload = payload;
  ttl = default_ttl;
  seen_by = g.node_id ∷ [];
  timestamp = unix;
}

-- `unix` and `now` are the clock in seconds and in nanoseconds
unfoldable pub publish : Hashes → GossipEngine → String → ℤ → ℕ → GossipEngine
unfolding enqueue
publish hashes g payload unix now =
    let msg = published hashes g payload unix in
    enqueue
      (record g {
        cache = Cache.add hashes.fnv g.cache msg;
        sent_messages = insert msg.id now g.sent_messages;
      })
      msg

-- `x--` on an `int32` wraps from -2^31 to 2^31 - 1.
abbrev pub decr_int32 : ℤ → ℤ
decr_int32 (pos zero) = negsuc 0
decr_int32 (pos (suc n)) = pos n
decr_int32 (negsuc n) = if n + 1 == 2 ^ 31 then pos (2 ^ 31 - 1) else negsuc (suc n)

-- a message as a node passes it on
abbrev pub heard : GossipEngine → Message → Message
heard g msg = record msg { seen_by = msg.seen_by ++ g.node_id ∷ []; ttl = decr_int32 msg.ttl }

-- the loop over the handlers
unfoldable pub call_handlers : List ℕ → Message → List (ℕ × Message) → List (ℕ × Message)
call_handlers [] msg handled = handled
call_handlers (h ∷ hs) msg handled = call_handlers hs msg ((h, msg) ∷ handled)

-- `ReceiveMessage` of a message that is new, up to the test of its TTL
unfoldable pub accept : Hashes → GossipEngine → Message → GossipEngine
unfolding call_handlers
accept hashes g msg = record g {
  cache = Cache.add hashes.fnv g.cache (heard g msg);
  handled = call_handlers g.handlers (heard g msg) g.handled;
}

unfoldable pub receive_message : Hashes → GossipEngine → Message → GossipEngine
unfolding accept enqueue
receive_message hashes g msg =
    if Cache.contains hashes.fnv g.cache msg.id
    then g
    else let accepted = accept hashes g msg in
      if ltb_ℤ (pos 0) (heard g msg).ttl then enqueue accepted (heard g msg) else accepted

unfoldable pub register_handler : GossipEngine → ℕ → GossipEngine
register_handler g handler = record g { handlers = g.handlers ++ handler ∷ [] }

-- the loop over the selected peers; a message is serialized as its payload
unfoldable pub send_all : String → List String → List (String × String) → List (String × String)
send_all payload [] sent = sent
send_all payload (p ∷ ps) sent = send_all payload ps ((p, payload) ∷ sent)

unfoldable pub disseminate_message : GossipEngine → List String → List ℕ → Message → GossipEngine
unfolding send_all
disseminate_message g peers draws msg =
    let fanout = if ltb (length peers) g.fanout then length peers else g.fanout in
    if length peers == 0
    then g
    else record g { sent = send_all msg.payload (select_random_peers peers fanout draws) g.sent }

-- the channel has room for one more: the send that waited longest goes on
unfoldable pub refill : GossipEngine → List Message → GossipEngine
refill g [] = g
refill g (msg ∷ msgs) = record g { message_chan = g.message_chan ++ msg ∷ []; waiting = msgs }

-- one round of `processMessages`: the oldest message of the channel
unfoldable pub process_next : GossipEngine → List String → List ℕ → List Message → GossipEngine
unfolding refill
process_next g peers draws [] = g
process_next g peers draws (msg ∷ msgs) =
    disseminate_message (refill (record g { message_chan = msgs }) g.waiting) peers draws msg

-- `strings.Join(digests, ",")`
unfoldable pub serialize_digests : List String → String
serialize_digests [] = ""
serialize_digests (d ∷ []) = d
serialize_digests (d ∷ e ∷ ds) = str_append d (str_append "," (serialize_digests (e ∷ ds)))

-- `draw` is what `rand.Intn(len(peers))` returns
unfoldable pub perform_anti_entropy : GossipEngine → List String → ℕ → GossipEngine
unfolding serialize_digests
perform_anti_entropy g peers draw = if length peers == 0 then g else record g {
  sent = (get_or peers "" draw, serialize_digests (Cache.get_digests g.cache)) ∷ g.sent;
}

-- one round of `adjustFanout`; `root` is what `int(math.Sqrt(float64(peerCount)))` is
unfoldable pub adjust_fanout : GossipEngine → ℕ → GossipEngine
adjust_fanout g root =
    let low = if ltb root 3 then 3 else root in record g { fanout = if ltb 10 low then 10 else low }

-- `for id, ts := range m { if ts.Before(cutoff) { delete(m, id) } }`
unfoldable pub expire : ℕ → GoMap String ℕ → GoMap String ℕ
expire cutoff [] = []
expire cutoff ((id, ts) ∷ m) =
    let rest = expire cutoff m in if ltb ts cutoff then rest else (id, ts) ∷ rest

-- the inner loop: the index of the newest entry, `best` so far, from index `i` on
unfoldable pub newest_from : ℕ → ℕ → ℕ → List (String × ℕ) → ℕ
newest_from best best_ts i [] = best
newest_from best best_ts i ((id, ts) ∷ oldest) =
    let newer = ltb best_ts ts in
    newest_from (if newer then i else best) (if newer then ts else best_ts) (suc i) oldest

unfoldable pub newest : List (String × ℕ) → ℕ
unfolding newest_from
newest [] = 0
newest ((id, ts) ∷ oldest) = newest_from 0 ts 1 oldest

-- an entry takes the place of the newest of `oldest` if it is older than that one
unfoldable pub replace_newest : List (String × ℕ) → String × ℕ → List (String × ℕ)
unfolding newest
replace_newest oldest e =
    let i = newest oldest in if ltb e.1 (get_or oldest ("", 0) i).1 then set oldest i e else oldest

-- the loop that finds the `excess` oldest entries
unfoldable pub collect : ℕ → List (String × ℕ) → GoMap String ℕ → List (String × ℕ)
unfolding replace_newest
collect excess oldest [] = oldest
collect excess oldest (e ∷ m) =
    collect excess
      (if ltb (length oldest) excess then oldest ++ e ∷ [] else replace_newest oldest e) m

unfoldable pub delete_all : List (String × ℕ) → GoMap String ℕ → GoMap String ℕ
delete_all [] m = m
delete_all ((id, ts) ∷ oldest) m = delete_all oldest (delete id m)

-- the hard cap
unfoldable pub drop_excess : GoMap String ℕ → GoMap String ℕ
unfolding collect delete_all
drop_excess m =
    if ltb sent_messages_max_size (length m)
    then delete_all (collect (length m - sent_messages_max_size) [] m) m
    else m

unfoldable pub cleanup_expired_entries : GossipEngine → ℕ → GossipEngine
unfolding expire drop_excess
cleanup_expired_entries g now =
    let cutoff = now - sent_messages_ttl in
    record g {
      sent_messages = drop_excess (expire cutoff g.sent_messages);
      received_digests = expire cutoff g.received_digests;
    }

unfoldable pub get_cache_size : GossipEngine → ℕ
get_cache_size g = Cache.size g.cache
