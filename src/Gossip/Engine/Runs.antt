-- ===== src/Gossip/Engine/Runs.antt =====
-- Everything that can happen to a gossip engine, as data, and what holds after any of it.
use dtvn.Prelude.{
  ℕ, ◌-◌, ◌≤◌, String, List, [], ◌∷◌, ◌≡◌, refl, length, string_eq, arith, Bool-cases, ltb, inl,
  inr, nat_eq,
}
use dtvn.Prelude.Int.{ℤ, ltb_ℤ, pos}
use dtvn.Prelude.GoMap.{GoMap, IsMap, lookup}
use dtvn.Prelude.GoMap.Laws.{IsMap-insert}
use dtvn.Gossip.Message.{Message}
use dtvn.Gossip.Cache
use dtvn.Gossip.Engine.{
  GossipEngine, Hashes, new, enqueue, generate_message_id, publish, receive_message, accept, heard,
  channel_capacity, collect, register_handler, process_next, refill, disseminate_message,
  perform_anti_entropy, adjust_fanout, cleanup_expired_entries, expire, drop_excess,
  sent_messages_max_size, sent_messages_ttl,
}
use dtvn.Gossip.Engine.Cleanup.{IsMap-expire, length-cleanup_expired_entries}
use dtvn.Gossip.Engine.Left.{IsMap-delete_all}
use dtvn.Gossip.Engine.Forget.{Forgets, cleanup_expired_entries-Forgets}

-- Calls of methods, and rounds of the loops.
pub data EngineEvent : Type 0 where
  publishes : String → ℤ → ℕ → EngineEvent
  receives : Message → EngineEvent
  registers : ℕ → EngineEvent
  disseminates : List String → List ℕ → EngineEvent
  reconciles : List String → ℕ → EngineEvent
  adjusts : ℕ → EngineEvent
  cleans : ℕ → EngineEvent

module _ (hashes : Hashes) where
  unfoldable pub apply : GossipEngine → EngineEvent → GossipEngine
  apply g (publishes payload unix now) = publish hashes g payload unix now
  apply g (receives msg) = receive_message hashes g msg
  apply g (registers handler) = register_handler g handler
  apply g (disseminates peers draws) = process_next g peers draws g.message_chan
  apply g (reconciles peers draw) = perform_anti_entropy g peers draw
  apply g (adjusts root) = adjust_fanout g root
  apply g (cleans now) = cleanup_expired_entries g now

  unfoldable pub run : GossipEngine → List EngineEvent → GossipEngine
  unfolding apply
  run g [] = g
  run g (e ∷ es) = run (apply g e) es

-- The messages sent are a map. Nothing writes to the digests received.
record IsTidy (g : GossipEngine) : Type 0 where
  sent : IsMap g.sent_messages
  received : g.received_digests ≡ []

enqueue-IsTidy : (g : GossipEngine) (msg : Message) → IsTidy g → IsTidy (enqueue g msg)
unfolding enqueue
enqueue-IsTidy g msg t = elim (Bool-cases (ltb (length g.message_chan) channel_capacity)) [
  | inl e ↦ rw e (record { sent = t.sent; received = t.received })
  | inr e ↦ rw e (record { sent = t.sent; received = t.received })
]

IsMap-drop_excess : (m : GoMap String ℕ) → IsMap m → IsMap (drop_excess m)
unfolding drop_excess
IsMap-drop_excess m d =
    ground (arith, IsMap-delete_all (collect (length m - sent_messages_max_size) [] m) m d)

cleanup_expired_entries-IsTidy :
    (g : GossipEngine) (now : ℕ) → IsTidy g → IsTidy (cleanup_expired_entries g now)
unfolding cleanup_expired_entries expire
cleanup_expired_entries-IsTidy g now t = record {
  sent =
      IsMap-drop_excess (expire (now - sent_messages_ttl) g.sent_messages)
        (IsMap-expire (now - sent_messages_ttl) g.sent_messages t.sent);
  received = rw t.received refl;
}

disseminate_message-IsTidy :
    (g : GossipEngine) (peers : List String) (draws : List ℕ) (msg : Message)
    → IsTidy g
    → IsTidy (disseminate_message g peers draws msg)
unfolding disseminate_message
disseminate_message-IsTidy g [] draws msg t = ground arith
disseminate_message-IsTidy g (p ∷ ps) draws msg t = ground arith

refill-IsTidy : (g : GossipEngine) (msgs : List Message) → IsTidy g → IsTidy (refill g msgs)
unfolding refill
refill-IsTidy g [] t = t
refill-IsTidy g (msg ∷ msgs) t = record { sent = t.sent; received = t.received }

process_next-IsTidy :
    (g : GossipEngine) (peers : List String) (draws : List ℕ) (msgs : List Message)
    → IsTidy g
    → IsTidy (process_next g peers draws msgs)
unfolding process_next
process_next-IsTidy g peers draws [] t = t
process_next-IsTidy g peers draws (msg ∷ msgs) t =
    disseminate_message-IsTidy (refill (record g { message_chan = msgs }) g.waiting) peers draws msg
      (refill-IsTidy (record g { message_chan = msgs }) g.waiting
        (record { sent = t.sent; received = t.received }))

module _ (hashes : Hashes) where
  receive_message-IsTidy :
      (g : GossipEngine) (msg : Message) → IsTidy g → IsTidy (receive_message hashes g msg)
  unfolding receive_message accept
  receive_message-IsTidy g msg t =
      let accepted : IsTidy (accept hashes g msg) = record {
        sent = t.sent;
        received = t.received;
      } in
      elim (Bool-cases (Cache.contains hashes.fnv g.cache msg.id)) [
        | inl e ↦ rw e t
        | inr e ↦ rw e (elim (Bool-cases (ltb_ℤ (pos 0) (heard g msg).ttl)) [
          | inl h ↦ rw h (enqueue-IsTidy (accept hashes g msg) (heard g msg) accepted)
          | inr h ↦ rw h accepted
        ])
      ]

  apply-IsTidy : (g : GossipEngine) (e : EngineEvent) → IsTidy g → IsTidy (apply hashes g e)
  unfolding apply publish register_handler process_next perform_anti_entropy adjust_fanout
  apply-IsTidy g (publishes payload unix now) t = enqueue-IsTidy _ _ (record {
    sent = IsMap-insert (generate_message_id hashes payload) now g.sent_messages t.sent;
    received = t.received;
  })
  apply-IsTidy g (receives msg) t = receive_message-IsTidy g msg t
  apply-IsTidy g (registers handler) t = record { sent = t.sent; received = t.received }
  apply-IsTidy g (disseminates peers draws) t = process_next-IsTidy g peers draws g.message_chan t
  apply-IsTidy g (reconciles peers draw) t = ground arith
  apply-IsTidy g (adjusts root) t = record { sent = t.sent; received = t.received }
  apply-IsTidy g (cleans now) t = cleanup_expired_entries-IsTidy g now t

  run-IsTidy : (g : GossipEngine) (es : List EngineEvent) → IsTidy g → IsTidy (run hashes g es)
  unfolding run
  run-IsTidy g [] t = t
  run-IsTidy g (e ∷ es) t = run-IsTidy (apply hashes g e) es (apply-IsTidy g e t)

  new-IsTidy : (node_id : String) (fanout : ℕ) → IsTidy (new node_id fanout)
  unfolding new
  new-IsTidy node_id fanout = record { sent = tt; received = refl }

  -- After any sequence of events of a new gossip engine, a cleanup leaves no more messages sent
  -- than the hard cap. One that is kept has its instant as before, not before the cutoff. One that
  -- is no longer there lay before the cutoff, or the cap is reached and no message that is kept is
  -- older. No id is added, and the digests received are empty.
  pub cleanup_expired_entries-run-new :
      (node_id : String) (fanout : ℕ) (events : List EngineEvent) (now : ℕ) (id : String)
      → let g = run hashes (new node_id fanout) events in
        let cleaned = cleanup_expired_entries g now in
        (length cleaned.sent_messages ≤ sent_messages_max_size)
        × Forgets (now - sent_messages_ttl) cleaned.sent_messages id (lookup id g.sent_messages)
        × (cleaned.received_digests ≡ [])
  cleanup_expired_entries-run-new node_id fanout events now id =
      let g = run hashes (new node_id fanout) events in
      let t = run-IsTidy (new node_id fanout) events (new-IsTidy node_id fanout) in
      (
        length-cleanup_expired_entries g now t.sent,
        cleanup_expired_entries-Forgets g now id t.sent,
        (cleanup_expired_entries-IsTidy g now t).received,
      )
