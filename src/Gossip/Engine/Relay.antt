-- ===== src/Gossip/Engine/Relay.antt =====
-- What a message does to an engine: it is handled once while it is remembered, and passed on unless
-- its TTL is used up.
use mathlib.Core.List.{append_assoc}
use dtvn.Prelude.{
  sym, if◌then◌else◌, ◌⊎◌, ℕ, zero, suc, ◌≤◌, ◌<◌, String, true, false, some, List, [], ◌∷◌, ◌++◌,
  ◌≡◌, refl, ltb, ap, ◌∙◌, inl, inr, length, nat_eq, string_eq, arith, Bool-cases, beq_refl,
}
use dtvn.Prelude.Int.{pos, ltb_ℤ}
use dtvn.Prelude.Arrays.{take}
use dtvn.Prelude.GoMap.{GoMap, lookup}
use dtvn.Prelude.GoMap.Laws.{is_some}
use dtvn.Gossip.Message.{Message}
use dtvn.Gossip.Cache
use dtvn.Gossip.Cache.{MessageCache}
use dtvn.Gossip.Cache.Elements.{entries}
use dtvn.Gossip.Cache.Recency.{IsValid, touch, Added, add-Added, contains_lem}
use dtvn.Gossip.Engine.{
  GossipEngine, Hashes, call_handlers, decr_int32, channel_capacity, enqueue, heard, accept,
  receive_message,
}

lookup-take-touch :
    (n : ℕ) (k : String) (m : Message) (l : GoMap String Message)
    → 0 < n
    → lookup k (take n (touch k m l)) ≡ some m
unfolding lookup
lookup-take-touch zero k m l h = absurd (omega arith)
lookup-take-touch (suc n) k m l h = ground (arith, beq_refl k)

module _ (hashes : Hashes) where
  -- What is added is remembered.
  contains-add :
      (mc : MessageCache) (m : Message)
      → IsValid hashes.fnv mc
      → 0 < mc.capacity
      → Cache.contains hashes.fnv (Cache.add hashes.fnv mc m) m.id ≡ true
  contains-add mc m v p =
      let a : Added hashes.fnv mc m (Cache.add hashes.fnv mc m) = add-Added hashes.fnv mc m v in
      contains_lem hashes.fnv (Cache.add hashes.fnv mc m) m.id a.valid
      ∙ ap (λ l. is_some (lookup m.id l)) a.window
      ∙ ap is_some (lookup-take-touch mc.capacity m.id m (entries mc.lru) p)

  cache-enqueue : (g : GossipEngine) (m : Message) → (enqueue g m).cache ≡ g.cache
  unfolding enqueue
  cache-enqueue g m = ground arith

  cache-accept :
      (g : GossipEngine) (m : Message)
      → Cache.contains hashes.fnv g.cache m.id ≡ false
      → (receive_message hashes g m).cache ≡ Cache.add hashes.fnv g.cache (heard g m)
  unfolding receive_message accept
  cache-accept g m e = ground (arith, cache-enqueue (accept hashes g m) (heard g m))

  receive_known :
      (g : GossipEngine) (m : Message)
      → Cache.contains hashes.fnv g.cache m.id ≡ true
      → receive_message hashes g m ≡ g
  unfolding receive_message
  receive_known g m c = rw (c, receive_message) refl

  contains-receive_message :
      (g : GossipEngine) (m : Message)
      → IsValid hashes.fnv g.cache
      → 0 < g.cache.capacity
      → Cache.contains hashes.fnv (receive_message hashes g m).cache m.id ≡ true
  contains-receive_message g m v p = elim (Bool-cases (Cache.contains hashes.fnv g.cache m.id)) [
    | inl c ↦ rw (receive_known g m c) c
    | inr c ↦ rw (cache-accept g m c) (contains-add g.cache (heard g m) v p)
  ]

  -- An engine with a valid cache of a capacity that is not 0, that has just taken in a message, is
  -- not changed by another message with that id.
  receive_message_again :
      (g : GossipEngine) (m again : Message)
      → IsValid hashes.fnv g.cache
      → 0 < g.cache.capacity
      → again.id ≡ m.id
      → receive_message hashes (receive_message hashes g m) again ≡ receive_message hashes g m
  receive_message_again g m again v p e =
      receive_known (receive_message hashes g m) again (rw e (contains-receive_message g m v p))

-- The message as the engine has it: this node has seen it too, and `t` is left of its TTL.
abbrev pub seen : GossipEngine → Message → ℕ → Message
seen g m t = record m { seen_by = m.seen_by ++ g.node_id ∷ []; ttl = pos t }

-- A message with nothing left of its TTL goes nowhere. Another goes to the end of the channel, or
-- waits if that is full.
abbrev pub IsQueued : ℕ → Message → GossipEngine → GossipEngine → Type 0
IsQueued zero m g g' = (g'.message_chan ≡ g.message_chan) × (g'.waiting ≡ g.waiting)
IsQueued (suc t) m g g' =
    ((length g.message_chan < 1000)
      × (g'.message_chan ≡ g.message_chan ++ m ∷ [])
      × (g'.waiting ≡ g.waiting))
    ⊎ ((1000 ≤ length g.message_chan)
        × (g'.message_chan ≡ g.message_chan)
        × (g'.waiting ≡ g.waiting ++ m ∷ []))

-- A call of each handler with the message, the last one first.
abbrev pub calls : List ℕ → Message → List (ℕ × Message)
calls [] m = []
calls (h ∷ hs) m = calls hs m ++ (h, m) ∷ []

-- What a message does to an engine.
pub data IsReceived (g : GossipEngine) (m : Message) (t : ℕ) (g' : GossipEngine) : Type 0 where
  known : is_some (lookup m.id (entries g.cache.lru)) ≡ true → g' ≡ g → IsReceived g m t g'
  taken_in :
      is_some (lookup m.id (entries g.cache.lru)) ≡ false
      → entries g'.cache.lru ≡ take g.cache.capacity (touch m.id (seen g m t) (entries g.cache.lru))
      → g'.handled ≡ calls g.handlers (seen g m t) ++ g.handled
      → IsQueued t (seen g m t) g g'
      → g' ≡ record g {
        cache = g'.cache;
        handled = g'.handled;
        message_chan = g'.message_chan;
        waiting = g'.waiting;
      }
      → IsReceived g m t g'

call_handlers_lem :
    (hs : List ℕ) (m : Message) (handled : List (ℕ × Message))
    → call_handlers hs m handled ≡ calls hs m ++ handled
unfolding call_handlers
call_handlers_lem [] m handled = refl
call_handlers_lem (h ∷ hs) m handled =
    call_handlers_lem hs m ((h, m) ∷ handled)
    ∙ sym (append_assoc (calls hs m) ((h, m) ∷ []) handled)

heard_lem : (g : GossipEngine) (m : Message) (t : ℕ) → m.ttl ≡ pos (suc t) → heard g m ≡ seen g m t
heard_lem g m t e =
    ap (λ ttl. record m { seen_by = m.seen_by ++ g.node_id ∷ []; ttl = decr_int32 ttl }) e

-- The engine behind the handlers, and what becomes of the message.
module _ (hashes : Hashes) (g : GossipEngine) (m : Message) where
  abbrev forwarded : GossipEngine
  forwarded =
      if ltb_ℤ (pos 0) (heard g m).ttl
      then enqueue (accept hashes g m) (heard g m)
      else accept hashes g m

  forwarded-IsQueued : (t : ℕ) → m.ttl ≡ pos (suc t) → IsQueued t (seen g m t) g forwarded
  unfolding accept enqueue
  forwarded-IsQueued zero e = (ground (arith, e), ground (arith, e))
  forwarded-IsQueued (suc t) e = elim (Bool-cases (ltb (length g.message_chan) channel_capacity)) [
    | inl c ↦ inl (ground (arith, c), ground (arith, c, e), ground (arith, c, e))
    | inr c ↦ inr (ground (arith, c), ground (arith, c, e), ground (arith, c, e))
  ]

  others_kept : forwarded ≡ record g {
    cache = forwarded.cache;
    handled = forwarded.handled;
    message_chan = forwarded.message_chan;
    waiting = forwarded.waiting;
  }
  unfolding accept enqueue
  others_kept = ground arith

  handled_lem : forwarded.handled ≡ calls g.handlers (heard g m) ++ g.handled
  unfolding accept enqueue
  handled_lem = ground (arith, call_handlers_lem g.handlers (heard g m) g.handled)

  receive_unknown :
      Cache.contains hashes.fnv g.cache m.id ≡ false → receive_message hashes g m ≡ forwarded
  unfolding receive_message
  receive_unknown c = rw (c, receive_message) refl

-- A message with a TTL of one or more, that an engine with a valid cache receives, changes nothing
-- if its id is remembered. Otherwise the message, with the node among those that have seen it and
-- a TTL of one less, is remembered as the newest, each handler is called with it once, and it goes
-- to the end of the channel, or waits if that has 1000 messages; with a TTL of 0 it goes nowhere.
-- Nothing else changes.
pub receive_message-IsReceived :
    (hashes : Hashes) (g : GossipEngine) (m : Message) (t : ℕ)
    → IsValid hashes.fnv g.cache
    → m.ttl ≡ pos (suc t)
    → IsReceived g m t (receive_message hashes g m)
receive_message-IsReceived hashes g m t v e =
    let held = contains_lem hashes.fnv g.cache m.id v in
    elim (Bool-cases (Cache.contains hashes.fnv g.cache m.id)) [
      | inl c ↦ known (sym held ∙ c) (receive_known hashes g m c)
      | inr c ↦
          let same = heard_lem g m t e in
          rw (receive_unknown hashes g m c) (
            taken_in (sym held ∙ c)
              (ap (λ k. entries k.lru)
                  (sym (ap (λ k. k.cache) (receive_unknown hashes g m c))
                    ∙ cache-accept hashes g m c)
                ∙ (add-Added hashes.fnv g.cache (heard g m) v).window
                ∙ ap (λ x. take g.cache.capacity (touch m.id x (entries g.cache.lru))) same)
              (handled_lem hashes g m ∙ ap (λ x. calls g.handlers x ++ g.handled) same)
              (forwarded-IsQueued hashes g m t e) (others_kept hashes g m))
    ]
