-- ===== src/Gossip/Cache.antt =====
-- pkg/gossip/cache.go, the `MessageCache`. The lock makes each method atomic. An element of
-- container/list is a reference, here a number, with what it points to; the map holds references,
-- and a write through one is a write to the list. `next` is the reference of the next element.
pub mod Elements
pub mod Recency
pub mod History
use dtvn.Prelude.{
  ℕ, suc, String, Bool, true, false, Option, none, some, List, [], ◌∷◌, if◌then◌else◌, ◌==◌, ltb,
  length, map, nat_eq, string_eq,
}
use dtvn.Prelude.GoMap.{GoMap, lookup, insert, delete}
use dtvn.Prelude.GoMap.Laws.{is_some}
use dtvn.Gossip.Message.{Message}
use dtvn.Gossip.Bloom
use dtvn.Gossip.Bloom.{BloomFilter}

pub record Element : Type 0 where
  pub ref : ℕ
  pub key : String
  pub message : Message

pub record MessageCache : Type 0 where
  pub capacity : ℕ
  pub cache : GoMap String ℕ
  pub lru : List Element
  pub next : ℕ
  pub bloom : BloomFilter

unfoldable pub new : ℕ → MessageCache
new capacity = record {
  capacity = capacity;
  cache = [];
  lru = [];
  next = 0;
  bloom = Bloom.new capacity;
}

-- the element behind a reference
unfoldable pub find : ℕ → List Element → Option Element
find ref [] = none
find ref (e ∷ es) = if e.ref == ref then some e else find ref es

-- `lru.Remove`
unfoldable pub remove : ℕ → List Element → List Element
remove ref [] = []
remove ref (e ∷ es) = if e.ref == ref then es else e ∷ remove ref es

-- `lru.MoveToFront`
unfoldable pub move_to_front : ℕ → List Element → List Element
unfolding find remove
move_to_front ref es = elim (find ref es) [ none ↦ es | some e ↦ e ∷ remove ref es ]

-- `elem.Value.(*cacheEntry).message = msg`
unfoldable pub set_message : ℕ → Message → List Element → List Element
set_message ref msg [] = []
set_message ref msg (e ∷ es) =
    if e.ref == ref then record e { message = msg } ∷ es else e ∷ set_message ref msg es

-- `lru.Back()`
unfoldable pub back : List Element → Option Element
back [] = none
back (e ∷ []) = some e
back (e ∷ f ∷ es) = back (f ∷ es)

unfoldable pub evict : MessageCache → MessageCache
unfolding back remove
evict mc = elim (back mc.lru) [
  | none ↦ mc
  | some e ↦ record mc { lru = remove e.ref mc.lru; cache = delete e.key mc.cache }
]

-- `Add` up to the eviction, where the message is not there
unfoldable pub push : (String → ℕ) → MessageCache → Message → MessageCache
push fnv mc msg = record mc {
  bloom = Bloom.add fnv mc.bloom msg.id;
  lru = record { ref = mc.next; key = msg.id; message = msg } ∷ mc.lru;
  cache = insert msg.id mc.next mc.cache;
  next = suc mc.next;
}

unfoldable pub add : (String → ℕ) → MessageCache → Message → MessageCache
unfolding push evict move_to_front set_message
add fnv mc msg = elim (lookup msg.id mc.cache) [
  | some ref ↦ record mc { lru = set_message ref msg (move_to_front ref mc.lru) }
  | none ↦
      let pushed = push fnv mc msg in
      if ltb pushed.capacity (length pushed.lru) then evict pushed else pushed
]

unfoldable pub contains : (String → ℕ) → MessageCache → String → Bool
contains fnv mc msg_id =
    if Bloom.contains fnv mc.bloom msg_id then is_some (lookup msg_id mc.cache) else false

-- `Get` also marks the message as used last. `none` stands for `nil, false`.
unfoldable pub get : MessageCache → String → MessageCache × Option Message
unfolding find move_to_front
get mc msg_id = elim (lookup msg_id mc.cache) [
  | none ↦ (mc, none)
  | some ref ↦ elim (find ref mc.lru) [
    | none ↦ (mc, none)
    | some e ↦ (record mc { lru = move_to_front ref mc.lru }, some e.message)
  ]
]

unfoldable pub get_digests : MessageCache → List String
get_digests mc = map (λ e. e.0) mc.cache

unfoldable pub size : MessageCache → ℕ
size mc = length mc.lru

unfoldable pub clear : MessageCache → MessageCache
clear mc = record mc { cache = []; lru = []; bloom = Bloom.new mc.capacity }
