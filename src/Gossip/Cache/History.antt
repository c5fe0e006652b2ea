-- ===== src/Gossip/Cache/History.antt =====
-- Any sequence of uses of the cache, against a history that forgets nothing.
use dtvn.Prelude.{
  ℕ, zero, suc, ◌<◌, String, none, some, List, [], ◌∷◌, ◌≡◌, refl, sym, ap, ◌∙◌, inl, inr,
  string_eq, arith, Option-cases,
}
use dtvn.Prelude.Arrays.{take, take_of_length-le}
use dtvn.Prelude.GoMap.{GoMap, lookup, delete, delete_where, IsMap, IsFresh}
use dtvn.Prelude.GoMap.Laws.{IsMap-delete}
use dtvn.Gossip.Message.{Message}
use dtvn.Gossip.Cache.{MessageCache, new, add, get}
use dtvn.Gossip.Cache.Elements.{entries, length-entries}
use dtvn.Gossip.Cache.Recency.{touch, IsValid, IsValid-new, Added, add-Added, Got, get-Got, asked}

pub data Use : Type 0 where
  added : Message → Use
  wanted : String → Use

module _ (fnv : String → ℕ) where
  unfoldable pub run : MessageCache → List Use → MessageCache
  run mc [] = mc
  run mc (added msg ∷ uses) = run (add fnv mc msg) uses
  run mc (wanted k ∷ uses) = run (get mc k).0 uses

-- The history after a use. A `Get` counts if the message is among the first `cap`.
abbrev pub note : ℕ → GoMap String Message → Use → GoMap String Message
note cap h (added msg) = touch msg.id msg h
note cap h (wanted k) = elim (lookup k (take cap h)) [ none ↦ h | some m ↦ touch k m h ]

unfoldable pub history : ℕ → GoMap String Message → List Use → GoMap String Message
history cap h [] = h
history cap h (u ∷ uses) = history cap (note cap h u) uses

IsFresh-delete_self : (k : String) (l : GoMap String Message) → IsFresh k (delete k l)
unfolding delete delete_where
IsFresh-delete_self k [] = tt
IsFresh-delete_self k ((j, m) ∷ l) = ground (arith, string_eq.beq_iff j k, IsFresh-delete_self k l)

IsMap-touch : (k : String) (m : Message) (l : GoMap String Message) → IsMap l → IsMap (touch k m l)
IsMap-touch k m l d = (IsFresh-delete_self k l, IsMap-delete k l d)

IsMap-note : (cap : ℕ) (h : GoMap String Message) (u : Use) → IsMap h → IsMap (note cap h u)
IsMap-note cap h (added msg) d = IsMap-touch msg.id msg h d
IsMap-note cap h (wanted k) d = elim (Option-cases (lookup k (take cap h))) [
  | inl e ↦ rw (e, note) d
  | inr (m, e) ↦ rw (e, note) (IsMap-touch k m h d)
]

delete_of_IsFresh : (k : String) (l : GoMap String Message) → IsFresh k l → delete k l ≡ l
unfolding delete delete_where
delete_of_IsFresh k [] f = refl
delete_of_IsFresh k ((j, m) ∷ l) f =
    ground (arith, string_eq.beq_iff j k, delete_of_IsFresh k l f.1)

IsFresh-take : (k : String) (n : ℕ) (l : GoMap String Message) → IsFresh k l → IsFresh k (take n l)
IsFresh-take k zero l f = tt
IsFresh-take k (suc n) [] f = tt
IsFresh-take k (suc n) (x ∷ l) f = (f.0, IsFresh-take k n l f.1)

take_empty : (n : ℕ) → [] ≡ take {A = String × Message} n []
take_empty zero = refl
take_empty (suc n) = refl

take-take : (n : ℕ) (l : GoMap String Message) → take n (take n l) ≡ take n l
take-take zero l = refl
take-take (suc n) [] = refl
take-take (suc n) (x ∷ l) = ground (arith, take-take n l)

-- What was cut off does not come back.
take-delete-take :
    (n : ℕ) (k : String) (l : GoMap String Message)
    → IsMap l
    → take n (delete k (take (suc n) l)) ≡ take n (delete k l)
unfolding delete delete_where
take-delete-take zero k l d = refl
take-delete-take (suc n) k [] d = refl
take-delete-take (suc n) k ((j, m) ∷ l) d = ground (
  arith,
  string_eq.beq_iff j k,
  delete_of_IsFresh j l d.0,
  delete_of_IsFresh j (take (suc n) l) (IsFresh-take j (suc n) l d.0),
  take-take (suc n) l,
  take-delete-take n k l d.1,
)

take-touch-take :
    (cap : ℕ) (k : String) (m : Message) (l : GoMap String Message)
    → IsMap l
    → take cap (touch k m (take cap l)) ≡ take cap (touch k m l)
take-touch-take zero k m l d = refl
take-touch-take (suc n) k m l d =
    ap (λ (t : GoMap String Message). (k, m) ∷ t) (take-delete-take n k l d)

take-asked :
    (cap : ℕ) (k : String) (h : GoMap String Message)
    → IsMap h
    → take cap (asked k (take cap h)) ≡ take cap (note cap h (wanted k))
take-asked cap k h d = elim (Option-cases (lookup k (take cap h))) [
  | inl e ↦ rw (e, asked, note) (take-take cap h)
  | inr (m, e) ↦ rw (e, asked, note) (take-touch-take cap k m h d)
]

module _ (fnv : String → ℕ) (cap : ℕ) where
  -- The cache holds the first `cap` entries of a history.
  pub record Tracks (mc : MessageCache) (h : GoMap String Message) : Type 0 where
    pub valid : IsValid fnv mc
    pub capacity : mc.capacity ≡ cap
    pub window : entries mc.lru ≡ take cap h

  Tracks-add :
      (mc : MessageCache) (h : GoMap String Message) (msg : Message)
      → IsMap h
      → Tracks mc h
      → Tracks (add fnv mc msg) (touch msg.id msg h)
  Tracks-add mc h msg d t =
      let a : Added fnv mc msg (add fnv mc msg) = add-Added fnv mc msg t.valid in
      record {
        valid = a.valid;
        capacity = a.capacity ∙ t.capacity;
        window =
            a.window
            ∙ ap (λ c. take c (touch msg.id msg (entries mc.lru))) t.capacity
            ∙ ap (λ l. take cap (touch msg.id msg l)) t.window
            ∙ take-touch-take cap msg.id msg h d;
      }

  Tracks-get :
      (mc : MessageCache) (h : GoMap String Message) (k : String)
      → IsMap h
      → Tracks mc h
      → Tracks (get mc k).0 (note cap h (wanted k))
  Tracks-get mc h k d t =
      let g : Got fnv mc k (get mc k) = get-Got fnv mc k t.valid in
      record {
        valid = g.valid;
        capacity = g.capacity ∙ t.capacity;
        window =
            sym (
              take_of_length-le cap (entries (get mc k).0.lru) (
                omega (
                  arith,
                  g.valid.bounded,
                  g.capacity,
                  t.capacity,
                  length-entries (get mc k).0.lru,
                )))
            ∙ ap (λ l. take cap l) (g.window ∙ ap (λ l. asked k l) t.window)
            ∙ take-asked cap k h d;
      }

  run-Tracks :
      (mc : MessageCache) (h : GoMap String Message) (uses : List Use)
      → IsMap h
      → Tracks mc h
      → Tracks (run fnv mc uses) (history cap h uses)
  unfolding run history
  run-Tracks mc h [] d t = t
  run-Tracks mc h (added msg ∷ uses) d t =
      run-Tracks (add fnv mc msg) (touch msg.id msg h) uses (IsMap-note cap h (added msg) d)
        (Tracks-add mc h msg d t)
  run-Tracks mc h (wanted k ∷ uses) d t =
      run-Tracks (get mc k).0 (note cap h (wanted k)) uses (IsMap-note cap h (wanted k) d)
        (Tracks-get mc h k d t)

-- Whatever messages are added to a new cache of a capacity that is not 0 and asked for, it holds
-- the messages used last, the newest first and each id once, as many as its capacity allows. A
-- message is used when it is added, and when it is asked for and held.
pub entries-run-new :
    (fnv : String → ℕ) (cap : ℕ) (uses : List Use)
    → 0 < cap
    → entries (run fnv (new cap) uses).lru ≡ take cap (history cap [] uses)
unfolding new
entries-run-new fnv cap uses p = (run-Tracks fnv cap (new cap) [] uses tt start).window
  where
    start : Tracks fnv cap (new cap) []
    start = record { valid = IsValid-new fnv cap p; capacity = refl; window = take_empty cap }
