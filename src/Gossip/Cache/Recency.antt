-- ===== src/Gossip/Cache/Recency.antt =====
-- The cache against its specification: a list of keys and messages, the one used last in front,
-- cut off at the capacity.
use dtvn.Prelude.{
  ℕ, suc, ◌-◌, ◌≤◌, ◌<◌, String, true, Option, none, some, List, ◌∷◌, if◌then◌else◌, ◌≡◌, refl, sym,
  ap, ◌∙◌, inl, inr, length, ltb, nat_eq, string_eq, arith, Bool-cases, Option-cases,
}
use dtvn.Prelude.Arrays.{take, take_of_length-le}
use dtvn.Prelude.GoMap.{GoMap, lookup, delete}
use dtvn.Prelude.GoMap.Laws.{is_some, lookup-insert, lookup-delete}
use dtvn.Gossip.Message.{Message}
use dtvn.Gossip.Bloom
use dtvn.Gossip.Bloom.Members
use dtvn.Gossip.Bloom.Members.{contains-add_self, contains-add_other, add-IsValid, new-IsValid}
use dtvn.Gossip.Cache.{
  MessageCache, Element, new, remove, move_to_front, set_message, back, evict, push, add, contains,
  get,
}
use dtvn.Gossip.Cache.Elements.{
  IsDistinct, entries, ref_of, length-entries, find-remove, Finds, Moved, moves, back_ref,
  remove-back, back-none, delete-entries_none, is_some-ref_of, IsApart-new, IsDistinct-remove,
}

-- The history of a cache that forgets nothing: what is used goes to the front.
abbrev pub touch : String → Message → GoMap String Message → GoMap String Message
touch k m l = (k, m) ∷ delete k l

-- A message that is there goes to the front when it is asked for.
abbrev pub asked : String → GoMap String Message → GoMap String Message
asked k l = elim (lookup k l) [ none ↦ l | some m ↦ touch k m l ]

module _ (fnv : String → ℕ) where
  -- The map, the list and the filter fit one another.
  pub record IsSound (mc : MessageCache) : Type 0 where
    pub distinct : IsDistinct mc.lru
    pub refs : (k : String) → lookup k mc.cache ≡ ref_of k mc.lru
    pub fresh : (k : String) (r : ℕ) → ref_of k mc.lru ≡ some r → r < mc.next
    pub bloom_valid : Members.IsValid mc.bloom
    pub known :
        (k : String) (r : ℕ) → ref_of k mc.lru ≡ some r → Bloom.contains fnv mc.bloom k ≡ true

  pub record IsValid (mc : MessageCache) : Type 0 where
    pub sound : IsSound mc
    pub bounded : length mc.lru ≤ mc.capacity

  pub IsValid-new : (capacity : ℕ) → 0 < capacity → IsValid (new capacity)
  unfolding new lookup
  IsValid-new capacity h = record {
    sound = record {
      distinct = tt;
      refs = λ k. refl;
      fresh = λ k r p. cc;
      bloom_valid = new-IsValid capacity h;
      known = λ k r p. cc;
    };
    bounded = omega arith;
  }

  IsSound-push :
      (mc : MessageCache) (msg : Message)
      → IsSound mc
      → lookup msg.id mc.cache ≡ none
      → IsSound (push fnv mc msg)
  unfolding push
  IsSound-push mc msg v h = record {
    distinct = (
      IsApart-new (record { ref = mc.next; key = msg.id; message = msg }) mc.lru v.distinct v.fresh
          (sym (v.refs msg.id) ∙ h),
      v.distinct,
    );
    refs = λ k. ground (arith, lookup-insert msg.id k mc.next mc.cache, v.refs k);
    fresh = λ k r p. ground (arith, v.fresh k r);
    bloom_valid = add-IsValid fnv mc.bloom msg.id v.bloom_valid;
    known = λ k r p. ground (
      arith,
      v.known k r,
      string_eq.beq_iff msg.id k,
      contains-add_self fnv mc.bloom msg.id v.bloom_valid,
      contains-add_other fnv mc.bloom msg.id v.bloom_valid k,
    );
  }

  IsSound-evict : (mc : MessageCache) → IsSound mc → IsSound (evict mc)
  unfolding evict
  IsSound-evict mc v = elim (Option-cases (back mc.lru)) [
    | inl b ↦ rw (b, evict) v
    | inr (e, b) ↦
        let f : Finds e.key e.ref mc.lru =
          find-remove e.key e.ref mc.lru v.distinct (back_ref mc.lru e v.distinct b) in
        rw (b, evict)
          (record {
            distinct = IsDistinct-remove e.ref mc.lru v.distinct;
            refs = λ k. ground (
              arith,
              lookup-delete e.key k mc.cache,
              f.unbound k,
              v.refs k,
              string_eq.beq_iff k e.key,
              string_eq.beq_iff e.key k,
            );
            fresh = λ k r p. ground (arith, f.unbound k, v.fresh k r);
            bloom_valid = v.bloom_valid;
            known = λ k r p. ground (arith, f.unbound k, v.known k r);
          })
  ]

  -- What an eviction leaves is the list without its last entry.
  entries-evict :
      (mc : MessageCache)
      → IsSound mc
      → entries (evict mc).lru ≡ take (length mc.lru - 1) (entries mc.lru)
  unfolding evict
  entries-evict mc v = elim (Option-cases (back mc.lru)) [
    | inl b ↦ rw (b, evict) (rw (back-none mc.lru b) refl)
    | inr (e, b) ↦ rw (b, evict) (remove-back mc.lru e v.distinct b)
  ]

  length-evict : (mc : MessageCache) → IsSound mc → length (evict mc).lru ≡ length mc.lru - 1
  unfolding evict
  length-evict mc v = elim (Option-cases (back mc.lru)) [
    | inl b ↦ rw (b, evict) (rw (back-none mc.lru b) refl)
    | inr (e, b) ↦
        let f : Finds e.key e.ref mc.lru =
          find-remove e.key e.ref mc.lru v.distinct (back_ref mc.lru e v.distinct b) in
        rw (b, evict) (omega (arith, f.shorter))
  ]

  capacity-evict : (mc : MessageCache) → (evict mc).capacity ≡ mc.capacity
  unfolding evict
  capacity-evict mc = ground arith

  -- The end of `Add`: an eviction if there is one element too many.
  trimmed :
      (mc : MessageCache)
      → IsSound mc
      → length mc.lru ≤ suc mc.capacity
      → let m = if ltb mc.capacity (length mc.lru) then evict mc else mc in
        IsValid m × (m.capacity ≡ mc.capacity) × (entries m.lru ≡ take mc.capacity (entries mc.lru))
  trimmed mc v h = elim (Bool-cases (ltb mc.capacity (length mc.lru))) [
    | inl b ↦ rw b (
      record {
        sound = IsSound-evict mc v;
        bounded = omega (arith, length-evict mc v, capacity-evict mc);
      },
      capacity-evict mc,
      entries-evict mc v ∙ ap (λ n. take n (entries mc.lru)) (ground arith),
    )
    | inr b ↦ rw b (
      record { sound = v; bounded = ground arith },
      refl,
      sym (take_of_length-le mc.capacity (entries mc.lru) (ground (arith, length-entries mc.lru))),
    )
  ]

  length-touch :
      (k : String) (r : ℕ) (es : List Element) (m : Message)
      → IsDistinct es
      → ref_of k es ≡ some r
      → length (touch k m (entries es)) ≡ length es
  length-touch k r es m d h =
      let f : Finds k r es = find-remove k r es d h in
      ground (arith, ap length f.removed, length-entries (remove r es), f.shorter)

  -- What replaces the list of a sound cache, with the same references.
  IsSound-relist :
      (mc : MessageCache) (es : List Element)
      → IsSound mc
      → IsDistinct es
      → ((k : String) → ref_of k es ≡ ref_of k mc.lru)
      → IsSound (record mc { lru = es })
  IsSound-relist mc es v d h = record {
    distinct = d;
    refs = λ k. v.refs k ∙ sym (h k);
    fresh = λ k r p. v.fresh k r (sym (h k) ∙ p);
    bloom_valid = v.bloom_valid;
    known = λ k r p. v.known k r (sym (h k) ∙ p);
  }

  entries-push :
      (mc : MessageCache) (msg : Message)
      → IsSound mc
      → lookup msg.id mc.cache ≡ none
      → touch msg.id msg (entries mc.lru) ≡ entries (push fnv mc msg).lru
  unfolding push
  entries-push mc msg v h =
      ap (λ (l : GoMap String Message). (msg.id, msg) ∷ l)
        (delete-entries_none msg.id mc.lru (sym (v.refs msg.id) ∙ h))

  pushed_bound :
      (mc : MessageCache) (msg : Message)
      → IsValid mc
      → length (push fnv mc msg).lru ≤ suc (push fnv mc msg).capacity
  unfolding push
  pushed_bound mc msg v = omega (arith, v.bounded)

  -- What `Add` makes of a valid cache.
  pub record Added (mc : MessageCache) (msg : Message) (m : MessageCache) : Type 0 where
    pub valid : IsValid m
    pub capacity : m.capacity ≡ mc.capacity
    pub window : entries m.lru ≡ take mc.capacity (touch msg.id msg (entries mc.lru))

  -- Adding a message puts it in front, in place of an older one of its name, and drops what is
  -- beyond the capacity.
  pub add-Added : (mc : MessageCache) (msg : Message) → IsValid mc → Added mc msg (add fnv mc msg)
  unfolding add push
  add-Added mc msg v = elim (Option-cases (lookup msg.id mc.cache)) [
    | inr (r, e) ↦
        let q : ref_of msg.id mc.lru ≡ some r = sym (v.sound.refs msg.id) ∙ e in
        let w : Moved msg.id r mc.lru = moves msg.id r mc.lru v.sound.distinct q in
        let n : length (touch msg.id msg (entries mc.lru)) ≡ length mc.lru =
          length-touch msg.id r mc.lru msg v.sound.distinct q in
        rw (e, add)
          (record {
            valid = record {
              sound =
                  IsSound-relist mc (set_message r msg (move_to_front r mc.lru)) v.sound
                    (w.distinct_written msg) (w.same_refs_written msg);
              bounded = omega (
                arith,
                v.bounded,
                n,
                ap length (w.written msg),
                length-entries (set_message r msg (move_to_front r mc.lru)),
              );
            };
            capacity = refl;
            window =
                w.written msg
                ∙ sym (
                    take_of_length-le mc.capacity (touch msg.id msg (entries mc.lru))
                      (omega (arith, n, v.bounded)));
          })
    | inl e ↦
        let (valid, capacity, window) =
          trimmed (push fnv mc msg) (IsSound-push mc msg v.sound e) (pushed_bound mc msg v) in
        rw (e, add)
          (record {
            valid = valid;
            capacity = capacity;
            window = window ∙ ap (λ l. take mc.capacity l) (sym (entries-push mc msg v.sound e));
          })
  ]

  pub contains_lem :
      (mc : MessageCache) (k : String)
      → IsValid mc
      → contains fnv mc k ≡ is_some (lookup k (entries mc.lru))
  unfolding contains
  contains_lem mc k v = elim (Option-cases (ref_of k mc.lru)) [
    | inl e ↦ ground (arith, v.sound.refs k, is_some-ref_of k mc.lru)
    | inr (r, e) ↦ ground (arith, v.sound.refs k, is_some-ref_of k mc.lru, v.sound.known k r)
  ]

  -- What `Get` makes of a valid cache.
  pub record Got (mc : MessageCache) (k : String) (r : MessageCache × Option Message) : Type 0 where
    pub valid : IsValid r.0
    pub capacity : r.0.capacity ≡ mc.capacity
    pub window : entries r.0.lru ≡ asked k (entries mc.lru)
    pub message : r.1 ≡ lookup k (entries mc.lru)

  pub get-Got : (mc : MessageCache) (k : String) → IsValid mc → Got mc k (get mc k)
  unfolding get
  get-Got mc k v = elim (Option-cases (lookup k mc.cache)) [
    | inl e ↦
        let n : lookup k (entries mc.lru) ≡ none =
          ground (arith, v.sound.refs k, is_some-ref_of k mc.lru) in
        rw (e, get)
          (record { valid = v; capacity = refl; window = rw (n, asked) refl; message = sym n })
    | inr (r, e) ↦
        let q : ref_of k mc.lru ≡ some r = sym (v.sound.refs k) ∙ e in
        let f : Finds k r mc.lru = find-remove k r mc.lru v.sound.distinct q in
        let w : Moved k r mc.lru = moves k r mc.lru v.sound.distinct q in
        rw (e, f.found, get)
          (record {
            valid = record {
              sound = IsSound-relist mc (move_to_front r mc.lru) v.sound w.distinct w.same_refs;
              bounded = omega (
                arith,
                v.bounded,
                ap length (w.moved_entry f.element.message f.bound),
                length-touch k r mc.lru f.element.message v.sound.distinct q,
                length-entries (move_to_front r mc.lru),
              );
            };
            capacity = refl;
            window = rw (f.bound, asked) (w.moved_entry f.element.message f.bound);
            message = sym f.bound;
          })
  ]
