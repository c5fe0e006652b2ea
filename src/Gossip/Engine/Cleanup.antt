-- ===== src/Gossip/Engine/Cleanup.antt =====
-- After a cleanup the engine remembers at most the hard cap of messages it has sent.
use dtvn.Prelude.{
  ◌≢◌, ℕ, zero, suc, ◌+◌, ◌-◌, ◌≤◌, ◌<◌, String, true, [], ◌∷◌, ◌++◌, ◌≡◌, refl, sym, ap, inl, inr,
  ltb, length, nat_eq, string_eq, arith, Bool-cases, beq_refl,
}
use dtvn.Prelude.Arrays.{get_or, set, length-set}
use dtvn.Prelude.GoMap.{GoMap, lookup, delete, delete_where, IsFresh, IsMap}
use dtvn.Prelude.GoMap.Laws.{is_some, lookup-delete, IsMap-delete}
use dtvn.Gossip.Engine.{
  GossipEngine, expire, newest, replace_newest, collect, delete_all, drop_excess,
  cleanup_expired_entries, sent_messages_max_size, sent_messages_ttl,
}

abbrev pub Entries : Type 0
Entries = GoMap String ℕ

-- Every key of `oldest` is bound in `m`.
abbrev IsWithin : Entries → Entries → Type 0
IsWithin m [] = Unit
IsWithin m ((k, v) ∷ oldest) = (is_some (lookup k m) ≡ true) × IsWithin m oldest

-- No key of `rest` stands in `oldest`.
abbrev Apart : Entries → Entries → Type 0
Apart oldest [] = Unit
Apart oldest ((k, v) ∷ rest) = IsFresh k oldest × Apart oldest rest

length-delete_fresh : (k : String) (m : Entries) → IsFresh k m → length (delete k m) ≡ length m
unfolding delete delete_where
length-delete_fresh k [] f = refl
length-delete_fresh k ((j, w) ∷ m) f =
    ground (arith, string_eq.beq_iff j k, length-delete_fresh k m f.1)

length-delete :
    (k : String) (m : Entries)
    → IsMap m
    → is_some (lookup k m) ≡ true
    → suc (length (delete k m)) ≡ length m
unfolding delete delete_where lookup
length-delete k [] d h = cc
length-delete k ((j, w) ∷ m) d h =
    ground (arith, string_eq.beq_iff j k, length-delete k m d.1, length-delete_fresh j m d.0)

IsWithin-delete :
    (k : String) (m oldest : Entries)
    → IsFresh k oldest
    → IsWithin m oldest
    → IsWithin (delete k m) oldest
IsWithin-delete k m [] f w = tt
IsWithin-delete k m ((j, v) ∷ oldest) f w = (
  ground (arith, lookup-delete k j m, string_eq.beq_iff j k, string_eq.beq_iff k j),
  IsWithin-delete k m oldest f.1 w.1,
)

length-delete_all :
    (oldest m : Entries)
    → IsMap m
    → IsMap oldest
    → IsWithin m oldest
    → length (delete_all oldest m) + length oldest ≡ length m
unfolding delete_all
length-delete_all [] m d o w = omega arith
length-delete_all ((k, v) ∷ oldest) m d o w =
    let rest =
      length-delete_all oldest (delete k m) (IsMap-delete k m d) o.1
        (IsWithin-delete k m oldest o.0 w.1) in
    omega (arith, rest, length-delete k m d w.0)

-- What the loop keeps true of the entries it has collected.
record Collected (m oldest rest : Entries) : Type 0 where
  is_map : IsMap oldest
  within : IsWithin m oldest
  apart : Apart oldest rest

module _ (k : String) (v : ℕ) where
  IsFresh-set :
      (j : String) (i : ℕ) (o : Entries) → k ≢ j → IsFresh j o → IsFresh j (set o i (k, v))
  IsFresh-set j i [] h f = tt
  IsFresh-set j zero (e ∷ o) h f = (h, f.1)
  IsFresh-set j (suc i) (e ∷ o) h f = (f.0, IsFresh-set j i o h f.1)

  IsMap-set : (i : ℕ) (o : Entries) → IsFresh k o → IsMap o → IsMap (set o i (k, v))
  IsMap-set i [] f d = tt
  IsMap-set zero (e ∷ o) f d = (f.1, d.1)
  IsMap-set (suc i) (e ∷ o) f d =
      (IsFresh-set e.0 i o (λ p. f.0 (sym p)) d.0, IsMap-set i o f.1 d.1)

  IsWithin-set :
      (m : Entries) (i : ℕ) (o : Entries)
      → is_some (lookup k m) ≡ true
      → IsWithin m o
      → IsWithin m (set o i (k, v))
  IsWithin-set m i [] b w = tt
  IsWithin-set m zero (e ∷ o) b w = (b, w.1)
  IsWithin-set m (suc i) (e ∷ o) b w = (w.0, IsWithin-set m i o b w.1)

  Apart-set :
      (i : ℕ) (o rest : Entries) → IsFresh k rest → Apart o rest → Apart (set o i (k, v)) rest
  Apart-set i o [] f a = tt
  Apart-set i o ((j, w) ∷ rest) f a =
      (IsFresh-set j i o (λ p. f.0 (sym p)) a.0, Apart-set i o rest f.1 a.1)

  IsFresh-snoc : (j : String) (o : Entries) → k ≢ j → IsFresh j o → IsFresh j (o ++ (k, v) ∷ [])
  IsFresh-snoc j [] h f = (h, tt)
  IsFresh-snoc j (e ∷ o) h f = (f.0, IsFresh-snoc j o h f.1)

  IsMap-snoc : (o : Entries) → IsFresh k o → IsMap o → IsMap (o ++ (k, v) ∷ [])
  IsMap-snoc [] f d = (tt, tt)
  IsMap-snoc (e ∷ o) f d = (IsFresh-snoc e.0 o (λ p. f.0 (sym p)) d.0, IsMap-snoc o f.1 d.1)

  IsWithin-snoc :
      (m o : Entries) → is_some (lookup k m) ≡ true → IsWithin m o → IsWithin m (o ++ (k, v) ∷ [])
  IsWithin-snoc m [] b w = (b, tt)
  IsWithin-snoc m (e ∷ o) b w = (w.0, IsWithin-snoc m o b w.1)

  Apart-snoc : (o rest : Entries) → IsFresh k rest → Apart o rest → Apart (o ++ (k, v) ∷ []) rest
  Apart-snoc o [] f a = tt
  Apart-snoc o ((j, w) ∷ rest) f a =
      (IsFresh-snoc j o (λ p. f.0 (sym p)) a.0, Apart-snoc o rest f.1 a.1)

  module _ (m o rest : Entries) (b : is_some (lookup k m) ≡ true) (f : IsFresh k rest) where
    Collected-snoc : Collected m o ((k, v) ∷ rest) → Collected m (o ++ (k, v) ∷ []) rest
    Collected-snoc c = record {
      is_map = IsMap-snoc o c.apart.0 c.is_map;
      within = IsWithin-snoc m o b c.within;
      apart = Apart-snoc o rest f c.apart.1;
    }

    Collected-replace_newest :
        Collected m o ((k, v) ∷ rest) → Collected m (replace_newest o (k, v)) rest
    unfolding replace_newest
    Collected-replace_newest c = elim (Bool-cases (ltb v (get_or o ("", 0) (newest o)).1)) [
      | inl e ↦ rw e (record {
        is_map = IsMap-set (newest o) o c.apart.0 c.is_map;
        within = IsWithin-set m (newest o) o b c.within;
        apart = Apart-set (newest o) o rest f c.apart.1;
      })
      | inr e ↦ rw e (record { is_map = c.is_map; within = c.within; apart = c.apart.1 })
    ]

pub length-replace_newest : (o : Entries) (e : String × ℕ) → length (replace_newest o e) ≡ length o
unfolding replace_newest
length-replace_newest o e = ground (arith, length-set o (newest o) e)

length-snoc : (o : Entries) (e : String × ℕ) → length (o ++ e ∷ []) ≡ suc (length o)
length-snoc [] e = refl
length-snoc (x ∷ o) e = ap suc (length-snoc o e)

Collected-collect :
    (m : Entries) (excess : ℕ) (o rest : Entries)
    → Collected m o rest
    → IsMap rest
    → IsWithin m rest
    → Collected m (collect excess o rest) []
unfolding collect
Collected-collect m excess o [] c d w = c
Collected-collect m excess o ((k, v) ∷ rest) c d w = elim (Bool-cases (ltb (length o) excess)) [
  | inl e ↦ rw e (
      Collected-collect m excess (o ++ (k, v) ∷ []) rest (Collected-snoc k v m o rest w.0 d.0 c) d.1
        w.1)
  | inr e ↦ rw e (
      Collected-collect m excess (replace_newest o (k, v)) rest
        (Collected-replace_newest k v m o rest w.0 d.0 c) d.1 w.1)
]

length-collect :
    (excess : ℕ) (o rest : Entries)
    → length o ≤ excess
    → excess ≤ length o + length rest
    → length (collect excess o rest) ≡ excess
unfolding collect
length-collect excess o [] h l = omega arith
length-collect excess o (e ∷ rest) h l = elim (Bool-cases (ltb (length o) excess)) [
  | inl p ↦ rw p (
      length-collect excess (o ++ e ∷ []) rest (ground (arith, length-snoc o e))
        (ground (arith, length-snoc o e)))
  | inr p ↦ rw p (
      length-collect excess (replace_newest o e) rest (ground (arith, length-replace_newest o e))
        (ground (arith, length-replace_newest o e)))
]

IsWithin-cons : (m o : Entries) (k : String) (v : ℕ) → IsWithin m o → IsWithin ((k, v) ∷ m) o
unfolding lookup
IsWithin-cons m [] k v w = tt
IsWithin-cons m ((j, u) ∷ o) k v w = (ground (arith, w.0), IsWithin-cons m o k v w.1)

IsWithin-self : (m : Entries) → IsWithin m m
unfolding lookup
IsWithin-self [] = tt
IsWithin-self ((k, v) ∷ m) = (ground (arith, beq_refl k), IsWithin-cons m m k v (IsWithin-self m))

Apart-nil : (m : Entries) → Apart [] m
Apart-nil [] = tt
Apart-nil (e ∷ m) = (tt, Apart-nil m)

pub length-dropped :
    (m : Entries)
    → IsMap m
    → sent_messages_max_size < length m
    → length (delete_all (collect (length m - sent_messages_max_size) [] m) m)
      ≡ sent_messages_max_size
length-dropped m d h =
    let c =
      Collected-collect m (length m - sent_messages_max_size) [] m
        (record { is_map = tt; within = tt; apart = Apart-nil m }) d (IsWithin-self m) in
    let n = length-collect (length m - sent_messages_max_size) [] m (omega arith) (omega arith) in
    let all =
      length-delete_all (collect (length m - sent_messages_max_size) [] m) m d c.is_map c.within in
    omega (arith, h, n, all)

length-drop_excess : (m : Entries) → IsMap m → length (drop_excess m) ≤ sent_messages_max_size
unfolding drop_excess
length-drop_excess m d = elim (Bool-cases (ltb sent_messages_max_size (length m))) [
  | inl e ↦ rw e (ground (arith, length-dropped m d))
  | inr e ↦ rw e (ground arith)
]

IsFresh-expire : (cutoff : ℕ) (k : String) (m : Entries) → IsFresh k m → IsFresh k (expire cutoff m)
unfolding expire
IsFresh-expire cutoff k [] f = tt
IsFresh-expire cutoff k (e ∷ m) f = ground (arith, IsFresh-expire cutoff k m f.1)

pub IsMap-expire : (cutoff : ℕ) (m : Entries) → IsMap m → IsMap (expire cutoff m)
unfolding expire
IsMap-expire cutoff [] d = tt
IsMap-expire cutoff (e ∷ m) d =
    ground (arith, IsFresh-expire cutoff e.0 m d.0, IsMap-expire cutoff m d.1)

-- Where the messages sent are a map, no more of them than the hard cap are remembered after a
-- cleanup.
pub length-cleanup_expired_entries :
    (g : GossipEngine) (now : ℕ)
    → IsMap g.sent_messages
    → length (cleanup_expired_entries g now).sent_messages ≤ sent_messages_max_size
unfolding cleanup_expired_entries
length-cleanup_expired_entries g now d =
    length-drop_excess (expire (now - sent_messages_ttl) g.sent_messages)
      (IsMap-expire (now - sent_messages_ttl) g.sent_messages d)
