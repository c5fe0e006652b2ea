-- ===== src/Gossip/Engine/Forget.antt =====
-- What a cleanup forgets: what has expired and, over the hard cap, the oldest entries.
use mathlib.Core.Path.{subst}
use dtvn.Prelude.{
  ℕ, ◌-◌, ◌≤◌, ◌<◌, String, Option, [], ◌∷◌, ◌≡◌, refl, ◌⊎◌, inl, inr, if◌then◌else◌, ltb, length,
  nat_eq, string_eq, arith, Bool-cases, none, some,
}
use dtvn.Prelude.GoMap.{lookup, IsMap}
use dtvn.Prelude.GoMap.Laws.{lookup_of_IsFresh}
use dtvn.Gossip.Engine.{
  GossipEngine, expire, collect, delete_all, drop_excess, cleanup_expired_entries,
  sent_messages_max_size, sent_messages_ttl,
}
use dtvn.Gossip.Engine.Oldest.{Has, IsAbove}
use dtvn.Gossip.Engine.Cleanup.{Entries, length-dropped, IsMap-expire}
use dtvn.Gossip.Engine.Left.{
  Has-collect_inv, Has-lookup, lookup-Has, lookup-delete_all, IsAbove-delete_all,
}

Option-cases : (o : Option ℕ) → (o ≡ none) ⊎ ((v : ℕ) × (o ≡ some v))
Option-cases none = inl refl
Option-cases (some v) = inr (v, refl)

-- What has become of an entry: it is kept, or no longer there and then one of the oldest of more
-- than the hard cap.
abbrev Capped : Entries → String → Option ℕ → Type 0
Capped kept id none = lookup id kept ≡ none
Capped kept id (some ts) =
    (lookup id kept ≡ some ts)
    ⊎ ((lookup id kept ≡ none) × (length kept ≡ sent_messages_max_size) × IsAbove ts kept)

module _ (id : String) (m : Entries) (d : IsMap m) where
  Has-collected :
      (ts u excess : ℕ)
      → lookup id m ≡ some ts
      → lookup id (collect excess [] m) ≡ some u
      → Has id ts (collect excess [] m)
  Has-collected ts u excess l c =
      let h = Has-lookup id u (collect excess [] m) c in
      elim (Has-collect_inv id u excess [] m h) [
        | inl p ↦ elim p [ ]
        | inr p ↦
            let e : u ≡ ts = ground (arith, lookup-Has id u m d p) in
            subst (λ v. Has id v (collect excess [] m)) e h
      ]

  dropped-Capped :
      (o : Option ℕ)
      → sent_messages_max_size < length m
      → lookup id m ≡ o
      → Capped (delete_all (collect (length m - sent_messages_max_size) [] m) m) id o
  dropped-Capped none h l =
      let oldest = collect (length m - sent_messages_max_size) [] m in
      ground (arith, lookup-delete_all id oldest m)
  dropped-Capped (some ts) h l =
      let excess = length m - sent_messages_max_size in
      let oldest = collect excess [] m in
      let left = lookup-delete_all id oldest m in
      elim (Option-cases (lookup id oldest)) [
        | inl c ↦ inl (ground (arith, left))
        | inr (u, c) ↦ inr (
          ground (arith, left),
          length-dropped m d h,
          IsAbove-delete_all ts excess id m d (Has-collected ts u excess l c),
        )
      ]

  drop_excess-Capped : (o : Option ℕ) → lookup id m ≡ o → Capped (drop_excess m) id o
  unfolding drop_excess
  drop_excess-Capped o l = elim (Bool-cases (ltb sent_messages_max_size (length m))) [
    | inl e ↦ rw e (dropped-Capped o (ground arith) l)
    | inr e ↦ rw e (untouched o l)
  ]
    where
      untouched : (o : Option ℕ) → lookup id m ≡ o → Capped m id o
      untouched none l = l
      untouched (some ts) l = inl l

-- An entry is kept unless its instant lies before the cutoff.
abbrev Expires : ℕ → Entries → String → Option ℕ → Type 0
Expires cutoff kept id none = lookup id kept ≡ none
Expires cutoff kept id (some ts) =
    ((lookup id kept ≡ some ts) × (cutoff ≤ ts)) ⊎ ((lookup id kept ≡ none) × (ts < cutoff))

unexpired : ℕ → Option ℕ → Option ℕ
unexpired cutoff none = none
unexpired cutoff (some ts) = if ltb ts cutoff then none else some ts

lookup-expire :
    (cutoff : ℕ) (k : String) (m : Entries)
    → IsMap m
    → lookup k (expire cutoff m) ≡ unexpired cutoff (lookup k m)
unfolding expire lookup unexpired
lookup-expire cutoff k [] d = refl
lookup-expire cutoff k ((j, w) ∷ m) d =
    ground (arith, string_eq.beq_iff j k, lookup-expire cutoff k m d.1, lookup_of_IsFresh j m d.0)

expire-Expires :
    (cutoff : ℕ) (id : String) (m : Entries)
    → IsMap m
    → (o : Option ℕ) → lookup id m ≡ o
    → Expires cutoff (expire cutoff m) id o
unfolding unexpired
expire-Expires cutoff id m d none l = ground (arith, lookup-expire cutoff id m d)
expire-Expires cutoff id m d (some ts) l = elim (Bool-cases (ltb ts cutoff)) [
  | inl e ↦ inr (ground (arith, lookup-expire cutoff id m d), ground arith)
  | inr e ↦ inl (ground (arith, lookup-expire cutoff id m d), ground arith)
]

-- The same under the hard cap: an entry that has not expired is no longer there only if the cap is
-- reached and no entry that is kept is older.
abbrev pub Forgets : ℕ → Entries → String → Option ℕ → Type 0
Forgets cutoff kept id none = lookup id kept ≡ none
Forgets cutoff kept id (some ts) =
    ((lookup id kept ≡ some ts) × (cutoff ≤ ts))
    ⊎ ((lookup id kept ≡ none)
        × ((ts < cutoff) ⊎ ((length kept ≡ sent_messages_max_size) × IsAbove ts kept)))

sent-Forgets :
    (cutoff : ℕ) (id : String) (m : Entries)
    → IsMap m
    → (o : Option ℕ) → lookup id m ≡ o
    → Forgets cutoff (drop_excess (expire cutoff m)) id o
sent-Forgets cutoff id m d none l =
    drop_excess-Capped id (expire cutoff m) (IsMap-expire cutoff m d) none
      (expire-Expires cutoff id m d none l)
sent-Forgets cutoff id m d (some ts) l = elim (expire-Expires cutoff id m d (some ts) l) [
  | inl (p, h) ↦
      elim (drop_excess-Capped id (expire cutoff m) (IsMap-expire cutoff m d) (some ts) p) [
        | inl q ↦ inl (q, h)
        | inr (gone, full, above) ↦ inr (gone, inr (full, above))
      ]
  | inr (p, h) ↦
      inr (drop_excess-Capped id (expire cutoff m) (IsMap-expire cutoff m d) none p, inl h)
]

-- Where the messages sent are a map, a message is after a cleanup as `Forgets` says.
pub cleanup_expired_entries-Forgets :
    (g : GossipEngine) (now : ℕ) (id : String)
    → IsMap g.sent_messages
    → Forgets
        (now - sent_messages_ttl)
        (cleanup_expired_entries g now).sent_messages
        id
        (lookup id g.sent_messages)
unfolding cleanup_expired_entries
cleanup_expired_entries-Forgets g now id s =
    sent-Forgets (now - sent_messages_ttl) id g.sent_messages s (lookup id g.sent_messages) refl
