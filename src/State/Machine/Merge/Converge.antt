-- ===== src/State/Machine/Merge/Converge.antt =====
-- Two nodes that exchange their copies of a ticket: when `MergeState` brings them together.
use dtvn.Prelude.{String, ◌≡◌, refl, sym, ap, ◌⊎◌, inl, inr, true, arith}
use dtvn.Prelude.Int.{ltb_ℤ, ltb_ℤ_asym, ltb_ℤ_irrefl}
use dtvn.Prelude.GoMap.{IsMap}
use dtvn.State.VectorClock.{VectorClock, get, Ordering, before, after, equal, concurrent, compare}
use dtvn.State.VectorClock
use dtvn.State.VectorClock.Order.{flip, compare-flip, compare_of_Compares}
use dtvn.State.VectorClock.Merge.{get-copy, IsMap-copy}
use dtvn.State.Machine.{Ticket}
use dtvn.State.Machine.Merge.{adopt, merge_ticket}

-- Two copies of a ticket say the same: its state, who validated it, when, and its clock.
pub record Agree (t u : Ticket) : Type 0 where
  pub state : t.state ≡ u.state
  pub validator : t.validator_id ≡ u.validator_id
  pub timestamp : t.timestamp ≡ u.timestamp
  pub clock : (k : String) → get t.vector_clock k ≡ get u.vector_clock k

module _ (l r : Ticket) (dl : IsMap l.vector_clock.clocks) (dr : IsMap r.vector_clock.clocks) where
  adopt-Agree : Agree (adopt l r) r
  unfolding adopt
  adopt-Agree = record {
    state = refl;
    validator = refl;
    timestamp = refl;
    clock = λ k. get-copy r.vector_clock k dr;
  }

  compare-adopt : compare (adopt l r).vector_clock r.vector_clock ≡ equal
  unfolding adopt
  compare-adopt =
      compare_of_Compares (VectorClock.copy r.vector_clock) r.vector_clock
        (IsMap-copy r.vector_clock) dr equal
        (
          λ k. omega (arith, get-copy r.vector_clock k dr),
          λ k. omega (arith, get-copy r.vector_clock k dr),
        )

  -- Where the clocks are maps, a copy of a ticket that was merged changes nothing when it is
  -- merged again.
  merge_ticket_idem : merge_ticket (merge_ticket l r) r ≡ merge_ticket l r
  unfolding merge_ticket
  merge_ticket_idem = ground (arith, compare-adopt)

Agree-sym : (t u : Ticket) → Agree t u → Agree u t
Agree-sym t u a = record {
  state = sym a.state;
  validator = sym a.validator;
  timestamp = sym a.timestamp;
  clock = λ k. sym (a.clock k);
}

-- One of the two copies is the later one.
abbrev pub IsDecided : Ticket → Ticket → Type 0
IsDecided l r =
    (compare l.vector_clock r.vector_clock ≡ before)
    ⊎ (compare l.vector_clock r.vector_clock ≡ after)
    ⊎ ((compare l.vector_clock r.vector_clock ≡ concurrent)
        × ((ltb_ℤ l.timestamp r.timestamp ≡ true) ⊎ (ltb_ℤ r.timestamp l.timestamp ≡ true)))

module _ (l r : Ticket) (dl : IsMap l.vector_clock.clocks) (dr : IsMap r.vector_clock.clocks) where
  flipped : compare r.vector_clock l.vector_clock ≡ flip (compare l.vector_clock r.vector_clock)
  flipped = compare-flip l.vector_clock r.vector_clock dl dr

  -- Where the clocks of two copies of a ticket are maps, and one copy is the later one by its
  -- clock or, the clocks being concurrent, by its timestamp, the two nodes that merge each other's
  -- copy end with the same state, validator, timestamp and clock readings.
  pub merge_ticket-Agree : IsDecided l r → Agree (merge_ticket l r) (merge_ticket r l)
  unfolding merge_ticket
  merge_ticket-Agree (inl e) = rw (flipped, e) (adopt-Agree l r dl dr)
  merge_ticket-Agree (inr (inl e)) = rw (flipped, e) (Agree-sym _ _ (adopt-Agree r l dr dl))
  merge_ticket-Agree (inr (inr (e, inl h))) =
      rw (flipped, e, h, ltb_ℤ_asym l.timestamp r.timestamp h) (adopt-Agree l r dl dr)
  merge_ticket-Agree (inr (inr (e, inr h))) =
      rw (flipped, e, h, ltb_ℤ_asym r.timestamp l.timestamp h)
        (Agree-sym _ _ (adopt-Agree r l dr dl))

  -- Where the clocks of two copies of a ticket are maps and concurrent, and their timestamps
  -- equal, each of two nodes that merge the other's copy keeps its own.
  merge_ticket_tie :
      compare l.vector_clock r.vector_clock ≡ concurrent
      → l.timestamp ≡ r.timestamp
      → (merge_ticket l r ≡ l) × (merge_ticket r l ≡ r)
  unfolding merge_ticket
  merge_ticket_tie e h = ground (
    arith,
    flipped,
    ltb_ℤ_irrefl l.timestamp,
    ap (ltb_ℤ l.timestamp) h,
    ap (λ t. ltb_ℤ t l.timestamp) h,
  )
