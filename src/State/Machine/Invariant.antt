-- ===== src/State/Machine/Invariant.antt =====
-- What holds of a machine between two calls: a ticket stands under its own name, and no ticket's
-- clock is ahead of the machine's.
use dtvn.Prelude.{
  ℕ, suc, ◌∙◌, String, some, List, [], ◌∷◌, ◌≡◌, refl, inl, inr, Option-cases, arith, string_eq,
}
use native.Mathlib.Nat.{le_refl}
use dtvn.Prelude.Int.{ℤ}
use dtvn.Prelude.GoMap.{GoMap, lookup, insert, IsMap}
use dtvn.Prelude.GoMap.Laws.{Each, Each-insert, IsMap-insert}
use dtvn.State.VectorClock.{VectorClock, get, Ordering, before, after, equal, concurrent}
use dtvn.State.VectorClock
use dtvn.State.VectorClock.Order.{Le}
use dtvn.State.VectorClock.Merge.{CanTick, Le-increment, IsMap-increment, IsMap-copy, get-copy}
use dtvn.State.Machine.{
  StateMachine, Ticket, TicketState, stamp, seed_ticket, seed_loop, seed_tickets, record_transition,
  with_synced, synced_ticket,
}
use dtvn.State.Machine.Ops.{
  Op, issue, seed, validate, consume, dispute, sync, apply, validate_cases, consume_cases,
  dispute_cases, sync_cases, issue_cases,
}
use dtvn.State.Machine.Lifecycle.{current_state-record_transition, vector_clock-record_transition}

pub record IsSound (clock : VectorClock) (id : String) (t : Ticket) : Type 0 where
  pub named : t.id ≡ id
  pub clock_map : IsMap t.vector_clock.clocks
  pub behind : Le t.vector_clock clock

pub record IsValid (sm : StateMachine) : Type 0 where
  pub tickets_map : IsMap sm.current_state
  pub clock_map : IsMap sm.vector_clock.clocks
  pub sound : Each (IsSound sm.vector_clock) sm.current_state

Le-copy : (c : VectorClock) → IsMap c.clocks → Le (VectorClock.copy c) c
Le-copy c d k = omega (arith, get-copy c k d)

-- A ticket whose clock is a copy of another.
pub IsSound-copy :
    (clock c : VectorClock) (id : String) (t : Ticket)
    → t.id ≡ id
    → t.vector_clock ≡ VectorClock.copy c
    → IsMap c.clocks
    → Le c clock
    → IsSound clock id t
IsSound-copy clock c id t n e d h = record {
  named = n;
  clock_map = rw e (IsMap-copy c);
  behind = rw e (λ k. omega (arith, h k, get-copy c k d));
}

pub IsSound-mono :
    (c d : VectorClock) (id : String) (t : Ticket) → Le c d → IsSound c id t → IsSound d id t
IsSound-mono c d id t h s = record {
  named = s.named;
  clock_map = s.clock_map;
  behind = λ k. omega (arith, h k, s.behind k);
}

IsValid-insert :
    (sm : StateMachine) (id : String) (t : Ticket)
    → IsValid sm
    → IsSound sm.vector_clock id t
    → IsValid (record sm { current_state = insert id t sm.current_state })
IsValid-insert sm id t v s = record {
  tickets_map = IsMap-insert id t sm.current_state v.tickets_map;
  clock_map = v.clock_map;
  sound = Each-insert _ id t sm.current_state s v.sound;
}

record_transition-IsValid :
    (sm : StateMachine) (j : String) (t u : Ticket) (old : TicketState) (by : String)
    → IsValid sm
    → CanTick sm.vector_clock
    → lookup j sm.current_state ≡ some u
    → t.id ≡ u.id
    → IsValid (record_transition sm j t old by).0
unfolding stamp
record_transition-IsValid sm j t u old by v tick e n = record {
  tickets_map =
      rw (current_state-record_transition sm j t old by)
        (IsMap-insert j (stamp sm t) sm.current_state v.tickets_map);
  clock_map =
      rw (vector_clock-record_transition sm j t old by)
        (IsMap-increment sm.vector_clock v.clock_map);
  sound =
      rw
        (
          current_state-record_transition sm j t old by,
          vector_clock-record_transition sm j t old by,
        )
        (Each-insert _ j (stamp sm t) sm.current_state
          (IsSound-copy next next j (stamp sm t) (n ∙ (v.sound j u e).named) refl
            (IsMap-increment sm.vector_clock v.clock_map) (λ k. le_refl _))
          (λ k w l.
            IsSound-mono sm.vector_clock next k w (Le-increment sm.vector_clock tick)
              (v.sound k w l)));
}
  where
    next : VectorClock
    next = VectorClock.increment sm.vector_clock

with_synced-IsValid :
    (sm : StateMachine) (j by payload : String) (now : ℤ)
    → IsValid sm
    → IsValid (with_synced sm j by payload now)
unfolding with_synced
with_synced-IsValid sm j by payload now v = record {
  tickets_map = IsMap-insert j _ sm.current_state v.tickets_map;
  clock_map = v.clock_map;
  sound =
      Each-insert _ j (synced_ticket sm j by payload now) sm.current_state
        (IsSound-copy sm.vector_clock sm.vector_clock j _ refl refl v.clock_map (λ k. le_refl _))
        v.sound;
}

-- The tickets of the loop of `SeedTickets`.
seed_loop-IsSound :
    (clock : VectorClock) (tickets : GoMap String Ticket) (n : ℕ) (ts : List Ticket)
    → IsMap clock.clocks
    → IsMap tickets
    → Each (IsSound clock) tickets
    → IsMap (seed_loop clock tickets n ts).0 × Each (IsSound clock) (seed_loop clock tickets n ts).0
unfolding seed_loop
seed_loop-IsSound clock tickets n [] d m s = (m, s)
seed_loop-IsSound clock tickets n (t ∷ ts) d m s = elim (Option-cases (lookup t.id tickets)) [
  | inl e ↦
      rw (e, seed_loop)
        (seed_loop-IsSound clock (seed_ticket clock tickets t) (suc n) ts d
          (IsMap-insert t.id _ tickets m)
          (Each-insert _ t.id _ tickets
            (IsSound-copy clock clock t.id _ refl refl d (λ k. le_refl _)) s))
  | inr (u, e) ↦ rw (e, seed_loop) (seed_loop-IsSound clock tickets n ts d m s)
]

-- Every operation on a node's own tickets keeps a valid machine valid, if the machine's own
-- counter is not the largest `uint64`.
pub apply-IsValid :
    (sm : StateMachine) (op : Op) → IsValid sm → CanTick sm.vector_clock → IsValid (apply sm op).0
unfolding apply seed_tickets
apply-IsValid sm (issue j payload now) v tick = issue_cases IsValid sm j "" now payload v λ e.
    IsValid-insert sm j _ v
      (IsSound-copy sm.vector_clock sm.vector_clock j _ refl refl v.clock_map (λ k. le_refl _))
apply-IsValid sm (seed ts) v tick =
    let (m, s) =
      seed_loop-IsSound sm.vector_clock sm.current_state 0 ts v.clock_map v.tickets_map v.sound in
    record { tickets_map = m; clock_map = v.clock_map; sound = s }
apply-IsValid sm (validate j by now) v tick =
    validate_cases IsValid sm j by now v
      λ u e was. record_transition-IsValid sm j _ u u.state by v tick e refl
apply-IsValid sm (consume j by now) v tick =
    consume_cases IsValid sm j by now v
      λ u e was. record_transition-IsValid sm j _ u u.state by v tick e refl
apply-IsValid sm (dispute j by now) v tick =
    dispute_cases IsValid sm j by now v
      λ u e. record_transition-IsValid sm j _ u u.state by v tick e refl
apply-IsValid sm (sync j by payload now) v tick =
    sync_cases IsValid sm j by now payload v λ e. with_synced-IsValid sm j by payload now v
