-- ===== src/State/Notifier/Delivery.antt =====
-- Who receives a notification.
use dtvn.Prelude.{
  ℕ, String, Bool, true, Option, none, some, List, [], ◌∷◌, ◌++◌, if◌then◌else◌, ◌==◌, ◌≡◌, ap, ◌∙◌,
  arith, nat_eq, string_eq, beq_refl, Option-cases, inl, inr,
}
use dtvn.Prelude.GoMap.{GoMap, lookup}
use dtvn.Prelude.GoMap.Laws.{lookup-insert, lookup-insert_self}
use dtvn.Prelude.GoMap.Count.{contains}
use dtvn.State.Machine.{TicketState}
use dtvn.State.Notifier.{StateNotifier, subscribers_of, subscribe, offered, offer, send_all, notify}

-- A channel's place after a notification: filled if it is subscribed and the place was free.
abbrev pub delivered :
    Bool → TicketState → Option (Option TicketState) → Option (Option TicketState)
delivered is_subscribed new_state none = none
delivered is_subscribed new_state (some held) =
    if is_subscribed then some (offered new_state held) else some held

lookup-offer :
    (new_state : TicketState) (ch at : ℕ) (buffers : GoMap ℕ (Option TicketState))
    → lookup at (offer new_state ch buffers) ≡ delivered (ch == at) new_state (lookup at buffers)
unfolding offer
lookup-offer new_state ch at buffers = elim (Option-cases (lookup ch buffers)) [
  | inl e ↦ rw (e, offer) (ground (arith, nat_eq.beq_iff ch at))
  | inr (held, e) ↦
      rw (e, offer)
        (ground (arith, nat_eq.beq_iff ch at, lookup-insert ch at (offered new_state held) buffers))
]

delivered_twice :
    (a b : Bool) (new_state : TicketState) (held : Option (Option TicketState))
    → delivered b new_state (delivered a new_state held)
      ≡ delivered (if a then true else b) new_state held
delivered_twice a b new_state held = ground arith

lookup-send_all :
    (new_state : TicketState) (subs : List ℕ) (at : ℕ) (buffers : GoMap ℕ (Option TicketState))
    → lookup at (send_all new_state subs buffers)
      ≡ delivered (contains subs at) new_state (lookup at buffers)
unfolding send_all contains
lookup-send_all new_state [] at buffers = ground arith
lookup-send_all new_state (ch ∷ subs) at buffers =
    lookup-send_all new_state subs at (offer new_state ch buffers)
    ∙ ap (delivered (contains subs at) new_state) (lookup-offer new_state ch at buffers)
    ∙ delivered_twice (ch == at) (contains subs at) new_state (lookup at buffers)

-- A notification fills the place of each channel that is subscribed to the ticket and has a free
-- place; it overwrites no state that was not read yet, and leaves all other channels.
lookup-notify :
    (sn : StateNotifier) (ticket_id : String) (new_state : TicketState) (at : ℕ)
    → lookup at (notify sn ticket_id new_state).buffers
      ≡ delivered (contains (subscribers_of sn ticket_id) at) new_state (lookup at sn.buffers)
unfolding notify
lookup-notify sn ticket_id new_state at =
    lookup-send_all new_state (subscribers_of sn ticket_id) at sn.buffers

contains-append_self : (subs : List ℕ) (ch : ℕ) → contains (subs ++ ch ∷ []) ch ≡ true
unfolding contains
contains-append_self [] ch = ground (arith, beq_refl ch)
contains-append_self (s ∷ subs) ch = ground (arith, contains-append_self subs ch)

-- The channel that a subscription to a ticket returns holds the new state after the next
-- notification for that ticket.
lookup-notify-subscribe :
    (sn : StateNotifier) (ticket_id : String) (new_state : TicketState)
    → lookup
        (subscribe sn ticket_id).1
        (notify (subscribe sn ticket_id).0 ticket_id new_state).buffers
      ≡ some (some new_state)
unfolding subscribe
lookup-notify-subscribe sn ticket_id new_state = rw (
  lookup-notify (subscribe sn ticket_id).0 ticket_id new_state sn.next,
  lookup-insert_self ticket_id (subscribers_of sn ticket_id ++ sn.next ∷ []) sn.subscribers,
  contains-append_self (subscribers_of sn ticket_id) sn.next,
  lookup-insert_self {V = Option TicketState} sn.next none sn.buffers,
)
