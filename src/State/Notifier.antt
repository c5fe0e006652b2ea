-- ===== src/State/Notifier.antt =====
-- pkg/state/machine.go, the `StateNotifier`. A channel is a reference, here a number; `buffers` is
-- the store of the channels, each with its one place, and `next` the reference of the next
-- channel that is made. The mutex makes `Subscribe` and `Unsubscribe` atomic; `Notify` sends after
-- it gave the mutex up, here in the same step.
pub mod Delivery
use dtvn.Prelude.{
  ℕ, suc, String, Option, none, some, List, [], ◌∷◌, ◌++◌, if◌then◌else◌, ◌==◌, length, nat_eq,
  string_eq,
}
use dtvn.Prelude.GoMap.{GoMap, lookup, insert, delete}
use dtvn.State.Machine.{TicketState}

pub record StateNotifier : Type 0 where
  pub subscribers : GoMap String (List ℕ)
  pub buffers : GoMap ℕ (Option TicketState)
  pub next : ℕ

unfoldable pub new : StateNotifier
new = record { subscribers = []; buffers = []; next = 0 }

-- `sn.subscribers[ticketID]`, which is nil where nothing is bound
abbrev pub or_nil : Option (List ℕ) → List ℕ
or_nil none = []
or_nil (some subs) = subs

abbrev pub subscribers_of : StateNotifier → String → List ℕ
subscribers_of sn ticket_id = or_nil (lookup ticket_id sn.subscribers)

unfoldable pub subscribe : StateNotifier → String → StateNotifier × ℕ
subscribe sn ticket_id = (
  record sn {
    subscribers = insert ticket_id (subscribers_of sn ticket_id ++ sn.next ∷ []) sn.subscribers;
    buffers = insert sn.next none sn.buffers;
    next = suc sn.next;
  },
  sn.next,
)

-- the loop of `Unsubscribe`, which the first match ends
unfoldable pub remove_first : ℕ → List ℕ → List ℕ
remove_first ch [] = []
remove_first ch (s ∷ subs) = let rest = remove_first ch subs in if s == ch then subs else s ∷ rest

unfoldable pub unsubscribe : StateNotifier → String → ℕ → StateNotifier
unfolding remove_first
unsubscribe sn ticket_id ch =
    let subs = remove_first ch (subscribers_of sn ticket_id) in
    record sn {
      subscribers =
          if length subs == 0
          then delete ticket_id sn.subscribers
          else insert ticket_id subs sn.subscribers;
    }

-- the `select` of `Notify`: what a channel holds after a send that does not wait
abbrev pub offered : TicketState → Option TicketState → Option TicketState
offered new_state none = some new_state
offered new_state (some state) = some state

unfoldable pub offer : TicketState → ℕ → GoMap ℕ (Option TicketState) → GoMap ℕ (Option TicketState)
offer new_state ch buffers = elim (lookup ch buffers) [
  | none ↦ buffers
  | some held ↦ insert ch (offered new_state held) buffers
]

unfoldable pub send_all :
    TicketState → List ℕ → GoMap ℕ (Option TicketState) → GoMap ℕ (Option TicketState)
unfolding offer
send_all new_state [] buffers = buffers
send_all new_state (ch ∷ subs) buffers = send_all new_state subs (offer new_state ch buffers)

unfoldable pub notify : StateNotifier → String → TicketState → StateNotifier
unfolding send_all
notify sn ticket_id new_state = record sn {
  buffers = send_all new_state (subscribers_of sn ticket_id) sn.buffers;
}
