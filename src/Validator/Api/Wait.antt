-- ===== src/Validator/Api/Wait.antt =====
-- cmd/validator/main.go, `ValidateTicket`: how a node that has forwarded a request waits.
use mathlib.Core.Bool.{false≢true}
use dtvn.Prelude.{
  ◌⊎◌, String, Bool, true, false, List, ℕ, if◌then◌else◌, [], ◌∷◌, ◌++◌, ◌≡◌, refl, ap, inl, inr,
  sym, ◌∙◌, Bool-cases, All,
}
use dtvn.State.Machine
use dtvn.State.Machine.{TicketState}
use dtvn.Consensus.Pbft.{clear_pending_request, notify_pending_request, emit, broadcast}
use dtvn.State.Notifier
use dtvn.Validator.Api.{
  Node, Event, Result, deadline, done, tick, notified, waiting, success, failed, wait_loop,
  unsubscribed, await, confirmed, with_notifier,
}

-- an event that the loop passes over
abbrev pub is_quiet : Event → Bool
is_quiet tick = true
is_quiet (notified Machine.validated) = false
is_quiet (notified _) = true
is_quiet _ = false

abbrev pub IsConfirmedIn : List Event → Type 0
IsConfirmedIn events =
    (before : List Event) × (after : List Event) × (events
      ≡ before ++ notified Machine.validated ∷ after)
    × All (λ e. is_quiet e ≡ true) before

skip :
    (e : Event) (events : List Event)
    → is_quiet e ≡ true
    → IsConfirmedIn events
    → IsConfirmedIn (e ∷ events)
skip e events quiet (before, after, split, all) =
    (e ∷ before, after, ap (λ es. e ∷ es) split, (quiet, all))

if_cases {ℓ κ} :
    {A : Type ℓ} (P : A → Type κ) (b : Bool) {x y : A}
    → (b ≡ true → P x)
    → (b ≡ false → P y)
    → P (if b then x else y)
if_cases P true p q = p refl
if_cases P false p q = q refl

pub if_holds {ℓ κ} :
    {A : Type ℓ} (P : A → Type κ) (b : Bool) {x y : A} → P x → P y → P (if b then x else y)
if_holds P b p q = if_cases P b (λ e. p) (λ e. q)

module _ {Db : Type 0} where
  abbrev IsDone : List Event → Node Db × Result → Type 0
  IsDone events (n, success) = (n.has_pending_client_request ≡ false) × IsConfirmedIn events
  IsDone events (n, _) = Unit

  IsDone-skip :
      (e : Event) (events : List Event)
      → is_quiet e ≡ true
      → (r : Node Db × Result) → IsDone events r
      → IsDone (e ∷ events) r
  IsDone-skip e events quiet (n, waiting) h = tt
  IsDone-skip e events quiet (n, failed x) h = tt
  IsDone-skip e events quiet (n, success) h = (h.0, skip e events quiet h.1)

  wait_loop-IsDone :
      (n : Node Db) (bytes : String) (events : List Event)
      → IsDone events (wait_loop n bytes events)
  unfolding wait_loop clear_pending_request
  wait_loop-IsDone n bytes [] = tt
  wait_loop-IsDone n bytes (deadline ∷ events) = tt
  wait_loop-IsDone n bytes (done ∷ events) = tt
  wait_loop-IsDone n bytes (tick ∷ events) =
      IsDone-skip tick events refl (wait_loop (emit (broadcast bytes) n) bytes events)
        (wait_loop-IsDone (emit (broadcast bytes) n) bytes events)
  wait_loop-IsDone n bytes (notified Machine.validated ∷ events) = (refl, ([], events, refl, tt))
  wait_loop-IsDone n bytes (notified Machine.issued ∷ events) =
      IsDone-skip _ events refl (wait_loop n bytes events) (wait_loop-IsDone n bytes events)
  wait_loop-IsDone n bytes (notified Machine.pending ∷ events) =
      IsDone-skip _ events refl (wait_loop n bytes events) (wait_loop-IsDone n bytes events)
  wait_loop-IsDone n bytes (notified Machine.consumed ∷ events) =
      IsDone-skip _ events refl (wait_loop n bytes events) (wait_loop-IsDone n bytes events)
  wait_loop-IsDone n bytes (notified Machine.disputed ∷ events) =
      IsDone-skip _ events refl (wait_loop n bytes events) (wait_loop-IsDone n bytes events)
  wait_loop-IsDone n bytes (notified (Machine.other s) ∷ events) =
      IsDone-skip _ events refl (wait_loop n bytes events) (wait_loop-IsDone n bytes events)

  -- a success is right: the ticket was validated when the node began to wait, or while it waited
  abbrev pub IsAnswered : Node Db → String → List Event → Node Db × Result → Type 0
  IsAnswered at ticket_id events (n, success) =
      (n.has_pending_client_request ≡ false)
      × ((confirmed at ticket_id ≡ true) ⊎ IsConfirmedIn events)
  IsAnswered at ticket_id events (n, _) = Unit

  unsubscribed-IsAnswered :
      (at : Node Db) (ticket_id : String) (events : List Event) (ch : ℕ) (r : Node Db × Result)
      → IsDone events r
      → IsAnswered at ticket_id events (unsubscribed ticket_id ch r)
  unfolding unsubscribed
  unsubscribed-IsAnswered at ticket_id events ch (n, waiting) h = tt
  unsubscribed-IsAnswered at ticket_id events ch (n, failed e) h = tt
  unsubscribed-IsAnswered at ticket_id events ch (n, success) h = (h.0, inr h.1)

  pub await-IsAnswered :
      (n : Node Db) (ticket_id bytes : String) (events : List Event)
      → IsAnswered n ticket_id events (await n ticket_id bytes events)
  unfolding await unsubscribed notify_pending_request clear_pending_request Notifier.subscribe
  await-IsAnswered n ticket_id bytes events =
      let (notifier, ch) = Notifier.subscribe n.app.state_notifier ticket_id in
      let subscribed = with_notifier (notify_pending_request n) notifier in
      elim (Bool-cases (confirmed n ticket_id)) [
        | inl here ↦ rw here (refl, inl here)
        | inr away ↦ rw away (
            unsubscribed-IsAnswered n ticket_id events ch (wait_loop subscribed bytes events)
              (wait_loop-IsDone subscribed bytes events))
      ]

  wait_loop-passes :
      (n : Node Db) (bytes : String) (before after : List Event)
      → All (λ e. is_quiet e ≡ true) before
      → (wait_loop n bytes (before ++ notified Machine.validated ∷ after)).1 ≡ success
  unfolding wait_loop
  wait_loop-passes n bytes [] after h = refl
  wait_loop-passes n bytes (tick ∷ before) after h =
      wait_loop-passes (emit (broadcast bytes) n) bytes before after h.1
  wait_loop-passes n bytes (deadline ∷ before) after h = absurd (false≢true h.0)
  wait_loop-passes n bytes (done ∷ before) after h = absurd (false≢true h.0)
  wait_loop-passes n bytes (notified Machine.validated ∷ before) after h = absurd (false≢true h.0)
  wait_loop-passes n bytes (notified Machine.issued ∷ before) after h =
      wait_loop-passes n bytes before after h.1
  wait_loop-passes n bytes (notified Machine.pending ∷ before) after h =
      wait_loop-passes n bytes before after h.1
  wait_loop-passes n bytes (notified Machine.consumed ∷ before) after h =
      wait_loop-passes n bytes before after h.1
  wait_loop-passes n bytes (notified Machine.disputed ∷ before) after h =
      wait_loop-passes n bytes before after h.1
  wait_loop-passes n bytes (notified (Machine.other s) ∷ before) after h =
      wait_loop-passes n bytes before after h.1

  result-unsubscribed :
      (ticket_id : String) (ch : ℕ) (r : Node Db × Result) → (unsubscribed ticket_id ch r).1 ≡ r.1
  unfolding unsubscribed
  result-unsubscribed ticket_id ch (n, waiting) = refl
  result-unsubscribed ticket_id ch (n, success) = refl
  result-unsubscribed ticket_id ch (n, failed e) = refl

  -- A node that waits for a ticket answers that it is validated if its machine had the ticket as
  -- VALIDATED when it subscribed, or if a notification of that comes after events that the loop
  -- passes over.
  pub await-success :
      (n : Node Db) (ticket_id bytes : String) (events : List Event)
      → (confirmed n ticket_id ≡ true) ⊎ IsConfirmedIn events
      → (await n ticket_id bytes events).1 ≡ success
  unfolding await notify_pending_request
  await-success n ticket_id bytes events (inl known) =
      if_cases
        (λ (r : Node Db × Result).
          (unsubscribed ticket_id (Notifier.subscribe n.app.state_notifier ticket_id).1 r).1
          ≡ success)
        (confirmed n ticket_id) (λ here. refl) (λ away. absurd (false≢true (sym away ∙ known)))
  await-success n ticket_id bytes events (inr (before, after, split, quiet)) =
      let (notifier, ch) = Notifier.subscribe n.app.state_notifier ticket_id in
      let subscribed = with_notifier (notify_pending_request n) notifier in
      result-unsubscribed ticket_id ch _
      ∙ if_cases (λ (r : Node Db × Result). r.1 ≡ success) (confirmed n ticket_id) (λ here. refl)
          (λ away. rw split (wait_loop-passes subscribed bytes before after quiet))
