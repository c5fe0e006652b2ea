-- ===== src/Consensus/Pbft/Views/Moves.antt =====
-- What a VIEW-CHANGE can do to a node's view, and what a node is in when it enters one.
use dtvn.Prelude.{
  ◌+◌, ◌*◌, ◌≤◌, ◌<◌, String, true, false, not, ◌&&◌, Option, none, [], ◌==◌, ◌≡◌, refl, inl, inr,
  ltb, length, string_eq, arith, Bool-cases, Option-cases,
}
use dtvn.Prelude.Int.{ℤ, leb_ℤ, incr_int64, int_eq}
use dtvn.Prelude.GoMap.{lookup}
use dtvn.Prelude.GoMap.Laws.{lookup-delete_where}
use dtvn.Consensus.Types.{ViewChangeMsg}
use dtvn.Consensus.Pbft.{PbftNode, Env, idle, votes_at, required, get_primary, send}
use dtvn.Consensus.Pbft.Core.{send-eq-some}
use dtvn.Consensus.Pbft.Execute.{fail_pending_callbacks}
use dtvn.Consensus.Pbft.Views.{
  is_idle, or_unsent, vote_for, initiate_view_change, store_view_change, adopt_view,
  handle_view_change,
}

module _ {App : Type 0} where
  -- A node at the start of a view: no round runs, no client waits, and it is the primary just when
  -- the view is its turn.
  pub record IsFreshIn (view : ℤ) (n : PbftNode App) : Type 0 where
    pub in_view : n.view ≡ view
    pub at_rest : n.state ≡ idle
    pub unasked : n.has_pending_client_request ≡ false
    pub answered : n.request_callbacks ≡ []
    pub primary : n.is_primary ≡ (n.node_id == get_primary n)

  pub data Moved (n : PbftNode App) (msg : ViewChangeMsg) (m : PbftNode App) : Type 0 where
    stale : leb_ℤ msg.new_view n.view ≡ true → m ≡ n → Moved n msg m
    counted :
        leb_ℤ msg.new_view n.view ≡ false
        → length (votes_at msg.new_view m.view_change_log) < 2 * n.f + 1
        → m ≡ store_view_change n msg
        → Moved n msg m
    moved :
        leb_ℤ msg.new_view n.view ≡ false
        → 2 * n.f + 1 ≤ length (votes_at msg.new_view (store_view_change n msg).view_change_log)
        → IsFreshIn msg.new_view m
        → ((view : ℤ) → leb_ℤ view msg.new_view ≡ true → lookup view m.view_change_log ≡ none)
        → Moved n msg m

  IsFreshIn-adopt_view :
      (n : PbftNode App) (view : ℤ) → IsFreshIn view (fail_pending_callbacks (adopt_view n view))
  unfolding fail_pending_callbacks adopt_view get_primary
  IsFreshIn-adopt_view n view = record {
    in_view = refl;
    at_rest = refl;
    unasked = refl;
    answered = refl;
    primary = refl;
  }

  old_votes_dropped :
      (n : PbftNode App) (view v : ℤ)
      → leb_ℤ v view ≡ true
      → lookup v (fail_pending_callbacks (adopt_view n view)).view_change_log ≡ none
  unfolding fail_pending_callbacks adopt_view
  old_votes_dropped n view v h =
      ground (arith, lookup-delete_where (λ w. leb_ℤ w view) v n.view_change_log)

  -- A VIEW-CHANGE for the current view or an older one changes nothing. A later one is stored.
  -- With fewer than 2f + 1 votes for its view nothing else happens; with at least as many the node
  -- starts afresh in that view, with no callback pending, and keeps no vote for that view or an
  -- older one.
  pub handle_view_change-Moved :
      (n : PbftNode App) (msg : ViewChangeMsg) → Moved n msg (handle_view_change n msg)
  unfolding handle_view_change
  handle_view_change-Moved n msg = elim (Bool-cases (leb_ℤ msg.new_view n.view)) [
    | inl h ↦ rw (h, handle_view_change) (stale h refl)
    | inr h ↦
        elim (Bool-cases
          (ltb (length (votes_at msg.new_view stored.view_change_log)) (required n))) [
            | inl g ↦ rw (h, g, handle_view_change) (counted h (ground arith) refl)
            | inr g ↦
                rw (h, g, handle_view_change)
                  (moved h (ground arith) (IsFreshIn-adopt_view stored msg.new_view)
                    (old_votes_dropped stored msg.new_view))
          ]
  ]
    where
      stored : PbftNode App
      stored = store_view_change n msg

  IsFreshIn-initiate :
      (env : Env) (n : PbftNode App) (view : ℤ) (payload : Option String)
      → IsFreshIn view (
          fail_pending_callbacks
            (or_unsent (send env 3 payload (vote_for n view)) (vote_for n view)))
  unfolding fail_pending_callbacks vote_for get_primary
  IsFreshIn-initiate env n view payload =
      elim (Option-cases (send env 3 payload (vote_for n view))) [
        | inl e ↦ rw e (record {
          in_view = refl;
          at_rest = refl;
          unasked = refl;
          answered = refl;
          primary = refl;
        })
        | inr (sent, e) ↦
            let (bytes, s) = send-eq-some env 3 payload (vote_for n view) e in
            rw (e, s)
              (record {
                in_view = refl;
                at_rest = refl;
                unasked = refl;
                answered = refl;
                primary = refl;
              })
      ]

  -- When the view timer of a node fires that is in a round or that a client waits for, the node is
  -- at the start of the next view, with no callback pending, whether or not its vote can be sent.
  initiate_view_change-IsFreshIn :
      (env : Env) (n : PbftNode App)
      → (is_idle n.state && not n.has_pending_client_request) ≡ false
      → IsFreshIn (incr_int64 n.view) (initiate_view_change env n)
  unfolding initiate_view_change
  initiate_view_change-IsFreshIn env n h =
      rw (h, initiate_view_change) (IsFreshIn-initiate env n (incr_int64 n.view) _)
