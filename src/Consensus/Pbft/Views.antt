-- ===== src/Consensus/Pbft/Views.antt =====
-- pkg/consensus/pbft.go: the change of view, on a timeout or by the votes of other nodes.
pub mod Moves
use dtvn.Prelude.{
  ℕ, String, Bool, true, false, not, ◌&&◌, Option, none, some, List, [], ◌∷◌, if◌then◌else◌, ◌==◌,
  ltb, length, string_eq,
}
use dtvn.Prelude.Int.{ℤ, incr_int64, leb_ℤ}
use dtvn.Prelude.GoMap.{GoMap, lookup, insert, delete_where}
use dtvn.Consensus.Types.{ViewChangeMsg}
use dtvn.Consensus.Messages.{serialize_view_change}
use dtvn.Consensus.Pbft.{
  PbftNode, Env, State, idle, Effect, timer_reset, emit, put_vote, votes_at, required, get_primary,
  send,
}
use dtvn.Consensus.Pbft.Execute.{fail_pending_callbacks}

abbrev pub is_idle : State → Bool
is_idle idle = true
is_idle _ = false

module _ {App : Type 0} where
  -- The view, its primary, and the reset of the round: what both ways to a new view do.
  unfoldable pub enter_view : PbftNode App → ℤ → PbftNode App
  enter_view n view =
      let moved = record n { view = view } in
      emit timer_reset (record moved {
        is_primary = moved.node_id == get_primary moved;
        state = idle;
        has_pending_client_request = false;
      })

  abbrev pub or_unsent : Option (PbftNode App) → PbftNode App → PbftNode App
  or_unsent none n = n
  or_unsent (some sent) n = sent

  abbrev own_vote : PbftNode App → ℤ → ViewChangeMsg
  own_vote n view = record { new_view = view; node_id = n.node_id }

  -- the writes of `initiateViewChange`, before it sends
  unfoldable pub vote_for : PbftNode App → ℤ → PbftNode App
  unfolding enter_view
  vote_for n view =
      let entered = enter_view n view in
      record entered {
        view_change_log = put_vote view n.node_id (own_vote n view) entered.view_change_log;
      }

  unfoldable pub initiate_view_change : Env → PbftNode App → PbftNode App
  unfolding vote_for
  initiate_view_change env n =
      let new_view = incr_int64 n.view in
      let voted = vote_for n new_view in
      if is_idle n.state && not n.has_pending_client_request
      then emit timer_reset n
      else fail_pending_callbacks (
          or_unsent (send env 3 (serialize_view_change env.protobuf (own_vote n new_view)) voted)
            voted)

  -- `n.viewChangeLog[msg.NewView][msg.NodeID] = msg`
  abbrev pub store_view_change : PbftNode App → ViewChangeMsg → PbftNode App
  store_view_change n msg = record n {
    view_change_log = put_vote msg.new_view msg.node_id msg n.view_change_log;
  }

  -- the transition of `HandleViewChange`, with the old votes deleted
  unfoldable pub adopt_view : PbftNode App → ℤ → PbftNode App
  unfolding enter_view
  adopt_view n view =
      let entered = enter_view n view in
      record entered { view_change_log = delete_where (λ v. leb_ℤ v view) entered.view_change_log }

  -- `HandleViewChange`, which never fails
  unfoldable pub handle_view_change : PbftNode App → ViewChangeMsg → PbftNode App
  unfolding adopt_view
  handle_view_change n msg =
      let stored = store_view_change n msg in
      let current = length (votes_at msg.new_view stored.view_change_log) in
      if leb_ℤ msg.new_view n.view
      then n
      else if ltb current (required n)
      then stored
      else fail_pending_callbacks (adopt_view stored msg.new_view)
