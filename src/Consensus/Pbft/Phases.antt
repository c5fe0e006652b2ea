-- ===== src/Consensus/Pbft/Phases.antt =====
-- pkg/consensus/pbft.go: the three phases, PRE-PREPARE, PREPARE and COMMIT.
pub mod Quorate
use dtvn.Prelude.{
  ℕ, ◌+◌, ◌*◌, String, Bool, true, false, not, Option, none, some, List, [], ◌∷◌, if◌then◌else◌,
  ◌==◌, ltb, length, string_eq, nat_eq,
}
use dtvn.Prelude.Int.{ℤ, int_eq, incr_int64}
use dtvn.Prelude.GoMap.{GoMap, lookup, insert}
use dtvn.Prelude.GoMap.Laws.{is_some}
use dtvn.Consensus.Types.{Request, PrePrepareMsg, PrepareMsg, CommitMsg}
use dtvn.Consensus.Messages.{serialize_pre_prepare, serialize_prepare, serialize_commit}
use dtvn.Consensus.Pbft.{
  PbftNode, Env, Outcome, State, Error, not_primary, insufficient_peers, view_mismatch,
  digest_mismatch, serialize_failed, Effect, timer_reset, emit, put_vote, check_prepare_quorum,
  check_commit_quorum, compute_digest, send,
}
use dtvn.Consensus.Pbft.Execute.{execute_request}

module _ {App : Type 0} where
  -- The own COMMIT of `moveToCommitPhase`.
  abbrev pub own_commit : PbftNode App → ℤ → String → CommitMsg
  own_commit n seq digest = record {
    view = n.view;
    sequence = seq;
    digest = digest;
    node_id = n.node_id;
  }

  -- the writes of `moveToCommitPhase`, before it sends
  unfoldable pub enter_commit : PbftNode App → ℤ → String → PbftNode App
  enter_commit n seq digest = record n {
    state = State.commit;
    commit_log = put_vote seq n.node_id (own_commit n seq digest) n.commit_log;
  }

  unfoldable pub move_to_commit_phase : Env → PbftNode App → ℤ → String → Outcome App
  unfolding enter_commit
  move_to_commit_phase env n seq digest =
      let entered = enter_commit n seq digest in
      elim (send env 2 (serialize_commit env.protobuf (own_commit n seq digest)) entered) [
        | none ↦ (entered, some serialize_failed)
        | some sent ↦
            if check_commit_quorum sent seq then execute_request env sent seq else (sent, none)
      ]

  -- The own PREPARE of `handlePrePrepare`.
  abbrev pub own_prepare : PbftNode App → PrePrepareMsg → PrepareMsg
  own_prepare n msg = record {
    view = msg.view;
    sequence = msg.sequence;
    digest = msg.digest;
    node_id = n.node_id;
  }

  -- the writes of `handlePrePrepare`, before it sends
  unfoldable pub enter_prepare : PbftNode App → PrePrepareMsg → PbftNode App
  enter_prepare n msg = emit timer_reset (record n {
    request_log = insert msg.sequence msg.request n.request_log;
    state = State.prepare;
    prepare_log = put_vote msg.sequence n.node_id (own_prepare n msg) n.prepare_log;
  })

  -- the end of `handlePrePrepare`: PREPAREs or COMMITs may have come before the PRE-PREPARE
  unfoldable pub after_prepare : Env → PbftNode App → PrePrepareMsg → Outcome App
  after_prepare env n msg =
      if check_prepare_quorum n msg.sequence
      then move_to_commit_phase env n msg.sequence msg.digest
      else if check_commit_quorum n msg.sequence
      then execute_request env n msg.sequence
      else (n, none)

  unfoldable pub handle_pre_prepare : Env → PbftNode App → PrePrepareMsg → Outcome App
  unfolding enter_prepare
  handle_pre_prepare env n msg =
      if not (msg.view == n.view)
      then (n, some view_mismatch)
      else if not (compute_digest env msg.request == msg.digest)
      then (n, some digest_mismatch)
      else let entered = enter_prepare n msg in
        elim (send env 1 (serialize_prepare env.protobuf (own_prepare n msg)) entered) [
          | none ↦ (entered, some serialize_failed)
          | some sent ↦ after_prepare env sent msg
        ]

  -- the first critical section of `ProposeRequest`, up to the PRE-PREPARE that it makes
  unfoldable pub prepare_proposal : Env → PbftNode App → Request → PbftNode App × PrePrepareMsg
  prepare_proposal env n req =
      let seq = incr_int64 n.sequence in
      (
        record n { sequence = seq; request_log = insert seq req n.request_log },
        record { view = n.view; sequence = seq; digest = compute_digest env req; request = req },
      )

  -- the guards of `ProposeRequest`; `none` is the case that proceeds
  unfoldable pub propose_guard : Env → PbftNode App → Option Error
  propose_guard env n =
      let active_nodes = env.peer_count + 1 in
      let required_quorum = 2 * n.f + 1 in
      if not n.is_primary
      then some not_primary
      else if n.total_nodes == 1
      then none
      else if ltb active_nodes required_quorum
      then some (insufficient_peers active_nodes required_quorum)
      else none

  -- `ProposeRequest` gives the lock up before it serializes and calls `handlePrePrepare`: this is the
  -- case in which no other step comes between.
  unfoldable pub propose_request : Env → PbftNode App → Request → Outcome App
  unfolding prepare_proposal propose_guard
  propose_request env n req = elim (propose_guard env n) [
    | some e ↦ (n, some e)
    | none ↦
        let (proposed, msg) = prepare_proposal env n req in
        elim (send env 0 (serialize_pre_prepare env.protobuf msg) proposed) [
          | none ↦ (proposed, some serialize_failed)
          | some sent ↦ handle_pre_prepare env sent msg
        ]
  ]

  -- `n.prepareLog[msg.Sequence][msg.NodeID] = msg`
  abbrev pub store_prepare : PbftNode App → PrepareMsg → PbftNode App
  store_prepare n msg = record n {
    prepare_log = put_vote msg.sequence msg.node_id msg n.prepare_log;
  }

  unfoldable pub handle_prepare : Env → PbftNode App → PrepareMsg → Outcome App
  handle_prepare env n msg =
      let stored = store_prepare n msg in
      if not (msg.view == n.view)
      then (n, some view_mismatch)
      else if not (check_prepare_quorum stored msg.sequence)
      then (stored, none)
      else if is_some (lookup msg.sequence stored.request_log)
      then move_to_commit_phase env stored msg.sequence msg.digest
      else (stored, none)

  -- `n.commitLog[msg.Sequence][msg.NodeID] = msg`
  abbrev pub store_commit : PbftNode App → CommitMsg → PbftNode App
  store_commit n msg = record n { commit_log = put_vote msg.sequence msg.node_id msg n.commit_log }

  unfoldable pub handle_commit : Env → PbftNode App → CommitMsg → Outcome App
  handle_commit env n msg =
      let stored = store_commit n msg in
      if not (msg.view == n.view)
      then (n, some view_mismatch)
      else if not (check_commit_quorum stored msg.sequence)
      then (stored, none)
      else if is_some (lookup msg.sequence stored.request_log)
      then execute_request env stored msg.sequence
      else (stored, none)
