-- ===== src/Consensus/Pbft.antt =====
-- pkg/consensus/pbft.go, the state of a `PBFTNode` and the helpers of its handlers. A method that
-- holds the node's lock is one step from a node to a node. `App` is the state that the registered
-- handlers work on. What a node does to the world (a broadcast, a timer that is reset, a callback)
-- is recorded in `effects`, newest first; the goroutine of a broadcast may be run later.
pub mod Execute
pub mod Core
pub mod Executed
pub mod Phases
pub mod Views
pub mod Checkpoints
pub mod Network
pub mod Inputs
pub mod Safety
pub mod Votes
use Prim.Native.String.{◌++◌ as str_append}
use dtvn.Prelude.{
  ℕ, ◌+◌, ◌-◌, ◌*◌, ◌/◌, String, Bool, true, false, Option, none, some, List, [], ◌∷◌, ◌++◌, ltb,
  leb, if◌then◌else◌, ◌==◌, length, nat_eq, string_eq,
}
use dtvn.Prelude.Int.{ℤ, pos, int_eq, rem_ℤ}
use dtvn.Prelude.Decimal.{format_int}
use dtvn.Prelude.GoMap.{GoMap, lookup, insert}
use dtvn.Consensus.Types.{
  Request, PrepareMsg, CommitMsg, Checkpoint, ViewChangeMsg, ConsensusMessage,
}
use dtvn.Consensus.Messages.{Protobuf, serialize_pbft_message}

pub data State : Type 0 where
  idle pre_prepare prepare commit committed : State

-- The errors that the methods return.
pub data Error : Type 0 where
  not_primary view_mismatch digest_mismatch serialize_failed request_not_found : Error
  deserialize_failed queue_full : Error
  insufficient_peers : ℕ → ℕ → Error
  handler_failed : String → Error
  unsupported_type : ℕ → Error

pub data Effect : Type 0 where
  broadcast : String → Effect
  timer_reset : Effect
  -- a request is handed to the handlers at a sequence number
  executed : ℤ → Request → Effect
  replicated : Request → Effect
  -- the callback of a request is started with its result
  called_back : String → Bool → Effect

-- A handler changes the application's state and may fail.
abbrev pub ConsensusHandler : Type 0 → Type 0
ConsensusHandler App = Request → App → App × Option String

-- What a call finds outside the node: the peers that are connected, the clock, the hash of
-- crypto/sha256 in hexadecimal, and the protobuf library.
pub record Env : Type 0 where
  pub peer_count : ℕ
  pub now : ℤ
  pub sha256_hex : String → String
  pub protobuf : Protobuf

-- `requestCallbacks` binds a request to whether its callback is a function other than nil;
-- `has_replicator` says whether `stateReplicator` is set.
pub record PbftNode (App : Type 0) : Type 0 where
  pub node_id : String
  pub view : ℤ
  pub sequence : ℤ
  pub state : State
  pub f : ℕ
  pub total_nodes : ℕ
  pub is_primary : Bool
  pub prepare_log : GoMap ℤ (GoMap String PrepareMsg)
  pub commit_log : GoMap ℤ (GoMap String CommitMsg)
  pub request_log : GoMap ℤ Request
  pub message_queue : List ConsensusMessage
  pub handlers : List (ConsensusHandler App)
  pub checkpoints : GoMap ℤ Checkpoint
  pub checkpoint_votes : GoMap ℤ (GoMap String Checkpoint)
  pub last_stable_checkpoint : ℤ
  pub view_change_log : GoMap ℤ (GoMap String ViewChangeMsg)
  pub has_pending_client_request : Bool
  pub request_callbacks : GoMap String Bool
  pub has_replicator : Bool
  pub app : App
  pub effects : List Effect

-- The fields of `Config` that the node keeps.
pub record Config : Type 0 where
  pub node_id : String
  pub total_nodes : ℕ
  pub is_primary : Bool

abbrev pub Outcome : Type 0 → Type 0
Outcome App = PbftNode App × Option Error

module _ {App : Type 0} where
  unfoldable pub new : Config → App → PbftNode App
  new cfg app = record {
    node_id = cfg.node_id;
    view = pos 0;
    sequence = pos 0;
    state = idle;
    f = (cfg.total_nodes - 1) / 3;
    total_nodes = cfg.total_nodes;
    is_primary = cfg.is_primary;
    prepare_log = [];
    commit_log = [];
    request_log = [];
    message_queue = [];
    handlers = [];
    checkpoints = [];
    checkpoint_votes = [];
    last_stable_checkpoint = pos 0;
    view_change_log = [];
    has_pending_client_request = false;
    request_callbacks = [];
    has_replicator = false;
    app = app;
    effects = [];
  }

  abbrev pub emit : Effect → PbftNode App → PbftNode App
  emit e n = record n { effects = e ∷ n.effects }

  -- `required := 2*n.f + 1; if required < 1 { required = 1 }`
  abbrev pub required : PbftNode App → ℕ
  required n = let r = 2 * n.f + 1 in if ltb r 1 then 1 else r

  unfoldable pub check_quorum : PbftNode App → ℕ → Bool
  check_quorum n votes = leb (required n) votes

-- `n.prepareLog[seq]`, where a missing entry is an empty map
abbrev pub votes_or_empty {ℓ} : {V : Type ℓ} → Option (GoMap String V) → GoMap String V
votes_or_empty none = []
votes_or_empty (some votes) = votes

abbrev pub votes_at {ℓ} : {V : Type ℓ} → ℤ → GoMap ℤ (GoMap String V) → GoMap String V
votes_at seq log = votes_or_empty (lookup seq log)

-- the vote of a node at a sequence number or view, the inner map made where it is nil
unfoldable pub put_vote {ℓ} :
    {V : Type ℓ} → ℤ → String → V → GoMap ℤ (GoMap String V) → GoMap ℤ (GoMap String V)
put_vote seq node_id vote log = insert seq (insert node_id vote (votes_at seq log)) log

module _ {App : Type 0} where
  unfoldable pub check_prepare_quorum : PbftNode App → ℤ → Bool
  unfolding check_quorum
  check_prepare_quorum n seq = check_quorum n (length (votes_at seq n.prepare_log))

  unfoldable pub check_commit_quorum : PbftNode App → ℤ → Bool
  unfolding check_quorum
  check_commit_quorum n seq = check_quorum n (length (votes_at seq n.commit_log))

  -- `n.view % int64(n.totalNodes)` as a node's name; Go panics at 0 nodes, which is not modelled
  unfoldable pub get_primary : PbftNode App → String
  get_primary n = str_append "node" (format_int (rem_ℤ n.view n.total_nodes))

  unfoldable pub notify_pending_request : PbftNode App → PbftNode App
  notify_pending_request n = emit timer_reset (record n { has_pending_client_request = true })

  unfoldable pub clear_pending_request : PbftNode App → PbftNode App
  clear_pending_request n = record n { has_pending_client_request = false }

  unfoldable pub register_handler : PbftNode App → ConsensusHandler App → PbftNode App
  register_handler n handler = record n { handlers = n.handlers ++ handler ∷ [] }

  unfoldable pub register_callback : PbftNode App → String → Bool → PbftNode App
  register_callback n request_id callback = record n {
    request_callbacks = insert request_id callback n.request_callbacks;
  }

  unfoldable pub register_state_replicator : PbftNode App → PbftNode App
  register_state_replicator n = record n { has_replicator = true }

-- the text whose hash is the digest of a request
unfoldable pub digest_text : Request → String
digest_text req = str_append req.request_id (
    str_append ":" (
      str_append req.ticket_id
        (str_append ":" (str_append req.operation (str_append ":" (format_int req.timestamp))))))

unfoldable pub compute_digest : Env → Request → String
unfolding digest_text
compute_digest env req = env.sha256_hex (digest_text req)

-- Serialize a message, wrap it with its type and sender, and hand it to the broadcaster; `none`
-- where one of the two steps fails.
unfoldable pub send :
    {App : Type 0} → Env → ℕ → Option String → PbftNode App → Option (PbftNode App)
send env kind payload n = elim payload [
  | none ↦ none
  | some body ↦ elim (serialize_pbft_message env.protobuf kind body n.node_id) [
    | none ↦ none
    | some bytes ↦ some (emit (broadcast bytes) n)
  ]
]
