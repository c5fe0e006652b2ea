-- ===== src/Consensus/Types.antt =====
-- pkg/consensus/pbft.go and quorum.go, the records of requests, messages and votes. Go's byte slices
-- and strings are texts here, and `int64` fields are integers.
use dtvn.Prelude.{String}
use dtvn.Prelude.Int.{ℤ}

pub record Request : Type 0 where
  pub request_id : String
  pub ticket_id : String
  pub operation : String
  pub payload : String
  pub timestamp : ℤ
  pub node_id : String

pub record PrepareMsg : Type 0 where
  pub view : ℤ
  pub sequence : ℤ
  pub digest : String
  pub node_id : String

pub record CommitMsg : Type 0 where
  pub view : ℤ
  pub sequence : ℤ
  pub digest : String
  pub node_id : String

pub record PrePrepareMsg : Type 0 where
  pub view : ℤ
  pub sequence : ℤ
  pub digest : String
  pub request : Request

pub record Checkpoint : Type 0 where
  pub sequence : ℤ
  pub state_digest : String
  pub node_id : String
  pub timestamp : ℤ

pub record ViewChangeMsg : Type 0 where
  pub new_view : ℤ
  pub node_id : String

-- The dynamic types of `ConsensusMessage`.
pub data ConsensusMessage : Type 0 where
  pre_prepare : PrePrepareMsg → ConsensusMessage
  prepare : PrepareMsg → ConsensusMessage
  commit : CommitMsg → ConsensusMessage

-- `GetView` and `GetSequence` of the three messages
abbrev get_view : ConsensusMessage → ℤ
get_view (pre_prepare m) = m.view
get_view (prepare m) = m.view
get_view (commit m) = m.view

abbrev get_sequence : ConsensusMessage → ℤ
get_sequence (pre_prepare m) = m.sequence
get_sequence (prepare m) = m.sequence
get_sequence (commit m) = m.sequence

pub record Vote : Type 0 where
  pub node_id : String
  pub sequence : ℤ
  pub digest : String
  pub signature : String
  pub timestamp : ℤ
