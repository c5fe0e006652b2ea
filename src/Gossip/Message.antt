-- ===== src/Gossip/Message.antt =====
-- pkg/gossip/engine.go, the message.
use dtvn.Prelude.{String, List}
use dtvn.Prelude.Int.{ℤ}

-- `TTL` is an `int32`; `data` is a keyword here, and `Payload` a text.
pub record Message : Type 0 where
  pub id : String
  pub payload : String
  pub ttl : ℤ
  pub seen_by : List String
  pub timestamp : ℤ
