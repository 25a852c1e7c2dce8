-- ===== src/MutualExclusion/Message.antt =====
-- message.go: the messages that the processes broadcast. The receiver OTHERS is a constructor.
use distributed_algorithms.Prelude.{ℕ}
use distributed_algorithms.MutualExclusion.Timestamp.{Timestamp}

pub data MsgType : Type 0 where
  request_resource release_resource acknowledgment : MsgType

-- OTHERS, or the ID of one process.
pub data Receiver : Type 0 where
  others : Receiver
  only : ℕ → Receiver

pub record Message : Type 0 where
  pub msg_type : MsgType
  pub from : ℕ
  pub to : Receiver
  pub timestamp : Timestamp
  pub msg_time : ℕ

abbrev pub new_message : MsgType → ℕ → ℕ → Receiver → Timestamp → Message
new_message mt msg_time from to ts = record {
  msg_type = mt;
  from = from;
  to = to;
  timestamp = ts;
  msg_time = msg_time;
}
