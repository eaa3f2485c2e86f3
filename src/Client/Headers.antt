-- ===== src/Client/Headers.antt =====
-- `MQMessage` and `strip_mqrfh2` (src/mqclient.cpp, include/ibmmq_exporter/mqclient.h).
pub mod Strip
use ibmmq_metrics_exporter.Base.{
  ℕ, ◌+◌, Bool, true, false, not, ◌&&◌, ◌||◌, List, [], ◌∷◌, length, drop, ltb, leb, ◌==◌,
  if◌then◌else◌,
}
use ibmmq_metrics_exporter.Memory.{
  Result, ok, err, ◌>>=◌, Bytes, byte_at, read_le32, read_string, at_least,
}

pub record MqMessage : Type 0 where
  pub msg_data : Bytes
  pub type : Bytes
  pub put_date : Bytes
  pub put_time : Bytes
  pub msg_type : ℕ
  pub format : Bytes
  pub msg_id : Bytes

-- "RFH " at the start.
abbrev pub has_magic : Bytes → Bool
has_magic d = byte_at d 0 == 82 && byte_at d 1 == 70 && byte_at d 2 == 72 && byte_at d 3 == 32

unfoldable pub strip_mqrfh2 : MqMessage → Result MqMessage
strip_mqrfh2 msg =
    if ltb (length msg.msg_data) 16
    then ok msg
    else if not (has_magic msg.msg_data)
    then ok msg
    else do
      struc_length ← read_le32 msg.msg_data 8
      if not (at_least 36 struc_length) || leb (length msg.msg_data) struc_length
          then ok msg
          else do
            embedded_format ← read_string msg.msg_data 20 8
            ok (record msg { msg_data = drop struc_length msg.msg_data; format = embedded_format })
