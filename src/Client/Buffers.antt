-- ===== src/Client/Buffers.antt =====
-- The messages that src/mqclient.cpp makes of its buffer behind MQGET.
use ibmmq_metrics_exporter.Base.{
  ℕ, not, ◌||◌, [], Option, none, some, replicate, if◌then◌else◌, codes,
}
use ibmmq_metrics_exporter.Memory.{Result, ok, ◌>>=◌, Bytes, is_pos}
use ibmmq_metrics_exporter.Client.Headers.{MqMessage, strip_mqrfh2}
use ibmmq_metrics_exporter.Client.Mqi.{has_failed, Got, write_front, read_buffer}

-- `BUF_SIZE` of `get_message`, and of the other methods.
abbrev pub message_size : ℕ
message_size = 102400

abbrev pub publication_size : ℕ
publication_size = 65536

abbrev pub message_of : Bytes → Bytes → Got → MqMessage
message_of queue_type data_ g = record {
  msg_data = data_;
  type = queue_type;
  put_date = g.put_date;
  put_time = g.put_time;
  msg_type = g.msg_type;
  format = g.format;
  msg_id = g.msg_id;
}

-- The message that `get_message` has got, from a new buffer.
unfoldable pub message : Bytes → Got → Result MqMessage
message queue_type g = do
  data_ ←
      read_buffer message_size (write_front message_size g.written (replicate message_size 0))
        g.datalen
  ok (message_of queue_type data_ g)

-- The other members keep their defaults.
abbrev pub publication_of : Bytes → Got → MqMessage
publication_of data_ g = record {
  msg_data = data_;
  type = codes "publication";
  put_date = [];
  put_time = [];
  msg_type = g.msg_type;
  format = g.format;
  msg_id = [];
}

-- A publication, of the buffer as the call has left it.
unfoldable pub publication : Bytes → Got → Result MqMessage
publication buffer g = do
  data_ ← read_buffer publication_size buffer g.datalen
  strip_mqrfh2 (publication_of data_ g)

-- The message that `subscribe_and_get` makes, if there is one.
unfoldable pub retained_of : Got → Result (Option MqMessage)
retained_of g = if has_failed g.cc || not (is_pos g.datalen) then ok none else do
  msg ← publication (write_front publication_size g.written (replicate publication_size 0)) g
  ok (some msg)
