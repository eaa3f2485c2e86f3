-- ===== src/Client/Messages.antt =====
-- `MQClient::get_message` and `get_all_messages` (src/mqclient.cpp).
pub mod Delivery
pub mod Drain
pub mod Broken
use ibmmq_metrics_exporter.Base.{
  ℕ, zero, suc, false, not, List, [], ◌∷◌, Option, none, some, ◌==◌, if◌then◌else◌, codes, is_same,
}
use ibmmq_metrics_exporter.Memory.{out_of_fuel, err, Bytes}
use ibmmq_metrics_exporter.Client.Headers.{MqMessage}
use ibmmq_metrics_exporter.Client.Buffers.{message_size, message}
use ibmmq_metrics_exporter.Client.Mqi.{
  has_failed, mqrc_no_msg_available, mqrc_connection_broken, GetOptions, Mqi,
}
use ibmmq_metrics_exporter.Client.State.{
  get_failed, unknown_queue_type, connection_broken, Method, pure, throw, lift, call, gets, modify,
  ◌>>=◌, ◌>>◌,
}

-- MQGMO_NO_WAIT, MQGMO_FAIL_IF_QUIESCING and MQGMO_CONVERT.
abbrev pub message_options : GetOptions
message_options = record { options = 24576; wait_interval = 1000 }

module _ {W : Type 0} (mqi : Mqi W) where
  -- From the handle that the type of the queue stands for.
  unfoldable pub get_message_from : ℕ → Bytes → Method W (Option MqMessage)
  get_message_from hobj queue_type = do
    hconn ← gets (λ c. c.hconn)
    g ← call (mqi.mqget hconn hobj message_options message_size)
    if has_failed g.cc
        then if g.rc == mqrc_no_msg_available
          then pure none
          else if g.rc == mqrc_connection_broken
          then modify (λ c. record c { connected = false }) >> throw connection_broken
          else throw (get_failed g.rc)
        else do msg ← lift (message queue_type g); pure (some msg)

  unfoldable pub get_message : Bytes → Method W (Option MqMessage)
  get_message queue_type = do
    c ← gets (λ c. c)
    if is_same queue_type (codes "stats")
        then if not c.stats_open then pure none else get_message_from c.stats_queue queue_type
        else if is_same queue_type (codes "accounting")
        then if not c.acct_open then pure none else get_message_from c.acct_queue queue_type
        else throw unknown_queue_type

  -- The message, if there is one, before those that the rest of the loop gets.
  abbrev pub add_message : Method W (List MqMessage) → Option MqMessage → Method W (List MqMessage)
  add_message rest none = pure []
  add_message rest (some msg) = do messages ← rest; pure (msg ∷ messages)

  -- The loop has no bound of its own: `out_of_fuel` is where it would go on.
  unfoldable pub get_all_messages : ℕ → Bytes → Method W (List MqMessage)
  get_all_messages zero queue_type = lift (err out_of_fuel)
  get_all_messages (suc f) queue_type = do
    msg ← get_message queue_type
    add_message (get_all_messages f queue_type) msg
