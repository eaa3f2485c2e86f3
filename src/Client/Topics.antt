-- ===== src/Client/Topics.antt =====
-- The subscriptions of `MQClient` and the publications that it takes from them
-- (src/mqclient.cpp).
use ibmmq_metrics_exporter.Base.{
  ℕ, zero, suc, Bool, true, false, not, ◌||◌, List, [], ◌∷◌, ◌++◌, Option, none, some, replicate,
  ◌==◌, if◌then◌else◌, codes,
}
use ibmmq_metrics_exporter.Memory.{Bytes, is_pos}
use ibmmq_metrics_exporter.Client.Headers.{MqMessage}
use ibmmq_metrics_exporter.Client.Buffers.{publication_size, publication, retained_of}
use ibmmq_metrics_exporter.Client.Mqi.{
  has_failed, mqoo_input_exclusive, mqco_delete_purge, GetOptions, SubDesc, Subscribed, Mqi,
  write_front,
}
use ibmmq_metrics_exporter.Client.State.{
  SubHandle, Method, pure, lift, call, gets, modify, attempt, ◌>>=◌, ◌>>◌,
}
use ibmmq_metrics_exporter.Client.Connection.{close_object, open_dynamic_queue, close_subscription}

abbrev pub model_queue : Bytes
model_queue = codes "SYSTEM.DEFAULT.MODEL.QUEUE"

-- MQGMO_NO_WAIT and MQGMO_CONVERT.
abbrev pub publication_options : GetOptions
publication_options = record { options = 16384; wait_interval = 0 }

-- MQGMO_WAIT and MQGMO_CONVERT.
abbrev pub retained_options : GetOptions
retained_options = record { options = 16385; wait_interval = 3000 }

-- MQSO_CREATE, MQSO_NON_DURABLE and MQSO_FAIL_IF_QUIESCING.
abbrev pub sub_desc : Bytes → SubDesc
sub_desc topic = record { options = 8194; object_string = topic }

module _ {W : Type 0} (mqi : Mqi W) where
  -- A subscription that delivers to the queue, which is deleted where this fails.
  unfoldable pub subscribe_at : Bytes → ℕ → Method W (Option Subscribed)
  subscribe_at topic hobj = do
    hconn ← gets (λ c. c.hconn)
    s ← call (mqi.mqsub hconn (sub_desc topic) hobj)
    if has_failed s.cc
        then close_object mqi s.hobj mqco_delete_purge >> pure none
        else pure (some s)

  -- A queue of the client's own, with its subscription.
  unfoldable pub subscribe_with : Bytes → Bytes → Method W (Option Subscribed)
  subscribe_with dynamic topic = do
    made ← attempt (open_dynamic_queue mqi model_queue mqoo_input_exclusive dynamic)
    elim made [ none ↦ pure none | some dest ↦ subscribe_at topic dest.0 ]

  unfoldable pub keep_subscription : Option Subscribed → Method W Bool
  keep_subscription none = pure false
  keep_subscription (some s) = do
    let sub : SubHandle = record { hobj = s.hobj; hsub = s.hsub }
    modify (λ c. record c { subscriptions = c.subscriptions ++ sub ∷ [] })
    pure true

  unfoldable pub subscribe_to_topic : Bytes → Method W Bool
  subscribe_to_topic topic = do
    connected ← gets (λ c. c.connected)
    if not connected
        then pure false
        else do made ← subscribe_with (codes "EXPORTER.PUB.*") topic; keep_subscription made

  -- At most `i` more messages from a handle, with the buffer as the last one has left it.
  unfoldable pub messages_loop : ℕ → ℕ → Bytes → Method W (List MqMessage × Bytes)
  messages_loop zero hobj buffer = pure ([], buffer)
  messages_loop (suc i) hobj buffer = do
    hconn ← gets (λ c. c.hconn)
    g ← call (mqi.mqget hconn hobj publication_options publication_size)
    let buffer' = write_front publication_size g.written buffer
    elim (has_failed g.cc || not (is_pos g.datalen)) [
      | true ↦ pure ([], buffer')
      | false ↦ do
        msg ← lift (publication buffer' g)
        rest ← messages_loop i hobj buffer'
        pure (msg ∷ rest.0, rest.1)
    ]

  unfoldable pub subscriptions_loop : List SubHandle → Bytes → Method W (List MqMessage)
  subscriptions_loop [] buffer = pure []
  subscriptions_loop (sub ∷ subs) buffer = do
    messages ← messages_loop 500 sub.hobj buffer
    rest ← subscriptions_loop subs messages.1
    pure (messages.0 ++ rest)

  unfoldable pub receive_publications : Method W (List MqMessage)
  receive_publications = do
    c ← gets (λ c. c)
    if not c.connected
        then pure []
        else subscriptions_loop c.subscriptions (replicate publication_size 0)

  unfoldable pub get_messages_from_handle : ℕ → ℕ → Method W (List MqMessage)
  get_messages_from_handle hobj max_messages = do
    connected ← gets (λ c. c.connected)
    if not connected || hobj == 0 then pure [] else do
      messages ← messages_loop max_messages hobj (replicate publication_size 0)
      pure messages.0

  -- The retained message, behind which the subscription and its queue are removed.
  unfoldable pub get_retained : Option Subscribed → Method W (Option MqMessage)
  get_retained none = pure none
  get_retained (some s) = do
    hconn ← gets (λ c. c.hconn)
    g ← call (mqi.mqget hconn s.hobj retained_options publication_size)
    close_subscription mqi s.hsub s.hobj
    lift (retained_of g)

  unfoldable pub subscribe_and_get : Bytes → Method W (Option MqMessage)
  subscribe_and_get topic = do
    connected ← gets (λ c. c.connected)
    if not connected
        then pure none
        else do made ← subscribe_with (codes "EXPORTER.SUB.*") topic; get_retained made

  abbrev pub handles_made : Option Subscribed → Option (ℕ × ℕ)
  handles_made none = none
  handles_made (some s) = some (s.hobj, s.hsub)

  -- The handles of the queue and of the subscription, for the caller to keep.
  unfoldable pub create_subscription : Bytes → Method W (Option (ℕ × ℕ))
  create_subscription topic = do
    connected ← gets (λ c. c.connected)
    if not connected
        then pure none
        else do made ← subscribe_with (codes "EXPORTER.PUB.*") topic; pure (handles_made made)
