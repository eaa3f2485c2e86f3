-- ===== src/Client/Handles/Members.antt =====
-- What connecting, disconnecting and reading messages does to what a client of src/mqclient.cpp
-- answers for.
use ibmmq_metrics_exporter.Base.{
  ℕ, zero, suc, ◌+◌, ◌≡◌, refl, true, false, not, ◌||◌, List, [], ◌∷◌, Option, none, some,
  if◌then◌else◌, arith,
}
use ibmmq_metrics_exporter.Memory.{Bytes}
use ibmmq_metrics_exporter.Config.Records.{MqConfig}
use ibmmq_metrics_exporter.Config.Connection.{is_client_mode}
use ibmmq_metrics_exporter.Client.Mqi.{Mqi, mqoo_inquire, mqoo_input_fail_if_quiescing, mqco_none}
use ibmmq_metrics_exporter.Client.State.{
  ClientState, System, Method, pure, throw, not_connected, modify, ◌>>=◌,
}
use ibmmq_metrics_exporter.Client.Headers.{MqMessage}
use ibmmq_metrics_exporter.Client.Buffers.{message_size, message}
use ibmmq_metrics_exporter.Client.Messages.{
  message_options, get_message_from, get_message, add_message, get_all_messages,
}
use ibmmq_metrics_exporter.Client.Connection.{
  connect_options, qmgr_desc, open_queue, detect_platform, open_stats_queue, open_accounting_queue,
  connect,
}
use ibmmq_metrics_exporter.Client.Handles.{Resource, counts, owned, is_live, HandleLaws, At, Within}
use ibmmq_metrics_exporter.Client.Ends.{
  Ends, Ends-bind, Ends-if, Ends-map, Ends-lift_bind, Ends-weaken,
}
use ibmmq_metrics_exporter.Client.Handles.Opening.{open_queue-Ends}

module _ {W : Type 0} (mqi : Mqi W) (opened : W → Resource → ℕ) (laws : HandleLaws mqi opened)
    (r : Resource) (base : ℕ) where
  pub At-Within :
      (c : ClientState) (σ : System W) → At opened r c (base + owned c r) σ → Within opened r base σ
  At-Within c σ (e, h) = rw e h

  open_queue-Within :
      (name : Bytes) (options : ℕ) (σ : System W)
      → Within opened r base σ
      → Ends
          (λ h. At opened r σ.client (base + owned σ.client r + counts h r))
          (Within opened r base)
          (open_queue mqi name options σ)
  open_queue-Within name options σ h =
      let c = σ.client in
      let b = base + owned c r in
      Ends-weaken (λ h. At opened r c (b + counts h r)) (λ h. At opened r c (b + counts h r))
        (At opened r c b) (Within opened r base) (open_queue mqi name options σ) (λ hobj σ' k. k)
        (λ σ'. At-Within c σ') (open_queue-Ends mqi opened laws r c b name options σ (refl, h))

  pub open_stats_queue-Within :
      (name : Bytes) (σ : System W)
      → σ.client.stats_open ≡ false
      → Within opened r base σ
      → Ends (λ a. Within opened r base) (Within opened r base) (open_stats_queue mqi name σ)
  unfolding open_stats_queue
  open_stats_queue-Within name σ e h =
      let c = σ.client in
      Ends-if (λ a. Within opened r base) (Within opened r base) (not c.connected)
        (throw not_connected)
        (open_queue mqi name mqoo_input_fail_if_quiescing >>= λ hobj.
          modify (λ c. record c { stats_queue = hobj; stats_open = true }))
        σ (λ f. h)
        (λ f.
          Ends-bind (λ h. At opened r c (base + owned c r + counts h r)) (λ a. Within opened r base)
            (Within opened r base) (open_queue mqi name mqoo_input_fail_if_quiescing)
            (λ hobj. modify (λ c. record c { stats_queue = hobj; stats_open = true })) σ
            (open_queue-Within name mqoo_input_fail_if_quiescing σ h)
            (λ hobj σ' (g, k). rw g (ground (arith, e, f, k))))

  pub open_accounting_queue-Within :
      (name : Bytes) (σ : System W)
      → σ.client.acct_open ≡ false
      → Within opened r base σ
      → Ends (λ a. Within opened r base) (Within opened r base) (open_accounting_queue mqi name σ)
  unfolding open_accounting_queue
  open_accounting_queue-Within name σ e h =
      let c = σ.client in
      Ends-if (λ a. Within opened r base) (Within opened r base) (not c.connected)
        (throw not_connected)
        (open_queue mqi name mqoo_input_fail_if_quiescing >>= λ hobj.
          modify (λ c. record c { acct_queue = hobj; acct_open = true }))
        σ (λ f. h)
        (λ f.
          Ends-bind (λ h. At opened r c (base + owned c r + counts h r)) (λ a. Within opened r base)
            (Within opened r base) (open_queue mqi name mqoo_input_fail_if_quiescing)
            (λ hobj. modify (λ c. record c { acct_queue = hobj; acct_open = true })) σ
            (open_queue-Within name mqoo_input_fail_if_quiescing σ h)
            (λ hobj σ' (g, k). rw g (ground (arith, e, f, k))))

  -- The object of the queue manager is closed behind the inquiry.
  detect_platform-Within :
      (σ : System W)
      → Within opened r base σ
      → Ends (λ a. Within opened r base) (Within opened r base) (detect_platform mqi σ)
  unfolding detect_platform
  detect_platform-Within σ h =
      let hconn = σ.client.hconn in
      let p = mqi.mqopen hconn qmgr_desc mqoo_inquire σ.world in
      let q = mqi.mqinq hconn p.0.hobj (32 ∷ []) p.1 in
      ground (
        arith,
        h,
        laws.mqopen_failed hconn qmgr_desc mqoo_inquire σ.world r,
        laws.mqopen_made hconn qmgr_desc mqoo_inquire σ.world r,
        laws.mqinq_quiet hconn p.0.hobj (32 ∷ []) p.1 r,
        laws.mqclose_lets_go hconn p.0.hobj mqco_none q.1 r,
      )

  -- A client connects with nothing left of an earlier connection.
  pub connect-Within :
      (mq : MqConfig) (σ : System W)
      → is_live σ.client ≡ σ.client.connected
      → Within opened r base σ
      → Ends (λ a. Within opened r base) (Within opened r base) (connect mqi mq σ)
  unfolding connect
  connect-Within mq σ e h =
      let q = if is_client_mode mq then [] else mq.queue_manager in
      let p = mqi.mqconnx q (connect_options mq) σ.world in
      let c : ClientState = record σ.client { hconn = p.0.hconn } in
      let c' : ClientState = record c { connected = true } in
      ground (
        arith,
        e,
        h,
        laws.mqconnx_failed q (connect_options mq) σ.world r,
        laws.mqconnx_made q (connect_options mq) σ.world r,
        detect_platform-Within (record { client = c'; world = p.1 }),
      )

  -- A broken connection leaves its queue open, so that the client still answers for it.
  get_message_from-Within :
      (hobj : ℕ) (queue_type : Bytes) (σ : System W)
      → (σ.client.stats_open || σ.client.acct_open) ≡ true
      → Within opened r base σ
      → Ends
          (λ a. Within opened r base)
          (Within opened r base)
          (get_message_from mqi hobj queue_type σ)
  unfolding get_message_from
  get_message_from-Within hobj queue_type σ e h =
      let p = mqi.mqget σ.client.hconn hobj message_options message_size σ.world in
      let quiet = laws.mqget_quiet σ.client.hconn hobj message_options message_size σ.world r in
      let σ' : System W = record σ { world = p.1 } in
      let lifted =
        Ends-lift_bind (λ a. Within opened r base) (Within opened r base) (message queue_type p.0)
          (λ msg. pure (some msg)) σ' in
      ground
        (arith, e, h, quiet, lifted (λ a. omega (arith, h, quiet)) (λ f. omega (arith, h, quiet)))

  pub get_message-Within :
      (queue_type : Bytes) (σ : System W)
      → Within opened r base σ
      → Ends (λ a. Within opened r base) (Within opened r base) (get_message mqi queue_type σ)
  unfolding get_message
  get_message-Within queue_type σ h = ground (
    arith,
    h,
    get_message_from-Within σ.client.stats_queue queue_type σ,
    get_message_from-Within σ.client.acct_queue queue_type σ,
  )

  add_message-Within :
      (rest : Method W (List MqMessage)) (msg : Option MqMessage) (σ : System W)
      → Within opened r base σ
      → Ends (λ a. Within opened r base) (Within opened r base) (rest σ)
      → Ends (λ a. Within opened r base) (Within opened r base) (add_message mqi rest msg σ)
  add_message-Within rest none σ h k = h
  add_message-Within rest (some m) σ h k =
      Ends-map (λ a. Within opened r base) (Within opened r base) rest (λ ms. m ∷ ms) σ k

  pub get_all_messages-Within :
      (f : ℕ) (queue_type : Bytes) (σ : System W)
      → Within opened r base σ
      → Ends
          (λ a. Within opened r base)
          (Within opened r base)
          (get_all_messages mqi f queue_type σ)
  unfolding get_all_messages
  get_all_messages-Within zero queue_type σ h = tt
  get_all_messages-Within (suc f) queue_type σ h =
      let rest = get_all_messages mqi f queue_type in
      Ends-bind (λ a. Within opened r base) (λ a. Within opened r base) (Within opened r base)
        (get_message mqi queue_type) (add_message mqi rest) σ (get_message-Within queue_type σ h)
        (λ msg σ' k. add_message-Within rest msg σ' k (get_all_messages-Within f queue_type σ' k))
