-- ===== src/Client/Handles/Calls.antt =====
-- The public methods of `MQClient` in any order (src/mqclient.cpp), and what they leave open.
use ibmmq_metrics_exporter.Base.{
  ℕ, ◌+◌, ◌≤◌, ◌≡◌, refl, false, not, is_nil, List, [], ◌∷◌, Option, arith,
}
use ibmmq_metrics_exporter.Memory.{Result, Bytes}
use ibmmq_metrics_exporter.Config.Records.{MqConfig}
use ibmmq_metrics_exporter.Inquiry.Builder.{build_inquire_qmgr_status_cmd, build_reset_q_stats_cmd}
use ibmmq_metrics_exporter.Inquiry.QmgrStatus.{parse_qmgr_status_response}
use ibmmq_metrics_exporter.Client.Mqi.{Mqi, Inquired}
use ibmmq_metrics_exporter.Client.State.{ClientState, System, Method, pure, ◌>>=◌}
use ibmmq_metrics_exporter.Client.Connection.{
  connect, disconnect, open_stats_queue, open_accounting_queue, unsubscribe_all,
}
use ibmmq_metrics_exporter.Client.Messages.{get_message, get_all_messages}
use ibmmq_metrics_exporter.Client.Inquiries.{
  HandleInfo, get_queue_stats, get_queue_info, get_queue_handles, if_inquired, stats_of, info_of,
  inquire,
}
use ibmmq_metrics_exporter.Client.Topics.{
  subscribe_to_topic, receive_publications, subscribe_and_get, get_messages_from_handle,
}
use ibmmq_metrics_exporter.Client.Commands.{
  first_of, send_pcf_command, ask, get_queue_handle_details_by_pcf, get_channel_status,
  get_topic_status, get_sub_status, get_qmgr_status, get_cluster_status, get_usage_bp_status,
  get_usage_ps_status, get_queue_online_status, reset_queue_stats, ask_queues,
}
use ibmmq_metrics_exporter.Client.Handles.{Resource, owned, is_live, HandleLaws, At, Within}
use ibmmq_metrics_exporter.Client.Ends.{Ends, Ends-map, Ends-weaken}
use ibmmq_metrics_exporter.Client.Handles.Topics.{
  subscribe_to_topic-Ends, receive_publications-Ends, subscribe_and_get-Ends,
  get_messages_from_handle-Ends,
}
use ibmmq_metrics_exporter.Client.Handles.Commands.{send_pcf_command-Ends, ask-Ends, inquire-Ends}
use ibmmq_metrics_exporter.Client.Handles.Members.{
  At-Within, connect-Within, open_stats_queue-Within, open_accounting_queue-Within,
  get_message-Within, get_all_messages-Within,
}
use ibmmq_metrics_exporter.Client.Handles.Disconnect.{
  IsEmpty, unsubscribe_all-Within, disconnect-Ends,
}

pub data Call : Type 0 where
  connects : MqConfig → Call
  disconnects : Call
  opens_stats_queue opens_accounting_queue gets_message : Bytes → Call
  gets_all_messages : ℕ → Bytes → Call
  gets_queue_stats gets_queue_info gets_queue_handles gets_handle_details : Bytes → Call
  gets_channel_status gets_topic_status gets_sub_status gets_queue_online_status : Bytes → Call
  gets_qmgr_status gets_cluster_status gets_usage_bp_status gets_usage_ps_status : Call
  resets_queue_stats discovers_queues subscribes_to_topic subscribes_and_gets : Bytes → Call
  receives_publications unsubscribes_all : Call
  gets_messages_from : ℕ → ℕ → Call

module _ {W : Type 0} (mqi : Mqi W) where
  abbrev pub discard : {A : Type 0} → Method W A → Method W (Unit {0})
  discard m = m >>= λ a. pure tt

  abbrev pub perform : Call → Method W (Unit {0})
  perform (connects mq) = connect mqi mq
  perform disconnects = disconnect mqi
  perform (opens_stats_queue name) = open_stats_queue mqi name
  perform (opens_accounting_queue name) = open_accounting_queue mqi name
  perform (gets_message queue_type) = discard (get_message mqi queue_type)
  perform (gets_all_messages f queue_type) = discard (get_all_messages mqi f queue_type)
  perform (gets_queue_stats name) = discard (get_queue_stats mqi name)
  perform (gets_queue_info name) = discard (get_queue_info mqi name)
  perform (gets_queue_handles name) = discard (get_queue_handles mqi name)
  perform (gets_handle_details name) = discard (get_queue_handle_details_by_pcf mqi name)
  perform (gets_channel_status pattern_) = discard (get_channel_status mqi pattern_)
  perform (gets_topic_status pattern_) = discard (get_topic_status mqi pattern_)
  perform (gets_sub_status pattern_) = discard (get_sub_status mqi pattern_)
  perform (gets_queue_online_status name) = discard (get_queue_online_status mqi name)
  perform gets_qmgr_status = discard (get_qmgr_status mqi)
  perform gets_cluster_status = discard (get_cluster_status mqi)
  perform gets_usage_bp_status = discard (get_usage_bp_status mqi)
  perform gets_usage_ps_status = discard (get_usage_ps_status mqi)
  perform (resets_queue_stats name) = discard (reset_queue_stats mqi name)
  perform (discovers_queues pattern_) = discard (ask_queues mqi pattern_)
  perform (subscribes_to_topic topic) = discard (subscribe_to_topic mqi topic)
  perform (subscribes_and_gets topic) = discard (subscribe_and_get mqi topic)
  perform receives_publications = discard (receive_publications mqi)
  perform unsubscribes_all = unsubscribe_all mqi
  perform (gets_messages_from hobj n) = discard (get_messages_from_handle mqi hobj n)

-- When a call may come: nothing is opened over what is open.
abbrev pub MayCall : Call → ClientState → Type 0
MayCall (connects mq) c = is_live c ≡ c.connected
MayCall (opens_stats_queue name) c = c.stats_open ≡ false
MayCall (opens_accounting_queue name) c = c.acct_open ≡ false
MayCall call c = Unit {0}

module _ {W : Type 0} (mqi : Mqi W) (opened : W → Resource → ℕ) (laws : HandleLaws mqi opened)
    (r : Resource) (base : ℕ) where
  -- A method that changes no member, and none of the handles in the end.
  quiet-Within :
      {A : Type 0} (m : Method W A) (σ : System W)
      → (let b = base + owned σ.client r in
          Ends (λ a. At opened r σ.client b) (At opened r σ.client b) (m σ))
      → Ends (λ a. Within opened r base) (Within opened r base) (m σ)
  quiet-Within m σ h =
      let c = σ.client in
      let b = base + owned c r in
      Ends-weaken (λ a. At opened r c b) (λ a. Within opened r base) (At opened r c b)
        (Within opened r base) (m σ) (λ a σ'. At-Within mqi opened laws r base c σ')
        (λ σ'. At-Within mqi opened laws r base c σ') h

  discard-Within :
      {A : Type 0} (m : Method W A) (σ : System W)
      → Ends (λ a. Within opened r base) (Within opened r base) (m σ)
      → Ends (λ a. Within opened r base) (Within opened r base) (discard mqi m σ)
  discard-Within m σ h = Ends-map (λ a. Within opened r base) (Within opened r base) m (λ a. tt) σ h

  asked-Within :
      {A : Type 0} (cmd : Bytes) (parse : List Bytes → Result A) (σ : System W)
      → Within opened r base σ
      → Ends (λ a. Within opened r base) (Within opened r base) (ask mqi cmd parse σ)
  asked-Within cmd parse σ h =
      quiet-Within (ask mqi cmd parse) σ
        (ask-Ends mqi opened laws r σ.client (base + owned σ.client r) cmd parse σ (refl, h))

  asks-Within :
      {A : Type 0} (cmd : Bytes) (parse : List Bytes → Result A) (σ : System W)
      → Within opened r base σ
      → Ends (λ a. Within opened r base) (Within opened r base) (discard mqi (ask mqi cmd parse) σ)
  asks-Within cmd parse σ h = discard-Within (ask mqi cmd parse) σ (asked-Within cmd parse σ h)

  inquires-Within :
      {A : Type 0} (name : Bytes) (selectors : List ℕ) (f : Option Inquired → A) (σ : System W)
      → Within opened r base σ
      → Ends
          (λ a. Within opened r base)
          (Within opened r base)
          ((inquire mqi name selectors >>= λ i. pure (f i)) σ)
  inquires-Within name selectors f σ h =
      Ends-map (λ a. Within opened r base) (Within opened r base) (inquire mqi name selectors) f σ
        (quiet-Within (inquire mqi name selectors) σ (
          inquire-Ends mqi opened laws r σ.client (base + owned σ.client r) name selectors σ
            (refl, h)))

  pub perform-Within :
      (call : Call) (σ : System W)
      → MayCall call σ.client
      → Within opened r base σ
      → Ends (λ a. Within opened r base) (Within opened r base) (perform mqi call σ)
  unfolding get_queue_stats get_queue_info get_queue_handles get_queue_handle_details_by_pcf
      get_channel_status get_topic_status get_sub_status get_queue_online_status get_qmgr_status
      get_cluster_status get_usage_bp_status get_usage_ps_status reset_queue_stats ask_queues
  perform-Within (connects mq) σ e h = connect-Within mqi opened laws r base mq σ e h
  perform-Within disconnects σ e h =
      Ends-weaken (λ a σ'. IsEmpty σ'.client × (opened σ'.world r ≤ base))
        (λ a. Within opened r base) (Within opened r base) (Within opened r base) (disconnect mqi σ)
        (λ a σ' k. omega (arith, k.1)) (λ σ' k. k)
        (disconnect-Ends mqi opened laws r (Within opened r base) base σ h)
  perform-Within (opens_stats_queue name) σ e h =
      open_stats_queue-Within mqi opened laws r base name σ e h
  perform-Within (opens_accounting_queue name) σ e h =
      open_accounting_queue-Within mqi opened laws r base name σ e h
  perform-Within (gets_message queue_type) σ e h =
      discard-Within (get_message mqi queue_type) σ
        (get_message-Within mqi opened laws r base queue_type σ h)
  perform-Within (gets_all_messages f queue_type) σ e h =
      discard-Within (get_all_messages mqi f queue_type) σ
        (get_all_messages-Within mqi opened laws r base f queue_type σ h)
  perform-Within (gets_queue_stats name) σ e h =
      discard-Within (get_queue_stats mqi name) σ
        (inquires-Within name (3 ∷ 17 ∷ 18 ∷ []) (if_inquired (stats_of name)) σ h)
  perform-Within (gets_queue_info name) σ e h =
      discard-Within (get_queue_info mqi name) σ
        (inquires-Within name (3 ∷ 17 ∷ 18 ∷ 15 ∷ []) (if_inquired (info_of name)) σ h)
  perform-Within (gets_queue_handles name) σ e h =
      discard-Within (get_queue_handles mqi name) σ
        (inquires-Within {A = List HandleInfo} name (17 ∷ 18 ∷ []) (λ i. []) σ h)
  perform-Within (gets_handle_details name) σ e h = asks-Within _ _ σ h
  perform-Within (gets_channel_status pattern_) σ e h = asks-Within _ _ σ h
  perform-Within (gets_topic_status pattern_) σ e h = asks-Within _ _ σ h
  perform-Within (gets_sub_status pattern_) σ e h = asks-Within _ _ σ h
  perform-Within (gets_queue_online_status name) σ e h = asks-Within _ _ σ h
  perform-Within gets_qmgr_status σ e h = discard-Within (get_qmgr_status mqi) σ (
      Ends-map (λ a. Within opened r base) (Within opened r base)
        (ask mqi build_inquire_qmgr_status_cmd parse_qmgr_status_response) first_of σ
        (asked-Within build_inquire_qmgr_status_cmd parse_qmgr_status_response σ h))
  perform-Within gets_cluster_status σ e h = asks-Within _ _ σ h
  perform-Within gets_usage_bp_status σ e h = asks-Within _ _ σ h
  perform-Within gets_usage_ps_status σ e h = asks-Within _ _ σ h
  perform-Within (resets_queue_stats name) σ e h =
      let cmd = build_reset_q_stats_cmd name in
      let b = base + owned σ.client r in
      discard-Within (reset_queue_stats mqi name) σ (
        Ends-map (λ a. Within opened r base) (Within opened r base) (send_pcf_command mqi cmd)
          (λ responses. not (is_nil responses)) σ
          (quiet-Within (send_pcf_command mqi cmd) σ (
            send_pcf_command-Ends mqi opened laws r σ.client (At opened r σ.client b) b cmd σ
              (refl, h))))
  perform-Within (discovers_queues pattern_) σ e h = asks-Within _ _ σ h
  perform-Within (subscribes_to_topic topic) σ e h =
      discard-Within (subscribe_to_topic mqi topic) σ
        (subscribe_to_topic-Ends mqi opened laws r base topic σ h)
  perform-Within (subscribes_and_gets topic) σ e h =
      let b = base + owned σ.client r in
      discard-Within (subscribe_and_get mqi topic) σ (
        quiet-Within (subscribe_and_get mqi topic) σ
          (subscribe_and_get-Ends mqi opened laws r σ.client b topic σ (refl, h)))
  perform-Within receives_publications σ e h =
      let b = base + owned σ.client r in
      discard-Within (receive_publications mqi) σ (
        quiet-Within (receive_publications mqi) σ
          (receive_publications-Ends mqi opened laws r σ.client b σ (refl, h)))
  perform-Within unsubscribes_all σ e h = unsubscribe_all-Within mqi opened laws r base σ h
  perform-Within (gets_messages_from hobj n) σ e h =
      let b = base + owned σ.client r in
      discard-Within (get_messages_from_handle mqi hobj n) σ (
        quiet-Within (get_messages_from_handle mqi hobj n) σ
          (get_messages_from_handle-Ends mqi opened laws r σ.client b hobj n σ (refl, h)))
