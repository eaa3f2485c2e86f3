-- ===== src/Client/Connection.antt =====
-- `MQClient::connect` and `disconnect`, and the methods that open and close objects
-- (src/mqclient.cpp).
use ibmmq_metrics_exporter.Base.{
  ℕ, true, false, not, ◌&&◌, List, [], ◌∷◌, none, some, get_or, replicate, ◌==◌, if◌then◌else◌,
  is_nil,
}
use ibmmq_metrics_exporter.Memory.{Bytes, is_pos}
use ibmmq_metrics_exporter.Pcf.Fold.{is_empty}
use ibmmq_metrics_exporter.Config.Records.{MqConfig}
use ibmmq_metrics_exporter.Config.Connection.{
  get_connection_name, get_user, is_client_mode, platform_name,
}
use ibmmq_metrics_exporter.Client.Mqi.{
  Called, has_failed, mqoo_inquire, mqoo_input_fail_if_quiescing, mqco_none, mqco_delete_purge,
  mqco_remove_sub, ConnectOptions, ObjectDesc, Opened, Mqi, copy_name, resolve_name,
}
use ibmmq_metrics_exporter.Client.State.{
  SubHandle, ClientState, connect_failed, open_failed, not_connected, Method, pure, throw, call,
  gets, modify, when, ◌>>=◌, ◌>>◌,
}

-- MQCNO_CLIENT_BINDING with the channel, or MQCNO_LOCAL_BINDING; a user makes it version 5.
unfoldable pub connect_options : MqConfig → ConnectOptions
connect_options mq = record {
  options = if is_client_mode mq then 2048 else 1024;
  version = if is_empty (get_user mq) then 2 else 5;
  client_conn =
      if is_client_mode mq
      then some (
        copy_name 20 mq.channel,
        copy_name 264 (get_connection_name mq),
        copy_name 32 mq.cipher_spec,
      )
      else none;
  security_parms = if is_empty (get_user mq) then none else some (get_user mq, mq.password);
}

-- MQOT_Q, and a dynamic name of blanks or one that is given.
abbrev pub queue_desc : Bytes → Bytes → ObjectDesc
queue_desc name dynamic = record {
  object_type = 1;
  object_name = copy_name 48 name;
  dynamic_q_name = dynamic;
}

-- MQOT_Q_MGR, and otherwise MQOD_DEFAULT.
abbrev pub qmgr_desc : ObjectDesc
qmgr_desc = record {
  object_type = 5;
  object_name = replicate 48 0;
  dynamic_q_name = copy_name 48 (65 ∷ 77 ∷ 81 ∷ 46 ∷ 42 ∷ []);
}

module _ {W : Type 0} (mqi : Mqi W) where
  abbrev pub open_object : ObjectDesc → ℕ → Method W Opened
  open_object od options = do hconn ← gets (λ c. c.hconn); call (mqi.mqopen hconn od options)

  abbrev pub close_object : ℕ → ℕ → Method W Called
  close_object hobj options = do hconn ← gets (λ c. c.hconn); call (mqi.mqclose hconn hobj options)

  unfoldable pub open_queue : Bytes → ℕ → Method W ℕ
  open_queue name options = do
    o ← open_object (queue_desc name (replicate 48 32)) options
    if has_failed o.cc then throw (open_failed o.rc) else pure o.hobj

  -- The other overload, with the name that MQ has given the queue.
  unfoldable pub open_dynamic_queue : Bytes → ℕ → Bytes → Method W (ℕ × Bytes)
  open_dynamic_queue name options dynamic_q_name = do
    o ← open_object (queue_desc name (copy_name 48 dynamic_q_name)) options
    if has_failed o.cc then throw (open_failed o.rc) else pure (o.hobj, resolve_name o.object_name)

  -- The caller's handle is 0 behind this.
  unfoldable pub close_queue : ℕ → Method W (Unit {0})
  close_queue hobj = when (not (hobj == 0)) do _ ← close_object hobj mqco_none; pure tt

  unfoldable pub open_stats_queue : Bytes → Method W (Unit {0})
  open_stats_queue name = do
    connected ← gets (λ c. c.connected)
    if not connected then throw not_connected else do
      hobj ← open_queue name mqoo_input_fail_if_quiescing
      modify (λ c. record c { stats_queue = hobj; stats_open = true })

  unfoldable pub open_accounting_queue : Bytes → Method W (Unit {0})
  open_accounting_queue name = do
    connected ← gets (λ c. c.connected)
    if not connected then throw not_connected else do
      hobj ← open_queue name mqoo_input_fail_if_quiescing
      modify (λ c. record c { acct_queue = hobj; acct_open = true })

  -- The selector is MQIA_PLATFORM.
  unfoldable pub detect_platform : Method W (Unit {0})
  detect_platform = do
    o ← open_object qmgr_desc mqoo_inquire
    if has_failed o.cc then modify (λ c. record c { platform = mqi.local_platform }) else do
      hconn ← gets (λ c. c.hconn)
      i ← call (mqi.mqinq hconn o.hobj (32 ∷ []))
      _ ← close_object o.hobj mqco_none
      let found = get_or i.attrs 0 0
      modify (λ c. record c { platform = if is_pos found then found else mqi.local_platform })

  unfoldable pub get_platform_string : Method W Bytes
  get_platform_string = gets (λ c. platform_name c.platform)

  unfoldable pub connect : MqConfig → Method W (Unit {0})
  connect mq = do
    connected ← gets (λ c. c.connected)
    if connected then pure tt else do
      r ←
          call
            (mqi.mqconnx (if is_client_mode mq then [] else mq.queue_manager) (connect_options mq))
      modify (λ c. record c { hconn = r.hconn })
      if has_failed r.cc
          then throw (connect_failed r.rc)
          else do modify (λ c. record c { connected = true }); detect_platform

  -- The subscription goes before its queue, and neither where its handle is 0.
  unfoldable pub close_subscription : ℕ → ℕ → Method W (Unit {0})
  close_subscription hsub hobj = do
    when (not (hsub == 0)) do _ ← close_object hsub mqco_remove_sub; pure tt
    when (not (hobj == 0)) do _ ← close_object hobj mqco_delete_purge; pure tt

  unfoldable pub close_subscriptions : List SubHandle → Method W (Unit {0})
  close_subscriptions [] = pure tt
  close_subscriptions (sub ∷ subs) = do
    close_subscription sub.hsub sub.hobj
    close_subscriptions subs

  unfoldable pub unsubscribe_all : Method W (Unit {0})
  unsubscribe_all = do
    subs ← gets (λ c. c.subscriptions)
    close_subscriptions subs
    modify (λ c. record c { subscriptions = [] })

  unfoldable pub close_open_queues : ClientState → Method W (Unit {0})
  close_open_queues c = do
    when c.stats_open do close_queue c.stats_queue; modify (λ c. record c { stats_queue = 0 })
    when c.acct_open do close_queue c.acct_queue; modify (λ c. record c { acct_queue = 0 })

  unfoldable pub end_connection : Method W (Unit {0})
  end_connection = do
    hconn ← gets (λ c. c.hconn)
    r ← call (mqi.mqdisc hconn)
    modify (λ c. record c {
      hconn = r.hconn;
      connected = false;
      stats_open = false;
      acct_open = false;
    })

  -- The connection may be known to be broken: then this cleans up what is left of it.
  unfoldable pub disconnect : Method W (Unit {0})
  disconnect = do
    c ← gets (λ c. c)
    if not c.connected && is_nil c.subscriptions && not c.stats_open && not c.acct_open
        then pure tt
        else do unsubscribe_all; close_open_queues c; end_connection
