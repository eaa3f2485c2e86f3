-- ===== src/Tests/MqiTests.antt =====
-- Runs for the calls of the MQ library that src/mqclient.cpp makes, over a library of two parts: the
-- number of the handles that are open, and one queue that all handles read.
use ibmmq_metrics_exporter.Base.{
  ℕ, ◌+◌, ◌-◌, ◌^◌, ◌≤◌, ◌≡◌, ◌↔◌, ◌||◌, ◌&&◌, ◌++◌, ltb, leb, replicate, refl, List, [], ◌∷◌, map,
  take, true, false, codes, arith,
}
use ibmmq_metrics_exporter.Memory.{Bytes, out_of_bounds, le32_at, byte_at}
use ibmmq_metrics_exporter.Pcf.Fold.{is_empty}
use ibmmq_metrics_exporter.Config.Records.{MqConfig, default_config}
use ibmmq_metrics_exporter.Client.Mqi.{
  has_failed, resolve_name, read_buffer, write_front, Got, Mqi, mqrc_no_msg_available,
}
use ibmmq_metrics_exporter.Client.State.{
  ClientState, new_client, Outcome, returned, undefined, System,
}
use ibmmq_metrics_exporter.Client.Handles.{
  Resource, object, connection, counts, counts_connection, HandleLaws,
}
use ibmmq_metrics_exporter.Client.Messages.Delivery.{QueueLaws, Fits}
use ibmmq_metrics_exporter.Client.Buffers.{message_size, publication_size, message}
use ibmmq_metrics_exporter.Client.Connection.{
  open_queue, open_dynamic_queue, close_queue, connect, detect_platform, open_stats_queue,
  disconnect,
}
use ibmmq_metrics_exporter.Client.Topics.{create_subscription, subscribe_with, subscribe_at}
use ibmmq_metrics_exporter.Client.Commands.{
  responses_loop, put_command, finish_command, command_with, send_pcf_command,
}
use ibmmq_metrics_exporter.Client.Commands.Replies.{up_to_last, responses_loop-Delivers}
use ibmmq_metrics_exporter.Client.Messages.{get_message_from, get_message, get_all_messages}
use ibmmq_metrics_exporter.Client.Messages.Drain.{Drained, get_all_messages-Delivers}
use ibmmq_metrics_exporter.Client.Messages.Broken.{IsIdle, get_message-IsIdle, get_message_fault}
use ibmmq_metrics_exporter.Client.Handles.{At}
use ibmmq_metrics_exporter.Client.Ends.{Ends}
use ibmmq_metrics_exporter.Client.Finishes.{Delivers}
use ibmmq_metrics_exporter.Client.Handles.Disconnect.{IsEmpty}
use ibmmq_metrics_exporter.Client.Handles.Calls.{perform, connects, opens_stats_queue}
use ibmmq_metrics_exporter.Client.Handles.Reach.{Reach, start, called, created, disconnect-Reach}
use ibmmq_metrics_exporter.Client.Handles.Commands.{send_pcf_command-Ends}

abbrev outcome_or : {A : Type 0} → A → Outcome A → A
outcome_or d (returned a) = a
outcome_or d o = d

pub record World : Type 0 where
  pub handles : Resource → ℕ
  pub queue : List Got

abbrev pub answer : ℕ → ℕ → Bytes → ℕ → Got
answer cc rc written datalen = record {
  cc = cc;
  rc = rc;
  written = written;
  datalen = datalen;
  msg_type = 8;
  format = codes "MQADMIN ";
  put_date = codes "20250101";
  put_time = codes "12000000";
  msg_id = [];
}

abbrev pub get_first : List Got → Got
get_first [] = answer 2 mqrc_no_msg_available [] 0
get_first (g ∷ gs) = g

abbrev pub rest_of : List Got → List Got
rest_of [] = []
rest_of (g ∷ gs) = gs

abbrev pub small_mqi : Mqi World
small_mqi = record {
  mqconnx = λ q o w. (
    record { cc = 0; rc = 0; hconn = 1 },
    record w { handles = λ r. w.handles r + counts_connection r },
  );
  mqdisc = λ hconn w. (
    record { cc = 0; rc = 0; hconn = 0 },
    record w { handles = λ r. w.handles r - counts_connection r },
  );
  mqopen = λ hconn od options w. (
    record { cc = 0; rc = 0; hobj = 7; object_name = codes "EXPORTER.1" },
    record w { handles = λ r. w.handles r + counts 7 r },
  );
  mqclose = λ hconn hobj options w.
      (record { cc = 0; rc = 0 }, record w { handles = λ r. w.handles r - counts hobj r });
  mqinq = λ hconn hobj selectors w. (record { cc = 0; rc = 0; attrs = 3 ∷ 1 ∷ 2 ∷ [] }, w);
  mqput = λ hconn hobj md d w. (record { cc = 0; rc = 0 }, w);
  mqget = λ hconn hobj gmo size w. (get_first w.queue, record w { queue = rest_of w.queue });
  mqsub = λ hconn sd hobj w. (
    record { cc = 0; rc = 0; hobj = hobj; hsub = 8 },
    record w { handles = λ r. w.handles r + counts 8 r },
  );
  local_platform = 3;
}

abbrev pub small_opened : World → Resource → ℕ
small_opened w r = w.handles r

pub small_HandleLaws : HandleLaws small_mqi small_opened
small_HandleLaws = record {
  mqconnx_failed = λ q o w r e. elim (no_failure e) [ ];
  mqconnx_made = λ q o w r. omega arith;
  mqdisc_lets_go = λ hconn w r. omega arith;
  mqopen_failed = λ hconn od options w r e. elim (no_failure e) [ ];
  mqopen_made = λ hconn od options w r. omega arith;
  mqclose_lets_go = λ hconn hobj options w r. omega arith;
  mqinq_quiet = λ hconn hobj selectors w r. omega arith;
  mqput_quiet = λ hconn hobj md d w r. omega arith;
  mqget_quiet = λ hconn hobj gmo size w r. omega arith;
  mqsub_failed = λ hconn sd hobj w r e. elim (no_failure e) [ ];
  mqsub_made = λ hconn sd hobj w r. omega arith;
  mqsub_keeps = λ hconn sd hobj w. refl;
}
  where
    no_failure : false ≡ true → ⊥
    no_failure e = ground (arith, e)

abbrev pub small_contents : World → ℕ → List Got
small_contents w hobj = w.queue

pub small_QueueLaws : QueueLaws small_mqi small_contents
small_QueueLaws = record {
  next = λ hconn hobj gmo size w g gs e h. rw e (refl, refl);
  no_more = λ hconn hobj gmo size w e. rw e (refl, refl, refl);
}

abbrev pub no_handles : Resource → ℕ
no_handles r = 0

abbrev pub world_with : List Got → World
world_with gs = record { handles = no_handles; queue = gs }

abbrev pub open_client : ClientState
open_client = record new_client { hconn = 1; connected = true; stats_open = true; stats_queue = 7 }

abbrev pub system_with : List Got → System World
system_with gs = record { client = open_client; world = world_with gs }

abbrev two_messages : List Got
two_messages = answer 0 0 (1 ∷ 2 ∷ 3 ∷ []) 3 ∷ answer 0 0 (4 ∷ 5 ∷ []) 2 ∷ []

abbrev first_Fits : Fits message_size (answer 0 0 (1 ∷ 2 ∷ 3 ∷ []) 3)
first_Fits = record { succeeded = refl; whole = refl; small = omega arith }

abbrev second_Fits : Fits message_size (answer 0 0 (4 ∷ 5 ∷ []) 2)
second_Fits = record { succeeded = refl; whole = refl; small = omega arith }

get_all_messages-Delivers_example :
    Delivers
      (Drained small_mqi small_contents small_QueueLaws
        (codes "stats")
        7
        two_messages
        (system_with two_messages))
      (get_all_messages small_mqi 3 (codes "stats") (system_with two_messages))
get_all_messages-Delivers_example =
    get_all_messages-Delivers small_mqi small_contents small_QueueLaws (codes "stats") 3 7
      two_messages (system_with two_messages) refl refl (first_Fits, (second_Fits, tt))
      (omega arith)

get_all_messages_run :
    map
      (λ m. m.msg_data)
      (outcome_or [] (get_all_messages small_mqi 3 (codes "stats") (system_with two_messages)).0)
    ≡ (1 ∷ 2 ∷ 3 ∷ []) ∷ (4 ∷ 5 ∷ []) ∷ []
unfolding get_all_messages get_message get_message_from message read_buffer write_front
get_all_messages_run = refl

-- A header of 36 bytes with the control field that is given.
abbrev reply : ℕ → Bytes
reply control = replicate 20 0 ++ control ∷ replicate 15 0

abbrev three_replies : List Got
three_replies = answer 0 0 (reply 0) 36 ∷ answer 0 0 (reply 1) 36 ∷ answer 0 0 (reply 0) 36 ∷ []

abbrev reply_Fits : (control : ℕ) → Fits publication_size (answer 0 0 (reply control) 36)
reply_Fits control = record { succeeded = refl; whole = refl; small = omega arith }

responses_loop-Delivers_example :
    Delivers
      (λ responses σ'. responses ≡ take 1000 (up_to_last (map (λ g. g.written) three_replies)))
      (responses_loop small_mqi 1000 7 (replicate publication_size 0) (system_with three_replies))
responses_loop-Delivers_example =
    responses_loop-Delivers small_mqi small_contents small_QueueLaws 7 1000
      (replicate publication_size 0) three_replies (system_with three_replies) refl
      (reply_Fits 0, (reply_Fits 1, (reply_Fits 0, tt)))

send_pcf_command_run :
    outcome_or [] (send_pcf_command small_mqi [] (system_with three_replies)).0
    ≡ reply 0 ∷ reply 1 ∷ []
unfolding send_pcf_command command_with finish_command put_command responses_loop open_queue
    open_dynamic_queue close_queue resolve_name read_buffer write_front le32_at byte_at is_empty
send_pcf_command_run = refl

abbrev broken_system : System World
broken_system = system_with (answer 2 2009 [] 0 ∷ [])

get_message-IsIdle_example :
    (let σ = (get_message small_mqi (codes "stats") broken_system).1 in
      (σ.client ≡ record open_client { connected = false })
      × ((σ.client.stats_open || σ.client.acct_open) ≡ true)
      × IsIdle small_mqi σ)
unfolding get_message get_message_from
get_message-IsIdle_example =
    get_message-IsIdle small_mqi (codes "stats") broken_system
      (get_message small_mqi (codes "stats") broken_system).1 refl

-- A warning, with a message that is longer than the buffer.
abbrev long_system : System World
long_system = system_with (answer 1 2080 [] 200000 ∷ [])

get_message_fault_example :
    ((get_message small_mqi (codes "stats") long_system).0 ≡ undefined out_of_bounds)
    ↔ ((has_failed 1 ≡ false) × ((ltb 200000 (2 ^ 31) && leb 200000 message_size) ≡ false))
get_message_fault_example = get_message_fault small_mqi (codes "stats") 7 long_system refl

abbrev connecting : MqConfig
connecting = record default_config.mq { queue_manager = codes "QM1" }

-- A client that has connected, has opened its queue and has made a subscription for a caller.
subscribed :
    Reach small_mqi
      (world_with [])
      (record { hobj = 7; hsub = 8 } ∷ [])
      (create_subscription small_mqi
        (codes "T")
        (perform small_mqi
          (opens_stats_queue (codes "Q"))
          (perform small_mqi
            (connects connecting)
            (record { client = new_client; world = world_with [] })).1).1).1
unfolding connect detect_platform open_stats_queue open_queue create_subscription subscribe_with
    subscribe_at open_dynamic_queue resolve_name
subscribed =
    created
      (called (called start (connects connecting) refl tt) (opens_stats_queue (codes "Q")) refl tt)
      (codes "T") 7 8 refl

disconnect-Reach_example :
    (let σ =
        (create_subscription small_mqi
          (codes "T")
          (perform small_mqi
            (opens_stats_queue (codes "Q"))
            (perform small_mqi
              (connects connecting)
              (record { client = new_client; world = world_with [] })).1).1).1 in
      Delivers
        (λ a σ'. IsEmpty σ'.client × (small_opened σ'.world (object 7) ≤ 0 + 1))
        (disconnect small_mqi σ))
unfolding counts
disconnect-Reach_example =
    disconnect-Reach small_mqi small_opened small_HandleLaws (object 7) (world_with [])
      (record { hobj = 7; hsub = 8 } ∷ []) _ subscribed

send_pcf_command-Ends_example :
    Ends
      (λ a. At small_opened connection open_client 0)
      (λ σ. ⊥)
      (send_pcf_command small_mqi [] (system_with three_replies))
send_pcf_command-Ends_example =
    send_pcf_command-Ends small_mqi small_opened small_HandleLaws connection open_client (λ σ. ⊥) 0
      [] (system_with three_replies) (refl, omega arith)
