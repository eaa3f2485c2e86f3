-- ===== src/Client/Inquiries.antt =====
-- The methods of `MQClient` that ask for the attributes of a queue with MQINQ (src/mqclient.cpp,
-- include/ibmmq_exporter/mqclient.h).
use ibmmq_metrics_exporter.Base.{ℕ, not, List, [], ◌∷◌, Option, none, some, get_or, if◌then◌else◌}
use ibmmq_metrics_exporter.Memory.{Bytes}
use ibmmq_metrics_exporter.Client.Mqi.{has_failed, mqoo_inquire, Inquired, Mqi}
use ibmmq_metrics_exporter.Client.State.{Method, pure, call, gets, attempt, ◌>>=◌, ◌>>◌}
use ibmmq_metrics_exporter.Client.Connection.{open_queue, close_queue}

pub record QueueStats : Type 0 where
  pub queue_name : Bytes
  pub current_depth : ℕ
  pub open_input_count : ℕ
  pub open_output_count : ℕ

pub record QueueInfo : Type 0 where
  pub queue_name : Bytes
  pub current_depth : ℕ
  pub open_input_count : ℕ
  pub open_output_count : ℕ
  pub max_queue_depth : ℕ

pub record HandleInfo : Type 0 where
  pub application_name : Bytes
  pub application_tag : Bytes
  pub process_id : ℕ
  pub user_identifier : Bytes
  pub channel_name : Bytes
  pub connection_name : Bytes
  pub handle_state : Bytes
  pub open_mode : Bytes
  pub queue_name : Bytes
  pub input_handle_count : ℕ
  pub output_handle_count : ℕ

abbrev pub stats_of : Bytes → List ℕ → QueueStats
stats_of name attrs = record {
  queue_name = name;
  current_depth = get_or attrs 0 0;
  open_input_count = get_or attrs 1 0;
  open_output_count = get_or attrs 2 0;
}

abbrev pub info_of : Bytes → List ℕ → QueueInfo
info_of name attrs = record {
  queue_name = name;
  current_depth = get_or attrs 0 0;
  open_input_count = get_or attrs 1 0;
  open_output_count = get_or attrs 2 0;
  max_queue_depth = get_or attrs 3 0;
}

-- What is made of the attributes, if the call has been made and has not failed.
unfoldable pub if_inquired : {A : Type 0} → (List ℕ → A) → Option Inquired → Option A
if_inquired f none = none
if_inquired f (some i) = if has_failed i.cc then none else some (f i.attrs)

module _ {W : Type 0} (mqi : Mqi W) where
  -- What the three methods share: the queue is opened, asked and closed; none where the client is
  -- not connected or the queue does not open.
  unfoldable pub inquire_at : List ℕ → Option ℕ → Method W (Option Inquired)
  inquire_at selectors none = pure none
  inquire_at selectors (some hobj) = do
    hconn ← gets (λ c. c.hconn)
    i ← call (mqi.mqinq hconn hobj selectors)
    close_queue mqi hobj
    pure (some i)

  unfoldable pub inquire : Bytes → List ℕ → Method W (Option Inquired)
  inquire name selectors = do
    connected ← gets (λ c. c.connected)
    if not connected
        then pure none
        else do found ← attempt (open_queue mqi name mqoo_inquire); inquire_at selectors found

  -- The selectors are MQIA_CURRENT_Q_DEPTH, MQIA_OPEN_INPUT_COUNT and MQIA_OPEN_OUTPUT_COUNT.
  unfoldable pub get_queue_stats : Bytes → Method W (Option QueueStats)
  get_queue_stats name = do
    i ← inquire name (3 ∷ 17 ∷ 18 ∷ [])
    pure (if_inquired (stats_of name) i)

  -- The same, with MQIA_MAX_Q_DEPTH.
  unfoldable pub get_queue_info : Bytes → Method W (Option QueueInfo)
  get_queue_info name = do
    i ← inquire name (3 ∷ 17 ∷ 18 ∷ 15 ∷ [])
    pure (if_inquired (info_of name) i)

  -- The counts are logged, and no handle is returned.
  unfoldable pub get_queue_handles : Bytes → Method W (List HandleInfo)
  get_queue_handles name = do _ ← inquire name (17 ∷ 18 ∷ []); pure []
