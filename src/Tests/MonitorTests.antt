-- ===== src/Tests/MonitorTests.antt =====
-- Publications and a discovery for src/resource_monitor.cpp.
use ibmmq_metrics_exporter.Base.{
  ℕ, zero, suc, ◌+◌, ◌-◌, ◌^◌, ◌<◌, ◌≡◌, refl, true, false, List, [], ◌∷◌, ◌++◌, length, replicate,
  ◌==◌, ◌&&◌, if◌then◌else◌, codes, map, Option, none, some, All, ltb, arith,
}
use ibmmq_metrics_exporter.Memory.{ok, Bytes, byte_at, le32_at, read_le32, read_string}
use ibmmq_metrics_exporter.Memory.Reads.{Returns, Ensures}
use ibmmq_metrics_exporter.Inquiry.Builder.{int32_bytes}
use ibmmq_metrics_exporter.Pcf.Fold.{is_empty}
use ibmmq_metrics_exporter.Monitor.Names.{to_lower, description_to_metric_name}
use ibmmq_metrics_exporter.Monitor.Names.Shape.{is_metric_name, description_to_metric_name_shape}
use ibmmq_metrics_exporter.Monitor.Names.Letters.{letters, letters-description_to_metric_name}
use ibmmq_metrics_exporter.Monitor.Params.{message_params, parse_pcf_params}
use ibmmq_metrics_exporter.Monitor.Params.Safety.{parse_pcf_params-Returns}
use ibmmq_metrics_exporter.Monitor.Records.{
  MonitorElement, ResourceMonitor, PublicationMetric, new_monitor, set_element, update_type,
}
use ibmmq_metrics_exporter.Monitor.Discovery.{discover}
use ibmmq_metrics_exporter.Monitor.Discovery.Index.{IsDiscovered}
use ibmmq_metrics_exporter.Monitor.Discovery.Found.{RepliesFit, Discovered, discover-Discovered}
use ibmmq_metrics_exporter.Monitor.Subscriptions.{create_subscriptions, close}
use ibmmq_metrics_exporter.Monitor.Subscriptions.Balance.{
  same, listed, Counts, close-create_subscriptions,
}
use ibmmq_metrics_exporter.Monitor.Publications.{process_publications}
use ibmmq_metrics_exporter.Monitor.Publications.Shape.{
  IsMetric, Fits, process_publications-IsMetric,
}

abbrev integer_bytes : ℕ → ℕ → Bytes
integer_bytes id value = int32_bytes 3 ++ (int32_bytes 16 ++ (int32_bytes id ++ int32_bytes value))

abbrev text_bytes : ℕ → Bytes → Bytes
text_bytes id s =
    int32_bytes 4
    ++ (int32_bytes (20 + length s)
        ++ (int32_bytes id ++ (int32_bytes 0 ++ (int32_bytes (length s) ++ s))))

abbrev group_bytes : ℕ → Bytes
group_bytes count = int32_bytes 20 ++ (int32_bytes 16 ++ (int32_bytes 0 ++ int32_bytes count))

abbrev header_bytes : Bytes
header_bytes = int32_bytes 1 ++ (int32_bytes 36 ++ replicate 28 0)

abbrev one_group : Bytes
one_group = group_bytes 2 ++ (integer_bytes 841 7 ++ text_bytes 2715 (codes "Log - in/use "))

parse_pcf_params_run :
    parse_pcf_params one_group 0 (length one_group)
    ≡ ok (
        record {
          own = record { type = 20; param_id = 0; int_value = 0; int64_value = 0; str_value = [] };
          group_params =
              record { type = 3; param_id = 841; int_value = 7; int64_value = 7; str_value = [] }
              ∷ record {
                type = 4;
                param_id = 2715;
                int_value = 0;
                int64_value = 0;
                str_value = codes "Log - in/use";
              }
              ∷ [];
        }
        ∷ [])
unfolding parse_pcf_params read_le32 le32_at byte_at read_string
parse_pcf_params_run = refl

one_group-small : length one_group < 2 ^ 63
one_group-small = omega arith

parse_pcf_params-Returns_example : Returns (parse_pcf_params one_group 0 (length one_group))
parse_pcf_params-Returns_example =
    parse_pcf_params-Returns one_group 0 (length one_group) (omega arith) one_group-small

metric_name_run : description_to_metric_name (codes "Log - in/use (GB) ") ≡ codes "log_in_use_gb"
unfolding description_to_metric_name
metric_name_run = refl

description_to_metric_name_shape_example :
    is_metric_name (description_to_metric_name (codes "- Log in/use (GB) ")) ≡ true
description_to_metric_name_shape_example =
    description_to_metric_name_shape (codes "- Log in/use (GB) ")

letters-description_to_metric_name_example :
    letters (description_to_metric_name (codes "- Log in/use (GB) "))
    ≡ map to_lower (letters (codes "- Log in/use (GB) "))
letters-description_to_metric_name_example =
    letters-description_to_metric_name (codes "- Log in/use (GB) ")

-- A queue manager with one class, which has one type with one element: its answers in their order.
abbrev answers : Bytes → ℕ → Option Bytes × ℕ
answers topic zero = (
  some (
      header_bytes
      ++ (group_bytes 2 ++ (text_bytes 2713 (codes "DISK") ++ text_bytes 2094 (codes "t")))),
  1,
)
answers topic (suc zero) = (
  some (
      header_bytes
      ++ (group_bytes 2 ++ (text_bytes 2714 (codes "Log") ++ text_bytes 2094 (codes "e")))),
  2,
)
answers topic (suc (suc zero)) =
    (some (header_bytes ++ (text_bytes 2094 (codes "data") ++ one_group)), 3)
answers topic (suc (suc (suc w))) = (none, suc (suc (suc w)))

answers-RepliesFit : RepliesFit answers
answers-RepliesFit topic zero body h = ground arith
answers-RepliesFit topic (suc zero) body h = ground arith
answers-RepliesFit topic (suc (suc zero)) body h = ground arith
answers-RepliesFit topic (suc (suc (suc w))) body h = ground arith

abbrev log_element : MonitorElement
log_element = record {
  element_id = 7;
  datatype = 0;
  description = codes "Log - in/use";
  metric_name = codes "log_in_use";
}

abbrev disk_monitor : ResourceMonitor
disk_monitor = record {
  qmgr_name = codes "QM1";
  classes =
      record {
        class_id = 0;
        class_name = codes "DISK";
        topic_string = codes "t";
        types =
            record {
              type_id = 0;
              type_name = codes "Log";
              object_topic = codes "data";
              elements = log_element ∷ [];
            }
            ∷ [];
      }
      ∷ [];
  type_elements = (codes "DISK/Log", (7, log_element) ∷ []) ∷ [];
  data_subs = [];
}

discover_run : discover answers (new_monitor (codes "QM1")) 0 ≡ ok ((true, disk_monitor), 3)
unfolding discover read_le32 le32_at byte_at read_string description_to_metric_name set_element
    update_type message_params parse_pcf_params
discover_run = refl

new_monitor-IsDiscovered : IsDiscovered (new_monitor (codes "QM1"))
new_monitor-IsDiscovered = record { classes = tt; indexed = tt }

discover-Discovered_example :
    Ensures (Discovered answers) (discover answers (new_monitor (codes "QM1")) 0)
discover-Discovered_example =
    discover-Discovered answers answers-RepliesFit (new_monitor (codes "QM1")) 0
      new_monitor-IsDiscovered

-- A client that numbers its subscriptions, and is asked about two queues.
abbrev numbered : Bytes → ℕ → Option (ℕ × ℕ) × ℕ
numbered topic w = (some (w, w), suc w)

-- A desk that lists the handles of the open subscriptions, and gives both the next number.
abbrev Desk : Type 0
Desk = List (ℕ × ℕ)

abbrev desk_create : Bytes → Desk → Option (ℕ × ℕ) × Desk
desk_create topic w = (some (suc (length w), suc (length w)), (suc (length w), suc (length w)) ∷ w)

abbrev take_away : ℕ → ℕ → Desk → Desk
take_away hobj hsub [] = []
take_away hobj hsub ((o, t) ∷ w) =
    let rest = take_away hobj hsub w in if o == hobj && t == hsub then w else (o, t) ∷ rest

abbrev desk_close : ℕ → ℕ → Desk → Desk
desk_close hsub hobj w = if hobj == 0 && hsub == 0 then w else take_away hobj hsub w

abbrev how_many : ℕ → ℕ → Desk → ℕ
how_many o t [] = 0
how_many o t ((hobj, hsub) ∷ w) = same hobj hsub o t + how_many o t w

abbrev desk_opened : ℕ → ℕ → Desk → ℕ
desk_opened o t w = if o == 0 && t == 0 then 0 else how_many o t w

how_many-take_away :
    (hobj hsub o t : ℕ) (w : Desk)
    → how_many o t (take_away hobj hsub w) ≡ how_many o t w - same hobj hsub o t
how_many-take_away hobj hsub o t [] = omega arith
how_many-take_away hobj hsub o t ((o', t') ∷ w) = ground (arith, how_many-take_away hobj hsub o t w)

desk-Counts : Counts desk_create desk_close desk_opened
desk-Counts = record {
  created = λ topic w hobj hsub o t h. ground (arith, h);
  refused = λ topic w o t h. absurd (ground arith);
  closed = λ hsub hobj w o t h. ground (arith, h, how_many-take_away hobj hsub o t w);
  closed_none = λ w o t. refl;
  none_at_0 = λ w. refl;
}

abbrev queue_monitor : ResourceMonitor
queue_monitor = record disk_monitor {
  classes =
      record {
        class_id = 1;
        class_name = codes "STATQ";
        topic_string = codes "t";
        types =
            record {
              type_id = 0;
              type_name = codes "GET";
              object_topic = codes "q/%s/get";
              elements = log_element ∷ [];
            }
            ∷ [];
      }
      ∷ disk_monitor.classes;
}

create_subscriptions_run :
    create_subscriptions numbered (codes "A" ∷ codes "B" ∷ []) queue_monitor 0 ≡ (
      (
        true,
        record queue_monitor {
          data_subs =
              record { class_name = codes "STATQ"; type_name = codes "GET"; hobj = 0; hsub = 0 }
              ∷ record { class_name = codes "STATQ"; type_name = codes "GET"; hobj = 1; hsub = 1 }
              ∷ record { class_name = codes "DISK"; type_name = codes "Log"; hobj = 2; hsub = 2 }
              ∷ [];
        },
      ),
      3,
    )
unfolding create_subscriptions is_empty
create_subscriptions_run = refl

close-create_subscriptions_example :
    (let w : Desk = (4, 5) ∷ [] in
      let r = create_subscriptions desk_create (codes "A" ∷ codes "B" ∷ []) queue_monitor w in
      let left = close desk_close r.0.1 r.1 in
      (r.0.0 ≡ ltb 0 (length r.0.1.data_subs))
      × (desk_opened 2 2 r.1 + 0 ≡ desk_opened 2 2 w + listed 2 2 r.0.1.data_subs)
      × (left.0.data_subs ≡ [])
      × (desk_opened 2 2 left.1 + 0 ≡ desk_opened 2 2 w))
close-create_subscriptions_example =
    close-create_subscriptions desk_create desk_close desk_opened desk-Counts 2 2
      (codes "A" ∷ codes "B" ∷ []) queue_monitor ((4, 5) ∷ []) (omega arith)

-- A publication of the disk's log, for the first handle asked.
abbrev published : ℕ → ℕ → List Bytes × ℕ
published hobj w = ((header_bytes ++ (text_bytes 2016 (codes "Q") ++ integer_bytes 7 12)) ∷ [], w)

abbrev subscribed_monitor : ResourceMonitor
subscribed_monitor = record disk_monitor {
  data_subs =
      record { class_name = codes "DISK"; type_name = codes "Log"; hobj = 4; hsub = 5 } ∷ [];
}

process_publications_run :
    process_publications published subscribed_monitor 0
    ≡ ok (
      record {
        class_name = codes "DISK";
        type_name = codes "Log";
        object_name = codes "Q";
        metric_name = codes "log_in_use";
        raw = 12;
        divisor = 1;
        is_delta = false;
      }
          ∷ [],
      0,
    )
unfolding process_publications read_le32 le32_at byte_at read_string message_params parse_pcf_params
process_publications_run = refl

published-Fits : (hobj w : ℕ) → All Fits (published hobj w).0
published-Fits hobj w = (omega arith, tt)

subscribed-IsDiscovered : IsDiscovered subscribed_monitor
unfolding description_to_metric_name is_empty
subscribed-IsDiscovered = record {
  classes = (
    record {
      named = refl;
      typed = omega arith;
      types = (
        record {
          named = refl;
          measured = omega arith;
          elements = (record { identified = omega arith; named = refl }, tt);
        },
        tt,
      );
    },
    tt,
  );
  indexed = (((refl, record { identified = omega arith; named = refl }), tt), tt);
}

process_publications-IsMetric_example :
    Ensures
      (λ (r : List PublicationMetric × ℕ). All IsMetric r.0)
      (process_publications published subscribed_monitor 0)
process_publications-IsMetric_example =
    process_publications-IsMetric published published-Fits subscribed_monitor 0
      subscribed-IsDiscovered
