-- ===== src/Tests/ClientTests.antt =====
-- Responses, patterns and messages for src/mqclient.cpp.
use ibmmq_metrics_exporter.Base.{
  ℕ, suc, ◌≡◌, ◌↔◌, inl, refl, true, false, List, [], ◌∷◌, ◌++◌, replicate, take, drop, codes, All,
  arith,
}
use ibmmq_metrics_exporter.Memory.{ok, Bytes, byte_at, le32_at, read_le32, read_string}
use ibmmq_metrics_exporter.Memory.Reads.{Ensures}
use ibmmq_metrics_exporter.Pcf.Fold.{is_empty}
use ibmmq_metrics_exporter.Inquiry.Builder.{int32_bytes}
use ibmmq_metrics_exporter.Inquiry.Reader.{trim_mq_string}
use ibmmq_metrics_exporter.Client.Exclusion.{matches_hlq_pattern, queue_matches_exclusion}
use ibmmq_metrics_exporter.Client.Exclusion.Levels.{matches_hlq_pattern_levels}
use ibmmq_metrics_exporter.Client.Queues.{is_skipped, discover_queues}
use ibmmq_metrics_exporter.Client.Queues.Names.{AreQueues}
use ibmmq_metrics_exporter.Client.Queues.Safety.{IsSized, discover_queues-AreQueues}
use ibmmq_metrics_exporter.Client.Headers.{MqMessage, strip_mqrfh2}
use ibmmq_metrics_exporter.Client.Headers.Strip.{IsHeader, strip_mqrfh2-append}

exclusion_run :
    queue_matches_exclusion (codes "SYSTEM.A.B") (codes "DEV.*" ∷ codes "SYSTEM.**" ∷ []) ≡ true
unfolding queue_matches_exclusion matches_hlq_pattern
exclusion_run = refl

no_exclusion_run :
    queue_matches_exclusion (codes "SYSTEMS.A") (codes "SYSTEM.*" ∷ codes "SYSTEM" ∷ []) ≡ false
unfolding queue_matches_exclusion matches_hlq_pattern
no_exclusion_run = refl

matches_hlq_pattern_levels_example :
    (matches_hlq_pattern (codes "DEV.A") (codes "DEV" ++ codes ".*") ≡ true)
    ↔ ((rest : Bytes) × (codes "DEV.A" ≡ codes "DEV" ++ 46 ∷ rest))
matches_hlq_pattern_levels_example =
    matches_hlq_pattern_levels (codes "DEV.A") (codes "DEV") (omega arith) (codes ".*") (inl refl)

-- Two names, one of them twice, and one of a kind that is skipped.
abbrev names_response : Bytes
names_response =
    replicate 36 0
    ++ (int32_bytes 6
        ++ (int32_bytes 40
            ++ (int32_bytes 2016
                ++ (int32_bytes 0
                    ++ (int32_bytes 4 ++ (int32_bytes 4 ++ codes "Q1  AMQ.Q2  Q1  "))))))

abbrev one_response : Bytes → ℕ → List Bytes × ℕ
one_response cmd w = (names_response ∷ [], suc w)

discover_queues_run :
    discover_queues one_response (codes "*") 0 ≡ ok (codes "Q1" ∷ codes "Q2" ∷ [], 1)
unfolding discover_queues is_skipped read_le32 le32_at byte_at read_string trim_mq_string is_empty
discover_queues_run = refl

one_response-IsSized : (cmd : Bytes) (w : ℕ) → All IsSized (one_response cmd w).0
one_response-IsSized cmd w = (omega arith, tt)

discover_queues-AreQueues_example :
    Ensures (λ (r : List Bytes × ℕ). AreQueues r.0) (discover_queues one_response (codes "*") 0)
discover_queues-AreQueues_example =
    discover_queues-AreQueues one_response (codes "*") 0 (omega arith, tt)

abbrev rfh_header : Bytes
rfh_header =
    codes "RFH "
    ++ (int32_bytes 2 ++ (int32_bytes 36 ++ (replicate 8 0 ++ (codes "MQADMIN " ++ replicate 8 0))))

abbrev rfh_message : MqMessage
rfh_message = record {
  msg_data = [];
  type = codes "stats";
  put_date = [];
  put_time = [];
  msg_type = 8;
  format = codes "MQHRF2";
  msg_id = [];
}

rfh_header-IsHeader : IsHeader rfh_header
unfolding le32_at byte_at
rfh_header-IsHeader = record { magic = refl; sized = refl; long = omega arith; small = omega arith }

strip_mqrfh2-append_example :
    strip_mqrfh2 (record rfh_message { msg_data = rfh_header ++ codes "body" })
    ≡ ok (record rfh_message { msg_data = codes "body"; format = take 8 (drop 20 rfh_header) })
strip_mqrfh2-append_example =
    strip_mqrfh2-append rfh_message rfh_header (codes "body") rfh_header-IsHeader (omega arith)
      (omega arith)
