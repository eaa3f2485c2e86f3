-- ===== src/Tests/InquiryTests.antt =====
-- Commands and responses for src/pcf_inquiry.cpp.
use ibmmq_metrics_exporter.Base.{
  ℕ, ◌+◌, ◌-◌, ◌^◌, ◌≤◌, ◌<◌, ◌≡◌, ◌↔◌, refl, ◌∙◌, ap, sym, ◌⊎◌, inl, inr, [], ◌∷◌, ◌++◌, length,
  replicate, codes, arith,
}
use mathlib.Core.Path.{subst}
use ibmmq_metrics_exporter.Memory.{
  ok, err, out_of_bounds, Bytes, byte_at, le32_at, read_le32, read_string,
}
use ibmmq_metrics_exporter.Memory.Reads.{Returns}
use ibmmq_metrics_exporter.Pcf.Parser.{parse_header, parse_parameters}
use ibmmq_metrics_exporter.Inquiry.Builder.{
  int32_bytes, build_pcf_cmd, append_string_param, append_integer_param, build_inquire_q_cmd,
}
use ibmmq_metrics_exporter.Inquiry.Builder.RoundTrip.{parameters_of}
use ibmmq_metrics_exporter.Inquiry.Commands.{inquire_q, build, fields_of, header_of, parse-build}
use ibmmq_metrics_exporter.Inquiry.Details.{empty_queue_online_status}
use ibmmq_metrics_exporter.Inquiry.Reader.{read_pcf_string, read_pcf_int32, trim_mq_string}
use ibmmq_metrics_exporter.Pcf.Fold.{is_empty}
use ibmmq_metrics_exporter.Inquiry.Reader.Bounds.{read_pcf_string_fault}
use ibmmq_metrics_exporter.Inquiry.Reader.Walk.{ParamAt, first, next, SizesFit, IsWellSized}
use ibmmq_metrics_exporter.Inquiry.Handles.{parse_queue_status_response}
use ibmmq_metrics_exporter.Inquiry.Handles.Bounds.{
  HasWholeParams, parse_queue_status_response-Returns, parse_queue_status_response_fault,
}
use ibmmq_metrics_exporter.Inquiry.ChannelStatus.{parse_channel_status_response}
use ibmmq_metrics_exporter.Inquiry.TopicStatus.{parse_topic_status_response}
use ibmmq_metrics_exporter.Inquiry.SubStatus.{parse_sub_status_response}
use ibmmq_metrics_exporter.Inquiry.QmgrStatus.{parse_qmgr_status_response}
use ibmmq_metrics_exporter.Inquiry.ClusterQmgr.{parse_cluster_qmgr_response}
use ibmmq_metrics_exporter.Inquiry.UsageBp.{parse_usage_bp_response}
use ibmmq_metrics_exporter.Inquiry.UsagePs.{parse_usage_ps_response}
use ibmmq_metrics_exporter.Inquiry.QueueOnline.{parse_queue_online_status_response}
use ibmmq_metrics_exporter.Inquiry.Safety.{parsers-Returns}

build_inquire_q_run :
    build_inquire_q_cmd (codes "Q1")
    ≡ int32_bytes 1
      ++ (int32_bytes 36
          ++ (int32_bytes 1
              ++ (int32_bytes 13
                  ++ (int32_bytes 1
                      ++ (int32_bytes 1
                          ++ (int32_bytes 0
                              ++ (int32_bytes 0
                                  ++ (int32_bytes 2
                                      ++ (int32_bytes 4
                                          ++ (int32_bytes 24
                                              ++ (int32_bytes 2016
                                                  ++ (int32_bytes 0
                                                      ++ (int32_bytes 2
                                                          ++ (codes "Q1"
                                                            ++ (0 ∷ 0 ∷ []
                                                            ++ (int32_bytes 3
                                                            ++ (int32_bytes 16
                                                            ++ (int32_bytes 20
                                                            ++ int32_bytes 1))))))))))))))))))
unfolding build_inquire_q_cmd build_pcf_cmd append_string_param append_integer_param
build_inquire_q_run = refl

parse-build_example :
    (parse_header (build (inquire_q (codes "Q1"))) 0 (length (build (inquire_q (codes "Q1"))))
      ≡ ok (header_of (inquire_q (codes "Q1"))))
    × (parse_parameters
          (build (inquire_q (codes "Q1")))
          36
          (length (build (inquire_q (codes "Q1"))) - 36)
        ≡ ok (parameters_of (fields_of (inquire_q (codes "Q1")))))
parse-build_example = parse-build (inquire_q (codes "Q1")) (omega arith)

-- The online status of a queue: its name and the age of its oldest message.
abbrev online_response : Bytes
online_response =
    replicate 36 0
    ++ (int32_bytes 4
        ++ (int32_bytes 24
            ++ (int32_bytes 2016
                ++ (int32_bytes 0
                    ++ (int32_bytes 4
                        ++ (codes "Q1  "
                            ++ (int32_bytes 3
                                ++ (int32_bytes 16 ++ (int32_bytes 1227 ++ int32_bytes 9)))))))))

online_run :
    parse_queue_online_status_response (online_response ∷ [])
    ≡ ok (record empty_queue_online_status { queue_name = codes "Q1"; oldest_msg_age = 9 } ∷ [])
unfolding parse_queue_online_status_response read_le32 le32_at byte_at read_string read_pcf_string
    read_pcf_int32 is_empty trim_mq_string
online_run = refl

-- The walk finds the two parameters, and then stays at the end.
online_params :
    {offset : ℕ} → ParamAt online_response offset → (offset ≡ 36) ⊎ (offset ≡ 60) ⊎ (offset ≡ 76)
unfolding le32_at byte_at
online_params (first e) = inl e
online_params (next {before} p e) =
    let step = λ (b : ℕ). b + le32_at online_response (b + 4) in
    elim (online_params p) [
      | inl q ↦ inr (inl (e ∙ ap step q))
      | inr (inl q) ↦ inr (inr (e ∙ ap step q))
      | inr (inr q) ↦ inr (inr (e ∙ ap step q))
    ]

-- What the parameters of the response must meet holds at each of the three offsets.
online_all :
    (P : ℕ → Type 0) → P 36 → P 60 → P 76 → (offset : ℕ) → ParamAt online_response offset → P offset
online_all P a b c offset p = elim (online_params p) [
  | inl q ↦ subst P (sym q) a
  | inr (inl q) ↦ subst P (sym q) b
  | inr (inr q) ↦ subst P (sym q) c
]

online-IsWellSized : IsWellSized online_response
unfolding le32_at byte_at
online-IsWellSized = record {
  size = omega arith;
  fits =
      online_all (SizesFit online_response) ((λ e. omega arith), (λ e. omega arith))
        ((λ e. omega arith), (λ e. omega arith)) ((λ e. omega arith), (λ e. omega arith));
}

parsers-Returns_example :
    let responses = online_response ∷ [] in
    Returns (parse_channel_status_response responses)
    × Returns (parse_topic_status_response responses)
    × Returns (parse_sub_status_response responses)
    × Returns (parse_qmgr_status_response responses)
    × Returns (parse_cluster_qmgr_response responses)
    × Returns (parse_usage_bp_response responses)
    × Returns (parse_usage_ps_response responses)
    × Returns (parse_queue_online_status_response responses)
parsers-Returns_example = parsers-Returns (online_response ∷ []) (online-IsWellSized, tt)

-- The first parameter of this response has a length field of 2^32 - 1.
abbrev wrapping_response : Bytes
wrapping_response =
    replicate 36 0
    ++ (int32_bytes 4
        ++ (int32_bytes 24
            ++ (int32_bytes 2016 ++ (int32_bytes 0 ++ (int32_bytes (2 ^ 32 - 1) ++ codes "Q1  ")))))

read_pcf_string_fault_example :
    (read_pcf_string wrapping_response 36 24 ≡ err out_of_bounds)
    ↔ (2 ^ 32 - 20 ≤ le32_at wrapping_response 52)
read_pcf_string_fault_example =
    read_pcf_string_fault wrapping_response 36 24 (omega arith) (omega arith) (omega arith)

online-HasWholeParams : HasWholeParams online_response
unfolding le32_at byte_at
online-HasWholeParams = record {
  size = omega arith;
  whole =
      online_all
        (λ offset. offset + 8 ≤ length online_response → 8 ≤ le32_at online_response (offset + 4))
        (λ h. omega arith) (λ h. omega arith) (λ h. absurd (omega arith));
  fits =
      online_all
        (λ offset.
          le32_at online_response offset ≡ 4 → le32_at online_response (offset + 16) < 2 ^ 32 - 12)
        (λ e. omega arith) (λ e. omega arith) (λ e. omega arith);
}

parse_queue_status_response-Returns_example :
    Returns (parse_queue_status_response online_response (length online_response))
parse_queue_status_response-Returns_example =
    parse_queue_status_response-Returns online_response online-HasWholeParams

-- A response that ends in a text of four bytes.
abbrev short_response : Bytes
short_response = replicate 36 0 ++ (int32_bytes 4 ++ int32_bytes 4)

parse_queue_status_response_fault_example :
    parse_queue_status_response short_response (length short_response) ≡ err out_of_bounds
unfolding le32_at byte_at
parse_queue_status_response_fault_example =
    parse_queue_status_response_fault short_response (omega arith) (omega arith) refl refl
      (omega arith) (omega arith)
