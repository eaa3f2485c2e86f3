-- ===== src/Tests/PcfTests.antt =====
-- Messages for src/pcf_parser.cpp.
use ibmmq_metrics_exporter.Base.{
  ℕ, ◌+◌, ◌-◌, ◌%◌, ◌^◌, ◌≡◌, refl, List, [], ◌∷◌, ◌++◌, length, replicate, codes, All, arith,
}
use ibmmq_metrics_exporter.Memory.{
  ok, err, length_error, Bytes, byte_at, le32_at, read_le32, read_string, is_pos,
}
use ibmmq_metrics_exporter.Memory.Reads.{Returns}
use ibmmq_metrics_exporter.Pcf.Parser.{
  PcfParameterList, nil, cons, int32, string, int_list, group, clean_string, string_list_loop,
  parse_parameters,
}
use ibmmq_metrics_exporter.Pcf.Parser.Safety.{parse_parameters-Returns}
use ibmmq_metrics_exporter.Pcf.Parser.Clean.{clean_string_padded}
use ibmmq_metrics_exporter.Pcf.Fold.{collect}
use ibmmq_metrics_exporter.Pcf.Records.{empty_queue_app_operation}
use ibmmq_metrics_exporter.Pcf.Queue.{parse_queue_stats}
use ibmmq_metrics_exporter.Pcf.Queue.Invariant.{procs_of, IsKept, parse_queue_stats-procs}
use ibmmq_metrics_exporter.Pcf.Message.{
  is_active, parse_message, parse_accounting, parse_app_operation,
}
use ibmmq_metrics_exporter.Pcf.Message.Totality.{Answer, parse_message-Answer}
use ibmmq_metrics_exporter.Pcf.Message.Operations.{
  IsActive, operations_of, parse_accounting-operations,
}
use ibmmq_metrics_exporter.Pcf.Mqi.{parse_mqi_stats}
use ibmmq_metrics_exporter.Pcf.Mqi.Groups.{
  puts, count_of, others, append_params, group_params, sum_counts, parse_mqi_stats-group_params,
}
use ibmmq_metrics_exporter.Inquiry.Builder.{int32_bytes}

-- A queue statistics message: a header with command 165, the depth, the input count, and a group
-- with the name of an application.
abbrev queue_message : Bytes
queue_message =
    replicate 12 0
    ++ (int32_bytes 165
        ++ (replicate 20 0
            ++ (int32_bytes 3
                ++ (int32_bytes 16
                    ++ (int32_bytes 3
                        ++ (int32_bytes 7
                            ++ (int32_bytes 3
                                ++ (int32_bytes 16
                                    ++ (int32_bytes 17
                                        ++ (int32_bytes 2
                                            ++ (int32_bytes 20
                                                ++ (int32_bytes 40
                                                    ++ (int32_bytes 9000
                                                        ++ (int32_bytes 1
                                                            ++ (int32_bytes 4
                                                            ++ (int32_bytes 24
                                                            ++ (int32_bytes 2024
                                                            ++ (int32_bytes 0
                                                            ++ (int32_bytes 4
                                                            ++ codes "app ")))))))))))))))))))

abbrev queue_params : PcfParameterList
queue_params =
    cons 3 3 (int32 7)
      (cons 17 3 (int32 2) (cons 9000 20 (group (cons 2024 4 (string (codes "app")) nil)) nil))

queue_message_parameters :
    parse_parameters queue_message 36 (length queue_message - 36) ≡ ok queue_params
unfolding parse_parameters read_le32 le32_at byte_at read_string clean_string
queue_message_parameters = refl

-- A list of strings of length -24 makes `std::string` throw.
abbrev negative_length : Bytes
negative_length =
    int32_bytes 6
    ++ (int32_bytes 24
        ++ (int32_bytes 1 ++ (int32_bytes 0 ++ (int32_bytes 1 ++ int32_bytes (2 ^ 32 - 24)))))

negative_length_throws : parse_parameters negative_length 0 24 ≡ err length_error
unfolding parse_parameters read_le32 le32_at byte_at read_string string_list_loop
negative_length_throws = refl

parse_parameters-Returns_example : Returns (parse_parameters queue_message 36 72)
parse_parameters-Returns_example =
    parse_parameters-Returns queue_message 36 72 (omega arith) (omega arith)

parse_message-Answer_example :
    Answer queue_message (codes "stats") (parse_message queue_message (codes "stats"))
parse_message-Answer_example = parse_message-Answer queue_message (codes "stats") (omega arith)

clean_string_padded_example :
    (clean_string (codes "QM1   ") ≡ codes "QM1")
    × (clean_string (codes "QM1   " ++ (0 ∷ 7 ∷ [])) ≡ codes "QM1")
clean_string_padded_example =
    clean_string_padded (codes "QM1") 3 (7 ∷ []) (omega arith) (omega arith)

parse_queue_stats-procs_example :
    let stats = parse_queue_stats queue_params in
    (stats.associated_procs ≡ collect procs_of queue_params)
    × All IsKept stats.associated_procs
    × (stats.has_readers ≡ is_pos stats.input_count)
    × (stats.has_writers ≡ is_pos stats.output_count)
parse_queue_stats-procs_example = parse_queue_stats-procs queue_params

abbrev accounting_params : PcfParameterList
accounting_params =
    cons 9000 20 (group (cons 2016 4 (string (codes "Q1")) (cons 735 3 (int32 5) nil)))
      (cons 9000 20 (group (cons 2016 4 (string (codes "Q2")) nil)) nil)

accounting_runs :
    (parse_accounting accounting_params).queue_operations
    ≡ record empty_queue_app_operation { queue_name = codes "Q1"; puts = 5 } ∷ []
unfolding parse_accounting parse_app_operation is_active
accounting_runs = refl

parse_accounting-operations_example :
    ((parse_accounting accounting_params).queue_operations
      ≡ collect operations_of accounting_params)
    × All IsActive (parse_accounting accounting_params).queue_operations
    × ((nested : PcfParameterList)
        → IsActive (parse_app_operation nested)
        → operations_of (group nested) ≡ parse_app_operation nested ∷ [])
parse_accounting-operations_example = parse_accounting-operations accounting_params

abbrev mqi_groups : List (ℕ × PcfParameterList)
mqi_groups = (1, cons 735 3 (int32 5) nil) ∷ (2, cons 735 5 (int_list (3 ∷ 4 ∷ [])) nil) ∷ []

mqi_groups_run :
    (parse_mqi_stats (append_params (cons 735 3 (int32 1) nil) (group_params mqi_groups))).puts ≡ 13
unfolding parse_mqi_stats
mqi_groups_run = refl

parse_mqi_stats-group_params_example :
    let whole =
      parse_mqi_stats (append_params (cons 735 3 (int32 1) nil) (group_params mqi_groups)) in
    (count_of puts whole % 2 ^ 32
      ≡ (count_of puts (parse_mqi_stats (cons 735 3 (int32 1) nil)) + sum_counts puts mqi_groups)
        % 2 ^ 32)
    × (others whole ≡ others (parse_mqi_stats (cons 735 3 (int32 1) nil)))
parse_mqi_stats-group_params_example =
    parse_mqi_stats-group_params puts (cons 735 3 (int32 1) nil) mqi_groups
