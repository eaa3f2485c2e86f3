-- ===== src/Inquiry/Commands.antt =====
-- The ten commands of src/pcf_inquiry.cpp, read back by `PCFParser` (src/pcf_parser.cpp).
use ibmmq_metrics_exporter.Base.{
  ℕ, ◌+◌, ◌-◌, ◌^◌, ◌≤◌, ◌<◌, ◌≡◌, refl, sym, ◌∙◌, List, [], ◌∷◌, ◌++◌, length, codes,
  length-append, append_assoc, append-nil, arith, All,
}
use ibmmq_metrics_exporter.Memory.{ok, Bytes, byte_at, le32_at, read_le32}
use ibmmq_metrics_exporter.Pcf.Parser.{PcfHeader, parse_header, parse_parameters}
use ibmmq_metrics_exporter.Inquiry.Builder.{
  build_pcf_cmd, append_string_param, append_integer_param, build_inquire_q_cmd,
  build_inquire_q_status_cmd, build_inquire_channel_status_cmd, build_inquire_topic_status_cmd,
  build_inquire_sub_status_cmd, build_inquire_qmgr_status_cmd, build_inquire_cluster_qmgr_cmd,
  build_inquire_usage_cmd, build_inquire_q_status_online_cmd, build_reset_q_stats_cmd,
}
use ibmmq_metrics_exporter.Inquiry.Builder.Encoding.{
  Field, string_field, integer_field, encode_fields, append_integer_param-encode_field,
  append_string_param-encode_field,
}
use ibmmq_metrics_exporter.Inquiry.Builder.RoundTrip.{
  IsField, parameters_of, parse_parameters-encode_fields,
}

pub data Command : Type 0 where
  inquire_q inquire_q_status inquire_channel_status inquire_topic_status : Bytes → Command
  inquire_sub_status inquire_q_status_online reset_q_stats : Bytes → Command
  inquire_qmgr_status inquire_cluster_qmgr : Command
  inquire_usage : ℕ → Command

-- The builder that the program calls.
abbrev pub build : Command → Bytes
build (inquire_q name) = build_inquire_q_cmd name
build (inquire_q_status name) = build_inquire_q_status_cmd name
build (inquire_channel_status pattern_) = build_inquire_channel_status_cmd pattern_
build (inquire_topic_status pattern_) = build_inquire_topic_status_cmd pattern_
build (inquire_sub_status pattern_) = build_inquire_sub_status_cmd pattern_
build (inquire_q_status_online name) = build_inquire_q_status_online_cmd name
build (reset_q_stats name) = build_reset_q_stats_cmd name
build inquire_qmgr_status = build_inquire_qmgr_status_cmd
build inquire_cluster_qmgr = build_inquire_cluster_qmgr_cmd
build (inquire_usage usage_type) = build_inquire_usage_cmd usage_type

-- The command's number and its parameters, as IBM MQ documents them.
abbrev pub code_of : Command → ℕ
code_of (inquire_q name) = 13
code_of (inquire_q_status name) = 41
code_of (inquire_channel_status pattern_) = 42
code_of (inquire_topic_status pattern_) = 183
code_of (inquire_sub_status pattern_) = 182
code_of (inquire_q_status_online name) = 41
code_of (reset_q_stats name) = 17
code_of inquire_qmgr_status = 161
code_of inquire_cluster_qmgr = 70
code_of (inquire_usage usage_type) = 126

abbrev pub fields_of : Command → List Field
fields_of (inquire_q name) = string_field 2016 name ∷ integer_field 20 1 ∷ []
fields_of (inquire_q_status name) = string_field 2016 name ∷ integer_field 1103 1104 ∷ []
fields_of (inquire_channel_status pattern_) = string_field 3501 pattern_ ∷ []
fields_of (inquire_topic_status pattern_) = string_field 2094 pattern_ ∷ []
fields_of (inquire_sub_status pattern_) = string_field 3152 pattern_ ∷ []
fields_of (inquire_q_status_online name) = string_field 2016 name ∷ integer_field 1103 1105 ∷ []
fields_of (reset_q_stats name) = string_field 2016 name ∷ []
fields_of inquire_qmgr_status = []
fields_of inquire_cluster_qmgr = string_field 2029 (codes "*") ∷ []
fields_of (inquire_usage usage_type) = integer_field 1157 usage_type ∷ []

abbrev pub header_of : Command → PcfHeader
header_of c = record {
  type = 1;
  struc_length = 36;
  version = 1;
  command = code_of c;
  msg_seq_number = 1;
  control = 1;
  comp_code = 0;
  reason = 0;
  parameter_count = length (fields_of c);
}

-- The shapes of the commands: a text, and a text before an integer.
one_param :
    (command id : ℕ) (v : Bytes)
    → length v < 2 ^ 31 - 24
    → append_string_param (build_pcf_cmd command 1) id v
      ≡ build_pcf_cmd command 1 ++ encode_fields (string_field id v ∷ [])
one_param command id v h =
    append_string_param-encode_field (build_pcf_cmd command 1) id v h ∙ rw append-nil

two_params :
    (command id : ℕ) (v : Bytes) (id' w : ℕ)
    → length v < 2 ^ 31 - 24
    → append_integer_param (append_string_param (build_pcf_cmd command 2) id v) id' w
      ≡ build_pcf_cmd command 2 ++ encode_fields (string_field id v ∷ integer_field id' w ∷ [])
two_params command id v id' w h =
    append_integer_param-encode_field (append_string_param (build_pcf_cmd command 2) id v) id' w
    ∙ rw (append_string_param-encode_field (build_pcf_cmd command 2) id v h)
        (append_assoc (build_pcf_cmd command 2) _ _)

build-encode_fields :
    (c : Command)
    → All IsField (fields_of c)
    → build c ≡ build_pcf_cmd (code_of c) (length (fields_of c)) ++ encode_fields (fields_of c)
unfolding build_inquire_q_cmd build_inquire_q_status_cmd build_inquire_channel_status_cmd
    build_inquire_topic_status_cmd build_inquire_sub_status_cmd build_inquire_qmgr_status_cmd
    build_inquire_cluster_qmgr_cmd build_inquire_usage_cmd build_inquire_q_status_online_cmd
    build_reset_q_stats_cmd
build-encode_fields (inquire_q name) h = two_params 13 2016 name 20 1 h.0.2
build-encode_fields (inquire_q_status name) h = two_params 41 2016 name 1103 1104 h.0.2
build-encode_fields (inquire_channel_status name) h = one_param 42 3501 name h.0.2
build-encode_fields (inquire_topic_status name) h = one_param 183 2094 name h.0.2
build-encode_fields (inquire_sub_status name) h = one_param 182 3152 name h.0.2
build-encode_fields (inquire_q_status_online name) h = two_params 41 2016 name 1103 1105 h.0.2
build-encode_fields (reset_q_stats name) h = one_param 17 2016 name h.0.2
build-encode_fields inquire_qmgr_status h = sym (append-nil _)
build-encode_fields inquire_cluster_qmgr h = one_param 70 2029 (codes "*") h.0.2
build-encode_fields (inquire_usage usage_type) h =
    append_integer_param-encode_field (build_pcf_cmd 126 1) 1157 usage_type

-- The header is read back, whatever follows it.
parse_header-build_pcf_cmd :
    (command count len : ℕ) (rest : Bytes)
    → command < 2 ^ 32
    → count < 2 ^ 32
    → 36 ≤ len
    → parse_header (build_pcf_cmd command count ++ rest) 0 len
      ≡ ok (record {
        type = 1;
        struc_length = 36;
        version = 1;
        command = command;
        msg_seq_number = 1;
        control = 1;
        comp_code = 0;
        reason = 0;
        parameter_count = count;
      })
unfolding build_pcf_cmd parse_header read_le32 le32_at byte_at
parse_header-build_pcf_cmd command count len rest h k l = ground arith

length-build_pcf_cmd : (command count : ℕ) → length (build_pcf_cmd command count) ≡ 36
unfolding build_pcf_cmd
length-build_pcf_cmd command count = refl

code_of-lt : (c : Command) → (code_of c < 2 ^ 32) × (length (fields_of c) < 2 ^ 32)
code_of-lt c = ground arith

length-command :
    (c : Command)
    → length (build_pcf_cmd (code_of c) (length (fields_of c)) ++ encode_fields (fields_of c))
      ≡ 36 + length (encode_fields (fields_of c))
length-command c =
    length-append (build_pcf_cmd (code_of c) (length (fields_of c))) (encode_fields (fields_of c))
    ∙ rw length-build_pcf_cmd

parse_header-build :
    (c : Command)
    → All IsField (fields_of c)
    → parse_header (build c) 0 (length (build c)) ≡ ok (header_of c)
parse_header-build c h = rw (build-encode_fields c h) (
    parse_header-build_pcf_cmd (code_of c) (length (fields_of c))
      (length (build_pcf_cmd (code_of c) (length (fields_of c)) ++ encode_fields (fields_of c)))
      (encode_fields (fields_of c)) (code_of-lt c).0 (code_of-lt c).1
      (omega (arith, length-command c)))

parse_parameters-build :
    (c : Command)
    → All IsField (fields_of c)
    → parse_parameters (build c) 36 (length (build c) - 36) ≡ ok (parameters_of (fields_of c))
parse_parameters-build c h =
    let head : Bytes = build_pcf_cmd (code_of c) (length (fields_of c)) in
    let read = parse_parameters-encode_fields head (fields_of c) h in
    rw (build-encode_fields c h, length-command c, rest_length) (rw (length-build_pcf_cmd) at read)
  where
    rest_length :
        36 + length (encode_fields (fields_of c)) - 36 ≡ length (encode_fields (fields_of c))
    rest_length = omega arith

-- `PCFParser` reads back what every builder writes: the header's nine words, the command's number
-- and a parameter count that is the number of parameters, and then exactly these parameters, in
-- order, a text without its trailing blanks and what follows a NUL. The texts are not empty and
-- are shorter than 2^31 - 24 bytes, and the usage type is an `int32_t`.
pub parse-build :
    (c : Command)
    → All IsField (fields_of c)
    → (parse_header (build c) 0 (length (build c)) ≡ ok (header_of c))
      × (parse_parameters (build c) 36 (length (build c) - 36) ≡ ok (parameters_of (fields_of c)))
parse-build c h = (parse_header-build c h, parse_parameters-build c h)
