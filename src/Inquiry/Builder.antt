-- ===== src/Inquiry/Builder.antt =====
-- src/pcf_inquiry.cpp: the builders of PCF commands. The program writes integers in the platform's
-- byte order, which is the little-endian one here.
pub mod Encoding
pub mod RoundTrip
use ibmmq_metrics_exporter.Base.{
  ℕ, ◌+◌, ◌-◌, ◌/◌, ◌%◌, ◌^◌, List, [], ◌∷◌, ◌++◌, length, take, drop, replicate, codes,
}
use ibmmq_metrics_exporter.Memory.{Bytes}

abbrev pub int32_bytes : ℕ → Bytes
int32_bytes v = v % 256 ∷ v / 2 ^ 8 % 256 ∷ v / 2 ^ 16 % 256 ∷ v / 2 ^ 24 % 256 ∷ []

unfoldable pub append_int32 : Bytes → ℕ → Bytes
append_int32 buf value = buf ++ int32_bytes value

abbrev pub mqcfh_size : ℕ
mqcfh_size = 36

unfoldable pub build_pcf_cmd : ℕ → ℕ → Bytes
unfolding append_int32
build_pcf_cmd command param_count =
    let buf1 = append_int32 [] 1 in
    let buf2 = append_int32 buf1 mqcfh_size in
    let buf3 = append_int32 buf2 1 in
    let buf4 = append_int32 buf3 command in
    let buf5 = append_int32 buf4 1 in
    let buf6 = append_int32 buf5 1 in
    let buf7 = append_int32 buf6 0 in
    let buf8 = append_int32 buf7 0 in append_int32 buf8 param_count

-- `std::memcpy(&buf[pos], &value, 4)`.
unfoldable pub patch_int32 : Bytes → ℕ → ℕ → Bytes
patch_int32 buf pos value = take pos buf ++ (int32_bytes value ++ drop (pos + 4) buf)

-- The zero bytes up to the next multiple of 4, for a length that is not negative.
abbrev pub padding : ℕ → ℕ
padding str_len = (4 - str_len % 4) % 4

unfoldable pub append_string_param : Bytes → ℕ → Bytes → Bytes
unfolding append_int32 patch_int32
append_string_param buf param_id value =
    let param_start = length buf in
    let buf1 = append_int32 buf 4 in
    let len_pos = length buf1 in
    let buf2 = append_int32 buf1 0 in
    let buf3 = append_int32 buf2 param_id in
    let buf4 = append_int32 buf3 0 in
    let str_len = length value % 2 ^ 32 in
    let buf5 = append_int32 buf4 str_len in
    let buf6 = buf5 ++ value in
    let buf7 = buf6 ++ replicate (padding str_len) 0 in
    let param_len = (length buf7 - param_start) % 2 ^ 32 in patch_int32 buf7 len_pos param_len

unfoldable pub append_integer_param : Bytes → ℕ → ℕ → Bytes
unfolding append_int32
append_integer_param buf param_id value =
    let buf1 = append_int32 buf 3 in
    let buf2 = append_int32 buf1 16 in
    let buf3 = append_int32 buf2 param_id in append_int32 buf3 value

unfoldable pub build_inquire_q_cmd : Bytes → Bytes
build_inquire_q_cmd queue_name =
    append_integer_param (append_string_param (build_pcf_cmd 13 2) 2016 queue_name) 20 1

unfoldable pub build_inquire_q_status_cmd : Bytes → Bytes
build_inquire_q_status_cmd queue_name =
    append_integer_param (append_string_param (build_pcf_cmd 41 2) 2016 queue_name) 1103 1104

unfoldable pub build_inquire_channel_status_cmd : Bytes → Bytes
build_inquire_channel_status_cmd channel_pattern =
    append_string_param (build_pcf_cmd 42 1) 3501 channel_pattern

unfoldable pub build_inquire_topic_status_cmd : Bytes → Bytes
build_inquire_topic_status_cmd topic_pattern =
    append_string_param (build_pcf_cmd 183 1) 2094 topic_pattern

unfoldable pub build_inquire_sub_status_cmd : Bytes → Bytes
build_inquire_sub_status_cmd sub_pattern =
    append_string_param (build_pcf_cmd 182 1) 3152 sub_pattern

unfoldable pub build_inquire_qmgr_status_cmd : Bytes
build_inquire_qmgr_status_cmd = build_pcf_cmd 161 0

unfoldable pub build_inquire_cluster_qmgr_cmd : Bytes
build_inquire_cluster_qmgr_cmd = append_string_param (build_pcf_cmd 70 1) 2029 (codes "*")

unfoldable pub build_inquire_usage_cmd : ℕ → Bytes
build_inquire_usage_cmd usage_type = append_integer_param (build_pcf_cmd 126 1) 1157 usage_type

unfoldable pub build_inquire_q_status_online_cmd : Bytes → Bytes
build_inquire_q_status_online_cmd queue_name =
    append_integer_param (append_string_param (build_pcf_cmd 41 2) 2016 queue_name) 1103 1105

unfoldable pub build_reset_q_stats_cmd : Bytes → Bytes
build_reset_q_stats_cmd queue_name = append_string_param (build_pcf_cmd 17 1) 2016 queue_name
