-- ===== src/Pcf/Constants.antt =====
-- The constants of `namespace pcf` (include/ibmmq_exporter/pcf_parser.h).
use ibmmq_metrics_exporter.Base.{ℕ}

abbrev pub mqcft_none : ℕ
mqcft_none = 0

abbrev pub mqcft_command : ℕ
mqcft_command = 1

abbrev pub mqcft_response : ℕ
mqcft_response = 2

abbrev pub mqcft_integer : ℕ
mqcft_integer = 3

abbrev pub mqcft_string : ℕ
mqcft_string = 4

abbrev pub mqcft_integer_list : ℕ
mqcft_integer_list = 5

abbrev pub mqcft_string_list : ℕ
mqcft_string_list = 6

abbrev pub mqcft_group : ℕ
mqcft_group = 20

abbrev pub mqcft_statistics : ℕ
mqcft_statistics = 21

abbrev pub mqcft_accounting : ℕ
mqcft_accounting = 22

abbrev pub mqcft_integer64 : ℕ
mqcft_integer64 = 23

abbrev pub mqcft_integer64_list : ℕ
mqcft_integer64_list = 25

abbrev pub mqcft_command_xr : ℕ
mqcft_command_xr = 16

abbrev pub cmd_inquire_q_mgr_status : ℕ
cmd_inquire_q_mgr_status = 161

abbrev pub cmd_statistics_mqi : ℕ
cmd_statistics_mqi = 164

abbrev pub cmd_statistics_q : ℕ
cmd_statistics_q = 165

abbrev pub cmd_statistics_channel : ℕ
cmd_statistics_channel = 166

abbrev pub cmd_accounting_mqi : ℕ
cmd_accounting_mqi = 167

abbrev pub cmd_accounting_q : ℕ
cmd_accounting_q = 168

abbrev pub mqca_q_name : ℕ
mqca_q_name = 2016

abbrev pub mqca_q_mgr_name : ℕ
mqca_q_mgr_name = 2015

abbrev pub mqca_channel_name : ℕ
mqca_channel_name = 3501

abbrev pub mqca_connection_name : ℕ
mqca_connection_name = 3502

abbrev pub mqca_appl_name : ℕ
mqca_appl_name = 2024

abbrev pub mqia_current_q_depth : ℕ
mqia_current_q_depth = 3

abbrev pub mqia_open_input_count : ℕ
mqia_open_input_count = 17

abbrev pub mqia_open_output_count : ℕ
mqia_open_output_count = 18

abbrev pub mqia_high_q_depth : ℕ
mqia_high_q_depth = 36

abbrev pub mqia_msg_deq_count : ℕ
mqia_msg_deq_count = 38

abbrev pub mqia_msg_enq_count : ℕ
mqia_msg_enq_count = 37

abbrev pub mqiach_msgs : ℕ
mqiach_msgs = 1534

abbrev pub mqiach_bytes : ℕ
mqiach_bytes = 1535

abbrev pub mqiach_batches : ℕ
mqiach_batches = 1537

abbrev pub mqiamo_opens : ℕ
mqiamo_opens = 733

abbrev pub mqiamo_closes : ℕ
mqiamo_closes = 709

abbrev pub mqiamo_puts : ℕ
mqiamo_puts = 735

abbrev pub mqiamo_gets : ℕ
mqiamo_gets = 722

abbrev pub mqiamo_commits : ℕ
mqiamo_commits = 710

abbrev pub mqiamo_backouts : ℕ
mqiamo_backouts = 704

abbrev pub mqiamo_browses : ℕ
mqiamo_browses = 705

abbrev pub mqiamo_inqs : ℕ
mqiamo_inqs = 727

abbrev pub mqiamo_sets : ℕ
mqiamo_sets = 744

abbrev pub mqiamo_disc_close_timeout : ℕ
mqiamo_disc_close_timeout = 765

abbrev pub mqiamo_disc_reset_timeout : ℕ
mqiamo_disc_reset_timeout = 766

abbrev pub mqiamo_fails : ℕ
mqiamo_fails = 767

abbrev pub mqiamo_incomplete_msg : ℕ
mqiamo_incomplete_msg = 769

abbrev pub mqiamo_wait_interval : ℕ
mqiamo_wait_interval = 770

abbrev pub mqiamo_syncpoint_heuristic : ℕ
mqiamo_syncpoint_heuristic = 771

abbrev pub mqiamo_heaps : ℕ
mqiamo_heaps = 772

abbrev pub mqiamo_logical_connections : ℕ
mqiamo_logical_connections = 773

abbrev pub mqiamo_physical_connections : ℕ
mqiamo_physical_connections = 774

abbrev pub mqiamo_current_conns : ℕ
mqiamo_current_conns = 775

abbrev pub mqiamo_persistent_msgs : ℕ
mqiamo_persistent_msgs = 776

abbrev pub mqiamo_non_persistent_msgs : ℕ
mqiamo_non_persistent_msgs = 777

abbrev pub mqiamo_long_msgs : ℕ
mqiamo_long_msgs = 778

abbrev pub mqiamo_short_msgs : ℕ
mqiamo_short_msgs = 779

abbrev pub mqiamo_queue_time : ℕ
mqiamo_queue_time = 781

abbrev pub mqiamo_queue_time_max : ℕ
mqiamo_queue_time_max = 783

abbrev pub mqiamo_elapsed_time : ℕ
mqiamo_elapsed_time = 784

abbrev pub mqiamo_elapsed_time_max : ℕ
mqiamo_elapsed_time_max = 785

abbrev pub mqiamo_conn_time : ℕ
mqiamo_conn_time = 786

abbrev pub mqiamo_conn_time_max : ℕ
mqiamo_conn_time_max = 787

abbrev pub mqiamo_stamp_enabled : ℕ
mqiamo_stamp_enabled = 788

abbrev pub mqiamo_msgs_rcvd : ℕ
mqiamo_msgs_rcvd = 817

abbrev pub mqiamo_msgs_sent : ℕ
mqiamo_msgs_sent = 790

abbrev pub mqiamo_msg_bytes_rcvd : ℕ
mqiamo_msg_bytes_rcvd = 818

abbrev pub mqiamo_bytes_sent : ℕ
mqiamo_bytes_sent = 791

abbrev pub mqiach_channel_status : ℕ
mqiach_channel_status = 1527

abbrev pub mqiach_channel_type : ℕ
mqiach_channel_type = 1511

abbrev pub mqiamo_full_batches : ℕ
mqiamo_full_batches = 720

abbrev pub mqiamo_incomplete_batches : ℕ
mqiamo_incomplete_batches = 726

abbrev pub mqcacf_appl_name : ℕ
mqcacf_appl_name = 3024

abbrev pub mqcacf_appl_tag : ℕ
mqcacf_appl_tag = 3058

abbrev pub mqcacf_user_identifier : ℕ
mqcacf_user_identifier = 3025

abbrev pub mqcach_connection_name : ℕ
mqcach_connection_name = 3506

abbrev pub mqiacf_process_id : ℕ
mqiacf_process_id = 1024

abbrev pub mqcacf_command_time : ℕ
mqcacf_command_time = 3603
