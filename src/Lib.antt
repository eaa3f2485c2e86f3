-- ===== src/Lib.antt =====
-- A verification library for the IBM MQ metrics exporter, a C++ program that reads statistics and
-- status messages of a queue manager and exposes them as Prometheus metrics.
--
-- The program's parts. `src/collector.cpp` connects, sets up and runs collection cycles;
-- `src/metrics_collector.cpp` runs one cycle; `src/mqclient.cpp` makes the calls of the MQ
-- library; `src/pcf_parser.cpp` parses the statistics and accounting messages that the client
-- gets; `src/pcf_inquiry.cpp` builds the commands that the client sends and parses their
-- responses; `src/resource_monitor.cpp` discovers and reads the publications of `$SYS` topics;
-- `src/config.cpp` loads the configuration.
--
-- What is modelled, and where.
--   Base: the library's names, Boolean tests, lists over native numbers, text literals.
--   Memory: a buffer, the reads of integers and strings, the faults. Memory/Reads has their laws.
--   Pcf: `src/pcf_parser.cpp`. Constants and Records are `include/ibmmq_exporter/pcf_parser.h`;
--     Parser is `clean_string`, `parse_header` and `parse_parameters`; Fold is the loop over
--     parameters; Mqi, Queue and Channel are `parse_mqi_stats`, `parse_queue_stats`,
--     `parse_channel_stats`, `parse_connection_info` and `parse_operation_counts`; Message is
--     `parse_statistics`, `parse_accounting` and `parse_message`. Their children hold proofs.
--   Inquiry: `src/pcf_inquiry.cpp`. Builder is the builders, Commands their round trip; Reader is
--     the reads of a parameter and `parse_pcf_response_params`; Details is the records of
--     `include/ibmmq_exporter/pcf_inquiry.h`; ChannelStatus, TopicStatus, SubStatus, QmgrStatus,
--     ClusterQmgr, UsageBp, UsagePs and QueueOnline are one parser each; Handles is
--     `parse_queue_status_response`.
--   Monitor: `src/resource_monitor.cpp`. Params is `parse_pcf_params`; Names is
--     `description_to_metric_name`, `extract_object_name` and `normalize_value`; Records is
--     `include/ibmmq_exporter/resource_monitor.h`; Discovery is `discover` and its helpers,
--     Subscriptions `create_subscriptions` and `close`, Publications `process_publications`. The
--     client's calls are parameters of these functions, which pass on what the queue manager is.
--   Client: `src/mqclient.cpp`. The calls of the MQ library are the record of Mqi, which pass the
--     world on; State is the members of `MQClient`, and a method as a function of them and the world
--     that returns, throws or has read outside a buffer; Ends and Finishes say how a method ends.
--     Buffers is the copies out of a buffer, Connection is `connect`, `disconnect` and the opening
--     and closing of queues, Messages `get_message` and `get_all_messages`, Topics the subscriptions,
--     Commands `send_pcf_command` and the inquiries that are sent by it, Inquiries `get_queue_info`.
--     Exclusion is `matches_hlq_pattern` and `queue_matches_exclusion`, Queues is `discover_queues`
--     on responses, Headers is `strip_mqrfh2`. Handles has the laws of the library's calls on
--     handles, and what the members answer for; Messages/Delivery has those of MQGET on a queue.
--   Config: `src/config.cpp`. Records is `include/ibmmq_exporter/config.h` and `default_config`,
--     Connection the members of `MQConfig`, Duration `parse_duration`, Sections the reading of the
--     file, Load the rest of `load_config`, Validate `Config::validate`. yaml-cpp is a record of
--     its calls, each of which may throw.
--   Collector: `src/collector.cpp`. The calls of the client, the metrics collector, the resource
--     monitor, the server, the clock and the sleeps are a record of functions that pass the world
--     on; whether another thread has called `stop` is asked where `running_` is read. Start is
--     `Collector::start`.
--   Metrics: `src/metrics_collector.cpp`. The file itself is `get_queues_to_monitor`; Labels is
--     `add_meta_labels`, Families `init_metrics`, Registry the calls of a prometheus-cpp registry and
--     their laws, Cycle the state of a cycle and the calls of the other parts, Mqi the gauges of MQI
--     calls, Messages `process_statistics_message` and `process_accounting_message`, Status and Qmgr
--     what is collected by commands, Collect the publications and `collect_metrics`. Selection
--     and the children of the others hold proofs.
--   Command: `src/main.cpp`, behind the parse of the arguments. What a collector does from its
--     construction to its end is a parameter.
--   Tests: runs on concrete messages, and the theorems at concrete inputs.
--
-- How the model corresponds to the code. A pointer is a buffer and a position in it, a read outside
-- the buffer is the fault `out_of_bounds`, and so a theorem that the fault does not arise is one of
-- memory safety. Integers are bit patterns: an `int32_t` is a number below 2^32. Sums and
-- differences in `uint32_t` wrap; `size_t` sums of offsets are bounded by the size of a buffer, which
-- is below 2^63, and are written out where an operand can be a converted negative number. Signed
-- overflow, which C++ leaves undefined, wraps. The platform's byte order is little-endian. Records
-- and parameters keep the names of the source. A member function takes the fields that it uses, and
-- log lines have no model; nor has the memory that a container takes.
--
-- Bounds and fuel. A walk over parameters recurs on fuel, one more than the length of its range. A
-- round takes a byte at least, and a nested group is shorter than its range, so the fuel suffices:
-- the fault `out_of_fuel` is excluded by the same theorems as `out_of_bounds`. The collector's loops
-- may run for ever: they recur on a number of rounds, and answer nothing where they still run.
-- `get_all_messages` takes messages until there are none; it recurs on fuel, and more fuel than there
-- are messages is enough. The bounds of the other loops over MQGET, 1000 replies and as many messages
-- as the caller says, are those of the source.
--
-- Not modelled: the MQ library and prometheus-cpp themselves, which are parameters, with the laws
-- that a theorem uses of them as hypotheses; prometheus-cpp is taken to accept every name and label.
-- A double is kept as what it is made of, a time as its seconds; `std::get_time` with `std::mktime`,
-- the clock and the version that the build writes are parameters. `Config::to_string` only prints,
-- and `reset_metrics` only logs; the HTTP server only calls a
-- library, and so do the parse of the arguments and the set-up of the logger.
pub mod Base
pub mod Memory
pub mod Pcf
pub mod Inquiry
pub mod Monitor
pub mod Client
pub mod Config
pub mod Collector
pub mod Metrics
pub mod Command
mod Tests
