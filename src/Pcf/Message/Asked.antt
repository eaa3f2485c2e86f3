-- ===== src/Pcf/Message/Asked.antt =====
-- What `PCFParser::parse_message` (src/pcf_parser.cpp) answers for each command, field by field.
use ibmmq_metrics_exporter.Base.{
  ℕ, ◌≡◌, ◌≢◌, ◌⊎◌, inl, inr, refl, Bool-cases, false, List, [], ◌∷◌, ◌++◌, ◌==◌, ◌+◌, ◌&&◌, ◌||◌,
  not, Bool, ltb, none, some, if◌then◌else◌, codes, arith,
}
use ibmmq_metrics_exporter.Memory.{Bytes}
use ibmmq_metrics_exporter.Pcf.Parser.{
  PcfValue, string, group, PcfParameterList, nil, cons, PcfHeader,
}
use ibmmq_metrics_exporter.Pcf.Records.{QueueAppOperation}
use ibmmq_metrics_exporter.Pcf.Fold.{fold_params, collect, is_empty}
use ibmmq_metrics_exporter.Pcf.Queue.{parse_queue_stats}
use ibmmq_metrics_exporter.Pcf.Channel.{
  parse_channel_stats, parse_connection_info, parse_operation_counts,
}
use ibmmq_metrics_exporter.Pcf.Mqi.{parse_mqi_stats}
use ibmmq_metrics_exporter.Pcf.Message.{
  is_active, parse_app_operation, qmgr_name_step, find_qmgr_name, parse_accounting,
  parse_statistics, ParsedMessage, statistics_data, accounting_data, dispatch_command,
}
use ibmmq_metrics_exporter.Pcf.Message.Operations.{operations_of, parse_accounting-operations}

-- The strings of the parameters 2015, in their order.
abbrev pub names_of : PcfParameterList → List Bytes
names_of nil = []
names_of (cons id type (string s) params) = (if id == 2015 then s ∷ [] else []) ++ names_of params
names_of (cons id type _ params) = names_of params

abbrev pub last_of : Bytes → List Bytes → Bytes
last_of default [] = default
last_of default (name ∷ names) = last_of name names

-- The last name that the parameters give the queue manager, and the empty one if there is none.
abbrev pub qmgr_of : PcfParameterList → Bytes
qmgr_of params = last_of [] (names_of params)

-- Whether an operation on a queue of this name, with counts of this sum, has been used.
abbrev pub is_used : Bytes → ℕ → Bool
is_used [] total = false
is_used (c ∷ name) total = ltb 0 total

-- The operations of the groups that name a queue and have a count other than 0, in their order.
abbrev pub used_in : PcfParameterList → List QueueAppOperation
used_in nil = []
used_in (cons id type (group nested) params) =
    let qa = parse_app_operation nested in
    (if is_used qa.queue_name (qa.puts + qa.gets + qa.msgs_received + qa.msgs_sent)
      then qa ∷ []
      else [])
    ++ used_in params
used_in (cons id type _ params) = used_in params

-- What a command asks for. The three commands of statistics fill exactly one of the three parts.
pub data Asked (params : PcfParameterList) (msg_type : Bytes) : ℕ → ParsedMessage → Type 0 where
  of_mqi : Asked params msg_type 164 (
      statistics_data record {
        type = codes "statistics";
        queue_manager = qmgr_of params;
        queue_stats = none;
        channel_stats = none;
        mqi_stats = some (parse_mqi_stats params);
      })
  of_queue : Asked params msg_type 165 (
      statistics_data record {
        type = codes "statistics";
        queue_manager = qmgr_of params;
        queue_stats = some (parse_queue_stats params);
        channel_stats = none;
        mqi_stats = none;
      })
  of_channel : Asked params msg_type 166 (
      statistics_data record {
        type = codes "statistics";
        queue_manager = qmgr_of params;
        queue_stats = none;
        channel_stats = some (parse_channel_stats params);
        mqi_stats = none;
      })
  of_accounting :
      (command : ℕ)
      → (command ≡ 167) ⊎ (command ≡ 168)
      → Asked params msg_type command (
          accounting_data record {
            type = codes "accounting";
            queue_manager = qmgr_of params;
            connection_info = some (parse_connection_info params);
            operations = some (parse_operation_counts params);
            queue_operations = used_in params;
          })
  of_other :
      (command : ℕ)
      → command ≢ 164
      → command ≢ 165
      → command ≢ 166
      → command ≢ 167
      → command ≢ 168
      → Asked params msg_type command (
          statistics_data record {
            type = msg_type;
            queue_manager = [];
            queue_stats = none;
            channel_stats = none;
            mqi_stats = none;
          })

names_lem :
    (params : PcfParameterList) (name : Bytes)
    → fold_params qmgr_name_step params name ≡ last_of name (names_of params)
unfolding fold_params qmgr_name_step
names_lem nil name = refl
names_lem (cons id type (string s) params) name = elim (Bool-cases (id == 2015)) [
  | inl e ↦ rw e (names_lem params s)
  | inr e ↦ rw e (names_lem params name)
]
names_lem (cons id type PcfValue.monostate params) name = names_lem params name
names_lem (cons id type _ params) name = names_lem params name

find_qmgr_name-qmgr_of : (params : PcfParameterList) → find_qmgr_name params ≡ qmgr_of params
unfolding find_qmgr_name
find_qmgr_name-qmgr_of params = names_lem params []

is_used_lem :
    (name : Bytes) (a b c d : ℕ)
    → (not (is_empty name) && (not (a == 0) || not (b == 0) || not (c == 0) || not (d == 0)))
      ≡ is_used name (a + b + c + d)
unfolding is_empty
is_used_lem [] a b c d = refl
is_used_lem (x ∷ name) a b c d = ground arith

is_active-is_used :
    (qa : QueueAppOperation)
    → is_active qa ≡ is_used qa.queue_name (qa.puts + qa.gets + qa.msgs_received + qa.msgs_sent)
unfolding is_active
is_active-is_used qa = is_used_lem qa.queue_name qa.puts qa.gets qa.msgs_received qa.msgs_sent

collect-used_in : (params : PcfParameterList) → collect operations_of params ≡ used_in params
collect-used_in nil = refl
collect-used_in (cons id type (group nested) params) =
    rw (is_active-is_used (parse_app_operation nested), collect-used_in params)
collect-used_in (cons id type PcfValue.monostate params) = collect-used_in params
collect-used_in (cons id type _ params) = collect-used_in params

accounting_lem :
    (params : PcfParameterList)
    → parse_accounting params ≡ record {
      type = codes "accounting";
      queue_manager = qmgr_of params;
      connection_info = some (parse_connection_info params);
      operations = some (parse_operation_counts params);
      queue_operations = used_in params;
    }
unfolding parse_accounting
accounting_lem params =
    rw (
      find_qmgr_name-qmgr_of params,
      (parse_accounting-operations params).0,
      collect-used_in params,
    )

-- A number that the command is not, as a fact and as its test.
abbrev IsNot : ℕ → ℕ → Type 0
IsNot command n = (command ≢ n) × (command == n ≡ false)

command_cases :
    (command : ℕ)
    → (command ≡ 164)
      ⊎ (command ≡ 165)
      ⊎ (command ≡ 166)
      ⊎ ((command ≡ 167) ⊎ (command ≡ 168))
      ⊎ (IsNot command 164
          × IsNot command 165
          × IsNot command 166
          × IsNot command 167
          × IsNot command 168)
command_cases command = elim (Bool-cases (command == 164)) [
  | inl e ↦ inl (ground arith)
  | inr n4 ↦ elim (Bool-cases (command == 165)) [
    | inl e ↦ inr (inl (ground arith))
    | inr n5 ↦ elim (Bool-cases (command == 166)) [
      | inl e ↦ inr (inr (inl (ground arith)))
      | inr n6 ↦ elim (Bool-cases (command == 167)) [
        | inl e ↦ inr (inr (inr (inl (inl (ground arith)))))
        | inr n7 ↦ elim (Bool-cases (command == 168)) [
          | inl e ↦ inr (inr (inr (inl (inr (ground arith)))))
          | inr n8 ↦ inr (
              inr (
                inr (
                  inr (
                    (ground arith, n4),
                    (ground arith, n5),
                    (ground arith, n6),
                    (ground arith, n7),
                    (ground arith, n8),
                  ))))
        ]
      ]
    ]
  ]
]

-- The message has what the command of its header asks for.
pub dispatch_command-Asked :
    (hdr : PcfHeader) (params : PcfParameterList) (msg_type : Bytes)
    → Asked params msg_type hdr.command (dispatch_command hdr params msg_type)
unfolding dispatch_command parse_statistics
dispatch_command-Asked hdr params msg_type = elim (command_cases hdr.command) [
  | inl e ↦ rw (e, find_qmgr_name-qmgr_of params) of_mqi
  | inr (inl e) ↦ rw (e, find_qmgr_name-qmgr_of params) of_queue
  | inr (inr (inl e)) ↦ rw (e, find_qmgr_name-qmgr_of params) of_channel
  | inr (inr (inr (inl (inl e)))) ↦ rw (e, accounting_lem params) (of_accounting 167 (inl refl))
  | inr (inr (inr (inl (inr e)))) ↦ rw (e, accounting_lem params) (of_accounting 168 (inr refl))
  | inr (inr (inr (inr (n4, n5, n6, n7, n8)))) ↦
      rw (n4.1, n5.1, n6.1, n7.1, n8.1) (of_other hdr.command n4.0 n5.0 n6.0 n7.0 n8.0)
]
