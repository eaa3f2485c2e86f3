-- ===== src/Pcf/Message/Totality.antt =====
-- `PCFParser::parse_message` (src/pcf_parser.cpp) on every message.
use ibmmq_metrics_exporter.Base.{
  ◌-◌, ◌^◌, ◌≤◌, ◌<◌, ◌≡◌, refl, ◌⊎◌, inl, inr, Option, none, some, length, ltb, arith, Bool-cases,
  false,
}
use ibmmq_metrics_exporter.Memory.{Fault, Result, ok, err, length_error, Bytes, le32_at, read_le32}
use ibmmq_metrics_exporter.Memory.Reads.{Returns}
use ibmmq_metrics_exporter.Pcf.Parser.{PcfHeader, PcfParameterList, parse_header, parse_parameters}
use ibmmq_metrics_exporter.Pcf.Parser.Safety.{parse_parameters-Returns}
use ibmmq_metrics_exporter.Pcf.Message.{ParsedMessage, dispatch_command, parse_message}
use ibmmq_metrics_exporter.Pcf.Message.Asked.{Asked, dispatch_command-Asked}

Returns-cases {ℓ} :
    {A : Type ℓ} (r : Result A) → Returns r → ((a : A) × (r ≡ ok a)) ⊎ (r ≡ err length_error)
Returns-cases (ok a) h = inl (a, refl)
Returns-cases (err Fault.length_error) h = inr refl
Returns-cases (err Fault.out_of_bounds) h = absurd h
Returns-cases (err Fault.insufficient_data) h = absurd h
Returns-cases (err Fault.out_of_fuel) h = absurd h

-- The nine words of the header.
abbrev pub header_at : Bytes → PcfHeader
header_at d = record {
  type = le32_at d 0;
  struc_length = le32_at d 4;
  version = le32_at d 8;
  command = le32_at d 12;
  msg_seq_number = le32_at d 16;
  control = le32_at d 20;
  comp_code = le32_at d 24;
  reason = le32_at d 28;
  parameter_count = le32_at d 32;
}

parse_header-header_at :
    (d : Bytes) → 36 ≤ length d → parse_header d 0 (length d) ≡ ok (header_at d)
unfolding parse_header read_le32
parse_header-header_at d h = ground arith

-- What `parse_message` answers: nothing for a message shorter than a header, and otherwise the
-- data that the command in its fourth word asks for, or the exception of a string constructor.
pub data Answer (d msg_type : Bytes) : Result (Option ParsedMessage) → Type 0 where
  too_short : length d < 36 → Answer d msg_type (ok none)
  parsed :
      (params : PcfParameterList) (message : ParsedMessage)
      → 36 ≤ length d
      → parse_parameters d 36 (length d - 36) ≡ ok params
      → Asked params msg_type (le32_at d 12) message
      → Answer d msg_type (ok (some message))
  throws :
      36 ≤ length d
      → parse_parameters d 36 (length d - 36) ≡ err length_error
      → Answer d msg_type (err length_error)

long-Answer :
    (d msg_type : Bytes)
    → 36 ≤ length d
    → length d < 2 ^ 63
    → Answer d msg_type (parse_message d msg_type)
unfolding parse_message
long-Answer d msg_type h b =
    elim (Returns-cases (parse_parameters d 36 (length d - 36))
      (parse_parameters-Returns d 36 (length d - 36) (omega arith) b)) [
        | inl (params, e) ↦
            rw (long_test, parse_header-header_at d h, e)
              (parsed params (dispatch_command (header_at d) params msg_type) h e
                (dispatch_command-Asked (header_at d) params msg_type))
        | inr e ↦ rw (long_test, parse_header-header_at d h, e) (throws h e)
      ]
  where
    long_test : ltb (length d) 36 ≡ false
    long_test = ground arith

-- On a message of fewer than 2^63 bytes `parse_message` ends and reads no byte outside it. It
-- answers nothing exactly below 36 bytes. From there on it throws the exception of a string
-- constructor where `parse_parameters` does, and otherwise answers with what the command in the
-- fourth word asks for. The commands 164, 165 and 166 give statistics with the queue manager's name
-- and one part filled: that of the MQI, of a queue or of a channel. The commands 167 and 168 give
-- accounting with that name, the connection, the counts and the active operations on queues. Any
-- other command gives statistics with the given type and nothing else. The name is the last string
-- of the parameters 2015.
pub parse_message-Answer :
    (d msg_type : Bytes) → length d < 2 ^ 63 → Answer d msg_type (parse_message d msg_type)
unfolding parse_message
parse_message-Answer d msg_type b = elim (Bool-cases (ltb (length d) 36)) [
  | inl short ↦ rw short (too_short (ground arith))
  | inr long ↦ long-Answer d msg_type (ground arith) b
]
