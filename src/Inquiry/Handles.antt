-- ===== src/Inquiry/Handles.antt =====
-- `PCFInquiry::parse_queue_status_response` and its helpers (src/pcf_inquiry.cpp). Lengths are
-- `uint32_t`, so their sums and differences wrap at 2^32.
pub mod Bounds
use ibmmq_metrics_exporter.Base.{
  ℕ, zero, suc, ◌+◌, ◌-◌, ◌%◌, ◌^◌, Bool, true, false, not, ◌&&◌, List, [], ◌∷◌, ◌++◌, ltb, leb,
  ◌==◌, if◌then◌else◌, codes,
}
use ibmmq_metrics_exporter.Memory.{
  Result, ok, err, out_of_fuel, ◌>>=◌, Bytes, read_le32, read_string, is_pos,
}
use ibmmq_metrics_exporter.Pcf.Fold.{is_empty}
use ibmmq_metrics_exporter.Inquiry.Details.{QueueHandleDetails, empty_queue_handle_details}
use ibmmq_metrics_exporter.Inquiry.Reader.{trim_mq_string, stops}

-- `at` is `data`, at the parameter's field, and `len` is what the caller says follows.
unfoldable pub read_string_param : Bytes → ℕ → ℕ → Result Bytes
read_string_param d at len = if ltb len 12 then ok [] else do
  str_len ← read_le32 d (at + 8)
  if ltb len ((12 + str_len) % 2 ^ 32)
      then ok []
      else read_string d (at + 12) str_len >>= (λ s. ok (trim_mq_string s))

unfoldable pub read_int_param : Bytes → ℕ → ℕ → Result ℕ
read_int_param d at len = if ltb len 8 then ok 0 else read_le32 d (at + 4)

unfoldable pub set_handle_string : ℕ → Bytes → QueueHandleDetails → QueueHandleDetails
set_handle_string param_id val handle =
    if param_id == 2016
    then record handle { queue_name = val }
    else if param_id == 3501
    then record handle { channel_name = val }
    else if param_id == 3502
    then record handle { connection_name = val }
    else if param_id == 2549
    then record handle { application_tag = val }
    else if param_id == 2046
    then record handle { user_id = val }
    else handle

unfoldable pub parse_string_param : Bytes → ℕ → ℕ → QueueHandleDetails → Result QueueHandleDetails
unfolding set_handle_string
parse_string_param d at len handle = if ltb len 12 then ok handle else do
  param_id ← read_le32 d at
  str_len ← read_le32 d (at + 8)
  if ltb len ((12 + str_len) % 2 ^ 32) then ok handle else do
    s ← read_string d (at + 12) str_len
    ok (set_handle_string param_id (trim_mq_string s) handle)

unfoldable pub set_handle_integer : ℕ → ℕ → QueueHandleDetails → QueueHandleDetails
set_handle_integer param_id value handle =
    if param_id == 3002
    then record handle { process_id = value }
    else if param_id == 1411
    then (if is_pos value then record handle { input_mode = codes "INPUT" } else handle)
    else if param_id == 1412
    then (if is_pos value then record handle { output_mode = codes "OUTPUT" } else handle)
    else handle

unfoldable pub parse_integer_param : Bytes → ℕ → ℕ → QueueHandleDetails → Result QueueHandleDetails
unfolding set_handle_integer
parse_integer_param d at len handle = if ltb len 8 then ok handle else do
  param_id ← read_le32 d at
  value ← read_le32 d (at + 4)
  ok (set_handle_integer param_id value handle)

-- The variables of the loop.
pub record HandleState : Type 0 where
  pub handles : List QueueHandleDetails
  pub current : QueueHandleDetails
  pub in_group : Bool

-- `case 20`: a group begins, and the handle before it is kept if it was in a group and has a name.
unfoldable pub begin_group : HandleState → HandleState
begin_group st = record {
  handles =
      if st.in_group && not (is_empty st.current.queue_name)
      then st.handles ++ st.current ∷ []
      else st.handles;
  current = empty_queue_handle_details;
  in_group = true;
}

-- The `switch` on the type of a parameter, `offset` bytes into the response.
unfoldable pub handle_step : Bytes → ℕ → ℕ → ℕ → HandleState → Result HandleState
unfolding begin_group parse_string_param parse_integer_param
handle_step d offset param_type param_struc_len st =
    let param_data = offset + 8 in
    let param_data_len = (param_struc_len + 2 ^ 32 - 8) % 2 ^ 32 in
    if param_type == 20
    then ok (begin_group st)
    else if param_type == 4
    then parse_string_param d param_data param_data_len st.current
      >>= (λ current. ok (record st { current = current }))
    else if param_type == 3
    then parse_integer_param d param_data param_data_len st.current
      >>= (λ current. ok (record st { current = current }))
    else ok st

unfoldable pub handle_loop : ℕ → Bytes → ℕ → ℕ → HandleState → Result HandleState
handle_loop zero d len offset st = err out_of_fuel
handle_loop (suc f) d len offset st = elim (leb (offset + 8) len) [
  | false ↦ ok st
  | true ↦ do
    param_type ← read_le32 d offset
    param_struc_len ← read_le32 d (offset + 4)
    elim (stops len offset param_struc_len) [
      | true ↦ ok st
      | false ↦ do
        st' ← handle_step d offset param_type param_struc_len st
        handle_loop f d len (offset + param_struc_len) st'
    ]
]

abbrev pub start_handles : HandleState
start_handles = record { handles = []; current = empty_queue_handle_details; in_group = false }

-- The last handle is kept if it has a name.
unfoldable pub finish_handles : HandleState → List QueueHandleDetails
finish_handles st =
    if not (is_empty st.current.queue_name) then st.handles ++ st.current ∷ [] else st.handles

-- A round takes a byte at least, so `len` rounds are enough.
unfoldable pub parse_queue_status_response : Bytes → ℕ → Result (List QueueHandleDetails)
unfolding finish_handles
parse_queue_status_response d len = if ltb len 36 then ok [] else do
  comp_code ← read_le32 d 24
  if not (comp_code == 0)
      then read_le32 d 28 >>= (λ reason. ok [])
      else handle_loop (suc len) d len 36 start_handles >>= (λ st. ok (finish_handles st))
