-- ===== src/Pcf/Parser.antt =====
-- src/pcf_parser.cpp: from the bytes of a message to its header and its tree of parameters.
pub mod Safety
pub mod Clean
use ibmmq_metrics_exporter.Base.{
  ℕ, zero, suc, ◌+◌, ◌-◌, ◌%◌, ◌^◌, min, Bool, true, false, not, ◌&&◌, ◌||◌, List, [], ◌∷◌, length,
  ltb, leb, ◌==◌, if◌then◌else◌,
}
use ibmmq_metrics_exporter.Memory.{
  Fault, Result, ok, err, out_of_fuel, insufficient_data, ◌>>=◌, Bytes, read_le32, read_le64,
  read_string, is_pos, at_least, size_of_int32, rounds, int32_of_int64,
}
use ibmmq_metrics_exporter.Pcf.Constants.{
  mqcft_integer, mqcft_string, mqcft_integer_list, mqcft_string_list, mqcft_group, mqcft_integer64,
  mqcft_integer64_list,
}

-- `PCFValue` and `PCFParameterList`. A `PCFParameter` is the first three fields of `cons`: its
-- `parameter`, its `type` and its `value`.
mutual
  pub data PcfValue : Type 0 where
    monostate : PcfValue
    int32 : ℕ → PcfValue
    int64 : ℕ → PcfValue
    string : Bytes → PcfValue
    int_list : List ℕ → PcfValue
    string_list : List Bytes → PcfValue
    group : PcfParameterList → PcfValue

  pub data PcfParameterList : Type 0 where
    nil : PcfParameterList
    cons : ℕ → ℕ → PcfValue → PcfParameterList → PcfParameterList

-- `resize(find('\0'))`: what stands before the first NUL.
unfoldable pub until_nul : Bytes → Bytes
until_nul [] = []
until_nul (c ∷ cs) = if c == 0 then [] else c ∷ until_nul cs

abbrev cons_unless_blank : ℕ → Bytes → Bytes
cons_unless_blank c [] = if c == b' ' then [] else c ∷ []
cons_unless_blank c (x ∷ xs) = c ∷ x ∷ xs

-- `resize(find_last_not_of(' ') + 1)`, or `clear()` where every byte is a blank.
unfoldable pub trim_blanks : Bytes → Bytes
trim_blanks [] = []
trim_blanks (c ∷ cs) = cons_unless_blank c (trim_blanks cs)

unfoldable pub clean_string : Bytes → Bytes
unfolding until_nul trim_blanks
clean_string s = trim_blanks (until_nul s)

pub record PcfHeader : Type 0 where
  pub type : ℕ
  pub struc_length : ℕ
  pub version : ℕ
  pub command : ℕ
  pub msg_seq_number : ℕ
  pub control : ℕ
  pub comp_code : ℕ
  pub reason : ℕ
  pub parameter_count : ℕ

-- The pointer `data` is the buffer `d` and the position `p` in it.
unfoldable pub parse_header : Bytes → ℕ → ℕ → Result PcfHeader
parse_header d p len = if ltb len 36 then err insufficient_data else do
  type ← read_le32 d p
  struc_length ← read_le32 d (p + 4)
  version ← read_le32 d (p + 8)
  command ← read_le32 d (p + 12)
  msg_seq_number ← read_le32 d (p + 16)
  control ← read_le32 d (p + 20)
  comp_code ← read_le32 d (p + 24)
  reason ← read_le32 d (p + 28)
  parameter_count ← read_le32 d (p + 32)
  ok (record {
    type = type;
    struc_length = struc_length;
    version = version;
    command = command;
    msg_seq_number = msg_seq_number;
    control = control;
    comp_code = comp_code;
    reason = reason;
    parameter_count = parameter_count;
  })

-- A parameter before its fields are read: `parameter{0}` and an empty value.
abbrev pub Read : Type 0
Read = ℕ × PcfValue

abbrev pub unread : Read
unread = (0, monostate)

-- `case pcf::MQCFT_INTEGER`; `at` is `data + offset` and `n` is `struc_length`.
unfoldable pub integer_param : Bytes → ℕ → ℕ → Result Read
integer_param d at n = if not (at_least 16 n) then ok unread else do
  parameter ← read_le32 d (at + 8)
  value ← read_le32 d (at + 12)
  ok (parameter, int32 value)

unfoldable pub integer64_param : Bytes → ℕ → ℕ → Result Read
integer64_param d at n = if not (at_least 24 n) then ok unread else do
  parameter ← read_le32 d (at + 8)
  value ← read_le64 d (at + 16)
  ok (parameter, int32 (int32_of_int64 value))

-- `case pcf::MQCFT_STRING`, with its test of the length against `len + offset`.
unfoldable pub string_param : Bytes → ℕ → ℕ → ℕ → ℕ → Result Read
string_param d at len offset n = if not (at_least 20 n) then ok unread else do
  parameter ← read_le32 d (at + 8)
  str_len ← read_le32 d (at + 16)
  if not (is_pos str_len && leb (offset + 20 + str_len) (len + offset))
      then ok (parameter, monostate)
      else do
        s ← read_string d (at + 20) (min str_len (n - 20))
        ok (parameter, string (clean_string s))

-- The loop over the integers of a list; `k` rounds are left, `at` is `data + val_offset` and `end`
-- is `data + offset + struc_length`. An `int32_t` that is stored as an `int64_t` keeps its sign.
unfoldable pub int_list_loop : Bool → Bytes → ℕ → ℕ → ℕ → Result (List ℕ)
int_list_loop wide d end zero at = ok []
int_list_loop wide d end (suc k) at = elim (leb (at + 4) end) [
  | false ↦ ok []
  | true ↦ elim (wide && leb (at + 8) end) [
    | true ↦ do v ← read_le64 d at; values ← int_list_loop wide d end k (at + 8); ok (v ∷ values)
    | false ↦ do
      v ← read_le32 d at
      values ← int_list_loop wide d end k (at + 4)
      ok (size_of_int32 v ∷ values)
  ]
]

-- `case pcf::MQCFT_INTEGER_LIST` and `MQCFT_INTEGER64_LIST`; the flag tells which.
unfoldable pub int_list_param : Bool → Bytes → ℕ → ℕ → Result Read
int_list_param wide d at n = if not (at_least 16 n) then ok unread else do
  parameter ← read_le32 d (at + 8)
  count ← read_le32 d (at + 12)
  values ← int_list_loop wide d (at + n) (rounds count) (at + 16)
  ok (parameter, int_list values)

-- The loop over the strings of a list. `val_offset` and `end` count from `data`, which is at `p`;
-- `val_offset + str_len` is computed in `size_t`, so a negative length wraps.
unfoldable pub string_list_loop : Bytes → ℕ → ℕ → ℕ → ℕ → ℕ → Result (List Bytes)
string_list_loop d p end str_len zero val_offset = ok []
string_list_loop d p end str_len (suc k) val_offset =
    elim (leb ((val_offset + size_of_int32 str_len) % 2 ^ 64) end) [
      | false ↦ ok []
      | true ↦ do
        s ← read_string d (p + val_offset) (size_of_int32 str_len)
        strings ← string_list_loop d p end str_len k ((val_offset + size_of_int32 str_len) % 2 ^ 64)
        ok (clean_string s ∷ strings)
    ]

unfoldable pub string_list_param : Bytes → ℕ → ℕ → ℕ → Result Read
string_list_param d p offset n = if not (at_least 24 n) then ok unread else do
  parameter ← read_le32 d (p + offset + 8)
  count ← read_le32 d (p + offset + 16)
  str_len ← read_le32 d (p + offset + 20)
  strings ← string_list_loop d p (offset + n) str_len (rounds count) (offset + 24)
  ok (parameter, string_list strings)

-- `case pcf::MQCFT_GROUP`; `nested` is the recursive call, on a position and a length.
unfoldable pub group_param : (ℕ → ℕ → Result PcfParameterList) → Bytes → ℕ → ℕ → Result Read
group_param nested d at n = if not (at_least 16 n) then ok unread else do
  parameter ← read_le32 d (at + 8)
  inner ← nested (at + 16) (n - 16)
  ok (parameter, group inner)

unfoldable pub default_param : Bytes → ℕ → ℕ → Result Read
default_param d at n =
    if not (at_least 12 n)
    then ok unread
    else do parameter ← read_le32 d (at + 8); ok (parameter, monostate)

-- The `switch` on the type.
unfoldable pub read_param :
    (ℕ → ℕ → Result PcfParameterList) → Bytes → ℕ → ℕ → ℕ → ℕ → ℕ → Result Read
unfolding integer_param integer64_param string_param int_list_param string_list_param group_param
    default_param
read_param nested d p len offset param_type n =
    if param_type == mqcft_integer
    then integer_param d (p + offset) n
    else if param_type == mqcft_integer64
    then integer64_param d (p + offset) n
    else if param_type == mqcft_string
    then string_param d (p + offset) len offset n
    else if param_type == mqcft_integer_list
    then int_list_param false d (p + offset) n
    else if param_type == mqcft_integer64_list
    then int_list_param true d (p + offset) n
    else if param_type == mqcft_string_list
    then string_list_param d p offset n
    else if param_type == mqcft_group
    then group_param nested d (p + offset) n
    else default_param d (p + offset) n

-- The test that ends the loop early: `struc_length` is not positive, or passes the end.
abbrev pub breaks : ℕ → ℕ → ℕ → Bool
breaks len offset n = not (is_pos n) || ltb (len - offset) n

-- The loop of `parse_parameters` from `offset` on. A round takes a byte at least, and a group's
-- contents are shorter than the group, so `len` rounds and levels are enough.
unfoldable pub parameters_loop : ℕ → Bytes → ℕ → ℕ → ℕ → Result PcfParameterList
parameters_loop zero d p len offset = err out_of_fuel
parameters_loop (suc f) d p len offset = elim (leb (offset + 8) len) [
  | false ↦ ok nil
  | true ↦ do
    param_type ← read_le32 d (p + offset)
    n ← read_le32 d (p + offset + 4)
    elim (breaks len offset n) [
      | true ↦ ok nil
      | false ↦ do
        (parameter, value) ←
            read_param (λ q l. parameters_loop f d q l 0) d p len offset param_type n
        params ← parameters_loop f d p len (offset + n)
        ok (cons parameter param_type value params)
    ]
]

unfoldable pub parse_parameters : Bytes → ℕ → ℕ → Result PcfParameterList
unfolding parameters_loop read_param
parse_parameters d p len = parameters_loop (suc len) d p len 0
