-- ===== src/Monitor/Params.antt =====
-- `ResourceMonitor::parse_pcf_params` (src/resource_monitor.cpp).
pub mod Safety
use ibmmq_metrics_exporter.Base.{
  ℕ, zero, suc, ◌+◌, ◌-◌, ◌^◌, Bool, true, false, not, ◌&&◌, ◌||◌, List, [], ◌∷◌, ltb, leb, ◌==◌,
  if◌then◌else◌,
}
use ibmmq_metrics_exporter.Memory.{
  Result, ok, err, out_of_fuel, ◌>>=◌, Bytes, read_le32, read_le64, read_string, is_pos, at_least,
  size_of_int32, rounds, int32_of_int64,
}
use ibmmq_metrics_exporter.Pcf.Parser.{trim_blanks}

abbrev pub pcf_integer : ℕ
pcf_integer = 3

abbrev pub pcf_string : ℕ
pcf_string = 4

abbrev pub pcf_group : ℕ
pcf_group = 20

abbrev pub pcf_integer64 : ℕ
pcf_integer64 = 23

abbrev pub pcf_header_size : ℕ
pcf_header_size = 36

-- A parameter inside a group. It is a `PCFParam` whose `group_params` stay empty.
pub record InnerParam : Type 0 where
  pub type : ℕ
  pub param_id : ℕ
  pub int_value : ℕ
  pub int64_value : ℕ
  pub str_value : Bytes

-- A `PCFParam` of the top level: its own fields and its group.
pub record PcfParam : Type 0 where
  pub own : InnerParam
  pub group_params : List InnerParam

abbrev pub new_param : ℕ → ℕ → InnerParam
new_param type param_id = record {
  type = type;
  param_id = param_id;
  int_value = 0;
  int64_value = 0;
  str_value = [];
}

-- An integer, with the sign extended into the wider field. `at` is `data + offset`.
unfoldable pub read_integer : Bytes → ℕ → InnerParam → Result InnerParam
read_integer d at p = do
  v ← read_le32 d (at + 12)
  ok (record p { int_value = v; int64_value = size_of_int32 v })

-- A text. Only blanks are trimmed: the literal `" \0"` ends at its NUL.
unfoldable pub read_text : Bytes → ℕ → ℕ → ℕ → ℕ → InnerParam → Result InnerParam
unfolding trim_blanks
read_text d at len offset n p = if not (at_least 20 n) then ok p else do
  str_len ← read_le32 d (at + 16)
  if not (is_pos str_len && leb (offset + 20 + str_len) len)
      then ok p
      else do s ← read_string d (at + 20) str_len; ok (record p { str_value = trim_blanks s })

unfoldable pub read_integer64 : Bytes → ℕ → ℕ → InnerParam → Result InnerParam
read_integer64 d at n p = if not (at_least 24 n) then ok p else do
  v ← read_le64 d (at + 16)
  ok (record p { int64_value = v; int_value = int32_of_int64 v })

-- The fields of a parameter that is no group. The program's test for 16 bytes at an integer of the
-- top level has been made before, for every parameter.
unfoldable pub read_fields : Bytes → ℕ → ℕ → ℕ → ℕ → InnerParam → Result InnerParam
unfolding read_integer read_text read_integer64
read_fields d p len offset n param =
    if param.type == pcf_integer
    then read_integer d (p + offset) param
    else if param.type == pcf_string
    then read_text d (p + offset) len offset n param
    else if param.type == pcf_integer64
    then read_integer64 d (p + offset) n param
    else ok param

-- The test that ends both loops: the length is below 16, or passes the end.
abbrev pub is_cut : ℕ → ℕ → ℕ → Bool
is_cut len offset n = not (at_least 16 n) || ltb len (offset + n)

-- The loop over a group's parameters, with `k` rounds left; it hands the offset behind them on.
unfoldable pub group_loop : ℕ → Bytes → ℕ → ℕ → ℕ → Result (List InnerParam × ℕ)
group_loop zero d p len offset = ok ([], offset)
group_loop (suc k) d p len offset = elim (leb (offset + 16) len) [
  | false ↦ ok ([], offset)
  | true ↦ do
    inner_type ← read_le32 d (p + offset)
    inner_len ← read_le32 d (p + offset + 4)
    inner_param ← read_le32 d (p + offset + 8)
    elim (is_cut len offset inner_len) [
      | true ↦ ok ([], offset)
      | false ↦ do
        inner ← read_fields d p len offset inner_len (new_param inner_type inner_param)
        (inners, end) ← group_loop k d p len (offset + inner_len)
        ok (inner ∷ inners, end)
    ]
]

-- A parameter of the top level and the offset behind it: a group's parameters follow its header of
-- 16 bytes in the stream, whatever its length says.
unfoldable pub top_param : Bytes → ℕ → ℕ → ℕ → ℕ → InnerParam → Result (PcfParam × ℕ)
unfolding group_loop
top_param d p len offset n param =
    if param.type == pcf_group
    then (do
      group_count ← read_le32 d (p + offset + 12)
      (inners, end) ← group_loop (rounds group_count) d p len (offset + 16)
      ok (record { own = param; group_params = inners }, end))
    else do
      own ← read_fields d p len offset n param
      ok (record { own = own; group_params = [] }, offset + n)

-- A round takes 16 bytes at least, so `len` rounds are enough.
unfoldable pub params_loop : ℕ → Bytes → ℕ → ℕ → ℕ → Result (List PcfParam)
params_loop zero d p len offset = err out_of_fuel
params_loop (suc f) d p len offset = elim (leb (offset + 16) len) [
  | false ↦ ok []
  | true ↦ do
    type ← read_le32 d (p + offset)
    struc_len ← read_le32 d (p + offset + 4)
    param_id ← read_le32 d (p + offset + 8)
    elim (is_cut len offset struc_len) [
      | true ↦ ok []
      | false ↦ do
        (param, end) ← top_param d p len offset struc_len (new_param type param_id)
        params ← params_loop f d p len end
        ok (param ∷ params)
    ]
]

unfoldable pub parse_pcf_params : Bytes → ℕ → ℕ → Result (List PcfParam)
unfolding params_loop top_param group_loop read_fields
parse_pcf_params d p len = params_loop (suc len) d p len 0

-- The parameters of a message: its header says where they start, if what it says is possible.
unfoldable pub message_params : Bool → Bytes → ℕ → Result (List PcfParam)
message_params whole_header d size = do
  cfh_struc_length ← read_le32 d 4
  let least : ℕ = if whole_header then 36 else 1
  let start : ℕ =
      if at_least least cfh_struc_length && leb cfh_struc_length size
      then cfh_struc_length
      else pcf_header_size
  parse_pcf_params d start (size - start)
