-- ===== src/Pcf/Parser/Safety.antt =====
-- `parse_parameters` (src/pcf_parser.cpp) reads inside its buffer and ends.
use ibmmq_metrics_exporter.Base.{
  ℕ, zero, suc, ◌+◌, ◌-◌, ◌%◌, ◌^◌, ◌≤◌, ◌<◌, ◌≡◌, min, Bool, true, false, length, arith,
}
use ibmmq_metrics_exporter.Memory.{
  Result, ok, ◌>>=◌, Bytes, le32_at, read_le32, read_le64, read_string, at_least, size_of_int32,
  rounds,
}
use ibmmq_metrics_exporter.Memory.Reads.{Returns, Returns-bind, read_le32-ok, read_le64-ok}
use ibmmq_metrics_exporter.Pcf.Parser.{
  PcfParameterList, cons, integer_param, integer64_param, string_param, int_list_loop,
  int_list_param, string_list_loop, string_list_param, group_param, default_param, read_param,
  parameters_loop, parse_parameters,
}

read_string-Returns : (d : Bytes) (i n : ℕ) → i + n ≤ length d → Returns (read_string d i n)
unfolding read_string
read_string-Returns d i n h = ground arith

integer_param-Returns : (d : Bytes) (at n : ℕ) → at + n ≤ length d → Returns (integer_param d at n)
unfolding integer_param read_le32
integer_param-Returns d at n h = ground arith

integer64_param-Returns :
    (d : Bytes) (at n : ℕ) → at + n ≤ length d → Returns (integer64_param d at n)
unfolding integer64_param read_le32 read_le64
integer64_param-Returns d at n h = ground arith

default_param-Returns : (d : Bytes) (at n : ℕ) → at + n ≤ length d → Returns (default_param d at n)
unfolding default_param read_le32
default_param-Returns d at n h = ground arith

string_param-Returns :
    (d : Bytes) (at len offset n : ℕ) → at + n ≤ length d → Returns (string_param d at len offset n)
unfolding string_param read_le32
string_param-Returns d at len offset n h =
    ground (arith, read_string-Returns d (at + 20) (min (le32_at d (at + 16)) (n - 20)))

int_list_loop-Returns :
    (wide : Bool) (d : Bytes) (end k at : ℕ)
    → end ≤ length d
    → Returns (int_list_loop wide d end k at)
unfolding int_list_loop
int_list_loop-Returns wide d end zero at h = tt
int_list_loop-Returns wide d end (suc k) at h = ground (
  arith,
  read_le32-ok d at,
  read_le64-ok d at,
  int_list_loop-Returns wide d end k (at + 8),
  int_list_loop-Returns wide d end k (at + 4),
)

int_list_param-Returns :
    (wide : Bool) (d : Bytes) (at n : ℕ) → at + n ≤ length d → Returns (int_list_param wide d at n)
unfolding int_list_param read_le32
int_list_param-Returns wide d at n h =
    ground (arith, int_list_loop-Returns wide d (at + n) (rounds (le32_at d (at + 12))) (at + 16))

-- A negative length is refused by `std::string`; any other stays before `end`.
string_read-Returns :
    (d : Bytes) (p end str_len val_offset : ℕ)
    → p + end ≤ length d
    → length d < 2 ^ 63
    → val_offset ≤ end
    → (val_offset + size_of_int32 str_len) % 2 ^ 64 ≤ end
    → Returns (read_string d (p + val_offset) (size_of_int32 str_len))
unfolding read_string
string_read-Returns d p end str_len val_offset h b v t = ground arith

string_list_loop-Returns :
    (d : Bytes) (p end str_len k val_offset : ℕ)
    → p + end ≤ length d
    → length d < 2 ^ 63
    → val_offset ≤ end
    → Returns (string_list_loop d p end str_len k val_offset)
unfolding string_list_loop
string_list_loop-Returns d p end str_len zero val_offset h b v = tt
string_list_loop-Returns d p end str_len (suc k) val_offset h b v = ground (
  arith,
  string_read-Returns d p end str_len val_offset,
  string_list_loop-Returns d p end str_len k ((val_offset + size_of_int32 str_len) % 2 ^ 64),
)

string_list_param-Returns :
    (d : Bytes) (p offset n : ℕ)
    → p + (offset + n) ≤ length d
    → length d < 2 ^ 63
    → Returns (string_list_param d p offset n)
unfolding string_list_param read_le32
string_list_param-Returns d p offset n h b = ground (
  arith,
  string_list_loop-Returns d p (offset + n) (le32_at d (p + offset + 20))
      (rounds (le32_at d (p + offset + 16))) (offset + 24),
)

group_param-Returns :
    (nested : ℕ → ℕ → Result PcfParameterList) (d : Bytes) (at n : ℕ)
    → at + n ≤ length d
    → (at_least 16 n ≡ true → Returns (nested (at + 16) (n - 16)))
    → Returns (group_param nested d at n)
unfolding group_param read_le32
group_param-Returns nested d at n h r = ground arith

-- The recursive call, on a group that lies in the `room` bytes that are left.
abbrev NestedReturns : (ℕ → ℕ → Result PcfParameterList) → Bytes → ℕ → Type 0
NestedReturns nested d room = (q l : ℕ) → l < room → q + l ≤ length d → Returns (nested q l)

read_param-Returns :
    (nested : ℕ → ℕ → Result PcfParameterList) (d : Bytes) (p len offset param_type n : ℕ)
    → p + (offset + n) ≤ length d
    → length d < 2 ^ 63
    → offset + n ≤ len
    → NestedReturns nested d (len - offset)
    → Returns (read_param nested d p len offset param_type n)
unfolding read_param
read_param-Returns nested d p len offset param_type n h b l r = ground (
  arith,
  integer_param-Returns d (p + offset) n,
  integer64_param-Returns d (p + offset) n,
  string_param-Returns d (p + offset) len offset n,
  int_list_param-Returns false d (p + offset) n,
  int_list_param-Returns true d (p + offset) n,
  string_list_param-Returns d p offset n,
  group_param-Returns nested d (p + offset) n (omega arith)
      (λ t. r (p + offset + 16) (n - 16) (ground arith) (ground arith)),
  default_param-Returns d (p + offset) n,
)

-- What the rest of a round does once the parameter's length has passed its test.
round-Returns :
    (nested : ℕ → ℕ → Result PcfParameterList) (rest : Result PcfParameterList) (d : Bytes)
    (p len offset param_type n : ℕ)
    → p + len ≤ length d
    → length d < 2 ^ 63
    → NestedReturns nested d (len - offset)
    → offset + n ≤ len
    → Returns rest
    → Returns (do
      (parameter, value) ← read_param nested d p len offset param_type n
      params ← rest
      ok (cons parameter param_type value params))
round-Returns nested rest d p len offset param_type n h b r l k =
    Returns-bind (read_param nested d p len offset param_type n) _
      (read_param-Returns nested d p len offset param_type n (omega arith) b l r)
      (λ x e. Returns-bind rest _ k (λ params e'. tt))

parameters_loop-Returns :
    (f : ℕ) (d : Bytes) (p len offset : ℕ)
    → p + len ≤ length d
    → length d < 2 ^ 63
    → len < f + offset
    → offset ≤ len
    → Returns (parameters_loop f d p len offset)
unfolding parameters_loop
parameters_loop-Returns zero d p len offset h b m o = absurd (omega arith)
parameters_loop-Returns (suc f) d p len offset h b m o = ground (
  arith,
  read_le32-ok d (p + offset),
  read_le32-ok d (p + offset + 4),
  round-Returns (λ q l. parameters_loop f d q l 0)
      (parameters_loop f d p len (offset + le32_at d (p + offset + 4))) d p len offset
      (le32_at d (p + offset)) (le32_at d (p + offset + 4)) h b
      (λ q l u v. parameters_loop-Returns f d q l 0 v b (omega arith) (omega arith)),
  parameters_loop-Returns f d p len (offset + le32_at d (p + offset + 4)),
)

-- On a range that lies in a buffer, `parse_parameters` reads no byte outside the buffer and ends:
-- it returns a list, or throws the `std::length_error` of a string constructor.
pub parse_parameters-Returns :
    (d : Bytes) (p len : ℕ)
    → p + len ≤ length d
    → length d < 2 ^ 63
    → Returns (parse_parameters d p len)
unfolding parse_parameters
parse_parameters-Returns d p len h b =
    parameters_loop-Returns (suc len) d p len 0 h b (omega arith) (omega arith)
