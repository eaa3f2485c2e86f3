-- ===== src/Inquiry/Reader.antt =====
-- src/pcf_inquiry.cpp: the reads of a response's parameters, and the walk over them. Lengths and
-- counts are `uint32_t`, so their sums wrap at 2^32.
pub mod Bounds
pub mod Walk
use ibmmq_metrics_exporter.Base.{
  ℕ, zero, suc, ◌+◌, ◌-◌, ◌*◌, ◌/◌, ◌%◌, ◌^◌, Bool, true, false, not, ◌||◌, List, [], ◌∷◌, ◌++◌,
  length, ltb, leb, ◌==◌, if◌then◌else◌,
}
use ibmmq_metrics_exporter.Memory.{
  Result, ok, err, out_of_fuel, ◌>>=◌, Bytes, read_le32, read_le64, read_string,
}

abbrev cons_unless_padding : ℕ → Bytes → Bytes
cons_unless_padding c [] = if c == 0 || c == b' ' then [] else c ∷ []
cons_unless_padding c (x ∷ xs) = c ∷ x ∷ xs

-- `s.substr(0, s.find_last_not_of("\0 ") + 1)`, with both bytes in the set.
unfoldable pub trim_mq_string : Bytes → Bytes
trim_mq_string [] = []
trim_mq_string (c ∷ cs) = cons_unless_padding c (trim_mq_string cs)

-- `at` is `pdata`, the start of the parameter.
unfoldable pub read_pcf_string : Bytes → ℕ → ℕ → Result Bytes
read_pcf_string d at plen = if ltb plen 24 then ok [] else do
  str_len ← read_le32 d (at + 16)
  s ← read_string d (at + 20) (if ltb plen ((20 + str_len) % 2 ^ 32) then plen - 20 else str_len)
  ok (trim_mq_string s)

unfoldable pub read_pcf_int32 : Bytes → ℕ → ℕ → Result ℕ
read_pcf_int32 d at plen = if ltb plen 16 then ok 0 else read_le32 d (at + 12)

unfoldable pub read_pcf_int64 : Bytes → ℕ → ℕ → Result ℕ
read_pcf_int64 d at plen = if ltb plen 24 then ok 0 else read_le64 d (at + 16)

-- The loop of `read_pcf_int_list` from `i` on, with `k` values left.
unfoldable pub int_values : Bytes → ℕ → ℕ → ℕ → Result (List ℕ)
int_values d at zero i = ok []
int_values d at (suc k) i = do
  v ← read_le32 d (at + 16 + i * 4 % 2 ^ 32)
  values ← int_values d at k (i + 1)
  ok (v ∷ values)

unfoldable pub read_pcf_int_list : Bytes → ℕ → ℕ → Result (List ℕ)
read_pcf_int_list d at plen = if ltb plen 16 then ok [] else do
  count ← read_le32 d (at + 12)
  int_values d at (if ltb plen ((16 + count * 4 % 2 ^ 32) % 2 ^ 32) then (plen - 16) / 4 else count)
      0

-- What a visitor is called with: `ptype`, `pid`, `pdata` and `plen`, and what it has captured.
abbrev pub Visitor : Type 0 → Type 0
Visitor S = ℕ → ℕ → ℕ → ℕ → S → Result S

-- The test that ends the walk early.
abbrev pub stops : ℕ → ℕ → ℕ → Bool
stops len offset plen = plen == 0 || ltb len (offset + plen)

module _ {S : Type 0} (visit : Visitor S) (d : Bytes) (len : ℕ) where
  -- `if (offset + 12 <= len) param_id = read_int32(data + offset + 8)`.
  unfoldable pub read_param_id : ℕ → Result ℕ
  read_param_id offset = if leb (offset + 12) len then read_le32 d (offset + 8) else ok 0

  -- A round takes a byte at least, so `len` rounds are enough.
  unfoldable pub response_loop : ℕ → ℕ → S → Result S
  unfolding read_param_id
  response_loop zero offset s = err out_of_fuel
  response_loop (suc f) offset s = elim (leb (offset + 8) len) [
    | false ↦ ok s
    | true ↦ do
      ptype ← read_le32 d offset
      plen ← read_le32 d (offset + 4)
      elim (stops len offset plen) [
        | true ↦ ok s
        | false ↦ do
          pid ← read_param_id offset
          s' ← visit ptype pid offset plen s
          response_loop f (offset + plen) s'
      ]
  ]

  -- A response with a completion code is not walked; its reason is read for the log.
  unfoldable pub parse_pcf_response_params : S → Result S
  unfolding response_loop
  parse_pcf_response_params s = if ltb len 36 then ok s else do
    comp_code ← read_le32 d 24
    if not (comp_code == 0)
        then read_le32 d 28 >>= (λ reason. ok s)
        else response_loop (suc len) 36 s

-- The loop over the responses that the parsers share: a short one is skipped, and a result is kept
-- if `keep` holds of it. The list is that of the results so far.
unfoldable pub parse_responses :
    {S : Type 0} → (Bytes → Visitor S) → S → (S → Bool) → List S → List Bytes → Result (List S)
unfolding parse_pcf_response_params
parse_responses visit empty keep result [] = ok result
parse_responses visit empty keep result (resp ∷ responses) = elim (ltb (length resp) 36) [
  | true ↦ parse_responses visit empty keep result responses
  | false ↦ do
    s ← parse_pcf_response_params (visit resp) resp (length resp) empty
    parse_responses visit empty keep (if keep s then result ++ s ∷ [] else result) responses
]
