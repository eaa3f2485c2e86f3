-- ===== src/Monitor/Params/Safety.antt =====
-- `parse_pcf_params` (src/resource_monitor.cpp) reads inside its buffer and ends.
use ibmmq_metrics_exporter.Base.{
  ℕ, zero, suc, ◌+◌, ◌-◌, ◌^◌, ◌≤◌, ◌<◌, Bool, List, [], ◌∷◌, length, arith,
}
use ibmmq_metrics_exporter.Memory.{
  Fault, Result, ok, err, ◌>>=◌, Bytes, le32_at, read_le32, read_le64, read_string, rounds,
}
use ibmmq_metrics_exporter.Memory.Reads.{Returns, Returns-bind, read_le32-ok}
use ibmmq_metrics_exporter.Monitor.Params.{
  InnerParam, PcfParam, new_param, read_fields, group_loop, top_param, params_loop,
  parse_pcf_params, message_params, pcf_header_size,
}

read_fields-Returns :
    (d : Bytes) (p len offset n : ℕ) (param : InnerParam)
    → p + len ≤ length d
    → length d < 2 ^ 63
    → 16 ≤ n
    → offset + n ≤ len
    → Returns (read_fields d p len offset n param)
unfolding read_fields read_le32 read_le64 read_string
read_fields-Returns d p len offset n param h b l fits = ground arith

-- A loop over a range hands on an offset that is not behind the one it started at, nor past `len`.
abbrev Advances {ℓ} : {A : Type ℓ} → ℕ → ℕ → Result (A × ℕ) → Type 0
Advances start len (ok (a, end)) = (start ≤ end) × (end ≤ len)
Advances start len (err Fault.length_error) = Unit {0}
Advances start len (err e) = ⊥

-- What the rest of a round does once the parameter's length has passed its test.
round-Advances {ℓ} :
    {A : Type ℓ} (own : Result A) (rest : Result (List A × ℕ)) (offset n len : ℕ)
    → (16 ≤ n → offset + n ≤ len → Returns own)
    → (offset + n ≤ len → Advances (offset + n) len rest)
    → 16 ≤ n
    → offset + n ≤ len
    → Advances offset len (do inner ← own; (inners, end) ← rest; ok (inner ∷ inners, end))
round-Advances (ok a) (ok (xs, end)) offset n len r h l fits =
    let step = h fits in (omega arith, step.1)
round-Advances (ok a) (err Fault.length_error) offset n len r h l fits = tt
round-Advances (ok a) (err Fault.out_of_bounds) offset n len r h l fits = h fits
round-Advances (ok a) (err Fault.insufficient_data) offset n len r h l fits = h fits
round-Advances (ok a) (err Fault.out_of_fuel) offset n len r h l fits = h fits
round-Advances (err Fault.length_error) rest offset n len r h l fits = tt
round-Advances (err Fault.out_of_bounds) rest offset n len r h l fits = r l fits
round-Advances (err Fault.insufficient_data) rest offset n len r h l fits = r l fits
round-Advances (err Fault.out_of_fuel) rest offset n len r h l fits = r l fits

group_loop-Advances :
    (k : ℕ) (d : Bytes) (p len offset : ℕ)
    → p + len ≤ length d
    → length d < 2 ^ 63
    → offset ≤ len
    → Advances offset len (group_loop k d p len offset)
unfolding group_loop
group_loop-Advances zero d p len offset h b o = (omega arith, o)
group_loop-Advances (suc k) d p len offset h b o =
    let n : ℕ = le32_at d (p + offset + 4) in
    let own = new_param (le32_at d (p + offset)) (le32_at d (p + offset + 8)) in
    ground (
      arith,
      read_le32-ok d (p + offset),
      read_le32-ok d (p + offset + 4),
      read_le32-ok d (p + offset + 8),
      round-Advances (read_fields d p len offset n own) (group_loop k d p len (offset + n)) offset n
          len (λ l fits. read_fields-Returns d p len offset n own h b l fits)
          (λ fits. group_loop-Advances k d p len (offset + n) h b fits),
    )

-- Changing what a loop hands on beside the offset changes nothing.
Advances-map {ℓ κ} :
    {A : Type ℓ} {B : Type κ} (r : Result (A × ℕ)) (f : A → B) (start len : ℕ)
    → Advances start len r
    → Advances start len (do (a, end) ← r; ok (f a, end))
Advances-map (ok (a, end)) f start len h = h
Advances-map (err Fault.length_error) f start len h = tt
Advances-map (err Fault.out_of_bounds) f start len h = h
Advances-map (err Fault.insufficient_data) f start len h = h
Advances-map (err Fault.out_of_fuel) f start len h = h

fields-Advances {ℓ κ} :
    {A : Type ℓ} {B : Type κ} (own : Result A) (f : A → B) (start end len : ℕ)
    → Returns own
    → start ≤ end
    → end ≤ len
    → Advances start len (do a ← own; ok (f a, end))
fields-Advances (ok a) f start end len h l fits = (l, fits)
fields-Advances (err Fault.length_error) f start end len h l fits = tt
fields-Advances (err Fault.out_of_bounds) f start end len h l fits = h
fields-Advances (err Fault.insufficient_data) f start end len h l fits = h
fields-Advances (err Fault.out_of_fuel) f start end len h l fits = h

top_param-Advances :
    (d : Bytes) (p len offset n : ℕ) (param : InnerParam)
    → p + len ≤ length d
    → length d < 2 ^ 63
    → 16 ≤ n
    → offset + n ≤ len
    → Advances (offset + 16) len (top_param d p len offset n param)
unfolding top_param
top_param-Advances d p len offset n param h b l fits =
    let k : ℕ = rounds (le32_at d (p + offset + 12)) in
    let start : offset + 16 ≤ len = omega arith in
    ground (
      arith,
      read_le32-ok d (p + offset + 12),
      Advances-map {B = PcfParam} (group_loop k d p len (offset + 16))
          (λ inners. record { own = param; group_params = inners }) (offset + 16) len
          (group_loop-Advances k d p len (offset + 16) h b start),
      fields-Advances {B = PcfParam} (read_fields d p len offset n param)
          (λ own. record { own = own; group_params = [] }) (offset + 16) (offset + n) len
          (read_fields-Returns d p len offset n param h b l fits) (omega arith) fits,
    )

-- The rest of a round of the outer loop.
top_round-Returns :
    (top : Result (PcfParam × ℕ)) (rest : ℕ → Result (List PcfParam)) (offset len : ℕ) (C : Type 0)
    → (C → Advances (offset + 16) len top)
    → ((end : ℕ) → offset + 16 ≤ end → end ≤ len → Returns (rest end))
    → C
    → Returns (do (param, end) ← top; params ← rest end; ok (param ∷ params))
top_round-Returns (ok (param, end)) rest offset len C h k c =
    Returns-bind (rest end) (λ params. ok (param ∷ params)) (k end (h c).0 (h c).1) (λ params e. tt)
top_round-Returns (err Fault.length_error) rest offset len C h k c = tt
top_round-Returns (err Fault.out_of_bounds) rest offset len C h k c = h c
top_round-Returns (err Fault.insufficient_data) rest offset len C h k c = h c
top_round-Returns (err Fault.out_of_fuel) rest offset len C h k c = h c

params_loop-Returns :
    (f : ℕ) (d : Bytes) (p len offset : ℕ)
    → p + len ≤ length d
    → length d < 2 ^ 63
    → offset ≤ len
    → len < f + offset
    → Returns (params_loop f d p len offset)
unfolding params_loop
params_loop-Returns zero d p len offset h b o m = absurd (omega arith)
params_loop-Returns (suc f) d p len offset h b o m =
    let n : ℕ = le32_at d (p + offset + 4) in
    let own = new_param (le32_at d (p + offset)) (le32_at d (p + offset + 8)) in
    ground (
      arith,
      read_le32-ok d (p + offset),
      read_le32-ok d (p + offset + 4),
      read_le32-ok d (p + offset + 8),
      top_round-Returns (top_param d p len offset n own) (λ end. params_loop f d p len end) offset
          len ((16 ≤ n) × (offset + n ≤ len))
          (λ c. top_param-Advances d p len offset n own h b c.0 c.1)
          (λ end l e. params_loop-Returns f d p len end h b e (omega arith)),
    )

-- On a range that lies in a buffer of fewer than 2^63 bytes, the parser reads no byte outside the
-- buffer and ends: it returns a list, or `std::string` refuses a length.
pub parse_pcf_params-Returns :
    (d : Bytes) (p len : ℕ)
    → p + len ≤ length d
    → length d < 2 ^ 63
    → Returns (parse_pcf_params d p len)
unfolding parse_pcf_params
parse_pcf_params-Returns d p len h b =
    params_loop-Returns (suc len) d p len 0 h b (omega arith) (omega arith)

-- A message of a header's size is parsed from an offset that lies in it.
pub message_params-Returns :
    (whole_header : Bool) (d : Bytes)
    → 36 ≤ length d
    → length d < 2 ^ 63
    → Returns (message_params whole_header d (length d))
unfolding message_params
message_params-Returns whole_header d h b =
    let n : ℕ = le32_at d 4 in
    ground (
      arith,
      read_le32-ok d 4,
      parse_pcf_params-Returns d n (length d - n),
      parse_pcf_params-Returns d pcf_header_size (length d - pcf_header_size),
    )
