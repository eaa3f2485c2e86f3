-- ===== src/Memory.antt =====
-- What the parsers share of C++'s memory: a buffer, a pointer into it, the reads of integers
-- and strings (src/pcf_parser.cpp, src/pcf_inquiry.cpp, src/resource_monitor.cpp), and the ways a
-- parse can end other than by returning.
pub mod Reads
use ibmmq_metrics_exporter.Base.{
  ℕ, ◌+◌, ◌-◌, ◌*◌, ◌^◌, ◌%◌, Bool, true, false, ◌&&◌, List, length, get_or, take, drop, ltb, leb,
  if◌then◌else◌,
}

-- `out_of_bounds` is a read outside the buffer, which is undefined behaviour in C++; `length_error`
-- is what the constructor of `std::string` throws; `insufficient_data` is the exception of
-- `parse_header`; `out_of_fuel` is no behaviour of the program.
pub data Fault : Type 0 where
  out_of_bounds length_error insufficient_data out_of_fuel : Fault

pub data Result {ℓ} (A : Type ℓ) : Type ℓ where
  ok : A → Result A
  err : Fault → Result A

infixl 5 ◌>>=◌
abbrev pub ◌>>=◌ {ℓ κ} : {A : Type ℓ} {B : Type κ} → Result A → (A → Result B) → Result B
ok a >>= f = f a
err e >>= f = err e

-- A buffer of `uint8_t`; `byte_at` reduces an element to the `uint8_t` that it stands for.
abbrev pub Bytes : Type 0
Bytes = List ℕ

unfoldable pub byte_at : Bytes → ℕ → ℕ
byte_at d i = get_or d i 0 % 256

-- The four bytes from `i` on, lowest first. The shifted bytes have no bit in common, so `|` is `+`.
unfoldable pub le32_at : Bytes → ℕ → ℕ
le32_at d i =
    byte_at d i
    + byte_at d (i + 1) * 2 ^ 8
    + byte_at d (i + 2) * 2 ^ 16
    + byte_at d (i + 3) * 2 ^ 24

unfoldable pub le64_at : Bytes → ℕ → ℕ
le64_at d i = le32_at d i + le32_at d (i + 4) * 2 ^ 32

-- An `int32_t` is its bit pattern, below 2 ^ 32; so are the wider types.
unfoldable pub read_le32 : Bytes → ℕ → Result ℕ
read_le32 d i = if leb (i + 4) (length d) then ok (le32_at d i) else err out_of_bounds

unfoldable pub read_le64 : Bytes → ℕ → Result ℕ
read_le64 d i = if leb (i + 8) (length d) then ok (le64_at d i) else err out_of_bounds

-- `std::string(pointer, n)`.
unfoldable pub read_string : Bytes → ℕ → ℕ → Result Bytes
read_string d i n =
    if leb (2 ^ 63) n
    then err length_error
    else if leb (i + n) (length d)
    then ok (take n (drop i d))
    else err out_of_bounds

-- Tests on an `int32_t`: `0 < w`, and `k ≤ w` for a constant `k` that is not negative.
abbrev pub is_pos : ℕ → Bool
is_pos w = ltb 0 w && ltb w (2 ^ 31)

abbrev pub at_least : ℕ → ℕ → Bool
at_least k w = leb k w && ltb w (2 ^ 31)

-- `static_cast<size_t>` of an `int32_t`: the sign is extended.
abbrev pub size_of_int32 : ℕ → ℕ
size_of_int32 w = if ltb w (2 ^ 31) then w else w + (2 ^ 64 - 2 ^ 32)

-- The rounds of `for (int32_t i = 0; i < w; ++i)`.
abbrev pub rounds : ℕ → ℕ
rounds w = if ltb w (2 ^ 31) then w else 0

-- `static_cast<int32_t>` of a 64-bit value.
abbrev pub int32_of_int64 : ℕ → ℕ
int32_of_int64 w = w % 2 ^ 32
