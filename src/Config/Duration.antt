-- ===== src/Config/Duration.antt =====
-- `parse_duration` (src/config.cpp).
pub mod RoundTrip
use ibmmq_metrics_exporter.Base.{
  ℕ, zero, suc, ◌+◌, ◌-◌, ◌*◌, ◌%◌, ◌^◌, Bool, true, false, not, ◌&&◌, ◌||◌, List, [], ◌∷◌, leb,
  ◌==◌, if◌then◌else◌, Option, none, some,
}
use ibmmq_metrics_exporter.Memory.{Bytes}
use ibmmq_metrics_exporter.Pcf.Fold.{is_empty}

abbrev pub is_digit : ℕ → Bool
is_digit c = leb 48 c && leb c 57

-- `isspace`, which `%d` skips first.
abbrev pub is_space : ℕ → Bool
is_space c = c == 32 || (leb 9 c && leb c 13)

abbrev pub skip_spaces : Bytes → Bytes
skip_spaces [] = []
skip_spaces (c ∷ cs) = let rest = skip_spaces cs in if is_space c then rest else c ∷ cs

-- The digits read so far are `n`; what follows the last one is handed on.
abbrev pub scan_digits : ℕ → Bytes → ℕ × Bytes
scan_digits n [] = (n, [])
scan_digits n (c ∷ cs) =
    let rest = scan_digits (n * 10 + (c - 48)) cs in if is_digit c then rest else (n, c ∷ cs)

-- A number without its sign, of one digit at least.
abbrev pub scan_unsigned : Bytes → Option (ℕ × Bytes)
scan_unsigned [] = none
scan_unsigned (c ∷ cs) = if is_digit c then some (scan_digits 0 (c ∷ cs)) else none

-- A number with its sign. One outside `int`, on which the program must not rely, wraps.
unfoldable pub scan_signed : Bytes → Option (ℕ × Bytes)
scan_signed [] = none
scan_signed (c ∷ cs) =
    if c == 45
    then elim (scan_unsigned cs) [
      | none ↦ none
      | some r ↦ some ((2 ^ 32 - r.0 % 2 ^ 32) % 2 ^ 32, r.1)
    ]
    else elim (scan_unsigned (if c == 43 then cs else c ∷ cs)) [
      | none ↦ none
      | some r ↦ some (r.0 % 2 ^ 32, r.1)
    ]

-- `%d`.
unfoldable pub scan_int : Bytes → Option (ℕ × Bytes)
unfolding scan_signed
scan_int s = scan_signed (skip_spaces s)

-- The unit is the character behind the number: minutes if it is an `m`, else seconds.
abbrev pub in_seconds : ℕ → Bytes → ℕ
in_seconds val [] = val
in_seconds val (unit ∷ rest) = if unit == 109 then val * 60 % 2 ^ 32 else val

unfoldable pub parse_duration : Bytes → ℕ → ℕ
unfolding scan_int
parse_duration s def =
    if is_empty s then def else elim (scan_int s) [ none ↦ def | some r ↦ in_seconds r.0 r.1 ]
