-- ===== src/Monitor/Names.antt =====
-- The names a publication's metrics have: `ResourceMonitor::description_to_metric_name` and
-- `extract_object_name` (src/resource_monitor.cpp).
pub mod Shape
pub mod Letters
use ibmmq_metrics_exporter.Base.{
  ℕ, zero, suc, ◌+◌, ◌-◌, Bool, true, false, not, ◌&&◌, ◌||◌, List, [], ◌∷◌, ◌++◌, length, take,
  ltb, leb, ◌==◌, if◌then◌else◌, codes, is_same, Option, none, some,
}
use ibmmq_metrics_exporter.Memory.{Bytes}
use ibmmq_metrics_exporter.Pcf.Fold.{is_empty}

-- ' ', '-', '/', '(' and ')'.
unfoldable pub is_separator : ℕ → Bool
is_separator c = c == 32 || c == 45 || c == 47 || c == 40 || c == 41

-- `std::isalnum` and `std::tolower` in the "C" locale, which the program never changes.
unfoldable pub is_alnum : ℕ → Bool
is_alnum c = (leb 48 c && leb c 57) || (leb 65 c && leb c 90) || (leb 97 c && leb c 122)

unfoldable pub to_lower : ℕ → ℕ
to_lower c = if leb 65 c && leb c 90 then c + 32 else c

abbrev pub underscore : ℕ
underscore = 95

-- `back()`, with what stands before the text where it is empty.
abbrev pub last_or : ℕ → Bytes → ℕ
last_or before [] = before
last_or before (c ∷ cs) = last_or c cs

-- `pop_back()`.
abbrev pub pop_back : Bytes → Bytes
pop_back [] = []
pop_back (c ∷ []) = []
pop_back (c ∷ d ∷ cs) = c ∷ pop_back (d ∷ cs)

-- The loop over the description, with the variables `result` and `prev_underscore`.
unfoldable pub metric_name_loop : Bytes → Bytes → Bool → Bytes
unfolding is_empty
metric_name_loop [] result prev_underscore = result
metric_name_loop (c ∷ desc) result prev_underscore = elim (is_separator c) [
  | true ↦ elim (not (is_empty result) && not prev_underscore) [
    | true ↦ metric_name_loop desc (result ++ underscore ∷ []) true
    | false ↦ metric_name_loop desc result prev_underscore
  ]
  | false ↦ elim (is_alnum c) [
    | true ↦ metric_name_loop desc (result ++ to_lower c ∷ []) false
    | false ↦ metric_name_loop desc result prev_underscore
  ]
]

unfoldable pub trim_underscore : Bytes → Bytes
unfolding is_empty
trim_underscore result =
    if not (is_empty result) && last_or 0 result == underscore then pop_back result else result

unfoldable pub description_to_metric_name : Bytes → Bytes
unfolding metric_name_loop trim_underscore is_empty is_separator is_alnum to_lower
description_to_metric_name desc = trim_underscore (metric_name_loop desc [] false)

-- The text behind the last occurrence of `c`: `substr(rfind(c) + 1)`, or none if `c` does not occur.
unfoldable pub after_last : ℕ → Bytes → Option Bytes
after_last c [] = none
after_last c (x ∷ xs) = elim (after_last c xs) [
  | some rest ↦ some rest
  | none ↦ if x == c then some xs else none
]

-- A topic's last level is the queue's name, for the class of queues only. Nothing calls this.
unfoldable pub extract_object_name : Bytes → Bytes → Bytes
unfolding after_last
extract_object_name topic_string class_name =
    if not (is_same class_name (codes "STATQ"))
    then []
    else elim (after_last 47 topic_string) [ some rest ↦ rest | none ↦ [] ]

-- The scale of a datatype: a value is divided by it, as a `double`. The quotient is left to the
-- floating point unit, and a value stands as the pair of its raw value and its divisor.
unfoldable pub unit_divisor : ℕ → ℕ
unit_divisor datatype =
    if datatype == 100 || datatype == 10000 then 100 else if datatype == 1000000 then 1000000 else 1

unfoldable pub normalize_value : ℕ → ℕ → ℕ × ℕ
unfolding unit_divisor
normalize_value raw datatype = (raw, unit_divisor datatype)
