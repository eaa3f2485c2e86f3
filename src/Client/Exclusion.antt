-- ===== src/Client/Exclusion.antt =====
-- The patterns that exclude queues (src/mqclient.cpp).
pub mod Levels
use ibmmq_metrics_exporter.Base.{
  ℕ, zero, suc, ◌+◌, ◌-◌, ◌≡◌, ◌≢◌, ◌<◌, refl, Bool, true, false, not, ◌&&◌, ◌||◌, List, [], ◌∷◌,
  ◌++◌, length, take, drop, take-append, drop-append, length-append, ltb, ◌==◌, if◌then◌else◌,
  codes, is_same, arith,
}
use ibmmq_metrics_exporter.Memory.{Bytes}

-- `pattern.substr(pattern.size() - suffix.size()) == suffix`, for a pattern that is longer.
abbrev pub ends_with : Bytes → Bytes → Bool
ends_with suffix pattern = is_same (drop (length pattern - length suffix) pattern) suffix

-- The test that a name lies below a prefix, in one of its levels.
abbrev pub is_below : Bytes → Bytes → Bool
is_below queue_name prefix =
    ltb (length prefix) (length queue_name)
    && is_same (take (length prefix + 1) queue_name) (prefix ++ 46 ∷ [])

unfoldable pub matches_hlq_pattern : Bytes → Bytes → Bool
matches_hlq_pattern queue_name pattern =
    if is_same pattern (codes "*")
    then true
    else if ltb 2 (length pattern) && ends_with (codes ".*") pattern
    then is_below queue_name (take (length pattern - 2) pattern)
    else if ltb 3 (length pattern) && ends_with (codes ".**") pattern
    then is_below queue_name (take (length pattern - 3) pattern)
    else is_same queue_name pattern

unfoldable pub queue_matches_exclusion : Bytes → List Bytes → Bool
queue_matches_exclusion queue_name [] = false
queue_matches_exclusion queue_name (p ∷ patterns) =
    matches_hlq_pattern queue_name p || queue_matches_exclusion queue_name patterns
