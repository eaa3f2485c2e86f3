-- ===== src/Pcf/Mqi/Groups.antt =====
-- How `parse_mqi_stats` (src/pcf_parser.cpp) adds up nested groups.
use ibmmq_metrics_exporter.Base.{ℕ, ◌+◌, ◌%◌, ◌^◌, ◌≡◌, refl, ◌∙◌, List, [], ◌∷◌, arith}
use ibmmq_metrics_exporter.Pcf.Parser.{int32, string, int_list, group, PcfParameterList, nil, cons}
use ibmmq_metrics_exporter.Pcf.Records.{MqiStatistics, empty_mqi_statistics}
use ibmmq_metrics_exporter.Pcf.Mqi.{merge_mqi, mqi_loop, parse_mqi_stats}

-- The counters that a group adds to the statistics around it.
pub data Counter : Type 0 where
  opens closes puts gets commits backouts : Counter

abbrev pub count_of : Counter → MqiStatistics → ℕ
count_of opens s = s.opens
count_of closes s = s.closes
count_of puts s = s.puts
count_of gets s = s.gets
count_of commits s = s.commits
count_of backouts s = s.backouts

-- Everything else but the application's name.
abbrev pub others : MqiStatistics → MqiStatistics
others s = record s {
  opens = 0;
  closes = 0;
  puts = 0;
  gets = 0;
  commits = 0;
  backouts = 0;
  application_name = [];
}

abbrev pub append_params : PcfParameterList → PcfParameterList → PcfParameterList
append_params nil qs = qs
append_params (cons id type v ps) qs = cons id type v (append_params ps qs)

-- A list of groups, under any identifiers.
abbrev pub group_params : List (ℕ × PcfParameterList) → PcfParameterList
group_params [] = nil
group_params ((id, nested) ∷ gs) = cons id 20 (group nested) (group_params gs)

abbrev pub sum_counts : Counter → List (ℕ × PcfParameterList) → ℕ
sum_counts c [] = 0
sum_counts c ((id, nested) ∷ gs) = count_of c (parse_mqi_stats nested) + sum_counts c gs

merge_mqi-count_of :
    (c : Counter) (ns s : MqiStatistics)
    → count_of c (merge_mqi ns s) ≡ (count_of c s + count_of c ns) % 2 ^ 32
unfolding merge_mqi
merge_mqi-count_of opens ns s = refl
merge_mqi-count_of _ ns s = refl

merge_mqi-others : (ns s : MqiStatistics) → others (merge_mqi ns s) ≡ others s
unfolding merge_mqi
merge_mqi-others ns s = refl

mqi_loop-append :
    (ps qs : PcfParameterList) (s : MqiStatistics)
    → mqi_loop (append_params ps qs) s ≡ mqi_loop qs (mqi_loop ps s)
unfolding mqi_loop
mqi_loop-append nil qs s = refl
mqi_loop-append (cons id type (group nested) ps) qs s = mqi_loop-append ps qs _
mqi_loop-append (cons id type (int_list vs) ps) qs s = mqi_loop-append ps qs _
mqi_loop-append (cons id type (int32 v) ps) qs s = mqi_loop-append ps qs _
mqi_loop-append (cons id type (string v) ps) qs s = mqi_loop-append ps qs _
mqi_loop-append (cons id type _ ps) qs s = mqi_loop-append ps qs s

loop-count_of :
    (c : Counter) (gs : List (ℕ × PcfParameterList)) (s : MqiStatistics)
    → count_of c (mqi_loop (group_params gs) s) % 2 ^ 32 ≡ (count_of c s + sum_counts c gs) % 2 ^ 32
unfolding mqi_loop parse_mqi_stats
loop-count_of c [] s = omega arith
loop-count_of c ((id, nested) ∷ gs) s =
    let ns : MqiStatistics = mqi_loop nested empty_mqi_statistics in
    omega (arith, loop-count_of c gs (merge_mqi ns s), merge_mqi-count_of c ns s)

loop-others :
    (gs : List (ℕ × PcfParameterList)) (s : MqiStatistics)
    → others (mqi_loop (group_params gs) s) ≡ others s
unfolding mqi_loop
loop-others [] s = refl
loop-others ((id, nested) ∷ gs) s =
    loop-others gs (merge_mqi (mqi_loop nested empty_mqi_statistics) s)
    ∙ merge_mqi-others (mqi_loop nested empty_mqi_statistics) s

-- Groups that stand behind other parameters add their six counters to those of the parameters, in
-- wrapping 32-bit arithmetic. Nothing else of a group is counted: all other fields, but for the
-- application's name, are as without the groups.
pub parse_mqi_stats-group_params :
    (c : Counter) (params : PcfParameterList) (gs : List (ℕ × PcfParameterList))
    → let whole = parse_mqi_stats (append_params params (group_params gs)) in
      (count_of c whole % 2 ^ 32 ≡ (count_of c (parse_mqi_stats params) + sum_counts c gs) % 2 ^ 32)
      × (others whole ≡ others (parse_mqi_stats params))
unfolding parse_mqi_stats
parse_mqi_stats-group_params c params gs =
    rw (mqi_loop-append params (group_params gs) empty_mqi_statistics) (
      loop-count_of c gs (mqi_loop params empty_mqi_statistics),
      loop-others gs (mqi_loop params empty_mqi_statistics),
    )
