-- ===== src/Pcf/Queue/Invariant.antt =====
-- What `parse_queue_stats` (src/pcf_parser.cpp) guarantees of its result.
use ibmmq_metrics_exporter.Base.{
  ℕ, ◌≡◌, refl, sym, ◌≢◌, ◌⊎◌, inl, inr, Bool, true, false, not, ◌||◌, List, [], ◌∷◌, ◌++◌,
  if◌then◌else◌, codes, All, All-append, arith, append-nil, Bool-cases,
}
use ibmmq_metrics_exporter.Memory.{Bytes, is_pos}
use ibmmq_metrics_exporter.Pcf.Parser.{
  PcfValue, monostate, int32, string, group, PcfParameterList, nil, cons,
}
use ibmmq_metrics_exporter.Pcf.Records.{ProcInfo, QueueStatistics, empty_queue_statistics}
use ibmmq_metrics_exporter.Pcf.Fold.{
  fold_params, fold_params-keeps, collect, fold_params-collect, is_empty,
}
use ibmmq_metrics_exporter.Pcf.Queue.{
  proc_step, parse_proc, is_identified, queue_step, parse_queue_stats,
}

abbrev pub IsRole : Bytes → Type 0
IsRole r = (r ≡ codes "unknown") ⊎ (r ≡ codes "input") ⊎ (r ≡ codes "output")

-- The three forms of `parse_proc`'s role.
proc_step-IsRole :
    (id : ℕ) (v : PcfValue) (proc : ProcInfo) → IsRole proc.role → IsRole (proc_step id v proc).role
unfolding proc_step
proc_step-IsRole id (int32 v) proc h = ground arith
proc_step-IsRole id (string s) proc h = ground arith
proc_step-IsRole id _ proc h = h

parse_proc-IsRole : (nested : PcfParameterList) → IsRole (parse_proc nested).role
unfolding parse_proc
parse_proc-IsRole nested =
    fold_params-keeps (λ proc. IsRole proc.role) proc_step proc_step-IsRole nested _ (inl refl)

-- What would identify a process, written without the program's test.
abbrev pub IsNamed : ProcInfo → Type 0
IsNamed proc =
    (proc.application_name ≢ []) ⊎ (proc.connection_name ≢ []) ⊎ (proc.user_identifier ≢ [])

-- Nothing is known of an application, a connection and a user.
abbrev pub is_unknown : Bytes → Bytes → Bytes → Bool
is_unknown [] [] [] = true
is_unknown application_name connection_name user_identifier = false

abbrev pub is_nameless : ProcInfo → Bool
is_nameless proc = is_unknown proc.application_name proc.connection_name proc.user_identifier

is_unknown_lem :
    (a c u : Bytes)
    → (not (is_empty a) || not (is_empty c) || not (is_empty u)) ≡ not (is_unknown a c u)
unfolding is_empty
is_unknown_lem [] [] [] = refl
is_unknown_lem [] [] (x ∷ u) = refl
is_unknown_lem [] (x ∷ c) u = ground arith
is_unknown_lem (x ∷ a) c u = ground arith

is_identified_lem : (proc : ProcInfo) → is_identified proc ≡ not (is_nameless proc)
unfolding is_identified
is_identified_lem proc =
    is_unknown_lem proc.application_name proc.connection_name proc.user_identifier

named : (a c u : Bytes) → is_unknown a c u ≡ false → (a ≢ []) ⊎ (c ≢ []) ⊎ (u ≢ [])
named [] [] [] h = ground (arith, h)
named [] [] (x ∷ u) h = inr (inr (λ e. ground (arith, e)))
named [] (x ∷ c) u h = inr (inl (λ e. ground (arith, e)))
named (x ∷ a) c u h = inl (λ e. ground (arith, e))

-- The process that a group describes, unless nothing identifies it.
abbrev pub procs_of : PcfValue → List ProcInfo
procs_of (group nested) = if is_nameless (parse_proc nested) then [] else parse_proc nested ∷ []
procs_of _ = []

queue_step-procs :
    (id : ℕ) (v : PcfValue) (stats : QueueStatistics)
    → (queue_step id v stats).associated_procs ≡ stats.associated_procs ++ procs_of v
unfolding queue_step
queue_step-procs id (group nested) stats =
    ground (arith, is_identified_lem (parse_proc nested), append-nil stats.associated_procs)
queue_step-procs id (int32 v) stats = ground (arith, append-nil stats.associated_procs)
queue_step-procs id (string s) stats = ground (arith, append-nil stats.associated_procs)
queue_step-procs id _ stats = sym (append-nil stats.associated_procs)

abbrev pub IsKept : ProcInfo → Type 0
IsKept proc = IsNamed proc × IsRole proc.role

procs_of-IsKept : (nested : PcfParameterList) → All IsKept (procs_of (group nested))
procs_of-IsKept nested = elim (Bool-cases (is_nameless (parse_proc nested))) [
  | inl e ↦ rw e tt
  | inr e ↦
      let proc = parse_proc nested in
      let name = named proc.application_name proc.connection_name proc.user_identifier e in
      rw e ((name, parse_proc-IsRole nested), tt)
]

All-procs_of : (params : PcfParameterList) → All IsKept (collect procs_of params)
All-procs_of nil = tt
All-procs_of (cons id type v params) =
    All-append IsKept (procs_of v) (collect procs_of params) (head v) (All-procs_of params)
  where
    head : (v : PcfValue) → All IsKept (procs_of v)
    head (group nested) = procs_of-IsKept nested
    head monostate = tt
    head _ = tt

-- The flags agree with the counts.
record FlagsAgree (stats : QueueStatistics) : Type 0 where
  readers : stats.has_readers ≡ is_pos stats.input_count
  writers : stats.has_writers ≡ is_pos stats.output_count

queue_step-FlagsAgree :
    (id : ℕ) (v : PcfValue) (stats : QueueStatistics)
    → FlagsAgree stats
    → FlagsAgree (queue_step id v stats)
unfolding queue_step
queue_step-FlagsAgree id v stats h = ground arith

-- The processes of the result are those that the groups of the message describe, in order and
-- without those that have no application, no connection and no user; each has an application, a
-- connection or a user, and one of three roles. There are readers exactly if the input count is
-- positive, and writers exactly if the output count is.
pub parse_queue_stats-procs :
    (params : PcfParameterList)
    → let stats = parse_queue_stats params in
      (stats.associated_procs ≡ collect procs_of params)
      × All IsKept stats.associated_procs
      × (stats.has_readers ≡ is_pos stats.input_count)
      × (stats.has_writers ≡ is_pos stats.output_count)
unfolding parse_queue_stats
parse_queue_stats-procs params =
    (collected, rw collected (All-procs_of params), flags.readers, flags.writers)
  where
    collected :
        (fold_params queue_step params empty_queue_statistics).associated_procs
        ≡ collect procs_of params
    collected =
        fold_params-collect (λ stats. stats.associated_procs) procs_of queue_step queue_step-procs
          params _

    flags : FlagsAgree (fold_params queue_step params empty_queue_statistics)
    flags =
        fold_params-keeps FlagsAgree queue_step queue_step-FlagsAgree params _
          (record { readers = refl; writers = refl })
