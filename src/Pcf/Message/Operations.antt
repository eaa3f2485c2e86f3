-- ===== src/Pcf/Message/Operations.antt =====
-- The queue operations of `parse_accounting` (src/pcf_parser.cpp).
use ibmmq_metrics_exporter.Base.{
  ℕ, ◌≡◌, ◌≢◌, sym, ◌⊎◌, inl, inr, true, List, [], ◌∷◌, ◌++◌, if◌then◌else◌, All, All-append, arith,
  append-nil, Bool-cases,
}
use ibmmq_metrics_exporter.Pcf.Parser.{PcfValue, monostate, group, PcfParameterList, nil, cons}
use ibmmq_metrics_exporter.Pcf.Records.{QueueAppOperation}
use ibmmq_metrics_exporter.Pcf.Fold.{fold_params, collect, fold_params-collect}
use ibmmq_metrics_exporter.Pcf.Message.{
  parse_app_operation, is_active, queue_operations_step, parse_accounting,
}

-- A group that names a queue and counts something on it.
abbrev pub IsActive : QueueAppOperation → Type 0
IsActive qa =
    (qa.queue_name ≢ [])
    × ((qa.puts ≢ 0) ⊎ (qa.gets ≢ 0) ⊎ (qa.msgs_received ≢ 0) ⊎ (qa.msgs_sent ≢ 0))

is_active→IsActive : (qa : QueueAppOperation) → is_active qa ≡ true → IsActive qa
unfolding is_active
is_active→IsActive qa h = ground arith

IsActive→is_active : (qa : QueueAppOperation) → IsActive qa → is_active qa ≡ true
unfolding is_active
IsActive→is_active qa h = ground arith

-- The operation that a value describes, if it is a group and the operation is active.
abbrev pub operations_of : PcfValue → List QueueAppOperation
operations_of (group nested) =
    if is_active (parse_app_operation nested) then parse_app_operation nested ∷ [] else []
operations_of _ = []

step-operations :
    (id : ℕ) (v : PcfValue) (operations : List QueueAppOperation)
    → queue_operations_step id v operations ≡ operations ++ operations_of v
unfolding queue_operations_step
step-operations id (group nested) operations =
    elim (Bool-cases (is_active (parse_app_operation nested))) [
      | inl e ↦ rw e
      | inr e ↦ rw e (sym (append-nil operations))
    ]
step-operations id _ operations = sym (append-nil operations)

All-operations_of : (v : PcfValue) → All IsActive (operations_of v)
All-operations_of (group nested) = elim (Bool-cases (is_active (parse_app_operation nested))) [
  | inl e ↦ rw e (is_active→IsActive (parse_app_operation nested) e, tt)
  | inr e ↦ rw e tt
]
All-operations_of monostate = tt
All-operations_of _ = tt

All-collect : (params : PcfParameterList) → All IsActive (collect operations_of params)
All-collect nil = tt
All-collect (cons id type v params) =
    All-append IsActive (operations_of v) (collect operations_of params) (All-operations_of v)
      (All-collect params)

-- The queue operations of an accounting message are those of its groups, in order, that name a
-- queue and count something: each operation of the result does so, and an active group of the
-- message is among them.
pub parse_accounting-operations :
    (params : PcfParameterList)
    → ((parse_accounting params).queue_operations ≡ collect operations_of params)
      × All IsActive (parse_accounting params).queue_operations
      × ((nested : PcfParameterList)
          → IsActive (parse_app_operation nested)
          → operations_of (group nested) ≡ parse_app_operation nested ∷ [])
unfolding parse_accounting
parse_accounting-operations params = (
  collected,
  rw collected (All-collect params),
  λ nested h. rw (IsActive→is_active (parse_app_operation nested) h),
)
  where
    collected : fold_params queue_operations_step params [] ≡ collect operations_of params
    collected =
        fold_params-collect (λ operations. operations) operations_of queue_operations_step
          step-operations params []
