-- ===== src/Pcf/Fold.antt =====
-- The loops `for (const auto& p : params)` of src/pcf_parser.cpp.
use ibmmq_metrics_exporter.Base.{
  ℕ, ◌≡◌, sym, ◌∙◌, Bool, true, false, List, [], ◌∷◌, ◌++◌, append-nil, append_assoc,
}
use ibmmq_metrics_exporter.Memory.{Bytes}
use ibmmq_metrics_exporter.Pcf.Parser.{PcfValue, PcfParameterList, nil, cons}

-- One step per parameter, on its `parameter` and its `value`.
unfoldable pub fold_params {ℓ} : {S : Type ℓ} → (ℕ → PcfValue → S → S) → PcfParameterList → S → S
fold_params step nil s = s
fold_params step (cons id type v params) s = fold_params step params (step id v s)

unfoldable pub is_empty : Bytes → Bool
is_empty [] = true
is_empty (c ∷ cs) = false

-- What every step keeps holds of the whole loop.
pub fold_params-keeps {ℓ κ} :
    {S : Type ℓ} (P : S → Type κ) (step : ℕ → PcfValue → S → S)
    → ((id : ℕ) (v : PcfValue) (s : S) → P s → P (step id v s))
    → (params : PcfParameterList) (s : S) → P s
    → P (fold_params step params s)
unfolding fold_params
fold_params-keeps P step keep nil s h = h
fold_params-keeps P step keep (cons id type v params) s h =
    fold_params-keeps P step keep params (step id v s) (keep id v s h)

-- What the parameters' values give, in order.
abbrev pub collect {ℓ} : {A : Type ℓ} → (PcfValue → List A) → PcfParameterList → List A
collect g nil = []
collect g (cons id type v params) = g v ++ collect g params

-- A loop that appends to a list appends what its steps append, in order.
pub fold_params-collect {ℓ κ} :
    {S : Type ℓ} {A : Type κ} (f : S → List A) (g : PcfValue → List A) (step : ℕ → PcfValue → S → S)
    → ((id : ℕ) (v : PcfValue) (s : S) → f (step id v s) ≡ f s ++ g v)
    → (params : PcfParameterList) (s : S) → f (fold_params step params s) ≡ f s ++ collect g params
unfolding fold_params
fold_params-collect f g step h nil s = sym (append-nil (f s))
fold_params-collect f g step h (cons id type v params) s =
    fold_params-collect f g step h params (step id v s)
    ∙ rw (h id v s) (append_assoc (f s) (g v) (collect g params))
