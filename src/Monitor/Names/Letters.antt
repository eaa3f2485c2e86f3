-- ===== src/Monitor/Names/Letters.antt =====
-- What `description_to_metric_name` (src/resource_monitor.cpp) keeps of a description.
use ibmmq_metrics_exporter.Base.{
  ℕ, ◌≡◌, refl, sym, ap, Bool, true, false, [], ◌∷◌, ◌++◌, map, append-nil, append_assoc,
  if◌then◌else◌, arith,
}
use ibmmq_metrics_exporter.Memory.{Bytes}
use ibmmq_metrics_exporter.Monitor.Names.{
  is_separator, is_alnum, to_lower, underscore, last_or, pop_back, metric_name_loop,
  trim_underscore, description_to_metric_name,
}

abbrev pub letters : Bytes → Bytes
letters [] = []
letters (c ∷ cs) = if is_alnum c then c ∷ letters cs else letters cs

letters-append : (xs ys : Bytes) → letters (xs ++ ys) ≡ letters xs ++ letters ys
letters-append [] ys = refl
letters-append (x ∷ xs) ys = ground (arith, letters-append xs ys)

separator-alnum : (c : ℕ) → is_separator c ≡ true → is_alnum c ≡ false
unfolding is_separator is_alnum
separator-alnum c h = ground arith

alnum-to_lower : (c : ℕ) → is_alnum c ≡ true → is_alnum (to_lower c) ≡ true
unfolding is_alnum to_lower
alnum-to_lower c h = ground arith

alnum-underscore : is_alnum underscore ≡ false
unfolding is_alnum
alnum-underscore = refl

letters-letter :
    (c : ℕ) (s : Bytes) → is_alnum c ≡ true → letters (s ++ c ∷ []) ≡ letters s ++ c ∷ []
letters-letter c s h = ground (arith, letters-append s (c ∷ []))

letters-other : (c : ℕ) (s : Bytes) → is_alnum c ≡ false → letters (s ++ c ∷ []) ≡ letters s
letters-other c s h = ground (arith, letters-append s (c ∷ []), append-nil (letters s))

metric_name_loop-letters :
    (desc result : Bytes) (prev_underscore : Bool)
    → letters (metric_name_loop desc result prev_underscore)
      ≡ letters result ++ map to_lower (letters desc)
unfolding metric_name_loop
metric_name_loop-letters [] result prev_underscore = sym (append-nil (letters result))
metric_name_loop-letters (c ∷ desc) result prev_underscore = ground (
  arith,
  separator-alnum c,
  alnum-underscore,
  alnum-to_lower c,
  letters-letter (to_lower c) result,
  letters-other underscore result,
  append_assoc (letters result) (to_lower c ∷ []) (map to_lower (letters desc)),
  metric_name_loop-letters desc result prev_underscore,
  metric_name_loop-letters desc (result ++ to_lower c ∷ []) false,
  metric_name_loop-letters desc (result ++ underscore ∷ []) true,
)

pop_back-letters : (s : Bytes) → last_or 0 s ≡ underscore → letters (pop_back s) ≡ letters s
pop_back-letters [] h = refl
pop_back-letters (c ∷ []) h = ground (arith, alnum-underscore, ap is_alnum h)
pop_back-letters (c ∷ d ∷ s) h = ground (arith, pop_back-letters (d ∷ s) h)

-- The letters and digits of the name made of a description are those of the description, in their
-- order and in lower case.
pub letters-description_to_metric_name :
    (desc : Bytes) → letters (description_to_metric_name desc) ≡ map to_lower (letters desc)
unfolding description_to_metric_name trim_underscore
letters-description_to_metric_name desc = ground (
  arith,
  pop_back-letters (metric_name_loop desc [] false),
  metric_name_loop-letters desc [] false,
)
