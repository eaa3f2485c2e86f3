-- ===== src/Monitor/Names/Shape.antt =====
-- What `description_to_metric_name` (src/resource_monitor.cpp) makes of a description.
use ibmmq_metrics_exporter.Base.{
  ℕ, ◌≡◌, refl, Bool, true, false, not, ◌&&◌, ◌||◌, [], ◌∷◌, ◌++◌, leb, ◌==◌, arith, ◌≢◌,
}
use ibmmq_metrics_exporter.Memory.{Bytes}
use ibmmq_metrics_exporter.Pcf.Fold.{is_empty}
use ibmmq_metrics_exporter.Monitor.Names.{
  is_alnum, to_lower, underscore, last_or, pop_back, metric_name_loop, trim_underscore,
  description_to_metric_name,
}

-- The characters of a metric's name, and the test that no two of them are underscores in a row.
abbrev pub is_name_char : ℕ → Bool
is_name_char c = (leb 48 c && leb c 57) || (leb 97 c && leb c 122) || c == underscore

abbrev pub follows : ℕ → ℕ → Bool
follows before c = is_name_char c && not (before == underscore && c == underscore)

abbrev pub is_joined : ℕ → Bytes → Bool
is_joined before [] = true
is_joined before (c ∷ cs) = follows before c && is_joined c cs

-- A name as Prometheus wants it: no underscore at either end, and none after another.
abbrev pub is_metric_name : Bytes → Bool
is_metric_name s = is_joined underscore s && (is_empty s || not (last_or 0 s == underscore))

is_joined-append :
    (before c : ℕ) (s : Bytes)
    → is_joined before s ≡ true
    → follows (last_or before s) c ≡ true
    → is_joined before (s ++ c ∷ []) ≡ true
is_joined-append before c [] h k = ground arith
is_joined-append before c (x ∷ s) h k = ground (arith, is_joined-append x c s)

last_or-append : (before c : ℕ) (s : Bytes) → last_or before (s ++ c ∷ []) ≡ c
last_or-append before c [] = refl
last_or-append before c (x ∷ s) = last_or-append x c s

empty-append : (c : ℕ) (s : Bytes) → is_empty (s ++ c ∷ []) ≡ false
unfolding is_empty
empty-append c [] = refl
empty-append c (x ∷ s) = refl

follows-to_lower : (before c : ℕ) → is_alnum c ≡ true → follows before (to_lower c) ≡ true
unfolding is_alnum to_lower
follows-to_lower before c h = ground arith

to_lower-underscore : (c : ℕ) → is_alnum c ≡ true → to_lower c ≢ underscore
unfolding is_alnum to_lower
to_lower-underscore c h = ground arith

-- What holds of the loop's variables.
pub record Invariant (result : Bytes) (prev_underscore : Bool) : Type 0 where
  pub joined : is_joined underscore result ≡ true
  pub flagged : (is_empty result || prev_underscore) ≡ (last_or underscore result == underscore)

appended :
    (c : ℕ) (result : Bytes) (prev_underscore : Bool)
    → Invariant result prev_underscore
    → is_alnum c ≡ true
    → Invariant (result ++ to_lower c ∷ []) false
appended c result prev_underscore h a = record {
  joined =
      is_joined-append underscore (to_lower c) result h.joined
        (follows-to_lower (last_or underscore result) c a);
  flagged = ground (
    arith,
    empty-append (to_lower c) result,
    last_or-append underscore (to_lower c) result,
    to_lower-underscore c a,
  );
}

separated :
    (result : Bytes) (prev_underscore : Bool)
    → Invariant result prev_underscore
    → (is_empty result || prev_underscore) ≡ false
    → Invariant (result ++ underscore ∷ []) true
separated result prev_underscore h a = record {
  joined = is_joined-append underscore underscore result h.joined (ground (arith, h.flagged));
  flagged = ground (arith, last_or-append underscore underscore result);
}

metric_name_loop-joined :
    (desc result : Bytes) (prev_underscore : Bool)
    → Invariant result prev_underscore
    → is_joined underscore (metric_name_loop desc result prev_underscore) ≡ true
unfolding metric_name_loop
metric_name_loop-joined [] result prev_underscore h = h.joined
metric_name_loop-joined (c ∷ desc) result prev_underscore h = ground (
  arith,
  metric_name_loop-joined desc result prev_underscore h,
  λ (a : is_alnum c ≡ true).
      metric_name_loop-joined desc (result ++ to_lower c ∷ []) false
        (appended c result prev_underscore h a),
  λ (a : (is_empty result || prev_underscore) ≡ false).
      metric_name_loop-joined desc (result ++ underscore ∷ []) true
        (separated result prev_underscore h a),
)

pop_back-joined :
    (before : ℕ) (s : Bytes) → is_joined before s ≡ true → is_joined before (pop_back s) ≡ true
pop_back-joined before [] h = h
pop_back-joined before (c ∷ []) h = refl
pop_back-joined before (c ∷ d ∷ s) h = ground (arith, pop_back-joined c (d ∷ s))

-- What stands before a last underscore is none.
pop_back-last :
    (before : ℕ) (s : Bytes)
    → is_joined before s ≡ true
    → is_empty s ≡ false
    → last_or 0 s ≡ underscore
    → last_or before (pop_back s) ≢ underscore
unfolding is_empty
pop_back-last before [] h e k = ground arith
pop_back-last before (c ∷ []) h e k = ground arith
pop_back-last before (c ∷ d ∷ s) h e k = ground (arith, pop_back-last c (d ∷ s))

last_or-before : (a b : ℕ) (s : Bytes) → is_empty s ≡ false → last_or a s ≡ last_or b s
unfolding is_empty
last_or-before a b [] h = ground arith
last_or-before a b (c ∷ s) h = refl

trim_underscore-shape :
    (s : Bytes) → is_joined underscore s ≡ true → is_metric_name (trim_underscore s) ≡ true
unfolding trim_underscore
trim_underscore-shape s h = ground (
  arith,
  pop_back-joined underscore s h,
  pop_back-last underscore s h,
  last_or-before 0 underscore (pop_back s),
)

-- The name made of any description at all has letters in lower case, digits and underscores only,
-- with no underscore at an end and none after another.
pub description_to_metric_name_shape :
    (desc : Bytes) → is_metric_name (description_to_metric_name desc) ≡ true
unfolding description_to_metric_name is_empty
description_to_metric_name_shape desc =
    trim_underscore-shape (metric_name_loop desc [] false)
      (metric_name_loop-joined desc [] false (record { joined = refl; flagged = refl }))
