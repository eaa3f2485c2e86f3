-- ===== src/Client/Exclusion/Levels.antt =====
-- The patterns of `matches_hlq_pattern` (src/mqclient.cpp) that end in a level.
use ibmmq_metrics_exporter.Base.{
  ℕ, zero, suc, ◌+◌, ◌-◌, ◌≡◌, ◌↔◌, ◌<◌, refl, sym, ap, ◌∙◌, true, false, ◌⊎◌, inl, inr, [], ◌∷◌,
  ◌++◌, append_assoc, length, take, drop, take-append, drop-append, length-append, codes, is_same,
  arith,
}
use mathlib.Core.Path.{subst}
use ibmmq_metrics_exporter.Memory.{Bytes}
use ibmmq_metrics_exporter.Client.Exclusion.{is_below, matches_hlq_pattern}

pub is_same_refl : (s : Bytes) → is_same s s ≡ true
is_same_refl [] = refl
is_same_refl (c ∷ s) = ground (arith, is_same_refl s)

pub is_same-eq : (s t : Bytes) → is_same s t ≡ true → s ≡ t
is_same-eq [] [] h = refl
is_same-eq [] (d ∷ t) h = ground arith
is_same-eq (c ∷ s) [] h = ground arith
is_same-eq (c ∷ s) (d ∷ t) h = ground (arith, is_same-eq s t)

take-drop : (n : ℕ) (s : Bytes) → take n s ++ drop n s ≡ s
take-drop zero s = refl
take-drop (suc n) [] = refl
take-drop (suc n) (c ∷ s) = ap (◌∷◌ c) (take-drop n s)

-- A name lies below a prefix if it goes on with a dot behind it.
is_below-levels :
    (queue_name prefix : Bytes)
    → is_below queue_name prefix ≡ true
    → (rest : Bytes) × (queue_name ≡ prefix ++ 46 ∷ rest)
is_below-levels queue_name prefix h =
    let n = length prefix + 1 in
    let same : take n queue_name ≡ prefix ++ 46 ∷ [] =
      is_same-eq (take n queue_name) (prefix ++ 46 ∷ []) (ground (arith, h)) in
    (
      drop n queue_name,
      sym (take-drop n queue_name)
          ∙ ap (λ s. s ++ drop n queue_name) same
          ∙ append_assoc prefix (46 ∷ []) (drop n queue_name),
    )

levels-is_below : (prefix rest : Bytes) → is_below (prefix ++ 46 ∷ rest) prefix ≡ true
levels-is_below prefix rest =
    let whole : (prefix ++ 46 ∷ []) ++ rest ≡ prefix ++ 46 ∷ rest =
      append_assoc prefix (46 ∷ []) rest in
    let size : length (prefix ++ 46 ∷ []) ≡ length prefix + 1 = length-append prefix (46 ∷ []) in
    let same : take (length prefix + 1) (prefix ++ 46 ∷ rest) ≡ prefix ++ 46 ∷ [] =
      subst (λ n. take n (prefix ++ 46 ∷ rest) ≡ prefix ++ 46 ∷ []) size
        (subst (λ s. take (length (prefix ++ 46 ∷ [])) s ≡ prefix ++ 46 ∷ []) whole
          (take-append (prefix ++ 46 ∷ []) rest)) in
    ground (
      arith,
      length-append prefix (46 ∷ rest),
      ap (λ s. is_same s (prefix ++ 46 ∷ [])) same,
      is_same_refl (prefix ++ 46 ∷ []),
    )

drop-suffix :
    (prefix suffix : Bytes)
    → drop (length (prefix ++ suffix) - length suffix) (prefix ++ suffix) ≡ suffix
drop-suffix prefix suffix =
    let at : length (prefix ++ suffix) - length suffix ≡ length prefix + 0 =
      omega (arith, length-append prefix suffix) in
    ap (λ n. drop n (prefix ++ suffix)) at ∙ drop-append prefix suffix 0

take-suffix :
    (prefix suffix : Bytes)
    → take (length (prefix ++ suffix) - length suffix) (prefix ++ suffix) ≡ prefix
take-suffix prefix suffix =
    let at : length (prefix ++ suffix) - length suffix ≡ length prefix =
      omega (arith, length-append prefix suffix) in
    ap (λ n. take n (prefix ++ suffix)) at ∙ take-append prefix suffix

is_short-differs : (s t : Bytes) → length s < length t → is_same t s ≡ false
is_short-differs s [] h = ground arith
is_short-differs [] (d ∷ t) h = refl
is_short-differs (c ∷ s) (d ∷ t) h = ground (arith, is_short-differs s t)

matches-one :
    (queue_name prefix : Bytes)
    → 0 < length prefix
    → matches_hlq_pattern queue_name (prefix ++ codes ".*") ≡ is_below queue_name prefix
unfolding matches_hlq_pattern
matches-one queue_name prefix h =
    let pattern : Bytes = prefix ++ codes ".*" in
    ground (
      arith,
      length-append prefix (codes ".*"),
      is_short-differs (codes "*") pattern,
      ap (λ s. is_same s (codes ".*")) (drop-suffix prefix (codes ".*")),
      ap (is_below queue_name) (take-suffix prefix (codes ".*")),
    )

matches-all :
    (queue_name prefix : Bytes)
    → 0 < length prefix
    → matches_hlq_pattern queue_name (prefix ++ codes ".**") ≡ is_below queue_name prefix
unfolding matches_hlq_pattern
matches-all queue_name prefix h =
    let pattern : Bytes = prefix ++ codes ".**" in
    let split : (prefix ++ 46 ∷ []) ++ codes "**" ≡ pattern =
      append_assoc prefix (46 ∷ []) (codes "**") in
    let stars : drop (length pattern - 2) pattern ≡ codes "**" =
      subst (λ s. drop (length s - 2) s ≡ codes "**") split
        (drop-suffix (prefix ++ 46 ∷ []) (codes "**")) in
    ground (
      arith,
      length-append prefix (codes ".**"),
      is_short-differs (codes "*") pattern,
      ap (λ s. is_same s (codes ".*")) stars,
      ap (λ s. is_same s (codes ".**")) (drop-suffix prefix (codes ".**")),
      ap (is_below queue_name) (take-suffix prefix (codes ".**")),
    )

level-is_below :
    (queue_name prefix suffix : Bytes)
    → 0 < length prefix
    → (suffix ≡ codes ".*") ⊎ (suffix ≡ codes ".**")
    → matches_hlq_pattern queue_name (prefix ++ suffix) ≡ is_below queue_name prefix
level-is_below queue_name prefix suffix h (inl e) =
    ap (λ s. matches_hlq_pattern queue_name (prefix ++ s)) e ∙ matches-one queue_name prefix h
level-is_below queue_name prefix suffix h (inr e) =
    ap (λ s. matches_hlq_pattern queue_name (prefix ++ s)) e ∙ matches-all queue_name prefix h

-- Both patterns of a prefix that is not empty, `PREFIX.*` and `PREFIX.**`, match the names that
-- begin with the prefix and a dot, and no other; what follows the dot may be empty or have dots.
pub matches_hlq_pattern_levels :
    (queue_name prefix : Bytes)
    → 0 < length prefix
    → (suffix : Bytes) → (suffix ≡ codes ".*") ⊎ (suffix ≡ codes ".**")
    → (matches_hlq_pattern queue_name (prefix ++ suffix) ≡ true)
      ↔ ((rest : Bytes) × (queue_name ≡ prefix ++ 46 ∷ rest))
matches_hlq_pattern_levels queue_name prefix h suffix s =
    let below = level-is_below queue_name prefix suffix h s in
    (
      λ m. is_below-levels queue_name prefix (sym below ∙ m),
      λ (rest, e). below ∙ ap (λ q. is_below q prefix) e ∙ levels-is_below prefix rest,
    )
