-- ===== src/Pcf/Parser/Clean.antt =====
-- `PCFParser::clean_string` (src/pcf_parser.cpp).
use ibmmq_metrics_exporter.Base.{
  ℕ, zero, suc, ◌≡◌, ◌≢◌, refl, ap, [], ◌∷◌, ◌++◌, replicate, All, arith,
}
use ibmmq_metrics_exporter.Memory.{Bytes}
use ibmmq_metrics_exporter.Pcf.Parser.{until_nul, trim_blanks, cons_unless_blank, clean_string}

-- No byte of the text is a NUL.
abbrev pub HasNoNul : Bytes → Type 0
HasNoNul = All (λ c. c ≢ 0)

-- The text is empty or ends in a byte that is no blank.
abbrev pub EndsUnblank : Bytes → Type 0
EndsUnblank [] = Unit {0}
EndsUnblank (c ∷ []) = c ≢ b' '
EndsUnblank (c ∷ x ∷ xs) = EndsUnblank (x ∷ xs)

until_nul-HasNoNul : (s : Bytes) → HasNoNul (until_nul s)
unfolding until_nul
until_nul-HasNoNul [] = tt
until_nul-HasNoNul (c ∷ cs) = ground (arith, until_nul-HasNoNul cs)

cons_unless_blank-HasNoNul :
    (c : ℕ) (s : Bytes) → c ≢ 0 → HasNoNul s → HasNoNul (cons_unless_blank c s)
cons_unless_blank-HasNoNul c [] h k = ground arith
cons_unless_blank-HasNoNul c (x ∷ xs) h k = (h, k)

trim_blanks-HasNoNul : (s : Bytes) → HasNoNul s → HasNoNul (trim_blanks s)
unfolding trim_blanks
trim_blanks-HasNoNul [] h = tt
trim_blanks-HasNoNul (c ∷ cs) h =
    cons_unless_blank-HasNoNul c (trim_blanks cs) h.0 (trim_blanks-HasNoNul cs h.1)

cons_unless_blank-EndsUnblank :
    (c : ℕ) (s : Bytes) → EndsUnblank s → EndsUnblank (cons_unless_blank c s)
cons_unless_blank-EndsUnblank c [] k = ground arith
cons_unless_blank-EndsUnblank c (x ∷ xs) k = k

trim_blanks-EndsUnblank : (s : Bytes) → EndsUnblank (trim_blanks s)
unfolding trim_blanks
trim_blanks-EndsUnblank [] = tt
trim_blanks-EndsUnblank (c ∷ cs) =
    cons_unless_blank-EndsUnblank c (trim_blanks cs) (trim_blanks-EndsUnblank cs)

until_nul-append : (s rest : Bytes) → HasNoNul s → until_nul (s ++ rest) ≡ s ++ until_nul rest
unfolding until_nul
until_nul-append [] rest h = refl
until_nul-append (c ∷ cs) rest h = ground (arith, until_nul-append cs rest h.1)

trim_blanks-replicate : (n : ℕ) → trim_blanks (replicate n b' ') ≡ []
unfolding trim_blanks
trim_blanks-replicate zero = refl
trim_blanks-replicate (suc n) = rw (trim_blanks-replicate n)

trim_blanks-append : (s : Bytes) (n : ℕ) → EndsUnblank s → trim_blanks (s ++ replicate n b' ') ≡ s
unfolding trim_blanks
trim_blanks-append [] n h = trim_blanks-replicate n
trim_blanks-append (c ∷ []) n h = rw (trim_blanks-replicate n) (ground arith)
trim_blanks-append (c ∷ x ∷ xs) n h = ap (cons_unless_blank c) (trim_blanks-append (x ∷ xs) n h)

-- A cleaned text has no NUL and does not end in a blank.
pub clean_string_shape : (s : Bytes) → HasNoNul (clean_string s) × EndsUnblank (clean_string s)
unfolding clean_string
clean_string_shape s = (
  trim_blanks-HasNoNul (until_nul s) (until_nul-HasNoNul s),
  trim_blanks-EndsUnblank (until_nul s),
)

until_nul-blanks :
    (n : ℕ) (garbage : Bytes) → until_nul (replicate n b' ' ++ (0 ∷ garbage)) ≡ replicate n b' '
unfolding until_nul
until_nul-blanks zero garbage = refl
until_nul-blanks (suc n) garbage = rw (until_nul-blanks n garbage)

until_nul-replicate : (n : ℕ) → until_nul (replicate n b' ') ≡ replicate n b' '
unfolding until_nul
until_nul-replicate zero = refl
until_nul-replicate (suc n) = rw (until_nul-replicate n)

-- A text with no NUL that does not end in a blank comes back from any fixed-width field that holds
-- it: behind it stand blanks, and then either nothing or a NUL and whatever follows that.
pub clean_string_padded :
    (s : Bytes) (n : ℕ) (garbage : Bytes)
    → HasNoNul s
    → EndsUnblank s
    → (clean_string (s ++ replicate n b' ') ≡ s)
      × (clean_string (s ++ (replicate n b' ' ++ (0 ∷ garbage))) ≡ s)
unfolding clean_string
clean_string_padded s n garbage h k = (
  rw (until_nul-append s _ h, until_nul-replicate) (trim_blanks-append s n k),
  rw (until_nul-append s _ h, until_nul-blanks) (trim_blanks-append s n k),
)
