-- ===== src/Config/Duration/RoundTrip.antt =====
-- `parse_duration` (src/config.cpp) on a number that is written out, with its unit.
use ibmmq_metrics_exporter.Base.{
  ℕ, zero, suc, ◌+◌, ◌-◌, ◌*◌, ◌/◌, ◌%◌, ◌^◌, ◌<◌, ◌≡◌, refl, ap, ◌∙◌, Bool, true, false, [], ◌∷◌,
  ◌++◌, some, codes, arith,
}
use ibmmq_metrics_exporter.Memory.{Bytes}
use ibmmq_metrics_exporter.Pcf.Fold.{is_empty}
use ibmmq_metrics_exporter.Config.Connection.{digits, to_decimal}
use ibmmq_metrics_exporter.Config.Duration.{
  is_digit, skip_spaces, scan_digits, scan_signed, scan_int, in_seconds, parse_duration,
}

scan_digit :
    (a digit : ℕ) (rest : Bytes)
    → digit < 10
    → scan_digits a ((48 + digit) ∷ rest) ≡ scan_digits (a * 10 + digit) rest
scan_digit a digit rest h =
    let value : a * 10 + (48 + digit - 48) ≡ a * 10 + digit = omega arith in
    ground (arith, h, ap (λ n. scan_digits n rest) value)

-- Reading the digits of a number goes on from that number.
scan_digits-digits :
    (k n : ℕ) (rest : Bytes) → n < 10 ^ k → scan_digits 0 (digits k n rest) ≡ scan_digits n rest
unfolding digits
scan_digits-digits zero n rest h = ap (λ m. scan_digits m rest) (omega arith)
scan_digits-digits (suc k) n rest h =
    let last : (n / 10) * 10 + n % 10 ≡ n = omega arith in
    let small : n / 10 < 10 ^ k = omega arith in
    let longer : scan_digits 0 (digits k (n / 10) ((48 + n % 10) ∷ rest)) ≡ scan_digits n rest =
      scan_digits-digits k (n / 10) ((48 + n % 10) ∷ rest) small
      ∙ scan_digit (n / 10) (n % 10) rest (omega arith)
      ∙ ap (λ m. scan_digits m rest) last in
    ground (arith, longer, scan_digit 0 n rest)

-- What is written out begins with a digit.
abbrev begins : Bytes → Bool
begins [] = false
begins (c ∷ cs) = is_digit c

begins-digits : (k n : ℕ) (rest : Bytes) → begins rest ≡ true → begins (digits k n rest) ≡ true
unfolding digits
begins-digits zero n rest h = h
begins-digits (suc k) n rest h = ground (arith, begins-digits k (n / 10) ((48 + n % 10) ∷ rest))

begins-to_decimal : (n : ℕ) (rest : Bytes) → begins (digits 10 n rest) ≡ true
unfolding digits
begins-to_decimal n rest = ground (arith, begins-digits 9 (n / 10) ((48 + n % 10) ∷ rest))

skip_spaces-begins : (s : Bytes) → begins s ≡ true → skip_spaces s ≡ s
skip_spaces-begins [] h = refl
skip_spaces-begins (c ∷ cs) h = ground (arith, h)

scan_signed-begins :
    (s : Bytes)
    → begins s ≡ true
    → scan_signed s ≡ some ((scan_digits 0 s).0 % 2 ^ 32, (scan_digits 0 s).1)
unfolding scan_signed
scan_signed-begins [] h = ground arith
scan_signed-begins (c ∷ cs) h = ground (arith, h)

scan_int-begins :
    (s : Bytes)
    → begins s ≡ true
    → scan_int s ≡ some ((scan_digits 0 s).0 % 2 ^ 32, (scan_digits 0 s).1)
unfolding scan_int
scan_int-begins s h = ap scan_signed (skip_spaces-begins s h) ∙ scan_signed-begins s h

digits-append : (k n : ℕ) (xs ys : Bytes) → digits k n xs ++ ys ≡ digits k n (xs ++ ys)
unfolding digits
digits-append zero n xs ys = refl
digits-append (suc k) n xs ys = ground (arith, digits-append k (n / 10) ((48 + n % 10) ∷ xs) ys)

scan_digits-ends : (n : ℕ) (rest : Bytes) → begins rest ≡ false → scan_digits n rest ≡ (n, rest)
scan_digits-ends n [] h = refl
scan_digits-ends n (c ∷ cs) h = ground (arith, h)

is_empty-begins : (s : Bytes) → begins s ≡ true → is_empty s ≡ false
unfolding is_empty
is_empty-begins [] h = ground arith
is_empty-begins (c ∷ cs) h = refl

-- A number that is written out before a text that does not go on with a digit.
parse_duration-digits :
    (n def : ℕ) (rest : Bytes)
    → n < 10 ^ 10
    → n < 2 ^ 32
    → begins rest ≡ false
    → parse_duration (digits 10 n rest) def ≡ in_seconds n rest
unfolding parse_duration
parse_duration-digits n def rest h w e =
    let text : Bytes = digits 10 n rest in
    let first : begins text ≡ true = begins-to_decimal n rest in
    let ends : scan_digits n rest ≡ (n, rest) = scan_digits-ends n rest e in
    let scanned : scan_int text ≡ some (n, rest) =
      scan_int-begins text first
      ∙ ap (λ (r : ℕ × Bytes). some (r.0 % 2 ^ 32, r.1)) (scan_digits-digits 10 n rest h ∙ ends)
      ∙ ap (λ m. some (m, rest)) (omega arith) in
    ground (arith, is_empty-begins text first, scanned)

-- A number of seconds that is written out reads back, alone and with an `s`; with an `m` it is
-- sixty times as many. The product must be an `int`.
pub parse_duration-to_decimal :
    (n def : ℕ)
    → n * 60 < 2 ^ 31
    → (parse_duration (to_decimal n) def ≡ n)
      × (parse_duration (to_decimal n ++ codes "s") def ≡ n)
      × (parse_duration (to_decimal n ++ codes "m") def ≡ n * 60)
unfolding to_decimal
parse_duration-to_decimal n def h =
    let seconds = parse_duration-digits n def (codes "s") (omega arith) (omega arith) refl in
    let minutes = parse_duration-digits n def (codes "m") (omega arith) (omega arith) refl in
    let whole : n * 60 % 2 ^ 32 ≡ n * 60 = omega arith in
    (
      parse_duration-digits n def [] (omega arith) (omega arith) refl,
      ap (λ s. parse_duration s def) (digits-append 10 n [] (codes "s")) ∙ seconds,
      ap (λ s. parse_duration s def) (digits-append 10 n [] (codes "m")) ∙ minutes ∙ whole,
    )
