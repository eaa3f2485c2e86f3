-- ===== src/Memory/Reads.antt =====
-- Laws of the reads: where they succeed, and what they read behind a prefix.
use ibmmq_metrics_exporter.Base.{
  Bool, true, false, if◌then◌else◌, ℕ, ◌+◌, ◌^◌, ◌≤◌, ◌<◌, ◌≡◌, refl, ◌++◌, length, take, drop,
  length-append, get_or-append, drop-append, arith,
}
use native.Mathlib.Nat.{add_assoc}
use ibmmq_metrics_exporter.Memory.{
  Fault, Result, ok, err, ◌>>=◌, Bytes, byte_at, le32_at, le64_at, read_le32, read_le64,
  read_string,
}

pub byte_at-lt : (d : Bytes) (i : ℕ) → byte_at d i < 256
unfolding byte_at
byte_at-lt d i = omega arith

pub le32_at-lt : (d : Bytes) (i : ℕ) → le32_at d i < 2 ^ 32
unfolding le32_at
le32_at-lt d i = omega (arith, byte_at-lt)

pub le64_at-lt : (d : Bytes) (i : ℕ) → le64_at d i < 2 ^ 64
unfolding le64_at
le64_at-lt d i = omega (arith, le32_at-lt)

pub read_le32-ok : (d : Bytes) (i : ℕ) → i + 4 ≤ length d → read_le32 d i ≡ ok (le32_at d i)
unfolding read_le32
read_le32-ok d i h = ground arith

pub read_le64-ok : (d : Bytes) (i : ℕ) → i + 8 ≤ length d → read_le64 d i ≡ ok (le64_at d i)
unfolding read_le64
read_le64-ok d i h = ground arith

pub read_string-ok :
    (d : Bytes) (i n : ℕ)
    → i + n ≤ length d
    → n < 2 ^ 63
    → read_string d i n ≡ ok (take n (drop i d))
unfolding read_string
read_string-ok d i n h k = ground arith

-- A parse stays inside the buffer and ends: it returns, or `std::string` refuses a length.
abbrev pub Returns {ℓ} : {A : Type ℓ} → Result A → Type 0
Returns (ok a) = Unit {0}
Returns (err Fault.length_error) = Unit {0}
Returns (err e) = ⊥

pub Returns-bind {ℓ κ} :
    {A : Type ℓ} {B : Type κ} (m : Result A) (f : A → Result B)
    → Returns m
    → ((a : A) → m ≡ ok a → Returns (f a))
    → Returns (m >>= f)
Returns-bind (ok a) f h k = k a refl
Returns-bind (err Fault.length_error) f h k = tt
Returns-bind (err Fault.out_of_bounds) f h k = h
Returns-bind (err Fault.insufficient_data) f h k = h
Returns-bind (err Fault.out_of_fuel) f h k = h

-- The same where both parts need a condition that holds where they stand.
pub Returns-bind_if {ℓ κ} :
    {A : Type ℓ} {B : Type κ} (m : Result A) (f : A → Result B) (C : Type 0)
    → (C → Returns m)
    → (C → (a : A) → Returns (f a))
    → C
    → Returns (m >>= f)
Returns-bind_if m f C h k c = Returns-bind m f (h c) (λ a e. k c a)

-- The same with a promise about what is returned.
abbrev pub Ensures {ℓ} : {A : Type ℓ} → (A → Type 0) → Result A → Type 0
Ensures P (ok a) = P a
Ensures P (err Fault.length_error) = Unit {0}
Ensures P (err e) = ⊥

pub Ensures-bind {ℓ κ} :
    {A : Type ℓ} {B : Type κ} (P : A → Type 0) (Q : B → Type 0) (m : Result A) (f : A → Result B)
    → Ensures P m
    → ((a : A) → P a → Ensures Q (f a))
    → Ensures Q (m >>= f)
Ensures-bind P Q (ok a) f h k = k a h
Ensures-bind P Q (err Fault.length_error) f h k = tt
Ensures-bind P Q (err Fault.out_of_bounds) f h k = h
Ensures-bind P Q (err Fault.insufficient_data) f h k = h
Ensures-bind P Q (err Fault.out_of_fuel) f h k = h

pub Ensures-if {ℓ} :
    {A : Type ℓ} (P : A → Type 0) (b : Bool) (m n : Result A)
    → Ensures P m
    → Ensures P n
    → Ensures P (if b then m else n)
Ensures-if P true m n h k = h
Ensures-if P false m n h k = k

pub Ensures-Returns {ℓ} : {A : Type ℓ} (m : Result A) → Returns m → Ensures (λ a. Unit {0}) m
Ensures-Returns (ok a) h = h
Ensures-Returns (err Fault.length_error) h = h
Ensures-Returns (err Fault.out_of_bounds) h = h
Ensures-Returns (err Fault.insufficient_data) h = h
Ensures-Returns (err Fault.out_of_fuel) h = h

-- Reading behind a prefix is reading in what follows it.
pub byte_at-append : (xs ys : Bytes) (i : ℕ) → byte_at (xs ++ ys) (length xs + i) ≡ byte_at ys i
unfolding byte_at
byte_at-append xs ys i = rw get_or-append

pub le32_at-append : (xs ys : Bytes) (i : ℕ) → le32_at (xs ++ ys) (length xs + i) ≡ le32_at ys i
unfolding le32_at
le32_at-append xs ys i = simp (add_assoc, byte_at-append)

pub le64_at-append : (xs ys : Bytes) (i : ℕ) → le64_at (xs ++ ys) (length xs + i) ≡ le64_at ys i
unfolding le64_at
le64_at-append xs ys i = simp (add_assoc, le32_at-append)

pub read_le32-append :
    (xs ys : Bytes) (i : ℕ) → read_le32 (xs ++ ys) (length xs + i) ≡ read_le32 ys i
unfolding read_le32
read_le32-append xs ys i = ground (arith, le32_at-append xs ys i, length-append xs ys)

pub read_string-append :
    (xs ys : Bytes) (i n : ℕ) → read_string (xs ++ ys) (length xs + i) n ≡ read_string ys i n
unfolding read_string
read_string-append xs ys i n = rw drop-append (ground (arith, length-append xs ys))
