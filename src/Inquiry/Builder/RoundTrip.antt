-- ===== src/Inquiry/Builder/RoundTrip.antt =====
-- `PCFParser::parse_parameters` (src/pcf_parser.cpp) reads back what the builders of
-- src/pcf_inquiry.cpp write.
use ibmmq_metrics_exporter.Base.{
  ℕ, zero, suc, ◌+◌, ◌-◌, ◌^◌, ◌≤◌, ◌<◌, ◌≡◌, refl, ◌∙◌, ap, List, [], ◌∷◌, ◌++◌, length, replicate,
  length-append, length-replicate, take-append, drop-append, append_assoc, arith, All,
}
use ibmmq_metrics_exporter.Memory.{ok, ◌>>=◌, Bytes, byte_at, le32_at, read_le32, read_string}
use ibmmq_metrics_exporter.Memory.Reads.{le32_at-append, read_string-ok}
use ibmmq_metrics_exporter.Pcf.Parser.{
  PcfParameterList, nil, cons, string, int32, clean_string, read_param, string_param, integer_param,
  parameters_loop, parse_parameters,
}
use ibmmq_metrics_exporter.Inquiry.Builder.{int32_bytes, padding}
use ibmmq_metrics_exporter.Inquiry.Builder.Encoding.{
  Field, string_field, integer_field, field_size, string_body, encode_field, encode_fields,
}

-- A field that fits: its parts are `int32_t`s, and its text is short and not empty.
abbrev pub IsField : Field → Type 0
IsField (string_field id v) = (id < 2 ^ 32) × (0 < length v) × (length v < 2 ^ 31 - 24)
IsField (integer_field id v) = (id < 2 ^ 32) × (v < 2 ^ 32)

-- The parameters that the fields stand for.
abbrev pub parameters_of : List Field → PcfParameterList
parameters_of [] = nil
parameters_of (string_field id v ∷ fs) = cons id 4 (string (clean_string v)) (parameters_of fs)
parameters_of (integer_field id v ∷ fs) = cons id 3 (int32 v) (parameters_of fs)

le32_at-int32_bytes : (v : ℕ) (ys : Bytes) → v < 2 ^ 32 → le32_at (int32_bytes v ++ ys) 0 ≡ v
unfolding le32_at byte_at
le32_at-int32_bytes v ys h = omega arith

-- The words of a field's header, behind whatever stands in front of it.
module _ (pre post : Bytes) where
  type_word :
      (id : ℕ) (v : Bytes)
      → le32_at (pre ++ (encode_field (string_field id v) ++ post)) (length pre + 0) ≡ 4
  unfolding le32_at byte_at
  type_word id v = le32_at-append pre _ 0

  size_word :
      (id : ℕ) (v : Bytes)
      → IsField (string_field id v)
      → le32_at (pre ++ (encode_field (string_field id v) ++ post)) (length pre + 4)
        ≡ field_size (string_field id v)
  unfolding le32_at byte_at
  size_word id v h = le32_at-append pre _ 4 ∙ omega arith

  id_word :
      (id : ℕ) (v : Bytes)
      → IsField (string_field id v)
      → le32_at (pre ++ (encode_field (string_field id v) ++ post)) (length pre + 8) ≡ id
  unfolding le32_at byte_at
  id_word id v h = le32_at-append pre _ 8 ∙ omega arith

  length_word :
      (id : ℕ) (v : Bytes)
      → IsField (string_field id v)
      → le32_at (pre ++ (encode_field (string_field id v) ++ post)) (length pre + 16) ≡ length v
  unfolding le32_at byte_at
  length_word id v h = le32_at-append pre _ 16 ∙ omega arith

  length-encoded :
      (id : ℕ) (v : Bytes)
      → length (pre ++ (encode_field (string_field id v) ++ post))
        ≡ length pre + (field_size (string_field id v) + length post)
  length-encoded id v = omega (
    arith,
    length-append pre (encode_field (string_field id v) ++ post),
    length-append (string_body v) post,
    length-append v (replicate (padding (length v)) 0),
    length-replicate {0} {A = ℕ} (padding (length v)) 0,
  )

  text_at :
      (id : ℕ) (v : Bytes)
      → IsField (string_field id v)
      → read_string (pre ++ (encode_field (string_field id v) ++ post)) (length pre + 20) (length v)
        ≡ ok v
  text_at id v h =
      read_string-ok _ (length pre + 20) (length v) (omega (arith, length-encoded id v))
        (omega arith)
      ∙ ap ok (rw drop-append (rw append_assoc (take-append v _)))

  -- One round of the switch on an encoded text.
  string_param-encode_field :
      (len offset : ℕ) (id : ℕ) (v : Bytes)
      → IsField (string_field id v)
      → offset + field_size (string_field id v) ≤ len
      → string_param
          (pre ++ (encode_field (string_field id v) ++ post))
          (length pre)
          len
          offset
          (field_size (string_field id v))
        ≡ ok (id, string (clean_string v))
  unfolding string_param read_le32
  string_param-encode_field len offset id v h fits =
      ground (arith, length-encoded id v, id_word id v h, length_word id v h, text_at id v h)

  length-encoded_integer :
      (id v : ℕ)
      → length (pre ++ (encode_field (integer_field id v) ++ post))
        ≡ length pre + (16 + length post)
  length-encoded_integer id v =
      omega (arith, length-append pre (encode_field (integer_field id v) ++ post))

  integer_words :
      (id v : ℕ)
      → IsField (integer_field id v)
      → let d = pre ++ (encode_field (integer_field id v) ++ post) in
        (le32_at d (length pre + 0) ≡ 3)
        × (le32_at d (length pre + 4) ≡ 16)
        × (le32_at d (length pre + 8) ≡ id)
        × (le32_at d (length pre + 12) ≡ v)
  unfolding le32_at byte_at
  integer_words id v h = (
    le32_at-append pre _ 0,
    le32_at-append pre _ 4,
    le32_at-append pre _ 8 ∙ omega arith,
    le32_at-append pre _ 12 ∙ omega arith,
  )

  integer_param-encode_field :
      (id v : ℕ)
      → IsField (integer_field id v)
      → integer_param (pre ++ (encode_field (integer_field id v) ++ post)) (length pre) 16
        ≡ ok (id, int32 v)
  unfolding integer_param read_le32
  integer_param-encode_field id v h =
      ground (arith, length-encoded_integer id v, integer_words id v h)

  -- One round of the loop on an encoded field, on the parameters behind it.
  loop-string_field :
      (f p len offset id : ℕ) (v : Bytes)
      → IsField (string_field id v)
      → p + offset ≡ length pre
      → offset + field_size (string_field id v) ≤ len
      → let d = pre ++ (encode_field (string_field id v) ++ post) in
        parameters_loop (suc f) d p len offset ≡ (do
          params ← parameters_loop f d p len (offset + field_size (string_field id v))
          ok (cons id 4 (string (clean_string v)) params))
  unfolding parameters_loop read_le32 read_param
  loop-string_field f p len offset id v h e fits = ground (
    arith,
    length-encoded id v,
    type_word id v,
    size_word id v h,
    string_param-encode_field len offset id v h fits,
  )

  loop-integer_field :
      (f p len offset id v : ℕ)
      → IsField (integer_field id v)
      → p + offset ≡ length pre
      → offset + 16 ≤ len
      → let d = pre ++ (encode_field (integer_field id v) ++ post) in
        parameters_loop (suc f) d p len offset
        ≡ (do params ← parameters_loop f d p len (offset + 16); ok (cons id 3 (int32 v) params))
  unfolding parameters_loop read_le32 read_param
  loop-integer_field f p len offset id v h e fits =
      ground (
        arith,
        length-encoded_integer id v,
        integer_words id v h,
        integer_param-encode_field id v h,
      )

length-encode_field : (x : Field) → length (encode_field x) ≡ field_size x
length-encode_field (string_field id v) = omega (
  arith,
  length-append v (replicate (padding (length v)) 0),
  length-replicate {0} {A = ℕ} (padding (length v)) 0,
)
length-encode_field (integer_field id v) = refl

pub length-encode_fields :
    (x : Field) (fs : List Field)
    → length (encode_fields (x ∷ fs)) ≡ field_size x + length (encode_fields fs)
length-encode_fields x fs =
    length-append (encode_field x) (encode_fields fs) ∙ rw (length-encode_field x)

length-past_field :
    (pre : Bytes) (x : Field) → length (pre ++ encode_field x) ≡ length pre + field_size x
length-past_field pre x = length-append pre (encode_field x) ∙ rw (length-encode_field x)

-- The fields behind `pre` are read back, whatever stands in front of them.
loop-encode_fields :
    (fs : List Field) (pre : Bytes) (f p len offset : ℕ)
    → All IsField fs
    → p + offset ≡ length pre
    → len ≡ offset + length (encode_fields fs)
    → length (encode_fields fs) < f
    → parameters_loop f (pre ++ encode_fields fs) p len offset ≡ ok (parameters_of fs)
loop-encode_fields fs pre zero p len offset h e l m = absurd (omega arith)
loop-encode_fields [] pre (suc f) p len offset h e l m = unfold parameters_loop in ground arith
loop-encode_fields (string_field id v ∷ fs) pre (suc f) p len offset h e l m =
    let x = string_field id v in
    let size = length-encode_fields x fs in
    loop-string_field pre (encode_fields fs) f p len offset id v h.0 e (omega (arith, size))
    ∙ rw (← append_assoc pre (encode_field x) (encode_fields fs)) (
        rw (
          loop-encode_fields fs (pre ++ encode_field x) f p len (offset + field_size x) h.1
            (omega (arith, length-past_field pre x)) (omega (arith, size)) (omega (arith, size))))
loop-encode_fields (integer_field id v ∷ fs) pre (suc f) p len offset h e l m =
    let x = integer_field id v in
    let size = length-encode_fields x fs in
    loop-integer_field pre (encode_fields fs) f p len offset id v h.0 e (omega (arith, size))
    ∙ rw (← append_assoc pre (encode_field x) (encode_fields fs)) (
        rw (
          loop-encode_fields fs (pre ++ encode_field x) f p len (offset + 16) h.1
            (omega (arith, length-past_field pre x)) (omega (arith, size)) (omega (arith, size))))

pub parse_parameters-encode_fields :
    (pre : Bytes) (fs : List Field)
    → All IsField fs
    → parse_parameters (pre ++ encode_fields fs) (length pre) (length (encode_fields fs))
      ≡ ok (parameters_of fs)
unfolding parse_parameters
parse_parameters-encode_fields pre fs h =
    loop-encode_fields fs pre (suc (length (encode_fields fs))) (length pre)
      (length (encode_fields fs)) 0 h (omega arith) (omega arith) (omega arith)
