-- ===== src/Inquiry/Builder/Encoding.antt =====
-- What the builders of src/pcf_inquiry.cpp write, as a header followed by encoded fields.
use ibmmq_metrics_exporter.Base.{
  ℕ, ◌+◌, ◌-◌, ◌%◌, ◌^◌, ◌<◌, ◌≡◌, refl, ◌∙◌, List, [], ◌∷◌, ◌++◌, length, replicate, length-append,
  length-replicate, take-append, drop-append, append_assoc, arith,
}
use ibmmq_metrics_exporter.Memory.{Bytes}
use ibmmq_metrics_exporter.Inquiry.Builder.{
  int32_bytes, build_pcf_cmd, patch_int32, padding, append_string_param, append_integer_param,
}

-- A parameter of a command.
pub data Field : Type 0 where
  string_field : ℕ → Bytes → Field
  integer_field : ℕ → ℕ → Field

-- `StrucLength`.
abbrev pub field_size : Field → ℕ
field_size (string_field id v) = 20 + length v + padding (length v)
field_size (integer_field id v) = 16

abbrev pub string_body : Bytes → Bytes
string_body v = v ++ replicate (padding (length v)) 0

-- The layouts MQCFST and MQCFIN.
abbrev pub encode_field : Field → Bytes
encode_field (string_field id v) =
    int32_bytes 4
    ++ (int32_bytes (field_size (string_field id v))
        ++ (int32_bytes id ++ (int32_bytes 0 ++ (int32_bytes (length v) ++ string_body v))))
encode_field (integer_field id v) =
    int32_bytes 3 ++ (int32_bytes 16 ++ (int32_bytes id ++ int32_bytes v))

abbrev pub encode_fields : List Field → Bytes
encode_fields [] = []
encode_fields (f ∷ fs) = encode_field f ++ encode_fields fs

pub append_integer_param-encode_field :
    (buf : Bytes) (id v : ℕ)
    → append_integer_param buf id v ≡ buf ++ encode_field (integer_field id v)
unfolding append_integer_param
append_integer_param-encode_field buf id v = simp append_assoc

-- Patching an `int32_t` behind `xs` leaves all else as it is.
patch_int32_lem :
    (xs ys : Bytes) (w v : ℕ)
    → patch_int32 (xs ++ (int32_bytes w ++ ys)) (length xs) v ≡ xs ++ (int32_bytes v ++ ys)
unfolding patch_int32
patch_int32_lem xs ys w v = rw (take-append, drop-append)

-- The parameter as it stands in the buffer before its length is patched.
abbrev unpatched : Bytes → ℕ → Bytes → Bytes
unpatched buf id v =
    (buf ++ int32_bytes 4)
    ++ (int32_bytes 0
        ++ (int32_bytes id ++ (int32_bytes 0 ++ (int32_bytes (length v) ++ string_body v))))

length-unpatched :
    (buf : Bytes) (id : ℕ) (v : Bytes)
    → length (unpatched buf id v) ≡ length buf + (20 + length v + padding (length v))
length-unpatched buf id v = simp (length-append, length-replicate) (omega arith)

append_string_param-patch :
    (buf : Bytes) (id : ℕ) (v : Bytes)
    → length v < 2 ^ 31 - 24
    → append_string_param buf id v
      ≡ patch_int32
          (unpatched buf id v)
          (length (buf ++ int32_bytes 4))
          ((length (unpatched buf id v) - length buf) % 2 ^ 32)
unfolding append_string_param
append_string_param-patch buf id v h = rw (small_mod) (simp append_assoc)
  where
    small_mod : length v % 2 ^ 32 ≡ length v
    small_mod = omega arith

pub append_string_param-encode_field :
    (buf : Bytes) (id : ℕ) (v : Bytes)
    → length v < 2 ^ 31 - 24
    → append_string_param buf id v ≡ buf ++ encode_field (string_field id v)
append_string_param-encode_field buf id v h =
    append_string_param-patch buf id v h
    ∙ patch_int32_lem (buf ++ int32_bytes 4) _ 0 _
    ∙ rw (param_len) (simp append_assoc)
  where
    param_len : (length (unpatched buf id v) - length buf) % 2 ^ 32 ≡ field_size (string_field id v)
    param_len = omega (arith, length-unpatched buf id v)

pub build_pcf_cmd-bytes :
    (command count : ℕ)
    → build_pcf_cmd command count
      ≡ int32_bytes 1
        ++ (int32_bytes 36
            ++ (int32_bytes 1
                ++ (int32_bytes command
                    ++ (int32_bytes 1
                        ++ (int32_bytes 1
                            ++ (int32_bytes 0 ++ (int32_bytes 0 ++ int32_bytes count)))))))
unfolding build_pcf_cmd
build_pcf_cmd-bytes command count = refl
