-- ===== src/Inquiry/Reader/Walk.antt =====
-- The walk over a response's parameters (src/pcf_inquiry.cpp) stays in the response and ends.
use ibmmq_metrics_exporter.Base.{
  ℕ, zero, suc, ◌+◌, ◌-◌, ◌^◌, ◌≤◌, ◌<◌, ◌≡◌, refl, Bool, List, [], ◌∷◌, ◌++◌, length, All,
  if◌then◌else◌, arith,
}
use ibmmq_metrics_exporter.Memory.{Result, ◌>>=◌, Bytes, le32_at, read_le32}
use ibmmq_metrics_exporter.Memory.Reads.{Returns, Returns-bind, read_le32-ok, le32_at-lt}
use ibmmq_metrics_exporter.Inquiry.Reader.{
  Visitor, read_param_id, response_loop, parse_pcf_response_params, parse_responses,
}

-- The offsets at which the walk over `d` finds a parameter.
pub data ParamAt (d : Bytes) : ℕ → Type 0 where
  first : {offset : ℕ} → offset ≡ 36 → ParamAt d offset
  next :
      {before offset : ℕ}
      → ParamAt d before
      → offset ≡ before + le32_at d (before + 4)
      → ParamAt d offset

-- The length field of a string and the count of a list of integers are far from 2^32.
abbrev pub SizesFit : Bytes → ℕ → Type 0
SizesFit d at =
    (le32_at d at ≡ 4 → le32_at d (at + 16) < 2 ^ 32 - 20)
    × (le32_at d at ≡ 5 → le32_at d (at + 12) < 2 ^ 30 - 4)

-- A response of an object's size whose parameters all fit.
pub record IsWellSized (d : Bytes) : Type 0 where
  pub size : length d < 2 ^ 63
  pub fits : (offset : ℕ) → ParamAt d offset → SizesFit d offset

-- What a visitor must do: on a parameter that lies in the response and fits, it returns.
abbrev pub VisitReturns : {S : Type 0} → (Bytes → Visitor S) → Type 0
VisitReturns {S} visit =
    (d : Bytes) (ptype pid at plen : ℕ) (s : S)
    → length d < 2 ^ 63
    → at + plen ≤ length d
    → plen < 2 ^ 32
    → ptype ≡ le32_at d at
    → SizesFit d at
    → Returns (visit d ptype pid at plen s)

module _ {S : Type 0} (visit : Bytes → Visitor S) where
  param_id-Returns :
      (d : Bytes) (offset : ℕ) → Returns (read_param_id (visit d) d (length d) offset)
  unfolding read_param_id read_le32
  param_id-Returns d offset = ground arith

  -- What the rest of a round does once the parameter's length has passed its test.
  round-Returns :
      (d : Bytes) (offset ptype plen : ℕ) (s : S) (rest : S → Result S)
      → (offset + plen ≤ length d → (pid : ℕ) → Returns (visit d ptype pid offset plen s))
      → (0 < plen → offset + plen ≤ length d → (s' : S) → Returns (rest s'))
      → 0 < plen
      → offset + plen ≤ length d
      → Returns (do
        pid ← read_param_id (visit d) d (length d) offset
        s' ← visit d ptype pid offset plen s
        rest s')
  round-Returns d offset ptype plen s rest h k positive fits =
      Returns-bind (read_param_id (visit d) d (length d) offset) _ (param_id-Returns d offset)
        (λ pid e.
          Returns-bind (visit d ptype pid offset plen s) rest (h fits pid)
            (λ s' e'. k positive fits s'))

  response_loop-Returns :
      VisitReturns visit
      → (d : Bytes) → IsWellSized d
      → (f offset : ℕ) (s : S) → ParamAt d offset
      → offset ≤ length d
      → length d < f + offset
      → Returns (response_loop (visit d) d (length d) f offset s)
  unfolding response_loop
  response_loop-Returns good d w zero offset s p o m = absurd (omega arith)
  response_loop-Returns good d w (suc f) offset s p o m =
      let plen : ℕ = le32_at d (offset + 4) in
      ground (
        arith,
        read_le32-ok d offset,
        read_le32-ok d (offset + 4),
        round-Returns d offset (le32_at d offset) plen s
            (λ s'. response_loop (visit d) d (length d) f (offset + plen) s')
            (λ fits pid.
              good d (le32_at d offset) pid offset plen s w.size fits (le32_at-lt d (offset + 4))
                refl (w.fits offset p))
            (λ positive fits s'.
              response_loop-Returns good d w f (offset + plen) s' (next p refl) fits (omega arith)),
      )

  parse_pcf_response_params-Returns :
      VisitReturns visit
      → (d : Bytes) → IsWellSized d
      → (s : S) → Returns (parse_pcf_response_params (visit d) d (length d) s)
  unfolding parse_pcf_response_params read_le32
  parse_pcf_response_params-Returns good d w s = ground (
    arith,
    λ (long : 36 ≤ length d).
        response_loop-Returns good d w (suc (length d)) 36 s (first refl) long (omega arith),
  )

  pub parse_responses-Returns :
      VisitReturns visit
      → (empty : S) (keep : S → Bool) (result : List S) (responses : List Bytes)
      → All IsWellSized responses
      → Returns (parse_responses visit empty keep result responses)
  unfolding parse_responses
  parse_responses-Returns good empty keep result [] h = tt
  parse_responses-Returns good empty keep result (resp ∷ responses) h =
      let later = λ (s : S).
        parse_responses visit empty keep (if keep s then result ++ s ∷ [] else result) responses in
      ground (
        arith,
        parse_responses-Returns good empty keep result responses h.1,
        Returns-bind (parse_pcf_response_params (visit resp) resp (length resp) empty) later
            (parse_pcf_response_params-Returns good resp h.0 empty)
            (λ s e.
              parse_responses-Returns good empty keep (if keep s then result ++ s ∷ [] else result)
                responses h.1),
      )
