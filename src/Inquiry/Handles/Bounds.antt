-- ===== src/Inquiry/Handles/Bounds.antt =====
-- Where `parse_queue_status_response` (src/pcf_inquiry.cpp) stays inside the response, and the
-- parameters that make it leave it.
use ibmmq_metrics_exporter.Base.{
  ℕ, zero, suc, ◌+◌, ◌-◌, ◌%◌, ◌^◌, ◌≤◌, ◌<◌, ◌≡◌, refl, length, arith,
}
use ibmmq_metrics_exporter.Memory.{ok, err, out_of_bounds, Bytes, le32_at, read_le32, read_string}
use ibmmq_metrics_exporter.Memory.Reads.{
  Returns, Returns-bind, Returns-bind_if, read_le32-ok, le32_at-lt,
}
use ibmmq_metrics_exporter.Inquiry.Details.{QueueHandleDetails}
use ibmmq_metrics_exporter.Inquiry.Reader.Walk.{ParamAt, first, next}
use ibmmq_metrics_exporter.Inquiry.Handles.{
  parse_string_param, parse_integer_param, HandleState, handle_step, handle_loop, start_handles,
  finish_handles, parse_queue_status_response,
}

parse_string_param-Returns :
    (d : Bytes) (at len : ℕ) (handle : QueueHandleDetails)
    → at + len ≤ length d
    → length d < 2 ^ 63
    → le32_at d (at + 8) < 2 ^ 32 - 12
    → Returns (parse_string_param d at len handle)
unfolding parse_string_param read_le32 read_string
parse_string_param-Returns d at len handle h b fits = ground arith

parse_integer_param-Returns :
    (d : Bytes) (at len : ℕ) (handle : QueueHandleDetails)
    → at + len ≤ length d
    → Returns (parse_integer_param d at len handle)
unfolding parse_integer_param read_le32
parse_integer_param-Returns d at len handle h = ground arith

-- Every parameter that the walk finds has its eight bytes of type and length, and the length of a
-- text is far from 2^32.
pub record HasWholeParams (d : Bytes) : Type 0 where
  pub size : length d < 2 ^ 63
  pub whole : (offset : ℕ) → ParamAt d offset → offset + 8 ≤ length d → 8 ≤ le32_at d (offset + 4)
  pub fits :
      (offset : ℕ) → ParamAt d offset → le32_at d offset ≡ 4 → le32_at d (offset + 16) < 2 ^ 32 - 12

handle_step-Returns :
    (d : Bytes) (offset param_type n : ℕ) (st : HandleState)
    → length d < 2 ^ 63
    → 8 ≤ n
    → n < 2 ^ 32
    → (param_type ≡ 4 → le32_at d (offset + 16) < 2 ^ 32 - 12)
    → offset + n ≤ length d
    → Returns (handle_step d offset param_type n st)
unfolding handle_step
handle_step-Returns d offset param_type n st b l u fits h = ground (
  arith,
  parse_string_param-Returns d (offset + 8) ((n + 2 ^ 32 - 8) % 2 ^ 32) st.current,
  parse_integer_param-Returns d (offset + 8) ((n + 2 ^ 32 - 8) % 2 ^ 32) st.current,
)

handle_loop-Returns :
    (d : Bytes)
    → HasWholeParams d
    → (f offset : ℕ) (st : HandleState) → ParamAt d offset
    → offset ≤ length d
    → length d < f + offset
    → Returns (handle_loop f d (length d) offset st)
unfolding handle_loop
handle_loop-Returns d w zero offset st p o m = absurd (omega arith)
handle_loop-Returns d w (suc f) offset st p o m =
    let n : ℕ = le32_at d (offset + 4) in
    ground (
      arith,
      read_le32-ok d offset,
      read_le32-ok d (offset + 4),
      Returns-bind_if (handle_step d offset (le32_at d offset) n st)
          (λ st'. handle_loop f d (length d) (offset + n) st')
          ((offset + 8 ≤ length d) × (offset + n ≤ length d))
          (λ h.
            handle_step-Returns d offset (le32_at d offset) n st w.size (w.whole offset p h.0)
              (le32_at-lt d (offset + 4)) (w.fits offset p) h.1)
          (λ h st'.
            handle_loop-Returns d w f (offset + n) st' (next p refl) h.1
              (omega (arith, w.whole offset p h.0))),
    )

-- On a response whose parameters are whole and whose text lengths are far from 2^32, the parser
-- reads nothing outside the response and ends.
pub parse_queue_status_response-Returns :
    (d : Bytes) → HasWholeParams d → Returns (parse_queue_status_response d (length d))
unfolding parse_queue_status_response read_le32
parse_queue_status_response-Returns d w = ground (
  arith,
  λ (h : 36 ≤ length d).
      Returns-bind (handle_loop (suc (length d)) d (length d) 36 start_handles)
        (λ st. ok (finish_handles st))
        (handle_loop-Returns d w (suc (length d)) 36 start_handles (first refl) h (omega arith))
        (λ st e. tt),
)

short_text-fault :
    (d : Bytes) (offset n : ℕ) (st : HandleState)
    → 0 < n
    → n < 8
    → length d < offset + 20
    → handle_step d offset 4 n st ≡ err out_of_bounds
unfolding handle_step parse_string_param read_le32
short_text-fault d offset n st l u h = ground arith

-- A response whose first parameter claims to be a text of fewer than eight bytes, and that ends
-- within twenty bytes of that parameter, is read outside its end: the length that is left for the
-- text, `param_struc_len - 8`, wraps to nearly 2^32.
pub parse_queue_status_response_fault :
    (d : Bytes)
    → 44 ≤ length d
    → length d < 56
    → le32_at d 24 ≡ 0
    → le32_at d 36 ≡ 4
    → 0 < le32_at d 40
    → le32_at d 40 < 8
    → parse_queue_status_response d (length d) ≡ err out_of_bounds
unfolding parse_queue_status_response handle_loop read_le32
parse_queue_status_response_fault d l u c t p s =
    ground (arith, short_text-fault d 36 (le32_at d 40) start_handles p s u)
