-- ===== src/Client/Messages/Delivery.antt =====
-- What MQGET documents of a queue, and the buffers of src/mqclient.cpp that hold a whole message.
use ibmmq_metrics_exporter.Base.{
  ℕ, zero, suc, ap, ◌≤◌, ◌<◌, ◌^◌, ◌≡◌, refl, false, List, [], ◌∷◌, length, take, drop, take-append,
  arith,
}
use ibmmq_metrics_exporter.Memory.{ok}
use ibmmq_metrics_exporter.Client.Mqi.{
  GetOptions, Got, Mqi, has_failed, mqrc_no_msg_available, write_front, read_buffer,
}

-- The messages on the queue of a handle, as MQGET hands them out: the first one each time, where it
-- fits into the buffer, until there is none, which is a failure of its own.
pub record QueueLaws {W : Type 0} (mqi : Mqi W) (contents : W → ℕ → List Got) : Type 0 where
  pub next :
      (hconn hobj : ℕ) (gmo : GetOptions) (size : ℕ) (w : W) (g : Got) (gs : List Got)
      → contents w hobj ≡ g ∷ gs
      → length g.written ≤ size
      → ((mqi.mqget hconn hobj gmo size w).0 ≡ g)
        × (contents (mqi.mqget hconn hobj gmo size w).1 hobj ≡ gs)
  pub no_more :
      (hconn hobj : ℕ) (gmo : GetOptions) (size : ℕ) (w : W)
      → contents w hobj ≡ []
      → ((mqi.mqget hconn hobj gmo size w).0.cc ≡ 2)
        × ((mqi.mqget hconn hobj gmo size w).0.rc ≡ mqrc_no_msg_available)
        × (contents (mqi.mqget hconn hobj gmo size w).1 hobj ≡ [])

-- A message that a buffer of `size` bytes holds whole.
pub record Fits (size : ℕ) (g : Got) : Type 0 where
  pub succeeded : has_failed g.cc ≡ false
  pub whole : g.datalen ≡ length g.written
  pub small : length g.written ≤ size

pub take_nil : {A : Type 0} (n : ℕ) → take {A = A} n [] ≡ []
take_nil zero = refl
take_nil (suc n) = refl

pub take-all : {A : Type 0} (n : ℕ) (xs : List A) → length xs ≤ n → take n xs ≡ xs
take-all n [] h = take_nil n
take-all zero (x ∷ xs) h = ground (arith, h)
take-all (suc n) (x ∷ xs) h = ap (◌∷◌ x) (take-all n xs (omega (arith, h)))

-- Whatever the buffer held before, the message is what is read from it.
pub read_buffer-write_front :
    (size : ℕ) (buffer : List ℕ) (g : Got)
    → size < 2 ^ 31
    → Fits size g
    → read_buffer size (write_front size g.written buffer) g.datalen ≡ ok g.written
unfolding read_buffer write_front
read_buffer-write_front size buffer g k h = ground (
  arith,
  k,
  h.whole,
  h.small,
  take-all size g.written h.small,
  take-append g.written (drop (length g.written) buffer),
)
