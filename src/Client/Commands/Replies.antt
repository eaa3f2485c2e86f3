-- ===== src/Client/Commands/Replies.antt =====
-- The responses that `MQClient::send_pcf_command` (src/mqclient.cpp) takes from its reply queue.
use ibmmq_metrics_exporter.Base.{
  ℕ, zero, suc, ◌≤◌, ◌≡◌, refl, sym, ap, ◌∙◌, inl, inr, Bool-cases, Bool, true, false, ◌&&◌, List,
  [], ◌∷◌, ◌++◌, map, length, take, drop, All, leb, ◌==◌, if◌then◌else◌, arith,
}
use mathlib.Core.Path.{subst}
use ibmmq_metrics_exporter.Memory.{Bytes, le32_at}
use ibmmq_metrics_exporter.Client.Headers.Strip.{le32_at-prefix}
use ibmmq_metrics_exporter.Client.Buffers.{publication_size}
use ibmmq_metrics_exporter.Client.Mqi.{Got, Mqi, write_front}
use ibmmq_metrics_exporter.Client.State.{returned, System, pure, ◌>>=◌}
use ibmmq_metrics_exporter.Client.Finishes.{Delivers, Delivers-map}
use ibmmq_metrics_exporter.Client.Commands.{reply_options, is_last, responses_loop}
use ibmmq_metrics_exporter.Client.Messages.Delivery.{
  take-all, take_nil, QueueLaws, Fits, read_buffer-write_front,
}

-- A response that says so itself: it has a whole header, and MQCFC_LAST in it.
abbrev pub says_last : Bytes → Bool
says_last d = leb 24 (length d) && le32_at d 20 == 1

-- The responses up to the one that says that it is the last.
abbrev pub up_to_last : List Bytes → List Bytes
up_to_last [] = []
up_to_last (d ∷ ds) = d ∷ (if says_last d then [] else up_to_last ds)

says_last-prefix :
    (xs ys : Bytes) (n : ℕ)
    → n ≡ length xs
    → length xs ≤ publication_size
    → is_last n (xs ++ ys) ≡ says_last xs
says_last-prefix xs ys n e h = ground (arith, e, h, le32_at-prefix xs ys 20)

-- The bytes that the buffer held before play no part.
is_last-says_last :
    (buffer : Bytes) (g : Got)
    → Fits publication_size g
    → is_last g.datalen (write_front publication_size g.written buffer) ≡ says_last g.written
unfolding write_front
is_last-says_last buffer g h =
    rw (take-all publication_size g.written h.small)
      (says_last-prefix g.written (drop (length g.written) buffer) g.datalen h.whole h.small)

-- The list that the first response begins.
begins_last :
    (i : ℕ) (d d' : Bytes) (ds : List Bytes)
    → d' ≡ d
    → says_last d ≡ true
    → d' ∷ [] ≡ take (suc i) (up_to_last (d ∷ ds))
begins_last i d d' ds e f = rw (e, f, take_nil {A = Bytes} i) refl

begins_more :
    (i : ℕ) (d d' : Bytes) (ds rest : List Bytes)
    → d' ≡ d
    → says_last d ≡ false
    → rest ≡ take i (up_to_last ds)
    → d' ∷ rest ≡ take (suc i) (up_to_last (d ∷ ds))
begins_more i d d' ds rest e f k = rw (e, f, k) refl

module _ {W : Type 0} (mqi : Mqi W) (hobj : ℕ) (i : ℕ) (buffer : Bytes) (σ : System W) where
  -- What MQGET hands back, and the states of the buffer and of the system behind it.
  got : Got × W
  got = mqi.mqget σ.client.hconn hobj reply_options publication_size σ.world

  behind : System W
  unfolding got
  behind = record σ { world = got.1 }

  buffer_behind : Bytes
  unfolding got
  buffer_behind = write_front publication_size got.0.written buffer

  no_response : got.0.cc ≡ 2 → responses_loop mqi (suc i) hobj buffer σ ≡ (returned [], behind)
  unfolding responses_loop got behind
  no_response e = ground (arith, e)

  last_response :
      Fits publication_size got.0
      → says_last got.0.written ≡ true
      → responses_loop mqi (suc i) hobj buffer σ ≡ (returned (got.0.written ∷ []), behind)
  unfolding responses_loop got behind
  last_response fit e = ground (
    arith,
    e,
    fit.succeeded,
    is_last-says_last buffer got.0 fit,
    read_buffer-write_front publication_size buffer got.0 (omega arith) fit,
  )

  one_more :
      Fits publication_size got.0
      → says_last got.0.written ≡ false
      → responses_loop mqi (suc i) hobj buffer σ
        ≡ (responses_loop mqi i hobj buffer_behind >>= λ rs. pure (got.0.written ∷ rs)) behind
  unfolding responses_loop got behind buffer_behind
  one_more fit e = ground (
    arith,
    e,
    fit.succeeded,
    is_last-says_last buffer got.0 fit,
    read_buffer-write_front publication_size buffer got.0 (omega arith) fit,
  )

module _ {W : Type 0} (mqi : Mqi W) (contents : W → ℕ → List Got) (laws : QueueLaws mqi contents)
    (hobj : ℕ) where
  -- With a library that keeps the documented behaviour of MQGET on a queue, and responses on the
  -- reply queue that each fit into the buffer of 64 KB, the loop of `send_pcf_command` returns the
  -- first `i` of the responses up to the first whose header has MQCFC_LAST, each whole and in their
  -- order, whatever the buffer held before.
  pub responses_loop-Delivers :
      (i : ℕ) (buffer : Bytes) (gs : List Got) (σ : System W)
      → contents σ.world hobj ≡ gs
      → All (Fits publication_size) gs
      → Delivers
          (λ responses σ'. responses ≡ take i (up_to_last (map (λ g. g.written) gs)))
          (responses_loop mqi i hobj buffer σ)
  unfolding responses_loop got behind
  responses_loop-Delivers zero buffer gs σ e fits = refl
  responses_loop-Delivers (suc i) buffer [] σ e fits =
      subst (Delivers (λ responses σ'. responses ≡ []))
        (sym (
          no_response mqi hobj i buffer σ
            (laws.no_more σ.client.hconn hobj reply_options publication_size σ.world e).0))
        refl
  responses_loop-Delivers (suc i) buffer (g ∷ gs) σ e (fit, fits) =
      let ds = map (λ g. g.written) gs in
      let r =
        laws.next σ.client.hconn hobj reply_options publication_size σ.world g gs e fit.small in
      let p = got mqi hobj i buffer σ in
      let same : p.0.written ≡ g.written = ap (λ g. g.written) r.0 in
      let fit' : Fits publication_size p.0 = subst (Fits publication_size) (sym r.0) fit in
      let goal : List Bytes → System W → Type 0 =
        λ responses σ'. responses ≡ take (suc i) (up_to_last (g.written ∷ ds)) in
      elim (Bool-cases (says_last g.written)) [
        | inl f ↦
            subst (Delivers goal)
              (sym (last_response mqi hobj i buffer σ fit' (ap says_last same ∙ f)))
              (begins_last i g.written p.0.written ds same f)
        | inr f ↦
            subst (Delivers goal) (sym (one_more mqi hobj i buffer σ fit' (ap says_last same ∙ f)))
              (Delivers-map (λ responses σ'. responses ≡ take i (up_to_last ds)) goal
                (responses_loop mqi i hobj (buffer_behind mqi hobj i buffer σ))
                (λ rs. p.0.written ∷ rs) (behind mqi hobj i buffer σ)
                (responses_loop-Delivers i (buffer_behind mqi hobj i buffer σ) gs
                  (behind mqi hobj i buffer σ) r.1 fits)
                (λ rs σ' k. begins_more i g.written p.0.written ds rs same f k))
      ]
