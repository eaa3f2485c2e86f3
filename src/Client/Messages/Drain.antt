-- ===== src/Client/Messages/Drain.antt =====
-- `MQClient::get_all_messages` (src/mqclient.cpp) takes everything that is on a queue.
use ibmmq_metrics_exporter.Base.{
  ℕ, zero, suc, ◌<◌, ◌≡◌, refl, ap, ◌∙◌, List, [], ◌∷◌, map, length, All, Option, none, some,
  if◌then◌else◌, codes, is_same, arith,
}
use ibmmq_metrics_exporter.Memory.{Bytes, ok}
use ibmmq_metrics_exporter.Client.Headers.{MqMessage}
use ibmmq_metrics_exporter.Client.Buffers.{message_size, message_of, message}
use ibmmq_metrics_exporter.Client.Mqi.{Got, Mqi}
use ibmmq_metrics_exporter.Client.State.{ClientState, returned, System}
use ibmmq_metrics_exporter.Client.Finishes.{Delivers, Delivers-map, Delivers-step}
use ibmmq_metrics_exporter.Client.Messages.{
  message_options, get_message_from, get_message, add_message, get_all_messages,
}
use ibmmq_metrics_exporter.Client.Messages.Delivery.{QueueLaws, Fits, read_buffer-write_front}

-- The handle that a type of queue stands for, if it is open.
abbrev pub queue_of : ClientState → Bytes → Option ℕ
queue_of c queue_type =
    if is_same queue_type (codes "stats")
    then if c.stats_open then some c.stats_queue else none
    else if is_same queue_type (codes "accounting")
    then if c.acct_open then some c.acct_queue else none
    else none

abbrev pub delivered : Bytes → Got → MqMessage
delivered queue_type g = message_of queue_type g.written g

message-Fits :
    (queue_type : Bytes) (g : Got)
    → Fits message_size g
    → message queue_type g ≡ ok (delivered queue_type g)
unfolding message
message-Fits queue_type g h = rw (read_buffer-write_front message_size _ g (omega arith) h)

module _ {W : Type 0} (mqi : Mqi W) (contents : W → ℕ → List Got) (laws : QueueLaws mqi contents)
    (queue_type : Bytes) where
  get_message-queue_of :
      (hobj : ℕ) (σ : System W)
      → queue_of σ.client queue_type ≡ some hobj
      → get_message mqi queue_type σ ≡ get_message_from mqi hobj queue_type σ
  unfolding get_message
  get_message-queue_of hobj σ e = ground (arith, e)

  get_next :
      (hobj : ℕ) (g : Got) (gs : List Got) (σ : System W)
      → contents σ.world hobj ≡ g ∷ gs
      → Fits message_size g
      → get_message_from mqi hobj queue_type σ ≡ (
        returned (some (delivered queue_type g)),
        record σ { world = (mqi.mqget σ.client.hconn hobj message_options message_size σ.world).1 },
      )
  unfolding get_message_from
  get_next hobj g gs σ e fits = ground (
    arith,
    fits.succeeded,
    message-Fits queue_type g fits,
    (laws.next σ.client.hconn hobj message_options message_size σ.world g gs e fits.small).0,
  )

  get_last :
      (hobj : ℕ) (σ : System W)
      → contents σ.world hobj ≡ []
      → get_message_from mqi hobj queue_type σ ≡ (
        returned none,
        record σ { world = (mqi.mqget σ.client.hconn hobj message_options message_size σ.world).1 },
      )
  unfolding get_message_from
  get_last hobj σ e =
      ground (arith, laws.no_more σ.client.hconn hobj message_options message_size σ.world e)

  -- The messages are those of the queue, in their order, the queue is empty and the client as before.
  abbrev pub Drained : ℕ → List Got → System W → List MqMessage → System W → Type 0
  Drained hobj gs σ messages σ' =
      (messages ≡ map (delivered queue_type) gs)
      × (contents σ'.world hobj ≡ [])
      × (σ'.client ≡ σ.client)

  -- With a library that keeps the documented behaviour of MQGET on a queue, if the queue that the
  -- type stands for is open, and each of its messages fits into the buffer of 100 KB, then with more
  -- rounds than there are messages `get_all_messages` returns: all the messages of the queue, whole
  -- and in their order, and the queue is left empty and the client's members as they were.
  pub get_all_messages-Delivers :
      (f hobj : ℕ) (gs : List Got) (σ : System W)
      → queue_of σ.client queue_type ≡ some hobj
      → contents σ.world hobj ≡ gs
      → All (Fits message_size) gs
      → length gs < f
      → Delivers (Drained hobj gs σ) (get_all_messages mqi f queue_type σ)
  unfolding get_all_messages
  get_all_messages-Delivers zero hobj gs σ e g fits h = elim h [ ]
  get_all_messages-Delivers (suc f) hobj [] σ e g fits h =
      let w = (mqi.mqget σ.client.hconn hobj message_options message_size σ.world).1 in
      Delivers-step (Drained hobj [] σ) (get_message mqi queue_type)
        (add_message mqi (get_all_messages mqi f queue_type)) σ (record σ { world = w }) none
        (get_message-queue_of hobj σ e ∙ get_last hobj σ g)
        (refl, (laws.no_more σ.client.hconn hobj message_options message_size σ.world g).2, refl)
  get_all_messages-Delivers (suc f) hobj (g ∷ gs) σ e k (fit, fits) h =
      let w = (mqi.mqget σ.client.hconn hobj message_options message_size σ.world).1 in
      let rest = get_all_messages mqi f queue_type in
      Delivers-step (Drained hobj (g ∷ gs) σ) (get_message mqi queue_type) (add_message mqi rest) σ
        (record σ { world = w }) (some (delivered queue_type g))
        (get_message-queue_of hobj σ e ∙ get_next hobj g gs σ k fit)
        (Delivers-map (Drained hobj gs σ) (Drained hobj (g ∷ gs) σ) rest
          (λ messages. delivered queue_type g ∷ messages) (record σ { world = w })
          (get_all_messages-Delivers f hobj gs (record σ { world = w }) e
            (laws.next σ.client.hconn hobj message_options message_size σ.world g gs k fit.small).1
            fits (omega (arith, h)))
          (λ messages σ' (m, empty, same). (ap (◌∷◌ (delivered queue_type g)) m, empty, same)))
