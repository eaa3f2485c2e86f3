-- ===== src/Client/Messages/Broken.antt =====
-- What src/mqclient.cpp does when MQGET says that the connection is broken, and where a message is
-- longer than the buffer.
use ibmmq_metrics_exporter.Base.{
  ℕ, ◌^◌, ◌≡◌, ◌↔◌, ap, true, false, ◌&&◌, ◌||◌, List, [], none, some, ltb, leb, arith,
}
use mathlib.Core.Path.{subst}
use ibmmq_metrics_exporter.Memory.{Fault, Result, ok, err, out_of_bounds, Bytes}
use ibmmq_metrics_exporter.Client.Buffers.{message_size, message}
use ibmmq_metrics_exporter.Client.Mqi.{Mqi, has_failed, read_buffer}
use ibmmq_metrics_exporter.Client.State.{
  ClientState, Exception, Outcome, returned, thrown, undefined, connection_broken, not_connected,
  System, pure, lift, ◌>>=◌,
}
use ibmmq_metrics_exporter.Client.Connection.{open_stats_queue, open_accounting_queue}
use ibmmq_metrics_exporter.Client.Inquiries.{inquire}
use ibmmq_metrics_exporter.Client.Topics.{
  subscribe_to_topic, receive_publications, subscribe_and_get, create_subscription,
}
use ibmmq_metrics_exporter.Client.Commands.{send_pcf_command}
use ibmmq_metrics_exporter.Client.Messages.Drain.{queue_of}
use ibmmq_metrics_exporter.Client.Messages.{message_options, get_message_from, get_message}

-- What holds where a method has thrown the exception for a broken connection.
abbrev IfBroken : {W A : Type 0} → (System W → Type 0) → Outcome A × System W → Type 0
IfBroken q (thrown Exception.connection_broken, σ) = q σ
IfBroken q (o, σ) = Unit {0}

IfBroken-lift :
    {W A B : Type 0} (q : System W → Type 0) (m : Result A) (f : A → B) (σ : System W)
    → IfBroken q ((lift m >>= λ a. pure (f a)) σ)
IfBroken-lift q (ok a) f σ = tt
IfBroken-lift q (err Fault.length_error) f σ = tt
IfBroken-lift q (err Fault.out_of_bounds) f σ = tt
IfBroken-lift q (err Fault.insufficient_data) f σ = tt
IfBroken-lift q (err Fault.out_of_fuel) f σ = tt

-- The members but for `connected_` are as before, and there is something to clean up.
abbrev IsBroken : {W : Type 0} → ClientState → System W → Type 0
IsBroken c σ = (σ.client ≡ record c { connected = false }) × ((c.stats_open || c.acct_open) ≡ true)

-- A client that is not connected makes no call of the library but to connect and to clean up.
pub record IsIdle {W : Type 0} (mqi : Mqi W) (σ : System W) : Type 0 where
  pub commands : (cmd : Bytes) → send_pcf_command mqi cmd σ ≡ (returned [], σ)
  pub inquiries :
      (name : Bytes) (selectors : List ℕ) → inquire mqi name selectors σ ≡ (returned none, σ)
  pub subscribing : (topic : Bytes) → subscribe_to_topic mqi topic σ ≡ (returned false, σ)
  pub creating : (topic : Bytes) → create_subscription mqi topic σ ≡ (returned none, σ)
  pub retained : (topic : Bytes) → subscribe_and_get mqi topic σ ≡ (returned none, σ)
  pub receiving : receive_publications mqi σ ≡ (returned [], σ)
  pub opening :
      (name : Bytes)
      → (open_stats_queue mqi name σ ≡ (thrown not_connected, σ))
        × (open_accounting_queue mqi name σ ≡ (thrown not_connected, σ))

module _ {W : Type 0} (mqi : Mqi W) where
  connected-IsIdle : (σ : System W) → σ.client.connected ≡ false → IsIdle mqi σ
  unfolding send_pcf_command inquire subscribe_to_topic create_subscription subscribe_and_get
      receive_publications open_stats_queue open_accounting_queue
  connected-IsIdle σ e = record {
    commands = λ cmd. ground (arith, e);
    inquiries = λ name selectors. ground (arith, e);
    subscribing = λ topic. ground (arith, e);
    creating = λ topic. ground (arith, e);
    retained = λ topic. ground (arith, e);
    receiving = ground (arith, e);
    opening = λ name. ground (arith, e);
  }

  get_message_from-IfBroken :
      (hobj : ℕ) (queue_type : Bytes) (σ : System W)
      → (σ.client.stats_open || σ.client.acct_open) ≡ true
      → IfBroken (IsBroken σ.client) (get_message_from mqi hobj queue_type σ)
  unfolding get_message_from
  get_message_from-IfBroken hobj queue_type σ e =
      let p = mqi.mqget σ.client.hconn hobj message_options message_size σ.world in
      ground (
        arith,
        e,
        IfBroken-lift (IsBroken σ.client) (message queue_type p.0) (λ m. some m)
            (record σ { world = p.1 }),
      )

  get_message-IfBroken :
      (queue_type : Bytes) (σ : System W)
      → IfBroken (IsBroken σ.client) (get_message mqi queue_type σ)
  unfolding get_message
  get_message-IfBroken queue_type σ = ground (
    arith,
    get_message_from-IfBroken σ.client.stats_queue queue_type σ,
    get_message_from-IfBroken σ.client.acct_queue queue_type σ,
  )

  -- Where `get_message` throws because the connection is broken, only `connected_` has changed, to
  -- false; a queue is still open, so that `disconnect` will clean up; and until the client connects
  -- again, commands and inquiries, publications and subscriptions come back empty and the opening of
  -- a queue throws, each with no call of the library and no change of the members.
  pub get_message-IsIdle :
      (queue_type : Bytes) (σ σ' : System W)
      → get_message mqi queue_type σ ≡ (thrown connection_broken, σ')
      → (σ'.client ≡ record σ.client { connected = false })
        × ((σ'.client.stats_open || σ'.client.acct_open) ≡ true)
        × IsIdle mqi σ'
  get_message-IsIdle queue_type σ σ' e =
      let broken = subst (IfBroken (IsBroken σ.client)) e (get_message-IfBroken queue_type σ) in
      (broken.0, rw (broken.0) (broken.1), connected-IsIdle σ' (ap (λ c. c.connected) (broken.0)))

  -- With the queue of the type open and `g` what MQGET hands back, `get_message` reads outside its
  -- buffer exactly if the call has not failed, a warning included, and the length that it reports is
  -- not between 0 and the 100 KB of the buffer.
  pub get_message_fault :
      (queue_type : Bytes) (hobj : ℕ) (σ : System W)
      → queue_of σ.client queue_type ≡ some hobj
      → (let g = (mqi.mqget σ.client.hconn hobj message_options message_size σ.world).0 in
          ((get_message mqi queue_type σ).0 ≡ undefined out_of_bounds) ↔ (
            (has_failed g.cc ≡ false)
            × ((ltb g.datalen (2 ^ 31) && leb g.datalen message_size) ≡ false)))
  unfolding get_message get_message_from message read_buffer
  get_message_fault queue_type hobj σ e = ground (arith, e)
