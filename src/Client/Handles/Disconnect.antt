-- ===== src/Client/Handles/Disconnect.antt =====
-- `MQClient::disconnect` (src/mqclient.cpp) gives back what the client answers for.
use ibmmq_metrics_exporter.Base.{
  List, ◌∷◌, ℕ, ◌+◌, ◌≤◌, ◌≡◌, refl, ap, ◌∙◌, Bool, true, false, not, ◌&&◌, [], is_nil, arith,
}
use ibmmq_metrics_exporter.Client.Mqi.{Mqi}
use ibmmq_metrics_exporter.Client.State.{SubHandle, ClientState, System, pure, modify, when, ◌>>◌}
use ibmmq_metrics_exporter.Client.Connection.{
  close_subscription, close_queue, close_subscriptions, unsubscribe_all, close_open_queues,
  end_connection, disconnect,
}
use ibmmq_metrics_exporter.Client.Handles.{
  Resource, counts_connection, held_subs, held_queue, owned, HandleLaws, At, Within,
}
use ibmmq_metrics_exporter.Client.Ends.{Ends, Ends-bind, Ends-if, Ends-weaken}
use ibmmq_metrics_exporter.Client.Finishes.{Finishes, Finishes-bind, Finishes-if}
use ibmmq_metrics_exporter.Client.Handles.Opening.{close_queue-Ends, close_subscriptions-Ends}

-- The members of a client that has disconnected.
abbrev pub IsEmpty : ClientState → Type 0
IsEmpty c =
    (c.connected ≡ false) × (c.stats_open ≡ false) × (c.acct_open ≡ false) × (c.subscriptions ≡ [])

module _ {W : Type 0} (mqi : Mqi W) (opened : W → Resource → ℕ) (laws : HandleLaws mqi opened)
    (r : Resource) (x : System W → Type 0) where
  unsubscribe_all-Ends :
      (c : ClientState) (b : ℕ) (σ : System W)
      → At opened r c (b + held_subs c.subscriptions r) σ
      → Ends (λ a. At opened r (record c { subscriptions = [] }) b) x (unsubscribe_all mqi σ)
  unfolding unsubscribe_all
  unsubscribe_all-Ends c b σ (e, h) =
      let subs = σ.client.subscriptions in
      Ends-bind (λ a. At opened r c b) (λ a. At opened r (record c { subscriptions = [] }) b) x
        (close_subscriptions mqi subs) (λ a. modify (λ c. record c { subscriptions = [] })) σ
        (close_subscriptions-Ends mqi opened laws r c b x subs σ (e, rw e h))
        (λ a σ' (f, k). (ap {B = ClientState} (λ c. record c { subscriptions = [] }) f, k))

  -- The members that say that nothing is open are written later.
  abbrev pub Released : ℕ → System W → Type 0
  Released b σ = (σ.client.subscriptions ≡ []) × (opened σ.world r ≤ b)

  close_if-Ends :
      (open_ : Bool) (hobj b : ℕ) (f : ClientState → ClientState) (σ : System W)
      → ((c : ClientState) → (f c).subscriptions ≡ c.subscriptions)
      → Released (b + held_queue open_ hobj r) σ
      → Ends (λ a. Released b) x (when open_ (close_queue mqi hobj >> modify f) σ)
  close_if-Ends false hobj b f σ k (e, h) = (e, omega (arith, h))
  close_if-Ends true hobj b f σ k (e, h) =
      Ends-bind (λ a. At opened r σ.client b) (λ a. Released b) x (close_queue mqi hobj)
        (λ a. modify f) σ (close_queue-Ends mqi opened laws r σ.client b x hobj σ (refl, h))
        (λ a σ' (g, l). (k σ'.client ∙ rw g e, l))

  close_open_queues-Ends :
      (c : ClientState) (b : ℕ) (σ : System W)
      → Released
          (b + held_queue c.acct_open c.acct_queue r + held_queue c.stats_open c.stats_queue r)
          σ
      → Ends (λ a. Released b) x (close_open_queues mqi c σ)
  unfolding close_open_queues
  close_open_queues-Ends c b σ h =
      let b' = b + held_queue c.acct_open c.acct_queue r in
      Ends-bind (λ a. Released b') (λ a. Released b) x
        (when c.stats_open
          (close_queue mqi c.stats_queue >> modify (λ c. record c { stats_queue = 0 })))
        (λ a.
          when c.acct_open
            (close_queue mqi c.acct_queue >> modify (λ c. record c { acct_queue = 0 })))
        σ
        (close_if-Ends c.stats_open c.stats_queue b' (λ c. record c { stats_queue = 0 }) σ
          (λ c. refl) h)
        (λ a σ'.
          close_if-Ends c.acct_open c.acct_queue b (λ c. record c { acct_queue = 0 }) σ'
            (λ c. refl))

  end_connection-Ends :
      (base : ℕ) (σ : System W)
      → Released (base + counts_connection r) σ
      → Ends (λ a σ'. IsEmpty σ'.client × (opened σ'.world r ≤ base)) x (end_connection mqi σ)
  unfolding end_connection
  end_connection-Ends base σ (e, h) =
      ((refl, refl, refl, e), omega (arith, h, laws.mqdisc_lets_go σ.client.hconn σ.world r))

  nothing_open :
      (base : ℕ) (σ : System W)
      → (let c = σ.client in
          (not c.connected && is_nil c.subscriptions && not c.stats_open && not c.acct_open) ≡ true)
      → Within opened r base σ
      → IsEmpty σ.client × (opened σ.world r ≤ base)
  nothing_open base σ f h = ground (arith, f, h)

  -- Whatever the client answers for is given back.
  pub disconnect-Ends :
      (base : ℕ) (σ : System W)
      → Within opened r base σ
      → Ends (λ a σ'. IsEmpty σ'.client × (opened σ'.world r ≤ base)) x (disconnect mqi σ)
  unfolding disconnect
  disconnect-Ends base σ h =
      let c = σ.client in
      let goal : Unit {0} → System W → Type 0 =
        λ a σ'. IsEmpty σ'.client × (opened σ'.world r ≤ base) in
      let b = base + counts_connection r in
      let queues =
        held_queue c.acct_open c.acct_queue r + held_queue c.stats_open c.stats_queue r in
      Ends-if goal x
        (not c.connected && is_nil c.subscriptions && not c.stats_open && not c.acct_open) (pure tt)
        (unsubscribe_all mqi >> (close_open_queues mqi c >> end_connection mqi)) σ
        (λ f. nothing_open base σ f h)
        (λ f.
          Ends-bind (λ a. At opened r (record c { subscriptions = [] }) (b + queues)) goal x
            (unsubscribe_all mqi) (λ a. (close_open_queues mqi c >> end_connection mqi)) σ
            (unsubscribe_all-Ends c (b + queues) σ (refl, ground (arith, h)))
            (λ a σ' (g, k).
              Ends-bind (λ a. Released b) goal x (close_open_queues mqi c) (λ a. end_connection mqi)
                σ' (close_open_queues-Ends c b σ' (ap (λ c. c.subscriptions) g, omega (arith, k)))
                (λ a σ''. end_connection-Ends base σ'')))

-- The subscriptions alone are given back.
pub unsubscribe_all-Within :
    {W : Type 0} (mqi : Mqi W) (opened : W → Resource → ℕ) (laws : HandleLaws mqi opened)
    (r : Resource) (base : ℕ) (σ : System W)
    → Within opened r base σ
    → Ends (λ a. Within opened r base) (Within opened r base) (unsubscribe_all mqi σ)
unsubscribe_all-Within mqi opened laws r base σ h =
    let c : ClientState = record σ.client { subscriptions = [] } in
    let b = base + owned c r in
    Ends-weaken (λ a. At opened r c b) (λ a. Within opened r base) (Within opened r base)
      (Within opened r base) (unsubscribe_all mqi σ) (λ a σ' (e, k). rw e k) (λ σ' k. k)
      (unsubscribe_all-Ends mqi opened laws r (Within opened r base) σ.client b σ
        (refl, omega (arith, h)))

-- Closing returns on every way.
module _ {W : Type 0} (mqi : Mqi W) where
  pub close_subscription-Finishes :
      (hsub hobj : ℕ) (σ : System W) → Finishes (close_subscription mqi hsub hobj σ)
  unfolding close_subscription
  close_subscription-Finishes hsub hobj σ = ground arith

  close_subscriptions-Finishes :
      (subs : List SubHandle) (σ : System W) → Finishes (close_subscriptions mqi subs σ)
  unfolding close_subscriptions
  close_subscriptions-Finishes [] σ = tt
  close_subscriptions-Finishes (sub ∷ subs) σ =
      Finishes-bind (close_subscription mqi sub.hsub sub.hobj) (λ a. close_subscriptions mqi subs) σ
        (close_subscription-Finishes sub.hsub sub.hobj σ) (λ a. close_subscriptions-Finishes subs)

  unsubscribe_all-Finishes : (σ : System W) → Finishes (unsubscribe_all mqi σ)
  unfolding unsubscribe_all
  unsubscribe_all-Finishes σ =
      let subs = σ.client.subscriptions in
      Finishes-bind (close_subscriptions mqi subs)
        (λ a. modify (λ c. record c { subscriptions = [] })) σ (close_subscriptions-Finishes subs σ)
        (λ a σ'. tt)

  close_if-Finishes :
      (open_ : Bool) (hobj : ℕ) (f : ClientState → ClientState) (σ : System W)
      → Finishes (when open_ (close_queue mqi hobj >> modify f) σ)
  unfolding close_queue
  close_if-Finishes open_ hobj f σ = ground arith

  close_open_queues-Finishes :
      (c : ClientState) (σ : System W) → Finishes (close_open_queues mqi c σ)
  unfolding close_open_queues
  close_open_queues-Finishes c σ =
      Finishes-bind
        (when c.stats_open
          (close_queue mqi c.stats_queue >> modify (λ c. record c { stats_queue = 0 })))
        (λ a.
          when c.acct_open
            (close_queue mqi c.acct_queue >> modify (λ c. record c { acct_queue = 0 })))
        σ (close_if-Finishes c.stats_open c.stats_queue (λ c. record c { stats_queue = 0 }) σ)
        (λ a. close_if-Finishes c.acct_open c.acct_queue (λ c. record c { acct_queue = 0 }))

  pub disconnect-Finishes : (σ : System W) → Finishes (disconnect mqi σ)
  unfolding disconnect end_connection
  disconnect-Finishes σ =
      let c = σ.client in
      Finishes-if (not c.connected && is_nil c.subscriptions && not c.stats_open && not c.acct_open)
        (pure tt) (unsubscribe_all mqi >> (close_open_queues mqi c >> end_connection mqi)) σ tt
        (Finishes-bind (unsubscribe_all mqi) (λ a. (close_open_queues mqi c >> end_connection mqi))
          σ (unsubscribe_all-Finishes σ)
          (λ a σ'.
            Finishes-bind (close_open_queues mqi c) (λ a. end_connection mqi) σ'
              (close_open_queues-Finishes c σ') (λ a σ''. tt)))
