-- ===== src/Client/Handles/Topics.antt =====
-- What the subscriptions of src/mqclient.cpp do to the handles that are open.
use ibmmq_metrics_exporter.Base.{
  ℕ, zero, suc, ◌||◌, ◌+◌, ◌≡◌, refl, true, false, not, List, [], ◌∷◌, ◌++◌, replicate, Option,
  none, some, codes, arith,
}
use ibmmq_metrics_exporter.Memory.{Bytes, is_pos}
use ibmmq_metrics_exporter.Client.Buffers.{publication_size, publication, retained_of}
use ibmmq_metrics_exporter.Client.Mqi.{
  Mqi, Subscribed, write_front, has_failed, mqoo_input_exclusive, mqco_delete_purge,
}
use ibmmq_metrics_exporter.Client.State.{SubHandle, ClientState, System, pure, lift, ◌>>=◌}
use ibmmq_metrics_exporter.Client.Connection.{open_dynamic_queue, close_subscription}
use ibmmq_metrics_exporter.Client.Topics.{
  model_queue, retained_options, publication_options, messages_loop, sub_desc, subscribe_at,
  subscribe_with, keep_subscription, subscribe_to_topic, handles_made, receive_publications,
  subscriptions_loop, get_messages_from_handle, get_retained, subscribe_and_get,
  create_subscription,
}
use ibmmq_metrics_exporter.Client.Handles.{
  Resource, counts, held_subs, HandleLaws, At, Within, owned,
}
use ibmmq_metrics_exporter.Client.Ends.{
  Ends, Ends-bind, Ends-attempt, Ends-if, Ends-elim, Ends-lift, Ends-map, Ends-lift_bind,
}
use ibmmq_metrics_exporter.Client.Handles.Opening.{open_dynamic_queue-Ends, close_subscription-Ends}

module _ {W : Type 0} (mqi : Mqi W) (opened : W → Resource → ℕ) (laws : HandleLaws mqi opened)
    (r : Resource) (c : ClientState) (b : ℕ) (x : System W → Type 0) where
  -- Both handles are the caller's, or there is neither.
  abbrev pub Made : Option Subscribed → System W → Type 0
  Made none σ = At opened r c b σ
  Made (some s) σ = At opened r c (b + counts s.hobj r + counts s.hsub r) σ

  subscribe_at-Ends :
      (topic : Bytes) (hobj : ℕ) (σ : System W)
      → At opened r c (b + counts hobj r) σ
      → Ends Made x (subscribe_at mqi topic hobj σ)
  unfolding subscribe_at
  subscribe_at-Ends topic hobj σ h =
      let s = mqi.mqsub σ.client.hconn (sub_desc topic) hobj σ.world in
      ground (
        arith,
        h,
        laws.mqsub_failed σ.client.hconn (sub_desc topic) hobj σ.world r,
        laws.mqsub_made σ.client.hconn (sub_desc topic) hobj σ.world r,
        laws.mqsub_keeps σ.client.hconn (sub_desc topic) hobj σ.world,
        laws.mqclose_lets_go σ.client.hconn s.0.hobj mqco_delete_purge s.1 r,
      )

  pub subscribe_with-Ends :
      (dynamic topic : Bytes) (σ : System W)
      → At opened r c b σ
      → Ends Made x (subscribe_with mqi dynamic topic σ)
  unfolding subscribe_with
  subscribe_with-Ends dynamic topic σ h =
      Ends-attempt (λ q. At opened r c (b + counts q.0 r)) Made x (At opened r c b)
        (open_dynamic_queue mqi model_queue mqoo_input_exclusive dynamic)
        (λ made. elim made [ none ↦ pure none | some dest ↦ subscribe_at mqi topic dest.0 ]) σ
        (open_dynamic_queue-Ends mqi opened laws r c b model_queue mqoo_input_exclusive dynamic σ h)
        (λ σ' k. k) (λ dest σ'. subscribe_at-Ends topic dest.0 σ')

module _ {W : Type 0} (mqi : Mqi W) (opened : W → Resource → ℕ) (laws : HandleLaws mqi opened)
    (r : Resource) (c : ClientState) (b : ℕ) where
  -- The message is taken, and both handles are given back before it is looked at.
  pub get_retained-Ends :
      (made : Option Subscribed) (σ : System W)
      → Made mqi opened laws r c b (At opened r c b) made σ
      → Ends (λ a. At opened r c b) (At opened r c b) (get_retained mqi made σ)
  unfolding get_retained
  get_retained-Ends none σ h = h
  get_retained-Ends (some s) σ (e, h) =
      let g = mqi.mqget σ.client.hconn s.hobj retained_options publication_size σ.world in
      Ends-bind (λ a. At opened r c b) (λ a. At opened r c b) (At opened r c b)
        (close_subscription mqi s.hsub s.hobj) (λ a. lift (retained_of g.0))
        (record σ { world = g.1 })
        (close_subscription-Ends mqi opened laws r c b (At opened r c b) s.hsub s.hobj _ (
          e,
          omega (
            arith,
            h,
            laws.mqget_quiet σ.client.hconn s.hobj retained_options publication_size σ.world r,
          ),
        ))
        (λ a σ' k.
          Ends-lift (λ a. At opened r c b) (At opened r c b) (retained_of g.0) σ' (λ a. k) k)

  pub subscribe_and_get-Ends :
      (topic : Bytes) (σ : System W)
      → At opened r c b σ
      → Ends (λ a. At opened r c b) (At opened r c b) (subscribe_and_get mqi topic σ)
  unfolding subscribe_and_get
  subscribe_and_get-Ends topic σ h = ground (
    arith,
    h,
    Ends-bind (Made mqi opened laws r c b (At opened r c b)) (λ a. At opened r c b)
        (At opened r c b) (subscribe_with mqi (codes "EXPORTER.SUB.*") topic) (get_retained mqi) σ
        (subscribe_with-Ends mqi opened laws r c b (At opened r c b) (codes "EXPORTER.SUB.*") topic
          σ h)
        get_retained-Ends,
  )

  pub messages_loop-Ends :
      (i hobj : ℕ) (buffer : Bytes) (σ : System W)
      → At opened r c b σ
      → Ends (λ a. At opened r c b) (At opened r c b) (messages_loop mqi i hobj buffer σ)
  unfolding messages_loop
  messages_loop-Ends zero hobj buffer σ h = h
  messages_loop-Ends (suc i) hobj buffer σ (e, h) =
      let p = mqi.mqget σ.client.hconn hobj publication_options publication_size σ.world in
      let g = p.0 in
      let buffer' = write_front publication_size g.written buffer in
      let σ' : System W = record σ { world = p.1 } in
      let h' : At opened r c b σ' = (
        e,
        omega (
          arith,
          h,
          laws.mqget_quiet σ.client.hconn hobj publication_options publication_size σ.world r,
        ),
      ) in
      Ends-elim (λ a. At opened r c b) (At opened r c b) (has_failed g.cc || not (is_pos g.datalen))
        (pure ([], buffer'))
        (lift (publication buffer' g) >>= λ msg.
          (messages_loop mqi i hobj buffer' >>= λ rest. pure (msg ∷ rest.0, rest.1)))
        σ' h'
        (Ends-lift_bind (λ a. At opened r c b) (At opened r c b) (publication buffer' g)
          (λ msg. (messages_loop mqi i hobj buffer' >>= λ rest. pure (msg ∷ rest.0, rest.1))) σ'
          (λ msg.
            Ends-map (λ a. At opened r c b) (At opened r c b) (messages_loop mqi i hobj buffer')
              (λ rest. (msg ∷ rest.0, rest.1)) σ' (messages_loop-Ends i hobj buffer' σ' h'))
          (λ f. h'))

  subscriptions_loop-Ends :
      (subs : List SubHandle) (buffer : Bytes) (σ : System W)
      → At opened r c b σ
      → Ends (λ a. At opened r c b) (At opened r c b) (subscriptions_loop mqi subs buffer σ)
  unfolding subscriptions_loop
  subscriptions_loop-Ends [] buffer σ h = h
  subscriptions_loop-Ends (sub ∷ subs) buffer σ h =
      Ends-bind (λ a. At opened r c b) (λ a. At opened r c b) (At opened r c b)
        (messages_loop mqi 500 sub.hobj buffer)
        (λ messages. (subscriptions_loop mqi subs messages.1 >>= λ rest. pure (messages.0 ++ rest)))
        σ (messages_loop-Ends 500 sub.hobj buffer σ h)
        (λ messages σ' k.
          Ends-map (λ a. At opened r c b) (At opened r c b) (subscriptions_loop mqi subs messages.1)
            (λ rest. messages.0 ++ rest) σ' (subscriptions_loop-Ends subs messages.1 σ' k))

  pub receive_publications-Ends :
      (σ : System W)
      → At opened r c b σ
      → Ends (λ a. At opened r c b) (At opened r c b) (receive_publications mqi σ)
  unfolding receive_publications
  receive_publications-Ends σ h =
      ground (
        arith,
        h,
        subscriptions_loop-Ends σ.client.subscriptions (replicate publication_size 0) σ h,
      )

  pub get_messages_from_handle-Ends :
      (hobj max_messages : ℕ) (σ : System W)
      → At opened r c b σ
      → Ends
          (λ a. At opened r c b)
          (At opened r c b)
          (get_messages_from_handle mqi hobj max_messages σ)
  unfolding get_messages_from_handle
  get_messages_from_handle-Ends hobj max_messages σ h =
      let buffer : Bytes = replicate publication_size 0 in
      ground (
        arith,
        h,
        Ends-map (λ a. At opened r c b) (At opened r c b)
            (messages_loop mqi max_messages hobj buffer) (λ messages. messages.0) σ
            (messages_loop-Ends max_messages hobj buffer σ h),
      )

  -- What the caller is given are handles that it holds.
  abbrev pub Given : Option (ℕ × ℕ) → System W → Type 0
  Given none σ = At opened r c b σ
  Given (some (hobj, hsub)) σ = At opened r c (b + counts hobj r + counts hsub r) σ

  Made-Given :
      (made : Option Subscribed) (σ : System W)
      → Made mqi opened laws r c b (At opened r c b) made σ
      → Given (handles_made mqi made) σ
  Made-Given none σ h = h
  Made-Given (some s) σ h = h

  pub create_subscription-Ends :
      (topic : Bytes) (σ : System W)
      → At opened r c b σ
      → Ends Given (At opened r c b) (create_subscription mqi topic σ)
  unfolding create_subscription
  create_subscription-Ends topic σ h = ground (
    arith,
    h,
    Ends-bind (Made mqi opened laws r c b (At opened r c b)) Given (At opened r c b)
        (subscribe_with mqi (codes "EXPORTER.PUB.*") topic) (λ made. pure (handles_made mqi made)) σ
        (subscribe_with-Ends mqi opened laws r c b (At opened r c b) (codes "EXPORTER.PUB.*") topic
          σ h)
        Made-Given,
  )

pub held_subs-append :
    (subs more : List SubHandle) (r : Resource)
    → held_subs (subs ++ more) r ≡ held_subs subs r + held_subs more r
held_subs-append [] more r = omega arith
held_subs-append (sub ∷ subs) more r = omega (arith, held_subs-append subs more r)

module _ {W : Type 0} (mqi : Mqi W) (opened : W → Resource → ℕ) (laws : HandleLaws mqi opened)
    (r : Resource) (base : ℕ) where
  keep_subscription-Ends :
      (c : ClientState) (made : Option Subscribed) (σ : System W)
      → c.connected ≡ true
      → Made mqi opened laws r c (base + owned c r) (Within opened r base) made σ
      → Ends (λ a. Within opened r base) (Within opened r base) (keep_subscription mqi made σ)
  unfolding keep_subscription
  keep_subscription-Ends c none σ e (f, h) = rw f h
  keep_subscription-Ends c (some s) σ e (f, h) =
      let sub : SubHandle = record { hobj = s.hobj; hsub = s.hsub } in
      rw f (ground (arith, e, h, held_subs-append c.subscriptions (sub ∷ []) r))

  pub subscribe_to_topic-Ends :
      (topic : Bytes) (σ : System W)
      → Within opened r base σ
      → Ends (λ a. Within opened r base) (Within opened r base) (subscribe_to_topic mqi topic σ)
  unfolding subscribe_to_topic
  subscribe_to_topic-Ends topic σ h =
      let b = base + owned σ.client r in
      Ends-if (λ a. Within opened r base) (Within opened r base) (not σ.client.connected)
        (pure false) (subscribe_with mqi (codes "EXPORTER.PUB.*") topic >>= keep_subscription mqi) σ
        (λ e. h)
        (λ e.
          Ends-bind (Made mqi opened laws r σ.client b (Within opened r base))
            (λ a. Within opened r base) (Within opened r base)
            (subscribe_with mqi (codes "EXPORTER.PUB.*") topic) (keep_subscription mqi) σ
            (subscribe_with-Ends mqi opened laws r σ.client b (Within opened r base)
              (codes "EXPORTER.PUB.*") topic σ (refl, h))
            (λ made σ'. keep_subscription-Ends σ.client made σ' (ground (arith, e))))
