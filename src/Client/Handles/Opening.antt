-- ===== src/Client/Handles/Opening.antt =====
-- What opening and closing objects in src/mqclient.cpp does to the handles that are open.
use ibmmq_metrics_exporter.Base.{ℕ, ◌+◌, ◌≡◌, true, List, [], ◌∷◌, replicate, ◌==◌, arith}
use ibmmq_metrics_exporter.Memory.{Bytes}
use ibmmq_metrics_exporter.Client.Mqi.{
  Mqi, mqco_none, mqco_delete_purge, mqco_remove_sub, copy_name,
}
use ibmmq_metrics_exporter.Client.State.{SubHandle, ClientState, System}
use ibmmq_metrics_exporter.Client.Connection.{
  queue_desc, close_object, open_queue, open_dynamic_queue, close_queue, close_subscription,
  close_subscriptions,
}
use ibmmq_metrics_exporter.Client.Handles.{Resource, counts, held_subs, HandleLaws, At}
use ibmmq_metrics_exporter.Client.Ends.{Ends, Ends-bind}

counts_zero : (h : ℕ) (r : Resource) → (h == 0) ≡ true → counts h r ≡ 0
unfolding counts
counts_zero h r e = ground arith

module _ {W : Type 0} (mqi : Mqi W) (opened : W → Resource → ℕ) (laws : HandleLaws mqi opened)
    (r : Resource) (c : ClientState) (b : ℕ) where
  pub open_queue-Ends :
      (name : Bytes) (options : ℕ) (σ : System W)
      → At opened r c b σ
      → Ends (λ h. At opened r c (b + counts h r)) (At opened r c b) (open_queue mqi name options σ)
  unfolding open_queue
  open_queue-Ends name options σ h =
      let od = queue_desc name (replicate 48 32) in
      ground (
        arith,
        h,
        laws.mqopen_failed σ.client.hconn od options σ.world r,
        laws.mqopen_made σ.client.hconn od options σ.world r,
      )

  pub open_dynamic_queue-Ends :
      (name : Bytes) (options : ℕ) (dynamic : Bytes) (σ : System W)
      → At opened r c b σ
      → Ends
          (λ q. At opened r c (b + counts q.0 r))
          (At opened r c b)
          (open_dynamic_queue mqi name options dynamic σ)
  unfolding open_dynamic_queue
  open_dynamic_queue-Ends name options dynamic σ h =
      let od = queue_desc name (copy_name 48 dynamic) in
      ground (
        arith,
        h,
        laws.mqopen_failed σ.client.hconn od options σ.world r,
        laws.mqopen_made σ.client.hconn od options σ.world r,
      )

-- Closing throws nothing: what would hold behind an exception is free.
module _ {W : Type 0} (mqi : Mqi W) (opened : W → Resource → ℕ) (laws : HandleLaws mqi opened)
    (r : Resource) (c : ClientState) (b : ℕ) (x : System W → Type 0) where
  pub close_object-Ends :
      (hobj options : ℕ) (σ : System W)
      → At opened r c (b + counts hobj r) σ
      → Ends (λ a. At opened r c b) x (close_object mqi hobj options σ)
  close_object-Ends hobj options σ (e, h) =
      (e, omega (arith, h, laws.mqclose_lets_go σ.client.hconn hobj options σ.world r))

  -- A handle of 0 holds nothing.
  pub close_queue-Ends :
      (hobj : ℕ) (σ : System W)
      → At opened r c (b + counts hobj r) σ
      → Ends (λ a. At opened r c b) x (close_queue mqi hobj σ)
  unfolding close_queue
  close_queue-Ends hobj σ h =
      ground
        (arith, h, counts_zero hobj r, laws.mqclose_lets_go σ.client.hconn hobj mqco_none σ.world r)

  pub close_subscription-Ends :
      (hsub hobj : ℕ) (σ : System W)
      → At opened r c (b + counts hobj r + counts hsub r) σ
      → Ends (λ a. At opened r c b) x (close_subscription mqi hsub hobj σ)
  unfolding close_subscription
  close_subscription-Ends hsub hobj σ h =
      let w = (mqi.mqclose σ.client.hconn hsub mqco_remove_sub σ.world).1 in
      ground (
        arith,
        h,
        counts_zero hobj r,
        counts_zero hsub r,
        laws.mqclose_lets_go σ.client.hconn hsub mqco_remove_sub σ.world r,
        laws.mqclose_lets_go σ.client.hconn hobj mqco_delete_purge w r,
        laws.mqclose_lets_go σ.client.hconn hobj mqco_delete_purge σ.world r,
      )

module _ {W : Type 0} (mqi : Mqi W) (opened : W → Resource → ℕ) (laws : HandleLaws mqi opened)
    (r : Resource) (c : ClientState) (b : ℕ) (x : System W → Type 0) where
  pub close_subscriptions-Ends :
      (subs : List SubHandle) (σ : System W)
      → At opened r c (b + held_subs subs r) σ
      → Ends (λ a. At opened r c b) x (close_subscriptions mqi subs σ)
  unfolding close_subscriptions
  close_subscriptions-Ends [] σ (e, h) = (e, omega (arith, h))
  close_subscriptions-Ends (sub ∷ subs) σ (e, h) =
      let b' = b + held_subs subs r in
      Ends-bind (λ a. At opened r c b') (λ a. At opened r c b) x
        (close_subscription mqi sub.hsub sub.hobj) (λ a. close_subscriptions mqi subs) σ
        (close_subscription-Ends mqi opened laws r c b' x sub.hsub sub.hobj σ (e, omega (arith, h)))
        (λ a σ'. close_subscriptions-Ends subs σ')
