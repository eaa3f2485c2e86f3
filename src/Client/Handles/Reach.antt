-- ===== src/Client/Handles/Reach.antt =====
-- The states of `MQClient` that its methods reach (src/mqclient.cpp), and what is open in them.
use ibmmq_metrics_exporter.Base.{ℕ, ◌+◌, ◌≤◌, ◌≡◌, refl, List, [], ◌∷◌, ◌++◌, none, some, arith}
use mathlib.Core.Path.{subst}
use ibmmq_metrics_exporter.Memory.{Bytes}
use ibmmq_metrics_exporter.Client.Mqi.{Mqi}
use ibmmq_metrics_exporter.Client.State.{
  SubHandle, new_client, Outcome, returned, thrown, undefined, System,
}
use ibmmq_metrics_exporter.Client.Connection.{close_subscription, disconnect}
use ibmmq_metrics_exporter.Client.Topics.{create_subscription}
use ibmmq_metrics_exporter.Client.Handles.{Resource, held_subs, owned, HandleLaws, At, Within}
use ibmmq_metrics_exporter.Client.Ends.{Ends}
use ibmmq_metrics_exporter.Client.Finishes.{Ended, Finishes-Ended, Delivers, Ends-Delivers}
use ibmmq_metrics_exporter.Client.Handles.Opening.{close_subscription-Ends}
use ibmmq_metrics_exporter.Client.Handles.Topics.{Given, create_subscription-Ends, held_subs-append}
use ibmmq_metrics_exporter.Client.Handles.Disconnect.{
  IsEmpty, disconnect-Ends, close_subscription-Finishes, disconnect-Finishes,
}
use ibmmq_metrics_exporter.Client.Handles.Calls.{Call, perform, MayCall, perform-Within}

-- The states of a client that is new at `w`, and of what its callers hold in between: any calls in
-- any order, where nothing is opened over what is open and a subscription is closed by its holder.
pub data Reach {W : Type 0} (mqi : Mqi W) (w : W) : List SubHandle → System W → Type 0 where
  start : Reach mqi w [] (record { client = new_client; world = w })
  called :
      {held : List SubHandle} {σ : System W}
      → Reach mqi w held σ
      → (call : Call) → MayCall call σ.client
      → Ended (perform mqi call σ)
      → Reach mqi w held (perform mqi call σ).1
  created :
      {held : List SubHandle} {σ : System W}
      → Reach mqi w held σ
      → (topic : Bytes) (hobj hsub : ℕ)
      → (create_subscription mqi topic σ).0 ≡ returned (some (hobj, hsub))
      → Reach mqi w (record { hobj = hobj; hsub = hsub } ∷ held) (create_subscription mqi topic σ).1
  refused :
      {held : List SubHandle} {σ : System W}
      → Reach mqi w held σ
      → (topic : Bytes) → (create_subscription mqi topic σ).0 ≡ returned none
      → Reach mqi w held (create_subscription mqi topic σ).1
  closed :
      (held later : List SubHandle) (sub : SubHandle) (σ : System W)
      → Reach mqi w (held ++ sub ∷ later) σ
      → Reach mqi w (held ++ later) (close_subscription mqi sub.hsub sub.hobj σ).1

Ends-Ended :
    {W A : Type 0} (e : System W → Type 0) (p : Outcome A × System W)
    → Ends (λ a. e) e p
    → Ended p
    → e p.1
Ends-Ended e (returned a, σ) h k = h
Ends-Ended e (thrown x, σ) h k = h
Ends-Ended e (undefined fault, σ) h k = elim k [ ]

Ends-returned :
    {W A : Type 0} (q : A → System W → Type 0) (e : System W → Type 0) (p : Outcome A × System W)
    (a : A)
    → p.0 ≡ returned a
    → Ends q e p
    → q a p.1
Ends-returned q e (o, σ) a f h = subst (λ o. Ends q e (o, σ)) f h

module _ {W : Type 0} (mqi : Mqi W) (opened : W → Resource → ℕ) (laws : HandleLaws mqi opened)
    (r : Resource) (w : W) where
  Reach-Within :
      (held : List SubHandle) (σ : System W)
      → Reach mqi w held σ
      → Within opened r (opened w r + held_subs held r) σ
  Reach-Within held σ start = omega arith
  Reach-Within held σ (called {σ = σ'} reach call may ended) =
      Ends-Ended (Within opened r (opened w r + held_subs held r)) (perform mqi call σ')
        (perform-Within mqi opened laws r (opened w r + held_subs held r) call σ' may
          (Reach-Within held σ' reach))
        ended
  Reach-Within held σ (created {held = before} {σ = σ'} reach topic hobj hsub e) =
      let b = opened w r + held_subs before r + owned σ'.client r in
      let given =
        Ends-returned (Given mqi opened laws r σ'.client b) (At opened r σ'.client b)
          (create_subscription mqi topic σ') (some (hobj, hsub)) e
          (create_subscription-Ends mqi opened laws r σ'.client b topic σ'
            (refl, Reach-Within before σ' reach)) in
      rw (given.0) (omega (arith, given.1))
  Reach-Within held σ (refused {σ = σ'} reach topic e) =
      let b = opened w r + held_subs held r + owned σ'.client r in
      let given =
        Ends-returned (Given mqi opened laws r σ'.client b) (At opened r σ'.client b)
          (create_subscription mqi topic σ') none e
          (create_subscription-Ends mqi opened laws r σ'.client b topic σ'
            (refl, Reach-Within held σ' reach)) in
      rw (given.0) (omega (arith, given.1))
  Reach-Within held σ (closed before later sub σ' reach) =
      let b = opened w r + held_subs (before ++ later) r + owned σ'.client r in
      let given =
        Ends-Ended (At opened r σ'.client b) (close_subscription mqi sub.hsub sub.hobj σ')
          (close_subscription-Ends mqi opened laws r σ'.client b (At opened r σ'.client b) sub.hsub
            sub.hobj σ'
            (
              refl,
              omega (
                arith,
                Reach-Within (before ++ sub ∷ later) σ' reach,
                held_subs-append before later r,
                held_subs-append before (sub ∷ later) r,
              ),
            ))
          (Finishes-Ended (close_subscription mqi sub.hsub sub.hobj σ')
            (close_subscription-Finishes mqi sub.hsub sub.hobj σ')) in
      rw (given.0) (omega (arith, given.1))

  -- Whatever state a client that was new at the world `w` comes to by its methods, in any order and
  -- with exceptions on the way, where connecting and opening come only when nothing is open that
  -- they would write over, no call has read outside its buffer, and the callers close only the
  -- subscriptions that they hold: under the laws of the library's calls, disconnecting returns,
  -- with the client not connected, without subscriptions and with neither queue open, and each
  -- handle, and the connection too, is open at most as often as it was at `w` and as the callers
  -- still hold it.
  pub disconnect-Reach :
      (held : List SubHandle) (σ : System W)
      → Reach mqi w held σ
      → Delivers
          (λ a σ'. IsEmpty σ'.client × (opened σ'.world r ≤ opened w r + held_subs held r))
          (disconnect mqi σ)
  disconnect-Reach held σ reach =
      Ends-Delivers _ (λ σ'. ⊥) (disconnect mqi σ)
        (disconnect-Ends mqi opened laws r (λ σ'. ⊥) (opened w r + held_subs held r) σ
          (Reach-Within held σ reach))
        (disconnect-Finishes mqi σ)
