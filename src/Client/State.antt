-- ===== src/Client/State.antt =====
-- The members of `MQClient` and its exceptions (include/ibmmq_exporter/mqclient.h,
-- src/mqclient.cpp). A method changes the members and the world of the MQ library, and both come
-- back after an exception too.
use ibmmq_metrics_exporter.Base.{ℕ, Bool, false, List, [], if◌then◌else◌, Option, none, some}
use ibmmq_metrics_exporter.Memory.{Fault, Result, ok, err}

pub record SubHandle : Type 0 where
  pub hobj : ℕ
  pub hsub : ℕ

-- `hconn_` and its like are named without the underscore.
pub record ClientState : Type 0 where
  pub hconn : ℕ
  pub stats_queue : ℕ
  pub acct_queue : ℕ
  pub connected : Bool
  pub stats_open : Bool
  pub acct_open : Bool
  pub platform : ℕ
  pub subscriptions : List SubHandle

abbrev pub new_client : ClientState
new_client = record {
  hconn = 0;
  stats_queue = 0;
  acct_queue = 0;
  connected = false;
  stats_open = false;
  acct_open = false;
  platform = 0;
  subscriptions = [];
}

-- The numbers are reason codes.
pub data Exception : Type 0 where
  connect_failed open_failed get_failed : ℕ → Exception
  not_connected unknown_queue_type connection_broken length_error parse_failed : Exception

-- How a method ends: it returns, throws, or has read outside a buffer, after which nothing is
-- promised.
pub data Outcome (A : Type 0) : Type 0 where
  returned : A → Outcome A
  thrown : Exception → Outcome A
  undefined : Fault → Outcome A

pub record System (W : Type 0) : Type 0 where
  pub client : ClientState
  pub world : W

-- A method over a state that it changes.
abbrev pub Run : Type 0 → Type 0 → Type 0
Run S A = S → Outcome A × S

abbrev pub Method : Type 0 → Type 0 → Type 0
Method W A = Run (System W) A

module _ {S A : Type 0} where
  abbrev pub pure : A → Run S A
  pure a σ = (returned a, σ)

  abbrev pub throw : Exception → Run S A
  throw e σ = (thrown e, σ)

  -- A computation on memory alone.
  abbrev pub lift : Result A → Run S A
  lift (ok a) σ = (returned a, σ)
  lift (err Fault.length_error) σ = (thrown length_error, σ)
  lift (err Fault.insufficient_data) σ = (thrown parse_failed, σ)
  lift (err fault) σ = (undefined fault, σ)

module _ {W A : Type 0} where
  -- A call of the library.
  abbrev pub call : (W → A × W) → Method W A
  call f σ = let (a, w) = f σ.world in (returned a, record σ { world = w })

  abbrev pub gets : (ClientState → A) → Method W A
  gets f σ = (returned (f σ.client), σ)

abbrev pub modify : {W : Type 0} → (ClientState → ClientState) → Method W (Unit {0})
modify f σ = (returned tt, record σ { client = f σ.client })

abbrev pub when : {S : Type 0} → Bool → Run S (Unit {0}) → Run S (Unit {0})
when b m = if b then m else pure tt

infixl 5 ◌>>=◌ ◌>>◌
abbrev pub ◌>>=◌ : {S A B : Type 0} → Run S A → (A → Run S B) → Run S B
◌>>=◌ m f σ =
    let (r, σ') = m σ in
    elim r [
      | returned a ↦ f a σ'
      | thrown e ↦ (thrown e, σ')
      | undefined fault ↦ (undefined fault, σ')
    ]

abbrev pub ◌>>◌ : {S A B : Type 0} → Run S A → Run S B → Run S B
m >> k = m >>= λ _. k

-- `try { m } catch (...) { ... }`, where the handler goes by whether there is a value.
abbrev pub attempt : {S A : Type 0} → Run S A → Run S (Option A)
attempt m σ =
    let (r, σ') = m σ in
    elim r [
      | returned a ↦ (returned (some a), σ')
      | thrown e ↦ (returned none, σ')
      | undefined fault ↦ (undefined fault, σ')
    ]
