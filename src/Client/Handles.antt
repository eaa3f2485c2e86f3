-- ===== src/Client/Handles.antt =====
-- What src/mqclient.cpp holds of the MQ library: object handles and a connection. The laws of the
-- library's calls, and what a state of the client owns.
pub mod Opening
pub mod Topics
pub mod Commands
pub mod Members
pub mod Disconnect
pub mod Calls
pub mod Reach
use ibmmq_metrics_exporter.Base.{
  ℕ, ◌+◌, ◌-◌, ◌≤◌, ◌≡◌, Bool, true, false, not, ◌||◌, List, [], ◌∷◌, ◌==◌, if◌then◌else◌, is_nil,
}
use ibmmq_metrics_exporter.Memory.{Bytes}
use ibmmq_metrics_exporter.Client.Mqi.{
  has_failed, ConnectOptions, ObjectDesc, PutDesc, GetOptions, SubDesc, Mqi,
}
use ibmmq_metrics_exporter.Client.State.{SubHandle, ClientState, System}

pub data Resource : Type 0 where
  object : ℕ → Resource
  connection : Resource

-- How many of a resource the holder of a handle holds: MQHO_NONE, which is 0, is no handle.
unfoldable pub counts : ℕ → Resource → ℕ
counts h connection = 0
counts h (object k) = if h == 0 then 0 else if h == k then 1 else 0

unfoldable pub counts_connection : Resource → ℕ
counts_connection connection = 1
counts_connection (object k) = 0

-- The calls, by what they do to the number of the handles that are open. MQCLOSE and MQDISC let go
-- of their handle also where they fail, as they do on a connection that is broken. MQSUB leaves the
-- handle of a queue that it is given.
pub record HandleLaws {W : Type 0} (mqi : Mqi W) (opened : W → Resource → ℕ) : Type 0 where
  pub mqconnx_failed :
      (q : Bytes) (o : ConnectOptions) (w : W) (r : Resource)
      → has_failed (mqi.mqconnx q o w).0.cc ≡ true
      → opened (mqi.mqconnx q o w).1 r ≤ opened w r
  pub mqconnx_made :
      (q : Bytes) (o : ConnectOptions) (w : W) (r : Resource)
      → opened (mqi.mqconnx q o w).1 r ≤ opened w r + counts_connection r
  pub mqdisc_lets_go :
      (hconn : ℕ) (w : W) (r : Resource)
      → opened (mqi.mqdisc hconn w).1 r ≤ opened w r - counts_connection r
  pub mqopen_failed :
      (hconn : ℕ) (od : ObjectDesc) (options : ℕ) (w : W) (r : Resource)
      → has_failed (mqi.mqopen hconn od options w).0.cc ≡ true
      → opened (mqi.mqopen hconn od options w).1 r ≤ opened w r
  pub mqopen_made :
      (hconn : ℕ) (od : ObjectDesc) (options : ℕ) (w : W) (r : Resource)
      → (let o = mqi.mqopen hconn od options w in opened o.1 r ≤ opened w r + counts o.0.hobj r)
  pub mqclose_lets_go :
      (hconn hobj options : ℕ) (w : W) (r : Resource)
      → opened (mqi.mqclose hconn hobj options w).1 r ≤ opened w r - counts hobj r
  pub mqinq_quiet :
      (hconn hobj : ℕ) (selectors : List ℕ) (w : W) (r : Resource)
      → opened (mqi.mqinq hconn hobj selectors w).1 r ≤ opened w r
  pub mqput_quiet :
      (hconn hobj : ℕ) (md : PutDesc) (d : Bytes) (w : W) (r : Resource)
      → opened (mqi.mqput hconn hobj md d w).1 r ≤ opened w r
  pub mqget_quiet :
      (hconn hobj : ℕ) (gmo : GetOptions) (size : ℕ) (w : W) (r : Resource)
      → opened (mqi.mqget hconn hobj gmo size w).1 r ≤ opened w r
  pub mqsub_failed :
      (hconn : ℕ) (sd : SubDesc) (hobj : ℕ) (w : W) (r : Resource)
      → has_failed (mqi.mqsub hconn sd hobj w).0.cc ≡ true
      → opened (mqi.mqsub hconn sd hobj w).1 r ≤ opened w r
  pub mqsub_made :
      (hconn : ℕ) (sd : SubDesc) (hobj : ℕ) (w : W) (r : Resource)
      → (let s = mqi.mqsub hconn sd hobj w in opened s.1 r ≤ opened w r + counts s.0.hsub r)
  pub mqsub_keeps :
      (hconn : ℕ) (sd : SubDesc) (hobj : ℕ) (w : W) → (mqi.mqsub hconn sd hobj w).0.hobj ≡ hobj

-- A queue that is closed is not held, whatever its handle's member says.
abbrev pub held_queue : Bool → ℕ → Resource → ℕ
held_queue open_ h r = if open_ then counts h r else 0

abbrev pub held_subs : List SubHandle → Resource → ℕ
held_subs [] r = 0
held_subs (sub ∷ subs) r = counts sub.hobj r + counts sub.hsub r + held_subs subs r

-- The client answers for its connection while it is connected or has a queue open.
abbrev pub is_live : ClientState → Bool
is_live c = c.connected || c.stats_open || c.acct_open

abbrev pub held_connection : Bool → Resource → ℕ
held_connection live r = if live then counts_connection r else 0

-- What the members of a client answer for.
abbrev pub owned : ClientState → Resource → ℕ
owned c r =
    held_connection (is_live c) r
    + held_queue c.stats_open c.stats_queue r
    + held_queue c.acct_open c.acct_queue r
    + held_subs c.subscriptions r

module _ {W : Type 0} (opened : W → Resource → ℕ) (r : Resource) where
  -- A resource is held `b` times at most, and the members are known.
  abbrev pub At : ClientState → ℕ → System W → Type 0
  At c b σ = (σ.client ≡ c) × (opened σ.world r ≤ b)

  -- It is held at most as often as `base` says and the client's members answer for.
  abbrev pub Within : ℕ → System W → Type 0
  Within base σ = opened σ.world r ≤ base + owned σ.client r
