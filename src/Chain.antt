-- ===== src/Chain.antt =====
-- What the node reads of the chain (lite/query.go's results): sessions, subscriptions and allocations.
-- The chain's types are the SDK's; these are the parts that the node looks at, amounts as integers.
use dvpnd.Prelude.{ℕ, Bool, true, false, Option, Bytes}
use dvpnd.Prelude.Int.{ℤ}
use dvpnd.Prelude.Results.{Result}

pub data Status : Type 0 where
  unspecified active inactive_pending inactive : Status

-- Status.Equal
abbrev pub is_active : Status → Bool
is_active active = true
is_active _ = false

abbrev pub is_inactive : Status → Bool
is_inactive inactive = true
is_inactive _ = false

-- `subscription` is given for a session of a plan subscription.
pub record ChainSession : Type 0 where
  pub id : ℕ
  pub status : Status
  pub acc_address : Bytes
  pub node_address : Bytes
  pub max_bytes : ℤ
  pub download : ℤ
  pub upload : ℤ
  pub total_bytes : ℤ
  pub duration : ℤ
  pub status_at : ℤ
  pub subscription : Option ℕ

pub record Subscription : Type 0 where
  pub id : ℕ
  pub status : Status

pub record Allocation : Type 0 where
  pub granted_bytes : ℤ
  pub utilised_bytes : ℤ

-- chainQuerier: a query fails, finds nothing, or finds a value.
pub record Chain : Type 0 where
  pub query_session : ℕ → Result (Option ChainSession)
  pub query_subscription : ℕ → Result (Option Subscription)
  pub query_allocation : ℕ → Bytes → Result (Option Allocation)
