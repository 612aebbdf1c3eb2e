-- ===== src/Lite/Grants.antt =====
-- lite/grants.go: what stops a hot key from running the node, and what will soon. Times are numbers of
-- nanoseconds. The messages' type URLs and the allowances' methods are the SDK's.
pub mod Ready
use dvpnd.Prelude.{
  ℕ, ◌+◌, ◌<◌, ◌≡◌, refl, ltb, leb, ◌==◌, Bool, true, false, not, ◌⊎◌, inl, inr, Option, none, some,
  List, [], ◌∷◌, ◌++◌, Bytes, bytes_eq, All, Bool-cases, if◌then◌else◌, arith,
}
use dvpnd.Prelude.Results.{Err, Result, ok, err}
use dvpnd.PeerSet.{among}

-- GrantState
pub record GrantState : Type 0 where
  pub found : Bool
  pub expiry : Option ℕ

-- What an allowance says of itself: when it expires, and what is left of each denomination when it has
-- a spend limit (BasicAllowance and PeriodicAllowance).
pub record Limits : Type 0 where
  pub expires_at : Result (Option ℕ)
  pub spend_limit : Option (Bytes → ℕ)

-- An AllowedMsgAllowance names the messages that it covers and holds another allowance, when that can
-- be read.
pub data Allowance : Type 0 where
  any_message : Limits → Allowance
  allowed_messages : List Bytes → Option Limits → Allowance

pub record Coin : Type 0 where
  pub denom : Bytes
  pub amount : ℕ

pub data Problem : Type 0 where
  no_grant : Bytes → Problem
  grant_expired : Bytes → ℕ → Problem
  no_allowance : Problem
  not_covered : Problem
  unreadable : Problem
  allowance_expired : ℕ → Problem
  exhausted : Bytes → Problem

pub data Warning : Type 0 where
  grant_expires : Bytes → ℕ → Warning
  allowance_expires : ℕ → Warning
  running_low : Bytes → Warning

abbrev pub Findings : Type 0
Findings = List Problem × List Warning

abbrev pub both : Findings → Findings → Findings
both (p, w) (q, v) = (p ++ q, w ++ v)

-- GrantWarningWindow, 14 days
abbrev pub grant_warning_window : ℕ
grant_warning_window = 1209600000000000

module _ (now : ℕ) where
  abbrev pub expiry_findings : Bytes → Option ℕ → Findings
  expiry_findings url none = ([], [])
  expiry_findings url (some t) =
      if leb t now
      then (grant_expired url t ∷ [], [])
      else if ltb t (now + grant_warning_window)
      then ([], grant_expires url t ∷ [])
      else ([], [])

  abbrev pub grant_findings : Bytes → GrantState → Findings
  grant_findings url g =
      if not g.found then (no_grant url ∷ [], []) else expiry_findings url g.expiry

  unfoldable pub all_grants : List Bytes → (Bytes → GrantState) → Findings
  all_grants [] grants = ([], [])
  all_grants (url ∷ urls) grants = both (grant_findings url (grants url)) (all_grants urls grants)

  abbrev pub allowance_expiry : Result (Option ℕ) → Findings
  allowance_expiry (err e) = ([], [])
  allowance_expiry (ok none) = ([], [])
  allowance_expiry (ok (some t)) =
      if leb t now
      then (allowance_expired t ∷ [], [])
      else if ltb t (now + grant_warning_window)
      then ([], allowance_expires t ∷ [])
      else ([], [])

  abbrev pub coin_findings : (Bytes → ℕ) → Coin → Findings
  coin_findings left c =
      if not (ltb (left c.denom) c.amount)
      then ([], [])
      else if left c.denom == 0
      then (exhausted c.denom ∷ [], [])
      else ([], running_low c.denom ∷ [])

  unfoldable pub spend_findings : List Coin → Option (Bytes → ℕ) → Findings
  spend_findings coins none = ([], [])
  spend_findings [] (some left) = ([], [])
  spend_findings (c ∷ coins) (some left) =
      both (coin_findings left c) (spend_findings coins (some left))

  unfoldable pub limits_findings : List Coin → Limits → Findings
  unfolding spend_findings
  limits_findings min_spend l =
      both (allowance_expiry l.expires_at) (spend_findings min_spend l.spend_limit)

  unfoldable pub inner_findings : List Coin → Option Limits → Findings
  unfolding limits_findings
  inner_findings min_spend none = (unreadable ∷ [], [])
  inner_findings min_spend (some l) = limits_findings min_spend l

  unfoldable pub allowance_findings : Bytes → List Coin → Option Allowance → Findings
  unfolding limits_findings inner_findings among
  allowance_findings exec_url min_spend none = (no_allowance ∷ [], [])
  allowance_findings exec_url min_spend (some (any_message l)) = limits_findings min_spend l
  allowance_findings exec_url min_spend (some (allowed_messages urls inner)) =
      both (if among exec_url urls then ([], []) else (not_covered ∷ [], []))
        (inner_findings min_spend inner)

  -- EvaluateGrants
  unfoldable pub evaluate_grants :
      List Bytes → Bytes → (Bytes → GrantState) → Option Allowance → List Coin → Findings
  unfolding all_grants allowance_findings
  evaluate_grants urls exec_url grants allowance min_spend =
      both (all_grants urls grants) (allowance_findings exec_url min_spend allowance)
