-- ===== src/Lite/Grants/Ready.antt =====
-- A hot key of which nothing is reported can run the node.
use dvpnd.Prelude.{
  ℕ, ◌<◌, ◌≡◌, refl, ltb, leb, ◌==◌, true, ◌⊎◌, inl, inr, Option, none, some, List, [], ◌∷◌, ◌++◌,
  Bytes, All, Bool-cases, arith,
}
use dvpnd.Prelude.Results.{Result, ok, err}
use dvpnd.PeerSet.{among}
use dvpnd.Lite.Grants.{
  GrantState, Limits, Allowance, any_message, allowed_messages, Coin, Findings, both,
  expiry_findings, grant_findings, all_grants, allowance_expiry, coin_findings, spend_findings,
  limits_findings, inner_findings, allowance_findings, evaluate_grants,
}

nil_parts : {A : Type 0} (xs ys : List A) → xs ++ ys ≡ [] → (xs ≡ []) × (ys ≡ [])
nil_parts [] ys h = (refl, h)
nil_parts (x ∷ xs) ys h = cc

both_nil : (f g : Findings) → (both f g).0 ≡ [] → (f.0 ≡ []) × (g.0 ≡ [])
both_nil (p, w) (q, v) h = nil_parts p q h

module _ (now : ℕ) where
  abbrev pub Unexpired : Option ℕ → Type 0
  Unexpired none = Unit
  Unexpired (some t) = now < t

  -- An allowance that cannot say when it expires is taken not to.
  abbrev pub Current : Result (Option ℕ) → Type 0
  Current (err e) = Unit
  Current (ok o) = Unexpired o

  abbrev pub Spendable : List Coin → Option (Bytes → ℕ) → Type 0
  Spendable coins none = Unit
  Spendable coins (some left) = All (λ c. (0 < left c.denom) ⊎ (c.amount ≡ 0)) coins

  abbrev pub Covered : List Coin → Option Limits → Type 0
  Covered coins none = ⊥
  Covered coins (some l) = Current l.expires_at × Spendable coins l.spend_limit

  abbrev pub Allowed : Bytes → List Coin → Option Allowance → Type 0
  Allowed exec_url coins none = ⊥
  Allowed exec_url coins (some (any_message l)) = Covered coins (some l)
  Allowed exec_url coins (some (allowed_messages urls inner)) =
      (among exec_url urls ≡ true) × Covered coins inner

  unexpired : (url : Bytes) (o : Option ℕ) → (expiry_findings now url o).0 ≡ [] → Unexpired o
  unexpired url none h = tt
  unexpired url (some t) h = elim (Bool-cases (leb t now)) [
    | inl y ↦ absurd (let k = rw y at h in cc)
    | inr n ↦ ground arith
  ]

  granted :
      (url : Bytes) (g : GrantState)
      → (grant_findings now url g).0 ≡ []
      → (g.found ≡ true) × Unexpired g.expiry
  granted url g h = elim (Bool-cases g.found) [
    | inl y ↦ (y, unexpired url g.expiry (rw y at h))
    | inr n ↦ absurd (let k = rw n at h in cc)
  ]

  All-granted :
      (urls : List Bytes) (grants : Bytes → GrantState)
      → (all_grants now urls grants).0 ≡ []
      → All (λ url. ((grants url).found ≡ true) × Unexpired (grants url).expiry) urls
  unfolding all_grants
  All-granted [] grants h = tt
  All-granted (url ∷ urls) grants h =
      let parts = both_nil (grant_findings now url (grants url)) (all_grants now urls grants) h in
      (granted url (grants url) parts.0, All-granted urls grants parts.1)

  current : (r : Result (Option ℕ)) → (allowance_expiry now r).0 ≡ [] → Current r
  current (err e) h = tt
  current (ok none) h = tt
  current (ok (some t)) h = elim (Bool-cases (leb t now)) [
    | inl y ↦ absurd (let k = rw y at h in cc)
    | inr n ↦ ground arith
  ]

  left_over :
      (left : Bytes → ℕ) (c : Coin)
      → (coin_findings now left c).0 ≡ []
      → (0 < left c.denom) ⊎ (c.amount ≡ 0)
  left_over left c h = elim (Bool-cases (left c.denom == 0)) [
    | inr n ↦ inl (ground arith)
    | inl y ↦ elim (Bool-cases (ltb (left c.denom) c.amount)) [
      | inl z ↦ absurd (let k = rw z at h in let k' = rw y at k in cc)
      | inr z ↦ inr (ground arith)
    ]
  ]

  spendable :
      (coins : List Coin) (o : Option (Bytes → ℕ))
      → (spend_findings now coins o).0 ≡ []
      → Spendable coins o
  unfolding spend_findings
  spendable coins none h = tt
  spendable [] (some left) h = tt
  spendable (c ∷ coins) (some left) h =
      let parts = both_nil (coin_findings now left c) (spend_findings now coins (some left)) h in
      (left_over left c parts.0, spendable coins (some left) parts.1)

  covered :
      (coins : List Coin) (l : Limits)
      → (limits_findings now coins l).0 ≡ []
      → Covered coins (some l)
  unfolding limits_findings
  covered coins l h =
      let parts =
        both_nil (allowance_expiry now l.expires_at) (spend_findings now coins l.spend_limit) h in
      (current l.expires_at parts.0, spendable coins l.spend_limit parts.1)

  inner-Covered :
      (coins : List Coin) (o : Option Limits)
      → (inner_findings now coins o).0 ≡ []
      → Covered coins o
  unfolding inner_findings
  inner-Covered coins none h = cc
  inner-Covered coins (some l) h = covered coins l h

  allowed :
      (exec_url : Bytes) (coins : List Coin) (a : Option Allowance)
      → (allowance_findings now exec_url coins a).0 ≡ []
      → Allowed exec_url coins a
  unfolding allowance_findings
  allowed exec_url coins none h = cc
  allowed exec_url coins (some (any_message l)) h = covered coins l h
  allowed exec_url coins (some (allowed_messages urls inner)) h =
      elim (Bool-cases (among exec_url urls)) [
        | inl y ↦ (
          y,
          inner-Covered coins inner
              (both_nil ([], []) (inner_findings now coins inner) (rw y at h)).1,
        )
        | inr n ↦ absurd (let k = rw n at h in cc)
      ]

  -- When EvaluateGrants reports no problem, every message of the node has a grant that has not
  -- expired, and there is a fee allowance that covers MsgExec, has not expired as far as it can
  -- say, and has something left of every coin that the node expects to spend.
  pub evaluate_grants-Ready :
      (urls : List Bytes) (exec_url : Bytes) (grants : Bytes → GrantState)
      (allowance : Option Allowance) (min_spend : List Coin)
      → (evaluate_grants now urls exec_url grants allowance min_spend).0 ≡ []
      → All (λ url. ((grants url).found ≡ true) × Unexpired (grants url).expiry) urls
        × Allowed exec_url min_spend allowance
  unfolding evaluate_grants
  evaluate_grants-Ready urls exec_url grants allowance min_spend h =
      let parts =
        both_nil (all_grants now urls grants) (allowance_findings now exec_url min_spend allowance)
          h in
      (All-granted urls grants parts.0, allowed exec_url min_spend allowance parts.1)
