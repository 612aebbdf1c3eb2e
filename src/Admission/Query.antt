-- ===== src/Admission/Query.antt =====
-- What queryAdmission has established when it accepts.
use dvpnd.Prelude.{
  ℕ, ◌≡◌, refl, inl, inr, true, Option, none, some, Bool-cases, Bytes, bytes_eq, bytes_eq-true,
  arith,
}
use dvpnd.Prelude.Int.{ℤ, pos, ◌-ℤ◌}
use dvpnd.Prelude.Results.{Result, ok, err}
use dvpnd.Chain.{Chain, ChainSession, Subscription, Allocation, is_active}
use dvpnd.Admission.{
  Answer, accept, refuse, Admission, AdmitRequest, Settings, clamp_i64, query_admission,
  check_session, check_bytes, bounded, with_subscription, check_subscription, check_allocation,
  is_positive,
}
use dvpnd.Admission.Caps.{Holds, SessionCap, clamp_i64_bounds}

-- The subscription and the allocation behind a session, if it has them.
abbrev pub PlanOf : Chain → Bytes → Option ℕ → Admission → Type 0
PlanOf c account none a = (a.subscription_id ≡ 0) × (a.alloc ≡ none)
PlanOf c account (some sub) a =
    (s : Subscription) × (x : Allocation) × (c.query_subscription sub ≡ ok (some s))
    × (is_active s.status ≡ true)
    × (c.query_allocation s.id account ≡ ok (some x))
    × (a.subscription_id ≡ sub)
    × (a.alloc ≡ some x)

pub record Vetted (n : Settings) (c : Chain) (r : AdmitRequest) (a : Admission) : Type 0 where
  pub known : c.query_session r.id ≡ ok (some a.session)
  pub live : is_active a.session.status ≡ true
  pub account : a.session.acc_address ≡ r.acc_address
  pub node : a.session.node_address ≡ n.node_address
  pub within : SessionCap a.session a.remaining_bytes
  pub plan : PlanOf c r.acc_address a.session.subscription a

-- The last steps keep the session and its cap.
abbrev Planned : Chain → Bytes → ChainSession → ℤ → Option ℕ → Admission → Type 0
Planned c account s v sub a = (a.session ≡ s) × (a.remaining_bytes ≡ v) × PlanOf c account sub a

module _ (c : Chain) (account : Bytes) (s : ChainSession) (v : ℤ) where
  start : ℕ → Admission
  start sub = record { session = s; subscription_id = sub; remaining_bytes = v; alloc = none }

  allocation_rule :
      (sub : ℕ) (p : Subscription) (q : Result (Option Allocation))
      → c.query_subscription sub ≡ ok (some p)
      → is_active p.status ≡ true
      → c.query_allocation p.id account ≡ q
      → Holds (Planned c account s v (some sub)) (check_allocation (start sub) q)
  unfolding start
  allocation_rule sub p (err e) h live k = tt
  allocation_rule sub p (ok none) h live k = tt
  allocation_rule sub p (ok (some x)) h live k = (refl, refl, (p, x, h, live, k, refl, refl))

  subscription_rule :
      (sub : ℕ) (q : Result (Option Subscription))
      → c.query_subscription sub ≡ q
      → Holds (Planned c account s v (some sub)) (check_subscription c account (start sub) q)
  subscription_rule sub (err e) h = tt
  subscription_rule sub (ok none) h = tt
  subscription_rule sub (ok (some p)) h = elim (Bool-cases (is_active p.status)) [
    | inr e ↦ rw e tt
    | inl e ↦ rw e (allocation_rule sub p (c.query_allocation p.id account) h e refl)
  ]

  plan_rule :
      (sub : Option ℕ)
      → Holds (Planned c account s v sub) (with_subscription c account (start 0) sub)
  unfolding start
  plan_rule none = (refl, refl, (refl, refl))
  plan_rule (some sub) = subscription_rule sub (c.query_subscription sub) refl

Holds-map {ℓ} :
    {A : Type ℓ} (P Q : A → Type 0) (r : Answer A) → ((a : A) → P a → Q a) → Holds P r → Holds Q r
Holds-map P Q (accept a) f h = f a h
Holds-map P Q (refuse e) f h = tt

module _ (n : Settings) (c : Chain) (r : AdmitRequest) (s : ChainSession) where
  bounded_rule :
      (v : ℤ)
      → c.query_session r.id ≡ ok (some s)
      → is_active s.status ≡ true
      → s.acc_address ≡ r.acc_address
      → s.node_address ≡ n.node_address
      → SessionCap s v
      → Holds (Vetted n c r) (bounded c r.acc_address s v)
  unfolding start
  bounded_rule v known live account node limit =
      Holds-map (Planned c r.acc_address s v s.subscription) (Vetted n c r) _
        (λ a p. record {
          known = rw p.0 known;
          live = rw p.0 live;
          account = rw p.0 account;
          node = rw p.0 node;
          within = rw (p.0, p.1) limit;
          plan = simp p.0 p.2;
        })
        (plan_rule c r.acc_address s v s.subscription)

  bytes_rule :
      c.query_session r.id ≡ ok (some s)
      → is_active s.status ≡ true
      → s.acc_address ≡ r.acc_address
      → s.node_address ≡ n.node_address
      → Holds (Vetted n c r) (check_bytes c r.acc_address s)
  bytes_rule known live account node = elim (Bool-cases (is_positive s.max_bytes)) [
    | inr e ↦ rw e (bounded_rule (pos 0) known live account node (inl (ground arith, refl)))
    | inl e ↦ elim (Bool-cases (is_positive (s.max_bytes -ℤ s.total_bytes))) [
      | inr e' ↦ rw (e, e') tt
      | inl e' ↦
          rw (e, e')
            (bounded_rule (clamp_i64 (s.max_bytes -ℤ s.total_bytes)) known live account node
              (inr (clamp_i64_bounds _ (ground arith))))
    ]
  ]

session_rule :
    (n : Settings) (c : Chain) (r : AdmitRequest) (q : Result (Option ChainSession))
    → c.query_session r.id ≡ q
    → Holds (Vetted n c r) (check_session n c r q)
session_rule n c r (err e) h = tt
session_rule n c r (ok none) h = tt
session_rule n c r (ok (some s)) h = elim (Bool-cases (is_active s.status)) [
  | inr e ↦ rw e tt
  | inl live ↦ elim (Bool-cases (bytes_eq s.acc_address r.acc_address)) [
    | inr e ↦ rw (live, e) tt
    | inl account ↦ elim (Bool-cases (bytes_eq s.node_address n.node_address)) [
      | inr e ↦ rw (live, account, e) tt
      | inl node ↦
          rw (live, account, node)
            (bytes_rule n c r s h live (bytes_eq-true _ _ account) (bytes_eq-true _ _ node))
    ]
  ]
]

-- A session that queryAdmission accepts is on the chain, active, the requester's and this node's;
-- its byte cap is none or at most what is left of max_bytes, and a plan subscription of it is
-- active and has an allocation for the account.
pub query_admission-Vetted :
    (n : Settings) (c : Chain) (r : AdmitRequest) → Holds (Vetted n c r) (query_admission n c r)
unfolding query_admission
query_admission-Vetted n c r = session_rule n c r (c.query_session r.id) refl
