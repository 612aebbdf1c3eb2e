-- ===== src/Jobs/Checking.antt =====
-- checkSession and updateSessions: which sessions a pass reports, removes and leaves alone.
use dvpnd.Prelude.{
  ℕ, ◌≡◌, refl, sym, ◌∙◌, ◌⊎◌, inl, inr, Bool, true, false, ◌&&◌, ◌||◌, Option, none, some,
  Bool-cases,
}
use dvpnd.Prelude.Int.{pos, ltb_ℤ, leb_ℤ, ◌+ℤ◌, wrap64}
use dvpnd.Prelude.Results.{Result, ok, err}
use dvpnd.Session.{Session}
use dvpnd.Chain.{Chain, ChainSession, Subscription, Status, is_active, is_inactive}
use dvpnd.Jobs.{
  Check, stale_check, status_check, limit_check, ended_check, plan_check, subscription_check,
  session_check, check_session, is_stale,
}

-- The chain answers that the plan subscription is gone or has ended.
abbrev pub PlanEnded : Result (Option Subscription) → Type 0
PlanEnded (err e) = ⊥
PlanEnded (ok none) = Unit {0}
PlanEnded (ok (some p)) = is_inactive p.status ≡ true

abbrev pub PlanOver : Chain → Option ℕ → Type 0
PlanOver c none = ⊥
PlanOver c (some sub) = PlanEnded (c.query_subscription sub)

-- The chain answers that the session has ended, or its plan has.
abbrev pub Over : Chain → Result (Option ChainSession) → Type 0
Over c (err e) = ⊥
Over c (ok none) = Unit {0}
Over c (ok (some s)) = (is_inactive s.status ≡ true) ⊎ PlanOver c s.subscription

-- The chain knows the plan and has not ended it.
abbrev pub PlanRuns : Result (Option Subscription) → Type 0
PlanRuns (err e) = ⊥
PlanRuns (ok none) = ⊥
PlanRuns (ok (some p)) = is_inactive p.status ≡ false

abbrev pub PlanFine : Chain → Option ℕ → Type 0
PlanFine c none = Unit {0}
PlanFine c (some sub) = PlanRuns (c.query_subscription sub)

-- The chain holds the session, has not ended it or its plan, and lacks use that the node stored.
abbrev pub Reportable : Chain → Session → Result (Option ChainSession) → Type 0
Reportable c item (err e) = ⊥
Reportable c item (ok none) = ⊥
Reportable c item (ok (some s)) =
    (is_stale item s ≡ false) × (is_inactive s.status ≡ false) × PlanFine c s.subscription

not_both : (s : Status) → (is_active s ≡ false) ⊎ (is_inactive s ≡ false)
not_both Status.unspecified = inl refl
not_both Status.active = inr refl
not_both Status.inactive_pending = inl refl
not_both Status.inactive = inl refl

-- What the checks before the plan's leave, for a session that the chain holds: `i` is that the chain
-- ended it, `t` that it is stale.
record Middle (i t : Bool) (k : Check) : Type 0 where
  pub row : k.remove_session ≡ i
  pub skip : k.skip_update ≡ (t || i)
  pub peer : (i ≡ false) ⊎ (k.remove_peer ≡ true)

limit_Middle :
    (item : Session) (s : ChainSession) (i t : Bool) (k : Check)
    → Middle i t k
    → Middle i t (limit_check item s k)
limit_Middle item s i t k m =
    elim (Bool-cases
      (ltb_ℤ (pos 0) s.max_bytes && leb_ℤ s.max_bytes (wrap64 (item.upload +ℤ item.download)))) [
        | inl y ↦ rw y (record { row = m.row; skip = m.skip; peer = inr refl })
        | inr n ↦ rw n m
      ]

or_false : (b : Bool) → b ≡ (b || false)
or_false true = refl
or_false false = refl

or_true : (b : Bool) → (b || true) ≡ true
or_true true = refl
or_true false = refl

status_Middle :
    (item : Session) (s : ChainSession)
    → Middle (is_inactive s.status) (is_stale item s) (status_check s (stale_check item s))
status_Middle item s = elim (Bool-cases (is_active s.status)) [
  | inr n ↦ rw n (record { row = refl; skip = refl; peer = inr refl })
  | inl a ↦ elim (not_both s.status) [
    | inl n ↦ absurd (cc (a, n))
    | inr n ↦ rw (a, n) (record { row = refl; skip = or_false (is_stale item s); peer = inl refl })
  ]
]

-- AnswerRule for a session that the chain holds, with `E` that its plan is over and `F` that it runs.
record PlanRule (i t : Bool) (E F : Type 0) (k : Check) : Type 0 where
  pub removal : (k.remove_session ≡ false) ⊎ ((i ≡ true) ⊎ E)
  pub with_peer : (k.remove_session ≡ false) ⊎ ((k.remove_peer ≡ true) × (k.skip_update ≡ true))
  pub report : (k.skip_update ≡ true) ⊎ ((t ≡ false) × (i ≡ false) × F)
  pub over : (k.remove_session ≡ true) ⊎ ¬ ((i ≡ true) ⊎ E)

inactive_rule : (t : Bool) (E F : Type 0) (k : Check) → Middle true t k → PlanRule true t E F k
inactive_rule t E F k m = record {
  removal = inr (inl refl);
  with_peer = inr (elim m.peer [ inl e ↦ absurd (cc e) | inr e ↦ e ], m.skip ∙ or_true t);
  report = inl (m.skip ∙ or_true t);
  over = inl m.row;
}

neither : {E : Type 0} → ¬ E → ¬ ((false ≡ true) ⊎ E)
neither h (inl e) = absurd (cc e)
neither h (inr e) = h e

running_rule :
    (i t : Bool) (E F : Type 0) (k : Check)
    → Middle i t k
    → ¬ E
    → (k.skip_update ≡ true) ⊎ F
    → PlanRule i t E F k
running_rule true t E F k m h f = inactive_rule t E F k m
running_rule false t E F k m h f = record {
  removal = inl m.row;
  with_peer = inl m.row;
  report = elim (Bool-cases t) [
    | inl y ↦ inl (m.skip ∙ cc y)
    | inr n ↦ elim f [ inl y ↦ inl y | inr f ↦ inr (n, refl, f) ]
  ];
  over = inr (neither h);
}

ended_rule :
    (i t live over : Bool) (E F : Type 0) (k : Check)
    → Middle i t k
    → (live ≡ false) ⊎ (over ≡ false)
    → ((over ≡ true) × E) ⊎ ((over ≡ false) × ¬ E × F)
    → PlanRule i t E F (ended_check live over k)
ended_rule i t true over E F k m d (inl (y, e)) =
    absurd (elim d [ inl x ↦ cc x | inr x ↦ cc (x, y) ])
ended_rule i t true over E F k m d (inr (n, ne, f)) = running_rule i t E F k m ne (inr f)
ended_rule i t false true E F k m d (inl (y, e)) = record {
  removal = inr (inr e);
  with_peer = inr (refl, or_true k.skip_update);
  report = inl (or_true k.skip_update);
  over = inl (or_true k.remove_session);
}
ended_rule i t false true E F k m d (inr (n, ne, f)) = absurd (cc n)
ended_rule i t false false E F k m d (inl (y, e)) = absurd (cc y)
ended_rule i t false false E F k m d (inr (n, ne, f)) =
    running_rule i t E F _
      (record {
        row = sym (or_false k.remove_session) ∙ m.row;
        skip = sym (or_false k.skip_update) ∙ m.skip;
        peer = inr refl;
      })
      ne (inr f)

inactive_cases :
    (s : Status)
    → ((is_inactive s ≡ true) × (is_inactive s ≡ true))
      ⊎ ((is_inactive s ≡ false) × ¬ (is_inactive s ≡ true) × (is_inactive s ≡ false))
inactive_cases s = elim (Bool-cases (is_inactive s)) [
  | inl y ↦ inl (y, y)
  | inr n ↦ inr (n, (λ y. absurd (cc (y, n))), n)
]

plan_rule :
    (i t : Bool) (q : Result (Option Subscription)) (k : Check)
    → Middle i t k
    → PlanRule i t (PlanEnded q) (PlanRuns q) (plan_check q k)
plan_rule true t (err e) k m = record {
  removal = inr (inl refl);
  with_peer = inr (elim m.peer [ inl e ↦ absurd (cc e) | inr e ↦ e ], refl);
  report = inl refl;
  over = inl m.row;
}
plan_rule false t (err e) k m = record {
  removal = inl m.row;
  with_peer = inl m.row;
  report = inl refl;
  over = inr (neither (λ b. b));
}
plan_rule i t (ok none) k m = ended_rule i t false true (Unit {0}) ⊥ k m (inl refl) (inl (refl, tt))
plan_rule i t (ok (some p)) k m =
    ended_rule i t (is_active p.status) (is_inactive p.status) _ _ k m (not_both p.status)
      (inactive_cases p.status)

subscription_rule :
    (c : Chain) (i t : Bool) (sub : Option ℕ) (k : Check)
    → Middle i t k
    → PlanRule i t (PlanOver c sub) (PlanFine c sub) (subscription_check c sub k)
subscription_rule c i t none k m = running_rule i t ⊥ (Unit {0}) k m (λ b. b) (inr tt)
subscription_rule c i t (some sub) k m = plan_rule i t (c.query_subscription sub) k m

-- What checkSession may say for an answer of the chain.
pub record AnswerRule (c : Chain) (item : Session) (q : Result (Option ChainSession)) (k : Check)
    : Type 0 where
  pub removal : (k.remove_session ≡ false) ⊎ Over c q
  pub with_peer : (k.remove_session ≡ false) ⊎ ((k.remove_peer ≡ true) × (k.skip_update ≡ true))
  pub report : (k.skip_update ≡ true) ⊎ Reportable c item q
  pub over : (k.remove_session ≡ true) ⊎ ¬ Over c q

session_rule :
    (c : Chain) (item : Session) (q : Result (Option ChainSession))
    → AnswerRule c item q (session_check c item q)
session_rule c item (err e) = record {
  removal = inl refl;
  with_peer = inl refl;
  report = inl refl;
  over = inr (λ b. b);
}
session_rule c item (ok none) = record {
  removal = inr tt;
  with_peer = inr (refl, refl);
  report = inl refl;
  over = inl refl;
}
session_rule c item (ok (some s)) =
    let r =
      subscription_rule c (is_inactive s.status) (is_stale item s) s.subscription _
        (limit_Middle item s _ _ _ (status_Middle item s)) in
    record { removal = r.removal; with_peer = r.with_peer; report = r.report; over = r.over }

-- checkSession removes a row exactly if the chain says that the session or its plan is over, then
-- also the peer and without a report, and lets a session be reported only if the chain holds it,
-- has not ended it or its plan, and its stored totals differ from the chain's.
pub check_session_rule :
    (c : Chain) (item : Session)
    → AnswerRule c item (c.query_session item.id) (check_session c item)
unfolding check_session
check_session_rule c item = session_rule c item (c.query_session item.id)
