-- ===== src/Jobs/Recheck.antt =====
-- What the second look keeps, and that reportSessions then misses nobody.
use dvpnd.Prelude.{
  ℕ, suc, ◌≡◌, refl, ◌⊎◌, inl, inr, Bool, true, Option, none, some, List, [], ◌∷◌, length, ltb,
  ◌==◌, All, All-map, Bool-cases, ==_iff, arith,
}
use mathlib.Core.Path.{subst}
use dvpnd.Prelude.Results.{Err, Result, ok, err}
use dvpnd.Session.{Session}
use dvpnd.Chain.{Chain, ChainSession, is_inactive}
use dvpnd.Jobs.{
  Outbox, update_sessions_tx, recheck, keep_unless_ended, retry_each, resend, report_sessions,
}
use dvpnd.Jobs.Reporting.{all_good, Strict, In, Settled, tx_good, tx_bad, send_each-Settled}

-- The chain answers that the session has ended: it is gone, or inactive.
abbrev pub EndedBy : Result (Option ChainSession) → Type 0
EndedBy (err e) = ⊥
EndedBy (ok none) = Unit {0}
EndedBy (ok (some s)) = is_inactive s.status ≡ true

abbrev pub Ended : Chain → Session → Type 0
Ended c item = EndedBy (c.query_session item.id)

In-All : (P : Session → Type 0) (s : Session) (xs : List Session) → All P xs → In s xs → P s
In-All P s [] h i = absurd i
In-All P s (x ∷ xs) h (inl e) = subst P e h.0
In-All P s (x ∷ xs) h (inr i) = In-All P s xs h.1 i

keep-Ended :
    (item : Session) (q : Result (Option ChainSession)) (r : List Session × ℕ)
    → EndedBy q ⊎ In item (keep_unless_ended item q r).0
keep-Ended item (err e) (still, queried) = inr (inl refl)
keep-Ended item (ok none) (still, queried) = inl tt
keep-Ended item (ok (some s)) (still, queried) = elim (Bool-cases (is_inactive s.status)) [
  | inl e ↦ inl e
  | inr e ↦ inr (rw e (inl refl))
]

keep-In :
    (s item : Session) (q : Result (Option ChainSession)) (r : List Session × ℕ)
    → In s r.0
    → In s (keep_unless_ended item q r).0
keep-In s item (err e) (still, queried) i = inr i
keep-In s item (ok none) (still, queried) i = i
keep-In s item (ok (some x)) (still, queried) i = elim (Bool-cases (is_inactive x.status)) [
  | inl e ↦ rw e i
  | inr e ↦ rw e (inr i)
]

-- The second look keeps every session that has not ended.
recheck-Ended :
    (c : Chain) (items : List Session) (s : Session)
    → In s items
    → Ended c s ⊎ In s (recheck c items).0
unfolding recheck
recheck-Ended c [] s i = absurd i
recheck-Ended c (item ∷ items) s (inl e) =
    subst
      (λ t. Ended c t ⊎ In t (keep_unless_ended item (c.query_session item.id) (recheck c items)).0)
      e (keep-Ended item (c.query_session item.id) (recheck c items))
recheck-Ended c (item ∷ items) s (inr i) = elim (recheck-Ended c items s i) [
  | inl e ↦ inl e
  | inr k ↦ inr (keep-In s item (c.query_session item.id) (recheck c items) k)
]

-- No query of the second look was answered.
abbrev IsFailed : Result (Option ChainSession) → Type 0
IsFailed (err e) = Unit {0}
IsFailed (ok q) = ⊥

abbrev pub Unanswered : Chain → List Session → Type 0
Unanswered c items = All (λ s. IsFailed (c.query_session s.id)) items

keep-Failed :
    (item : Session) (q : Result (Option ChainSession)) (r : List Session × ℕ)
    → (keep_unless_ended item q r).1 ≡ 0
    → IsFailed q × (r.1 ≡ 0)
keep-Failed item (err e) (still, queried) z = (tt, z)
keep-Failed item (ok none) (still, queried) z = absurd (omega arith)
keep-Failed item (ok (some s)) (still, queried) z = absurd (omega arith)

recheck-Unanswered :
    (c : Chain) (items : List Session) → (recheck c items).1 ≡ 0 → Unanswered c items
unfolding recheck
recheck-Unanswered c [] z = tt
recheck-Unanswered c (item ∷ items) z =
    let k = keep-Failed item (c.query_session item.id) (recheck c items) z in
    (k.0, recheck-Unanswered c items k.1)

All-In : (xs : List Session) → All (λ s. In s xs) xs
All-In [] = tt
All-In (x ∷ xs) = (inl refl, All-map _ _ (λ s i. inr i) xs (All-In xs))

module _ (good : Session → Bool) (e : Err) where
  All-delivered :
      (xs : List Session) (o : Outbox)
      → All (Settled good (record o { sends = suc o.sends; accepted = xs ∷ o.accepted })) xs
  All-delivered xs o = All-map _ _ (λ s i. inr (inl i)) xs (All-In xs)

  retry-Settled :
      (still : List Session) (o : Outbox)
      → Strict good e o
      → All (Settled good (retry_each still (update_sessions_tx still o)).1) still
  retry-Settled still o h = elim (Bool-cases (all_good good still)) [
    | inl g ↦ rw (tx_good good e o still h g) (All-delivered still o)
    | inr b ↦
        rw (tx_bad good e o still h b)
          (send_each-Settled good e still (record o { sends = suc o.sends }) h)
  ]

  abbrev pub Reached : Chain → List Session → Session → Outbox → Type 0
  Reached c items s o = Ended c s ⊎ (Settled good o s ⊎ Unanswered c items)

  resend-Reached :
      (c : Chain) (items : List Session) (s : Session) (r : List Session × ℕ) (o : Outbox)
      → Strict good e o
      → (r.1 ≡ 0 → Unanswered c items)
      → Ended c s ⊎ In s r.0
      → Reached c items s (resend items e r o).1
  resend-Reached c items s r o h u (inl d) = inl d
  resend-Reached c items s ([], q) o h u (inr i) = absurd i
  resend-Reached c items s (t ∷ still, q) o h u (inr i) = elim (Bool-cases (q == 0)) [
    | inl z ↦ inr (inr (u ((==_iff q 0).0 z)))
    | inr z ↦ rw z (elim (Bool-cases (ltb (length (t ∷ still)) (length items))) [
      | inl l ↦ rw l (inr (inl (In-All _ s (t ∷ still) (retry-Settled (t ∷ still) o h) i)))
      | inr l ↦
          rw l (inr (inl (In-All _ s (t ∷ still) (send_each-Settled good e (t ∷ still) o h) i)))
    ])
  ]

  -- Where the chain takes a batch just if it takes each session in it: every session that
  -- reportSessions is given has ended by the second look, or the chain took a batch with it, or the
  -- chain does not take it, or no query of the second look was answered.
  pub report_sessions-Reached :
      (c : Chain) (items : List Session) (o : Outbox) (s : Session)
      → Strict good e o
      → In s items
      → Reached c items s (report_sessions c items o).1
  unfolding report_sessions
  report_sessions-Reached c items o s h i =
      let o1 = record o { sends = suc o.sends } in
      elim (Bool-cases (all_good good items)) [
        | inl g ↦
            rw (tx_good good e o items h g) (inr (inl (In-All _ s items (All-delivered items o) i)))
        | inr b ↦ rw (tx_bad good e o items h b) (
            resend-Reached c items s (recheck c items) o1 h (recheck-Unanswered c items)
              (recheck-Ended c items s i))
      ]
