-- ===== src/Jobs/Reporting.antt =====
-- reportSessions against a chain that takes a batch only if it takes every session in it.
use dvpnd.Prelude.{
  ℕ, suc, ◌≡◌, refl, ◌∙◌, ◌⊎◌, inl, inr, Bool, true, false, ◌&&◌, Option, none, some, List, [], ◌∷◌,
  if◌then◌else◌, All, Bool-cases,
}
use dvpnd.Prelude.Results.{Err}
use dvpnd.Session.{Session}
use dvpnd.Jobs.{Outbox, update_sessions_tx, delivered, send_each}

abbrev pub all_good : (Session → Bool) → List Session → Bool
all_good good [] = true
all_good good (s ∷ ss) = good s && all_good good ss

-- One session that the chain refuses fails its whole batch.
abbrev pub Strict : (Session → Bool) → Err → Outbox → Type 0
Strict good e o =
    (n : ℕ) (batch : List Session)
    → o.answer n batch ≡ (if all_good good batch then none else some e)

abbrev pub In : Session → List Session → Type 0
In s [] = ⊥
In s (x ∷ xs) = (x ≡ s) ⊎ In s xs

-- The session was in a batch that the chain took.
abbrev pub Delivered : Session → List (List Session) → Type 0
Delivered s [] = ⊥
Delivered s (b ∷ bs) = In s b ⊎ Delivered s bs

-- The session was reported, or the chain does not take it.
abbrev pub Settled : (Session → Bool) → Outbox → Session → Type 0
Settled good o s = (good s ≡ false) ⊎ Delivered s o.accepted

module _ (good : Session → Bool) (e : Err) where
  -- A send keeps what was delivered and the chain's rule.
  pub record Grows (o o' : Outbox) : Type 0 where
    pub answer : o'.answer ≡ o.answer
    pub more : (s : Session) → Delivered s o.accepted → Delivered s o'.accepted

  Grows-refl : (o : Outbox) → Grows o o
  Grows-refl o = record { answer = refl; more = λ s d. d }

  Grows-trans : (o p q : Outbox) → Grows o p → Grows p q → Grows o q
  Grows-trans o p q g h = record {
    answer = h.answer ∙ g.answer;
    more = λ s d. h.more s (g.more s d);
  }

  delivered-Grows :
      (o : Outbox) (items : List Session) (a : Option Err) → Grows o (delivered o items a).1
  delivered-Grows o items none = record { answer = refl; more = λ s d. inr d }
  delivered-Grows o items (some k) = record { answer = refl; more = λ s d. d }

  pub tx-Grows : (o : Outbox) (items : List Session) → Grows o (update_sessions_tx items o).1
  unfolding update_sessions_tx
  tx-Grows o items = delivered-Grows o items (o.answer o.sends items)

  pub Grows-Strict : (o o' : Outbox) → Grows o o' → Strict good e o → Strict good e o'
  Grows-Strict o o' g h n batch = rw g.answer (h n batch)

  Settled-Grows : (o o' : Outbox) (s : Session) → Grows o o' → Settled good o s → Settled good o' s
  Settled-Grows o o' s g (inl bad) = inl bad
  Settled-Grows o o' s g (inr d) = inr (g.more s d)

  -- A batch of sessions that the chain takes is delivered whole.
  pub tx_good :
      (o : Outbox) (items : List Session)
      → Strict good e o
      → all_good good items ≡ true
      → update_sessions_tx items o
        ≡ (none, record o { sends = suc o.sends; accepted = items ∷ o.accepted })
  unfolding update_sessions_tx
  tx_good o items h g = rw (h o.sends items) (rw g refl)

  pub tx_bad :
      (o : Outbox) (items : List Session)
      → Strict good e o
      → all_good good items ≡ false
      → update_sessions_tx items o ≡ (some e, record o { sends = suc o.sends })
  unfolding update_sessions_tx
  tx_bad o items h g = rw (h o.sends items) (rw g refl)

  send_each-Grows : (items : List Session) (o : Outbox) → Grows o (send_each items o).1
  unfolding send_each
  send_each-Grows [] o = Grows-refl o
  send_each-Grows (item ∷ items) o =
      Grows-trans o (update_sessions_tx (item ∷ []) o).1 _ (tx-Grows o (item ∷ []))
        (send_each-Grows items (update_sessions_tx (item ∷ []) o).1)

  one-Settled :
      (item : Session) (o : Outbox)
      → Strict good e o
      → Settled good (update_sessions_tx (item ∷ []) o).1 item
  one-Settled item o h = elim (Bool-cases (good item)) [
    | inr bad ↦ inl bad
    | inl fine ↦ inr (rw (tx_good o (item ∷ []) h (rw fine refl)) (inl (inl refl)))
  ]

  pub send_each-Settled :
      (items : List Session) (o : Outbox)
      → Strict good e o
      → All (Settled good (send_each items o).1) items
  unfolding send_each
  send_each-Settled [] o h = tt
  send_each-Settled (item ∷ items) o h =
      let o1 = (update_sessions_tx (item ∷ []) o).1 in
      (
        Settled-Grows o1 _ item (send_each-Grows items o1) (one-Settled item o h),
        send_each-Settled items o1 (Grows-Strict o o1 (tx-Grows o (item ∷ [])) h),
      )
