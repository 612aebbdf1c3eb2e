-- ===== src/Jobs/Restart.antt =====
-- node/reconcile.go: ReconcileSessions, which reports what a previous run left and clears the table.
-- Find's error is not looked at there, so a read that fails is a table with no sessions; the database's
-- compaction is left out.
use dvpnd.Prelude.{
  ◌≡◌, refl, sym, ◌∙◌, ◌⊎◌, inl, inr, Bool, true, false, Option, none, some, List, [], ◌∷◌, suc,
  ◌&&◌, ◌||◌, not, Option-cases, if◌then◌else◌,
}
use dvpnd.Prelude.Int.{eqb_ℤ}
use dvpnd.Prelude.Results.{Err, Result, ok, err, Result-cases}
use dvpnd.Session.{Session}
use dvpnd.Chain.{Chain, ChainSession, is_active}
use dvpnd.Service.{Service}
use dvpnd.Database.{Database, DatabaseLaws, Reads, Writes}
use dvpnd.Admission.{World}
use dvpnd.Jobs.{Outbox, update_sessions_tx, delivered, needs_report}

abbrev pub unreported : Session → Result (Option ChainSession) → Bool
unreported item (err e) = false
unreported item (ok none) = false
unreported item (ok (some s)) = needs_report item s

-- The sessions to report: those whose use the chain has not recorded.
unfoldable pub final_reports : Chain → List Session → List Session
final_reports c [] = []
final_reports c (item ∷ items) =
    let rest = final_reports c items in
    if unreported item (c.query_session item.id) then item ∷ rest else rest

unfoldable pub report_final : List Session → Outbox → Outbox
report_final [] o = o
report_final (s ∷ ss) o = (update_sessions_tx (s ∷ ss) o).1

-- The chain holds the row's session as active, with a total that is not the row's.
abbrev pub Lacks : Chain → Session → Type 0
Lacks c s =
    (held : ChainSession) × (c.query_session s.id ≡ ok (some held))
    × (is_active held.status ≡ true)
    × ((eqb_ℤ s.upload held.upload ≡ false) ⊎ (eqb_ℤ s.download held.download ≡ false))

-- There is nothing to report: the query failed, the chain has no such session, or it holds the
-- session as ended or with the row's totals.
abbrev pub Settled : Chain → Session → Type 0
Settled c s =
    ((e : Err) × (c.query_session s.id ≡ err e))
    ⊎ ((c.query_session s.id ≡ ok none)
        ⊎ ((held : ChainSession) × (c.query_session s.id ≡ ok (some held))
            × ((is_active held.status ≡ false)
                ⊎ ((eqb_ℤ s.upload held.upload ≡ true) × (eqb_ℤ s.download held.download ≡ true)))))

-- The reports are the rows that the chain lacks use of, in the table's order.
pub data Reports (c : Chain) : List Session → List Session → Type 0 where
  no_rows : Reports c [] []
  chosen :
      {s : Session} {rows rs : List Session}
      → Lacks c s
      → Reports c rows rs
      → Reports c (s ∷ rows) (s ∷ rs)
  left_out :
      {s : Session} {rows rs : List Session}
      → Settled c s
      → Reports c rows rs
      → Reports c (s ∷ rows) rs

-- What one transaction of the reports does to the outbox; with no reports there is none.
abbrev pub Sent : List Session → Outbox → Outbox → Type 0
Sent [] o o' = o' ≡ o
Sent (r ∷ rs) o o' =
    (o'.sends ≡ suc o.sends)
    × (((o.answer o.sends (r ∷ rs) ≡ none) × (o'.accepted ≡ (r ∷ rs) ∷ o.accepted))
        ⊎ ((e : Err) × (o.answer o.sends (r ∷ rs) ≡ some e) × (o'.accepted ≡ o.accepted)))

delivered-Sent :
    (r : Session) (rs : List Session) (o : Outbox) (e : Option Err)
    → o.answer o.sends (r ∷ rs) ≡ e
    → Sent (r ∷ rs) o (delivered o (r ∷ rs) e).1
delivered-Sent r rs o none h = (refl, inl (h, refl))
delivered-Sent r rs o (some e) h = (refl, inr (e, h, refl))

report_final-Sent : (rs : List Session) (o : Outbox) → Sent rs o (report_final rs o)
unfolding report_final update_sessions_tx
report_final-Sent [] o = refl
report_final-Sent (r ∷ rs) o = delivered-Sent r rs o (o.answer o.sends (r ∷ rs)) refl

flags :
    (live up down : Bool)
    → (((live && (not up || not down)) ≡ true) × (live ≡ true) × ((up ≡ false) ⊎ (down ≡ false)))
      ⊎ (((live && (not up || not down)) ≡ false)
          × ((live ≡ false) ⊎ ((up ≡ true) × (down ≡ true))))
flags false up down = inr (refl, inl refl)
flags true false down = inl (refl, refl, inl refl)
flags true true false = inl (refl, refl, inr refl)
flags true true true = inr (refl, inr (refl, refl))

needs_report-split :
    (s : Session) (held : ChainSession)
    → ((needs_report s held ≡ true)
        × (is_active held.status ≡ true)
        × ((eqb_ℤ s.upload held.upload ≡ false) ⊎ (eqb_ℤ s.download held.download ≡ false)))
      ⊎ ((needs_report s held ≡ false)
          × ((is_active held.status ≡ false)
              ⊎ ((eqb_ℤ s.upload held.upload ≡ true) × (eqb_ℤ s.download held.download ≡ true))))
unfolding needs_report
needs_report-split s held =
    flags (is_active held.status) (eqb_ℤ s.upload held.upload) (eqb_ℤ s.download held.download)

unreported-split :
    (c : Chain) (s : Session)
    → ((unreported s (c.query_session s.id) ≡ true) × Lacks c s)
      ⊎ ((unreported s (c.query_session s.id) ≡ false) × Settled c s)
unreported-split c s = elim (Result-cases (c.query_session s.id)) [
  | inl (e, q) ↦ rw q (inr (refl, inl (e, refl)))
  | inr (o, q) ↦ elim (Option-cases o) [
    | inl n ↦ rw (q, n) (inr (refl, inr (inl refl)))
    | inr (held, h) ↦
        rw (q, h)
          (elim (needs_report-split s held) [
            | inl (y, live, k) ↦ inl (y, (held, refl, live, k))
            | inr (n, k) ↦ inr (n, inr (inr (held, refl, k)))
          ])
  ]
]

final_reports-Reports : (c : Chain) (rows : List Session) → Reports c rows (final_reports c rows)
unfolding final_reports
final_reports-Reports c [] = no_rows
final_reports-Reports c (s ∷ rows) = elim (unreported-split c s) [
  | inl (y, l) ↦ rw y (chosen l (final_reports-Reports c rows))
  | inr (n, l) ↦ rw n (left_out l (final_reports-Reports c rows))
]

module _ (D : Database) (S : Service) where
  -- clearSessions
  unfoldable pub clear_sessions : World D S → Option Err × World D S
  clear_sessions w = let (e, y) = D.clear w.db in (e, record w { db = y })

  abbrev reconciled :
      Chain → World D S → Outbox → Result (List Session) × D.Db → Option Err × World D S × Outbox
  reconciled c w o (err e, y) = (none, record w { db = y }, o)
  reconciled c w o (ok [], y) = (none, record w { db = y }, o)
  reconciled c w o (ok (item ∷ items), y) =
      let o1 = report_final (final_reports c (item ∷ items)) o in
      let (e, w1) = clear_sessions (record w { db = y }) in (e, w1, o1)

  -- ReconcileSessions
  unfoldable pub reconcile_sessions : Chain → World D S → Outbox → Option Err × World D S × Outbox
  unfolding report_final clear_sessions
  reconcile_sessions c w o = reconciled c w o (D.find_all w.db)

  -- One transaction, if there was anything to report, carried the rows that the chain lacks use of.
  abbrev pub Reported : Chain → World D S → Outbox → Outbox → Type 0
  Reported c w o o' = (reports : List Session) × Reports c (D.rows w.db) reports × Sent reports o o'

  -- The table could not be read, or not cleared.
  abbrev Kept : World D S → World D S → Type 0
  Kept w w' = D.rows w'.db ≡ D.rows w.db

  abbrev Failed : Result (List Session) → Type 0
  Failed (err e) = Unit {0}
  Failed (ok items) = ⊥

  abbrev pub Outcome : Chain → World D S → Outbox → Option Err × World D S × Outbox → Type 0
  Outcome c w o (some e, w', o') = Kept w w' × Reported c w o o'
  Outcome c w o (none, w', o') =
      ((D.rows w'.db ≡ []) × Reported c w o o')
      ⊎ (Failed (D.find_all w.db).0 × Kept w w' × (o' ≡ o))

  reported_rows :
      (c : Chain) (w : World D S) (o : Outbox) (items : List Session)
      → items ≡ D.rows w.db
      → Reported c w o (report_final (final_reports c items) o)
  reported_rows c w o items h = (
    final_reports c items,
    rw (← h) (final_reports-Reports c items),
    report_final-Sent (final_reports c items) o,
  )

  cleared_Outcome :
      (c : Chain) (w : World D S) (o : Outbox) (items : List Session) (y : D.Db)
      (r : Option Err × D.Db)
      → items ≡ D.rows w.db
      → D.rows y ≡ D.rows w.db
      → Writes D y [] r
      → Outcome c w o (r.0, record w { db = r.1 }, report_final (final_reports c items) o)
  cleared_Outcome c w o items y (some e, z) hi hy h = (h ∙ hy, reported_rows c w o items hi)
  cleared_Outcome c w o items y (none, z) hi hy h = inl (h, reported_rows c w o items hi)

  reconciled-Outcome :
      (laws : DatabaseLaws D) (c : Chain) (w : World D S) (o : Outbox)
      (q : Result (List Session) × D.Db)
      → D.find_all w.db ≡ q
      → Reads D w.db (D.rows w.db) q
      → Outcome c w o (reconciled c w o q)
  unfolding clear_sessions
  reconciled-Outcome laws c w o (err e, y) f h = inr (rw f tt, h, refl)
  reconciled-Outcome laws c w o (ok [], y) f h = inl (h.1 ∙ sym h.0, ([], rw (← h.0) no_rows, refl))
  reconciled-Outcome laws c w o (ok (item ∷ items), y) f h =
      cleared_Outcome c w o (item ∷ items) y (D.clear y) h.0 h.1 (laws.clear-Writes y)

  -- With a lawful database, ReconcileSessions either could not read the table, and returns nil with
  -- the table as it was and nothing sent; or it sent, in one transaction if there are any, the rows
  -- whose session the chain holds as active with other totals, and no other rows, and then returns
  -- nil with an empty table, or an error with the table as it was.
  pub reconcile_sessions-Outcome :
      (laws : DatabaseLaws D) (c : Chain) (w : World D S) (o : Outbox)
      → Outcome c w o (reconcile_sessions c w o)
  unfolding reconcile_sessions
  reconcile_sessions-Outcome laws c w o =
      reconciled-Outcome laws c w o (D.find_all w.db) refl (laws.find_all-Reads w.db)
