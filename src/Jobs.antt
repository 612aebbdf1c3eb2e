-- ===== src/Jobs.antt =====
-- node/jobs.go and node/reconcile.go: the passes that meter the peers, reconcile the session table with
-- the chain, and report usage. A pass returns the errors that it joins; an empty list is nil. Tickers,
-- logging and the database's compaction are left out.
pub mod Metering
pub mod Checking
pub mod Reporting
pub mod Recheck
pub mod Passes
pub mod Restart
use dvpnd.Prelude.{
  ℕ, suc, ◌+◌, ◌<◌, ◌≡◌, Bool, true, false, not, ◌&&◌, ◌||◌, Option, none, some, List, [], ◌∷◌,
  ◌++◌, length, Bytes, ltb, ◌==◌, if◌then◌else◌,
}
use dvpnd.Prelude.Int.{ℤ, pos, pos_part, neg_part, ◌+ℤ◌, ltb_ℤ, leb_ℤ, eqb_ℤ, wrap64}
use dvpnd.Prelude.Results.{Err, Result, ok, err, add_err}
use dvpnd.Session.{Session}
use dvpnd.Chain.{Chain, ChainSession, Subscription, is_active, is_inactive}
use dvpnd.Service.{Service, Usage}
use dvpnd.Database.{Database}
use dvpnd.Context.{remove_peer, remove_peer_if_exists}
use dvpnd.Admission.{World}

-- reportedUsage's three results.
pub record Reported : Type 0 where
  pub upload : ℤ
  pub download : ℤ
  pub moved : Bool

unfoldable pub reported_usage : Session → Usage → Reported
reported_usage item peer =
    let up = wrap64 (item.base_upload +ℤ peer.upload) in
    record {
      upload = up;
      download = wrap64 (item.base_download +ℤ peer.download);
      moved = not (eqb_ℤ up item.upload);
    }

-- The peer has used up what its session may still move; 0 is no limit.
unfoldable pub over_limit : Session → Usage → Bool
over_limit item peer =
    ltb_ℤ (pos 0) item.available && ltb_ℤ item.available (wrap64 (peer.upload +ℤ peer.download))

-- checkSession's results.
pub record Check : Type 0 where
  pub remove_peer : Bool
  pub remove_session : Bool
  pub skip_update : Bool
  pub error : Option Err

-- The stored totals are what the chain holds: nothing moved since the last report.
-- Int64 panics on a total from 2^63 on, which no session reaches; the integers here have no bound.
unfoldable pub is_stale : Session → ChainSession → Bool
is_stale item s = eqb_ℤ item.upload s.upload && eqb_ℤ item.download s.download

abbrev stale_check : Session → ChainSession → Check
stale_check item s =
    let stale = is_stale item s in
    record {
      remove_peer = stale && ltb_ℤ item.created_at s.status_at;
      remove_session = false;
      skip_update = stale;
      error = none;
    }

abbrev status_check : ChainSession → Check → Check
status_check s c = if is_active s.status then c else record c {
  remove_peer = true;
  remove_session = c.remove_session || is_inactive s.status;
  skip_update = c.skip_update || is_inactive s.status;
}

abbrev limit_check : Session → ChainSession → Check → Check
limit_check item s c =
    if ltb_ℤ (pos 0) s.max_bytes && leb_ℤ s.max_bytes (wrap64 (item.upload +ℤ item.download))
    then record c { remove_peer = true }
    else c

abbrev ended_check : Bool → Bool → Check → Check
ended_check live over c = if live then c else record c {
  remove_peer = true;
  remove_session = c.remove_session || over;
  skip_update = c.skip_update || over;
}

abbrev plan_check : Result (Option Subscription) → Check → Check
plan_check (err e) c = record c { skip_update = true; error = some e }
plan_check (ok none) c = ended_check false true c
plan_check (ok (some p)) c = ended_check (is_active p.status) (is_inactive p.status) c

abbrev subscription_check : Chain → Option ℕ → Check → Check
subscription_check c none k = k
subscription_check c (some sub) k = plan_check (c.query_subscription sub) k

abbrev session_check : Chain → Session → Result (Option ChainSession) → Check
session_check c item (err e) = record {
  remove_peer = false;
  remove_session = false;
  skip_update = true;
  error = some e;
}
session_check c item (ok none) = record {
  remove_peer = true;
  remove_session = true;
  skip_update = true;
  error = none;
}
session_check c item (ok (some s)) =
    subscription_check c s.subscription (limit_check item s (status_check s (stale_check item s)))

unfoldable pub check_session : Chain → Session → Check
unfolding is_stale
check_session c item = session_check c item (c.query_session item.id)

-- sessionNeedsReport
unfoldable pub needs_report : Session → ChainSession → Bool
needs_report item s =
    is_active s.status && (not (eqb_ℤ item.upload s.upload) || not (eqb_ℤ item.download s.download))

-- The transactions that UpdateSessions sends: `answer n` is the chain's answer to the n-th, and
-- `accepted` the batches it took, newest first.
pub record Outbox : Type 0 where
  pub answer : ℕ → List Session → Option Err
  pub sends : ℕ
  pub accepted : List (List Session)

abbrev pub delivered : Outbox → List Session → Option Err → Option Err × Outbox
delivered o items (some e) = (some e, record o { sends = suc o.sends })
delivered o items none = (none, record o { sends = suc o.sends; accepted = items ∷ o.accepted })

unfoldable pub update_sessions_tx : List Session → Outbox → Option Err × Outbox
update_sessions_tx items o = delivered o items (o.answer o.sends items)

-- The second look at each session of a batch that failed: those still worth sending, and how many
-- the chain answered for.
abbrev keep_unless_ended :
    Session → Result (Option ChainSession) → List Session × ℕ → List Session × ℕ
keep_unless_ended item (err e) (still, queried) = (item ∷ still, queried)
keep_unless_ended item (ok none) (still, queried) = (still, suc queried)
keep_unless_ended item (ok (some s)) (still, queried) =
    (if is_inactive s.status then still else item ∷ still, suc queried)

unfoldable pub recheck : Chain → List Session → List Session × ℕ
recheck c [] = ([], 0)
recheck c (item ∷ items) = keep_unless_ended item (c.query_session item.id) (recheck c items)

abbrev first_err : Option Err → List Err → List Err
first_err none es = es
first_err (some e) es = e ∷ es

unfoldable pub send_each : List Session → Outbox → List Err × Outbox
unfolding update_sessions_tx
send_each [] o = ([], o)
send_each (item ∷ items) o =
    let (e, o1) = update_sessions_tx (item ∷ []) o in
    let (es, o2) = send_each items o1 in (first_err e es, o2)

abbrev retry_each : List Session → Option Err × Outbox → List Err × Outbox
retry_each still (none, o) = ([], o)
retry_each still (some e, o) = send_each still o

abbrev resend : List Session → Err → List Session × ℕ → Outbox → List Err × Outbox
resend items e ([], queried) o = ([], o)
resend items e (s ∷ still, queried) o =
    if queried == 0
    then (e ∷ [], o)
    else if ltb (length (s ∷ still)) (length items)
    then retry_each (s ∷ still) (update_sessions_tx (s ∷ still) o)
    else send_each (s ∷ still) o

abbrev reported : Chain → List Session → Option Err × Outbox → List Err × Outbox
reported c items (none, o) = ([], o)
reported c items (some e, o) = resend items e (recheck c items) o

-- reportSessions; the chain may have moved on since the sessions were checked.
unfoldable pub report_sessions : Chain → List Session → Outbox → List Err × Outbox
unfolding update_sessions_tx recheck send_each
report_sessions c items o = reported c items (update_sessions_tx items o)

module _ (D : Database) (S : Service) where
  abbrev removed : List Err → World D S → Option Err × S.State → List Err × World D S
  removed es w (e, y) = (add_err e es, record w { svc = y })

  -- RemovePeer inside a pass.
  abbrev drop_peer : Bytes → List Err → World D S → List Err × World D S
  drop_peer key es w = removed es w (remove_peer S key w.svc)

  abbrev limited : Session → Usage → List Err × World D S → List Err × World D S
  limited item peer (es, w) = if over_limit item peer then drop_peer item.key es w else (es, w)

  abbrev stored : List Err → World D S → Option Err × D.Db → List Err × World D S
  stored es w (e, y) = (add_err e es, record w { db = y })

  abbrev metered : Usage → List Err → World D S → Session → List Err × World D S
  metered peer es w item =
      let u = reported_usage item peer in
      let next' =
        limited item peer (stored es w (D.update_usage item.id u.upload u.download w.db)) in
      if not u.moved then (es, w) else next'

  abbrev matched :
      Usage → List Err → World D S → Result (List Session) × D.Db → List Err × World D S
  matched peer es w (err e, y) = (es ++ (e ∷ []), record w { db = y })
  matched peer es w (ok [], y) = drop_peer peer.key es (record w { db = y })
  matched peer es w (ok (item ∷ more), y) = metered peer es (record w { db = y }) item

  unfoldable pub set_one : Usage → List Err → World D S → List Err × World D S
  unfolding reported_usage over_limit
  set_one peer es w = matched peer es w (D.find_key peer.key w.db)

  unfoldable pub set_each : List Usage → List Err → World D S → List Err × World D S
  unfolding set_one
  set_each [] es w = (es, w)
  set_each (p ∷ ps) es w = let (es', w') = set_one p es w in set_each ps es' w'

  abbrev with_peers : Result (List Usage) → World D S → List Err × World D S
  with_peers (err e) w = (e ∷ [], w)
  with_peers (ok ps) w = set_each ps [] w

  -- setSessions
  unfoldable pub set_sessions : World D S → List Err × World D S
  unfolding set_each
  set_sessions w = with_peers (S.peers w.svc) w

  abbrev unrow : Session → Bool → World D S → Option Err × World D S
  unrow item false w = (none, w)
  unrow item true w = let (e, y) = D.delete_id item.id w.db in (e, record w { db = y })

  abbrev unpeered : Session → Bool → World D S → Option Err × S.State → Option Err × World D S
  unpeered item rs w (some e, y) = (some e, record w { svc = y })
  unpeered item rs w (none, y) = unrow item rs (record w { svc = y })

  -- retire
  unfoldable pub retire : Session → Bool → Bool → World D S → Option Err × World D S
  retire item false rs w = unrow item rs w
  retire item true rs w = unpeered item rs w (remove_peer_if_exists S item.key w.svc)

  -- What one pass of updateSessions' loop leaves: the sessions to report, the errors, the world.
  pub record Pass : Type 0 where
    pub kept : List Session
    pub errors : List Err
    pub world : World D S

  abbrev retired : Session → Check → Pass → Option Err × World D S → Pass
  retired item k p (e, w) = record {
    kept = if k.skip_update then p.kept else item ∷ p.kept;
    errors = add_err e (add_err k.error p.errors);
    world = w;
  }

  abbrev acted : Session → Check → Pass → Pass
  acted item k p = retired item k p (
      if k.remove_peer || k.remove_session
      then retire item k.remove_peer k.remove_session p.world
      else (none, p.world))

  -- The loop counts down, so the rest of the list goes first.
  unfoldable pub check_each : Chain → List Session → World D S → Pass
  unfolding check_session retire
  check_each c [] w = record { kept = []; errors = []; world = w }
  check_each c (item ∷ items) w = acted item (check_session c item) (check_each c items w)

  abbrev report_kept : Chain → List Session → Outbox → List Err × Outbox
  report_kept c [] o = ([], o)
  report_kept c (s ∷ ss) o = report_sessions c (s ∷ ss) o

  abbrev checked : Chain → Outbox → Pass → List Err × World D S × Outbox
  checked later o p = let (es, o') = report_kept later p.kept o in (p.errors ++ es, p.world, o')

  abbrev listed :
      Chain
      → Chain
      → World D S
      → Outbox
      → Result (List Session) × D.Db
      → List Err × World D S × Outbox
  listed c later w o (err e, y) = (e ∷ [], record w { db = y }, o)
  listed c later w o (ok items, y) = checked later o (check_each c items (record w { db = y }))

  -- updateSessions: `c` is the chain while the sessions are checked, `later` when they are sent.
  unfoldable pub update_sessions :
      Chain → Chain → World D S → Outbox → List Err × World D S × Outbox
  unfolding check_each report_sessions
  update_sessions c later w o = listed c later w o (D.find_all w.db)
