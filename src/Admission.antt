-- ===== src/Admission.antt =====
-- api/session/admit.go: the admission of a client's session. The lock is held from the second
-- capacity check on, so the calls under it are one sequence; what other handshakes do between the
-- first check and the lock is a change of world (Admission/Runs).
pub mod Steps
pub mod Caps
pub mod Query
pub mod Gate
pub mod Register
pub mod Admit
pub mod Runs
use dvpnd.Prelude.{
  ℕ, suc, ◌+◌, ◌<◌, ◌≡◌, Bool, true, false, not, ◌||◌, Option, none, some, List, [], ◌∷◌, Bytes,
  bytes_eq, ltb, leb, ◌==◌, if◌then◌else◌,
}
use dvpnd.Prelude.Int.{ℤ, pos, pos_part, neg_part, ◌+ℤ◌, ◌-ℤ◌, ltb_ℤ, leb_ℤ, eqb_ℤ}
use dvpnd.Prelude.Base64.{encode}
use dvpnd.Prelude.Results.{Err, Result, ok, err}
use dvpnd.Session.{Session, served_bytes, max_i64}
use dvpnd.Chain.{Chain, ChainSession, Subscription, Allocation, is_active}
use dvpnd.Service.{Service}
use dvpnd.Database.{Database}
use dvpnd.Context.{remove_peer_if_exists}

-- apiError without its text.
pub record ApiError : Type 0 where
  pub status : ℕ
  pub code : ℕ

pub data Answer {ℓ} (A : Type ℓ) : Type ℓ where
  accept : A → Answer A
  refuse : ApiError → Answer A

abbrev pub api_error : ℕ → ℕ → ApiError
api_error status code = record { status = status; code = code }

pub record AdmitRequest : Type 0 where
  pub acc_address : Bytes
  pub id : ℕ
  pub peer_data : Bytes

-- PeerKey
unfoldable pub peer_key : AdmitRequest → Bytes
peer_key r = encode r.peer_data

-- What the chain says about a session.
pub record Admission : Type 0 where
  pub session : ChainSession
  pub subscription_id : ℕ
  pub remaining_bytes : ℤ
  pub alloc : Option Allocation

pub record AdmitResult : Type 0 where
  pub session : ChainSession
  pub peer : Bytes

-- The node's own address and max_peers.
pub record Settings : Type 0 where
  pub node_address : Bytes
  pub max_peers : ℕ

unfoldable pub clamp_i64 : ℤ → ℤ
clamp_i64 v = if ltb_ℤ v (pos 0) then pos 0 else if leb_ℤ v max_i64 then v else max_i64

abbrev is_positive : ℤ → Bool
is_positive v = ltb_ℤ (pos 0) v

-- The chain's own checks, in the order of queryAdmission.
abbrev check_allocation : Admission → Result (Option Allocation) → Answer Admission
check_allocation a (err e) = refuse (api_error 500 8)
check_allocation a (ok none) = refuse (api_error 404 8)
check_allocation a (ok (some x)) = accept (record a { alloc = some x })

abbrev check_subscription :
    Chain → Bytes → Admission → Result (Option Subscription) → Answer Admission
check_subscription c account a (err e) = refuse (api_error 500 6)
check_subscription c account a (ok none) = refuse (api_error 404 6)
check_subscription c account a (ok (some s)) =
    if not (is_active s.status)
    then refuse (api_error 400 6)
    else check_allocation a (c.query_allocation s.id account)

abbrev with_subscription : Chain → Bytes → Admission → Option ℕ → Answer Admission
with_subscription c account a none = accept a
with_subscription c account a (some sub) =
    check_subscription c account (record a { subscription_id = sub }) (c.query_subscription sub)

abbrev bounded : Chain → Bytes → ChainSession → ℤ → Answer Admission
bounded c account s remaining =
    with_subscription c account
      (record { session = s; subscription_id = 0; remaining_bytes = remaining; alloc = none })
      s.subscription

abbrev check_bytes : Chain → Bytes → ChainSession → Answer Admission
check_bytes c account s =
    let diff = s.max_bytes -ℤ s.total_bytes in
    if is_positive s.max_bytes
    then (if not (is_positive diff)
        then refuse (api_error 400 8)
        else bounded c account s (clamp_i64 diff))
    else bounded c account s (pos 0)

abbrev check_session :
    Settings → Chain → AdmitRequest → Result (Option ChainSession) → Answer Admission
check_session n c r (err e) = refuse (api_error 500 5)
check_session n c r (ok none) = refuse (api_error 404 5)
check_session n c r (ok (some s)) =
    if not (is_active s.status)
    then refuse (api_error 404 5)
    else if not (bytes_eq s.acc_address r.acc_address)
    then refuse (api_error 400 5)
    else if not (bytes_eq s.node_address n.node_address)
    then refuse (api_error 400 7)
    else check_bytes c r.acc_address s

unfoldable pub query_admission : Settings → Chain → AdmitRequest → Answer Admission
unfolding clamp_i64
query_admission n c r = check_session n c r (c.query_session r.id)

-- Bytes served on the allocation and not yet reported are counted in.
unfoldable pub utilised : ℤ → List Session → ℤ
utilised u [] = u
utilised u (r ∷ rs) = utilised (u +ℤ served_bytes r) rs

unfoldable pub allocation_left : ℤ → Allocation → List Session → Answer ℤ
allocation_left remaining a rows =
    let used = utilised a.utilised_bytes rows in
    let left = clamp_i64 (a.granted_bytes -ℤ used) in
    if leb_ℤ a.granted_bytes used
    then refuse (api_error 400 8)
    else accept (if eqb_ℤ remaining (pos 0) || ltb_ℤ left remaining then left else remaining)

-- The row that an admission writes.
unfoldable pub new_row : AdmitRequest → Admission → ℤ → Session
unfolding clamp_i64
new_row r a remaining = record {
  id = r.id;
  subscription = a.subscription_id;
  key = peer_key r;
  address = r.acc_address;
  available = remaining;
  download = clamp_i64 a.session.download;
  upload = clamp_i64 a.session.upload;
  base_download = clamp_i64 a.session.download;
  base_upload = clamp_i64 a.session.upload;
  base_duration = a.session.duration;
  created_at = pos 0;
  updated_at = pos 0;
}

module _ (D : Database) (S : Service) where
  pub record World : Type 0 where
    pub db : D.Db
    pub svc : S.State

  abbrev pub Step : Type 0 → Type 0
  Step A = World → Answer A × World

  abbrev pub pure : {A : Type 0} → A → Step A
  pure a w = (accept a, w)

  abbrev pub fail : {A : Type 0} → ApiError → Step A
  fail e w = (refuse e, w)

  abbrev pub lift : {A : Type 0} → Answer A → Step A
  lift r w = (r, w)

  infixl 5 ◌>>=◌ ◌>>◌
  abbrev after : {A B : Type 0} → Answer A × World → (A → Step B) → Answer B × World
  after (accept a, w) f = f a w
  after (refuse e, w) f = (refuse e, w)

  abbrev pub ◌>>=◌ : {A B : Type 0} → Step A → (A → Step B) → Step B
  ◌>>=◌ m f w = after (m w) f

  abbrev pub ◌>>◌ : {B : Type 0} → Step (Unit {0}) → Step B → Step B
  ◌>>◌ m k = m >>= λ _. k

  -- A query whose failure is answered with `e`.
  abbrev answered : {A : Type 0} → ApiError → World → Result A × D.Db → Answer A × World
  answered e w (ok a, y) = (accept a, record w { db = y })
  answered e w (err x, y) = (refuse e, record w { db = y })

  abbrev pub query : {A : Type 0} → ApiError → (D.Db → Result A × D.Db) → Step A
  query e call w = answered e w (call w.db)

  abbrev pub guard : Bool → ApiError → Step (Unit {0})
  guard true e = pure tt
  guard false e = fail e

  unfoldable pub check_full : Settings → Step (Unit {0})
  check_full n w = guard (ltb (S.peer_count w.svc) n.max_peers) (api_error 400 1) w

  -- sessionExists behind its guard, for the session's id and for the peer's key.
  abbrev pub absent : (D.Db → Result ℕ × D.Db) → Step (Unit {0})
  absent call = do found ← query (api_error 500 3) call; guard (not (ltb 0 found)) (api_error 409 3)

  unfoldable pub check_id : AdmitRequest → Step (Unit {0})
  check_id r = absent (D.count_id r.id)

  unfoldable pub check_key : AdmitRequest → Step (Unit {0})
  check_key r = absent (D.count_key (peer_key r))

  -- checkCapacity
  unfoldable pub check_capacity : Settings → AdmitRequest → Step (Unit {0})
  unfolding check_full check_id check_key
  check_capacity n r = do check_full n; check_id r; check_key r

  abbrev capped : AdmitRequest → Admission → Option Allocation → Step ℤ
  capped r a none = pure a.remaining_bytes
  capped r a (some x) = do
    rows ← query (api_error 500 8) (D.find_account a.subscription_id r.acc_address)
    lift (allocation_left a.remaining_bytes x rows)

  unfoldable pub cap_bytes : AdmitRequest → Admission → Step ℤ
  cap_bytes r a = capped r a a.alloc

  abbrev evicted : World → Option Err × S.State → Answer (Unit {0}) × World
  evicted w (none, y) = (accept tt, record w { svc = y })
  evicted w (some e, y) = (refuse (api_error 500 9), record w { svc = y })

  abbrev evict_one : Bytes → Step (Unit {0})
  evict_one key w = evicted w (remove_peer_if_exists S key w.svc)

  unfoldable pub evict : List Session → Step (Unit {0})
  evict [] = pure tt
  evict (r ∷ rs) = evict_one r.key >> evict rs

  unfoldable pub drop_earlier : AdmitRequest → Admission → Step (Unit {0})
  unfolding evict
  drop_earlier r a = do
    rows ← query (api_error 500 9) (D.find_account a.subscription_id r.acc_address)
    evict rows

  abbrev added : World → Result Bytes × S.State → Answer Bytes × World
  added w (ok p, y) = (accept p, record w { svc = y })
  added w (err e, y) = (refuse (api_error 500 10), record w { svc = y })

  unfoldable pub add_peer : AdmitRequest → Step Bytes
  add_peer r w = added w (S.add_peer r.peer_data w.svc)

  -- A row that cannot be written takes the peer out again; a failure to do so is only logged.
  abbrev recorded : AdmitRequest → World → Option Err × D.Db → Answer (Unit {0}) × World
  recorded r w (none, y) = (accept tt, record w { db = y })
  recorded r w (some e, y) =
      (refuse (api_error 500 10), record { db = y; svc = (S.remove_peer r.peer_data w.svc).1 })

  unfoldable pub record_session : AdmitRequest → Admission → ℤ → Step (Unit {0})
  record_session r a remaining w = recorded r w (D.create (new_row r a remaining) w.db)

  unfoldable pub register : AdmitRequest → Admission → ℤ → Step AdmitResult
  register r a remaining = do
    peer ← add_peer r
    record_session r a remaining
    pure (record { session = a.session; peer = peer })

  -- What admit does under the lock.
  unfoldable pub admit_locked : Settings → AdmitRequest → Admission → Step AdmitResult
  admit_locked n r a = do
    check_capacity n r
    remaining ← cap_bytes r a
    drop_earlier r a
    register r a remaining

  -- admit, with nothing between the first check and the lock.
  unfoldable pub admit : Settings → Chain → AdmitRequest → Step AdmitResult
  admit n c r = do check_capacity n r; a ← lift (query_admission n c r); admit_locked n r a
