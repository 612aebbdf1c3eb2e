-- ===== src/Jobs/Passes.antt =====
-- updateSessions' loop over the table: what it reports, and what it leaves in the table.
use dvpnd.Prelude.{
  ℕ, ◌≡◌, refl, ◌∙◌, ◌⊎◌, inl, inr, Bool, true, false, ◌||◌, Option, none, some, List, [], ◌∷◌, All,
  Bool-cases, if◌then◌else◌, Bytes,
}
use mathlib.Core.Path.{ap, subst}
use dvpnd.Prelude.Base64.{decode}
use dvpnd.Prelude.Results.{Err, ok}
use dvpnd.Session.{Session}
use dvpnd.Chain.{Chain}
use dvpnd.Service.{Service, ServiceLaws, IsPeerData, Removed}
use dvpnd.Database.{Database, DatabaseLaws, Writes, remove_id, matches_id}
use dvpnd.Context.{remove_peer, remove_found, has_peer, remove_peer_if_exists}
use dvpnd.Admission.{World}
use dvpnd.Jobs.{check_session, Pass, check_each, retire, acted, unrow, unpeered}
use dvpnd.Jobs.Reporting.{In}
use dvpnd.Jobs.Checking.{Reportable, check_session_rule}

remove_id-In :
    (id : ℕ) (r : Session) (rs : List Session)
    → In r rs
    → matches_id id r ≡ false
    → In r (remove_id id rs)
unfolding remove_id
remove_id-In id r [] i n = absurd i
remove_id-In id r (x ∷ rs) i n = elim (Bool-cases (matches_id id x)) [
  | inl y ↦ rw y (elim i [
    | inl e ↦ absurd (cc (ap (matches_id id) e, y, n))
    | inr k ↦ remove_id-In id r rs k n
  ])
  | inr m ↦ rw m (elim i [ inl e ↦ inl e | inr k ↦ inr (remove_id-In id r rs k n) ])
]

module _ (D : Database) (S : Service) where
  -- What retire leaves of the table: on an error it is as it was.
  abbrev pub Rows : Session → Bool → World D S → Option Err × World D S → Type 0
  Rows item rs w (some e, w') = D.rows w'.db ≡ D.rows w.db
  Rows item rs w (none, w') =
      D.rows w'.db ≡ (if rs then remove_id item.id (D.rows w.db) else D.rows w.db)

  unrow-Rows :
      (laws : DatabaseLaws D) (item : Session) (rs : Bool) (w w1 : World D S)
      → D.rows w1.db ≡ D.rows w.db
      → Rows item rs w (unrow D S item rs w1)
  unrow-Rows laws item false w w1 h = h
  unrow-Rows laws item true w w1 h =
      deleted (D.delete_id item.id w1.db) (laws.delete_id-Writes item.id w1.db)
    where
      deleted :
          (r : Option Err × D.Db)
          → Writes D w1.db (remove_id item.id (D.rows w1.db)) r
          → Rows item true w (r.0, record w1 { db = r.1 })
      deleted (some e, y) k = k ∙ h
      deleted (none, y) k = rw (← h) k

  unpeered-Rows :
      (laws : DatabaseLaws D) (item : Session) (rs : Bool) (w : World D S)
      (r : Option Err × S.State)
      → Rows item rs w (unpeered D S item rs w r)
  unpeered-Rows laws item rs w (some e, y) = refl
  unpeered-Rows laws item rs w (none, y) = unrow-Rows laws item rs w (record w { svc = y }) refl

  retire-Rows :
      (laws : DatabaseLaws D) (item : Session) (rp rs : Bool) (w : World D S)
      → Rows item rs w (retire D S item rp rs w)
  unfolding retire
  retire-Rows laws item false rs w = unrow-Rows laws item rs w w refl
  retire-Rows laws item true rs w =
      unpeered-Rows laws item rs w (remove_peer_if_exists S item.key w.svc)

  -- The chain's answers leave the row alone.
  abbrev pub Spared : Chain → Session → Session → Type 0
  Spared c r item = ((check_session c item).remove_session ≡ false) ⊎ (matches_id item.id r ≡ false)

  spared_lem :
      (c : Chain) (r item : Session) (rs : Bool) (w : World D S) (q : Option Err × World D S)
      → (rs ≡ false) ⊎ (matches_id item.id r ≡ false)
      → In r (D.rows w.db)
      → Rows item rs w q
      → In r (D.rows q.1.db)
  spared_lem c r item rs w (some e, w') h i k = rw k i
  spared_lem c r item false w (none, w') h i k = rw k i
  spared_lem c r item true w (none, w') (inl f) i k = absurd (cc f)
  spared_lem c r item true w (none, w') (inr f) i k =
      rw k (remove_id-In item.id r (D.rows w.db) i f)

  acted-In :
      (laws : DatabaseLaws D) (c : Chain) (r item : Session) (p : Pass D S)
      → Spared c r item
      → In r (D.rows p.world.db)
      → In r (D.rows (acted D S item (check_session c item) p).world.db)
  acted-In laws c r item p h i =
      let k = check_session c item in
      elim (Bool-cases (k.remove_peer || k.remove_session)) [
        | inr n ↦ rw n i
        | inl y ↦ rw y (
            spared_lem c r item k.remove_session p.world _ h i
              (retire-Rows laws item k.remove_peer k.remove_session p.world))
      ]

  -- With a lawful database, a pass of updateSessions' checks leaves in the table every row that no
  -- checked session, of those whose row is to go, matches by id.
  pub check_each-Spared :
      (laws : DatabaseLaws D) (c : Chain) (r : Session) (items : List Session) (w : World D S)
      → All (Spared c r) items
      → In r (D.rows w.db)
      → In r (D.rows (check_each D S c items w).world.db)
  unfolding check_each
  check_each-Spared laws c r [] w h i = i
  check_each-Spared laws c r (item ∷ items) w h i =
      acted-In laws c r item (check_each D S c items w) h.0
        (check_each-Spared laws c r items w h.1 i)

  kept_cases :
      (b : Bool) (s item : Session) (xs : List Session)
      → In s (if b then xs else item ∷ xs)
      → ((item ≡ s) × (b ≡ false)) ⊎ In s xs
  kept_cases true s item xs i = inr i
  kept_cases false s item xs (inl e) = inl (e, refl)
  kept_cases false s item xs (inr i) = inr i

  reportable_lem :
      (c : Chain) (item : Session)
      → (check_session c item).skip_update ≡ false
      → Reportable c item (c.query_session item.id)
  reportable_lem c item n = elim (check_session_rule c item).report [
    | inl y ↦ absurd (cc (y, n))
    | inr r ↦ r
  ]

  -- Every session that a pass of updateSessions' checks keeps for the report is one of the sessions
  -- checked, and the chain holds it, has not ended it or its plan, and lacks use of it.
  pub check_each-Reportable :
      (c : Chain) (items : List Session) (w : World D S) (s : Session)
      → In s (check_each D S c items w).kept
      → In s items × Reportable c s (c.query_session s.id)
  unfolding check_each
  check_each-Reportable c [] w s i = absurd i
  check_each-Reportable c (item ∷ items) w s i =
      let p = check_each D S c items w in
      elim (kept_cases (check_session c item).skip_update s item p.kept i) [
        | inl h ↦ (
          inl h.0,
          subst (λ t. Reportable c t (c.query_session t.id)) h.0 (reportable_lem c item h.1),
        )
        | inr k ↦ let r = check_each-Reportable c items w s k in (inr r.0, r.1)
      ]

module _ (D : Database) (S : Service) where
  -- A removal that succeeds leaves no peer.
  abbrev Gone : Bytes → Option Err × S.State → Type 0
  Gone d (some e, y) = Unit {0}
  Gone d (none, y) = S.has_peer d y ≡ false

  Removed-Gone : (d : Bytes) (x : S.State) (r : Option Err × S.State) → Removed S d x r → Gone d r
  Removed-Gone d x (some e, y) h = tt
  Removed-Gone d x (none, y) h = h.0

  found-Gone :
      (laws : ServiceLaws S) (key d : Bytes) (x : S.State) (b : Bool)
      → decode key ≡ some d
      → IsPeerData d
      → laws.IsValid x
      → S.has_peer d x ≡ b
      → Gone d (remove_found S key (ok b) x)
  unfolding remove_peer
  found-Gone laws key d x false k p v h = h
  found-Gone laws key d x true k p v h =
      rw k (Removed-Gone d x (S.remove_peer d x) (laws.remove-Removed d x p v))

  if_exists-Gone :
      (laws : ServiceLaws S) (key d : Bytes) (x : S.State)
      → decode key ≡ some d
      → IsPeerData d
      → laws.IsValid x
      → Gone d (remove_peer_if_exists S key x)
  unfolding remove_peer_if_exists has_peer
  if_exists-Gone laws key d x k p v = rw k (found-Gone laws key d x (S.has_peer d x) k p v refl)

  -- A retirement: one that fails keeps the row, and one that succeeds has no peer, and no row where
  -- the row was to go.
  abbrev pub Retired : Session → Bytes → Bool → World D S → Option Err × World D S → Type 0
  Retired item d rs w (some e, w') = D.rows w'.db ≡ D.rows w.db
  Retired item d rs w (none, w') =
      (S.has_peer d w'.svc ≡ false)
      × (D.rows w'.db ≡ (if rs then remove_id item.id (D.rows w.db) else D.rows w.db))

  unrow-svc : (item : Session) (rs : Bool) (w : World D S) → (unrow D S item rs w).1.svc ≡ w.svc
  unrow-svc item false w = refl
  unrow-svc item true w = refl

  with-Rows :
      (item : Session) (d : Bytes) (rs : Bool) (w : World D S) (q : Option Err × World D S)
      → S.has_peer d q.1.svc ≡ false
      → Rows D S item rs w q
      → Retired item d rs w q
  with-Rows item d rs w (some e, w') h k = k
  with-Rows item d rs w (none, w') h k = (h, k)

  unpeered-Retired :
      (dlaws : DatabaseLaws D) (item : Session) (d : Bytes) (rs : Bool) (w : World D S)
      (r : Option Err × S.State)
      → Gone d r
      → Retired item d rs w (unpeered D S item rs w r)
  unpeered-Retired dlaws item d rs w (some e, y) g = refl
  unpeered-Retired dlaws item d rs w (none, y) g =
      with-Rows item d rs w _ (rw (unrow-svc item rs (record w { svc = y })) g)
        (unpeered-Rows D S dlaws item rs w (none, y))

  -- With a lawful database and a lawful service in a valid state, for a key that is base64 of
  -- well-formed peer data: a retirement that takes the peer away and fails leaves the table as it
  -- was; one that succeeds has no such peer, and of the rows just those of its id are gone if that
  -- was asked.
  pub retire-Retired :
      (dlaws : DatabaseLaws D) (laws : ServiceLaws S) (item : Session) (d : Bytes) (rs : Bool)
      (w : World D S)
      → decode item.key ≡ some d
      → IsPeerData d
      → laws.IsValid w.svc
      → Retired item d rs w (retire D S item true rs w)
  unfolding retire
  retire-Retired dlaws laws item d rs w k p v =
      unpeered-Retired dlaws item d rs w _ (if_exists-Gone laws item.key d w.svc k p v)
