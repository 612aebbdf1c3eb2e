-- ===== src/Jobs/Metering.antt =====
-- setSessions: what a pass stores for a peer, and whom it cuts off.
use dvpnd.Prelude.{
  ℕ, ◌+◌, ◌*◌, ◌/◌, ◌%◌, ◌^◌, ◌<◌, ◌≡◌, refl, sym, ap, ◌∙◌, ◌⊎◌, inl, inr, true, false, length,
  length-append, Option, none, some, List, [], ◌∷◌, Bytes, Bool-cases, dec_lt, arith,
}
use dvpnd.Prelude.Int.{
  ℤ, pos, negsuc, ◌+ℤ◌, ◌-ℤ◌, wrap64, IsI64, IsI64-wrap64, pos_part, neg_part, eq_of_parts,
  +ℤ_parts, -ℤ_parts,
}
use dvpnd.Prelude.Results.{Err, Result, ok, err, add_err}
use dvpnd.Session.{Session, served_bytes}
use dvpnd.Service.{Service, Usage}
use dvpnd.Database.{
  Database, DatabaseLaws, Reads, Updates, set_usage, select, matches_key, take_one,
}
use dvpnd.Context.{remove_peer}
use dvpnd.Admission.{World}
use dvpnd.Jobs.{reported_usage, over_limit, limited, stored, matched, metered, set_one}

-- Two integers that differ by a multiple of 2 ^ 64.
abbrev Congruent : ℤ → ℤ → Type 0
Congruent a b =
    (k : ℕ) × (m : ℕ) × (pos_part a + neg_part b + k * 2 ^ 64
      ≡ neg_part a + pos_part b + m * 2 ^ 64)

wrap64-Congruent : (z : ℤ) → Congruent (wrap64 z) z
unfolding wrap64
wrap64-Congruent (pos n) = elim (dec_lt (n % 2 ^ 64) (2 ^ 63)) [
  | yes l ↦ (n / 2 ^ 64, 0, ground arith)
  | no l ↦ (n / 2 ^ 64 + 1, 0, ground arith)
]
wrap64-Congruent (negsuc n) = elim (dec_lt (n % 2 ^ 64) (2 ^ 63)) [
  | yes l ↦ (0, n / 2 ^ 64, ground arith)
  | no l ↦ (0, n / 2 ^ 64 + 1, ground arith)
]

Congruent-eq : (a b : ℤ) → IsI64 a → IsI64 b → Congruent a b → a ≡ b
Congruent-eq a b h h' (k, m, e) = eq_of_parts a b (omega (arith, e, h.0, h.1, h'.0, h'.1))

-- A base added before the report and taken off again leaves the counter.
unwrap : (b u : ℤ) → wrap64 (wrap64 (b +ℤ u) -ℤ b) ≡ wrap64 u
unwrap b u =
    let (k1, m1, e1) = wrap64-Congruent (wrap64 (b +ℤ u) -ℤ b) in
    let (k2, m2, e2) = wrap64-Congruent (b +ℤ u) in
    let (k3, m3, e3) = wrap64-Congruent u in
    Congruent-eq _ _ (IsI64-wrap64 _) (IsI64-wrap64 _) (
      k1 + k2 + m3,
      m1 + m2 + k3,
      omega (arith, e1, e2, e3, +ℤ_parts b u, -ℤ_parts (wrap64 (b +ℤ u)) b),
    )

wrap_sum : (a b : ℤ) → wrap64 (wrap64 b +ℤ wrap64 a) ≡ wrap64 (a +ℤ b)
wrap_sum a b =
    let (k1, m1, e1) = wrap64-Congruent (wrap64 b +ℤ wrap64 a) in
    let (k2, m2, e2) = wrap64-Congruent a in
    let (k3, m3, e3) = wrap64-Congruent b in
    let (k4, m4, e4) = wrap64-Congruent (a +ℤ b) in
    Congruent-eq _ _ (IsI64-wrap64 _) (IsI64-wrap64 _) (
      k1 + k2 + k3 + m4,
      m1 + m2 + m3 + k4,
      omega (arith, e1, e2, e3, e4, +ℤ_parts (wrap64 b) (wrap64 a), +ℤ_parts a b),
    )

take_one_single :
    (xs : List Session) (item : Session) (more : List Session)
    → item ∷ more ≡ take_one xs
    → take_one xs ≡ item ∷ []
unfolding take_one
take_one_single [] item more h = absurd (cc h)
take_one_single (x ∷ xs) item more h = cc h

-- The row with the totals that setSessions stores for the peer.
abbrev pub with_usage : Usage → ℤ → Session → Session
with_usage peer now item = record item {
  upload = (reported_usage item peer).upload;
  download = (reported_usage item peer).download;
  updated_at = now;
}

-- Whatever the chain held at admission, ServedBytes of the totals that setSessions stores is the
-- sum of the peer's counters as an int64.
pub served_bytes-reported :
    (item : Session) (peer : Usage) (now : ℤ)
    → served_bytes (with_usage peer now item) ≡ wrap64 (peer.upload +ℤ peer.download)
unfolding served_bytes reported_usage
served_bytes-reported item peer now =
    simp (unwrap item.base_upload peer.upload, unwrap item.base_download peer.download)
      (wrap_sum peer.upload peer.download)

module _ (D : Database) (S : Service) where
  -- The row of the peer's key got the peer's totals, and nothing else changed in the table.
  pub record Stored (peer : Usage) (w w' : World D S) : Type 0 where
    pub item : Session
    pub now : ℤ
    pub found : take_one (select (matches_key peer.key) (D.rows w.db)) ≡ item ∷ []
    pub moved : (reported_usage item peer).moved ≡ true
    pub rows :
        D.rows w'.db
        ≡ set_usage item.id
            (reported_usage item peer).upload
            (reported_usage item peer).download
            now
            (D.rows w.db)

  -- The peer was cut off: the service was asked to remove its key.
  abbrev pub Cut : Bytes → World D S → World D S → Type 0
  Cut key w w' = w'.svc ≡ (remove_peer S key w.svc).1

  abbrev pub ReportedError : List Err → List Err → Type 0
  ReportedError es es' = length es < length es'

  -- The store refuses the totals of the row.
  abbrev pub Refuses : Session → Usage → World D S → Type 0
  Refuses item peer w =
      (e : Err) × ((D.update_usage item.id (reported_usage item peer).upload
          (reported_usage item peer).download (D.find_key peer.key w.db).1).0
        ≡ some e)

  -- The store took the totals, or it refused them and the pass reports that.
  abbrev pub Kept : Session → Usage → List Err → World D S → List Err → World D S → Type 0
  Kept item peer es w es' w' =
      Stored peer w w' ⊎ (Refuses item peer w × (D.rows w'.db ≡ D.rows w.db) × ReportedError es es')

  -- The row found for a peer, and what becomes of it: a peer that sent nothing is left alone; else
  -- its totals are stored, and it is cut off just if it is over its limit.
  pub record Known (peer : Usage) (es : List Err) (w : World D S) (es' : List Err) (w' : World D S)
      : Type 0 where
    pub item : Session
    pub found : take_one (select (matches_key peer.key) (D.rows w.db)) ≡ item ∷ []
    pub outcome :
        (((reported_usage item peer).moved ≡ false)
          × (D.rows w'.db ≡ D.rows w.db)
          × (w'.svc ≡ w.svc))
        ⊎ (Kept item peer es w es' w'
            × (((over_limit item peer ≡ true) × Cut item.key w w')
                ⊎ ((over_limit item peer ≡ false) × (w'.svc ≡ w.svc))))

  -- The table cannot be read for the key.
  abbrev pub Unread : Bytes → World D S → Type 0
  Unread key w = (e : Err) × ((D.find_key key w.db).0 ≡ err e)

  -- The pass over one peer: the table cannot be read, which is reported; or no row has the peer's key
  -- and the peer is cut off; or its row is known.
  abbrev pub Metered : Usage → List Err → World D S → List Err × World D S → Type 0
  Metered peer es w (es', w') =
      (Unread peer.key w × ReportedError es es' × (D.rows w'.db ≡ D.rows w.db) × (w'.svc ≡ w.svc))
      ⊎ ((((take_one (select (matches_key peer.key) (D.rows w.db)) ≡ [])
            × Cut peer.key w w'
            × (D.rows w'.db ≡ D.rows w.db)))
          ⊎ Known peer es w es' w')

  add_err_grows :
      (a : Option Err) (es es' : List Err) → ReportedError es es' → ReportedError es (add_err a es')
  add_err_grows none es es' h = h
  add_err_grows (some e) es es' h = omega (arith, h, length-append es' (e ∷ []))

  add_err_reports : (e : Err) (es : List Err) → ReportedError es (add_err (some e) es)
  add_err_reports e es = omega (arith, length-append es (e ∷ []))

  drop_Kept :
      (a : Option Err) (y : S.State) (item : Session) (peer : Usage) (es : List Err) (w : World D S)
      (es1 : List Err) (w1 : World D S)
      → Kept item peer es w es1 w1
      → Kept item peer es w (add_err a es1) (record w1 { svc = y })
  drop_Kept a y item peer es w es1 w1 (inl k) =
      inl record { item = k.item; now = k.now; found = k.found; moved = k.moved; rows = k.rows }
  drop_Kept a y item peer es w es1 w1 (inr (g, h, n)) = inr (g, h, add_err_grows a es es1 n)

  limited-Kept :
      (item : Session) (peer : Usage) (es : List Err) (w : World D S) (es1 : List Err)
      (w1 : World D S)
      → w1.svc ≡ w.svc
      → Kept item peer es w es1 w1
      → Kept item peer es w (limited D S item peer (es1, w1)).0 (limited D S item peer (es1, w1)).1
        × (((over_limit item peer ≡ true) × Cut item.key w (limited D S item peer (es1, w1)).1)
            ⊎ ((over_limit item peer ≡ false) × ((limited D S item peer (es1, w1)).1.svc ≡ w.svc)))
  limited-Kept item peer es w es1 w1 hs k = elim (Bool-cases (over_limit item peer)) [
    | inl y ↦ rw y (
      drop_Kept (remove_peer S item.key w1.svc).0 (remove_peer S item.key w1.svc).1 item peer es w
          es1 w1 k,
      inl (refl, ap (λ t. (remove_peer S item.key t).1) hs),
    )
    | inr n ↦ rw n (k, inr (refl, hs))
  ]

  stored-Kept :
      (laws : DatabaseLaws D) (item : Session) (peer : Usage) (es : List Err) (w w1 : World D S)
      (r : Option Err × D.Db)
      → take_one (select (matches_key peer.key) (D.rows w.db)) ≡ item ∷ []
      → (reported_usage item peer).moved ≡ true
      → D.rows w1.db ≡ D.rows w.db
      → w1.db ≡ (D.find_key peer.key w.db).1
      → D.update_usage item.id
          (reported_usage item peer).upload
          (reported_usage item peer).download
          w1.db
        ≡ r
      → Updates D item.id
          (reported_usage item peer).upload
          (reported_usage item peer).download
          w1.db
          r
      → Kept item peer es w (stored D S es w1 r).0 (stored D S es w1 r).1
  stored-Kept laws item peer es w w1 (some e, y) f m hr same q u =
      inr ((e, rw (← same) (ap (λ o. o.0) q)), u ∙ hr, add_err_reports e es)
  stored-Kept laws item peer es w w1 (none, y) f m hr same q (now, u) =
      inl record { item = item; now = now; found = f; moved = m; rows = rw (← hr) u }

  metered-Known :
      (laws : DatabaseLaws D) (item : Session) (peer : Usage) (es : List Err) (w w1 : World D S)
      → take_one (select (matches_key peer.key) (D.rows w.db)) ≡ item ∷ []
      → D.rows w1.db ≡ D.rows w.db
      → w1.db ≡ (D.find_key peer.key w.db).1
      → w1.svc ≡ w.svc
      → Known peer es w (metered D S peer es w1 item).0 (metered D S peer es w1 item).1
  metered-Known laws item peer es w w1 f hr same hs =
      elim (Bool-cases (reported_usage item peer).moved) [
        | inr n ↦ record { item = item; found = f; outcome = rw n (inl (refl, hr, hs)) }
        | inl y ↦ record {
          item = item;
          found = f;
          outcome = rw y (
              inr (
                limited-Kept item peer es w _ _ hs (
                  stored-Kept laws item peer es w w1 _ f y hr same refl
                    (laws.update_usage-Updates item.id _ _ w1.db))));
        }
      ]

  matched-Metered :
      (laws : DatabaseLaws D) (peer : Usage) (es : List Err) (w : World D S)
      (q : Result (List Session) × D.Db)
      → D.find_key peer.key w.db ≡ q
      → Reads D w.db (take_one (select (matches_key peer.key) (D.rows w.db))) q
      → Metered peer es w (matched D S peer es w q)
  matched-Metered laws peer es w (err e, y) q h =
      inl ((e, ap (λ o. o.0) q), omega (arith, length-append es (e ∷ [])), h, refl)
  matched-Metered laws peer es w (ok [], y) q h = inr (inl (sym h.0, refl, h.1))
  matched-Metered laws peer es w (ok (item ∷ more), y) q h = inr (
      inr (
        metered-Known laws item peer es w (record w { db = y }) (take_one_single _ item more h.0)
          h.1 (ap (λ o. o.1) (sym q)) refl))

  -- With a lawful database, a pass over one peer changes at most the rows' totals and the peer set:
  -- when the table cannot be read, that is reported and nothing changes; else a key that no row has
  -- is cut off; a peer that sent nothing is left alone; any other peer's row gets its totals, or
  -- the store refuses them and that is reported, and either way it is cut off exactly if it is over
  -- its limit.
  pub set_one-Metered :
      (laws : DatabaseLaws D) (peer : Usage) (es : List Err) (w : World D S)
      → Metered peer es w (set_one D S peer es w)
  unfolding set_one
  set_one-Metered laws peer es w =
      matched-Metered laws peer es w (D.find_key peer.key w.db) refl
        (laws.find_key-Reads peer.key w.db)
