-- ===== src/Admission/Register.antt =====
-- The end of an admission: the account's earlier peers go, the new peer comes, its row is written.
use native.Mathlib.Nat.{le_trans}
use dvpnd.Prelude.{
  suc, ◌≤◌, ◌≡◌, refl, ◌∙◌, ◌⊎◌, inl, inr, Bool, true, false, Option, none, some, List, [], ◌∷◌,
  Bytes, Option-cases, arith,
}
use dvpnd.Prelude.Int.{ℤ}
use dvpnd.Prelude.Base64.{decode}
use dvpnd.Prelude.Results.{Err, Result, ok, err}
use dvpnd.Session.{Session}
use dvpnd.Service.{Service, ServiceLaws, IsPeerData, Added, Removed}
use dvpnd.Context.{remove_peer, remove_peer_if_exists, remove_found, has_peer}
use dvpnd.Database.{Database, DatabaseLaws, Creates, Inserted, select, matches_account}
use dvpnd.Admission.{
  Admission, AdmitRequest, World, api_error, query, new_row, evict, evicted, drop_earlier, added,
  add_peer, recorded, record_session, register,
}
use dvpnd.Admission.Steps.{Post, Same, after_rule, weaken, query_rule}

module _ (D : Database) (S : Service) (laws : DatabaseLaws D) (promises : ServiceLaws S) where
  -- Rows stay, the service stays well formed and has no more peers than before.
  pub record Fewer (w w' : World D S) : Type 0 where
    pub rows : D.rows w'.db ≡ D.rows w.db
    pub valid : promises.IsValid w'.svc
    pub count : S.peer_count w'.svc ≤ S.peer_count w.svc

  remove_peer-count :
      (key : Bytes) (x : S.State)
      → promises.IsValid x
      → promises.IsValid (remove_peer S key x).1
        × (S.peer_count (remove_peer S key x).1 ≤ S.peer_count x)
  unfolding remove_peer
  remove_peer-count key x v = elim (Option-cases (decode key)) [
    | inl e ↦ rw e (v, omega arith)
    | inr (d, e) ↦ rw e (promises.remove-IsValid d x v, promises.remove-count d x v)
  ]

  remove_found-count :
      (key : Bytes) (q : Result Bool) (x : S.State)
      → promises.IsValid x
      → promises.IsValid (remove_found S key q x).1
        × (S.peer_count (remove_found S key q x).1 ≤ S.peer_count x)
  remove_found-count key (err e) x v = (v, omega arith)
  remove_found-count key (ok false) x v = (v, omega arith)
  remove_found-count key (ok true) x v = remove_peer-count key x v

  -- Removing a peer by its key, whatever comes of it.
  pub remove_if_exists-count :
      (key : Bytes) (x : S.State)
      → promises.IsValid x
      → promises.IsValid (remove_peer_if_exists S key x).1
        × (S.peer_count (remove_peer_if_exists S key x).1 ≤ S.peer_count x)
  unfolding remove_peer_if_exists
  remove_if_exists-count key x v = remove_found-count key (has_peer S key x) x v

  Fewer-refl : (w : World D S) → promises.IsValid w.svc → Fewer w w
  Fewer-refl w v = record { rows = refl; valid = v; count = omega arith }

  Fewer-trans : (u v w : World D S) → Fewer u v → Fewer v w → Fewer u w
  Fewer-trans u v w f g = record {
    rows = g.rows ∙ f.rows;
    valid = g.valid;
    count = omega (arith, f.count, g.count);
  }

  Fewer-Same : (u v w : World D S) → Same D S u v → Fewer v w → Fewer u w
  Fewer-Same u v w f g = record {
    rows = g.rows ∙ f.rows;
    valid = g.valid;
    count = rw (← f.service) g.count;
  }

  evicted-Fewer :
      (w : World D S) (q : Option Err × S.State)
      → promises.IsValid q.1
      → S.peer_count q.1 ≤ S.peer_count w.svc
      → Post D S (λ _ w'. Fewer w w') (λ _ w'. Fewer w w') (evicted D S w q)
  evicted-Fewer w (none, y) v h = record { rows = refl; valid = v; count = h }
  evicted-Fewer w (some e, y) v h = record { rows = refl; valid = v; count = h }

  evict_rule :
      (rs : List Session) (w : World D S)
      → promises.IsValid w.svc
      → Post D S (λ _ w'. Fewer w w') (λ _ w'. Fewer w w') (evict D S rs w)
  unfolding evict
  evict_rule [] w v = Fewer-refl w v
  evict_rule (r ∷ rs) w v =
      let (v', h) = remove_if_exists-count r.key w.svc v in
      after_rule D S (λ _ w'. Fewer w w') (λ _ w'. Fewer w w') _ _ _
        (evicted-Fewer w (remove_peer_if_exists S r.key w.svc) v' h)
        λ _ w1 f.
          weaken D S _ _ _ _ (evict D S rs w1) (λ _ w2 g. Fewer-trans w w1 w2 f g)
            (λ _ w2 g. Fewer-trans w w1 w2 f g) (evict_rule rs w1 f.valid)

  -- Dropping the account's earlier peers touches no row.
  pub drop_earlier_rule :
      (r : AdmitRequest) (a : Admission) (w : World D S)
      → promises.IsValid w.svc
      → Post D S (λ _ w'. Fewer w w') (λ _ w'. Fewer w w') (drop_earlier D S r a w)
  unfolding drop_earlier
  drop_earlier_rule r a w v =
      after_rule D S (λ _ w'. Same D S w w') (λ _ w'. Fewer w w') (λ _ w'. Fewer w w')
        (query D S (api_error 500 9) (D.find_account a.subscription_id r.acc_address) w) (evict D S)
        (weaken D S
          (λ rows w1.
            (rows ≡ select (matches_account a.subscription_id r.acc_address) (D.rows w.db))
            × Same D S w w1)
          (λ _ w1. Same D S w w1) (λ _ w1. Same D S w w1) (λ _ w1. Fewer w w1)
          (query D S (api_error 500 9) (D.find_account a.subscription_id r.acc_address) w)
          (λ _ w1 h. h.1) (λ _ w1 h. Fewer-Same w w1 w1 h (Fewer-refl w1 (rw h.service v)))
          (query_rule D S _ (api_error 500 9) (D.find_account a.subscription_id r.acc_address) w
            (laws.find_account-Reads a.subscription_id r.acc_address w.db)))
        λ rows w1 h.
          weaken D S (λ _ w'. Fewer w1 w') (λ _ w'. Fewer w w') (λ _ w'. Fewer w1 w')
            (λ _ w'. Fewer w w') (evict D S rows w1) (λ _ w2 g. Fewer-Same w w1 w2 h g)
            (λ _ w2 g. Fewer-Same w w1 w2 h g) (evict_rule rows w1 (rw h.service v))

  -- The new peer is served and its row stands in the table.
  pub record Registered (row : Session) (d : Bytes) (w w' : World D S) : Type 0 where
    pub inserted : Inserted row (D.rows w.db) (D.rows w'.db)
    pub served : S.has_peer d w'.svc ≡ true
    pub valid : promises.IsValid w'.svc
    pub count : S.peer_count w'.svc ≤ suc (S.peer_count w.svc)

  -- No row is written, and the new peer is gone: it never came, it was taken out again, or its removal
  -- failed.
  pub record Undone (d : Bytes) (w w' : World D S) : Type 0 where
    pub rows : D.rows w'.db ≡ D.rows w.db
    pub gone :
        (S.has_peer d w'.svc ≡ S.has_peer d w.svc)
        ⊎ (S.has_peer d w'.svc ≡ false)
        ⊎ (e : Err) × (x : S.State) × ((S.remove_peer d x).0 ≡ some e)
    pub valid : promises.IsValid w'.svc
    pub count : S.peer_count w'.svc ≤ suc (S.peer_count w.svc)

  module _ (r : AdmitRequest) (a : Admission) (v : ℤ) (is_data : IsPeerData r.peer_data) where
    removed-gone :
        (x : S.State)
        → promises.IsValid x
        → (S.has_peer r.peer_data (S.remove_peer r.peer_data x).1 ≡ false)
          ⊎ (e : Err) × (x : S.State) × ((S.remove_peer r.peer_data x).0 ≡ some e)
    removed-gone x ok_x =
        by_outcome (S.remove_peer r.peer_data x) refl
          (promises.remove-Removed r.peer_data x is_data ok_x)
      where
        by_outcome :
            (q : Option Err × S.State)
            → S.remove_peer r.peer_data x ≡ q
            → Removed S r.peer_data x q
            → (S.has_peer r.peer_data (S.remove_peer r.peer_data x).1 ≡ false)
              ⊎ (e : Err) × (x : S.State) × ((S.remove_peer r.peer_data x).0 ≡ some e)
        by_outcome (none, y) e h = inl (rw e h.0)
        by_outcome (some k, y) e h = inr (k, x, rw e refl)

    abbrev Joined : World D S → World D S → Type 0
    Joined w w1 =
        (D.rows w1.db ≡ D.rows w.db)
        × (S.has_peer r.peer_data w1.svc ≡ true)
        × promises.IsValid w1.svc
        × (S.peer_count w1.svc ≤ suc (S.peer_count w.svc))

    added_rule :
        (w : World D S) (q : Result Bytes × S.State)
        → promises.IsValid q.1
        → Added S r.peer_data w.svc q
        → Post D S (λ _ w1. Joined w w1) (λ _ w1. Undone r.peer_data w w1) (added D S w q)
    added_rule w (ok p, y) valid h = (refl, h.0, valid, h.2)
    added_rule w (err e, y) valid h = record {
      rows = refl;
      gone = inl (h.0 r.peer_data);
      valid = valid;
      count = omega (arith, h.1);
    }

    recorded_rule :
        (w w1 : World D S) (q : Option Err × D.Db)
        → Joined w w1
        → Creates D (new_row r a v) w1.db q
        → Post D S
            (λ _ w2. Registered (new_row r a v) r.peer_data w w2)
            (λ _ w2. Undone r.peer_data w w2)
            (recorded D S r w1 q)
    recorded_rule w w1 (none, y) (same, has, valid, count) h = record {
      inserted = rw (← same) h;
      served = has;
      valid = valid;
      count = count;
    }
    recorded_rule w w1 (some e, y) (same, has, valid, count) h = record {
      rows = h ∙ same;
      gone = inr (removed-gone w1.svc valid);
      valid = promises.remove-IsValid r.peer_data w1.svc valid;
      count = le_trans (promises.remove-count r.peer_data w1.svc valid) count;
    }

    -- Registering a peer: it is served with its row written, or no row is written and it is gone
    -- unless the service failed to remove it.
    pub register_rule :
        (w : World D S)
        → promises.IsValid w.svc
        → Post D S
            (λ _ w'. Registered (new_row r a v) r.peer_data w w')
            (λ _ w'. Undone r.peer_data w w')
            (register D S r a v w)
    unfolding register add_peer record_session
    register_rule w valid =
        after_rule D S (λ _ w1. Joined w w1) (λ _ w1. Undone r.peer_data w w1)
          (λ _ w'. Registered (new_row r a v) r.peer_data w w') (add_peer D S r w) _
          (added_rule w (S.add_peer r.peer_data w.svc)
            (promises.add-IsValid r.peer_data w.svc is_data valid)
            (promises.add-Added r.peer_data w.svc is_data valid))
          λ p w1 joined.
            after_rule D S (λ _ w2. Registered (new_row r a v) r.peer_data w w2)
              (λ _ w2. Undone r.peer_data w w2)
              (λ _ w2. Registered (new_row r a v) r.peer_data w w2) (record_session D S r a v w1) _
              (recorded_rule w w1 (D.create (new_row r a v) w1.db) joined
                (laws.create-Creates (new_row r a v) w1.db))
              λ _ w2 h. h
