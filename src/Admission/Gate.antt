-- ===== src/Admission/Gate.antt =====
-- checkCapacity passes only a request that the node has room for and does not know yet.
use dvpnd.Prelude.{ℕ, ◌<◌, ◌≡◌, sym, ◌∙◌, true, not, List, length, ltb, arith}
use dvpnd.Prelude.Results.{Result}
use dvpnd.Service.{Service}
use dvpnd.Session.{Session}
use dvpnd.Database.{Database, DatabaseLaws, Reads, select, matches_id, matches_key}
use dvpnd.Admission.{
  AdmitRequest, Settings, World, peer_key, check_full, absent, check_id, check_key, check_capacity,
  api_error, guard,
}
use dvpnd.Admission.Steps.{Post, Same, Same-trans, after_rule, weaken, query_rule, guard_rule}

-- There is room, and no row has the session's id or the peer's key.
pub record HasRoom (max : ℕ) (count : ℕ) (id : ℕ) (key : List ℕ) (rows : List Session)
    : Type 0 where
  pub not_full : count < max
  pub new_id : length (select (matches_id id) rows) ≡ 0
  pub new_key : length (select (matches_key key) rows) ≡ 0

none_found : (n : ℕ) → not (ltb 0 n) ≡ true → n ≡ 0
none_found n h = ground arith

module _ (D : Database) (S : Service) (laws : DatabaseLaws D) (n : Settings)
    (r : AdmitRequest) where
  abbrev pub Room : World D S → Type 0
  Room w = HasRoom n.max_peers (S.peer_count w.svc) r.id (peer_key r) (D.rows w.db)

  check_full_rule :
      (w : World D S)
      → Post D S
          (λ _ w'. (S.peer_count w.svc < n.max_peers) × Same D S w w')
          (λ _ w'. Same D S w w')
          (check_full D S n w)
  unfolding check_full
  check_full_rule w =
      weaken D S _ _ _ _ (guard D S (ltb (S.peer_count w.svc) n.max_peers) (api_error 400 1) w)
        (λ _ w' h. (ground arith, h.1)) (λ _ w' h. h) (guard_rule D S _ _ w)

  absent_rule :
      (wanted : ℕ) (call : D.Db → Result ℕ × D.Db) (w : World D S)
      → Reads D w.db wanted (call w.db)
      → Post D S (λ _ w'. (wanted ≡ 0) × Same D S w w') (λ _ w'. Same D S w w') (absent D S call w)
  absent_rule wanted call w h =
      after_rule D S (λ a w'. (a ≡ wanted) × Same D S w w') (λ _ w'. Same D S w w') _ _ _
        (query_rule D S wanted (api_error 500 3) call w h)
        λ a w1 k.
          weaken D S _ _ _ _ (guard D S (not (ltb 0 a)) (api_error 409 3) w1)
            (λ _ w2 g. (sym k.0 ∙ none_found a g.0, Same-trans D S k.1 g.1))
            (λ _ w2 g. Same-trans D S k.1 g) (guard_rule D S (not (ltb 0 a)) (api_error 409 3) w1)

  -- With a lawful database, checkCapacity accepts only where there is room and neither the session
  -- id nor the key is in the table, and changes neither rows nor peers on any branch.
  pub check_capacity_rule :
      (w : World D S)
      → Post D S (λ _ w'. Room w × Same D S w w') (λ _ w'. Same D S w w') (check_capacity D S n r w)
  unfolding check_capacity
  check_capacity_rule w =
      after_rule D S (λ _ w'. (S.peer_count w.svc < n.max_peers) × Same D S w w')
        (λ _ w'. Same D S w w') _ _ _ (check_full_rule w)
        λ _ w1 full.
          after_rule D S
            (λ _ w'. (length (select (matches_id r.id) (D.rows w1.db)) ≡ 0) × Same D S w w')
            (λ _ w'. Same D S w w') _ _ _
            (weaken D S _ _ _ _ (check_id D S r w1) (λ _ w2 g. (g.0, Same-trans D S full.1 g.1))
              (λ _ w2 g. Same-trans D S full.1 g)
              (absent_rule _ (D.count_id r.id) w1 (laws.count_id-Reads r.id w1.db)))
            λ _ w2 ids.
              weaken D S _ _ _ _ (check_key D S r w2)
                (λ _ w3 g. (
                  record {
                    not_full = full.0;
                    new_id = rw (← full.1.rows) ids.0;
                    new_key = rw (← ids.1.rows) g.0;
                  },
                  Same-trans D S ids.1 g.1,
                ))
                (λ _ w3 g. Same-trans D S ids.1 g)
                (absent_rule _ (D.count_key (peer_key r)) w2
                  (laws.count_key-Reads (peer_key r) w2.db))
