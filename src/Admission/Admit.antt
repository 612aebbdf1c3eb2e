-- ===== src/Admission/Admit.antt =====
-- admit as a whole: what holds when it accepts, and what a refusal leaves.
use mathlib.Core.Path.{subst}
use dvpnd.Prelude.{suc, ◌≤◌, ◌≡◌, refl, ◌∙◌, ◌⊎◌, inl, inr, true, Option, none, some, List, arith}
use dvpnd.Prelude.Int.{ℤ, pos, ◌-ℤ◌, ◌≤ℤ◌}
use dvpnd.Session.{Session}
use dvpnd.Chain.{Chain, ChainSession, Allocation}
use dvpnd.Service.{Service, ServiceLaws, IsPeerData}
use dvpnd.Database.{Database, DatabaseLaws, Inserted, select, matches_account}
use dvpnd.Admission.{
  Answer, accept, refuse, Admission, AdmitRequest, Settings, World, api_error, query, after, lift,
  capped, allocation_left, utilised, new_row, peer_key, check_capacity, query_admission, cap_bytes,
  drop_earlier, register, admit_locked, admit,
}
use dvpnd.Admission.Steps.{Post, Same, Same-refl, Same-trans, after_rule, weaken, query_rule}
use dvpnd.Admission.Caps.{Holds, CappedBy, SessionCap, allocation_left-CappedBy}
use dvpnd.Admission.Query.{Vetted, query_admission-Vetted}
use dvpnd.Admission.Gate.{HasRoom, Room, check_capacity_rule}
use dvpnd.Admission.Register.{Fewer, Registered, Undone, drop_earlier_rule, register_rule}

-- The cap that the row records: the session's own, or the smaller of it and what the allocation has
-- left after the bytes already served on it.
abbrev pub Limit : AdmitRequest → Admission → List Session → ℤ → Option Allocation → Type 0
Limit r a rows v none = v ≡ a.remaining_bytes
Limit r a rows v (some x) =
    CappedBy
      (x.granted_bytes
        -ℤ utilised x.utilised_bytes
            (select (matches_account a.subscription_id r.acc_address) rows))
      v
    × ((a.remaining_bytes ≡ pos 0) ⊎ CappedBy a.remaining_bytes v)

SessionCap-nonneg : (s : ChainSession) (v : ℤ) → SessionCap s v → pos 0 ≤ℤ v
SessionCap-nonneg s v (inl (h, e)) = rw e (omega arith)
SessionCap-nonneg s v (inr (h, k)) = omega arith

module _ (D : Database) (S : Service) (laws : DatabaseLaws D) (promises : ServiceLaws S)
    (n : Settings) (r : AdmitRequest) where
  -- What an accepted handshake means, from the world `w` at the lock.
  pub record Admitted (a : Admission) (w w' : World D S) : Type 0 where
    pub limit : ℤ
    pub was_room : HasRoom n.max_peers (S.peer_count w.svc) r.id (peer_key r) (D.rows w.db)
    pub within_limit : Limit r a (D.rows w.db) limit a.alloc
    pub inserted : Inserted (new_row r a limit) (D.rows w.db) (D.rows w'.db)
    pub served : S.has_peer r.peer_data w'.svc ≡ true
    pub valid : promises.IsValid w'.svc
    pub count : S.peer_count w'.svc ≤ n.max_peers

  -- What a refused one leaves.
  pub record Refused (w w' : World D S) : Type 0 where
    pub rows : D.rows w'.db ≡ D.rows w.db
    pub valid : promises.IsValid w'.svc
    pub count : (S.peer_count w'.svc ≤ S.peer_count w.svc) ⊎ (S.peer_count w'.svc ≤ n.max_peers)

  Same-Refused : (w w' : World D S) → promises.IsValid w.svc → Same D S w w' → Refused w w'
  Same-Refused w w' v s = record {
    rows = s.rows;
    valid = rw s.service v;
    count = inl (rw s.service (omega arith));
  }

  capped_rule :
      (a : Admission) (x : Option Allocation) (w : World D S)
      → pos 0 ≤ℤ a.remaining_bytes
      → Post D S
          (λ v w'. Limit r a (D.rows w.db) v x × Same D S w w')
          (λ _ w'. Same D S w w')
          (capped D S r a x w)
  capped_rule a none w h = (refl, Same-refl D S w)
  capped_rule a (some x) w h =
      after_rule D S
        (λ rows w1.
          (rows ≡ select (matches_account a.subscription_id r.acc_address) (D.rows w.db))
          × Same D S w w1)
        (λ _ w1. Same D S w w1) (λ v w'. Limit r a (D.rows w.db) v (some x) × Same D S w w')
        (query D S (api_error 500 8) (D.find_account a.subscription_id r.acc_address) w) _
        (query_rule D S _ (api_error 500 8) (D.find_account a.subscription_id r.acc_address) w
          (laws.find_account-Reads a.subscription_id r.acc_address w.db))
        λ rows w1 g. lifted w1 g.1 (allocation_left a.remaining_bytes x rows) (
          subst
            (λ rs.
              Holds
                (λ v.
                  CappedBy (x.granted_bytes -ℤ utilised x.utilised_bytes rs) v
                  × ((a.remaining_bytes ≡ pos 0) ⊎ CappedBy a.remaining_bytes v))
                (allocation_left a.remaining_bytes x rows))
            g.0 (allocation_left-CappedBy a.remaining_bytes x rows h))
    where
      lifted :
          (w1 : World D S)
          → Same D S w w1
          → (q : Answer ℤ) → Holds (λ v. Limit r a (D.rows w.db) v (some x)) q
          → Post D S
              (λ v w'. Limit r a (D.rows w.db) v (some x) × Same D S w w')
              (λ _ w'. Same D S w w')
              (q, w1)
      lifted w1 s (accept v) k = (k, s)
      lifted w1 s (refuse e) k = s

  cap_rule :
      (a : Admission) (w : World D S)
      → SessionCap a.session a.remaining_bytes
      → Post D S
          (λ v w'. Limit r a (D.rows w.db) v a.alloc × Same D S w w')
          (λ _ w'. Same D S w w')
          (cap_bytes D S r a w)
  unfolding cap_bytes
  cap_rule a w h = capped_rule a a.alloc w (SessionCap-nonneg a.session a.remaining_bytes h)

  module _ (a : Admission) (is_data : IsPeerData r.peer_data) (w : World D S) where
    -- The last two steps, in a world that has room.
    finish :
        (v : ℤ) (w1 : World D S)
        → Room D S laws n r w
        → Limit r a (D.rows w.db) v a.alloc
        → Same D S w w1
        → promises.IsValid w1.svc
        → Post D S
            (λ _ w'. Admitted a w w')
            (λ _ w'. Refused w w')
            (after D S (drop_earlier D S r a w1) (λ _. register D S r a v))
    finish v w1 has_room limit s valid =
        after_rule D S (λ _ w2. Fewer D S laws promises w1 w2) (λ _ w'. Refused w w')
          (λ _ w'. Admitted a w w') (drop_earlier D S r a w1) _
          (weaken D S (λ _ w2. Fewer D S laws promises w1 w2)
            (λ _ w2. Fewer D S laws promises w1 w2) (λ _ w2. Fewer D S laws promises w1 w2)
            (λ _ w2. Refused w w2) (drop_earlier D S r a w1) (λ _ w2 f. f)
            (λ _ w2 f. record {
              rows = f.rows ∙ s.rows;
              valid = f.valid;
              count = inl (rw (← s.service) f.count);
            })
            (drop_earlier_rule D S laws promises r a w1 valid))
          λ _ w2 f.
            weaken D S (λ _ w3. Registered D S laws promises (new_row r a v) r.peer_data w2 w3)
              (λ _ w3. Admitted a w w3) (λ _ w3. Undone D S laws promises r.peer_data w2 w3)
              (λ _ w3. Refused w w3) (register D S r a v w2)
              (λ _ w3 g. record {
                limit = v;
                was_room = has_room;
                within_limit = limit;
                inserted = rw (← s.rows, ← f.rows) g.inserted;
                served = g.served;
                valid = g.valid;
                count = one_more w2 w3 f g.count;
              })
              (λ _ w3 g. record {
                rows = g.rows ∙ f.rows ∙ s.rows;
                valid = g.valid;
                count = inr (one_more w2 w3 f g.count);
              })
              (register_rule D S laws promises r a v is_data w2 f.valid)
      where
        one_more :
            (w2 w3 : World D S)
            → Fewer D S laws promises w1 w2
            → S.peer_count w3.svc ≤ suc (S.peer_count w2.svc)
            → S.peer_count w3.svc ≤ n.max_peers
        one_more w2 w3 f h =
            let before : S.peer_count w2.svc ≤ S.peer_count w.svc = rw (← s.service) f.count in
            omega (arith, has_room.not_full)

    -- Under the lock: an accepted request had room, was new, writes one row with its byte cap and is
    -- served, within max_peers; a refused one changes no row and does not pass max_peers.
    pub admit_locked_rule :
        SessionCap a.session a.remaining_bytes
        → promises.IsValid w.svc
        → Post D S (λ _ w'. Admitted a w w') (λ _ w'. Refused w w') (admit_locked D S n r a w)
    unfolding admit_locked
    admit_locked_rule limited valid =
        after_rule D S (λ _ w1. Room D S laws n r w × Same D S w w1) (λ _ w'. Refused w w')
          (λ _ w'. Admitted a w w') (check_capacity D S n r w) _
          (weaken D S (λ _ w1. Room D S laws n r w × Same D S w w1)
            (λ _ w1. Room D S laws n r w × Same D S w w1) (λ _ w1. Same D S w w1)
            (λ _ w1. Refused w w1) (check_capacity D S n r w) (λ _ w1 h. h)
            (λ _ w1 h. Same-Refused w w1 valid h) (check_capacity_rule D S laws n r w))
          λ _ w1 h.
            after_rule D S (λ v w2. Limit r a (D.rows w.db) v a.alloc × Same D S w w2)
              (λ _ w'. Refused w w') (λ _ w'. Admitted a w w') (cap_bytes D S r a w1) _
              (weaken D S (λ v w2. Limit r a (D.rows w1.db) v a.alloc × Same D S w1 w2)
                (λ v w2. Limit r a (D.rows w.db) v a.alloc × Same D S w w2) (λ _ w2. Same D S w1 w2)
                (λ _ w2. Refused w w2) (cap_bytes D S r a w1)
                (λ v w2 g.
                  (subst (λ rows. Limit r a rows v a.alloc) h.1.rows g.0, Same-trans D S h.1 g.1))
                (λ _ w2 g. Same-Refused w w2 valid (Same-trans D S h.1 g)) (cap_rule a w1 limited))
              λ v w2 g. finish v w2 h.0 g.0 g.1 (rw g.1.service valid)

  -- With a lawful database and service, a service in a valid state and well-formed peer data: a
  -- handshake that admit accepts was vetted by the chain, found room and neither its id nor its key
  -- in the table, added one row with its byte cap, and is served within max_peers; one that it
  -- refuses leaves the rows as they were, the service valid, and no more peers than before or than
  -- max_peers.
  pub admit_rule :
      (c : Chain) (w : World D S)
      → IsPeerData r.peer_data
      → promises.IsValid w.svc
      → Post D S
          (λ _ w'. (a : Admission) × Vetted n c r a × Admitted a w w')
          (λ _ w'. Refused w w')
          (admit D S n c r w)
  unfolding admit
  admit_rule c w is_data valid =
      after_rule D S (λ _ w1. Room D S laws n r w × Same D S w w1) (λ _ w'. Refused w w')
        (λ _ w'. (a : Admission) × Vetted n c r a × Admitted a w w') (check_capacity D S n r w) _
        (weaken D S (λ _ w1. Room D S laws n r w × Same D S w w1)
          (λ _ w1. Room D S laws n r w × Same D S w w1) (λ _ w1. Same D S w w1)
          (λ _ w1. Refused w w1) (check_capacity D S n r w) (λ _ w1 h. h)
          (λ _ w1 h. Same-Refused w w1 valid h) (check_capacity_rule D S laws n r w))
        λ _ w1 h. vetted w1 h.1 (query_admission n c r) (query_admission-Vetted n c r)
    where
      from_lock :
          (a : Admission) (w1 w2 : World D S) → Same D S w w1 → Admitted a w1 w2 → Admitted a w w2
      from_lock a w1 w2 s g = record {
        limit = g.limit;
        was_room = rw (← s.rows, ← s.service) g.was_room;
        within_limit = subst (λ rows. Limit r a rows g.limit a.alloc) s.rows g.within_limit;
        inserted = rw (← s.rows) g.inserted;
        served = g.served;
        valid = g.valid;
        count = g.count;
      }

      refused_lock : (w1 w2 : World D S) → Same D S w w1 → Refused w1 w2 → Refused w w2
      refused_lock w1 w2 s g = record {
        rows = g.rows ∙ s.rows;
        valid = g.valid;
        count = rw (← s.service) g.count;
      }

      vetted :
          (w1 : World D S)
          → Same D S w w1
          → (q : Answer Admission) → Holds (Vetted n c r) q
          → Post D S
              (λ _ w'. (a : Admission) × Vetted n c r a × Admitted a w w')
              (λ _ w'. Refused w w')
              (after D S (lift D S q w1) (λ a. admit_locked D S n r a))
      vetted w1 s (refuse e) h = Same-Refused w w1 valid s
      vetted w1 s (accept a) h =
          weaken D S (λ _ w2. Admitted a w1 w2) _ (λ _ w2. Refused w1 w2) _
            (admit_locked D S n r a w1) (λ _ w2 g. (a, h, from_lock a w1 w2 s g))
            (λ _ w2 g. refused_lock w1 w2 s g)
            (admit_locked_rule a is_data w1 h.within (rw s.service valid))
