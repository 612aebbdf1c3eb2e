-- ===== src/Admission/Runs.antt =====
-- Handshakes and removals in any order, one at a time under the admission lock.
use dvpnd.Prelude.{
  ◌≤◌, ◌<◌, ◌≡◌, ◌⊎◌, inl, inr, Bool, true, List, [], ◌∷◌, ◌++◌, Bytes, length, Bool-cases, arith,
}
use dvpnd.Prelude.Int.{ℤ}
use dvpnd.Session.{Session}
use dvpnd.Service.{Service, ServiceLaws, IsPeerData}
use dvpnd.Context.{remove_peer_if_exists}
use dvpnd.Database.{Database, DatabaseLaws, select, matches_id, matches_key}
use dvpnd.Admission.{
  Answer, accept, refuse, Admission, AdmitRequest, Settings, World, peer_key, new_row,
  check_capacity, admit_locked,
}
use dvpnd.Admission.Steps.{Post, Same, after_rule}
use dvpnd.Admission.Caps.{SessionCap}
use dvpnd.Admission.Gate.{Room, check_capacity_rule}
use dvpnd.Admission.Register.{remove_if_exists-count}
use dvpnd.Admission.Admit.{Admitted, Refused, admit_locked_rule}

select_middle :
    (test : Session → Bool) (xs ys : List Session) (r : Session)
    → test r ≡ true
    → 0 < length (select test (xs ++ (r ∷ ys)))
unfolding select
select_middle test [] ys r h = rw h (omega arith)
select_middle test (x ∷ xs) ys r h = elim (Bool-cases (test x)) [
  | inl e ↦ rw e (omega arith)
  | inr e ↦ rw e (select_middle test xs ys r h)
]

module _ (D : Database) (S : Service) (laws : DatabaseLaws D) (promises : ServiceLaws S)
    (n : Settings) where
  -- With a lawful database, a request whose session id or key matches a row of the table is refused
  -- under the lock, whatever the chain said of it.
  pub known_refused :
      (r : AdmitRequest) (w : World D S)
      → (0 < length (select (matches_id r.id) (D.rows w.db)))
        ⊎ (0 < length (select (matches_key (peer_key r)) (D.rows w.db)))
      → (a : Admission) → Post D S (λ _ w'. ⊥) (λ _ w'. Unit {0}) (admit_locked D S n r a w)
  unfolding admit_locked
  known_refused r w h a =
      after_rule D S (λ _ w'. ⊥) (λ _ w'. Unit {0}) (λ _ w'. ⊥) (check_capacity D S n r w) _
        (refused_post (check_capacity D S n r w) (check_capacity_rule D S laws n r w))
        (λ _ w' bad. absurd bad)
    where
      refused_post :
          (q : Answer (Unit {0}) × World D S)
          → Post D S (λ _ w'. Room D S laws n r w × Same D S w w') (λ _ w'. Same D S w w') q
          → Post D S (λ _ w'. ⊥) (λ _ w'. Unit {0}) q
      refused_post (accept u, w') (g, s) = elim h [
        | inl k ↦ omega (arith, g.new_id)
        | inr k ↦ omega (arith, g.new_key)
      ]
      refused_post (refuse e, w') s = tt

  -- What happens under the lock: a handshake with some vetted admission, or a removal by a job.
  pub data Event : World D S → World D S → Type 0 where
    handshake :
        {w w' : World D S} (r : AdmitRequest) (a : Admission)
        → IsPeerData r.peer_data
        → SessionCap a.session a.remaining_bytes
        → w' ≡ (admit_locked D S n r a w).1
        → Event w w'
    removal :
        {w w' : World D S} (key : Bytes)
        → w' ≡ record w { svc = (remove_peer_if_exists S key w.svc).1 }
        → Event w w'

  pub data Run (w : World D S) : World D S → Type 0 where
    here : Run w w
    next : {u v : World D S} → Run w u → Event u v → Run w v

  abbrev pub WithinLimit : World D S → Type 0
  WithinLimit w = promises.IsValid w.svc × (S.peer_count w.svc ≤ n.max_peers)

  outcome-WithinLimit :
      (r : AdmitRequest) (a : Admission) (w : World D S) {A : Type 0} (q : Answer A × World D S)
      → WithinLimit w
      → Post D S
          (λ _ w'. Admitted D S laws promises n r a w w')
          (λ _ w'. Refused D S laws promises n r w w')
          q
      → WithinLimit q.1
  outcome-WithinLimit r a w (accept x, w') h g = (g.valid, g.count)
  outcome-WithinLimit r a w (refuse e, w') h g = (g.valid, ground (arith, g.count))

  Event-WithinLimit : {w w' : World D S} → Event w w' → WithinLimit w → WithinLimit w'
  Event-WithinLimit {w} (handshake r a is_data limited e) h = rw e (
      outcome-WithinLimit r a w (admit_locked D S n r a w) h
        (admit_locked_rule D S laws promises n r a is_data w limited h.0))
  Event-WithinLimit {w} (removal key e) h =
      let (v, k) = remove_if_exists-count D S laws promises key w.svc h.0 in
      rw e (v, omega (arith, k))

  -- With a lawful database and service: after any sequence, under the lock, of handshakes with
  -- well-formed peer data and a byte cap of the chain's session and of removals by key, the service
  -- is valid and has at most max_peers peers, if so it was before.
  pub Run-WithinLimit : {w w' : World D S} → Run w w' → WithinLimit w → WithinLimit w'
  Run-WithinLimit here h = h
  Run-WithinLimit (next run e) h = Event-WithinLimit e (Run-WithinLimit run h)

  matches_new_id :
      (r : AdmitRequest) (a : Admission) (v created updated : ℤ)
      → matches_id r.id (record (new_row r a v) { created_at = created; updated_at = updated })
        ≡ true
  unfolding new_row
  matches_new_id r a v created updated = ground arith

  -- After an accepted handshake, a handshake for the same session id, with whatever key and
  -- admission, is refused under the lock in the world that the first one left.
  pub second_refused :
      (r r' : AdmitRequest) (a a' : Admission) (w w' : World D S)
      → Admitted D S laws promises n r a w w'
      → r'.id ≡ r.id
      → Post D S (λ _ _. ⊥) (λ _ _. Unit {0}) (admit_locked D S n r' a' w')
  second_refused r r' a a' w w' g e =
      let (created, updated, xs, ys, before, after) = g.inserted in
      known_refused r' w'
        (inl (rw (e, after) (select_middle _ xs ys _ (matches_new_id r a g.limit created updated))))
        a'
