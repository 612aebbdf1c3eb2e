-- ===== src/Admission/Steps.antt =====
-- Postconditions of the steps of an admission: one for the answer, one for each refusal.
use dvpnd.Prelude.{◌≡◌, refl, ◌∙◌, Bool, true, false}
use dvpnd.Prelude.Results.{Result, ok, err}
use dvpnd.Service.{Service}
use dvpnd.Database.{Database, Reads}
use dvpnd.Admission.{ApiError, Answer, accept, refuse, World, Step, after, answered, query, guard}

module _ (D : Database) (S : Service) where
  abbrev pub Post :
      {A : Type 0}
      → (A → World D S → Type 0)
      → (ApiError → World D S → Type 0)
      → Answer A × World D S
      → Type 0
  Post P Q (accept a, w) = P a w
  Post P Q (refuse e, w) = Q e w

  -- The table's rows and the service are as they were.
  pub record Same (w w' : World D S) : Type 0 where
    pub rows : D.rows w'.db ≡ D.rows w.db
    pub service : w'.svc ≡ w.svc

  pub Same-refl : (w : World D S) → Same w w
  Same-refl w = record { rows = refl; service = refl }

  pub Same-trans : {u v w : World D S} → Same u v → Same v w → Same u w
  Same-trans s t = record { rows = t.rows ∙ s.rows; service = t.service ∙ s.service }

  pub after_rule :
      {A B : Type 0} (P : A → World D S → Type 0) (Q : ApiError → World D S → Type 0)
      (P' : B → World D S → Type 0) (r : Answer A × World D S) (f : A → Step D S B)
      → Post P Q r
      → ((a : A) (w : World D S) → P a w → Post P' Q (f a w))
      → Post P' Q (after D S r f)
  after_rule P Q P' (accept a, w) f h k = k a w h
  after_rule P Q P' (refuse e, w) f h k = h

  pub weaken :
      {A : Type 0} (P P' : A → World D S → Type 0) (Q Q' : ApiError → World D S → Type 0)
      (r : Answer A × World D S)
      → ((a : A) (w : World D S) → P a w → P' a w)
      → ((e : ApiError) (w : World D S) → Q e w → Q' e w)
      → Post P Q r
      → Post P' Q' r
  weaken P P' Q Q' (accept a, w) f g h = f a w h
  weaken P P' Q Q' (refuse e, w) f g h = g e w h

  answered_rule :
      {A : Type 0} (wanted : A) (e : ApiError) (w : World D S) (r : Result A × D.Db)
      → Reads D w.db wanted r
      → Post (λ a w'. (a ≡ wanted) × Same w w') (λ _ w'. Same w w') (answered D S e w r)
  answered_rule wanted e w (ok a, y) h = (h.0, record { rows = h.1; service = refl })
  answered_rule wanted e w (err x, y) h = record { rows = h; service = refl }

  -- A query answers what the table holds, and changes nothing.
  pub query_rule :
      {A : Type 0} (wanted : A) (e : ApiError) (call : D.Db → Result A × D.Db) (w : World D S)
      → Reads D w.db wanted (call w.db)
      → Post (λ a w'. (a ≡ wanted) × Same w w') (λ _ w'. Same w w') (query D S e call w)
  query_rule wanted e call w h = answered_rule wanted e w (call w.db) h

  pub guard_rule :
      (b : Bool) (e : ApiError) (w : World D S)
      → Post (λ _ w'. (b ≡ true) × Same w w') (λ _ w'. Same w w') (guard D S b e w)
  guard_rule true e w = (refl, Same-refl w)
  guard_rule false e w = Same-refl w
