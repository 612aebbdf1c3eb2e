-- ===== src/Amnezia/Parameters.antt =====
-- The validation of the obfuscation parameters says what the engines demand of them.
use dvpnd.Prelude.{
  ℕ, ◌<◌, ◌≡◌, refl, ◌⊎◌, inl, inr, ◌↔◌, Bool, true, false, not, Option, none, some, List, [], ◌∷◌,
  if◌then◌else◌, All, ltb→lt, lt→ltb, arith,
}
use dvpnd.Prelude.Results.{Err}
use dvpnd.Amnezia.{check, ◌orelse◌, all_zero, seen, check_headers, validate_headers}

-- The values are distinct from those before them and from each other.
abbrev pub Fresh : List ℕ → List ℕ → Type 0
Fresh before [] = Unit {0}
Fresh before (v ∷ vs) = (seen v before ≡ false) × Fresh (v ∷ before) vs

both_none : (a b : Option Err) → ((a orelse b) ≡ none) ↔ ((a ≡ none) × (b ≡ none))
both_none none b = (λ h. (refl, h), λ h. h.1)
both_none (some e) b = (λ h. absurd (cc h), λ h. absurd (cc h.0))

check-none : (b : Bool) (e : Err) → (check b e ≡ none) ↔ (b ≡ true)
check-none true e = (λ h. refl, λ h. refl)
check-none false e = (λ h. absurd (cc h), λ h. absurd (cc h))

not-true : {b : Bool} → not b ≡ true → b ≡ false
not-true {b = false} h = refl
not-true {b = true} h = absurd (cc h)

check_headers_iff :
    (before vs : List ℕ)
    → (check_headers before vs ≡ none) ↔ (All (λ v. 4 < v) vs × Fresh before vs)
unfolding check_headers
check_headers_iff before [] = (λ h. (tt, tt), λ h. refl)
check_headers_iff before (v ∷ vs) = step (check_headers_iff (v ∷ before) vs)
  where
    step :
        (check_headers (v ∷ before) vs ≡ none) ↔ (All (λ v. 4 < v) vs × Fresh (v ∷ before) vs)
        → (check_headers before (v ∷ vs) ≡ none)
          ↔ (All (λ v. 4 < v) (v ∷ vs) × Fresh before (v ∷ vs))
    step ih = (
      λ h.
          let p = (both_none _ _).0 h in
          let q = (both_none _ _).0 p.1 in
          let r = ih.0 q.1 in
          ((ltb→lt 4 v ((check-none _ _).0 p.0), r.0), (not-true ((check-none _ _).0 q.0), r.1)),
      λ ((a, above), (f, fresh)). rw (lt→ltb 4 v a, f) (ih.1 (above, fresh)),
    )

all_zero_iff : (vs : List ℕ) → (all_zero vs ≡ true) ↔ All (λ v. v ≡ 0) vs
unfolding all_zero
all_zero_iff [] = (λ h. tt, λ h. refl)
all_zero_iff (v ∷ vs) = ground (arith, all_zero_iff vs)

zero_or :
    {Z P : Type 0} {r : Option Err} (z : Bool)
    → (z ≡ true) ↔ Z
    → (r ≡ none) ↔ P
    → ((if z then none else r) ≡ none) ↔ (((◌≡◌ {A = Bool} true true) × Z) ⊎ P)
zero_or true i k = (λ e. inl (refl, i.0 refl), λ d. refl)
zero_or false i k =
    (λ e. inr (k.0 e), λ d. elim d [ inl y ↦ absurd (cc (i.1 y.1)) | inr y ↦ k.1 y ])

-- validateHeaders accepts just the values that are above WireGuard's own 1 to 4 and pairwise
-- distinct, and all zeros where they are allowed.
pub validate_headers_iff :
    (h : List ℕ) (allow_zero : Bool)
    → (validate_headers h allow_zero ≡ none)
      ↔ (((allow_zero ≡ true) × All (λ v. v ≡ 0) h) ⊎ (All (λ v. 4 < v) h × Fresh [] h))
unfolding validate_headers
validate_headers_iff h false = (
  λ e. inr ((check_headers_iff [] h).0 e),
  λ k. elim k [ inl z ↦ absurd (cc z.0) | inr z ↦ (check_headers_iff [] h).1 z ],
)
validate_headers_iff h true = zero_or (all_zero h) (all_zero_iff h) (check_headers_iff [] h)
