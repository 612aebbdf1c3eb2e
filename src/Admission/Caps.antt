-- ===== src/Admission/Caps.antt =====
-- The byte caps of an admission.
use dvpnd.Prelude.{◌≡◌, ◌⊎◌, inl, inr, Bool, true, false, ◌||◌, List, Bool-cases, arith}
use dvpnd.Prelude.Int.{ℤ, pos, ◌-ℤ◌, ◌≤ℤ◌, ◌<ℤ◌, ltb_ℤ, leb_ℤ, eqb_ℤ, -ℤ_parts}
use dvpnd.Session.{Session, max_i64}
use dvpnd.Chain.{ChainSession, Allocation}
use dvpnd.Admission.{Answer, accept, refuse, clamp_i64, utilised, allocation_left}

-- A statement about an accepted value.
abbrev pub Holds {ℓ} : {A : Type ℓ} → (A → Type 0) → Answer A → Type 0
Holds P (accept a) = P a
Holds P (refuse e) = Unit {0}

-- Clamping a positive amount keeps it positive and never raises it.
pub clamp_i64_bounds : (v : ℤ) → pos 0 <ℤ v → (pos 0 <ℤ clamp_i64 v) × (clamp_i64 v ≤ℤ v)
unfolding clamp_i64
clamp_i64_bounds v h = ground arith

pub clamp_i64-nonneg : (v : ℤ) → (pos 0 ≤ℤ clamp_i64 v) × (clamp_i64 v ≤ℤ max_i64)
unfolding clamp_i64
clamp_i64-nonneg v = ground arith

-- 0 stands for no cap.
abbrev pub Uncapped : ℤ → ℤ → Type 0
Uncapped max v = (max ≤ℤ pos 0) × (v ≡ pos 0)

abbrev pub CappedBy : ℤ → ℤ → Type 0
CappedBy left v = (pos 0 <ℤ v) × (v ≤ℤ left)

-- The cap of the session's own max_bytes.
abbrev pub SessionCap : ChainSession → ℤ → Type 0
SessionCap s v = Uncapped s.max_bytes v ⊎ CappedBy (s.max_bytes -ℤ s.total_bytes) v

zero_of_parts : (z : ℤ) → eqb_ℤ z (pos 0) ≡ true → z ≡ pos 0
zero_of_parts z h = ground arith

abbrev smaller : ℤ → ℤ → Bool
smaller left remaining = eqb_ℤ remaining (pos 0) || ltb_ℤ left remaining

smaller-true :
    (left remaining : ℤ)
    → pos 0 <ℤ left
    → smaller left remaining ≡ true
    → (remaining ≡ pos 0) ⊎ CappedBy remaining left
smaller-true left remaining p h = elim (Bool-cases (eqb_ℤ remaining (pos 0))) [
  | inl e ↦ inl (zero_of_parts remaining e)
  | inr e ↦ inr (p, ground arith)
]

smaller-false :
    (left remaining : ℤ)
    → pos 0 ≤ℤ remaining
    → smaller left remaining ≡ false
    → (pos 0 <ℤ remaining) × (remaining ≤ℤ left)
smaller-false left remaining p h = (ground arith, ground arith)

≤ℤ_trans : (a b c : ℤ) → a ≤ℤ b → b ≤ℤ c → a ≤ℤ c
≤ℤ_trans a b c h k = omega arith

not_used_up : (granted used : ℤ) → leb_ℤ granted used ≡ false → pos 0 <ℤ granted -ℤ used
not_used_up granted used h = ground (arith, -ℤ_parts granted used)

-- For a session cap that is not negative, a cap under an allocation is positive, at most what the
-- allocation has left after the rows' unreported bytes, and at most the session's own cap if it has
-- one.
pub allocation_left-CappedBy :
    (remaining : ℤ) (a : Allocation) (rows : List Session)
    → pos 0 ≤ℤ remaining
    → Holds
        (λ v.
          CappedBy (a.granted_bytes -ℤ utilised a.utilised_bytes rows) v
          × ((remaining ≡ pos 0) ⊎ CappedBy remaining v))
        (allocation_left remaining a rows)
unfolding allocation_left
allocation_left-CappedBy remaining a rows h =
    elim (Bool-cases (leb_ℤ a.granted_bytes (utilised a.utilised_bytes rows))) [
      | inl e ↦ rw e tt
      | inr e ↦
          let left = a.granted_bytes -ℤ utilised a.utilised_bytes rows in
          let clamped = clamp_i64_bounds left (not_used_up a.granted_bytes _ e) in
          rw e (elim (Bool-cases (smaller (clamp_i64 left) remaining)) [
            | inl t ↦ rw t (clamped, smaller-true (clamp_i64 left) remaining clamped.0 t)
            | inr f ↦
                let (p, q) = smaller-false (clamp_i64 left) remaining h f in
                rw f
                  ((p, ≤ℤ_trans remaining (clamp_i64 left) left q clamped.1), inr (p, omega arith))
          ])
    ]
