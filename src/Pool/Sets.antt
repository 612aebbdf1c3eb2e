-- ===== src/Pool/Sets.antt =====
-- The reserved set and the free list: membership, deletion, and what a release moves.
use dvpnd.Prelude.{
  bytes_eq, bytes_eq-true, bytes_eq_refl, ℕ, ◌+◌, ◌<◌, ◌≡◌, refl, true, false, List, [], ◌∷◌, ◌++◌,
  All, Bool-cases, inl, inr, if◌then◌else◌, arith,
}
use dvpnd.Address.{Ip, from_bytes}
use dvpnd.Pool.{member, delete, reserve}

-- How often an address stands in a list.
unfoldable pub count : Ip → List Ip → ℕ
count ip [] = 0
count ip (x ∷ xs) = (if bytes_eq x ip then 1 else 0) + count ip xs

pub count-append : (ip : Ip) (xs ys : List Ip) → count ip (xs ++ ys) ≡ count ip xs + count ip ys
unfolding count
count-append ip [] ys = omega arith
count-append ip (x ∷ xs) ys = omega (arith, count-append ip xs ys)

pub member-count : (ip : Ip) (xs : List Ip) → member ip xs ≡ true → 0 < count ip xs
unfolding member count
member-count ip [] h = cc
member-count ip (x ∷ xs) h = ground (arith, member-count ip xs)

pub not_member-count : (ip : Ip) (xs : List Ip) → member ip xs ≡ false → count ip xs ≡ 0
unfolding member count
not_member-count ip [] h = refl
not_member-count ip (x ∷ xs) h = ground (arith, not_member-count ip xs)

pub count-delete :
    (a ip : Ip) (xs : List Ip) → count a (delete ip xs) ≡ (if bytes_eq ip a then 0 else count a xs)
unfolding count delete
count-delete a ip [] = ground arith
count-delete a ip (x ∷ xs) = ground (
  arith,
  count-delete a ip xs,
  bytes_eq-true x ip,
  bytes_eq-true ip a,
  bytes_eq-true x a,
  bytes_eq_refl a,
)

pub reserve-unused : (ip : Ip) (xs : List Ip) → member ip xs ≡ false → reserve ip xs ≡ ip ∷ xs
unfolding reserve
reserve-unused ip xs h = rw h

pub delete-unused : (ip : Ip) (xs : List Ip) → member ip xs ≡ false → delete ip xs ≡ xs
unfolding member delete
delete-unused ip [] h = refl
delete-unused ip (x ∷ xs) h = ground (arith, delete-unused ip xs)

-- An address that was just taken comes back by its release.
pub delete-taken :
    (ip : Ip) (xs : List Ip)
    → member ip xs ≡ false
    → (member ip (ip ∷ xs) ≡ true) × (delete ip (ip ∷ xs) ≡ xs)
unfolding member delete
delete-taken ip xs h = ground (arith, bytes_eq_refl ip, delete-unused ip xs)

-- Addresses below a bound.
abbrev pub Below : ℕ → List Ip → Type 0
Below n = All (λ ip. from_bytes ip < n)

pub Below-not_member :
    (n : ℕ) (ip : Ip) (xs : List Ip) → Below n xs → n ≡ from_bytes ip → member ip xs ≡ false
unfolding member
Below-not_member n ip [] b h = refl
Below-not_member n ip (x ∷ xs) b h =
    ground (arith, Below-not_member n ip xs b.1 h, bytes_eq-true x ip)

pub All-delete {κ} : (P : Ip → Type κ) (ip : Ip) (xs : List Ip) → All P xs → All P (delete ip xs)
unfolding delete
All-delete P ip [] h = tt
All-delete P ip (x ∷ xs) h = elim (Bool-cases (bytes_eq x ip)) [
  | inl e ↦ rw e (All-delete P ip xs h.1)
  | inr e ↦ rw e (h.0, All-delete P ip xs h.1)
]

pub All-member {κ} :
    (P : Ip → Type κ) (ip : Ip) (xs : List Ip) → member ip xs ≡ true → All P xs → P ip
unfolding member
All-member P ip [] m h = absurd (cc)
All-member P ip (x ∷ xs) m h = elim (Bool-cases (bytes_eq x ip)) [
  | inl e ↦ rw (← bytes_eq-true x ip e) h.0
  | inr e ↦ All-member P ip xs (rw e at m) h.1
]
