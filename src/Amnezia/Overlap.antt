-- ===== src/Amnezia/Overlap.antt =====
-- overlap and TunnelNetworks: two networks that do not overlap share no address.
use dvpnd.Prelude.{
  ℕ, zero, suc, ◌+◌, ◌-◌, ◌*◌, ◌/◌, ◌^◌, ◌≤◌, ◌≡◌, refl, sym, ap, ◌∙◌, ◌⊎◌, inl, inr, ◌↔◌, Bool,
  true, false, ◌||◌, Option, none, some, List, Bytes, length, Bool-cases, arith, ==_iff,
}
use mathlib.Core.Path.{subst}
use native.Mathlib.Nat.{div-div-eq-div-mul, pow-suc, add-suc}
use native.Mathlib.Numerals.{unary_clauses}
use dvpnd.Prelude.Results.{Result, ok, err, ◌>>=◌}
use dvpnd.Address.{Ip, from_bytes}
use dvpnd.Amnezia.{Config}
use dvpnd.Amnezia.Networks.{
  IpNet, Networks, prefix, contains, overlap, overlaps, apart, tier_networks, tunnel_networks,
  with_v3,
}

-- Numbers that agree above a bit agree above every higher one.
coarser : (p k x a : ℕ) → x / 2 ^ p ≡ a / 2 ^ p → x / 2 ^ (p + k) ≡ a / 2 ^ (p + k)
coarser p zero x a h = simp unary_clauses h
coarser p (suc k) x a h =
    rw
      (
        add-suc p k,
        pow-suc 2 (p + k),
        ← div-div-eq-div-mul x (2 ^ (p + k)) 2,
        ← div-div-eq-div-mul a (2 ^ (p + k)) 2,
      )
      (ap (λ t. t / 2) (coarser p k x a h))

coarser_to : (p q x a : ℕ) → p ≤ q → x / 2 ^ p ≡ a / 2 ^ p → x / 2 ^ q ≡ a / 2 ^ q
coarser_to p q x a l h =
    subst (λ t. x / 2 ^ t ≡ a / 2 ^ t) (omega (arith, l)) (coarser p (q - p) x a h)

-- Members of a network, as equations.
contains_iff :
    (n : IpNet) (x : Ip)
    → (contains n x ≡ true) ↔ ((length x ≡ length n.ip) × (prefix n.ones x ≡ prefix n.ones n.ip))
unfolding contains
contains_iff n x =
    ground (arith, ==_iff (length x) (length n.ip), ==_iff (prefix n.ones x) (prefix n.ones n.ip))

-- A coarser mask keeps agreement.
prefix_coarser :
    (m n : ℕ) (x a : Ip)
    → length x ≡ length a
    → n ≤ m
    → prefix m x ≡ prefix m a
    → prefix n x ≡ prefix n a
prefix_coarser m n x a l h e =
    let e' = simp l at e in
    simp l (
      coarser_to (8 * length a - m) (8 * length a - n) (from_bytes x) (from_bytes a)
        (omega (arith, h)) e')

-- A network that shares an address with another of a longer prefix has its base address.
inside :
    (a b : IpNet) (x : Ip)
    → a.ones ≤ b.ones
    → contains a x ≡ true
    → contains b x ≡ true
    → contains a b.ip ≡ true
inside a b x l ha hb =
    let p = (contains_iff a x).0 ha in
    let q = (contains_iff b x).0 hb in
    (contains_iff a b.ip).1
      (sym q.0 ∙ p.0, sym (prefix_coarser b.ones a.ones x b.ip q.0 l q.1) ∙ p.1)

contains_self : (n : IpNet) → contains n n.ip ≡ true
contains_self n = (contains_iff n n.ip).1 (refl, refl)

or_true : (b : Bool) → (b || true) ≡ true
or_true true = refl
or_true false = refl

leb_total : (a b : ℕ) → (a ≤ b) ⊎ (b ≤ a)
leb_total a b = ground arith

-- overlap of two networks is true exactly if some address is in both.
pub overlap_iff :
    (a b : IpNet)
    → (overlap a b ≡ true) ↔ ((x : Ip) × (contains a x ≡ true) × (contains b x ≡ true))
unfolding overlap
overlap_iff a b = (there, back)
  where
    there : overlap a b ≡ true → ((x : Ip) × (contains a x ≡ true) × (contains b x ≡ true))
    there h = elim (Bool-cases (contains a b.ip)) [
      | inl y ↦ (b.ip, y, contains_self b)
      | inr n ↦ (a.ip, contains_self a, simp n at h)
    ]

    back : ((x : Ip) × (contains a x ≡ true) × (contains b x ≡ true)) → overlap a b ≡ true
    back (x, ha, hb) = elim (leb_total a.ones b.ones) [
      | inl l ↦ rw (inside a b x l ha hb) refl
      | inr l ↦ rw (inside b a x l hb ha) (or_true (contains a b.ip))
    ]

-- Two tiers whose networks share no address, in either family.
abbrev pub Apart : Networks → Networks → Type 0
Apart n o =
    (x : Ip)
    → ¬ ((contains n.ipv4 x ≡ true) × (contains o.ipv4 x ≡ true))
      × ¬ ((contains n.ipv6 x ≡ true) × (contains o.ipv6 x ≡ true))

or_false : (a b : Bool) → (a || b) ≡ false → (a ≡ false) × (b ≡ false)
or_false false b h = (refl, h)
or_false true b h = absurd (cc h)

overlaps-Apart : (n o : Networks) → overlaps n o ≡ false → Apart n o
unfolding overlaps
overlaps-Apart n o h x =
    let k = or_false (overlap n.ipv4 o.ipv4) (overlap n.ipv6 o.ipv6) h in
    (
      λ s. absurd (cc ((overlap_iff n.ipv4 o.ipv4).1 (x, s.0, s.1), k.0)),
      λ s. absurd (cc ((overlap_iff n.ipv6 o.ipv6).1 (x, s.0, s.1), k.1)),
    )

-- What TunnelNetworks may return, by whether the 3.1 tier is on.
abbrev pub Separated : Bool → Result (Networks × Option Networks) → Type 0
Separated on (err e) = Unit {0}
Separated on (ok (def, none)) = on ≡ false
Separated on (ok (def, some v3)) = (on ≡ true) × Apart def v3

after_Separated :
    {A : Type 0} (on : Bool) (r : Result A) (f : A → Result (Networks × Option Networks))
    → ((a : A) → Separated on (f a))
    → Separated on (r >>= f)
after_Separated on (err e) f h = tt
after_Separated on (ok a) f h = h a

apart-Separated : (def v3 : Networks) → Separated true (apart def v3)
apart-Separated def v3 = elim (Bool-cases (overlaps def v3)) [
  | inl y ↦ rw y tt
  | inr n ↦ rw n (refl, overlaps-Apart def v3 n)
]

module _ (sha256 : Bytes → List ℕ) (public : Bytes → Bytes)
    (parse_cidr : Bytes → Result (Ip × IpNet)) where
  with_v3-Separated :
      (c : Config) (def : Networks)
      → Separated c.v3.enabled (with_v3 sha256 public parse_cidr c def)
  with_v3-Separated c def = elim (Bool-cases c.v3.enabled) [
    | inr n ↦ rw n refl
    | inl y ↦ rw y (
        after_Separated true
          (tier_networks sha256 public parse_cidr c.v3.ipv4_subnet c.v3.ipv6_subnet
            c.v3.private_key)
          _ (λ v3. apart-Separated def _))
  ]

  -- TunnelNetworks returns the networks of one tier only when the 3.1 tier is off, and those of two
  -- only when it is on; then no address is in both tiers' networks of a family.
  pub tunnel_networks-Separated :
      (c : Config) → Separated c.v3.enabled (tunnel_networks sha256 public parse_cidr c)
  unfolding tunnel_networks
  tunnel_networks-Separated c =
      after_Separated c.v3.enabled
        (tier_networks sha256 public parse_cidr c.ipv4_subnet c.ipv6_subnet c.private_key)
        (with_v3 sha256 public parse_cidr c) (with_v3-Separated c)
