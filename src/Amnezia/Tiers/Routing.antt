-- ===== src/Amnezia/Tiers/Routing.antt =====
-- A peer is on one tier, the one it asked for, and a removal finds it there.
use dvpnd.Prelude.{
  ◌≡◌, refl, ap, ◌∙◌, ◌⊎◌, inl, inr, Bool, true, false, ◌&&◌, ◌||◌, Option, none, some, List, Bytes,
  bytes_eq, bytes_eq-true, bytes_eq_refl, Bool-cases, if◌then◌else◌, arith,
}
use mathlib.Core.Path.{subst}
use dvpnd.Prelude.Int.{ℤ, eqb_ℤ}
use dvpnd.Prelude.Base64.{encode}
use dvpnd.Prelude.Results.{Err, Result, ok, err}
use dvpnd.Prelude.Table.{lookup}
use dvpnd.Service.{Service, ServiceLaws, IsPeerData, Added, Removed}
use dvpnd.Amnezia.Tiers.{
  Request, version_default, version_3, set_tier, take_tier, Tiers, parse_peer_request, into_v3,
  into_default, add_to, add_peer, has_peer, out_of_v3, out_of_default, remove_peer,
}

or_no : (a b : Bool) → (a || b) ≡ false → (a ≡ false) × (b ≡ false)
or_no false b h = (refl, h)
or_no true b h = absurd (cc h)

and_yes : (a b : Bool) → (a && b) ≡ true → (a ≡ true) × (b ≡ true)
and_yes true b h = (refl, h)
and_yes false b h = absurd (cc h)

or_yes : (a b : Bool) → (a || b) ≡ true → (a ≡ true) ⊎ (b ≡ true)
or_yes true b h = inl refl
or_yes false b h = inr h

and_no : (a b : Bool) → (a && b) ≡ false → (a ≡ false) ⊎ (b ≡ false)
and_no false b h = inl refl
and_no true b h = inr h

and_false : (b : Bool) → (b && false) ≡ false
and_false true = refl
and_false false = refl

module _ (S : Service) (laws : ServiceLaws S) where
  -- Both tiers are well formed, and with the 3.1 tier on no peer is on both.
  pub record Split (s : Tiers S) : Type 0 where
    pub default_valid : laws.IsValid s.default_tier
    pub v3_valid : laws.IsValid s.v3_tier
    pub apart :
        (e : Bytes)
        → IsPeerData e
        → (s.v3_on ≡ false)
          ⊎ ((S.has_peer e s.default_tier ≡ false) ⊎ (S.has_peer e s.v3_tier ≡ false))

  Added-others :
      (d : Bytes) (x : S.State) (r : Result Bytes × S.State)
      → Added S d x r
      → (e : Bytes) → IsPeerData e
      → bytes_eq d e ≡ false
      → S.has_peer e r.1 ≡ S.has_peer e x
  Added-others d x (err k, y) h e p n = h.0 e
  Added-others d x (ok k, y) (there, same, count) e p n = same e p n

  -- Where no peer is on both tiers, one that either has not joins either alone.
  free :
      (d : Bytes) (s : Tiers S)
      → has_peer S d s ≡ false
      → (s.v3_on ≡ false)
        ⊎ ((S.has_peer d s.default_tier ≡ false) × (S.has_peer d s.v3_tier ≡ false))
  unfolding has_peer
  free d s h = elim (Bool-cases s.v3_on) [
    | inr n ↦ inl n
    | inl y ↦
        let k = or_no (S.has_peer d s.default_tier) (s.v3_on && S.has_peer d s.v3_tier) h in
        inr (k.0, rw y at k.1)
  ]

  module _ (d : Bytes) (s : Tiers S) (p : IsPeerData d) (h : has_peer S d s ≡ false)
      (v : Split s) where
    v3-Split : Split (into_v3 S s (S.add_peer d s.v3_tier)).1
    v3-Split = record {
      default_valid = v.default_valid;
      v3_valid = laws.add-IsValid d s.v3_tier p v.v3_valid;
      apart = λ e q. elim (free d s h) [
        | inl n ↦ inl n
        | inr k ↦ elim (Bool-cases (bytes_eq d e)) [
          | inl same ↦
              inr (
                inl (subst (λ t. S.has_peer t s.default_tier ≡ false) (bytes_eq-true d e same) k.0))
          | inr other ↦ elim (v.apart e q) [
            | inl n ↦ inl n
            | inr (inl a) ↦ inr (inl a)
            | inr (inr b) ↦ inr (
                inr (
                  Added-others d s.v3_tier _ (laws.add-Added d s.v3_tier p v.v3_valid) e q other
                  ∙ b))
          ]
        ]
      ];
    }

    default-Split : Split (into_default S s (S.add_peer d s.default_tier)).1
    default-Split = record {
      default_valid = laws.add-IsValid d s.default_tier p v.default_valid;
      v3_valid = v.v3_valid;
      apart = λ e q. elim (free d s h) [
        | inl n ↦ inl n
        | inr k ↦ elim (Bool-cases (bytes_eq d e)) [
          | inl same ↦
              inr (inr (subst (λ t. S.has_peer t s.v3_tier ≡ false) (bytes_eq-true d e same) k.1))
          | inr other ↦ elim (v.apart e q) [
            | inl n ↦ inl n
            | inr (inl a) ↦ inr (
                inl (
                  Added-others d s.default_tier _
                    (laws.add-Added d s.default_tier p v.default_valid) e q other
                  ∙ a))
            | inr (inr b) ↦ inr (inr b)
          ]
        ]
      ];
    }

    add_to-Split : (tier : ℤ) → Split (add_to S d tier s).1
    add_to-Split tier = elim (Bool-cases (eqb_ℤ tier version_3 && s.v3_on)) [
      | inl y ↦ rw y v3-Split
      | inr n ↦ rw n default-Split
    ]

  -- What the requests remember is no matter to the tiers.
  asked-Split : (s : Tiers S) (m : List Request) → Split s → Split (record s { asked = m })
  asked-Split s m v = record {
    default_valid = v.default_valid;
    v3_valid = v.v3_valid;
    apart = v.apart;
  }

  -- Where both tiers are lawful, valid and, with the 3.1 tier on, share no peer, AddPeer of
  -- well-formed data of a peer that neither has keeps it so, on success and on failure.
  pub add_peer-Split :
      (d : Bytes) (s : Tiers S)
      → IsPeerData d
      → has_peer S d s ≡ false
      → Split s
      → Split (add_peer S d s).1
  unfolding add_peer has_peer
  add_peer-Split d s p h v =
      let m = (take_tier (encode d) s.asked).1 in
      add_to-Split d (record s { asked = m }) p h (asked-Split s m v)
        (take_tier (encode d) s.asked).0

  -- The promise of the service interface, for both tiers together.
  abbrev pub TierRemoved : Bytes → Tiers S → Option Err × Tiers S → Type 0
  TierRemoved d s (some k, t) = (e : Bytes) → has_peer S e t ≡ has_peer S e s
  TierRemoved d s (none, t) =
      (has_peer S d t ≡ false)
      × ((e : Bytes) → IsPeerData e → bytes_eq d e ≡ false → has_peer S e t ≡ has_peer S e s)

  from_v3 :
      (d : Bytes) (s : Tiers S) (r : Option Err × S.State)
      → S.has_peer d s.default_tier ≡ false
      → Removed S d s.v3_tier r
      → TierRemoved d s (out_of_v3 S s r)
  unfolding has_peer
  from_v3 d s (some k, y) f g = λ e. ap (λ b. S.has_peer e s.default_tier || (s.v3_on && b)) (g.0 e)
  from_v3 d s (none, y) f (gone, same, count) = (
    rw (f, gone) (and_false s.v3_on),
    λ e q n. ap (λ b. S.has_peer e s.default_tier || (s.v3_on && b)) (same e q n),
  )

  from_default :
      (d : Bytes) (s : Tiers S) (r : Option Err × S.State)
      → (s.v3_on && S.has_peer d s.v3_tier) ≡ false
      → Removed S d s.default_tier r
      → TierRemoved d s (out_of_default S s r)
  unfolding has_peer
  from_default d s (some k, y) f g = λ e. ap (λ b. b || (s.v3_on && S.has_peer e s.v3_tier)) (g.0 e)
  from_default d s (none, y) f (gone, same, count) =
      (rw (gone, f) refl, λ e q n. ap (λ b. b || (s.v3_on && S.has_peer e s.v3_tier)) (same e q n))

  off_default :
      (d : Bytes) (s : Tiers S)
      → IsPeerData d
      → Split s
      → (s.v3_on && S.has_peer d s.v3_tier) ≡ true
      → S.has_peer d s.default_tier ≡ false
  off_default d s p v y =
      let k = and_yes s.v3_on (S.has_peer d s.v3_tier) y in
      elim (v.apart d p) [
        | inl n ↦ absurd (cc (k.0, n))
        | inr (inl a) ↦ a
        | inr (inr b) ↦ absurd (cc (k.1, b))
      ]

  -- Where both tiers are lawful, valid and, with the 3.1 tier on, share no peer, a RemovePeer that
  -- succeeds leaves the peer on neither tier and the others as they were; one that fails leaves
  -- every peer as it was.
  pub remove_peer-TierRemoved :
      (d : Bytes) (s : Tiers S) → IsPeerData d → Split s → TierRemoved d s (remove_peer S d s)
  unfolding remove_peer
  remove_peer-TierRemoved d s p v = elim (Bool-cases (s.v3_on && S.has_peer d s.v3_tier)) [
    | inr n ↦ rw n (from_default d s _ n (laws.remove-Removed d s.default_tier p v.default_valid))
    | inl y ↦
        rw y (from_v3 d s _ (off_default d s p v y) (laws.remove-Removed d s.v3_tier p v.v3_valid))
  ]

two_not_three : (t : ℤ) → eqb_ℤ t version_default ≡ true → eqb_ℤ t version_3 ≡ false
two_not_three t h = ground arith

module _ (S : Service) (key : Bytes) (s : Tiers S) where
  -- AddPeer after `t` does on a tier what that tier's AddPeer does, and leaves the other alone.
  abbrev pub OnV3 : Tiers S → Type 0
  OnV3 t =
      ((add_peer S key t).0 ≡ (S.add_peer key s.v3_tier).0)
      × ((add_peer S key t).1.v3_tier ≡ (S.add_peer key s.v3_tier).1)
      × ((add_peer S key t).1.default_tier ≡ s.default_tier)

  abbrev pub OnDefault : Tiers S → Type 0
  OnDefault t =
      ((add_peer S key t).0 ≡ (S.add_peer key s.default_tier).0)
      × ((add_peer S key t).1.default_tier ≡ (S.add_peer key s.default_tier).1)
      × ((add_peer S key t).1.v3_tier ≡ s.v3_tier)

  abbrev pub Routed : ℤ → Result Bytes × Tiers S → Type 0
  Routed tier (err e, t) =
      (t ≡ s)
      × (eqb_ℤ tier version_default ≡ false)
      × ((eqb_ℤ tier version_3 ≡ false) ⊎ (s.v3_on ≡ false))
  Routed tier (ok k, t) =
      (k ≡ key)
      × (((eqb_ℤ tier version_default ≡ true) × OnDefault t)
          ⊎ ((eqb_ℤ tier version_3 ≡ true) × (s.v3_on ≡ true) × OnV3 t))

  taken : (tier : ℤ) → (take_tier (encode key) (set_tier (encode key) tier s.asked)).0 ≡ tier
  unfolding take_tier set_tier lookup
  taken tier = rw (bytes_eq_refl (encode key)) refl

  abbrev asking : ℤ → Tiers S
  asking tier = record s { asked = set_tier (encode key) tier s.asked }

  default-Routed : (tier : ℤ) → eqb_ℤ tier version_default ≡ true → OnDefault (asking tier)
  unfolding add_peer
  default-Routed tier h = rw (taken tier, two_not_three tier h) (refl, refl, refl)

  v3-Routed : (tier : ℤ) → eqb_ℤ tier version_3 ≡ true → s.v3_on ≡ true → OnV3 (asking tier)
  unfolding add_peer
  v3-Routed tier h y = rw (taken tier, h, y) (refl, refl, refl)

  decided :
      (tier : ℤ) (b : Bool)
      → (b ≡ true
          → ((eqb_ℤ tier version_default ≡ true) × OnDefault (asking tier))
            ⊎ ((eqb_ℤ tier version_3 ≡ true) × (s.v3_on ≡ true) × OnV3 (asking tier)))
      → (b ≡ false
          → (eqb_ℤ tier version_default ≡ false)
            × ((eqb_ℤ tier version_3 ≡ false) ⊎ (s.v3_on ≡ false)))
      → Routed tier (if b then (ok key, asking tier) else (err 51, s))
  decided tier true f g = (refl, f refl)
  decided tier false f g = (refl, (g refl).0, (g refl).1)

  -- A request for version 2, or for version 3 where that tier is on, sends the AddPeer that follows
  -- to that tier and leaves the other alone; any other version is refused and changes nothing.
  pub parse_peer_request-Routed :
      (tier : ℤ) → Routed tier (parse_peer_request S (ok key) (ok (some tier)) s)
  unfolding parse_peer_request
  parse_peer_request-Routed tier =
      decided tier (eqb_ℤ tier version_default || (eqb_ℤ tier version_3 && s.v3_on))
        (λ y. elim (or_yes (eqb_ℤ tier version_default) (eqb_ℤ tier version_3 && s.v3_on) y) [
          | inl d ↦ inl (d, default-Routed tier d)
          | inr e ↦
              let k = and_yes (eqb_ℤ tier version_3) s.v3_on e in
              inr (k.0, k.1, v3-Routed tier k.0 k.1)
        ])
        (λ n.
          let k = or_no (eqb_ℤ tier version_default) (eqb_ℤ tier version_3 && s.v3_on) n in
          (k.0, and_no (eqb_ℤ tier version_3) s.v3_on k.1))
