-- ===== src/Pool/Pair.antt =====
-- IPPool.Get takes an address of each family or none.
use dvpnd.Prelude.{ℕ, ◌≡◌, ◌∙◌, refl, sym, ap, ◌⊎◌, inl, inr, Bool, false, arith, [], ◌∷◌}
use dvpnd.Address.{Ip}
use dvpnd.Pool.{
  Pool, Got, got, full, IpPool, member, is_edge, get_v4, get_v6, release, after_v4, after_v6, get,
  release_pair,
}
use dvpnd.Pool.Sets.{delete-taken}
use dvpnd.Pool.Invariant.{no_edge, Fits, IsValid, release-IsValid}
use dvpnd.Pool.Taking.{Taken, FirstOff, Exhausted, Outcome, get_v4-Outcome, get_v6-Outcome}

pub record PairFits (p : IpPool) : Type 0 where
  pub fits_v4 : Fits 3 p.v4.net
  pub fits_v6 : Fits 15 p.v6.net

pub record PairIsValid (p : IpPool) : Type 0 where
  pub valid_v4 : IsValid 3 is_edge p.v4
  pub valid_v6 : IsValid 15 no_edge p.v6

-- Nothing to hand out: no address was given back, and the first address off the edges from `current`
-- on is outside the network.
abbrev pub UsedUp : (Ip → Bool) → Pool → Type 0
UsedUp edge p = (p.available ≡ []) × ((c : Ip) × FirstOff edge p.current c × (p.net c ≡ false))

-- A Get of the pair fails when one family is used up, and leaves both reserved sets as they were.
pub record Rolled (p q : IpPool) : Type 0 where
  pub used_up : UsedUp is_edge p.v4 ⊎ UsedUp no_edge p.v6
  pub same_v4 : q.v4.reserved ≡ p.v4.reserved
  pub same_v6 : q.v6.reserved ≡ p.v6.reserved
  pub net_v4 : q.v4.net ≡ p.v4.net
  pub net_v6 : q.v6.net ≡ p.v6.net
  pub valid : PairIsValid q

pub record PairTaken (p : IpPool) (ip4 ip6 : Ip) (q : IpPool) : Type 0 where
  pub taken_v4 : Taken 3 is_edge p.v4 ip4 q.v4
  pub taken_v6 : Taken 15 no_edge p.v6 ip6 q.v6

abbrev pub PairOutcome : IpPool → Got (Ip × Ip) × IpPool → Type 0
PairOutcome p (got (ip4, ip6), q) = PairTaken p ip4 ip6 q
PairOutcome p (full, q) = Rolled p q

pub release_net : (p : Pool) (ip : Ip) → (release p ip).net ≡ p.net
unfolding release
release_net p ip = ground arith

-- Releasing an address that was just taken restores the reserved set.
pub release-taken :
    (p q : Pool) (ip : Ip)
    → member ip p.reserved ≡ false
    → q.reserved ≡ ip ∷ p.reserved
    → (release q ip).reserved ≡ p.reserved
unfolding release
release-taken p q ip unused held =
    rw held (rw (delete-taken ip p.reserved unused).0 (delete-taken ip p.reserved unused).1)

Exhausted-UsedUp : (n : ℕ) (edge : Ip → Bool) (p q : Pool) → Exhausted n edge p q → UsedUp edge p
Exhausted-UsedUp n edge p q o =
    (o.none_free, (q.current, o.first_off, ap (λ net. net q.current) (sym o.same_net) ∙ o.outside))

after_v6-Outcome :
    (p : IpPool) (ip4 : Ip) (q4 : Pool) (r : Got Ip × Pool)
    → PairIsValid p
    → Taken 3 is_edge p.v4 ip4 q4
    → Outcome 15 no_edge p.v6 r
    → PairOutcome p (after_v6 p q4 ip4 r)
after_v6-Outcome p ip4 q4 (got ip6, q6) v t o = record { taken_v4 = t; taken_v6 = o }
after_v6-Outcome p ip4 q4 (full, q6) v t o = record {
  used_up = inr (Exhausted-UsedUp 15 no_edge p.v6 q6 o);
  same_v4 = release-taken p.v4 q4 ip4 t.was_free t.held;
  same_v6 = o.same_used;
  net_v4 = release_net q4 ip4 ∙ t.same_net;
  net_v6 = o.same_net;
  valid = record { valid_v4 = release-IsValid 3 is_edge q4 ip4 t.valid; valid_v6 = o.valid };
}

after_v4-Outcome :
    (p : IpPool) (r : Got Ip × Pool)
    → PairFits p
    → PairIsValid p
    → Outcome 3 is_edge p.v4 r
    → PairOutcome p (after_v4 p r)
after_v4-Outcome p (got ip4, q4) f v o =
    after_v6-Outcome p ip4 q4 (get_v6 p.v6) v o (get_v6-Outcome p.v6 f.fits_v6 v.valid_v6)
after_v4-Outcome p (full, q4) f v o = record {
  used_up = inl (Exhausted-UsedUp 3 is_edge p.v4 q4 o);
  same_v4 = o.same_used;
  same_v6 = refl;
  net_v4 = o.same_net;
  net_v6 = refl;
  valid = record { valid_v4 = o.valid; valid_v6 = v.valid_v6 };
}

-- On valid pools of networks below the top of the space, IPPool.Get takes a free host of each
-- network; or one of the pools is used up, with no address given back and the first address off the
-- edges outside its network, and both reserved sets stay as they were. The pools stay valid.
pub get-PairOutcome : (p : IpPool) → PairFits p → PairIsValid p → PairOutcome p (get p)
unfolding get
get-PairOutcome p f v =
    after_v4-Outcome p (get_v4 p.v4) f v (get_v4-Outcome p.v4 f.fits_v4 v.valid_v4)

-- Release of a pair of addresses keeps valid pools valid, whatever the addresses.
pub release_pair-PairIsValid :
    (p : IpPool) (ip4 ip6 : Ip) → PairIsValid p → PairIsValid (release_pair p ip4 ip6)
unfolding release_pair
release_pair-PairIsValid p ip4 ip6 v = record {
  valid_v4 = release-IsValid 3 is_edge p.v4 ip4 v.valid_v4;
  valid_v6 = release-IsValid 15 no_edge p.v6 ip6 v.valid_v6;
}

-- A release changes no network.
pub release_pair-PairFits : (q : IpPool) (v4 v6 : Ip) → PairFits q → PairFits (release_pair q v4 v6)
unfolding release_pair
release_pair-PairFits q v4 v6 f = record {
  fits_v4 = rw (release_net q.v4 v4) f.fits_v4;
  fits_v6 = rw (release_net q.v6 v6) f.fits_v6;
}
