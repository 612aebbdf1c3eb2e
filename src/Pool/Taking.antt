-- ===== src/Pool/Taking.antt =====
-- What Get does to a valid pool, on both of its results.
use mathlib.Core.Path.{subst}
use dvpnd.Prelude.{
  bytes_eq-true, bytes_eq_refl, ℕ, zero, suc, ◌+◌, ◌≤◌, ◌≡◌, refl, Bool, true, false, List, [], ◌∷◌,
  All, All-map, Bool-cases, inl, inr, arith,
}
use dvpnd.Address.{Ip, from_bytes, next, IsAddress}
use dvpnd.Address.Next.{next-from_bytes}
use dvpnd.Pool.{
  Pool, Got, got, full, member, reserve, is_edge, skip, skip_rounds, take_free, skip_edges, get_v4,
  get_v6,
}
use dvpnd.Pool.Sets.{count, reserve-unused, member-count, not_member-count, Below, Below-not_member}
use dvpnd.Pool.Edges.{skip_ends}
use dvpnd.Pool.Invariant.{no_edge, IsHost, Fits, IsValid}

-- What a successful Get does: the address was out to nobody, is a host of the network, and is the
-- one new reserved address.
pub record Taken (n : ℕ) (edge : Ip → Bool) (p : Pool) (ip : Ip) (q : Pool) : Type 0 where
  pub was_free : member ip p.reserved ≡ false
  pub is_host : IsHost edge p.net ip
  pub held : q.reserved ≡ ip ∷ p.reserved
  pub same_net : q.net ≡ p.net
  pub valid : IsValid n edge q

-- The first address off the edges, from an address on.
pub data FirstOff (edge : Ip → Bool) : Ip → Ip → Type 0 where
  here : {ip : Ip} → edge ip ≡ false → FirstOff edge ip ip
  over : {ip c : Ip} → edge ip ≡ true → FirstOff edge (next ip) c → FirstOff edge ip c

-- What a failing Get means: nothing is free, and the first address off the edges is outside the
-- network.
pub record Exhausted (n : ℕ) (edge : Ip → Bool) (p q : Pool) : Type 0 where
  pub none_free : p.available ≡ []
  pub first_off : FirstOff edge p.current q.current
  pub outside : q.net q.current ≡ false
  pub same_used : q.reserved ≡ p.reserved
  pub same_net : q.net ≡ p.net
  pub valid : IsValid n edge q

abbrev pub Outcome : ℕ → (Ip → Bool) → Pool → Got Ip × Pool → Type 0
Outcome n edge p (got ip, q) = Taken n edge p ip q
Outcome n edge p (full, q) = Exhausted n edge p q

module _ (n : ℕ) (edge : Ip → Bool) (p : Pool) (fits : Fits n p.net) (v : IsValid n edge p) where
  take_fresh : p.available ≡ [] → edge p.current ≡ false → Outcome n edge p (take_free p [])
  take_fresh e off = elim (Bool-cases (p.net p.current)) [
    | inr out ↦ rw out (record {
      none_free = e;
      first_off = here off;
      outside = out;
      same_used = refl;
      same_net = refl;
      valid = v;
    })
    | inl hit ↦ rw hit (
        rw (reserved_now hit) (record {
          was_free = unused;
          is_host = (hit, off);
          held = refl;
          same_net = refl;
          valid = record {
            address = (stepped hit).1;
            room = λ _. omega (arith, (stepped hit).0, fits p.current hit);
            free_below = rw e tt;
            used_below = (
              omega (arith, (stepped hit).0),
              All-map _ _ (λ ip h. omega (arith, (stepped hit).0)) p.reserved v.used_below,
            );
            free_hosts = rw e tt;
            used_hosts = ((hit, off), v.used_hosts);
            once = λ x.
                unfold count in
                rw e (
                  ground (
                    arith,
                    v.once x,
                    bytes_eq-true p.current x,
                    not_member-count p.current p.reserved unused,
                  ));
          };
        }))
  ]
    where
      unused : member p.current p.reserved ≡ false
      unused = Below-not_member _ p.current p.reserved v.used_below refl

      stepped :
          p.net p.current ≡ true
          → (from_bytes (next p.current) ≡ from_bytes p.current + 1) × IsAddress n (next p.current)
      stepped hit = next-from_bytes n p.current v.address (omega (arith, fits p.current hit))

      reserved_now : p.net p.current ≡ true → reserve p.current p.reserved ≡ p.current ∷ p.reserved
      reserved_now hit = reserve-unused p.current p.reserved unused

  take_returned :
      (ip : Ip) (rest : List Ip)
      → p.available ≡ ip ∷ rest
      → Outcome n edge p (take_free p (ip ∷ rest))
  take_returned ip rest e = rw (reserve-unused ip p.reserved unused) (record {
    was_free = unused;
    is_host = hosts.0;
    held = refl;
    same_net = refl;
    valid = record {
      address = v.address;
      room = v.room;
      free_below = below.1;
      used_below = (below.0, v.used_below);
      free_hosts = hosts.1;
      used_hosts = (hosts.0, v.used_hosts);
      once = λ x. unfold count in ground (arith, twice x);
    };
  })
    where
      below : Below (from_bytes p.current) (ip ∷ rest)
      below = subst (Below (from_bytes p.current)) e v.free_below

      hosts : All (IsHost edge p.net) (ip ∷ rest)
      hosts = subst (All (IsHost edge p.net)) e v.free_hosts

      twice : (x : Ip) → count x (ip ∷ rest) + count x p.reserved ≤ 1
      twice x = rw (← e) (v.once x)

      unused : member ip p.reserved ≡ false
      unused = elim (Bool-cases (member ip p.reserved)) [
        | inr e' ↦ e'
        | inl e' ↦
            unfold count in ground (arith, twice ip, bytes_eq_refl ip, member-count ip p.reserved)
      ]

take-Outcome :
    (n : ℕ) (edge : Ip → Bool) (p : Pool) (xs : List Ip)
    → p.available ≡ xs
    → Fits n p.net
    → IsValid n edge p
    → (p.available ≡ [] → edge p.current ≡ false)
    → Outcome n edge p (take_free p xs)
take-Outcome n edge p [] e fits v off = take_fresh n edge p fits v e (off e)
take-Outcome n edge p (ip ∷ rest) e fits v off = take_returned n edge p fits v ip rest e

FirstOff-trans :
    {edge : Ip → Bool} {a b c : Ip} → FirstOff edge a b → FirstOff edge b c → FirstOff edge a c
FirstOff-trans (here e) g = g
FirstOff-trans (over e f) g = over e (FirstOff-trans f g)

skip-FirstOff :
    (fuel : ℕ) (ip : Ip) → is_edge (skip fuel ip) ≡ false → FirstOff is_edge ip (skip fuel ip)
unfolding skip
skip-FirstOff zero ip off = here off
skip-FirstOff (suc fuel) ip off = elim (Bool-cases (is_edge ip)) [
  | inr n ↦ rw n (here n)
  | inl y ↦ rw y (over y (skip-FirstOff fuel (next ip) (rw y at off)))
]

-- An outcome depends on `current` by the first address off the edges alone.
before_skip :
    (n : ℕ) (edge : Ip → Bool) (p : Pool) (c : Ip) (r : Got Ip × Pool)
    → FirstOff edge p.current c
    → Outcome n edge (record p { current = c }) r
    → Outcome n edge p r
before_skip n edge p c (got ip, q) f t = record {
  was_free = t.was_free;
  is_host = t.is_host;
  held = t.held;
  same_net = t.same_net;
  valid = t.valid;
}
before_skip n edge p c (full, q) f t = record {
  none_free = t.none_free;
  first_off = FirstOff-trans f t.first_off;
  outside = t.outside;
  same_used = t.same_used;
  same_net = t.same_net;
  valid = t.valid;
}

skip_edges-IsValid :
    (p : Pool)
    → p.available ≡ []
    → IsValid 3 is_edge p
    → IsValid 3 is_edge (record p { current = skip skip_rounds p.current })
skip_edges-IsValid p e v =
    let (off, a, up) = skip_ends 3 p.current v.address v.room in
    record {
      address = a;
      room = λ h. absurd (cc);
      free_below = rw e tt;
      used_below = All-map _ _ (λ ip h. omega arith) p.reserved v.used_below;
      free_hosts = v.free_hosts;
      used_hosts = v.used_hosts;
      once = v.once;
    }

get_v4_lem :
    (p : Pool) (xs : List Ip)
    → p.available ≡ xs
    → Fits 3 p.net
    → IsValid 3 is_edge p
    → Outcome 3 is_edge p (take_free (skip_edges p xs) xs)
get_v4_lem p (ip ∷ rest) e fits v = take_returned 3 is_edge p fits v ip rest e
get_v4_lem p [] e fits v =
    let off = (skip_ends 3 p.current v.address v.room).0 in
    before_skip 3 is_edge p (skip skip_rounds p.current) (take_free (skip_edges p []) [])
      (skip-FirstOff skip_rounds p.current off)
      (take_fresh 3 is_edge (skip_edges p []) fits (skip_edges-IsValid p e v) e off)

-- On a valid pool of a network below the top of the space, IPv4Pool.Get returns a host of the
-- network that was not reserved and is on no edge, and reserves just it; or nothing is free and the
-- next address is outside the network. The pool is valid after it.
pub get_v4-Outcome :
    (p : Pool) → Fits 3 p.net → IsValid 3 is_edge p → Outcome 3 is_edge p (get_v4 p)
unfolding get_v4
get_v4-Outcome p fits v = get_v4_lem p p.available refl fits v

-- On a valid pool of a network below the top of the space, IPv6Pool.Get returns a host of the
-- network that was not reserved, and reserves just it; or nothing is free and the next address is
-- outside the network. The pool is valid after it.
pub get_v6-Outcome :
    (p : Pool) → Fits 15 p.net → IsValid 15 no_edge p → Outcome 15 no_edge p (get_v6 p)
unfolding get_v6
get_v6-Outcome p fits v = take-Outcome 15 no_edge p p.available refl fits v (λ _. refl)
