-- ===== src/Pool/Invariant.antt =====
-- What holds of a pool between two calls: every address it has handed out or taken back lies below
-- `current`, in the network and off its edges, and stands once. `n` and `edge` are 3 and `is_edge`
-- for IPv4, 15 and `no_edge` for IPv6.
use dvpnd.Prelude.{
  bytes_eq-true, ℕ, suc, ◌+◌, ◌^◌, ◌<◌, ◌≤◌, ◌≡◌, Bool, true, false, [], ◌∷◌, All, All-append,
  Bool-cases, inl, inr, arith,
}
use dvpnd.Address.{Ip, from_bytes, IsAddress}
use dvpnd.Pool.{Pool, new_pool, member, release}
use dvpnd.Pool.Sets.{count, count-append, count-delete, member-count, Below, All-delete, All-member}

abbrev pub no_edge : Ip → Bool
no_edge ip = false

-- The addresses that the pool may hand out.
abbrev pub IsHost : (Ip → Bool) → (Ip → Bool) → Ip → Type 0
IsHost edge net ip = (net ip ≡ true) × (edge ip ≡ false)

-- The network ends below the top of the address space, which no private network reaches.
abbrev pub Fits : ℕ → (Ip → Bool) → Type 0
Fits n net = (ip : Ip) → net ip ≡ true → from_bytes ip + 3 < 256 ^ suc n

pub record IsValid (n : ℕ) (edge : Ip → Bool) (p : Pool) : Type 0 where
  pub address : IsAddress n p.current
  pub room : edge p.current ≡ true → from_bytes p.current + 2 < 256 ^ suc n
  pub free_below : Below (from_bytes p.current) p.available
  pub used_below : Below (from_bytes p.current) p.reserved
  pub free_hosts : All (IsHost edge p.net) p.available
  pub used_hosts : All (IsHost edge p.net) p.reserved
  pub once : (ip : Ip) → count ip p.available + count ip p.reserved ≤ 1

module _ (n : ℕ) (edge : Ip → Bool) where
  pub new_pool-IsValid :
      (ip : Ip) (net : Ip → Bool)
      → IsAddress n ip
      → (edge ip ≡ true → from_bytes ip + 2 < 256 ^ suc n)
      → IsValid n edge (new_pool ip net)
  unfolding new_pool count
  new_pool-IsValid ip net a room = record {
    address = a;
    room = room;
    free_below = tt;
    used_below = tt;
    free_hosts = tt;
    used_hosts = tt;
    once = λ x. omega arith;
  }

  -- Release keeps a valid pool valid, whether the address was reserved or not.
  pub release-IsValid : (p : Pool) (ip : Ip) → IsValid n edge p → IsValid n edge (release p ip)
  unfolding release
  release-IsValid p ip v = elim (Bool-cases (member ip p.reserved)) [
    | inr e ↦ rw e v
    | inl e ↦ rw e (record {
      address = v.address;
      room = v.room;
      free_below =
          All-append _ p.available (ip ∷ []) v.free_below
            (All-member _ ip p.reserved e v.used_below, tt);
      used_below = All-delete _ ip p.reserved v.used_below;
      free_hosts =
          All-append _ p.available (ip ∷ []) v.free_hosts
            (All-member _ ip p.reserved e v.used_hosts, tt);
      used_hosts = All-delete _ ip p.reserved v.used_hosts;
      once = λ x.
          unfold count in
          ground (
            arith,
            v.once x,
            count-append x p.available (ip ∷ []),
            count-delete x ip p.reserved,
            bytes_eq-true ip x,
            member-count ip p.reserved,
          );
    })
  ]
