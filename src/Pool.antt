-- ===== src/Pool.antt =====
-- services/wireguard/types/ip_pool.go: the pools that hand peers their tunnel addresses. A method
-- returns the new pool; the mutex makes each call one step. The network's Contains belongs to the
-- net package's IPNet and is a field. `reserved`, a map to true, is the list of its keys.
pub mod Sets
pub mod Edges
pub mod Invariant
pub mod Taking
pub mod Pair
use dvpnd.Prelude.{
  bytes_eq, ℕ, zero, suc, ◌+◌, ◌%◌, ◌≡◌, Bool, true, false, not, ◌&&◌, ◌||◌, List, [], ◌∷◌, ◌++◌,
  ◌==◌, if◌then◌else◌,
}
use dvpnd.Address.{Ip, next}

pub record Pool : Type 0 where
  pub net : Ip → Bool  -- Net.Contains
  pub current : Ip
  pub available : List Ip
  pub reserved : List Ip

-- A Go (value, error) pair of this package; its errors carry only a text.
pub data Got {ℓ} (A : Type ℓ) : Type ℓ where
  got : A → Got A
  full : Got A

unfoldable pub new_pool : Ip → (Ip → Bool) → Pool
new_pool ip net = record { net = net; current = ip; available = []; reserved = [] }

unfoldable pub member : Ip → List Ip → Bool
member ip [] = false
member ip (x ∷ xs) = bytes_eq x ip || member ip xs

unfoldable pub delete : Ip → List Ip → List Ip
delete ip [] = []
delete ip (x ∷ xs) = let rest = delete ip xs in if bytes_eq x ip then rest else x ∷ rest

-- `p.reserved[ip] = true`
unfoldable pub reserve : Ip → List Ip → List Ip
reserve ip xs = if member ip xs then xs else ip ∷ xs

-- `ip[3]`: the last byte of an IPv4 address.
unfoldable pub last_byte : Ip → ℕ
last_byte [] = 0
last_byte (b ∷ []) = b
last_byte (a ∷ b ∷ bs) = last_byte (b ∷ bs)

-- The test of Get's loop: a network or broadcast byte at the end.
unfoldable pub is_edge : Ip → Bool
unfolding last_byte
is_edge ip = last_byte ip == 0 || last_byte ip == 255

-- Get's loop; `none`-like exhaustion cannot happen on three rounds (Pool/Invariant).
unfoldable pub skip : ℕ → Ip → Ip
unfolding is_edge
skip zero ip = ip
skip (suc fuel) ip = let rest = skip fuel (next ip) in if is_edge ip then rest else ip

abbrev pub skip_rounds : ℕ
skip_rounds = 3

abbrev take_free : Pool → List Ip → Got Ip × Pool
take_free p [] = if not (p.net p.current) then (full, p) else (
  got p.current,
  record p { current = next p.current; reserved = reserve p.current p.reserved },
)
take_free p (ip ∷ rest) = (got ip, record p { available = rest; reserved = reserve ip p.reserved })

-- IPv4Pool.Get skips the edges only before it takes a fresh address.
abbrev skip_edges : Pool → List Ip → Pool
skip_edges p [] = record p { current = skip skip_rounds p.current }
skip_edges p (ip ∷ rest) = p

unfoldable pub get_v4 : Pool → Got Ip × Pool
get_v4 p = take_free (skip_edges p p.available) p.available

unfoldable pub get_v6 : Pool → Got Ip × Pool
get_v6 p = take_free p p.available

-- IPv4Pool.Release and IPv6Pool.Release, the same code.
unfoldable pub release : Pool → Ip → Pool
release p ip =
    if member ip p.reserved
    then record p { reserved = delete ip p.reserved; available = p.available ++ (ip ∷ []) }
    else p

pub record IpPool : Type 0 where
  pub v4 : Pool
  pub v6 : Pool

abbrev after_v6 : IpPool → Pool → Ip → Got Ip × Pool → Got (Ip × Ip) × IpPool
after_v6 p v4' ip4 (full, v6') = (full, record { v4 = release v4' ip4; v6 = v6' })
after_v6 p v4' ip4 (got ip6, v6') = (got (ip4, ip6), record { v4 = v4'; v6 = v6' })

abbrev after_v4 : IpPool → Got Ip × Pool → Got (Ip × Ip) × IpPool
after_v4 p (full, v4') = (full, record p { v4 = v4' })
after_v4 p (got ip4, v4') = after_v6 p v4' ip4 (get_v6 p.v6)

-- IPPool.Get: an IPv4 address is given back when no IPv6 address is left.
unfoldable pub get : IpPool → Got (Ip × Ip) × IpPool
get p = after_v4 p (get_v4 p.v4)

unfoldable pub release_pair : IpPool → Ip → Ip → IpPool
unfolding release
release_pair p v4 v6 = record { v4 = release p.v4 v4; v6 = release p.v6 v6 }
