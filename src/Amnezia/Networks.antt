-- ===== src/Amnezia/Networks.antt =====
-- services/amneziawg/types/subnet.go, and TunnelNetworks and Validate of config.go: the tiers' tunnel networks.
-- SHA-256, X25519 and net.ParseCIDR are parameters. An address is 4 or 16 bytes, and a network its
-- address and the length of its prefix.
use dvpnd.Prelude.{
  ℕ, zero, suc, ◌+◌, ◌-◌, ◌*◌, ◌/◌, ◌%◌, ◌^◌, Bool, true, false, not, ◌&&◌, ◌||◌, Option, none,
  some, List, [], ◌∷◌, ◌++◌, Bytes, bytes_eq, length, ltb, ◌==◌, if◌then◌else◌,
}
use dvpnd.Prelude.Results.{Err, Result, ok, err, ◌>>=◌}
use dvpnd.Address.{Ip, from_bytes, next, replicate_zero}
use dvpnd.Pool.{IpPool, new_pool}
use dvpnd.Amnezia.{
  Config, ◌orelse◌, failed, key_from_string, validate_wireguard, validate_obfuscation, validate_v3,
}

pub record IpNet : Type 0 where
  pub ip : Ip
  pub ones : ℕ

pub record Networks : Type 0 where
  pub ipv4 : IpNet
  pub ipv6 : IpNet

-- The part of an address that a mask of `ones` bits leaves.
abbrev pub prefix : ℕ → Ip → ℕ
prefix ones ip = from_bytes ip / 2 ^ (8 * length ip - ones)

-- net.IPNet's Contains: an address of the same family whose masked bits are the network's.
unfoldable pub contains : IpNet → Ip → Bool
contains n ip = length ip == length n.ip && prefix n.ones ip == prefix n.ones n.ip

unfoldable pub overlap : IpNet → IpNet → Bool
unfolding contains
overlap a b = contains a b.ip || contains b a.ip

unfoldable pub overlaps : Networks → Networks → Bool
unfolding overlap
overlaps n o = overlap n.ipv4 o.ipv4 || overlap n.ipv6 o.ipv6

abbrev pub byte_at : ℕ → List ℕ → ℕ
byte_at n [] = 0
byte_at zero (x ∷ xs) = x
byte_at (suc n) (x ∷ xs) = byte_at n xs

abbrev pub derivation_label : Bytes
derivation_label =
    b'd' ∷ b'v' ∷ b'p' ∷ b'n' ∷ b'd' ∷ b' ' ∷ b'a' ∷ b'm' ∷ b'n' ∷ b'e' ∷ b'z' ∷ b'i' ∷ b'a' ∷ b'w'
    ∷ b'g' ∷ b' ' ∷ b't' ∷ b'u' ∷ b'n' ∷ b'n' ∷ b'e' ∷ b'l' ∷ b' ' ∷ b'n' ∷ b'e' ∷ b't' ∷ b'w'
    ∷ b'o' ∷ b'r' ∷ b'k' ∷ b's' ∷ 0 ∷ []

-- The networks of a hash: 10.x.y.0/24 with x from 11 to 250, and fd, a 40-bit global ID, subnet 0, /120.
unfoldable pub networks_of : List ℕ → Networks
networks_of sum = record {
  ipv4 = record { ip = 10 ∷ (11 + byte_at 0 sum % 240) % 256 ∷ byte_at 1 sum ∷ 0 ∷ []; ones = 24 };
  ipv6 = record {
    ip =
        (253 ∷ byte_at 2 sum ∷ byte_at 3 sum ∷ byte_at 4 sum ∷ byte_at 5 sum ∷ byte_at 6 sum ∷ [])
        ++ replicate_zero 10;
    ones = 120;
  };
}

-- net.IP's IsPrivate
unfoldable pub is_private : Ip → Bool
is_private ip =
    if length ip == 4
    then byte_at 0 ip == 10
      || (byte_at 0 ip == 172 && byte_at 1 ip / 16 == 1)
      || (byte_at 0 ip == 192 && byte_at 1 ip == 168)
    else length ip == 16 && byte_at 0 ip / 2 == 126

-- The cases of parseSubnet, on ParseCIDR's address and network.
abbrev subnet_of : Bool → Ip × IpNet → Result IpNet
subnet_of v6 (ip, n) =
    if not v6 && not (length ip == 4)
    then err 40
    else if v6 && length ip == 4
    then err 41
    else if not (is_private ip)
    then err 42
    else if not v6 && (ltb n.ones 16 || ltb 28 n.ones)
    then err 43
    else if v6 && (ltb n.ones 64 || ltb 124 n.ones)
    then err 44
    else ok n

-- Pool: peers get the addresses after the interface's own.
unfoldable pub pool : Networks → IpPool
unfolding contains next new_pool
pool n = record {
  v4 = new_pool (next (next n.ipv4.ip)) (contains n.ipv4);
  v6 = new_pool (next (next n.ipv6.ip)) (contains n.ipv6);
}

abbrev pub apart : Networks → Networks → Result (Networks × Option Networks)
apart def v3 = if overlaps def v3 then err 45 else ok (def, some v3)

module _ (sha256 : Bytes → List ℕ) (public : Bytes → Bytes)
    (parse_cidr : Bytes → Result (Ip × IpNet)) where
  unfoldable pub derive_networks : Bytes → Networks
  unfolding networks_of
  derive_networks key = networks_of (sha256 (derivation_label ++ key))

  unfoldable pub parse_subnet : Bytes → Bool → Result IpNet
  unfolding is_private
  parse_subnet s v6 = parse_cidr s >>= subnet_of v6

  -- A setting that is not empty replaces the derived network.
  abbrev pub named : Bytes → Bool → IpNet → Result IpNet
  named s v6 derived = if bytes_eq s [] then ok derived else parse_subnet s v6

  -- tierNetworks
  unfoldable pub tier_networks : Bytes → Bytes → Bytes → Result Networks
  unfolding key_from_string derive_networks parse_subnet
  tier_networks ipv4 ipv6 private_key = do
    key ← key_from_string private_key
    v4 ← named ipv4 false (derive_networks (public key)).ipv4
    v6 ← named ipv6 true (derive_networks (public key)).ipv6
    ok (record { ipv4 = v4; ipv6 = v6 })

  -- The next /24.
  abbrev pub next_net : IpNet → IpNet
  next_net n = record n {
    ip = byte_at 0 n.ip ∷ byte_at 1 n.ip ∷ (byte_at 2 n.ip + 1) % 256 ∷ 0 ∷ [];
  }

  abbrev pub moved : Config → Networks → Networks → Networks
  moved c def v3 =
      if bytes_eq c.v3.ipv4_subnet [] && overlap def.ipv4 v3.ipv4
      then record v3 { ipv4 = next_net v3.ipv4 }
      else v3

  abbrev pub with_v3 : Config → Networks → Result (Networks × Option Networks)
  with_v3 c def = if not c.v3.enabled then ok (def, none) else do
    v3 ← tier_networks c.v3.ipv4_subnet c.v3.ipv6_subnet c.v3.private_key
    apart def (moved c def v3)

  -- TunnelNetworks; the second networks are none when the 3.1 tier is off.
  unfoldable pub tunnel_networks : Config → Result (Networks × Option Networks)
  unfolding tier_networks overlap overlaps
  tunnel_networks c = tier_networks c.ipv4_subnet c.ipv6_subnet c.private_key >>= with_v3 c

  -- Config's Validate
  unfoldable pub validate : Config → Option Err
  unfolding validate_wireguard validate_obfuscation validate_v3 tunnel_networks
  validate c =
      validate_wireguard c.interface c.listen_port c.private_key
      orelse validate_obfuscation c.obfuscation
      orelse (if c.v3.enabled then validate_v3 c.v3 c.interface c.listen_port else none)
      orelse failed (tunnel_networks c)
