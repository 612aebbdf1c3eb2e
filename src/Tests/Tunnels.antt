-- ===== src/Tests/Tunnels.antt =====
-- The AmneziaWG theorems at a set of parameters, two derived networks and two tiers, and a peer set.
use dvpnd.Prelude.{ℕ, zero, suc, ◌≡◌, true, List, [], ◌∷◌, none, Bytes, All}
use dvpnd.Prelude.{inl, inr, some, bytes_eq, refl, false}
use dvpnd.Prelude.Table.{lookup}
use dvpnd.WireGuard.Fills.{service, service_laws}
use dvpnd.Amnezia.Tiers.{Tiers, has_peer, remove_peer}
use dvpnd.Amnezia.Tiers.Routing.{Split, TierRemoved, remove_peer-TierRemoved}
use dvpnd.Prelude.{◌+◌, ◌≤◌, ◌==◌, true, arith}
use dvpnd.Amnezia.{Obfuscation, seen, check_packets, validate_obfuscation}
use dvpnd.Amnezia.Generate.{random_uint, generate}
use dvpnd.Amnezia.Generate.Draws.{new_headers, generate_returns}
use dvpnd.PeerSet.Histories.{Call, registered, dropped}
use dvpnd.Tests.World.{interface, peer_data, peer_data-IsPeerData}
use dvpnd.Prelude.Results.{Result, err}
use dvpnd.Address.{Ip, replicate_zero}
use dvpnd.Amnezia.{Config}
use dvpnd.Amnezia.Networks.{IpNet, tunnel_networks}
use dvpnd.Amnezia.Overlap.{Separated, tunnel_networks-Separated}
use dvpnd.Prelude.Base64.{encode}

abbrev headers : List ℕ
headers = 5 ∷ 17 ∷ 123456 ∷ 99 ∷ []

abbrev wide : IpNet
wide = record { ip = 10 ∷ 8 ∷ 0 ∷ 0 ∷ []; ones = 16 }

abbrev narrow : IpNet
narrow = record { ip = 10 ∷ 8 ∷ 3 ∷ 0 ∷ []; ones = 24 }

abbrev config : Config
config = record {
  interface = b'a' ∷ [];
  listen_port = 7777;
  private_key = encode (replicate_zero 32);
  ipv4_subnet = [];
  ipv6_subnet = [];
  obfuscation = record {
    jc = 4;
    jmin = 40;
    jmax = 70;
    s = 0 ∷ 0 ∷ 0 ∷ 0 ∷ [];
    h = headers;
    i = [];
  };
  v3 = record {
    enabled = true;
    interface = b'b' ∷ [];
    listen_port = 7778;
    private_key = encode (1 ∷ 1 ∷ 1 ∷ 1 ∷ replicate_zero 28);
    ipv4_subnet = [];
    ipv6_subnet = [];
    header_protection_key = encode (replicate_zero 32);
    s = 12 ∷ 12 ∷ 12 ∷ 12 ∷ [];
    h = headers;
    random_trailers = true;
    content_padding_addition = b'0' ∷ [];
  };
}

abbrev drop : ℕ → List ℕ → List ℕ
drop zero xs = xs
drop (suc n) [] = []
drop (suc n) (x ∷ xs) = drop n xs

-- In place of the hash, the key after the label.
abbrev hash : Bytes → List ℕ
hash x = drop 32 x

abbrev no_cidr : Bytes → Result (Ip × IpNet)
no_cidr s = err 1

tunnel_networks-Separated_example :
    Separated true (tunnel_networks hash (λ key. key) no_cidr config)
tunnel_networks-Separated_example = tunnel_networks-Separated hash (λ key. key) no_cidr config

-- Two WireGuard interfaces as the tiers, the 3.1 tier on.
abbrev tiers : Tiers service
tiers = record { default_tier = interface; v3_tier = interface; v3_on = true; asked = [] }

no_peer : has_peer service peer_data tiers ≡ false
unfolding has_peer dvpnd.WireGuard.has_peer bytes_eq lookup
no_peer = refl

split : Split service service_laws tiers
unfolding dvpnd.WireGuard.has_peer bytes_eq lookup
split = record { default_valid = tt; v3_valid = tt; apart = λ e p. inr (inl refl) }

remove_peer-TierRemoved_example :
    TierRemoved service service_laws peer_data tiers (remove_peer service peer_data tiers)
remove_peer-TierRemoved_example =
    remove_peer-TierRemoved service service_laws peer_data tiers peer_data-IsPeerData split

abbrev calls : List Call
calls = dropped (1 ∷ []) ∷ registered (2 ∷ []) ∷ registered (1 ∷ []) ∷ []

-- Draws with one second padding to pass over and a header drawn twice.
empty_set : check_packets [] ≡ none
unfolding check_packets
empty_set = refl

passed_over : All (λ b. (random_uint 15 150 0 + 56 == random_uint 15 150 b) ≡ true) (56 ∷ [])
unfolding random_uint
passed_over = (refl, tt)

taken : (random_uint 15 150 0 + 56 == random_uint 15 150 3) ≡ false
unfolding random_uint
taken = refl

enough : 4 ≤ new_headers [] (7 ∷ 7 ∷ 8 ∷ 9 ∷ 10 ∷ [])
unfolding new_headers random_uint seen
enough = omega arith

generate_returns_example :
    (g : Obfuscation) × (generate
        (record config.obfuscation { i = [] })
        (0 ∷ 56 ∷ 3 ∷ 7 ∷ 7 ∷ 8 ∷ 9 ∷ 10 ∷ [])
      ≡ some g)
    × (validate_obfuscation g ≡ none)
generate_returns_example =
    generate_returns (record config.obfuscation { i = [] }) 0 3 (56 ∷ []) (7 ∷ 7 ∷ 8 ∷ 9 ∷ 10 ∷ [])
      empty_set passed_over taken enough
