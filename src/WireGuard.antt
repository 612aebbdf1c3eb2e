-- ===== src/WireGuard.antt =====
-- services/wireguard/wireguard.go and types/peer.go: the peers of a WireGuard interface and their
-- tunnel addresses. The wg tool is not the repository's: `tool n` says whether its n-th run succeeds,
-- and `transfer` is what "wg show <interface> transfer" prints.
pub mod Transfer
pub mod Members
pub mod Fills
pub mod Leases
use dvpnd.Prelude.{
  ℕ, suc, ◌+◌, ◌≡◌, Bool, true, false, not, Option, none, some, List, [], ◌∷◌, ◌++◌, length, Bytes,
  bytes_eq, if◌then◌else◌,
}
use dvpnd.Prelude.Table.{lookup, erase}
use dvpnd.Prelude.Base64.{encode}
use dvpnd.Prelude.Results.{Err, Result, ok, err}
use dvpnd.Address.{Ip, replicate_zero}
use dvpnd.Pool.{Got, got, full, IpPool, release, get, release_pair}

pub record Peer : Type 0 where
  pub identity : Bytes
  pub ipv4 : Ip
  pub ipv6 : Ip

abbrev pub zero_peer : Peer
zero_peer = record { identity = []; ipv4 = 0 ∷ 0 ∷ 0 ∷ 0 ∷ []; ipv6 = replicate_zero 16 }

-- Peer.Empty
unfoldable pub peer_empty : Peer → Bool
peer_empty p = bytes_eq p.identity []

-- The map of Peers; Identity is the key.
abbrev pub Peers : Type 0
Peers = List Peer

abbrev pub identity_of : Peer → Bytes
identity_of p = p.identity

abbrev or_zero : Option Peer → Peer
or_zero none = zero_peer
or_zero (some p) = p

unfoldable pub get_peer : Peers → Bytes → Peer
get_peer ps key = or_zero (lookup identity_of key ps)

abbrev put_absent : Peers → Peer → Option Peer → Peers
put_absent ps p none = p ∷ ps
put_absent ps p (some old) = ps

unfoldable pub put_peer : Peers → Peer → Peers
put_peer ps p = put_absent ps p (lookup identity_of p.identity ps)

unfoldable pub delete_peer : Peers → Bytes → Peers
delete_peer ps key = erase identity_of key ps

unfoldable pub peers_len : Peers → ℕ
peers_len ps = length ps

pub record WireGuard : Type 0 where
  pub enable_ipv6 : Bool
  pub peers : Peers
  pub pool : IpPool
  pub tool : ℕ → Bool
  pub runs : ℕ
  pub transfer : Result Bytes

abbrev pub pool_full : Err
pool_full = 1

abbrev pub tool_failed : Err
tool_failed = 2

-- With IPv6 off the address goes back and the slot in the result is zero.
abbrev slot_v6 : Bool → Ip → Ip
slot_v6 true v6 = v6
slot_v6 false v6 = replicate_zero 16

abbrev pool_v6 : Bool → IpPool → Ip → IpPool
pool_v6 true p v6 = p
pool_v6 false p v6 = record p { v6 = release p.v6 v6 }

-- The end of AddPeer: the tool ran, and on failure the deferred release gives the addresses back.
abbrev configured : WireGuard → Bytes → Ip → Ip → Bool → Result Bytes × WireGuard
configured s identity v4 v6 true = (
  ok (v4 ++ v6),
  record s { peers = put_peer s.peers (record { identity = identity; ipv4 = v4; ipv6 = v6 }) },
)
configured s identity v4 v6 false = (err tool_failed, record s { pool = release_pair s.pool v4 v6 })

abbrev with_addresses : WireGuard → Bytes → Got (Ip × Ip) × IpPool → Result Bytes × WireGuard
with_addresses s identity (full, p) = (err pool_full, record s { pool = p })
with_addresses s identity (got (v4, v6), p) =
    configured (record s { pool = pool_v6 s.enable_ipv6 p v6; runs = suc s.runs }) identity v4
      (slot_v6 s.enable_ipv6 v6) (s.tool s.runs)

unfoldable pub add_peer : Bytes → WireGuard → Result Bytes × WireGuard
add_peer d s = with_addresses s (encode d) (get s.pool)

unfoldable pub has_peer : Bytes → WireGuard → Bool
unfolding get_peer peer_empty
has_peer d s = not (peer_empty (get_peer s.peers (encode d)))

abbrev forget : WireGuard → Peer → Bool → WireGuard
forget s p true = s
forget s p false = record s {
  peers = delete_peer s.peers p.identity;
  pool = release_pair s.pool p.ipv4 p.ipv6;
}

abbrev removed : WireGuard → Bytes → Bool → Option Err × WireGuard
removed s identity false = (some tool_failed, s)
removed s identity true = let p = get_peer s.peers identity in (none, forget s p (peer_empty p))

unfoldable pub remove_peer : Bytes → WireGuard → Option Err × WireGuard
remove_peer d s = removed (record s { runs = suc s.runs }) (encode d) (s.tool s.runs)

unfoldable pub peer_count : WireGuard → ℕ
unfolding peers_len
peer_count s = peers_len s.peers
