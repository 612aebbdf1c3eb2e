-- ===== src/OpenVpn.antt =====
-- services/openvpn/openvpn.go: the peers of an OpenVPN server, which asks the node about each client
-- over its management interface. The certificates are not modelled: `issue n` is what issueClient
-- gives for its n-th call, the certificate and the key, or its error.
pub mod Management
pub mod Status
pub mod Replies
pub mod Admits
pub mod Clients
pub mod Handover
use dvpnd.Prelude.{
  ℕ, suc, ◌==◌, ◌/◌, ◌%◌, Bool, true, false, not, Option, none, some, List, [], ◌∷◌, ◌++◌, length,
  Bytes, bytes_eq, map, if◌then◌else◌,
}
use dvpnd.Prelude.Int.{ℤ, pos, ◌+ℤ◌, wrap64}
use dvpnd.Prelude.Table.{lookup, erase}
use dvpnd.Prelude.Base64.{encode}
use dvpnd.Prelude.Results.{Err, Result, ok, err}
use dvpnd.Service.{Usage}
use dvpnd.PeerSet.{PeerSet, has, put, delete, len}
use dvpnd.Uuid.{format_uuid}
use dvpnd.OpenVpn.Status.{ClientStatus, Console, status, kill}

abbrev pub bad_peer_data : Err
bad_peer_data = 1

abbrev pub not_initialised : Err
not_initialised = 2

abbrev pub not_issued : Err
not_issued = 3

-- An entry of byCN: a certificate's common name and the session key.
pub record Holder : Type 0 where
  pub common_name : Bytes
  pub key : Bytes

abbrev pub holder_name : Holder → Bytes
holder_name h = h.common_name

-- An entry of closed: the traffic of a session's ended connections.
pub record Traffic : Type 0 where
  pub key : Bytes
  pub upload : ℤ
  pub download : ℤ

abbrev pub traffic_key : Traffic → Bytes
traffic_key t = t.key

pub record OpenVpn : Type 0 where
  pub by_cn : List Holder
  pub closed : List Traffic
  pub peers : PeerSet
  pub pki : Bool
  pub issue : ℕ → Bytes → Option (Bytes × Bytes)
  pub issued : ℕ
  pub mgmt : Option Console

abbrev pub is_held : Option Holder → Bool
is_held none = false
is_held (some h) = true

-- admit
unfoldable pub admit : Bytes → OpenVpn → Bool
admit common_name s = is_held (lookup holder_name common_name s.by_cn)

-- `c.upload += received`, on the entry of this session, which is made when it is missing.
unfoldable pub add_traffic : Bytes → ℤ → ℤ → List Traffic → List Traffic
add_traffic key up down [] = []
add_traffic key up down (t ∷ ts) =
    let rest = add_traffic key up down ts in
    if bytes_eq t.key key
    then record t { upload = wrap64 (t.upload +ℤ up); download = wrap64 (t.download +ℤ down) }
      ∷ rest
    else t ∷ rest

abbrev pub with_traffic : Bytes → List Traffic → Option Traffic → List Traffic
with_traffic key ts none = record { key = key; upload = pos 0; download = pos 0 } ∷ ts
with_traffic key ts (some t) = ts

abbrev pub banked : ℤ → ℤ → OpenVpn → Option Holder → OpenVpn
unfolding add_traffic
banked up down s none = s
banked up down s (some h) = record s {
  closed =
      add_traffic h.key up down (with_traffic h.key s.closed (lookup traffic_key h.key s.closed));
}

-- disconnected
unfoldable pub disconnected : Bytes → ℤ → ℤ → OpenVpn → OpenVpn
unfolding banked
disconnected common_name received sent s =
    banked received sent s (lookup holder_name common_name s.by_cn)

unfoldable pub check_peer_data : Bytes → Bool
check_peer_data d = length d == 16

-- binary.BigEndian.PutUint32 of a length, converted to 32 bits
unfoldable pub big_endian32 : ℕ → Bytes
big_endian32 n = n / 16777216 % 256 ∷ n / 65536 % 256 ∷ n / 256 % 256 ∷ n % 256 ∷ []

unfoldable pub register : Bytes → OpenVpn → OpenVpn
register d s = record s {
  by_cn =
      record { common_name = format_uuid d; key = encode d }
      ∷ erase holder_name (format_uuid d) s.by_cn;
  closed = with_traffic (encode d) s.closed (lookup traffic_key (encode d) s.closed);
  peers = put (encode d) s.peers;
}

abbrev pub issued_to : Bytes → OpenVpn → Option (Bytes × Bytes) → Result Bytes × OpenVpn
unfolding big_endian32 register
issued_to d s none = (err not_issued, s)
issued_to d s (some (cert, key)) = (ok (big_endian32 (length cert) ++ (cert ++ key)), register d s)

-- AddPeer
unfoldable pub add_peer : Bytes → OpenVpn → Result Bytes × OpenVpn
unfolding check_peer_data issued_to
add_peer d s =
    if not (check_peer_data d)
    then (err bad_peer_data, s)
    else if not s.pki
    then (err not_initialised, s)
    else issued_to d (record s { issued = suc s.issued }) (s.issue s.issued (format_uuid d))

-- HasPeer
unfoldable pub has_peer : Bytes → OpenVpn → Bool
has_peer d s = has (encode d) s.peers

unfoldable pub forget : Bytes → OpenVpn → OpenVpn
forget d s = record s {
  by_cn = erase holder_name (format_uuid d) s.by_cn;
  closed = erase traffic_key (encode d) s.closed;
  peers = delete (encode d) s.peers;
}

abbrev pub killed_in : OpenVpn → Option Err × Console → Option Err × OpenVpn
killed_in s (e, c) = (e, record s { mgmt = some c })

abbrev pub killed : Bytes → OpenVpn → Option Console → Option Err × OpenVpn
unfolding kill
killed common_name s none = (none, s)
killed common_name s (some c) = killed_in s (kill common_name c)

-- RemovePeer: the peer is forgotten first, then its connections are killed.
unfoldable pub remove_peer : Bytes → OpenVpn → Option Err × OpenVpn
unfolding check_peer_data forget killed
remove_peer d s =
    if check_peer_data d
    then killed (format_uuid d) (forget d s) s.mgmt
    else (some bad_peer_data, s)

abbrev pub or_row : Option ClientStatus → Option ClientStatus → Option ClientStatus
or_row none o = o
or_row (some r) o = some r

-- `live[name]`: the last row of the name stands.
unfoldable pub live_row : Bytes → List ClientStatus → Option ClientStatus
live_row name [] = none
live_row name (r ∷ rows) =
    let rest = live_row name rows in
    or_row rest (if bytes_eq r.common_name name then some r else none)

abbrev pub plus_live : Usage → Option ClientStatus → Usage
plus_live u none = u
plus_live u (some r) = record u {
  upload = wrap64 (u.upload +ℤ r.received);
  download = wrap64 (u.download +ℤ r.sent);
}

-- The live rows of every common name that is filed under the key.
unfoldable pub add_live : Bytes → List ClientStatus → List Holder → Usage → Usage
unfolding live_row
add_live key rows [] u = u
add_live key rows (h ∷ hs) u =
    add_live key rows hs
      (if bytes_eq h.key key then plus_live u (live_row h.common_name rows) else u)

abbrev pub banked_usage : Bytes → Option Traffic → Usage
banked_usage key none = record { key = key; upload = pos 0; download = pos 0 }
banked_usage key (some t) = record { key = key; upload = t.upload; download = t.download }

unfoldable pub usage_of : OpenVpn → List ClientStatus → Bytes → Usage
unfolding add_live
usage_of s rows key = add_live key rows s.by_cn (banked_usage key (lookup traffic_key key s.closed))

abbrev pub usages : OpenVpn → Result (List ClientStatus) × Console → Result (List Usage) × OpenVpn
unfolding usage_of
usages s (err e, c) = (err e, record s { mgmt = some c })
usages s (ok rows, c) = (ok (map (usage_of s rows) s.peers.keys), record s { mgmt = some c })

abbrev pub read_usages : OpenVpn → Option Console → Result (List Usage) × OpenVpn
unfolding usage_of usages status
read_usages s none = (ok (map (usage_of s []) s.peers.keys), s)
read_usages s (some c) = usages s (status c)

-- Peers
unfoldable pub peers : OpenVpn → Result (List Usage) × OpenVpn
unfolding read_usages
peers s = read_usages s s.mgmt

-- PeerCount
unfoldable pub peer_count : OpenVpn → ℕ
peer_count s = len s.peers
