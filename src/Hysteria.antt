-- ===== src/Hysteria.antt =====
-- services/hysteria/hysteria.go: the peers of a hysteria child process, which asks the node about each
-- client. The HTTP client is not the repository's: `api n` is what the process's statistics API
-- answers to the n-th call.

pub mod Auth
pub mod Totals
use dvpnd.Prelude.{
  ℕ, suc, ◌==◌, ◌≡◌, Bool, true, false, not, Option, none, some, List, [], ◌∷◌, length, Bytes,
  bytes_eq, map, if◌then◌else◌,
}
use dvpnd.Prelude.Int.{ℤ, pos, ◌+ℤ◌, wrap64}
use dvpnd.Prelude.Table.{lookup, erase}
use dvpnd.Prelude.Base64.{encode}
use dvpnd.Prelude.Results.{Err, Result, ok, err}
use dvpnd.Service.{Usage}
use dvpnd.PeerSet.{PeerSet, has, put, delete, len}
use dvpnd.Uuid.{format_uuid}

abbrev pub bad_peer_data : Err
bad_peer_data = 1

abbrev pub api_failed : Err
api_failed = 2

abbrev pub bad_status : Err
bad_status = 3

abbrev pub bad_body : Err
bad_body = 4

-- An entry of byAuth: the canonical UUID and the session key.
pub record Login : Type 0 where
  pub uuid : Bytes
  pub key : Bytes

abbrev pub login_uuid : Login → Bytes
login_uuid l = l.uuid

-- An entry of traffic: the session key and its counters.
pub record Counters : Type 0 where
  pub key : Bytes
  pub upload : ℤ
  pub download : ℤ

abbrev pub counters_key : Counters → Bytes
counters_key c = c.key

-- What one id used since the last read.
pub record Delta : Type 0 where
  pub id : Bytes
  pub tx : ℤ
  pub rx : ℤ

-- The API's answer: no response, or a status with the body as the JSON decoder reads it.
pub data Answer : Type 0 where
  unreachable : Answer
  answered : ℕ → Option (List Delta) → Answer

pub record Hysteria : Type 0 where
  pub by_auth : List Login
  pub traffic : List Counters
  pub peers : PeerSet
  pub api : ℕ → Answer
  pub calls : ℕ

-- What the auth hook answers; the password is none when the body is not decoded.
pub data AuthReply : Type 0 where
  http_error : ℕ → AuthReply
  refused : AuthReply
  admitted : Bytes → AuthReply

abbrev pub auth_reply : Option Login → AuthReply
auth_reply none = refused
auth_reply (some l) = admitted l.key

abbrev pub decoded_auth : Hysteria → Option Bytes → AuthReply
decoded_auth s none = http_error 400
decoded_auth s (some auth) = auth_reply (lookup login_uuid auth s.by_auth)

-- handleAuth
unfoldable pub handle_auth : Bool → Option Bytes → Hysteria → AuthReply
handle_auth is_post auth s = if not is_post then http_error 405 else decoded_auth s auth

unfoldable pub check_peer_data : Bytes → Bool
check_peer_data d = length d == 16

abbrev pub with_counters : Bytes → List Counters → Option Counters → List Counters
with_counters key cs none = record { key = key; upload = pos 0; download = pos 0 } ∷ cs
with_counters key cs (some c) = cs

unfoldable pub register : Bytes → Hysteria → Hysteria
register d s = record s {
  by_auth =
      record { uuid = format_uuid d; key = encode d } ∷ erase login_uuid (format_uuid d) s.by_auth;
  traffic = with_counters (encode d) s.traffic (lookup counters_key (encode d) s.traffic);
  peers = put (encode d) s.peers;
}

-- AddPeer
unfoldable pub add_peer : Bytes → Hysteria → Result Bytes × Hysteria
unfolding check_peer_data register
add_peer d s = if check_peer_data d then (ok [], register d s) else (err bad_peer_data, s)

-- HasPeer
unfoldable pub has_peer : Bytes → Hysteria → Bool
has_peer d s = has (encode d) s.peers

unfoldable pub forget : Bytes → Hysteria → Hysteria
forget d s = record s {
  by_auth = erase login_uuid (format_uuid d) s.by_auth;
  traffic = erase counters_key (encode d) s.traffic;
  peers = delete (encode d) s.peers;
  calls = suc s.calls;
}

abbrev pub kicked : Answer → Option Err
kicked unreachable = some api_failed
kicked (answered status body) = if status == 200 then none else some bad_status

-- RemovePeer: the peer is forgotten first, then its connection is kicked.
unfoldable pub remove_peer : Bytes → Hysteria → Option Err × Hysteria
unfolding check_peer_data forget
remove_peer d s =
    if check_peer_data d then (kicked (s.api s.calls), forget d s) else (some bad_peer_data, s)

-- `c.upload += d.Tx`, on the entry of this id.
unfoldable pub count_delta : Delta → List Counters → List Counters
count_delta d [] = []
count_delta d (c ∷ cs) =
    let rest = count_delta d cs in
    if bytes_eq c.key d.id
    then record c { upload = wrap64 (c.upload +ℤ d.tx); download = wrap64 (c.download +ℤ d.rx) }
      ∷ rest
    else c ∷ rest

unfoldable pub count_all : List Delta → List Counters → List Counters
unfolding count_delta
count_all [] cs = cs
count_all (d ∷ ds) cs = count_all ds (count_delta d cs)

abbrev pub usage_from : Bytes → Option Counters → Usage
usage_from key none = record { key = key; upload = pos 0; download = pos 0 }
usage_from key (some c) = record { key = key; upload = c.upload; download = c.download }

unfoldable pub usage_of : List Counters → Bytes → Usage
usage_of cs key = usage_from key (lookup counters_key key cs)

abbrev pub totals : Hysteria → Result (List Usage) × Hysteria
unfolding usage_of
totals s = (ok (map (usage_of s.traffic) s.peers.keys), s)

abbrev pub counted : Hysteria → Option (List Delta) → Result (List Usage) × Hysteria
unfolding count_all
counted s none = (err bad_body, s)
counted s (some ds) = totals (record s { traffic = count_all ds s.traffic })

unfoldable pub read_answer : Hysteria → Answer → Result (List Usage) × Hysteria
unfolding totals counted
read_answer s unreachable = (err api_failed, s)
read_answer s (answered status body) = if status == 200 then counted s body else (err bad_status, s)

-- Peers
unfoldable pub peers : Hysteria → Result (List Usage) × Hysteria
unfolding read_answer
peers s = read_answer (record s { calls = suc s.calls }) (s.api s.calls)

-- PeerCount
unfoldable pub peer_count : Hysteria → ℕ
peer_count s = len s.peers
