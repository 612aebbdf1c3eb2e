-- ===== src/V2Ray.antt =====
-- services/v2ray/v2ray.go and services/v2ray/types/peer.go: the peers of a v2ray child process, driven
-- through its control API. The gRPC client is not the repository's: `dials` says whether NewClient
-- gives a connection, and `api n` is what the process answers to the n-th call.
pub mod Settings
pub mod Emails
pub mod Fills
use dvpnd.Prelude.{
  ℕ, suc, ◌==◌, Bool, true, false, not, Option, none, some, List, [], ◌∷◌, ◌++◌, length, Bytes,
  bytes_eq, if◌then◌else◌,
}
use dvpnd.Prelude.Text.{ascii}
use dvpnd.Prelude.Int.{ℤ, pos}
use dvpnd.Prelude.Slices.{drop}
use dvpnd.Prelude.Table.{lookup, erase}
use dvpnd.Prelude.Base64.{encode}
use dvpnd.Prelude.Results.{Err, Result, ok, err}
use dvpnd.Service.{Usage}
use dvpnd.V2Ray.Settings.{proxy_string}

abbrev pub bad_length : Err
bad_length = 1

abbrev pub no_connection : Err
no_connection = 2

abbrev pub api_failed : Err
api_failed = 3

-- types.Peer
pub record Peer : Type 0 where
  pub email : Bytes

abbrev pub email_of : Peer → Bytes
email_of p = p.email

abbrev pub peer_empty : Peer → Bool
peer_empty p = bytes_eq p.email []

abbrev pub or_empty : Option Peer → Peer
or_empty none = record { email = [] }
or_empty (some p) = p

-- Peers.Get
unfoldable pub get_peer : Bytes → List Peer → Peer
get_peer key ps = or_empty (lookup email_of key ps)

abbrev pub put_absent : Peer → List Peer → Option Peer → List Peer
put_absent p ps none = p ∷ ps
put_absent p ps (some q) = ps

-- Peers.Put
unfoldable pub put_peer : Peer → List Peer → List Peer
put_peer p ps = put_absent p ps (lookup email_of p.email ps)

-- Peers.Delete
unfoldable pub delete_peer : Bytes → List Peer → List Peer
delete_peer key ps = erase email_of key ps

-- A call's outcome: done, with the value of a stat when there is one; an error that says "not found";
-- another error.
pub data Reply : Type 0 where
  done : Option ℤ → Reply
  not_found : Reply
  failed : Reply

-- The requests: the tag is the proxy's, and a proxy that is not known has no account.
pub data Request : Type 0 where
  add_user : Bytes → Bytes → Option Bytes → Request
  remove_user : Bytes → Bytes → Request
  get_stats : Bytes → Request

pub record V2Ray : Type 0 where
  pub peers : List Peer
  pub connected : Bool
  pub dials : Bool
  pub api : ℕ → Reply
  pub calls : ℕ
  pub sent : List Request

-- clientConn
unfoldable pub client_conn : V2Ray → Bool × V2Ray
client_conn s =
    if s.connected
    then (true, s)
    else if s.dials
    then (true, record s { connected = true })
    else (false, s)

unfoldable pub call : Request → V2Ray → Reply × V2Ray
call r s = (s.api s.calls, record s { calls = suc s.calls; sent = r ∷ s.sent })

abbrev pub proxy_of : Bytes → ℕ
proxy_of [] = 0
proxy_of (b ∷ d) = b

-- The account of a VMess user with this UUID; other proxies have none.
unfoldable pub proxy_account : ℕ → Bytes → Option Bytes
proxy_account p uid = if p == 1 then some uid else none

abbrev pub added : Bytes → Reply × V2Ray → Result Bytes × V2Ray
added email (done v, s) = (ok [], record s { peers = put_peer (record { email = email }) s.peers })
added email (not_found, s) = (err api_failed, s)
added email (failed, s) = (err api_failed, s)

abbrev pub add_over : Bytes → Bool × V2Ray → Result Bytes × V2Ray
unfolding call proxy_string proxy_account
add_over d (false, s) = (err no_connection, s)
add_over d (true, s) = added (encode d) (
    call (add_user (proxy_string (proxy_of d)) (encode d) (proxy_account (proxy_of d) (drop 1 d)))
      s)

-- AddPeer
unfoldable pub add_peer : Bytes → V2Ray → Result Bytes × V2Ray
unfolding client_conn add_over
add_peer d s = if length d == 17 then add_over d (client_conn s) else (err bad_length, s)

-- HasPeer
unfoldable pub has_peer : Bytes → V2Ray → Bool
unfolding get_peer
has_peer d s = not (peer_empty (get_peer (encode d) s.peers))

abbrev pub forgotten : Bytes → Reply × V2Ray → Option Err × V2Ray
unfolding delete_peer
forgotten email (failed, s) = (some api_failed, s)
forgotten email (done v, s) = (none, record s { peers = delete_peer email s.peers })
forgotten email (not_found, s) = (none, record s { peers = delete_peer email s.peers })

abbrev pub remove_over : Bytes → Bool × V2Ray → Option Err × V2Ray
unfolding call forgotten proxy_string
remove_over d (false, s) = (some no_connection, s)
remove_over d (true, s) =
    forgotten (encode d) (call (remove_user (proxy_string (proxy_of d)) (encode d)) s)

-- RemovePeer
unfoldable pub remove_peer : Bytes → V2Ray → Option Err × V2Ray
unfolding client_conn remove_over
remove_peer d s = if length d == 17 then remove_over d (client_conn s) else (some bad_length, s)

abbrev pub value_or_zero : Option ℤ → ℤ
value_or_zero none = pos 0
value_or_zero (some z) = z

-- The value that a GetStats call gives: none for an error other than "not found".
abbrev pub stat_value : Reply → Option ℤ
stat_value (done v) = some (value_or_zero v)
stat_value not_found = some (pos 0)
stat_value failed = none

unfoldable pub stat_name : Bytes → Bytes → Bytes
unfolding ascii
stat_name key direction = ascii "user>>>" ++ (key ++ (ascii ">>>traffic>>>" ++ direction))

abbrev pub both_stats : Bytes → Option ℤ → Option ℤ → Option Usage
both_stats key (some up) (some down) = some (record { key = key; upload = up; download = down })
both_stats key _ _ = none

-- One peer of `Peers`: the second call is made when the first did not fail.
abbrev pub second_stat : Bytes → Option ℤ → V2Ray → Option Usage × V2Ray
unfolding call stat_name ascii
second_stat key none s = (none, s)
second_stat key (some up) s =
    let down = call (get_stats (stat_name key (ascii "downlink"))) s in
    (both_stats key (some up) (stat_value down.0), down.1)

unfoldable pub peer_stats : Bytes → V2Ray → Option Usage × V2Ray
unfolding call stat_name second_stat ascii
peer_stats key s =
    let up = call (get_stats (stat_name key (ascii "uplink"))) s in
    second_stat key (stat_value up.0) up.1

abbrev pub push_usage : Usage → Result (List Usage) × V2Ray → Result (List Usage) × V2Ray
push_usage u (err e, s) = (err e, s)
push_usage u (ok us, s) = (ok (u ∷ us), s)

abbrev pub next_peer :
    (V2Ray → Result (List Usage) × V2Ray) → Option Usage × V2Ray → Result (List Usage) × V2Ray
next_peer rest (none, s) = (err api_failed, s)
next_peer rest (some u, s) = push_usage u (rest s)

-- Iterate over the peers, up to the first error.
unfoldable pub iterate : List Peer → V2Ray → Result (List Usage) × V2Ray
unfolding peer_stats
iterate [] s = (ok [], s)
iterate (p ∷ ps) s = next_peer (iterate ps) (peer_stats p.email s)

abbrev pub peers_over : Bool × V2Ray → Result (List Usage) × V2Ray
unfolding iterate
peers_over (false, s) = (err no_connection, s)
peers_over (true, s) = iterate s.peers s

-- Peers
unfoldable pub peers : V2Ray → Result (List Usage) × V2Ray
unfolding client_conn peers_over
peers s = peers_over (client_conn s)

-- PeerCount
unfoldable pub peer_count : V2Ray → ℕ
peer_count s = length s.peers
