-- ===== src/Xray.antt =====
-- services/xray/xray.go: the peers of an xray child process, driven through its control API. The gRPC
-- client is not the repository's: `dials` says whether NewClient gives a connection, and `api n` is
-- what the process answers to the n-th call.
pub mod Loops
pub mod Fields
pub mod Wire
pub mod Stats
pub mod Replies
pub mod Answers
pub mod Fills
pub mod Counters
use dvpnd.Prelude.{
  ℕ, suc, ◌==◌, ◌≡◌, Bool, true, false, ◌&&◌, not, Option, none, some, List, [], ◌∷◌, ◌++◌, length,
  Bytes, map, if◌then◌else◌,
}
use dvpnd.Prelude.Text.{ascii}
use dvpnd.Prelude.Int.{ℤ, pos}
use dvpnd.Prelude.Slices.{drop}
use dvpnd.Prelude.Table.{lookup}
use dvpnd.Prelude.Base64.{encode}
use dvpnd.Prelude.Results.{Err, Result, ok, err}
use dvpnd.Service.{Usage}
use dvpnd.PeerSet.{PeerSet, has, put, delete, len}
use dvpnd.Uuid.{format_uuid}
use dvpnd.Xray.Fields.{Protowire}
use dvpnd.Xray.Wire.{
  Stat, name_of, add_user_request, remove_user_request, query_stats_request,
  parse_query_stats_response,
}

abbrev pub bad_peer_data : Err
bad_peer_data = 1

abbrev pub no_connection : Err
no_connection = 2

abbrev pub api_failed : Err
api_failed = 3

-- The process's answer to a call: reply bytes, an error that says "not found", or another error.
pub data Reply : Type 0 where
  replied : Bytes → Reply
  not_found : Reply
  failed : Reply

-- The methods the node calls, with the request's bytes.
pub data Call : Type 0 where
  alter_inbound : Bytes → Call
  query_stats : Bytes → Call

pub record Xray : Type 0 where
  pub flow : Bool
  pub peers : PeerSet
  pub connected : Bool
  pub dials : Bool
  pub api : ℕ → Reply
  pub calls : ℕ
  pub sent : List Call

-- clientConn
unfoldable pub client_conn : Xray → Bool × Xray
client_conn s =
    if s.connected
    then (true, s)
    else if s.dials
    then (true, record s { connected = true })
    else (false, s)

-- invoke
unfoldable pub invoke : Call → Xray → Reply × Xray
invoke c s = (s.api s.calls, record s { calls = suc s.calls; sent = c ∷ s.sent })

abbrev proxy_vless : ℕ
proxy_vless = 1

abbrev pub leads_vless : Bytes → Bool
leads_vless [] = false
leads_vless (b ∷ bs) = b == proxy_vless

unfoldable pub check_peer_data : Bytes → Bool
check_peer_data d = length d == 17 && leads_vless d

abbrev pub value_or_zero : Option Stat → ℤ
value_or_zero none = pos 0
value_or_zero (some s) = s.value

-- `counters[name]`
unfoldable pub counter : Bytes → List Stat → ℤ
counter name stats = value_or_zero (lookup name_of name stats)

unfoldable pub uplink : Bytes → Bytes
unfolding ascii
uplink key = ascii "user>>>" ++ (key ++ ascii ">>>traffic>>>uplink")

unfoldable pub downlink : Bytes → Bytes
unfolding ascii
downlink key = ascii "user>>>" ++ (key ++ ascii ">>>traffic>>>downlink")

unfoldable pub usage_of : List Stat → Bytes → Usage
unfolding counter uplink downlink
usage_of stats key = record {
  key = key;
  upload = counter (uplink key) stats;
  download = counter (downlink key) stats;
}

abbrev pub added : Bytes → Reply × Xray → Result Bytes × Xray
added key (replied b, s) = (ok [], record s { peers = put key s.peers })
added key (not_found, s) = (err api_failed, s)
added key (failed, s) = (err api_failed, s)

abbrev pub forgotten : Bytes → Reply × Xray → Option Err × Xray
forgotten key (failed, s) = (some api_failed, s)
forgotten key (replied b, s) = (none, record s { peers = delete key s.peers })
forgotten key (not_found, s) = (none, record s { peers = delete key s.peers })

-- None, the end of the parser's fuel, never comes.
abbrev pub reported : PeerSet → Option (Result (List Stat)) → Result (List Usage)
reported p none = err api_failed
reported p (some (err e)) = err e
reported p (some (ok stats)) = ok (map (usage_of stats) p.keys)

unfoldable pub has_peer : Bytes → Xray → Bool
has_peer d s = has (encode d) s.peers

unfoldable pub peer_count : Xray → ℕ
peer_count s = len s.peers

module _ (w : Protowire) where
  unfoldable pub add_user : Bytes → Xray → Call
  unfolding ascii
  add_user d s = alter_inbound (
      add_user_request w (ascii "vless") (encode d) (format_uuid (drop 1 d))
        (if s.flow then ascii "xtls-rprx-vision" else []))

  unfoldable pub add_over : Bytes → Bool × Xray → Result Bytes × Xray
  unfolding invoke add_user
  add_over d (false, s) = (err no_connection, s)
  add_over d (true, s) = added (encode d) (invoke (add_user d s) s)

  -- AddPeer
  unfoldable pub add_peer : Bytes → Xray → Result Bytes × Xray
  unfolding check_peer_data client_conn add_over
  add_peer d s = if check_peer_data d then add_over d (client_conn s) else (err bad_peer_data, s)

  unfoldable pub remove_over : Bytes → Bool × Xray → Option Err × Xray
  unfolding invoke ascii
  remove_over d (false, s) = (some no_connection, s)
  remove_over d (true, s) =
      forgotten (encode d)
        (invoke (alter_inbound (remove_user_request w (ascii "vless") (encode d))) s)

  -- RemovePeer
  unfoldable pub remove_peer : Bytes → Xray → Option Err × Xray
  unfolding check_peer_data client_conn remove_over
  remove_peer d s =
      if check_peer_data d then remove_over d (client_conn s) else (some bad_peer_data, s)

  abbrev pub read_stats : Reply × Xray → Result (List Usage) × Xray
  read_stats (replied b, s) = (reported s.peers (parse_query_stats_response w b), s)
  read_stats (not_found, s) = (err api_failed, s)
  read_stats (failed, s) = (err api_failed, s)

  unfoldable pub peers_over : Bool × Xray → Result (List Usage) × Xray
  unfolding invoke ascii
  peers_over (false, s) = (err no_connection, s)
  peers_over (true, s) =
      read_stats (invoke (query_stats (query_stats_request w (ascii "user>>>") false)) s)

  -- Peers
  unfoldable pub peers : Xray → Result (List Usage) × Xray
  unfolding client_conn peers_over
  peers s = peers_over (client_conn s)
