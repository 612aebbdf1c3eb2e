-- ===== src/Tests/Clients.antt =====
-- Lines of OpenVPN's management interface, a client that leaves, and a signed handshake.
use dvpnd.Prelude.{
  ℕ, ◌≡◌, refl, ◌⊎◌, true, false, Option, none, some, List, [], ◌∷◌, ◌++◌, Bytes, bytes_eq,
  bytes_eq-true, if◌then◌else◌, arith,
}
use mathlib.Core.Path.{subst}
use dvpnd.Prelude.Text.{ascii}
use dvpnd.Prelude.Int.{pos}
use dvpnd.Prelude.Slices.{drop, has_prefix, slice, Plain}
use dvpnd.Prelude.Table.{lookup}
use dvpnd.Prelude.Hex.{encode_hex, hex_digit}
use dvpnd.Prelude.Base64.{encode, decode}
use dvpnd.Prelude.Base64.RoundTrip.{decode-encode}
use dvpnd.Prelude.Results.{Err, ok, err}
use dvpnd.Service.{IsPeerData}
use dvpnd.Address.{replicate_zero}
use dvpnd.Uuid.{format_uuid, dashed}
use dvpnd.PeerSet.{new_peer_set}
use dvpnd.WireGuard.Fills.{service, service_laws}
use dvpnd.OpenVpn.{
  OpenVpn, Holder, holder_name, add_peer, admit, has_peer, live_row, usage_of, disconnected,
}
use dvpnd.OpenVpn.Status.{ClientStatus}
use dvpnd.OpenVpn.Admits.{started, adding}
use dvpnd.OpenVpn.Management.{
  Management, Variable, connect, new_event, event_name, env_value, send, auth_command, deny_command,
  read_lines, ends_reply,
}
use dvpnd.OpenVpn.Clients.{connect_line, variable_lines, with_all, read_lines-connect}
use dvpnd.OpenVpn.Replies.{Reply, reply_lines, all_lines, Answers, answered, read_lines-answered}
use dvpnd.OpenVpn.Handover.{filed_under, usage_of-disconnected}
use dvpnd.Handshake.{Body, Front, big_endian64, verify_handshake, handler_handshake, http_error}
use dvpnd.Handshake.Binding.{verify_handshake-Bound}
use dvpnd.Handshake.Authentic.{Authentic, handler_handshake-Authentic}
use dvpnd.Tests.World.{
  are_bytes-All, peer_data, peer_data-IsPeerData, table, table_laws, settings, chain, world,
}
use dvpnd.Tests.Services.{id, id-IsUuid}

abbrev issue : ℕ → Bytes → Option (Bytes × Bytes)
issue n name = some (1 ∷ [], 2 ∷ [])

abbrev empty_server : OpenVpn
empty_server = record {
  by_cn = [];
  closed = [];
  peers = new_peer_set;
  pki = true;
  issue = issue;
  issued = 0;
  mgmt = none;
}

abbrev idle : Management
idle = record { queue = record { pending = []; closed = [] }; current = none }

abbrev cid : Bytes
cid = b'5' ∷ []

abbrev kid : Bytes
kid = b'1' ∷ []

abbrev variables : List Variable
unfolding ascii
variables = record { name = ascii "common_name"; value = format_uuid id } ∷ []

named : event_name (with_all (new_event connect (cid, kid, true)) variables) ≡ format_uuid id
unfolding event_name with_all new_event env_value lookup bytes_eq variables ascii format_uuid dashed
    slice encode_hex hex_digit
named = refl

Plain-name : Plain b'=' (ascii "common_name")
unfolding ascii
Plain-name =
    (refl, (refl, (refl, (refl, (refl, (refl, (refl, (refl, (refl, (refl, (refl, tt)))))))))))

read_lines-connect_example :
    read_lines
      (λ name. admit name (add_peer id empty_server).1)
      (connect_line cid kid ∷ variable_lines variables)
      idle
    ≡ (
      record idle { current = none },
      (if has_peer id (add_peer id empty_server).1
            then send (auth_command cid kid)
            else send (deny_command cid kid))
          ∷ [],
    )
unfolding variables ascii
read_lines-connect_example =
    read_lines-connect (add_peer id empty_server).1 idle id cid kid variables
      (adding id empty_server (are_bytes-All id refl) (started true issue)) id-IsUuid (refl, tt)
      (Plain-name, tt) named

abbrev waiting : Management
waiting = record {
  queue = record {
    pending = record { multi = true; lines = [] } ∷ record { multi = false; lines = [] } ∷ [];
    closed = [];
  };
  current = none;
}

abbrev end_reply : Bytes
end_reply = b'E' ∷ b'N' ∷ b'D' ∷ []

abbrev table_reply : Reply
table_reply = record { body = (b'x' ∷ []) ∷ []; end = end_reply }

abbrev mixed : List Bytes
mixed = (b'>' ∷ b'I' ∷ []) ∷ (b'x' ∷ []) ∷ (b'>' ∷ b'I' ∷ []) ∷ end_reply ∷ []

just_replies : reply_lines mixed ≡ all_lines (table_reply ∷ [])
unfolding reply_lines all_lines has_prefix ascii
just_replies = refl

complete : Answers (record { multi = true; lines = [] } ∷ []) (table_reply ∷ [])
unfolding ends_reply has_prefix ascii bytes_eq
complete = ((refl, tt), refl, tt)

read_lines-answered_example : (read_lines (λ name. false) mixed waiting).0.queue ≡ record {
  pending = record { multi = false; lines = [] } ∷ [];
  closed = [] ++ answered (record { multi = true; lines = [] } ∷ []) (table_reply ∷ []);
}
read_lines-answered_example =
    read_lines-answered (λ name. false) mixed waiting (record { multi = true; lines = [] } ∷ [])
      (record { multi = false; lines = [] } ∷ []) (table_reply ∷ []) refl just_replies complete

abbrev holder : Holder
holder = record { common_name = b'c' ∷ []; key = b'k' ∷ [] }

abbrev server : OpenVpn
server = record empty_server {
  by_cn = holder ∷ [];
  closed = record { key = b'k' ∷ []; upload = pos 10; download = pos 20 } ∷ [];
}

abbrev live : ClientStatus
live = record { common_name = b'c' ∷ []; received = pos 3; sent = pos 4; cid = cid }

one_name : filed_under holder.key server.by_cn ≡ holder ∷ []
unfolding filed_under bytes_eq
one_name = refl

held : lookup holder_name holder.common_name server.by_cn ≡ some holder
unfolding lookup bytes_eq
held = refl

was_live : live_row holder.common_name (live ∷ []) ≡ some live
unfolding live_row bytes_eq
was_live = refl

gone : live_row holder.common_name [] ≡ none
unfolding live_row
gone = refl

usage_of-disconnected_example :
    usage_of (disconnected holder.common_name live.received live.sent server) [] holder.key
    ≡ usage_of server (live ∷ []) holder.key
usage_of-disconnected_example =
    usage_of-disconnected server holder live (live ∷ []) [] one_name held was_live gone

abbrev key : Bytes
key = 2 ∷ replicate_zero 32

abbrev front : Front
front = record {
  verify_signature = λ k m s. bytes_eq m (big_endian64 7 ++ peer_data);
  address = λ k. 4 ∷ [];
  parse_peer_request = λ raw. ok peer_data;
  payload = λ peer. ok peer;
  ipv4 = b'1' ∷ [];
  remote_host = [];
  sign_reply = λ id raw reply addrs. none;
}

abbrev body : Body
unfolding ascii
body = record {
  peer_request = encode peer_data;
  id = 7;
  pub_key = ascii "secp256k1:" ++ encode key;
  signature = encode peer_data;
}

sent_key : decode (drop 10 body.pub_key) ≡ some key
unfolding body ascii replicate_zero
sent_key = decode-encode key (are_bytes-All key refl)

verify_handshake-Bound_example :
    ((e : Err) × (verify_handshake front body ≡ err e))
    ⊎ ((verify_handshake front body ≡ ok (front.address key, peer_data)) × (body.id ≡ 7))
verify_handshake-Bound_example =
    verify_handshake-Bound front body key 7 peer_data (unfold body in omega arith) (omega arith)
      sent_key (λ m s h. bytes_eq-true m (big_endian64 7 ++ peer_data) h)

parses : (raw d : Bytes) → front.parse_peer_request raw ≡ ok d → IsPeerData d
parses raw d h = let same : peer_data ≡ d = cc in subst IsPeerData same peer_data-IsPeerData

handler_handshake-Authentic_example :
    ((status : ℕ) × (code : ℕ) × ((handler_handshake table service front settings chain
          (some body)
          world).0
        ≡ http_error status code))
    ⊎ ((raw : Bytes) × Authentic table service front settings chain body raw)
handler_handshake-Authentic_example =
    handler_handshake-Authentic table service front settings chain body table_laws service_laws
      parses world tt
