-- ===== src/Tests/Services.antt =====
-- A UUID, an xray process that answers in a simple wire format, a hysteria process and an empty v2ray.
use dvpnd.Prelude.{
  ℕ, suc, ◌<◌, ◌≡◌, refl, ap, true, false, Option, none, some, List, [], ◌∷◌, ◌++◌, map, length,
  Bytes, bytes_eq, leb, ◌==◌, if◌then◌else◌, arith,
}
use dvpnd.Prelude.Text.{ascii}
use dvpnd.Prelude.Int.{pos, wrap64}
use dvpnd.Prelude.Slices.{take}
use dvpnd.Prelude.Table.{lookup}
use dvpnd.Prelude.Base64.{encode}
use dvpnd.Prelude.Results.{Result, ok}
use dvpnd.Service.{IsPeerData, Added, Removed}
use dvpnd.PeerSet.{new_peer_set}
use dvpnd.Uuid.{format_uuid, uuid_from_json, numbers, text}
use dvpnd.Uuid.RoundTrip.{IsUuid}
use dvpnd.Uuid.Request.{uuid_from_json_forms}
use dvpnd.Xray.{Xray, replied, uplink, downlink, peers, add_peer, remove_peer}
use dvpnd.Xray.Fields.{Protowire, WireLaws}
use dvpnd.Xray.Wire.{Stat, parse_stat, parse_query_stats_response}
use dvpnd.Xray.Stats.{parse_query_stats_response-returns}
use dvpnd.Xray.Replies.{Counter, reply_message}
use dvpnd.Xray.Counters.{told, last_count, peers-told}
use dvpnd.Xray.Answers.{AddAnswer, RemoveAnswer}
use dvpnd.Xray.Fills.{service as xray_service, xray_promises}
use dvpnd.V2Ray.{V2Ray, done, add_peer as v2ray_add, remove_peer as v2ray_remove}
use dvpnd.V2Ray.Fills.{service as v2ray_service, v2ray_promises}
use dvpnd.Hysteria.{
  Hysteria, Answer, unreachable, answered, refused, admitted, counters_key, handle_auth,
  add_peer as hysteria_add, remove_peer as hysteria_remove, has_peer as hysteria_has,
  peers as hysteria_peers,
}
use dvpnd.Hysteria.Auth.{started, adding, handle_auth-peers, remove_peer-forgets}
use dvpnd.Hysteria.Totals.{usage_after, peers-usage_after}
use dvpnd.Tests.World.{are_bytes-All, peer_data, peer_data-IsPeerData}

abbrev pub id : Bytes
id = 1 ∷ 2 ∷ 3 ∷ 4 ∷ 5 ∷ 6 ∷ 7 ∷ 8 ∷ 9 ∷ 10 ∷ 11 ∷ 12 ∷ 13 ∷ 14 ∷ 15 ∷ 255 ∷ []

pub id-IsUuid : IsUuid id
id-IsUuid = (refl, are_bytes-All id refl)

uuid_from_json_forms_example :
    (uuid_from_json (some (numbers id)) ≡ ok id)
    × (uuid_from_json (some (text (format_uuid id))) ≡ ok id)
uuid_from_json_forms_example = uuid_from_json_forms id id-IsUuid

-- One number for a length, a tag's parts or a value.
abbrev tag_of : Bytes → Option (ℕ × ℕ × ℕ)
tag_of (num ∷ typ ∷ s) = some (num, typ, 2)
tag_of _ = none

abbrev bytes_of : Bytes → Option (Bytes × ℕ)
bytes_of [] = none
bytes_of (n ∷ s) = if leb n (length s) then some (take n s, suc n) else none

abbrev value_of : Bytes → Option (ℕ × ℕ)
value_of [] = none
value_of (v ∷ s) = some (v, 1)

abbrev wire : Protowire
wire = record {
  append_tag = λ b num typ. b ++ (num ∷ typ ∷ []);
  append_bytes = λ b v. b ++ (length v ∷ v);
  append_varint = λ b v. b ++ (v ∷ []);
  consume_tag = tag_of;
  consume_field_value = λ num typ b. none;
  consume_bytes = bytes_of;
  consume_varint = value_of;
}

enough : (v rest : Bytes) → leb (length v) (length (v ++ rest)) ≡ true
enough [] rest = ground arith
enough (x ∷ v) rest = let e = enough v rest in ground arith

take-word : (v rest : Bytes) → take (length v) (v ++ rest) ≡ v
take-word [] rest = refl
take-word (x ∷ v) rest = ap (λ ys. x ∷ ys) (take-word v rest)

bytes-back : (v rest : Bytes) → bytes_of (length v ∷ (v ++ rest)) ≡ some (v, suc (length v))
bytes-back v rest = rw (enough v rest, take-word v rest) refl

tag-positive : (b : Bytes) (num typ n : ℕ) → tag_of b ≡ some (num, typ, n) → 0 < n
tag-positive [] num typ n h = cc
tag-positive (x ∷ []) num typ n h = cc
tag-positive (x ∷ y ∷ s) num typ n h = let e : ◌≡◌ {A = ℕ} 2 n = cc in omega (arith, e)

wire_laws : WireLaws wire
wire_laws = record {
  tag-appends = λ b num typ. refl;
  bytes-appends = λ b v. refl;
  varint-appends = λ b v. refl;
  tag-back = λ num typ rest h. refl;
  bytes-back = bytes-back;
  varint-back = λ v rest h. refl;
  tag-positive = tag-positive;
}

abbrev counters : List Counter
counters =
    record { name = uplink (1 ∷ []); count = 5 }
    ∷ record { name = downlink (1 ∷ []); count = 0 }
    ∷ []

abbrev xray : Xray
xray = record {
  flow = true;
  peers = record { keys = (1 ∷ []) ∷ [] };
  connected = true;
  dials = true;
  api = λ n. replied (reply_message wire counters);
  calls = 0;
  sent = [];
}

parse_query_stats_response-returns_example :
    ((r : Result (List Stat)) × (parse_query_stats_response wire (1 ∷ 2 ∷ []) ≡ some r))
    × ((r : Result Stat) × (parse_stat wire [] ≡ some r))
parse_query_stats_response-returns_example =
    parse_query_stats_response-returns wire wire_laws (1 ∷ 2 ∷ []) []

peers-told_example :
    (peers wire xray).0 ≡ ok (record { key = 1 ∷ []; upload = pos 5; download = pos 0 } ∷ [])
unfolding told last_count uplink downlink ascii wrap64 bytes_eq
peers-told_example =
    peers-told wire wire_laws xray counters (omega arith, (omega arith, tt)) refl refl

abbrev vless_peer : Bytes
vless_peer = 1 ∷ id

vless_peer-IsPeerData : IsPeerData vless_peer
vless_peer-IsPeerData = record { in_bytes = are_bytes-All vless_peer refl; not_empty = omega arith }

xray_promises_example :
    Added (xray_service wire) vless_peer xray (add_peer wire vless_peer xray)
    × AddAnswer vless_peer xray (add_peer wire vless_peer xray).0
    × Removed (xray_service wire) vless_peer xray (remove_peer wire vless_peer xray)
    × RemoveAnswer vless_peer xray (remove_peer wire vless_peer xray).0
xray_promises_example = xray_promises wire vless_peer xray vless_peer-IsPeerData

abbrev v2ray : V2Ray
v2ray = record {
  peers = [];
  connected = false;
  dials = true;
  api = λ n. done none;
  calls = 0;
  sent = [];
}

v2ray_promises_example :
    Added v2ray_service peer_data v2ray (v2ray_add peer_data v2ray)
    × Removed v2ray_service peer_data v2ray (v2ray_remove peer_data v2ray)
v2ray_promises_example = v2ray_promises peer_data v2ray peer_data-IsPeerData tt

abbrev api : ℕ → Answer
api n = if n == 0 then answered 200 (some []) else unreachable

abbrev hysteria : Hysteria
hysteria = record { by_auth = []; traffic = []; peers = new_peer_set; api = api; calls = 0 }

handle_auth-peers_example :
    handle_auth true (some (format_uuid id)) (hysteria_add id hysteria).1
    ≡ (if hysteria_has id (hysteria_add id hysteria).1 then admitted (encode id) else refused)
handle_auth-peers_example =
    handle_auth-peers api (hysteria_add id hysteria).1 id
      (adding id hysteria (are_bytes-All id refl) started) id-IsUuid

remove_peer-forgets_example :
    (hysteria_has id (hysteria_remove id hysteria).1 ≡ false)
    × (handle_auth true (some (format_uuid id)) (hysteria_remove id hysteria).1 ≡ refused)
    × (lookup counters_key (encode id) (hysteria_remove id hysteria).1.traffic ≡ none)
remove_peer-forgets_example = remove_peer-forgets hysteria id id-IsUuid

peers-usage_after_example :
    (hysteria_peers hysteria).0 ≡ ok (map (usage_after hysteria []) hysteria.peers.keys)
peers-usage_after_example = peers-usage_after hysteria [] refl
