-- ===== src/Xray/Counters.antt =====
-- What Peers reports of each registered key when xray answers with its counters.
use dvpnd.Prelude.{
  ◌≡◌, refl, ap, ◌∙◌, true, List, [], ◌∷◌, Bytes, bytes_eq, Bool-cases, inl, inr, map,
  if◌then◌else◌,
}
use dvpnd.Prelude.Int.{ℤ, pos, wrap64}
use dvpnd.Prelude.Table.{lookup, lookup-erase}
use dvpnd.Prelude.Results.{ok}
use dvpnd.Service.{Usage}
use dvpnd.Xray.{
  Xray, replied, client_conn, invoke, counter, uplink, downlink, usage_of, peers, peers_over,
}
use dvpnd.Xray.Fields.{Protowire, WireLaws}
use dvpnd.Xray.Wire.{Stat, name_of, put_stat}
use dvpnd.Xray.Replies.{
  Counter, Counted, read_counter, read_all, reply_message, parse_query_stats_response-reply,
}

-- The last count that a reply gives under a name, as int64; `before` when it gives none.
unfoldable pub last_count : Bytes → List Counter → ℤ → ℤ
last_count name [] before = before
last_count name (c ∷ cs) before =
    last_count name cs (if bytes_eq c.name name then wrap64 (pos c.count) else before)

counter-put_stat :
    (name : Bytes) (s : Stat) (stats : List Stat)
    → counter name (put_stat s stats)
      ≡ (if bytes_eq s.name name then s.value else counter name stats)
unfolding counter put_stat lookup
counter-put_stat name s stats = elim (Bool-cases (bytes_eq s.name name)) [
  | inl y ↦ rw y refl
  | inr n ↦ rw n (rw (lookup-erase name_of s.name name stats) (rw n refl))
]

counter-read_all :
    (name : Bytes) (cs : List Counter) (stats : List Stat)
    → counter name (read_all cs stats) ≡ last_count name cs (counter name stats)
unfolding read_all last_count
counter-read_all name [] stats = refl
counter-read_all name (c ∷ cs) stats =
    counter-read_all name cs (put_stat (read_counter c) stats)
    ∙ ap (last_count name cs) (counter-put_stat name (read_counter c) stats)

-- The usage that a reply says a key has.
unfoldable pub told : List Counter → Bytes → Usage
told cs key = record {
  key = key;
  upload = last_count (uplink key) cs (pos 0);
  download = last_count (downlink key) cs (pos 0);
}

usage_of-told : (cs : List Counter) (key : Bytes) → usage_of (read_all cs []) key ≡ told cs key
unfolding usage_of told
usage_of-told cs key =
    rw (counter-read_all (uplink key) cs [], counter-read_all (downlink key) cs [])
      (unfold counter lookup in refl)

map-told :
    (cs : List Counter) (keys : List Bytes)
    → map (usage_of (read_all cs [])) keys ≡ map (told cs) keys
map-told cs [] = refl
map-told cs (k ∷ keys) = rw (usage_of-told cs k, map-told cs keys) refl

-- Under protowire's laws, when xray is connected and answers the query with its counters, each
-- below 2^64, in the form of proto3, which leaves out an empty name and a 0, Peers reports every
-- registered key once, in the set's order, with the last counts that the answer gives under its
-- uplink and downlink names, or 0 where it gives none.
pub peers-told :
    (w : Protowire) (laws : WireLaws w) (s : Xray) (cs : List Counter)
    → Counted cs
    → s.connected ≡ true
    → s.api s.calls ≡ replied (reply_message w cs)
    → (peers w s).0 ≡ ok (map (told cs) s.peers.keys)
unfolding peers client_conn peers_over invoke
peers-told w laws s cs h c a =
    rw c
      (rw a (rw (parse_query_stats_response-reply w laws cs h) (ap ok (map-told cs s.peers.keys))))
