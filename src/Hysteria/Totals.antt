-- ===== src/Hysteria/Totals.antt =====
-- The traffic that Peers reports: each read adds what the server counted since the one before.
use dvpnd.Prelude.{
  ◌≡◌, refl, ap, ◌∙◌, Option, none, some, List, [], ◌∷◌, Bytes, bytes_eq, Bool-cases, inl, inr, map,
  if◌then◌else◌,
}
use dvpnd.Prelude.Int.{ℤ, pos, ◌+ℤ◌, wrap64}
use dvpnd.Prelude.Table.{lookup, lookup-key}
use dvpnd.Prelude.Results.{ok}
use dvpnd.Service.{Usage}
use dvpnd.Hysteria.{
  Hysteria, Counters, counters_key, Delta, answered, count_delta, count_all, usage_from, usage_of,
  totals, counted, read_answer, peers,
}

-- One counter after the deltas of one read: only its own id's are added, as int64.
unfoldable pub tx_after : Bytes → List Delta → ℤ → ℤ
tx_after key [] z = z
tx_after key (d ∷ ds) z = tx_after key ds (if bytes_eq key d.id then wrap64 (z +ℤ d.tx) else z)

unfoldable pub rx_after : Bytes → List Delta → ℤ → ℤ
rx_after key [] z = z
rx_after key (d ∷ ds) z = rx_after key ds (if bytes_eq key d.id then wrap64 (z +ℤ d.rx) else z)

-- A key without counters stays at zero, whatever the server says of it.
abbrev used : Bytes → List Delta → Option Counters → Usage
used key ds none = record { key = key; upload = pos 0; download = pos 0 }
used key ds (some c) = record {
  key = key;
  upload = tx_after key ds c.upload;
  download = rx_after key ds c.download;
}

bumped : Delta → Counters → Counters
bumped d c = record c {
  upload = if bytes_eq c.key d.id then wrap64 (c.upload +ℤ d.tx) else c.upload;
  download = if bytes_eq c.key d.id then wrap64 (c.download +ℤ d.rx) else c.download;
}

abbrev bumped_if : Delta → Option Counters → Option Counters
bumped_if d none = none
bumped_if d (some c) = some (bumped d c)

count_delta-cons :
    (d : Delta) (c : Counters) (cs : List Counters)
    → count_delta d (c ∷ cs) ≡ bumped d c ∷ count_delta d cs
unfolding count_delta bumped
count_delta-cons d c cs = elim (Bool-cases (bytes_eq c.key d.id)) [
  | inl y ↦ rw y refl
  | inr n ↦ rw n refl
]

lookup-count_delta :
    (key : Bytes) (d : Delta) (cs : List Counters)
    → lookup counters_key key (count_delta d cs) ≡ bumped_if d (lookup counters_key key cs)
unfolding count_delta lookup bumped
lookup-count_delta key d [] = refl
lookup-count_delta key d (c ∷ cs) =
    let rest = lookup-count_delta key d cs in
    ap (lookup counters_key key) (count_delta-cons d c cs)
    ∙ elim (Bool-cases (bytes_eq c.key key)) [ inl y ↦ rw y refl | inr n ↦ rw n rest ]

used-bumped :
    (key : Bytes) (d : Delta) (ds : List Delta) (o : Option Counters)
    → ((c : Counters) → o ≡ some c → c.key ≡ key)
    → used key ds (bumped_if d o) ≡ used key (d ∷ ds) o
unfolding tx_after rx_after bumped
used-bumped key d ds none k = refl
used-bumped key d ds (some c) k = rw (k c refl) refl

usage_from-used : (key : Bytes) (o : Option Counters) → usage_from key o ≡ used key [] o
unfolding tx_after rx_after
usage_from-used key none = refl
usage_from-used key (some c) = refl

usage-count_all :
    (key : Bytes) (ds : List Delta) (cs : List Counters)
    → usage_of (count_all ds cs) key ≡ used key ds (lookup counters_key key cs)
unfolding usage_of count_all
usage-count_all key [] cs = usage_from-used key (lookup counters_key key cs)
usage-count_all key (d ∷ ds) cs =
    usage-count_all key ds (count_delta d cs)
    ∙ ap (used key ds) (lookup-count_delta key d cs)
    ∙ used-bumped key d ds (lookup counters_key key cs) (lookup-key counters_key key cs)

-- What Peers says of a key after a read of these deltas.
unfoldable pub usage_after : Hysteria → List Delta → Bytes → Usage
usage_after s ds key = used key ds (lookup counters_key key s.traffic)

map-usage :
    (s : Hysteria) (ds : List Delta) (keys : List Bytes)
    → map (usage_of (count_all ds s.traffic)) keys ≡ map (usage_after s ds) keys
map-usage s ds [] = refl
map-usage s ds (k ∷ keys) =
    rw (usage-count_all k ds s.traffic, map-usage s ds keys) (unfold usage_after in refl)

-- When the API answers 200 with the traffic since the last read, Peers reports every registered key
-- in the set's order with its accumulated counters, each moved by that key's own entries and by no
-- other's, in int64 arithmetic; an entry of a key that has no counters is dropped.
pub peers-usage_after :
    (s : Hysteria) (ds : List Delta)
    → s.api s.calls ≡ answered 200 (some ds)
    → (peers s).0 ≡ ok (map (usage_after s ds) s.peers.keys)
unfolding peers read_answer counted totals
peers-usage_after s ds h = rw h (ap ok (map-usage s ds s.peers.keys))
