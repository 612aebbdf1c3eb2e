-- ===== src/Amnezia/Tiers.antt =====
-- services/amneziawg/amneziawg.go: the peers of the two tiers, over any tunnel service. The tier that a
-- request asked for is kept for its key until AddPeer. JSON is a parameter: the key and the version
-- that a request holds. The mutex of the requests makes each call one step.
pub mod Routing
use dvpnd.Prelude.{
  ℕ, ◌+◌, ◌≡◌, Bool, true, false, ◌&&◌, ◌||◌, Option, none, some, List, [], ◌∷◌, ◌++◌, Bytes,
  if◌then◌else◌,
}
use dvpnd.Prelude.Int.{ℤ, pos, eqb_ℤ}
use dvpnd.Prelude.Base64.{encode}
use dvpnd.Prelude.Results.{Err, Result, ok, err, ◌>>=◌}
use dvpnd.Prelude.Table.{lookup, erase}
use dvpnd.Service.{Service, Usage}

-- An entry of tierRequests' map.
pub record Request : Type 0 where
  pub identity : Bytes
  pub tier : ℤ

abbrev pub key_of_request : Request → Bytes
key_of_request r = r.identity

abbrev pub version_default : ℤ
version_default = pos 2

abbrev pub version_3 : ℤ
version_3 = pos 3

-- tierRequests.set
unfoldable pub set_tier : Bytes → ℤ → List Request → List Request
set_tier key tier m = record { identity = key; tier = tier } ∷ erase key_of_request key m

abbrev or_default : Option Request → ℤ
or_default none = version_default
or_default (some r) = r.tier

-- tierRequests.take
unfoldable pub take_tier : Bytes → List Request → ℤ × List Request
take_tier key m = (or_default (lookup key_of_request key m), erase key_of_request key m)

abbrev asked_version : Option ℤ → ℤ
asked_version none = version_default
asked_version (some v) = v

module _ (S : Service) where
  pub record Tiers : Type 0 where
    pub default_tier : S.State
    pub v3_tier : S.State
    pub v3_on : Bool
    pub asked : List Request

  -- The version check of ParsePeerRequest, and what it remembers.
  abbrev pub remembered : Bytes → ℤ → Tiers → Result Bytes × Tiers
  remembered key tier s =
      if eqb_ℤ tier version_default || (eqb_ℤ tier version_3 && s.v3_on)
      then (ok key, record s { asked = set_tier (encode key) tier s.asked })
      else (err 51, s)

  abbrev version_of : Bytes → Result (Option ℤ) → Tiers → Result Bytes × Tiers
  version_of key (err e) s = (err 50, s)
  version_of key (ok v) s = remembered key (asked_version v) s

  abbrev key_of_raw : Result Bytes → Result (Option ℤ) → Tiers → Result Bytes × Tiers
  key_of_raw (err e) version s = (err e, s)
  key_of_raw (ok key) version s = version_of key version s

  -- ParsePeerRequest, on the key that WireGuard's reads and the version that the JSON holds.
  unfoldable pub parse_peer_request :
      Result Bytes → Result (Option ℤ) → Tiers → Result Bytes × Tiers
  unfolding set_tier
  parse_peer_request key version s = key_of_raw key version s

  abbrev pub into_v3 : Tiers → Result Bytes × S.State → Result Bytes × Tiers
  into_v3 s (r, y) = (r, record s { v3_tier = y })

  abbrev pub into_default : Tiers → Result Bytes × S.State → Result Bytes × Tiers
  into_default s (r, y) = (r, record s { default_tier = y })

  abbrev pub add_to : Bytes → ℤ → Tiers → Result Bytes × Tiers
  add_to d tier s =
      if eqb_ℤ tier version_3 && s.v3_on
      then into_v3 s (S.add_peer d s.v3_tier)
      else into_default s (S.add_peer d s.default_tier)

  -- AddPeer
  unfoldable pub add_peer : Bytes → Tiers → Result Bytes × Tiers
  unfolding take_tier
  add_peer d s =
      let (tier, rest) = take_tier (encode d) s.asked in add_to d tier (record s { asked = rest })

  unfoldable pub has_peer : Bytes → Tiers → Bool
  has_peer d s = S.has_peer d s.default_tier || (s.v3_on && S.has_peer d s.v3_tier)

  abbrev pub out_of_v3 : Tiers → Option Err × S.State → Option Err × Tiers
  out_of_v3 s (r, y) = (r, record s { v3_tier = y })

  abbrev pub out_of_default : Tiers → Option Err × S.State → Option Err × Tiers
  out_of_default s (r, y) = (r, record s { default_tier = y })

  -- RemovePeer
  unfoldable pub remove_peer : Bytes → Tiers → Option Err × Tiers
  remove_peer d s =
      if s.v3_on && S.has_peer d s.v3_tier
      then out_of_v3 s (S.remove_peer d s.v3_tier)
      else out_of_default s (S.remove_peer d s.default_tier)

  -- Peers
  unfoldable pub peers : Tiers → Result (List Usage)
  peers s =
      if s.v3_on
      then (S.peers s.default_tier >>= λ items. S.peers s.v3_tier >>= λ more. ok (items ++ more))
      else S.peers s.default_tier

  -- PeerCount
  unfoldable pub peer_count : Tiers → ℕ
  peer_count s = S.peer_count s.default_tier + (if s.v3_on then S.peer_count s.v3_tier else 0)
