-- ===== src/Service.antt =====
-- types/service.go: one VPN protocol as the node drives it, and what the node relies on. The data
-- plane's methods only; the operations return the new state of the service.
use dvpnd.Prelude.{
  ℕ, suc, ◌≤◌, ◌<◌, ◌≡◌, length, Bool, true, false, Option, none, some, List, All, Bytes, bytes_eq,
}
use dvpnd.Prelude.Int.{ℤ}
use dvpnd.Prelude.Results.{Err, Result, ok, err}

-- types.Peer: the key is base64 of the peer data; the counters are int64.
pub record Usage : Type 0 where
  pub key : Bytes
  pub upload : ℤ
  pub download : ℤ

pub record Service : Type 1 where
  pub State : Type 0
  pub add_peer : Bytes → State → Result Bytes × State
  pub has_peer : Bytes → State → Bool
  pub remove_peer : Bytes → State → Option Err × State
  pub peers : State → Result (List Usage)
  pub peer_count : State → ℕ

-- What ParsePeerRequest hands on: some bytes.
pub record IsPeerData (d : Bytes) : Type 0 where
  pub in_bytes : All (λ b. b < 256) d
  pub not_empty : 0 < length d

-- The peer set is as before but for one peer.
abbrev pub SameBut : (s : Service) → Bytes → s.State → s.State → Type 0
SameBut s d x y =
    (e : Bytes) → IsPeerData e → bytes_eq d e ≡ false → s.has_peer e y ≡ s.has_peer e x

abbrev pub Unchanged : (s : Service) → s.State → s.State → Type 0
Unchanged s x y =
    ((e : Bytes) → s.has_peer e y ≡ s.has_peer e x) × (s.peer_count y ≡ s.peer_count x)

abbrev pub Added : (s : Service) → Bytes → s.State → Result Bytes × s.State → Type 0
Added s d x (err e, y) = Unchanged s x y
Added s d x (ok r, y) =
    (s.has_peer d y ≡ true) × SameBut s d x y × (s.peer_count y ≤ suc (s.peer_count x))

abbrev pub Removed : (s : Service) → Bytes → s.State → Option Err × s.State → Type 0
Removed s d x (some e, y) = Unchanged s x y
Removed s d x (none, y) =
    (s.has_peer d y ≡ false) × SameBut s d x y × (s.peer_count y ≤ s.peer_count x)

-- What admission and the jobs rely on, for states that the service keeps well formed.
pub record ServiceLaws (s : Service) : Type 1 where
  pub IsValid : s.State → Type 0
  pub add-IsValid :
      (d : Bytes) (x : s.State) → IsPeerData d → IsValid x → IsValid (s.add_peer d x).1
  pub remove-IsValid : (d : Bytes) (x : s.State) → IsValid x → IsValid (s.remove_peer d x).1
  pub remove-count :
      (d : Bytes) (x : s.State) → IsValid x → s.peer_count (s.remove_peer d x).1 ≤ s.peer_count x
  pub add-Added :
      (d : Bytes) (x : s.State) → IsPeerData d → IsValid x → Added s d x (s.add_peer d x)
  pub remove-Removed :
      (d : Bytes) (x : s.State) → IsPeerData d → IsValid x → Removed s d x (s.remove_peer d x)
