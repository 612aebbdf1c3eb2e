-- ===== src/PeerSet.antt =====
-- services/common/peers.go: the peer keys that a proxy service has registered with its child process.
-- The map to empty structs is the list of its keys; the mutex makes each call one step.
pub mod Histories
pub mod Members
pub mod Proxies
use dvpnd.Prelude.{
  ℕ, Bool, true, false, ◌||◌, List, [], ◌∷◌, Bytes, bytes_eq, length, if◌then◌else◌,
}

pub record PeerSet : Type 0 where
  pub keys : List Bytes

unfoldable pub new_peer_set : PeerSet
new_peer_set = record { keys = [] }

unfoldable pub among : Bytes → List Bytes → Bool
among key [] = false
among key (x ∷ xs) = bytes_eq x key || among key xs

unfoldable pub without : Bytes → List Bytes → List Bytes
without key [] = []
without key (x ∷ xs) = let rest = without key xs in if bytes_eq x key then rest else x ∷ rest

-- Has
unfoldable pub has : Bytes → PeerSet → Bool
unfolding among
has key p = among key p.keys

-- Put
unfoldable pub put : Bytes → PeerSet → PeerSet
unfolding among
put key p = if among key p.keys then p else record { keys = key ∷ p.keys }

-- Delete
unfoldable pub delete : Bytes → PeerSet → PeerSet
unfolding without
delete key p = record { keys = without key p.keys }

-- Len
unfoldable pub len : PeerSet → ℕ
len p = length p.keys
