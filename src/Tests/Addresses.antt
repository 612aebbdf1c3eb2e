-- ===== src/Tests/Addresses.antt =====
-- The address, pool and WireGuard theorems at the first addresses of the test networks.
use dvpnd.Prelude.Table.{lookup}
use dvpnd.Prelude.{bytes_eq, ◌+◌, ◌<◌, ◌^◌, ◌≡◌, refl, false, true, arith}
use dvpnd.Address.{from_bytes}
use dvpnd.Pool.{new_pool, is_edge, get}
use dvpnd.Pool.Sets.{count}
use dvpnd.Pool.Invariant.{Fits}
use dvpnd.Pool.Pair.{PairOutcome, get-PairOutcome}
use dvpnd.Service.{Added, Removed}
use dvpnd.WireGuard.{has_peer, add_peer, remove_peer}
use dvpnd.WireGuard.Fills.{service, add_peer-Added, remove_peer-Removed}
use dvpnd.WireGuard.Leases.{Leased}
use dvpnd.WireGuard.Leases.Adding.{add_peer-Leased}
use dvpnd.WireGuard.Leases.Removing.{remove_peer-Leased}
use dvpnd.Tests.World.{
  v4_net, v6_net, first_v4, first_v6, v4-Fits, v6-Fits, pools, pools_fit, pools_valid, interface,
  peer_data, peer_data-IsPeerData,
}

no_peer : has_peer peer_data interface ≡ false
unfolding has_peer bytes_eq lookup
no_peer = refl

new_v4-Fits : Fits 3 (new_pool first_v4 v4_net).net
unfolding new_pool
new_v4-Fits = v4-Fits

new_v6-Fits : Fits 15 (new_pool first_v6 v6_net).net
unfolding new_pool
new_v6-Fits = v6-Fits

in_space : from_bytes first_v4 + 1 < 256 ^ 4
unfolding from_bytes
in_space = omega arith

far_from_top : is_edge first_v4 ≡ true → from_bytes first_v4 + 2 < 256 ^ 4
unfolding from_bytes
far_from_top h = omega arith

get-PairOutcome_example : PairOutcome pools (get pools)
get-PairOutcome_example = get-PairOutcome pools pools_fit pools_valid

add_peer-Added_example : Added service peer_data interface (add_peer peer_data interface)
add_peer-Added_example = add_peer-Added peer_data peer_data-IsPeerData interface tt

remove_peer-Removed_example : Removed service peer_data interface (remove_peer peer_data interface)
remove_peer-Removed_example = remove_peer-Removed peer_data interface peer_data-IsPeerData tt

unleased : Leased interface
unfolding new_pool count
unleased = record {
  v4_out = λ a. refl;
  v6_out = λ a. refl;
  distinct = tt;
  fits = pools_fit;
  valid = pools_valid;
}

add-Leased : Leased (add_peer peer_data interface).1
add-Leased = add_peer-Leased peer_data interface no_peer tt unleased

add_peer-Leased_example : Leased (add_peer peer_data interface).1
add_peer-Leased_example = add_peer-Leased peer_data interface no_peer tt unleased

remove_peer-Leased_example : Leased (remove_peer peer_data (add_peer peer_data interface).1).1
remove_peer-Leased_example =
    remove_peer-Leased peer_data (add_peer peer_data interface).1 add-Leased
