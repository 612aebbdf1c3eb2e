-- ===== src/Tests/World.antt =====
-- A table held in memory, a WireGuard interface on 10.8.0.0/24 and fd00::/120, and a chain with one session.
use dvpnd.Prelude.{
  ℕ, ◌<◌, ◌≡◌, refl, Bool, true, ◌&&◌, none, some, List, [], ◌∷◌, Bytes, length, ltb, leb, ◌==◌,
  if◌then◌else◌, arith, All,
}
use dvpnd.Prelude.Int.{pos}
use dvpnd.Prelude.Base64.{encode}
use dvpnd.Prelude.Results.{ok}
use dvpnd.Address.{Ip, from_bytes, IsAddress}
use dvpnd.Pool.{IpPool, new_pool, is_edge}
use dvpnd.Pool.Invariant.{no_edge, Fits, IsValid, new_pool-IsValid}
use dvpnd.Pool.Pair.{PairFits, PairIsValid}
use dvpnd.Session.{Session}
use dvpnd.Chain.{Chain, ChainSession, Status}
use dvpnd.Service.{IsPeerData}
use dvpnd.Database.{
  Database, DatabaseLaws, select, matches_id, matches_key, matches_account, take_one, set_usage,
  remove_id,
}
use dvpnd.WireGuard.{WireGuard}
use dvpnd.WireGuard.Fills.{service}
use dvpnd.Admission.{World, Settings, AdmitRequest}

abbrev pub table : Database
table = record {
  Db = List Session;
  rows = λ x. x;
  find_all = λ x. (ok x, x);
  find_account =
      λ subscription address x. (ok (select (matches_account subscription address) x), x);
  find_key = λ key x. (ok (take_one (select (matches_key key) x)), x);
  count_id = λ id x. (ok (length (select (matches_id id) x)), x);
  count_key = λ key x. (ok (length (select (matches_key key) x)), x);
  create = λ r x. (none, r ∷ x);
  update_usage = λ id up down x. (none, set_usage id up down (pos 9) x);
  delete_id = λ id x. (none, remove_id id x);
  clear = λ x. (none, []);
}

pub table_laws : DatabaseLaws table
table_laws = record {
  find_all-Reads = λ x. (refl, refl);
  find_account-Reads = λ subscription address x. (refl, refl);
  find_key-Reads = λ key x. (refl, refl);
  count_id-Reads = λ id x. (refl, refl);
  count_key-Reads = λ key x. (refl, refl);
  create-Creates = λ r x. (r.created_at, r.updated_at, [], x, refl, refl);
  update_usage-Updates = λ id up down x. (pos 9, refl);
  delete_id-Writes = λ id x. refl;
  clear-Writes = λ x. refl;
}

abbrev pub v4_net : Ip → Bool
v4_net ip = leb 168296448 (from_bytes ip) && ltb (from_bytes ip) 168296704

abbrev pub v6_net : Ip → Bool
v6_net ip =
    leb 336294682933583715844663186250927177728 (from_bytes ip)
    && ltb (from_bytes ip) 336294682933583715844663186250927177984

abbrev pub first_v4 : Ip
first_v4 = 10 ∷ 8 ∷ 0 ∷ 2 ∷ []

abbrev pub first_v6 : Ip
first_v6 = 253 ∷ 0 ∷ 0 ∷ 0 ∷ 0 ∷ 0 ∷ 0 ∷ 0 ∷ 0 ∷ 0 ∷ 0 ∷ 0 ∷ 0 ∷ 0 ∷ 0 ∷ 2 ∷ []

pub v4-Fits : Fits 3 v4_net
v4-Fits ip h = ground arith

pub v6-Fits : Fits 15 v6_net
v6-Fits ip h = ground arith

abbrev pub pools : IpPool
pools = record { v4 = new_pool first_v4 v4_net; v6 = new_pool first_v6 v6_net }

abbrev are_bytes : List ℕ → Bool
are_bytes [] = true
are_bytes (x ∷ xs) = ltb x 256 && are_bytes xs

pub are_bytes-All : (xs : List ℕ) → are_bytes xs ≡ true → All (λ b. b < 256) xs
are_bytes-All [] h = tt
are_bytes-All (x ∷ xs) h = (ground arith, are_bytes-All xs (ground arith))

pub v4-IsAddress : IsAddress 3 first_v4
unfolding from_bytes
v4-IsAddress = record { size = refl; bytes = are_bytes-All first_v4 refl; large = omega arith }

v6-IsAddress : IsAddress 15 first_v6
unfolding from_bytes
v6-IsAddress = record { size = refl; bytes = are_bytes-All first_v6 refl; large = omega arith }

pub v4-IsValid : IsValid 3 is_edge (new_pool first_v4 v4_net)
unfolding from_bytes
v4-IsValid = new_pool-IsValid 3 is_edge first_v4 v4_net v4-IsAddress (λ h. omega arith)

pub v6-IsValid : IsValid 15 no_edge (new_pool first_v6 v6_net)
v6-IsValid = new_pool-IsValid 15 no_edge first_v6 v6_net v6-IsAddress (λ h. absurd (cc h))

pub pools_fit : PairFits pools
unfolding new_pool
pools_fit = record { fits_v4 = v4-Fits; fits_v6 = v6-Fits }

pub pools_valid : PairIsValid pools
pools_valid = record { valid_v4 = v4-IsValid; valid_v6 = v6-IsValid }

abbrev pub interface : WireGuard
interface = record {
  enable_ipv6 = true;
  peers = [];
  pool = pools;
  tool = λ n. true;
  runs = 0;
  transfer = ok [];
}

abbrev pub peer_data : Bytes
peer_data = 1 ∷ 2 ∷ 3 ∷ []

pub peer_data-IsPeerData : IsPeerData peer_data
peer_data-IsPeerData = record { in_bytes = are_bytes-All peer_data refl; not_empty = omega arith }

-- A session of 1000 bytes, 200 of them used, on plan subscription 5 with 500 bytes left.
abbrev pub chain_session : ChainSession
chain_session = record {
  id = 7;
  status = Status.active;
  acc_address = 4 ∷ [];
  node_address = 9 ∷ [];
  max_bytes = pos 1000;
  download = pos 150;
  upload = pos 50;
  total_bytes = pos 200;
  duration = pos 0;
  status_at = pos 0;
  subscription = some 5;
}

abbrev pub chain : Chain
chain = record {
  query_session = λ id. ok (if id == 7 then some chain_session else none);
  query_subscription = λ id. ok (some (record { id = 5; status = Status.active }));
  query_allocation =
      λ id account. ok (some (record { granted_bytes = pos 500; utilised_bytes = pos 0 }));
}

abbrev pub settings : Settings
settings = record { node_address = 9 ∷ []; max_peers = 2 }

abbrev pub request : AdmitRequest
request = record { acc_address = 4 ∷ []; id = 7; peer_data = peer_data }

abbrev pub world : World table service
world = record { db = []; svc = interface }

-- The row of session 7, with some use that the chain has not recorded.
abbrev pub row : Session
row = record {
  id = 7;
  subscription = 5;
  key = encode peer_data;
  address = 4 ∷ [];
  available = pos 500;
  download = pos 170;
  upload = pos 60;
  base_download = pos 150;
  base_upload = pos 50;
  base_duration = pos 0;
  created_at = pos 0;
  updated_at = pos 5;
}

abbrev pub served_world : World table service
served_world = record { db = row ∷ []; svc = interface }
