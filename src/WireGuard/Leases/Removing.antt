-- ===== src/WireGuard/Leases/Removing.antt =====
-- RemovePeer keeps the leases: what the peer had goes back.
use dvpnd.Prelude.{
  ℕ, suc, ◌+◌, ◌≤◌, ◌≡◌, Bool, true, false, some, map, Bytes, bytes_eq, Bool-cases, Option-cases,
  inl, inr, arith,
}
use dvpnd.Prelude.Table.{lookup, erase, Distinct, erase-Distinct, lookup-key}
use dvpnd.Prelude.Base64.{encode}
use dvpnd.Address.{Ip}
use dvpnd.Pool.{Pool, release, release_pair}
use dvpnd.Pool.Sets.{count}
use dvpnd.Pool.Pair.{release_pair-PairIsValid, release_pair-PairFits}
use dvpnd.WireGuard.{
  WireGuard, Peer, Peers, identity_of, peer_empty, get_peer, delete_peer, remove_peer, removed,
}
use dvpnd.WireGuard.Leases.{SameItems, LeasedV6, Leased, count-release, release-none, count-erase}

-- A change of the tool's run count changes no lease.
ran-Leased : (s : WireGuard) (n : ℕ) → Leased s → Leased (record s { runs = n })
ran-Leased s n l = record {
  v4_out = l.v4_out;
  v6_out = l.v6_out;
  distinct = l.distinct;
  fits = l.fits;
  valid = l.valid;
}

-- One peer less on both sides.
release-SameItems :
    (f : Peer → Ip) (k : Bytes) (p : Peer) (ps : Peers) (q : Pool)
    → Distinct identity_of ps
    → lookup identity_of k ps ≡ some p
    → ((a : Ip) → count a q.available + count a q.reserved ≤ 1)
    → SameItems q.reserved (map f ps)
    → SameItems (release q (f p)).reserved (map f (erase identity_of k ps))
release-SameItems f k p ps q d found once same a =
    rw (count-release a q (f p)) (ground (arith, once a, same a, count-erase f a k p ps d found))

module _ (s : WireGuard) (l : Leased s) (k : Bytes) (p : Peer)
    (found : lookup identity_of k s.peers ≡ some p) where
  release-LeasedV6 :
      (on : Bool)
      → LeasedV6 on s.pool.v6.reserved s.peers
      → LeasedV6 on (release s.pool.v6 p.ipv6).reserved (erase identity_of k s.peers)
  release-LeasedV6 true h =
      release-SameItems (λ r. r.ipv6) k p s.peers s.pool.v6 l.distinct found l.valid.valid_v6.once h
  release-LeasedV6 false h = release-none s.pool.v6 p.ipv6 h

  forget-Leased :
      Leased
        (record s { peers = erase identity_of k s.peers; pool = release_pair s.pool p.ipv4 p.ipv6 })
  unfolding release_pair
  forget-Leased = record {
    v4_out =
        release-SameItems (λ r. r.ipv4) k p s.peers s.pool.v4 l.distinct found l.valid.valid_v4.once
          l.v4_out;
    v6_out = release-LeasedV6 s.enable_ipv6 l.v6_out;
    distinct = erase-Distinct identity_of k s.peers l.distinct;
    fits = release_pair-PairFits s.pool p.ipv4 p.ipv6 l.fits;
    valid = release_pair-PairIsValid s.pool p.ipv4 p.ipv6 l.valid;
  }

removed-Leased : (k : Bytes) (s : WireGuard) (b : Bool) → Leased s → Leased (removed s k b).1
unfolding get_peer
removed-Leased k s false l = l
removed-Leased k s true l = elim (Option-cases (lookup identity_of k s.peers)) [
  | inl e ↦ rw e (unfold peer_empty bytes_eq in l)
  | inr (p, e) ↦ rw e (elim (Bool-cases (peer_empty p)) [
    | inl e' ↦ rw e' l
    | inr e' ↦
        rw e' (
          rw (lookup-key identity_of k s.peers p e) (unfold delete_peer in forget-Leased s l k p e))
  ])
]

-- Where the reserved addresses are exactly those of the registered peers, RemovePeer keeps it so,
-- whether the tool fails, the peer is unknown, or it is removed.
pub remove_peer-Leased : (d : Bytes) (s : WireGuard) → Leased s → Leased (remove_peer d s).1
unfolding remove_peer
remove_peer-Leased d s l =
    removed-Leased (encode d) (record s { runs = suc s.runs }) (s.tool s.runs)
      (ran-Leased s (suc s.runs) l)
