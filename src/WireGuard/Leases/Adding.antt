-- ===== src/WireGuard/Leases/Adding.antt =====
-- AddPeer keeps the leases: a failure gives back what it took.
use dvpnd.Prelude.{suc, ◌≡◌, refl, ◌∙◌, Bool, true, false, none, ◌∷◌, Bytes, arith}
use dvpnd.Prelude.Table.{lookup}
use dvpnd.Prelude.Base64.{encode}
use dvpnd.Address.{Ip}
use dvpnd.Pool.{Got, got, full, IpPool, release, get, release_pair}
use dvpnd.Pool.Sets.{count}
use dvpnd.Pool.Invariant.{no_edge, release-IsValid}
use dvpnd.Pool.Taking.{Taken}
use dvpnd.Pool.Pair.{
  PairFits, PairIsValid, PairTaken, PairOutcome, get-PairOutcome, release_pair-PairIsValid,
  release_pair-PairFits, release_net, release-taken,
}
use dvpnd.WireGuard.Members.{Named}
use dvpnd.WireGuard.{
  WireGuard, identity_of, put_peer, add_peer, has_peer, with_addresses, configured, slot_v6,
  pool_v6,
}
use dvpnd.WireGuard.Leases.{
  SameItems, LeasedV6, Leased, ipv4s, release-none, put-absent, absent-lookup,
}

module _ (s : WireGuard) (l : Leased s) where
  -- AddPeer after both addresses are taken.
  slot-LeasedV6 :
      (on : Bool) (v4 v6 : Ip) (identity : Bytes) (q : IpPool)
      → s.enable_ipv6 ≡ on
      → Taken 15 no_edge s.pool.v6 v6 q.v6
      → LeasedV6 on s.pool.v6.reserved s.peers
      → LeasedV6 on
          (pool_v6 on q v6).v6.reserved
          (record { identity = identity; ipv4 = v4; ipv6 = slot_v6 on v6 } ∷ s.peers)
  slot-LeasedV6 true v4 v6 identity q on t h =
      λ a. unfold count in rw (t.held, count) (omega (arith, h a))
  slot-LeasedV6 false v4 v6 identity q on t h =
      release-taken s.pool.v6 q.v6 v6 t.was_free t.held ∙ h

  pool_v6-valid : (on : Bool) (v6 : Ip) (q : IpPool) → PairIsValid q → PairIsValid (pool_v6 on q v6)
  pool_v6-valid true v6 q v = v
  pool_v6-valid false v6 q v = record {
    valid_v4 = v.valid_v4;
    valid_v6 = release-IsValid 15 no_edge q.v6 v6 v.valid_v6;
  }

  pool_v6-fits : (on : Bool) (v6 : Ip) (q : IpPool) → PairFits q → PairFits (pool_v6 on q v6)
  pool_v6-fits true v6 q f = f
  pool_v6-fits false v6 q f = record {
    fits_v4 = f.fits_v4;
    fits_v6 = rw (release_net q.v6 v6) f.fits_v6;
  }

  pool_v6-v4 : (on : Bool) (v6 : Ip) (q : IpPool) → (pool_v6 on q v6).v4 ≡ q.v4
  pool_v6-v4 true v6 q = refl
  pool_v6-v4 false v6 q = refl

  fits-net : (q : IpPool) → q.v4.net ≡ s.pool.v4.net → q.v6.net ≡ s.pool.v6.net → PairFits q
  fits-net q h k = record { fits_v4 = rw h l.fits.fits_v4; fits_v6 = rw k l.fits.fits_v6 }

  -- A failed run of the tool gives back what was taken.
  undone-LeasedV6 :
      (on : Bool) (v6 : Ip) (q : IpPool)
      → Taken 15 no_edge s.pool.v6 v6 q.v6
      → LeasedV6 on s.pool.v6.reserved s.peers
      → LeasedV6 on (release (pool_v6 on q v6).v6 (slot_v6 on v6)).reserved s.peers
  undone-LeasedV6 true v6 q t h = rw (release-taken s.pool.v6 q.v6 v6 t.was_free t.held) h
  undone-LeasedV6 false v6 q t h =
      release-none (release q.v6 v6) _ (release-taken s.pool.v6 q.v6 v6 t.was_free t.held ∙ h)

  module _ (d : Bytes) (absent : lookup identity_of (encode d) s.peers ≡ none) where
    put-v4 :
        (v4 v6 : Ip) (q : IpPool)
        → PairTaken s.pool v4 v6 q
        → SameItems (pool_v6 s.enable_ipv6 q v6).v4.reserved (
            ipv4s (
              put_peer s.peers
                (record { identity = encode d; ipv4 = v4; ipv6 = slot_v6 s.enable_ipv6 v6 })))
    put-v4 v4 v6 q t a =
        rw
          (
            pool_v6-v4 s.enable_ipv6 v6 q,
            t.taken_v4.held,
            put-absent s.peers
                (record { identity = encode d; ipv4 = v4; ipv6 = slot_v6 s.enable_ipv6 v6 }) absent,
          )
          (unfold count in omega (arith, l.v4_out a))

    put-v6 :
        (v4 v6 : Ip) (q : IpPool)
        → PairTaken s.pool v4 v6 q
        → LeasedV6 s.enable_ipv6 (pool_v6 s.enable_ipv6 q v6).v6.reserved (
            put_peer s.peers
              (record { identity = encode d; ipv4 = v4; ipv6 = slot_v6 s.enable_ipv6 v6 }))
    put-v6 v4 v6 q t =
        rw
          (put-absent s.peers
            (record { identity = encode d; ipv4 = v4; ipv6 = slot_v6 s.enable_ipv6 v6 }) absent)
          (slot-LeasedV6 s.enable_ipv6 v4 v6 (encode d) q refl t.taken_v6 l.v6_out)

    configured-Leased :
        (v4 v6 : Ip) (q : IpPool) (b : Bool)
        → PairTaken s.pool v4 v6 q
        → Leased
            (configured
              (record s { pool = pool_v6 s.enable_ipv6 q v6; runs = suc s.runs })
              (encode d)
              v4
              (slot_v6 s.enable_ipv6 v6)
              b).1
    unfolding release_pair
    configured-Leased v4 v6 q true t = record {
      v4_out = put-v4 v4 v6 q t;
      v6_out = put-v6 v4 v6 q t;
      distinct =
          rw
            (put-absent s.peers
              (record { identity = encode d; ipv4 = v4; ipv6 = slot_v6 s.enable_ipv6 v6 }) absent)
            (absent, l.distinct);
      fits = pool_v6-fits s.enable_ipv6 v6 q (fits-net q t.taken_v4.same_net t.taken_v6.same_net);
      valid =
          pool_v6-valid s.enable_ipv6 v6 q
            (record { valid_v4 = t.taken_v4.valid; valid_v6 = t.taken_v6.valid });
    }
    configured-Leased v4 v6 q false t = record {
      v4_out =
          rw (pool_v6-v4 s.enable_ipv6 v6 q)
            (rw (release-taken s.pool.v4 q.v4 v4 t.taken_v4.was_free t.taken_v4.held) l.v4_out);
      v6_out = undone-LeasedV6 s.enable_ipv6 v6 q t.taken_v6 l.v6_out;
      distinct = l.distinct;
      fits =
          release_pair-PairFits _ v4 _
            (pool_v6-fits s.enable_ipv6 v6 q (fits-net q t.taken_v4.same_net t.taken_v6.same_net));
      valid = release_pair-PairIsValid _ v4 _ (
          pool_v6-valid s.enable_ipv6 v6 q
            (record { valid_v4 = t.taken_v4.valid; valid_v6 = t.taken_v6.valid }));
    }

    with_addresses-Leased :
        (r : Got (Ip × Ip) × IpPool)
        → PairOutcome s.pool r
        → Leased (with_addresses s (encode d) r).1
    with_addresses-Leased (full, q) o = record {
      v4_out = rw o.same_v4 l.v4_out;
      v6_out = rw o.same_v6 l.v6_out;
      distinct = l.distinct;
      fits = fits-net q o.net_v4 o.net_v6;
      valid = o.valid;
    }
    with_addresses-Leased (got (v4, v6), q) o = configured-Leased v4 v6 q (s.tool s.runs) o

-- Where the reserved addresses are exactly those of the registered peers (and no IPv6 address is
-- reserved with IPv6 off), AddPeer of a peer that is not registered keeps it so, whether it
-- succeeds, finds no address or fails in the tool.
pub add_peer-Leased :
    (d : Bytes) (s : WireGuard)
    → has_peer d s ≡ false
    → Named s.peers
    → Leased s
    → Leased (add_peer d s).1
unfolding add_peer
add_peer-Leased d s h n l =
    with_addresses-Leased s l d (absent-lookup d s n h) (get s.pool)
      (get-PairOutcome s.pool l.fits l.valid)
