-- ===== src/WireGuard/Leases.antt =====
-- The tunnel addresses that are out are those of the registered peers: no peer shares one, and
-- neither a failed AddPeer nor a RemovePeer loses one.
pub mod Adding
pub mod Removing
use dvpnd.Prelude.{
  ℕ, suc, ◌+◌, ◌≤◌, ◌≡◌, refl, ◌∙◌, Bool, true, false, none, some, List, [], ◌∷◌, map, Bytes,
  bytes_eq, bytes_eq-true, Bool-cases, Option-cases, inl, inr, if◌then◌else◌, arith,
}
use dvpnd.Prelude.Table.{lookup, erase, Distinct, erase-absent, erase-Distinct, lookup-key}
use dvpnd.Prelude.Base64.{encode}
use dvpnd.Address.{Ip}
use dvpnd.Pool.{Pool, Got, got, full, IpPool, member, release, get, release_pair}
use dvpnd.Pool.Sets.{count, count-delete, not_member-count}
use dvpnd.Pool.Invariant.{no_edge, release-IsValid}
use dvpnd.Pool.Taking.{Taken}
use dvpnd.Pool.Pair.{
  PairFits, PairIsValid, PairTaken, PairOutcome, get-PairOutcome, release_pair-PairIsValid,
  release_net, release-taken,
}
use dvpnd.WireGuard.Members.{Named, has-lookup}
use dvpnd.WireGuard.{
  WireGuard, Peer, Peers, identity_of, peer_empty, get_peer, put_peer, delete_peer, add_peer,
  has_peer, remove_peer, with_addresses, configured, removed, slot_v6, pool_v6,
}

abbrev pub ipv4s : Peers → List Ip
ipv4s = map λ p. p.ipv4

abbrev pub ipv6s : Peers → List Ip
ipv6s = map λ p. p.ipv6

-- The same addresses, as often.
abbrev pub SameItems : List Ip → List Ip → Type 0
SameItems xs ys = (a : Ip) → count a xs ≡ count a ys

-- With IPv6 off no IPv6 address is out.
abbrev pub LeasedV6 : Bool → List Ip → Peers → Type 0
LeasedV6 true out ps = SameItems out (ipv6s ps)
LeasedV6 false out ps = out ≡ []

pub record Leased (s : WireGuard) : Type 0 where
  pub v4_out : SameItems s.pool.v4.reserved (ipv4s s.peers)
  pub v6_out : LeasedV6 s.enable_ipv6 s.pool.v6.reserved s.peers
  pub distinct : Distinct identity_of s.peers
  pub fits : PairFits s.pool
  pub valid : PairIsValid s.pool

pub count-release :
    (a : Ip) (p : Pool) (ip : Ip)
    → count a (release p ip).reserved ≡ (if bytes_eq ip a then 0 else count a p.reserved)
unfolding release
count-release a p ip = elim (Bool-cases (member ip p.reserved)) [
  | inl e ↦ rw e (count-delete a ip p.reserved)
  | inr e ↦ rw e (ground (arith, not_member-count ip p.reserved e, bytes_eq-true ip a))
]

pub release-none : (p : Pool) (ip : Ip) → p.reserved ≡ [] → (release p ip).reserved ≡ []
unfolding release member
release-none p ip h = ground arith

pub count-erase :
    (f : Peer → Ip) (a : Ip) (k : Bytes) (p : Peer) (ps : Peers)
    → Distinct identity_of ps
    → lookup identity_of k ps ≡ some p
    → count a (map f ps)
      ≡ (if bytes_eq (f p) a then 1 else 0) + count a (map f (erase identity_of k ps))
unfolding count lookup erase
count-erase f a k p [] d h = cc
count-erase f a k p (q ∷ ps) d h = elim (Bool-cases (bytes_eq q.identity k)) [
  | inl e ↦
      let absent : lookup identity_of k ps ≡ none = rw (← bytes_eq-true q.identity k e) d.0 in
      let same : some q ≡ some p = rw e at h in
      let equal : f q ≡ f p = cc in rw (e, erase-absent identity_of k ps absent, equal) refl
  | inr e ↦ let ih = count-erase f a k p ps d.1 (rw e at h) in rw e (omega (arith, ih))
]

pub put-absent :
    (ps : Peers) (p : Peer) → lookup identity_of p.identity ps ≡ none → put_peer ps p ≡ p ∷ ps
unfolding put_peer
put-absent ps p h = rw h

pub absent-lookup :
    (d : Bytes) (s : WireGuard)
    → Named s.peers
    → has_peer d s ≡ false
    → lookup identity_of (encode d) s.peers ≡ none
absent-lookup d s n h = elim (Option-cases (lookup identity_of (encode d) s.peers)) [
  | inl e ↦ e
  | inr (q, e) ↦ absurd (cc (h, has-lookup d s n, e))
]

-- Where the reserved addresses are exactly those of the registered peers, no IPv4 tunnel address
-- belongs to two registered peers.
pub Leased-once : (s : WireGuard) (a : Ip) → Leased s → count a (ipv4s s.peers) ≤ 1
Leased-once s a l = omega (arith, l.v4_out a, l.valid.valid_v4.once a)
