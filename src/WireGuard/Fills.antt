-- ===== src/WireGuard/Fills.antt =====
-- The WireGuard service fills the interface that admission and the jobs use.
use dvpnd.Prelude.{
  suc, ◌≤◌, ◌≡◌, refl, ◌∙◌, Bool, true, false, Option, none, some, Bytes, bytes_eq_refl, Bool-cases,
  inl, inr, arith,
}
use dvpnd.Prelude.Base64.{encode}
use dvpnd.Prelude.Results.{Err, Result, ok, err}
use dvpnd.Address.{Ip}
use dvpnd.Pool.{Got, got, full, IpPool, get}
use dvpnd.Service.{Service, ServiceLaws, IsPeerData, Added, Removed, Unchanged}
use dvpnd.WireGuard.{
  WireGuard, Peer, peer_empty, get_peer, delete_peer, add_peer, has_peer, remove_peer, peer_count,
  with_addresses, configured, removed, forget,
}
use dvpnd.WireGuard.Transfer.{peers}
use dvpnd.WireGuard.Members.{
  Named, encode-not_empty, encode-ne, put-Named, length-put, has-same, count-same, has-put,
  erase-Named, has-delete, count-delete, found-identity,
}

abbrev pub service : Service
service = record {
  State = WireGuard;
  add_peer = add_peer;
  has_peer = has_peer;
  remove_peer = remove_peer;
  peers = peers;
  peer_count = peer_count;
}

keeps : (x s : WireGuard) → x.peers ≡ s.peers → Unchanged service s x
keeps x s h = (λ e. has-same e x s h, count-same x s h)

module _ (d : Bytes) (p : IsPeerData d) where
  configured-Added :
      (x : WireGuard) (v4 v6 : Ip) (b : Bool)
      → Named x.peers
      → Added service d x (configured x (encode d) v4 v6 b)
  configured-Added x v4 v6 false n = keeps _ x refl
  configured-Added x v4 v6 true n =
      let named = encode-not_empty d p.not_empty in
      (
        has-put d x _ named n ∙ rw (bytes_eq_refl (encode d)) refl,
        λ e q h. has-put e x _ named n ∙ rw (encode-ne d e p q h) refl,
        unfold peer_count in length-put x.peers _,
      )

  -- What `add_peer` changes before it runs the tool leaves the peers alone.
  Added-from :
      (s x : WireGuard) (r : Result Bytes × WireGuard)
      → x.peers ≡ s.peers
      → Added service d x r
      → Added service d s r
  Added-from s x (err e, y) h a = (λ e'. a.0 e' ∙ has-same e' x s h, a.1 ∙ count-same x s h)
  Added-from s x (ok r, y) h a =
      (a.0, λ e q ne. a.1 e q ne ∙ has-same e x s h, rw (← count-same x s h) a.2)

  with_addresses-Added :
      (s : WireGuard) (r : Got (Ip × Ip) × IpPool)
      → Named s.peers
      → Added service d s (with_addresses s (encode d) r)
  with_addresses-Added s (full, q) n = keeps _ s refl
  with_addresses-Added s (got (v4, v6), q) n =
      Added-from s _ _ refl (configured-Added _ v4 _ (s.tool s.runs) n)

  -- For well-formed peer data and peers that all have an identity, AddPeer does to the peer set
  -- what the service interface promises: on success the peer is there, the others are as before and
  -- the count grows by one at most; on failure the set is unchanged.
  pub add_peer-Added : (s : WireGuard) → Named s.peers → Added service d s (add_peer d s)
  unfolding add_peer
  add_peer-Added s n = with_addresses-Added s (get s.pool) n

  configured-Named :
      (x : WireGuard) (v4 v6 : Ip) (b : Bool)
      → Named x.peers
      → Named (configured x (encode d) v4 v6 b).1.peers
  configured-Named x v4 v6 false n = n
  configured-Named x v4 v6 true n = put-Named x.peers _ (encode-not_empty d p.not_empty) n

  with_addresses-Named :
      (s : WireGuard) (r : Got (Ip × Ip) × IpPool)
      → Named s.peers
      → Named (with_addresses s (encode d) r).1.peers
  with_addresses-Named s (full, q) n = n
  with_addresses-Named s (got (v4, v6), q) n = configured-Named _ v4 _ (s.tool s.runs) n

  pub add_peer-Named : (s : WireGuard) → Named s.peers → Named (add_peer d s).1.peers
  unfolding add_peer
  add_peer-Named s n = with_addresses-Named s (get s.pool) n

removed-Removed :
    (d : Bytes) (x : WireGuard) (b : Bool)
    → IsPeerData d
    → Named x.peers
    → Removed service d x (removed x (encode d) b)
removed-Removed d x false p n = keeps _ x refl
removed-Removed d x true p n = elim (Bool-cases (peer_empty (get_peer x.peers (encode d)))) [
  | inl e ↦ rw e (unfold has_peer in rw e refl, λ e' q h. refl, omega arith)
  | inr e ↦ rw e (
    has-delete d _ x _ n
        ∙ rw (found-identity (encode d) x.peers n e) (rw (bytes_eq_refl (encode d)) refl),
    λ e' q h.
        has-delete e' _ x _ n
        ∙ rw (found-identity (encode d) x.peers n e) (rw (encode-ne d e' p q h) refl),
    count-delete _ x _,
  )
]

Removed-from :
    (d : Bytes) (s x : WireGuard) (r : Option Err × WireGuard)
    → x.peers ≡ s.peers
    → Removed service d x r
    → Removed service d s r
Removed-from d s x (some e, y) h a = (λ e'. a.0 e' ∙ has-same e' x s h, a.1 ∙ count-same x s h)
Removed-from d s x (none, y) h a =
    (a.0, λ e q ne. a.1 e q ne ∙ has-same e x s h, rw (← count-same x s h) a.2)

-- For well-formed peer data and peers that all have an identity, RemovePeer does to the peer set
-- what the service interface promises: on success the peer is gone, the others are as before and
-- the count has not grown; on failure the set is unchanged.
pub remove_peer-Removed :
    (d : Bytes) (s : WireGuard)
    → IsPeerData d
    → Named s.peers
    → Removed service d s (remove_peer d s)
unfolding remove_peer
remove_peer-Removed d s p n =
    Removed-from d s (record s { runs = suc s.runs }) _ refl
      (removed-Removed d (record s { runs = suc s.runs }) (s.tool s.runs) p n)

forget-Named : (x : WireGuard) (p : Peer) (b : Bool) → Named x.peers → Named (forget x p b).peers
unfolding delete_peer
forget-Named x p true n = n
forget-Named x p false n = erase-Named p.identity x.peers n

removed-Named :
    (k : Bytes) (x : WireGuard) (b : Bool) → Named x.peers → Named (removed x k b).1.peers
removed-Named k x false n = n
removed-Named k x true n = forget-Named x (get_peer x.peers k) (peer_empty (get_peer x.peers k)) n

pub remove_peer-Named :
    (d : Bytes) (s : WireGuard) → Named s.peers → Named (remove_peer d s).1.peers
unfolding remove_peer
remove_peer-Named d s n = removed-Named (encode d) _ (s.tool s.runs) n

removed-count : (k : Bytes) (x : WireGuard) (b : Bool) → peer_count (removed x k b).1 ≤ peer_count x
removed-count k x false = omega arith
removed-count k x true = elim (Bool-cases (peer_empty (get_peer x.peers k))) [
  | inl e ↦ rw e (omega arith)
  | inr e ↦ rw e (count-delete _ x _)
]

pub remove_peer-count : (d : Bytes) (s : WireGuard) → peer_count (remove_peer d s).1 ≤ peer_count s
unfolding remove_peer
remove_peer-count d s =
    rw (← count-same (record s { runs = suc s.runs }) s refl)
      (removed-count (encode d) (record s { runs = suc s.runs }) (s.tool s.runs))

-- AddPeer and RemovePeer of WireGuard keep every peer named, and do to the peer set exactly what the
-- interface promises, on success and on every failure.
abbrev pub service_laws : ServiceLaws service
service_laws = record {
  IsValid = λ s. Named s.peers;
  add-IsValid = λ d s p n. add_peer-Named d p s n;
  remove-IsValid = remove_peer-Named;
  remove-count = λ d s n. remove_peer-count d s;
  add-Added = λ d s p n. add_peer-Added d p s n;
  remove-Removed = remove_peer-Removed;
}
