-- ===== src/V2Ray/Fills.antt =====
-- The v2ray service fills the interface that admission and the jobs use.
use dvpnd.Prelude.{
  ◌==◌, ◌≤◌, ◌≡◌, refl, ap, ◌∙◌, Bool, true, false, Option, none, some, List, [], length, All,
  Bytes, bytes_eq, Bool-cases, inl, inr, arith,
}
use dvpnd.Prelude.Base64.{encode}
use dvpnd.Prelude.Table.{lookup}
use dvpnd.Prelude.Results.{Err, Result, ok, err}
use dvpnd.Service.{Usage, Service, ServiceLaws, IsPeerData, Added, Removed}
use dvpnd.PeerSet.{len}
use dvpnd.PeerSet.Proxies.{view-Unchanged, view-Added, view-Removed, view-count}
use dvpnd.WireGuard.Members.{encode-not_empty}
use dvpnd.V2Ray.Emails.{
  view, Named, has-view, count_view, view-put, view-delete, put-Named, erase-Named,
}
use dvpnd.V2Ray.{
  V2Ray, Peer, email_of, put_peer, delete_peer, Reply, done, not_found, failed, client_conn, call,
  added, add_over, add_peer, has_peer, forgotten, remove_over, remove_peer, peers, peer_count,
}

-- The answer of Peers; the calls that it makes are left out here.
unfoldable pub usages : V2Ray → Result (List Usage)
unfolding peers
usages s = (peers s).0

abbrev pub service : Service
service = record {
  State = V2Ray;
  add_peer = add_peer;
  has_peer = has_peer;
  remove_peer = remove_peer;
  peers = usages;
  peer_count = peer_count;
}

client_conn-peers : (s : V2Ray) → (client_conn s).1.peers ≡ s.peers
unfolding client_conn
client_conn-peers s = ground arith

-- What an outcome of AddPeer does: an error leaves the peers, success puts the email.
Put : Bytes → V2Ray → Result Bytes × V2Ray → Type 0
Put d s (err e, y) = y.peers ≡ s.peers
Put d s (ok r, y) = y.peers ≡ put_peer (record { email = encode d }) s.peers

Deleted : Bytes → V2Ray → Option Err × V2Ray → Type 0
Deleted d s (some e, y) = y.peers ≡ s.peers
Deleted d s (none, y) = y.peers ≡ delete_peer (encode d) s.peers

added-Put :
    (d : Bytes) (s : V2Ray) (r : Reply × V2Ray) → r.1.peers ≡ s.peers → Put d s (added (encode d) r)
unfolding Put
added-Put d s (done v, x) h = ap (put_peer (record { email = encode d })) h
added-Put d s (not_found, x) h = h
added-Put d s (failed, x) h = h

forgotten-Deleted :
    (d : Bytes) (s : V2Ray) (r : Reply × V2Ray)
    → r.1.peers ≡ s.peers
    → Deleted d s (forgotten (encode d) r)
unfolding Deleted forgotten
forgotten-Deleted d s (done v, x) h = ap (delete_peer (encode d)) h
forgotten-Deleted d s (not_found, x) h = ap (delete_peer (encode d)) h
forgotten-Deleted d s (failed, x) h = h

add_over-Put :
    (d : Bytes) (s : V2Ray) (c : Bool × V2Ray) → c.1.peers ≡ s.peers → Put d s (add_over d c)
unfolding add_over call Put
add_over-Put d s (false, x) h = h
add_over-Put d s (true, x) h = unfold Put in added-Put d s _ h

remove_over-Deleted :
    (d : Bytes) (s : V2Ray) (c : Bool × V2Ray) → c.1.peers ≡ s.peers → Deleted d s (remove_over d c)
unfolding remove_over call Deleted
remove_over-Deleted d s (false, x) h = h
remove_over-Deleted d s (true, x) h = unfold Deleted in forgotten-Deleted d s _ h

-- On other lengths than 17 bytes both return an error at once.
add_peer-Put : (d : Bytes) (s : V2Ray) → Put d s (add_peer d s)
unfolding add_peer Put
add_peer-Put d s = elim (Bool-cases (length d == 17)) [
  | inl y ↦ rw y (unfold Put in add_over-Put d s (client_conn s) (client_conn-peers s))
  | inr n ↦ rw n refl
]

remove_peer-Deleted : (d : Bytes) (s : V2Ray) → Deleted d s (remove_peer d s)
unfolding remove_peer Deleted
remove_peer-Deleted d s = elim (Bool-cases (length d == 17)) [
  | inl y ↦ rw y (unfold Deleted in remove_over-Deleted d s (client_conn s) (client_conn-peers s))
  | inr n ↦ rw n refl
]

put_peer-Named :
    (e : Bytes) (ps : List Peer)
    → bytes_eq e [] ≡ false
    → All (λ p. bytes_eq p.email [] ≡ false) ps
    → All (λ p. bytes_eq p.email [] ≡ false) (put_peer (record { email = e }) ps)
unfolding put_peer
put_peer-Named e ps h n = put-Named e ps (lookup email_of e ps) h n

Named-same : (s y : V2Ray) → y.peers ≡ s.peers → Named s → Named y
Named-same s y h n = rw h n

Put-Named :
    (d : Bytes) (s : V2Ray) (r : Result Bytes × V2Ray)
    → IsPeerData d
    → Put d s r
    → Named s
    → Named r.1
unfolding Put
Put-Named d s (err e, y) p h n = rw h n
Put-Named d s (ok r, y) p h n =
    rw h (put_peer-Named (encode d) s.peers (encode-not_empty d p.not_empty) n)

Deleted-Named :
    (d : Bytes) (s : V2Ray) (r : Option Err × V2Ray) → Deleted d s r → Named s → Named r.1
unfolding Deleted
Deleted-Named d s (some e, y) h n = rw h n
Deleted-Named d s (none, y) h n = rw h (erase-Named (encode d) s.peers n)

same_view : (x y : V2Ray) → y.peers ≡ x.peers → view y ≡ view x
unfolding view
same_view x y h = rw h refl

Added-of :
    (d : Bytes) (s : V2Ray) (r : Result Bytes × V2Ray)
    → IsPeerData d
    → Put d s r
    → Named s
    → Named r.1
    → Added service d s r
unfolding Put
Added-of d s (err e, y) p h n m =
    view-Unchanged service Named view has-view count_view s y n m (same_view s y h)
Added-of d s (ok r, y) p h n m = view-Added service Named view has-view count_view d s y p n m (
    same_view (record s { peers = put_peer (record { email = encode d }) s.peers }) y h
    ∙ view-put (encode d) s)

Removed-of :
    (d : Bytes) (s : V2Ray) (r : Option Err × V2Ray)
    → IsPeerData d
    → Deleted d s r
    → Named s
    → Named r.1
    → Removed service d s r
unfolding Deleted
Removed-of d s (some e, y) p h n m =
    view-Unchanged service Named view has-view count_view s y n m (same_view s y h)
Removed-of d s (none, y) p h n m =
    view-Removed service Named view has-view count_view d s y p n m (
      same_view (record s { peers = delete_peer (encode d) s.peers }) y h
      ∙ view-delete (encode d) s)

count-of :
    (d : Bytes) (s : V2Ray) (r : Option Err × V2Ray) → Deleted d s r → peer_count r.1 ≤ peer_count s
unfolding Deleted
count-of d s (some e, y) h = omega (arith, count_view y, count_view s, ap len (same_view s y h))
count-of d s (none, y) h =
    view-count service Named view has-view count_view d s y (
      same_view (record s { peers = delete_peer (encode d) s.peers }) y h
      ∙ view-delete (encode d) s)

pub add_peer-Named : (d : Bytes) (s : V2Ray) → IsPeerData d → Named s → Named (add_peer d s).1
add_peer-Named d s p n = Put-Named d s (add_peer d s) p (add_peer-Put d s) n

pub remove_peer-Named : (d : Bytes) (s : V2Ray) → Named s → Named (remove_peer d s).1
remove_peer-Named d s n = Deleted-Named d s (remove_peer d s) (remove_peer-Deleted d s) n

pub remove_peer-count : (d : Bytes) (s : V2Ray) → peer_count (remove_peer d s).1 ≤ peer_count s
remove_peer-count d s = count-of d s (remove_peer d s) (remove_peer-Deleted d s)

pub add_peer-Added :
    (d : Bytes) (s : V2Ray) → IsPeerData d → Named s → Added service d s (add_peer d s)
add_peer-Added d s p n = Added-of d s (add_peer d s) p (add_peer-Put d s) n (add_peer-Named d s p n)

pub remove_peer-Removed :
    (d : Bytes) (s : V2Ray) → IsPeerData d → Named s → Removed service d s (remove_peer d s)
remove_peer-Removed d s p n =
    Removed-of d s (remove_peer d s) p (remove_peer-Deleted d s) n (remove_peer-Named d s n)

abbrev pub service_laws : ServiceLaws service
service_laws = record {
  IsValid = Named;
  add-IsValid = add_peer-Named;
  remove-IsValid = remove_peer-Named;
  remove-count = λ d s n. remove_peer-count d s;
  add-Added = add_peer-Added;
  remove-Removed = remove_peer-Removed;
}

-- For well-formed peer data and peers that all have an email, AddPeer and RemovePeer of v2ray do to
-- the peer set what the service interface promises, on success and on every failure.
pub v2ray_promises :
    (d : Bytes) (s : V2Ray)
    → IsPeerData d
    → Named s
    → Added service d s (add_peer d s) × Removed service d s (remove_peer d s)
v2ray_promises d s p n = (add_peer-Added d s p n, remove_peer-Removed d s p n)
