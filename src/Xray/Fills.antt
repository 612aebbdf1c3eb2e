-- ===== src/Xray/Fills.antt =====
-- The xray service fills the interface that admission and the jobs use.
use dvpnd.Prelude.{
  ◌≤◌, ◌≡◌, refl, ap, Bool, true, false, Option, none, some, List, Bytes, Bool-cases, inl, inr,
  arith,
}
use dvpnd.Prelude.Base64.{encode}
use dvpnd.Prelude.Results.{Err, Result}
use dvpnd.Service.{Usage, Service, ServiceLaws, IsPeerData, Added, Removed}
use dvpnd.PeerSet.{PeerSet, has, put, delete, len}
use dvpnd.PeerSet.Proxies.{view-Unchanged, view-Added, view-Removed, view-count}
use dvpnd.Xray.Fields.{Protowire}
use dvpnd.Xray.Answers.{AddAnswer, RemoveAnswer, add_peer-Answer, remove_peer-Answer}
use dvpnd.Xray.{
  Xray, Reply, replied, not_found, failed, client_conn, invoke, check_peer_data, has_peer,
  peer_count, add_over, added, add_peer, remove_over, forgotten, remove_peer, peers,
}

-- The answer of Peers; that the call is counted and opens the connection is left out here.
unfoldable pub usages : Protowire → Xray → Result (List Usage)
unfolding peers
usages w s = (peers w s).0

abbrev pub service : Protowire → Service
service w = record {
  State = Xray;
  add_peer = add_peer w;
  has_peer = has_peer;
  remove_peer = remove_peer w;
  peers = usages w;
  peer_count = peer_count;
}

abbrev view : Xray → PeerSet
view s = s.peers

client_conn-peers : (s : Xray) → (client_conn s).1.peers ≡ s.peers
unfolding client_conn
client_conn-peers s = ground arith

module _ (w : Protowire) where
  has-view : (d : Bytes) (s : Xray) → has_peer d s ≡ has (encode d) s.peers
  unfolding has_peer
  has-view d s = refl

  count_view : (s : Xray) → peer_count s ≡ len s.peers
  unfolding peer_count
  count_view s = refl

  added-Added :
      (d : Bytes) (s : Xray) (r : Reply × Xray)
      → IsPeerData d
      → r.1.peers ≡ s.peers
      → Added (service w) d s (added (encode d) r)
  added-Added d s (replied b, x) p h =
      view-Added (service w) (λ x. Unit) view (λ e x g. has-view e x) count_view d s _ p tt tt
        (ap (put (encode d)) h)
  added-Added d s (not_found, x) p h =
      view-Unchanged (service w) (λ x. Unit) view (λ e x g. has-view e x) count_view s x tt tt h
  added-Added d s (failed, x) p h =
      view-Unchanged (service w) (λ x. Unit) view (λ e x g. has-view e x) count_view s x tt tt h

  add_over-Added :
      (d : Bytes) (s : Xray) (c : Bool × Xray)
      → IsPeerData d
      → c.1.peers ≡ s.peers
      → Added (service w) d s (add_over w d c)
  unfolding add_over invoke
  add_over-Added d s (false, x) p h =
      view-Unchanged (service w) (λ x. Unit) view (λ e x g. has-view e x) count_view s x tt tt h
  add_over-Added d s (true, x) p h = added-Added d s _ p h

  pub add_peer-Added :
      (d : Bytes) (s : Xray) → IsPeerData d → Added (service w) d s (add_peer w d s)
  unfolding add_peer
  add_peer-Added d s p = elim (Bool-cases (check_peer_data d)) [
    | inl y ↦ rw y (add_over-Added d s (client_conn s) p (client_conn-peers s))
    | inr n ↦ rw n (
        view-Unchanged (service w) (λ x. Unit) view (λ e x g. has-view e x) count_view s s tt tt
          refl)
  ]

  -- Of a removal, whatever the data: an error leaves the set, no error deletes the key.
  abbrev pub Deleted : Bytes → Xray → Option Err × Xray → Type 0
  Deleted d s (some e, y) = y.peers ≡ s.peers
  Deleted d s (none, y) = y.peers ≡ delete (encode d) s.peers

  forgotten-Deleted :
      (d : Bytes) (s : Xray) (r : Reply × Xray)
      → r.1.peers ≡ s.peers
      → Deleted d s (forgotten (encode d) r)
  forgotten-Deleted d s (replied b, x) h = ap (delete (encode d)) h
  forgotten-Deleted d s (not_found, x) h = ap (delete (encode d)) h
  forgotten-Deleted d s (failed, x) h = h

  remove_over-Deleted :
      (d : Bytes) (s : Xray) (c : Bool × Xray)
      → c.1.peers ≡ s.peers
      → Deleted d s (remove_over w d c)
  unfolding remove_over invoke
  remove_over-Deleted d s (false, x) h = h
  remove_over-Deleted d s (true, x) h = forgotten-Deleted d s _ h

  pub remove_peer-Deleted : (d : Bytes) (s : Xray) → Deleted d s (remove_peer w d s)
  unfolding remove_peer
  remove_peer-Deleted d s = elim (Bool-cases (check_peer_data d)) [
    | inl y ↦ rw y (remove_over-Deleted d s (client_conn s) (client_conn-peers s))
    | inr n ↦ rw n refl
  ]

  pub Removed-of :
      (d : Bytes) (s : Xray) (r : Option Err × Xray)
      → IsPeerData d
      → Deleted d s r
      → Removed (service w) d s r
  Removed-of d s (some e, y) p h =
      view-Unchanged (service w) (λ x. Unit) view (λ e x g. has-view e x) count_view s y tt tt h
  Removed-of d s (none, y) p h =
      view-Removed (service w) (λ x. Unit) view (λ e x g. has-view e x) count_view d s y p tt tt h

  pub count-of :
      (d : Bytes) (s : Xray) (r : Option Err × Xray) → Deleted d s r → peer_count r.1 ≤ peer_count s
  count-of d s (some e, y) h = omega (arith, count_view y, count_view s, ap len h)
  count-of d s (none, y) h =
      view-count (service w) (λ x. Unit) view (λ e x g. has-view e x) count_view d s y h

  abbrev pub service_laws : ServiceLaws (service w)
  service_laws = record {
    IsValid = λ s. Unit;
    add-IsValid = λ d s p v. tt;
    remove-IsValid = λ d s v. tt;
    remove-count = λ d s v. count-of d s (remove_peer w d s) (remove_peer-Deleted d s);
    add-Added = λ d s p v. add_peer-Added d s p;
    remove-Removed = λ d s p v. Removed-of d s (remove_peer w d s) p (remove_peer-Deleted d s);
  }

  -- For well-formed peer data, AddPeer and RemovePeer of xray do to the peer set what the service
  -- interface promises; AddPeer fails just if its data are bad, there is no connection or the API
  -- gives an error, and RemovePeer just if so, but for the error that the user is not found.
  pub xray_promises :
      (d : Bytes) (s : Xray)
      → IsPeerData d
      → Added (service w) d s (add_peer w d s)
        × AddAnswer d s (add_peer w d s).0
        × Removed (service w) d s (remove_peer w d s)
        × RemoveAnswer d s (remove_peer w d s).0
  xray_promises d s p = (
    add_peer-Added d s p,
    add_peer-Answer w d s,
    Removed-of d s (remove_peer w d s) p (remove_peer-Deleted d s),
    remove_peer-Answer w d s,
  )
