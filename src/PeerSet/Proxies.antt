-- ===== src/PeerSet/Proxies.antt =====
-- A service whose good states show a peer set: what it owes the service interface comes from what it
-- does to that set.
use dvpnd.Prelude.{suc, ◌≤◌, ◌≡◌, sym, ap, ◌∙◌, true, false, Bytes, arith}
use dvpnd.Prelude.Base64.{encode}
use dvpnd.Service.{Service, IsPeerData, SameBut, Unchanged}
use dvpnd.PeerSet.{PeerSet, has, put, delete, len}
use dvpnd.PeerSet.Members.{
  has-put_self, has-put_other, has-delete_self, has-delete_other, len-put, len-delete,
}

module _ (s : Service) (Good : s.State → Type 0) (view : s.State → PeerSet)
    (has-view : (d : Bytes) (x : s.State) → Good x → s.has_peer d x ≡ has (encode d) (view x))
    (count_view : (x : s.State) → s.peer_count x ≡ len (view x)) where
  pub view-Unchanged : (x y : s.State) → Good x → Good y → view y ≡ view x → Unchanged s x y
  view-Unchanged x y gx gy h = (
    λ e. has-view e y gy ∙ ap (has (encode e)) h ∙ sym (has-view e x gx),
    count_view y ∙ ap len h ∙ sym (count_view x),
  )

  pub view-Added :
      (d : Bytes) (x y : s.State)
      → IsPeerData d
      → Good x
      → Good y
      → view y ≡ put (encode d) (view x)
      → (s.has_peer d y ≡ true) × SameBut s d x y × (s.peer_count y ≤ suc (s.peer_count x))
  view-Added d x y p gx gy h = (
    has-view d y gy ∙ ap (has (encode d)) h ∙ has-put_self d (view x),
    λ e q ne.
        has-view e y gy
        ∙ ap (has (encode e)) h
        ∙ has-put_other d e (view x) p q ne
        ∙ sym (has-view e x gx),
    omega (arith, count_view y, count_view x, ap len h, len-put (encode d) (view x)),
  )

  pub view-count :
      (d : Bytes) (x y : s.State)
      → view y ≡ delete (encode d) (view x)
      → s.peer_count y ≤ s.peer_count x
  view-count d x y h =
      omega (arith, count_view y, count_view x, ap len h, len-delete (encode d) (view x))

  pub view-Removed :
      (d : Bytes) (x y : s.State)
      → IsPeerData d
      → Good x
      → Good y
      → view y ≡ delete (encode d) (view x)
      → (s.has_peer d y ≡ false) × SameBut s d x y × (s.peer_count y ≤ s.peer_count x)
  view-Removed d x y p gx gy h = (
    has-view d y gy ∙ ap (has (encode d)) h ∙ has-delete_self d (view x),
    λ e q ne.
        has-view e y gy
        ∙ ap (has (encode e)) h
        ∙ has-delete_other d e (view x) p q ne
        ∙ sym (has-view e x gx),
    view-count d x y h,
  )
