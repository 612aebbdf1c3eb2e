-- ===== src/PeerSet/Members.antt =====
-- A proxy's peers, each registered under the base64 of its peer data, as the service interface sees
-- them: what Put and Delete do to the keys that Has answers for, and to Len.
use dvpnd.Prelude.{
  suc, ◌≤◌, ◌≡◌, refl, ◌∙◌, true, false, [], ◌∷◌, Bytes, bytes_eq, bytes_eq_refl, Bool-cases, inl,
  inr, List, length, arith,
}
use dvpnd.Prelude.Base64.{encode}
use dvpnd.Service.{IsPeerData}
use dvpnd.WireGuard.Members.{encode-ne}
use dvpnd.PeerSet.{PeerSet, has, put, delete, len, among, without}
use dvpnd.PeerSet.Histories.{has-put, has-delete}

pub has-put_self : (d : Bytes) (p : PeerSet) → has (encode d) (put (encode d) p) ≡ true
has-put_self d p = has-put (encode d) (encode d) p ∙ rw (bytes_eq_refl (encode d)) refl

pub has-delete_self : (d : Bytes) (p : PeerSet) → has (encode d) (delete (encode d) p) ≡ false
has-delete_self d p = has-delete (encode d) (encode d) p ∙ rw (bytes_eq_refl (encode d)) refl

module _ (d e : Bytes) (p : PeerSet) (hd : IsPeerData d) (he : IsPeerData e)
    (ne : bytes_eq d e ≡ false) where
  pub has-put_other : has (encode e) (put (encode d) p) ≡ has (encode e) p
  has-put_other = has-put (encode d) (encode e) p ∙ rw (encode-ne d e hd he ne) refl

  pub has-delete_other : has (encode e) (delete (encode d) p) ≡ has (encode e) p
  has-delete_other = has-delete (encode d) (encode e) p ∙ rw (encode-ne d e hd he ne) refl

pub len-put : (k : Bytes) (p : PeerSet) → len (put k p) ≤ suc (len p)
unfolding len put
len-put k p = elim (Bool-cases (among k p.keys)) [
  | inl y ↦ rw y (omega arith)
  | inr n ↦ rw n (omega arith)
]

length-without : (k : Bytes) (xs : List Bytes) → length (without k xs) ≤ length xs
unfolding without
length-without k [] = omega arith
length-without k (x ∷ xs) = ground (arith, length-without k xs)

pub len-delete : (k : Bytes) (p : PeerSet) → len (delete k p) ≤ len p
unfolding len delete
len-delete k p = length-without k p.keys
