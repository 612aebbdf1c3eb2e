-- ===== src/WireGuard/Members.antt =====
-- The registered peers: which keys HasPeer answers for, after each change of the map.
use dvpnd.Prelude.{
  suc, ◌≤◌, ◌<◌, ◌≡◌, refl, ◌∙◌, sym, ap, Bool, true, false, not, Option, none, some, [], ◌∷◌, All,
  Bytes, bytes_eq, bytes_eq_refl, bytes_eq-true, bytes_eq_iff, Bool-cases, Option-cases, inl, inr,
  if◌then◌else◌, arith, length,
}
use dvpnd.Prelude.Table.{lookup, erase, lookup-erase, lookup-key, length-erase}
use dvpnd.Prelude.Base64.{encode, decode}
use dvpnd.Prelude.Base64.RoundTrip.{decode-encode}
use dvpnd.Pool.{IpPool}
use dvpnd.Service.{IsPeerData}
use dvpnd.WireGuard.{
  WireGuard, Peer, Peers, identity_of, or_zero, peer_empty, get_peer, put_peer, delete_peer,
  peers_len, has_peer, peer_count,
}

-- Every peer has an identity.
abbrev pub Named : Peers → Type 0
Named = All (λ p. bytes_eq p.identity [] ≡ false)

abbrev pub is_some {ℓ} : {A : Type ℓ} → Option A → Bool
is_some none = false
is_some (some a) = true

pub Named-lookup :
    (k : Bytes) (ps : Peers)
    → Named ps
    → not (peer_empty (or_zero (lookup identity_of k ps))) ≡ is_some (lookup identity_of k ps)
unfolding lookup peer_empty bytes_eq
Named-lookup k [] n = refl
Named-lookup k (p ∷ ps) n = ground (arith, Named-lookup k ps n.1)

pub has-lookup :
    (d : Bytes) (s : WireGuard)
    → Named s.peers
    → has_peer d s ≡ is_some (lookup identity_of (encode d) s.peers)
unfolding has_peer
has-lookup d s n = Named-lookup (encode d) s.peers n

pub encode-not_empty : (d : Bytes) → 0 < length d → bytes_eq (encode d) [] ≡ false
unfolding encode bytes_eq
encode-not_empty [] h = elim h [ ]
encode-not_empty (a ∷ []) h = refl
encode-not_empty (a ∷ b ∷ []) h = refl
encode-not_empty (a ∷ b ∷ c ∷ rest) h = refl

-- Different peer data have different identities.
pub encode-ne :
    (d e : Bytes)
    → IsPeerData d
    → IsPeerData e
    → bytes_eq d e ≡ false
    → bytes_eq (encode d) (encode e) ≡ false
encode-ne d e p q h = elim (Bool-cases (bytes_eq (encode d) (encode e))) [
  | inr r ↦ r
  | inl r ↦
      let same : some d ≡ some e =
        sym (decode-encode d p.in_bytes)
        ∙ ap decode (bytes_eq-true _ _ r)
        ∙ decode-encode e q.in_bytes in
      let equal : d ≡ e = cc in cc (h, rw equal at (bytes_eq_refl d))
]

pub put-Named :
    (ps : Peers) (p : Peer) → bytes_eq p.identity [] ≡ false → Named ps → Named (put_peer ps p)
unfolding put_peer
put-Named ps p h n = elim (Option-cases (lookup identity_of p.identity ps)) [
  | inl e ↦ rw e (h, n)
  | inr (q, e) ↦ rw e n
]

pub lookup-put :
    (k : Bytes) (ps : Peers) (p : Peer)
    → is_some (lookup identity_of k (put_peer ps p))
      ≡ (if bytes_eq p.identity k then true else is_some (lookup identity_of k ps))
unfolding put_peer
lookup-put k ps p = elim (Option-cases (lookup identity_of p.identity ps)) [
  | inl e ↦ rw e (unfold lookup in ground arith)
  | inr (q, e) ↦ rw e (ground (arith, bytes_eq_iff p.identity k))
]

pub length-put : (ps : Peers) (p : Peer) → peers_len (put_peer ps p) ≤ suc (peers_len ps)
unfolding put_peer peers_len
length-put ps p = elim (Option-cases (lookup identity_of p.identity ps)) [
  | inl e ↦ rw e (omega arith)
  | inr (q, e) ↦ rw e (omega arith)
]

pub has-same : (e : Bytes) (x s : WireGuard) → x.peers ≡ s.peers → has_peer e x ≡ has_peer e s
unfolding has_peer
has-same e x s h = ap (λ ps. not (peer_empty (get_peer ps (encode e)))) h

pub count-same : (x s : WireGuard) → x.peers ≡ s.peers → peer_count x ≡ peer_count s
unfolding peer_count
count-same x s h = ap peers_len h

pub has-put :
    (e : Bytes) (x : WireGuard) (p : Peer)
    → bytes_eq p.identity [] ≡ false
    → Named x.peers
    → has_peer e (record x { peers = put_peer x.peers p })
      ≡ (if bytes_eq p.identity (encode e) then true else has_peer e x)
has-put e x p h n =
    has-lookup e _ (put-Named x.peers p h n)
    ∙ lookup-put (encode e) x.peers p
    ∙ ap (λ b. if bytes_eq p.identity (encode e) then true else b) (sym (has-lookup e x n))

pub is_some-erase :
    (k j : Bytes) (ps : Peers)
    → is_some (lookup identity_of j (erase identity_of k ps))
      ≡ (if bytes_eq k j then false else is_some (lookup identity_of j ps))
is_some-erase k j ps = ground (arith, lookup-erase identity_of k j ps)

pub erase-Named : (k : Bytes) (ps : Peers) → Named ps → Named (erase identity_of k ps)
unfolding erase
erase-Named k [] n = tt
erase-Named k (p ∷ ps) n = ground (arith, erase-Named k ps n.1)

pub has-delete :
    (e k : Bytes) (x : WireGuard) (q : IpPool)
    → Named x.peers
    → has_peer e (record x { peers = delete_peer x.peers k; pool = q })
      ≡ (if bytes_eq k (encode e) then false else has_peer e x)
unfolding delete_peer
has-delete e k x q n =
    has-lookup e _ (erase-Named k x.peers n)
    ∙ is_some-erase k (encode e) x.peers
    ∙ ap (λ b. if bytes_eq k (encode e) then false else b) (sym (has-lookup e x n))

pub count-delete :
    (k : Bytes) (x : WireGuard) (q : IpPool)
    → peer_count (record x { peers = delete_peer x.peers k; pool = q }) ≤ peer_count x
unfolding peer_count delete_peer
count-delete k x q = length-erase identity_of k x.peers

-- The peer that RemovePeer finds has the identity it was looked up by.
pub found-identity :
    (k : Bytes) (ps : Peers)
    → Named ps
    → peer_empty (get_peer ps k) ≡ false
    → (get_peer ps k).identity ≡ k
unfolding get_peer
found-identity k ps n h = elim (Option-cases (lookup identity_of k ps)) [
  | inr (q, e) ↦ rw e (lookup-key identity_of k ps q e)
  | inl e ↦ absurd (unfold peer_empty bytes_eq in cc)
]
