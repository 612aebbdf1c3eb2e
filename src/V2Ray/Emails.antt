-- ===== src/V2Ray/Emails.antt =====
-- The emails of the registered users, as a peer set.
use dvpnd.Prelude.{
  suc, ◌≡◌, refl, ap, ◌∙◌, Bool, true, false, not, Option, none, some, List, [], ◌∷◌, length, All,
  Bytes, bytes_eq, Bool-cases, inl, inr,
}
use dvpnd.Prelude.Base64.{encode}
use dvpnd.Prelude.Table.{lookup, erase}
use dvpnd.PeerSet.{PeerSet, has, put, delete, len, among, without}
use dvpnd.V2Ray.{
  V2Ray, Peer, email_of, peer_empty, get_peer, put_peer, put_absent, delete_peer, has_peer,
  peer_count,
}

unfoldable pub emails : List Peer → List Bytes
emails [] = []
emails (p ∷ ps) = p.email ∷ emails ps

-- The map's keys are a peer set.
unfoldable pub view : V2Ray → PeerSet
unfolding emails
view s = record { keys = emails s.peers }

-- Every peer has an email.
abbrev pub Named : V2Ray → Type 0
Named s = All (λ p. bytes_eq p.email [] ≡ false) s.peers

pub has_emails :
    (k : Bytes) (ps : List Peer)
    → All (λ p. bytes_eq p.email [] ≡ false) ps
    → not (peer_empty (get_peer k ps)) ≡ among k (emails ps)
unfolding get_peer lookup among emails bytes_eq
has_emails k [] n = refl
has_emails k (p ∷ ps) n = elim (Bool-cases (bytes_eq p.email k)) [
  | inl y ↦ rw y (rw n.0 refl)
  | inr m ↦ rw m (has_emails k ps n.1)
]

pub has-view : (d : Bytes) (s : V2Ray) → Named s → has_peer d s ≡ has (encode d) (view s)
unfolding has_peer has view
has-view d s n = has_emails (encode d) s.peers n

pub length-emails : (ps : List Peer) → length ps ≡ length (emails ps)
unfolding emails
length-emails [] = refl
length-emails (p ∷ ps) = ap suc (length-emails ps)

pub count_view : (s : V2Ray) → peer_count s ≡ len (view s)
unfolding peer_count len view
count_view s = length-emails s.peers

abbrev pub found : Option Peer → Bool
found none = false
found (some p) = true

pub among-lookup : (e : Bytes) (ps : List Peer) → among e (emails ps) ≡ found (lookup email_of e ps)
unfolding among emails lookup
among-lookup e [] = refl
among-lookup e (p ∷ ps) = elim (Bool-cases (bytes_eq p.email e)) [
  | inl y ↦ rw y refl
  | inr n ↦ rw n (among-lookup e ps)
]

pub emails-put :
    (e : Bytes) (ps : List Peer) (o : Option Peer)
    → lookup email_of e ps ≡ o
    → record { keys = emails (put_absent (record { email = e }) ps o) }
      ≡ put e (record { keys = emails ps })
unfolding put emails
emails-put e ps none h = rw (among-lookup e ps ∙ ap found h) refl
emails-put e ps (some p) h = rw (among-lookup e ps ∙ ap found h) refl

pub view-put :
    (e : Bytes) (s : V2Ray)
    → view (record s { peers = put_peer (record { email = e }) s.peers }) ≡ put e (view s)
unfolding view put_peer
view-put e s = emails-put e s.peers _ refl

pub emails-delete : (e : Bytes) (ps : List Peer) → emails (delete_peer e ps) ≡ without e (emails ps)
unfolding delete_peer erase without emails
emails-delete e [] = refl
emails-delete e (p ∷ ps) = elim (Bool-cases (bytes_eq p.email e)) [
  | inl y ↦ rw y (emails-delete e ps)
  | inr n ↦ rw n (ap (λ ks. p.email ∷ ks) (emails-delete e ps))
]

pub view-delete :
    (e : Bytes) (s : V2Ray) → view (record s { peers = delete_peer e s.peers }) ≡ delete e (view s)
unfolding view delete
view-delete e s = ap (λ ks. record { keys = ks }) (emails-delete e s.peers)

pub put-Named :
    (e : Bytes) (ps : List Peer) (o : Option Peer)
    → bytes_eq e [] ≡ false
    → All (λ p. bytes_eq p.email [] ≡ false) ps
    → All (λ p. bytes_eq p.email [] ≡ false) (put_absent (record { email = e }) ps o)
put-Named e ps none h n = (h, n)
put-Named e ps (some p) h n = n

pub erase-Named :
    (e : Bytes) (ps : List Peer)
    → All (λ p. bytes_eq p.email [] ≡ false) ps
    → All (λ p. bytes_eq p.email [] ≡ false) (delete_peer e ps)
unfolding delete_peer erase
erase-Named e [] n = tt
erase-Named e (p ∷ ps) n = elim (Bool-cases (bytes_eq p.email e)) [
  | inl y ↦ rw y (erase-Named e ps n.1)
  | inr m ↦ rw m (n.0, erase-Named e ps n.1)
]
