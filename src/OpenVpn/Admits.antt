-- ===== src/OpenVpn/Admits.antt =====
-- The server may admit exactly the registered peers, after any history of calls and disconnections.
use dvpnd.Prelude.{
  ℕ, suc, ◌==◌, ◌≡◌, refl, ap, ◌∙◌, Bool, true, false, Option, none, some, [], Bytes, All, length,
  Bool-cases, inl, inr, ==_iff, ◌<◌,
}
use dvpnd.Prelude.Int.{ℤ}
use dvpnd.Prelude.Base64.{encode}
use dvpnd.Prelude.Table.{lookup}
use dvpnd.PeerSet.{new_peer_set, has}
use dvpnd.Uuid.{format_uuid}
use dvpnd.Uuid.RoundTrip.{IsUuid}
use dvpnd.Uuid.Roster.{Roster, entry_if, Roster-empty, Roster-put, Roster-delete}
use dvpnd.OpenVpn.Status.{Console}
use dvpnd.OpenVpn.{
  OpenVpn, Holder, holder_name, is_held, admit, banked, disconnected, check_peer_data, register,
  issued_to, add_peer, has_peer, forget, killed, remove_peer,
}

-- The state after a history of calls with peer data that are bytes, and of clients that left; a
-- running server's management client may come and go.
pub data Reach : OpenVpn → Type 0 where
  started :
      (pki : Bool) (issue : ℕ → Bytes → Option (Bytes × Bytes))
      → Reach (record {
        by_cn = [];
        closed = [];
        peers = new_peer_set;
        pki = pki;
        issue = issue;
        issued = 0;
        mgmt = none;
      })
  attached : (c : Option Console) (s : OpenVpn) → Reach s → Reach (record s { mgmt = c })
  adding : (d : Bytes) (s : OpenVpn) → All (λ b. b < 256) d → Reach s → Reach (add_peer d s).1
  removing : (d : Bytes) (s : OpenVpn) → All (λ b. b < 256) d → Reach s → Reach (remove_peer d s).1
  leaving :
      (common_name : Bytes) (received sent : ℤ) (s : OpenVpn)
      → Reach s
      → Reach (disconnected common_name received sent s)

abbrev holder : Bytes → Holder
holder d = record { common_name = format_uuid d; key = encode d }

abbrev Holders : OpenVpn → Type 0
Holders s = Roster holder_name holder s.by_cn s.peers

module _ (d : Bytes) (h : All (λ b. b < 256) d) (s : OpenVpn) (l : Holders s) where
  issued_to-Holders :
      (o : Option (Bytes × Bytes)) → (length d == 16) ≡ true → Holders (issued_to d s o).1
  unfolding issued_to register
  issued_to-Holders none y = l
  issued_to-Holders (some (cert, key)) y =
      Roster-put holder_name holder s.by_cn s.peers l d ((==_iff (length d) 16).0 y, h) refl

  killed-Holders :
      (c : Option Console)
      → (length d == 16) ≡ true
      → Holders (killed (format_uuid d) (forget d s) c).1
  unfolding killed forget
  killed-Holders none y =
      Roster-delete holder_name holder s.by_cn s.peers l d ((==_iff (length d) 16).0 y, h)
  killed-Holders (some c) y =
      Roster-delete holder_name holder s.by_cn s.peers l d ((==_iff (length d) 16).0 y, h)

add_peer-Holders :
    (d : Bytes) (s : OpenVpn) → All (λ b. b < 256) d → Holders s → Holders (add_peer d s).1
unfolding add_peer check_peer_data
add_peer-Holders d s h l = elim (Bool-cases (length d == 16)) [
  | inr n ↦ rw n l
  | inl y ↦ rw y (elim (Bool-cases s.pki) [
    | inr m ↦ rw m l
    | inl z ↦ rw z (
        issued_to-Holders d h (record s { pki = true; issued = suc s.issued }) l
          (s.issue s.issued (format_uuid d)) y)
  ])
]

remove_peer-Holders :
    (d : Bytes) (s : OpenVpn) → All (λ b. b < 256) d → Holders s → Holders (remove_peer d s).1
unfolding remove_peer check_peer_data
remove_peer-Holders d s h l = elim (Bool-cases (length d == 16)) [
  | inl y ↦ rw y (killed-Holders d h s l s.mgmt y)
  | inr n ↦ rw n l
]

banked-Holders :
    (received sent : ℤ) (s : OpenVpn) (o : Option Holder)
    → Holders s
    → Holders (banked received sent s o)
unfolding banked
banked-Holders received sent s none l = l
banked-Holders received sent s (some h) l = l

disconnected-Holders :
    (common_name : Bytes) (received sent : ℤ) (s : OpenVpn)
    → Holders s
    → Holders (disconnected common_name received sent s)
unfolding disconnected
disconnected-Holders common_name received sent s l =
    banked-Holders received sent s (lookup holder_name common_name s.by_cn) l

Reach-Holders : (s : OpenVpn) → Reach s → Holders s
Reach-Holders s (started pki issue) = Roster-empty holder_name holder
Reach-Holders s (attached c t r) = Reach-Holders t r
Reach-Holders s (adding d t h r) = add_peer-Holders d t h (Reach-Holders t r)
Reach-Holders s (removing d t h r) = remove_peer-Holders d t h (Reach-Holders t r)
Reach-Holders s (leaving cn received sent t r) =
    disconnected-Holders cn received sent t (Reach-Holders t r)

held_if : (b : Bool) (d : Bytes) → is_held (entry_if holder_name holder b d) ≡ b
held_if true d = refl
held_if false d = refl

-- After any history of AddPeer, RemovePeer and disconnections, whatever the management interface and
-- the certificates did, `admit` of the common name of a 16-byte UUID is exactly HasPeer of that UUID.
pub admit-has_peer :
    (s : OpenVpn) (d : Bytes) → Reach s → IsUuid d → admit (format_uuid d) s ≡ has_peer d s
unfolding admit has_peer
admit-has_peer s d r u = ap is_held (Reach-Holders s r d u) ∙ held_if (has (encode d) s.peers) d
