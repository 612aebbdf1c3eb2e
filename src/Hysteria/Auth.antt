-- ===== src/Hysteria/Auth.antt =====
-- The auth hook admits exactly the registered peers, after any history of calls.
use dvpnd.Prelude.{
  ℕ, ◌==◌, ◌≡◌, refl, ap, ◌∙◌, Bool, true, false, Option, none, some, List, [], Bytes, All, length,
  bytes_eq_refl, Bool-cases, inl, inr, if◌then◌else◌, ==_iff, ◌<◌,
}
use dvpnd.Prelude.Base64.{encode}
use dvpnd.Prelude.Table.{lookup, lookup-erase}
use dvpnd.PeerSet.{new_peer_set, has}
use dvpnd.PeerSet.Members.{has-delete_self}
use dvpnd.Uuid.{format_uuid}
use dvpnd.Uuid.RoundTrip.{IsUuid}
use dvpnd.Uuid.Roster.{Roster, entry_if, Roster-empty, Roster-put, Roster-delete}
use dvpnd.Hysteria.{
  Hysteria, Delta, Login, login_uuid, counters_key, Answer, unreachable, answered, refused,
  admitted, auth_reply, handle_auth, check_peer_data, register, add_peer, has_peer, forget,
  remove_peer, read_answer, totals, counted, peers,
}

-- The state after a history of calls with peer data that are bytes.
pub data Reach (api : ℕ → Answer) : Hysteria → Type 0 where
  started :
      Reach api (record { by_auth = []; traffic = []; peers = new_peer_set; api = api; calls = 0 })
  adding :
      (d : Bytes) (s : Hysteria) → All (λ b. b < 256) d → Reach api s → Reach api (add_peer d s).1
  removing :
      (d : Bytes) (s : Hysteria)
      → All (λ b. b < 256) d
      → Reach api s
      → Reach api (remove_peer d s).1
  reading : (s : Hysteria) → Reach api s → Reach api (peers s).1

abbrev login : Bytes → Login
login d = record { uuid = format_uuid d; key = encode d }

abbrev Logins : Hysteria → Type 0
Logins s = Roster login_uuid login s.by_auth s.peers

add_peer-Logins :
    (d : Bytes) (s : Hysteria) → All (λ b. b < 256) d → Logins s → Logins (add_peer d s).1
unfolding add_peer check_peer_data register
add_peer-Logins d s h l = elim (Bool-cases (length d == 16)) [
  | inl y ↦
      rw y (Roster-put login_uuid login s.by_auth s.peers l d ((==_iff (length d) 16).0 y, h) refl)
  | inr n ↦ rw n l
]

remove_peer-Logins :
    (d : Bytes) (s : Hysteria) → All (λ b. b < 256) d → Logins s → Logins (remove_peer d s).1
unfolding remove_peer check_peer_data forget
remove_peer-Logins d s h l = elim (Bool-cases (length d == 16)) [
  | inl y ↦
      rw y (Roster-delete login_uuid login s.by_auth s.peers l d ((==_iff (length d) 16).0 y, h))
  | inr n ↦ rw n l
]

counted-Logins : (s : Hysteria) (ds : Option (List Delta)) → Logins s → Logins (counted s ds).1
unfolding counted totals
counted-Logins s none l = l
counted-Logins s (some ds) l = l

read_answer-Logins : (s : Hysteria) (a : Answer) → Logins s → Logins (read_answer s a).1
unfolding read_answer
read_answer-Logins s unreachable l = l
read_answer-Logins s (answered status body) l = elim (Bool-cases (status == 200)) [
  | inl y ↦ rw y (counted-Logins s body l)
  | inr n ↦ rw n l
]

peers-Logins : (s : Hysteria) → Logins s → Logins (peers s).1
unfolding peers
peers-Logins s l = read_answer-Logins _ (s.api s.calls) l

Reach-Logins : (api : ℕ → Answer) (s : Hysteria) → Reach api s → Logins s
Reach-Logins api s started = Roster-empty login_uuid login
Reach-Logins api s (adding d t h r) = add_peer-Logins d t h (Reach-Logins api t r)
Reach-Logins api s (removing d t h r) = remove_peer-Logins d t h (Reach-Logins api t r)
Reach-Logins api s (reading t r) = peers-Logins t (Reach-Logins api t r)

answer_if :
    (b : Bool) (d : Bytes)
    → auth_reply (entry_if login_uuid login b d) ≡ (if b then admitted (encode d) else refused)
answer_if true d = refl
answer_if false d = refl

-- After any history of AddPeer, RemovePeer and Peers, whatever the statistics API answered, the
-- auth hook answers a POST with the canonical text of a 16-byte UUID by admitting it under its
-- session key when HasPeer holds of it, and by refusing it otherwise.
pub handle_auth-peers :
    (api : ℕ → Answer) (s : Hysteria) (d : Bytes)
    → Reach api s
    → IsUuid d
    → handle_auth true (some (format_uuid d)) s
      ≡ (if has_peer d s then admitted (encode d) else refused)
unfolding handle_auth has_peer
handle_auth-peers api s d r u =
    ap auth_reply (Reach-Logins api s r d u) ∙ answer_if (has (encode d) s.peers) d

-- RemovePeer of a 16-byte UUID forgets the peer whatever the API answers to the kick, an error
-- included: HasPeer no longer holds, the auth hook refuses its UUID, and its traffic is erased.
pub remove_peer-forgets :
    (s : Hysteria) (d : Bytes)
    → IsUuid d
    → (has_peer d (remove_peer d s).1 ≡ false)
      × (handle_auth true (some (format_uuid d)) (remove_peer d s).1 ≡ refused)
      × (lookup counters_key (encode d) (remove_peer d s).1.traffic ≡ none)
unfolding remove_peer check_peer_data handle_auth
remove_peer-forgets s d u = rw u.0 (
  unfold has_peer forget in has-delete_self d s.peers,
  unfold forget in
      ap auth_reply (lookup-erase login_uuid (format_uuid d) (format_uuid d) s.by_auth)
      ∙ rw (bytes_eq_refl (format_uuid d)) refl,
  unfold forget in
      lookup-erase counters_key (encode d) (encode d) s.traffic
      ∙ rw (bytes_eq_refl (encode d)) refl,
)
