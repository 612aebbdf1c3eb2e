-- ===== src/Uuid/Roster.antt =====
-- A map from canonical UUIDs that follows a peer set: an entry for each registered UUID and no other.
use dvpnd.Prelude.{
  ◌≡◌, refl, ap, Bool, true, false, Option, none, some, List, [], ◌∷◌, Bytes, bytes_eq,
  bytes_eq-true, Bool-cases, inl, inr, if◌then◌else◌,
}
use dvpnd.Prelude.Base64.{encode}
use dvpnd.Prelude.Table.{lookup, erase, lookup-erase}
use dvpnd.PeerSet.{PeerSet, new_peer_set, among, has, put, delete}
use dvpnd.PeerSet.Histories.{has-put, has-delete}
use dvpnd.Uuid.{format_uuid}
use dvpnd.Uuid.RoundTrip.{IsUuid}
use dvpnd.Uuid.Keys.{format_uuid_eq, encode_eq}

module _ {A : Type 0} (key : A → Bytes) (entry : Bytes → A) where
  abbrev pub entry_if : Bool → Bytes → Option A
  entry_if true d = some (entry d)
  entry_if false d = none

  abbrev pub Roster : List A → PeerSet → Type 0
  Roster xs p =
      (d : Bytes) → IsUuid d → lookup key (format_uuid d) xs ≡ entry_if (has (encode d) p) d

  entry_after :
      (d e : Bytes) (b : Bool)
      → (if bytes_eq d e then entry_if true d else (if bytes_eq d e then none else entry_if b e))
        ≡ entry_if (if bytes_eq d e then true else b) e
  entry_after d e b = elim (Bool-cases (bytes_eq d e)) [
    | inl y ↦ rw y (ap (entry_if true) (bytes_eq-true d e y))
    | inr n ↦ rw n refl
  ]

  entry_without :
      (d e : Bytes) (b : Bool)
      → (if bytes_eq d e then none else entry_if b e)
        ≡ entry_if (if bytes_eq d e then false else b) e
  entry_without d e b = elim (Bool-cases (bytes_eq d e)) [ inl y ↦ rw y refl | inr n ↦ rw n refl ]

  pub Roster-empty : Roster [] new_peer_set
  Roster-empty d u = unfold lookup has new_peer_set among in refl

  module _ (xs : List A) (p : PeerSet) (r : Roster xs p) (d : Bytes) (u : IsUuid d) where
    pub Roster-put :
        key (entry d) ≡ format_uuid d
        → Roster (entry d ∷ erase key (format_uuid d) xs) (put (encode d) p)
    unfolding lookup
    Roster-put k e v =
        rw (has-put (encode d) (encode e) p, encode_eq d e u v)
          (rw k (
            rw (lookup-erase key (format_uuid d) (format_uuid e) xs)
              (rw (format_uuid_eq d e u v) (rw (r e v) (entry_after d e (has (encode e) p))))))

    pub Roster-delete : Roster (erase key (format_uuid d) xs) (delete (encode d) p)
    Roster-delete e v =
        rw (has-delete (encode d) (encode e) p, encode_eq d e u v)
          (rw (lookup-erase key (format_uuid d) (format_uuid e) xs)
            (rw (format_uuid_eq d e u v, r e v) (entry_without d e (has (encode e) p))))
