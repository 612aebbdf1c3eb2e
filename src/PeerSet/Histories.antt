-- ===== src/PeerSet/Histories.antt =====
-- A peer set after any history of calls: the last call on a key decides whether it is there.
use dvpnd.Prelude.{
  ◌≡◌, refl, Bool, true, false, ◌||◌, List, [], ◌∷◌, Bytes, bytes_eq, bytes_eq_iff, bytes_eq-true,
  if◌then◌else◌, Bool-cases, inl, inr, arith,
}
use dvpnd.PeerSet.{PeerSet, new_peer_set, among, without, has, put, delete}

pub data Call : Type 0 where
  registered : Bytes → Call
  dropped : Bytes → Call

abbrev pub apply : Call → PeerSet → PeerSet
apply (registered key) p = put key p
apply (dropped key) p = delete key p

-- The calls, the last one first.
unfoldable pub after_calls : List Call → PeerSet
after_calls [] = new_peer_set
after_calls (c ∷ cs) = apply c (after_calls cs)

-- What the calls say of a key.
unfoldable pub last_says : Bytes → List Call → Bool
last_says key [] = false
last_says key (registered k ∷ cs) = if bytes_eq k key then true else last_says key cs
last_says key (dropped k ∷ cs) = if bytes_eq k key then false else last_says key cs

among-without :
    (k j : Bytes) (xs : List Bytes)
    → among j (without k xs) ≡ (if bytes_eq k j then false else among j xs)
unfolding among without
among-without k j [] = ground arith
among-without k j (x ∷ xs) =
    ground (arith, among-without k j xs, bytes_eq_iff x k, bytes_eq_iff k j, bytes_eq_iff x j)

pub has-put :
    (k j : Bytes) (p : PeerSet) → has j (put k p) ≡ (if bytes_eq k j then true else has j p)
unfolding has put among
has-put k j p = elim (Bool-cases (among k p.keys)) [
  | inr n ↦ rw n (or_if (bytes_eq k j) (among j p.keys))
  | inl y ↦ rw y (elim (Bool-cases (bytes_eq k j)) [
    | inl e ↦ rw (e, ← bytes_eq-true k j e) y
    | inr e ↦ rw e refl
  ])
]
  where
    or_if : (a b : Bool) → (a || b) ≡ (if a then true else b)
    or_if true b = refl
    or_if false b = refl

pub has-delete :
    (k j : Bytes) (p : PeerSet) → has j (delete k p) ≡ (if bytes_eq k j then false else has j p)
unfolding has delete
has-delete k j p = among-without k j p.keys

-- After any history of Put and Delete, Has of a key is what the last call on that key says.
pub has-last_says : (cs : List Call) (key : Bytes) → has key (after_calls cs) ≡ last_says key cs
unfolding after_calls last_says
has-last_says [] key = unfold has new_peer_set among in refl
has-last_says (registered k ∷ cs) key =
    rw (has-put k key (after_calls cs), has-last_says cs key) refl
has-last_says (dropped k ∷ cs) key =
    rw (has-delete k key (after_calls cs), has-last_says cs key) refl
