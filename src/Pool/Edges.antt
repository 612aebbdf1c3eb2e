-- ===== src/Pool/Edges.antt =====
-- The loop of IPv4Pool.Get: three rounds reach an address off the edges.
use native.Mathlib.Nat.{pow-suc}
use dvpnd.Prelude.{
  ℕ, suc, ◌+◌, ◌*◌, ◌%◌, ◌^◌, ◌<◌, ◌≤◌, ◌≡◌, ◌∙◌, true, false, ◌||◌, List, [], ◌∷◌, ◌==◌, All,
  Bool-cases, inl, inr, arith, length,
}
use dvpnd.Address.{Ip, IsByte, from_bytes, next, IsAddress}
use dvpnd.Address.Next.{next-from_bytes}
use dvpnd.Pool.{last_byte, is_edge, skip, skip_rounds}

drop_high : (a q v : ℕ) → (a * (q * 256) + v) % 256 ≡ v % 256
drop_high a q v = omega arith

last_byte-mod :
    (b : ℕ) (bs : List ℕ) → All IsByte (b ∷ bs) → from_bytes (b ∷ bs) % 256 ≡ last_byte (b ∷ bs)
unfolding from_bytes last_byte
last_byte-mod b [] h = omega arith
last_byte-mod a (b ∷ bs) h =
    rw (pow-suc 256 (length bs))
      (drop_high a (256 ^ length bs) (from_bytes (b ∷ bs)) ∙ last_byte-mod b bs h.1)

last_byte-address : (n : ℕ) (ip : Ip) → IsAddress n ip → from_bytes ip % 256 ≡ last_byte ip
last_byte-address n [] a = absurd (omega (arith, a.size))
last_byte-address n (b ∷ bs) a = last_byte-mod b bs a.bytes

is_edge-mod :
    (n : ℕ) (ip : Ip)
    → IsAddress n ip
    → is_edge ip ≡ (from_bytes ip % 256 == 0 || from_bytes ip % 256 == 255)
unfolding is_edge
is_edge-mod n ip a = rw (last_byte-address n ip a)

-- From an address that is two below the top of the space if it is on an edge, the loop that skips
-- the edges ends within three rounds, off the edges and not below where it began.
pub skip_ends :
    (n : ℕ) (ip : Ip)
    → IsAddress n ip
    → (is_edge ip ≡ true → from_bytes ip + 2 < 256 ^ suc n)
    → (is_edge (skip skip_rounds ip) ≡ false)
      × IsAddress n (skip skip_rounds ip)
      × (from_bytes ip ≤ from_bytes (skip skip_rounds ip))
unfolding skip
skip_ends n ip a room = elim (Bool-cases (is_edge ip)) [
  | inr e ↦ rw e (e, a, omega arith)
  | inl e ↦ rw e (second e)
]
  where
    second :
        is_edge ip ≡ true
        → (is_edge (skip 2 (next ip)) ≡ false)
          × IsAddress n (skip 2 (next ip))
          × (from_bytes ip ≤ from_bytes (skip 2 (next ip)))
    second e =
        let (v, b) = next-from_bytes n ip a (omega (arith, room e)) in
        elim (Bool-cases (is_edge (next ip))) [
          | inr e' ↦ rw e' (e', b, omega arith)
          | inl e' ↦
              let (v', b') = next-from_bytes n (next ip) b (omega (arith, room e)) in
              let e'' : is_edge (next (next ip)) ≡ false = ground (
                arith,
                is_edge-mod n ip a,
                is_edge-mod n (next ip) b,
                is_edge-mod n (next (next ip)) b',
              ) in
              rw e' (rw e'' (e'', b', omega arith))
        ]
