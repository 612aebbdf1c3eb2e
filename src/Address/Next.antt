-- ===== src/Address/Next.antt =====
-- The successor of an address is the address one higher, where the first byte is not zero.
use native.Mathlib.Nat.{pow-suc, one-le-pow}
use native.Mathlib.Numerals.{add-one}
use dvpnd.Prelude.{
  ℕ, zero, suc, ◌+◌, ◌*◌, ◌/◌, ◌%◌, ◌^◌, ◌<◌, ◌≤◌, ◌≡◌, refl, sym, ap, ◌∙◌, List, [], ◌∷◌, ◌++◌,
  length, length-append, false, ◌==◌, All, All-append, arith,
}
use dvpnd.Address.{Ip, IsByte, from_bytes, big_bytes, copy, next, IsAddress}

-- Big-endian in exactly `k` bytes.
to_bytes : ℕ → ℕ → List ℕ
to_bytes zero n = []
to_bytes (suc k) n = to_bytes k (n / 256) ++ (n % 256 ∷ [])

length-to_bytes : (k n : ℕ) → length (to_bytes k n) ≡ k
unfolding to_bytes
length-to_bytes zero n = refl
length-to_bytes (suc k) n =
    omega (arith, length-append (to_bytes k (n / 256)) (n % 256 ∷ []), length-to_bytes k (n / 256))

pow256-add_one : (k : ℕ) → 256 ^ (k + 1) ≡ 256 ^ k * 256
pow256-add_one k = rw add-one (pow-suc 256 k)

from_bytes-append : (xs : List ℕ) (b : ℕ) → from_bytes (xs ++ (b ∷ [])) ≡ from_bytes xs * 256 + b
unfolding from_bytes
from_bytes-append [] b = omega arith
from_bytes-append (x ∷ xs) b =
    rw (length-append xs (b ∷ [])) (rw pow256-add_one (omega (arith, from_bytes-append xs b)))

from_bytes-to_bytes : (k n : ℕ) → n < 256 ^ k → from_bytes (to_bytes k n) ≡ n
unfolding to_bytes
from_bytes-to_bytes zero n h = unfold from_bytes in omega arith
from_bytes-to_bytes (suc k) n h = omega (
  arith,
  from_bytes-append (to_bytes k (n / 256)) (n % 256),
  from_bytes-to_bytes k (n / 256) (omega (arith, pow-suc 256 k)),
)

to_bytes-IsByte : (k n : ℕ) → All IsByte (to_bytes k n)
unfolding to_bytes
to_bytes-IsByte zero n = tt
to_bytes-IsByte (suc k) n =
    All-append IsByte (to_bytes k (n / 256)) _ (to_bytes-IsByte k (n / 256)) (omega arith, tt)

==_iff_zero : (n : ℕ) → 0 < n → (n == 0) ≡ false
==_iff_zero n h = ground arith

big_bytes-zero : (fuel n : ℕ) → n ≡ 0 → big_bytes fuel n ≡ []
unfolding big_bytes
big_bytes-zero zero n h = refl
big_bytes-zero (suc fuel) n h = rw h refl

big_bytes-to_bytes :
    (fuel k n : ℕ)
    → k < fuel
    → 256 ^ k ≤ n
    → n < 256 ^ suc k
    → big_bytes fuel n ≡ to_bytes (suc k) n
unfolding big_bytes to_bytes
big_bytes-to_bytes zero k n f lo hi = elim f [ ]
big_bytes-to_bytes (suc fuel) zero n f lo hi =
    rw ((==_iff_zero n (omega arith)), big_bytes-zero fuel (n / 256) (omega (arith, pow-suc 256 0)))
      refl
big_bytes-to_bytes (suc fuel) (suc k) n f lo hi =
    rw ((==_iff_zero n (omega (arith, pow-suc 256 k, one-le-pow k 256)))) (
      ap (λ xs. xs ++ (n % 256 ∷ []))
        (big_bytes-to_bytes fuel k (n / 256) (omega arith) (omega (arith, pow-suc 256 k))
          (omega (arith, pow-suc 256 (suc k)))))

copy-same_length : (xs ys : List ℕ) → length xs ≡ length ys → copy xs ys ≡ ys
unfolding copy
copy-same_length [] [] h = refl
copy-same_length [] (y ∷ ys) h = absurd (omega arith)
copy-same_length (x ∷ xs) [] h = absurd (omega arith)
copy-same_length (x ∷ xs) (y ∷ ys) h = ap (◌∷◌ y) (copy-same_length xs ys (omega arith))

-- The successor of an address whose first byte is not zero, below the top of the space, is one more
-- as a big-endian number, and its first byte is not zero.
pub next-from_bytes :
    (n : ℕ) (ip : Ip)
    → IsAddress n ip
    → from_bytes ip + 1 < 256 ^ suc n
    → (from_bytes (next ip) ≡ from_bytes ip + 1) × IsAddress n (next ip)
unfolding next
next-from_bytes n ip a room = (
  rw replaced value,
  rw replaced (record {
    size = length-to_bytes (suc n) (from_bytes ip + 1);
    bytes = to_bytes-IsByte (suc n) (from_bytes ip + 1);
    large = rw value (omega (arith, a.large));
  }),
)
  where
    value : from_bytes (to_bytes (suc n) (from_bytes ip + 1)) ≡ from_bytes ip + 1
    value = from_bytes-to_bytes (suc n) (from_bytes ip + 1) room

    replaced :
        copy ip (big_bytes (suc (length ip)) (from_bytes ip + 1))
        ≡ to_bytes (suc n) (from_bytes ip + 1)
    replaced =
        rw
          (big_bytes-to_bytes (suc (length ip)) n (from_bytes ip + 1) (omega (arith, a.size))
            (omega (arith, a.large)) room)
          (copy-same_length ip _ (a.size ∙ sym (length-to_bytes (suc n) (from_bytes ip + 1))))
