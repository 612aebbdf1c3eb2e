-- ===== src/Address.antt =====
-- services/wireguard/types/ip.go: addresses as byte arrays, and their successor. A `[4]byte` or
-- `[16]byte` is a list of bytes; big.Int and `copy` are written out.
pub mod Next
use dvpnd.Prelude.{
  bytes_eq, ℕ, zero, suc, ◌+◌, ◌*◌, ◌/◌, ◌%◌, ◌^◌, ◌<◌, ◌≤◌, ◌≡◌, Bool, true, false, ◌&&◌, List, [],
  ◌∷◌, ◌++◌, length, All, ◌==◌, if◌then◌else◌,
}

abbrev pub Ip : Type 0
Ip = List ℕ

abbrev pub IsByte : ℕ → Type 0
IsByte b = b < 256

-- big.Int's SetBytes: the big-endian value.
unfoldable pub from_bytes : List ℕ → ℕ
from_bytes [] = 0
from_bytes (b ∷ bs) = b * 256 ^ length bs + from_bytes bs

-- big.Int's Bytes: big-endian, with no leading zeros; `fuel` bytes at most.
unfoldable pub big_bytes : ℕ → ℕ → List ℕ
big_bytes zero n = []
big_bytes (suc fuel) n = if n == 0 then [] else big_bytes fuel (n / 256) ++ (n % 256 ∷ [])

-- Go's `copy`: the source's bytes over the start of the destination.
unfoldable pub copy : List ℕ → List ℕ → List ℕ
copy [] src = []
copy (d ∷ ds) [] = d ∷ ds
copy (d ∷ ds) (s ∷ ss) = s ∷ copy ds ss

-- IPv4.Next and IPv6.Next. A sum of n bytes' value and 1 has n + 1 bytes at most.
unfoldable pub next : Ip → Ip
next ip = copy ip (big_bytes (suc (length ip)) (from_bytes ip + 1))

unfoldable pub replicate_zero : ℕ → Ip
replicate_zero zero = []
replicate_zero (suc n) = 0 ∷ replicate_zero n

-- Empty: the zero array of the same size.
unfoldable pub is_empty : Ip → Bool
unfolding bytes_eq replicate_zero
is_empty ip = bytes_eq ip (replicate_zero (length ip))

-- An array of `suc n` bytes whose first is not zero.
pub record IsAddress (n : ℕ) (ip : Ip) : Type 0 where
  pub size : length ip ≡ suc n
  pub bytes : All IsByte ip
  pub large : 256 ^ n ≤ from_bytes ip
