-- ===== src/Prelude/Hex.antt =====
-- encoding/hex's EncodeToString and DecodeString over bytes.
use Prim.Native.Nat.{ℕ, ◌+◌, ◌-◌, ◌*◌, ◌/◌, ◌%◌, ◌<◌}
use mathlib.Core.Path.{◌≡◌, refl}
use mathlib.Core.Bool.{false, ◌&&◌, ◌||◌}
use mathlib.Core.Option.{Option, none, some}
use mathlib.Core.List.{[], ◌∷◌}
use native.Mathlib.Omega.{arith}
use dvpnd.Prelude.Tests.{ltb, leb, ◌==◌, if◌then◌else◌}
use dvpnd.Prelude.Lists.{All, length}
use dvpnd.Prelude.Strings.{Bytes}

unfoldable pub hex_digit : ℕ → ℕ
hex_digit v = if ltb v 10 then v + b'0' else v - 10 + b'a'

-- 16 is no digit.
unfoldable pub hex_value : ℕ → ℕ
hex_value c =
    if leb b'0' c && leb c b'9'
    then c - b'0'
    else if leb b'a' c && leb c b'f'
    then c - b'a' + 10
    else if leb b'A' c && leb c b'F'
    then c - b'A' + 10
    else 16

unfoldable pub encode_hex : Bytes → Bytes
unfolding hex_digit
encode_hex [] = []
encode_hex (b ∷ bs) = hex_digit (b / 16) ∷ hex_digit (b % 16) ∷ encode_hex bs

abbrev pub pair_value : ℕ → ℕ → Option Bytes → Option Bytes
pair_value hi lo none = none
pair_value hi lo (some bs) = if hi == 16 || lo == 16 then none else some ((hi * 16 + lo) ∷ bs)

unfoldable pub decode_hex : Bytes → Option Bytes
unfolding hex_value
decode_hex [] = some []
decode_hex (a ∷ []) = none
decode_hex (a ∷ b ∷ s) = pair_value (hex_value a) (hex_value b) (decode_hex s)

hex_value-hex_digit : (v : ℕ) → v < 16 → hex_value (hex_digit v) ≡ v
unfolding hex_value hex_digit
hex_value-hex_digit v h = ground arith

pub decode_hex-encode_hex :
    (bs : Bytes) → All (λ b. b < 256) bs → decode_hex (encode_hex bs) ≡ some bs
unfolding decode_hex encode_hex
decode_hex-encode_hex [] h = refl
decode_hex-encode_hex (b ∷ bs) h =
    rw
      (
        decode_hex-encode_hex bs h.1,
        hex_value-hex_digit (b / 16) (omega arith),
        hex_value-hex_digit (b % 16) (omega arith),
      )
      (ground arith)

pub length-encode_hex : (bs : Bytes) → length (encode_hex bs) ≡ length bs * 2
unfolding encode_hex
length-encode_hex [] = refl
length-encode_hex (b ∷ bs) = omega (arith, length-encode_hex bs)

hex_digit-not_dash : (v : ℕ) → (hex_digit v == b'-') ≡ false
unfolding hex_digit
hex_digit-not_dash v = ground arith

pub encode_hex-no_dash : (bs : Bytes) → All (λ c. (c == b'-') ≡ false) (encode_hex bs)
unfolding encode_hex
encode_hex-no_dash [] = tt
encode_hex-no_dash (b ∷ bs) =
    (hex_digit-not_dash (b / 16), (hex_digit-not_dash (b % 16), encode_hex-no_dash bs))
