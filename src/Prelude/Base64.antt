-- ===== src/Prelude/Base64.antt =====
-- encoding/base64's StdEncoding over bytes: EncodeToString, and DecodeString on text without line
-- breaks after they are dropped, as the decoder does.
pub mod RoundTrip
use Prim.Native.Nat.{ℕ, zero, suc, ◌+◌, ◌-◌, ◌*◌, ◌/◌, ◌%◌, ◌<◌}
use mathlib.Core.Path.{◌≡◌, refl}
use mathlib.Core.Bool.{Bool, true, false, ◌&&◌, ◌||◌, not}
use mathlib.Core.Option.{Option, none, some}
use mathlib.Core.List.{List, [], ◌∷◌}
use native.Mathlib.Omega.{arith}
use dvpnd.Prelude.Tests.{ltb, leb, ◌==◌, if◌then◌else◌}
use dvpnd.Prelude.Lists.{All}
use dvpnd.Prelude.Strings.{Bytes}

-- The alphabet, and its inverse; 64 is no digit.
unfoldable pub digit : ℕ → ℕ
digit v =
    if ltb v 26
    then v + b'A'
    else if ltb v 52
    then v - 26 + b'a'
    else if ltb v 62
    then v - 52 + b'0'
    else if v == 62
    then b'+'
    else b'/'

unfoldable pub digit_value : ℕ → ℕ
digit_value c =
    if leb b'A' c && leb c b'Z'
    then c - b'A'
    else if leb b'a' c && leb c b'z'
    then c - b'a' + 26
    else if leb b'0' c && leb c b'9'
    then c - b'0' + 52
    else if c == b'+'
    then 62
    else if c == b'/'
    then 63
    else 64

abbrev pad : ℕ
pad = b'='

unfoldable pub encode : Bytes → Bytes
unfolding digit
encode [] = []
encode (a ∷ []) = digit (a / 4) ∷ digit (a % 4 * 16) ∷ pad ∷ pad ∷ []
encode (a ∷ b ∷ []) = digit (a / 4) ∷ digit (a % 4 * 16 + b / 16) ∷ digit (b % 16 * 4) ∷ pad ∷ []
encode (a ∷ b ∷ c ∷ rest) =
    digit (a / 4)
    ∷ digit (a % 4 * 16 + b / 16)
    ∷ digit (b % 16 * 4 + c / 64)
    ∷ digit (c % 64)
    ∷ encode rest

-- Carriage returns and line feeds are ignored.
unfoldable pub drop_breaks : Bytes → Bytes
drop_breaks [] = []
drop_breaks (c ∷ s) = let rest = drop_breaks s in if c == 10 || c == 13 then rest else c ∷ rest

-- A final quantum of two or three digits: `pad_at` bytes come out, then nothing may follow.
abbrev last_quantum : ℕ → ℕ → ℕ → ℕ → Bytes → Option Bytes
last_quantum x y z w (e ∷ rest) = none
last_quantum x y z w [] =
    if z == pad
    then (if w == pad then some ((x * 4 + y / 16) ∷ []) else none)
    else if digit_value z == 64
    then none
    else some ((x * 4 + y / 16) ∷ (y % 16 * 16 + digit_value z / 4) ∷ [])

abbrev full_quantum : ℕ → ℕ → ℕ → ℕ → Option Bytes → Option Bytes
full_quantum x y z w none = none
full_quantum x y z w (some out) =
    if digit_value z == 64 || digit_value w == 64
    then none
    else some (
        (x * 4 + y / 16)
        ∷ (y % 16 * 16 + digit_value z / 4)
        ∷ (digit_value z % 4 * 64 + digit_value w)
        ∷ out)

unfoldable pub decode_quanta : Bytes → Option Bytes
decode_quanta [] = some []
decode_quanta (a ∷ []) = none
decode_quanta (a ∷ b ∷ []) = none
decode_quanta (a ∷ b ∷ c ∷ []) = none
decode_quanta (a ∷ b ∷ c ∷ d ∷ rest) =
    let tail = decode_quanta rest in
    if digit_value a == 64 || digit_value b == 64
    then none
    else if c == pad || d == pad
    then last_quantum (digit_value a) (digit_value b) c d rest
    else full_quantum (digit_value a) (digit_value b) c d tail

unfoldable pub decode : Bytes → Option Bytes
unfolding decode_quanta digit_value drop_breaks
decode s = decode_quanta (drop_breaks s)
