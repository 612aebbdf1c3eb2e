-- ===== src/Prelude/Numbers.antt =====
-- The strings package's Split on one byte, and strconv's ParseUint and ParseInt in base 10.
use Prim.Native.Nat.{ℕ, ◌+◌, ◌-◌, ◌*◌, ◌^◌}
use mathlib.Core.Bool.{Bool, ◌&&◌, not}
use mathlib.Core.Option.{Option, none, some}
use mathlib.Core.List.{List, [], ◌∷◌}
use dvpnd.Prelude.Tests.{ltb, leb, ◌==◌, if◌then◌else◌}
use dvpnd.Prelude.Strings.{Bytes}
use dvpnd.Prelude.Int.{ℤ, pos, sub_ℕ}

abbrev pub push_head : ℕ → List Bytes → List Bytes
push_head c [] = (c ∷ []) ∷ []
push_head c (w ∷ ws) = (c ∷ w) ∷ ws

unfoldable pub split : ℕ → Bytes → List Bytes
split sep [] = [] ∷ []
split sep (c ∷ s) = let rest = split sep s in if c == sep then [] ∷ rest else push_head c rest

abbrev pub is_digit : ℕ → Bool
is_digit c = leb b'0' c && leb c b'9'

-- The value of a run of digits, from the left.
unfoldable pub digits_from : ℕ → Bytes → Option ℕ
digits_from acc [] = some acc
digits_from acc (c ∷ s) =
    let rest = digits_from (acc * 10 + (c - b'0')) s in if is_digit c then rest else none

unfoldable pub parse_digits : Bytes → Option ℕ
unfolding digits_from
parse_digits [] = none
parse_digits (c ∷ s) = digits_from 0 (c ∷ s)

-- ParseUint of a word of `bits` bits.
abbrev within : ℕ → Option ℕ → Option ℕ
within bits none = none
within bits (some n) = if ltb n (2 ^ bits) then some n else none

unfoldable pub parse_uint : ℕ → Bytes → Option ℕ
unfolding parse_digits
parse_uint bits s = within bits (parse_digits s)

abbrev positive : Option ℕ → Option ℤ
positive none = none
positive (some n) = if ltb n (2 ^ 63) then some (pos n) else none

abbrev negative : Option ℕ → Option ℤ
negative none = none
negative (some n) = if leb n (2 ^ 63) then some (sub_ℕ 0 n) else none

-- ParseInt of 64 bits, with its optional sign.
unfoldable pub parse_int : Bytes → Option ℤ
unfolding parse_digits
parse_int [] = none
parse_int (c ∷ s) =
    if c == b'+'
    then positive (parse_digits s)
    else if c == b'-'
    then negative (parse_digits s)
    else positive (parse_digits (c ∷ s))

-- ParseUint's loop, left to right: a byte that is no digit is the error that leaves 0, and a value that
-- does not fit in 64 bits ends it at once with the cap.
unfoldable pub digits_capped : ℕ → Bytes → ℕ
digits_capped acc [] = acc
digits_capped acc (c ∷ s) =
    let next = acc * 10 + (c - b'0') in
    let rest = digits_capped next s in
    if not (is_digit c) then 0 else if ltb next (2 ^ 64) then rest else 2 ^ 64 - 1

abbrev up_to : ℕ → ℤ
up_to n = if ltb n (2 ^ 63) then pos n else pos (2 ^ 63 - 1)

abbrev down_to : ℕ → ℤ
down_to n = if leb n (2 ^ 63) then sub_ℕ 0 n else sub_ℕ 0 (2 ^ 63)

-- What ParseInt of 64 bits leaves when its error is ignored: 0 for text that is no number, and the
-- nearest int64 for a number out of range.
unfoldable pub parse_int_ignoring : Bytes → ℤ
unfolding digits_capped
parse_int_ignoring [] = pos 0
parse_int_ignoring (c ∷ s) =
    if c == b'+'
    then up_to (digits_capped 0 s)
    else if c == b'-'
    then down_to (digits_capped 0 s)
    else up_to (digits_capped 0 (c ∷ s))
