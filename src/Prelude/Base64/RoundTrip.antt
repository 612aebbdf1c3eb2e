-- ===== src/Prelude/Base64/RoundTrip.antt =====
-- Decoding takes back every encoding.
use Prim.Native.Nat.{ℕ, ◌+◌, ◌*◌, ◌/◌, ◌%◌, ◌<◌}
use mathlib.Core.Path.{◌≡◌, refl, ap, ◌∙◌}
use mathlib.Core.Bool.{false, ◌||◌}
use mathlib.Core.Option.{some}
use mathlib.Core.List.{[], ◌∷◌}
use native.Mathlib.Omega.{arith}
use dvpnd.Prelude.Tests.{◌==◌}
use dvpnd.Prelude.Lists.{All}
use dvpnd.Prelude.Strings.{Bytes}
use dvpnd.Prelude.Base64.{digit, digit_value, encode, drop_breaks, decode_quanta, decode}

digit_value-digit : (v : ℕ) → v < 64 → digit_value (digit v) ≡ v
unfolding digit digit_value
digit_value-digit v h = ground arith

digit-not_pad : (v : ℕ) → (digit v == b'=') ≡ false
unfolding digit
digit-not_pad v = ground arith

digit-not_break : (v : ℕ) → (digit v == 10 || digit v == 13) ≡ false
unfolding digit
digit-not_break v = ground arith

drop_breaks-digit : (v : ℕ) (s : Bytes) → drop_breaks (digit v ∷ s) ≡ digit v ∷ drop_breaks s
unfolding drop_breaks
drop_breaks-digit v s = rw (digit-not_break v)

drop_breaks-encode : (xs : Bytes) → drop_breaks (encode xs) ≡ encode xs
unfolding encode
drop_breaks-encode [] = unfold drop_breaks in refl
drop_breaks-encode (a ∷ []) =
    rw drop_breaks-digit (rw drop_breaks-digit (unfold drop_breaks in refl))
drop_breaks-encode (a ∷ b ∷ []) =
    rw drop_breaks-digit (rw drop_breaks-digit (rw drop_breaks-digit (unfold drop_breaks in refl)))
drop_breaks-encode (a ∷ b ∷ c ∷ rest) = rw drop_breaks-digit (
    rw drop_breaks-digit
      (rw drop_breaks-digit (rw drop_breaks-digit (rw (drop_breaks-encode rest)))))

digit-is_digit : (v : ℕ) → v < 64 → (digit_value (digit v) == 64) ≡ false
digit-is_digit v h = rw (digit_value-digit v h) (ground arith)

module _ (a b c : ℕ) (ha : a < 256) (hb : b < 256) (hc : c < 256) where
  first_byte : digit_value (digit (a / 4)) * 4 + digit_value (digit (a % 4 * 16 + b / 16)) / 16 ≡ a
  first_byte =
      rw
        (
          digit_value-digit (a / 4) (omega arith),
          digit_value-digit (a % 4 * 16 + b / 16) (omega arith),
        )
        (omega arith)

  second_byte :
      digit_value (digit (a % 4 * 16 + b / 16)) % 16 * 16
        + digit_value (digit (b % 16 * 4 + c / 64)) / 4
      ≡ b
  second_byte =
      rw
        (
          digit_value-digit (a % 4 * 16 + b / 16) (omega arith),
          digit_value-digit (b % 16 * 4 + c / 64) (omega arith),
        )
        (omega arith)

  third_byte : digit_value (digit (b % 16 * 4 + c / 64)) % 4 * 64 + digit_value (digit (c % 64)) ≡ c
  third_byte =
      rw
        (
          digit_value-digit (b % 16 * 4 + c / 64) (omega arith),
          digit_value-digit (c % 64) (omega arith),
        )
        (omega arith)

-- Four digits, with more to come.
quantum :
    (w x y z : ℕ) (rest out : Bytes)
    → (digit_value w == 64) ≡ false
    → (digit_value x == 64) ≡ false
    → (digit_value y == 64) ≡ false
    → (digit_value z == 64) ≡ false
    → (y == b'=') ≡ false
    → (z == b'=') ≡ false
    → decode_quanta rest ≡ some out
    → decode_quanta (w ∷ x ∷ y ∷ z ∷ rest)
      ≡ some (
          (digit_value w * 4 + digit_value x / 16)
          ∷ (digit_value x % 16 * 16 + digit_value y / 4)
          ∷ (digit_value y % 4 * 64 + digit_value z)
          ∷ out)
unfolding decode_quanta
quantum w x y z rest out hw hx hy hz py pz e = rw (hw, hx) (rw (py, pz) (rw e (rw (hy, hz))))

-- Three digits and one pad.
quantum_three :
    (w x y : ℕ)
    → (digit_value w == 64) ≡ false
    → (digit_value x == 64) ≡ false
    → (digit_value y == 64) ≡ false
    → (y == b'=') ≡ false
    → decode_quanta (w ∷ x ∷ y ∷ b'=' ∷ [])
      ≡ some (
          (digit_value w * 4 + digit_value x / 16)
          ∷ (digit_value x % 16 * 16 + digit_value y / 4)
          ∷ [])
unfolding decode_quanta
quantum_three w x y hw hx hy py = rw (hw, hx) (rw (py) (rw hy))

some-cons : {x y : ℕ} {xs ys : Bytes} → x ≡ y → xs ≡ ys → x ∷ xs ≡ y ∷ ys
some-cons p q = cc

decode_quanta-encode : (xs : Bytes) → All (λ b. b < 256) xs → decode_quanta (encode xs) ≡ some xs
unfolding encode
decode_quanta-encode [] h = unfold decode_quanta in refl
decode_quanta-encode (a ∷ []) h =
    let e : a % 4 * 16 + 0 / 16 ≡ a % 4 * 16 = omega arith in
    unfold decode_quanta in
    rw (digit-is_digit (a / 4) (omega arith), digit-is_digit (a % 4 * 16) (omega arith))
      (ap (λ x. some (x ∷ [])) (rw e at (first_byte a 0 0 h.0 (omega arith) (omega arith))))
decode_quanta-encode (a ∷ b ∷ []) h =
    let e : b % 16 * 4 + 0 / 64 ≡ b % 16 * 4 = omega arith in
    quantum_three (digit (a / 4)) (digit (a % 4 * 16 + b / 16)) (digit (b % 16 * 4))
      (digit-is_digit (a / 4) (omega arith)) (digit-is_digit (a % 4 * 16 + b / 16) (omega arith))
      (digit-is_digit (b % 16 * 4) (omega arith)) (digit-not_pad (b % 16 * 4))
    ∙ ap some (
        some-cons (first_byte a b 0 h.0 h.1.0 (omega arith))
          (some-cons (rw e at (second_byte a b 0 h.0 h.1.0 (omega arith))) refl))
decode_quanta-encode (a ∷ b ∷ c ∷ rest) h =
    quantum (digit (a / 4)) (digit (a % 4 * 16 + b / 16)) (digit (b % 16 * 4 + c / 64))
      (digit (c % 64)) (encode rest) rest (digit-is_digit (a / 4) (omega arith))
      (digit-is_digit (a % 4 * 16 + b / 16) (omega arith))
      (digit-is_digit (b % 16 * 4 + c / 64) (omega arith)) (digit-is_digit (c % 64) (omega arith))
      (digit-not_pad (b % 16 * 4 + c / 64)) (digit-not_pad (c % 64))
      (decode_quanta-encode rest h.1.1.1)
    ∙ ap some (
        some-cons (first_byte a b c h.0 h.1.0 h.1.1.0) (
          some-cons (second_byte a b c h.0 h.1.0 h.1.1.0)
            (some-cons (third_byte a b c h.0 h.1.0 h.1.1.0) refl)))

pub decode-encode : (xs : Bytes) → All (λ b. b < 256) xs → decode (encode xs) ≡ some xs
unfolding decode
decode-encode xs h = rw (drop_breaks-encode xs) (decode_quanta-encode xs h)
