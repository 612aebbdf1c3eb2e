-- ===== src/Uuid/Request.antt =====
-- A peer request's UUID: the two forms a client may send.
use dvpnd.Prelude.{
  ℕ, ◌==◌, ◌<◌, ◌/◌, ◌%◌, ◌≡◌, refl, true, false, ◌||◌, none, some, [], ◌∷◌, ◌++◌, length, All,
  Bytes, arith, lt→ltb,
}
use dvpnd.Prelude.Base64.{digit_value, decode_quanta, drop_breaks, decode}
use dvpnd.Prelude.Hex.{hex_digit, encode_hex, length-encode_hex}
use dvpnd.Prelude.Slices.{take, slice, length-take, All-take}
use dvpnd.Prelude.Results.{ok}
use dvpnd.Uuid.{dashed, format_uuid, all_bytes, as_bytes, uuid_from_json, numbers, text}
use dvpnd.Uuid.RoundTrip.{IsUuid, parse_uuid-format_uuid}

-- No line break, which the base64 decoder would skip.
abbrev Unbroken : Bytes → Type 0
Unbroken = All (λ c. (c == 10 || c == 13) ≡ false)

hex_digit-unbroken : (v : ℕ) → (hex_digit v == 10 || hex_digit v == 13) ≡ false
unfolding hex_digit
hex_digit-unbroken v = ground arith

encode_hex-Unbroken : (bs : Bytes) → Unbroken (encode_hex bs)
unfolding encode_hex
encode_hex-Unbroken [] = tt
encode_hex-Unbroken (b ∷ bs) =
    (hex_digit-unbroken (b / 16), (hex_digit-unbroken (b % 16), encode_hex-Unbroken bs))

drop_breaks-Unbroken : (w s : Bytes) → Unbroken w → drop_breaks (w ++ s) ≡ w ++ drop_breaks s
unfolding drop_breaks
drop_breaks-Unbroken [] s h = refl
drop_breaks-Unbroken (c ∷ w) s h = rw (h.0, drop_breaks-Unbroken w s h.1) refl

dash_first : (b c d : ℕ) (s : Bytes) → decode_quanta (b'-' ∷ b ∷ c ∷ d ∷ s) ≡ none
unfolding decode_quanta digit_value
dash_first b c d s = refl

dash_quantum : (s : Bytes) → decode_quanta (b'-' ∷ s) ≡ none
unfolding decode_quanta
dash_quantum [] = refl
dash_quantum (b ∷ []) = refl
dash_quantum (b ∷ c ∷ []) = refl
dash_quantum (b ∷ c ∷ d ∷ s) = dash_first b c d s

later_quantum :
    (a b c d e : ℕ) (s : Bytes)
    → decode_quanta (e ∷ s) ≡ none
    → decode_quanta (a ∷ b ∷ c ∷ d ∷ e ∷ s) ≡ none
unfolding decode_quanta
later_quantum a b c d e s h = rw h (ground arith)

-- Eight characters and a dash are no base64.
dash_ninth : (w s : Bytes) → length w ≡ 8 → decode_quanta (w ++ (b'-' ∷ s)) ≡ none
dash_ninth (a ∷ b ∷ c ∷ d ∷ e ∷ f ∷ g ∷ i ∷ []) s h =
    later_quantum a b c d e _ (later_quantum e f g i b'-' s (dash_quantum s))
dash_ninth [] s h = absurd (omega arith)
dash_ninth (a ∷ []) s h = absurd (omega arith)
dash_ninth (a ∷ b ∷ []) s h = absurd (omega arith)
dash_ninth (a ∷ b ∷ c ∷ []) s h = absurd (omega arith)
dash_ninth (a ∷ b ∷ c ∷ d ∷ []) s h = absurd (omega arith)
dash_ninth (a ∷ b ∷ c ∷ d ∷ e ∷ []) s h = absurd (omega arith)
dash_ninth (a ∷ b ∷ c ∷ d ∷ e ∷ f ∷ []) s h = absurd (omega arith)
dash_ninth (a ∷ b ∷ c ∷ d ∷ e ∷ f ∷ g ∷ []) s h = absurd (omega arith)
dash_ninth (a ∷ b ∷ c ∷ d ∷ e ∷ f ∷ g ∷ i ∷ k ∷ w) s h = absurd (omega arith)

drop_breaks-dash : (s : Bytes) → drop_breaks (b'-' ∷ s) ≡ b'-' ∷ drop_breaks s
unfolding drop_breaks
drop_breaks-dash s = refl

decode-format_uuid : (id : Bytes) → IsUuid id → decode (format_uuid id) ≡ none
unfolding decode format_uuid dashed slice
decode-format_uuid id u =
    rw
      (
        drop_breaks-Unbroken (take 8 (encode_hex id)) _ (All-take _ 8 _ (encode_hex-Unbroken id)),
        drop_breaks-dash,
      )
      (dash_ninth (take 8 (encode_hex id)) _
        (length-take 8 (encode_hex id) (omega (arith, length-encode_hex id, u.0))))

all_bytes-All : (bs : Bytes) → All (λ b. b < 256) bs → all_bytes bs ≡ true
all_bytes-All [] h = refl
all_bytes-All (b ∷ bs) h = rw (lt→ltb b 256 h.0, all_bytes-All bs h.1) refl

-- A 16-byte UUID comes out of a peer request unchanged in both forms that clients send: as an array
-- of its bytes, and as the canonical text, which the base64 reading of a JSON string refuses first.
pub uuid_from_json_forms :
    (id : Bytes)
    → IsUuid id
    → (uuid_from_json (some (numbers id)) ≡ ok id)
      × (uuid_from_json (some (text (format_uuid id))) ≡ ok id)
unfolding uuid_from_json as_bytes
uuid_from_json_forms id u = (
  rw (all_bytes-All id u.1, u.0) refl,
  rw (decode-format_uuid id u) (parse_uuid-format_uuid id u),
)
