-- ===== src/Uuid/RoundTrip.antt =====
-- A UUID's canonical text parses back to it, and both request forms mean the same UUID.
use dvpnd.Prelude.{
  ℕ, ◌<◌, ◌≤◌, ◌+◌, ◌-◌, ◌≡◌, refl, sym, ap, ◌∙◌, true, List, [], ◌∷◌, ◌++◌, length, All, Bytes,
  arith,
}
use dvpnd.Prelude.Hex.{encode_hex, decode_hex-encode_hex, length-encode_hex, encode_hex-no_dash}
use dvpnd.Prelude.Slices.{
  take, drop, slice, concat, Plain, split-Plain, split-word, take-drop, length-take, length-drop,
  drop-drop, All-take, All-drop,
}
use dvpnd.Prelude.Numbers.{split}
use dvpnd.Prelude.Results.{ok}
use dvpnd.Uuid.{format_uuid, dashed, canonical_parts, parse_uuid}

-- A UUID is 16 bytes.
abbrev pub IsUuid : Bytes → Type 0
IsUuid id = (length id ≡ 16) × All (λ b. b < 256) id

module _ (h : Bytes) (n : length h ≡ 32) (p : Plain b'-' h) where
  abbrev slices : List Bytes
  slices = slice 0 8 h ∷ slice 8 12 h ∷ slice 12 16 h ∷ slice 16 20 h ∷ slice 20 32 h ∷ []

  slice-Plain : (a b : ℕ) → Plain b'-' (slice a b h)
  unfolding slice
  slice-Plain a b = All-take _ (b - a) (drop a h) (All-drop _ a h p)

  length-slice : (a b : ℕ) → b ≤ 32 → length (slice a b h) ≡ b - a
  unfolding slice
  length-slice a b le = length-take (b - a) (drop a h) (omega (arith, length-drop a h))

  split-slices : split b'-' (dashed h) ≡ slices
  unfolding dashed
  split-slices =
      split-word b'-' (slice 0 8 h) _ (slice-Plain 0 8)
      ∙ ap (λ ws. slice 0 8 h ∷ ws)
          (split-word b'-' (slice 8 12 h) _ (slice-Plain 8 12)
            ∙ ap (λ ws. slice 8 12 h ∷ ws)
                (split-word b'-' (slice 12 16 h) _ (slice-Plain 12 16)
                  ∙ ap (λ ws. slice 12 16 h ∷ ws)
                      (split-word b'-' (slice 16 20 h) _ (slice-Plain 16 20)
                        ∙ ap (λ ws. slice 16 20 h ∷ ws)
                            (split-Plain b'-' (slice 20 32 h) (slice-Plain 20 32)))))

  slices-canonical : canonical_parts slices ≡ true
  unfolding canonical_parts
  slices-canonical =
      rw
        (
          length-slice 0 8 (omega arith),
          length-slice 8 12 (omega arith),
          length-slice 12 16 (omega arith),
          length-slice 16 20 (omega arith),
          length-slice 20 32 (omega arith),
        )
        refl

  next : (a b : ℕ) (rest : Bytes) → a ≤ b → rest ≡ drop b h → slice a b h ++ rest ≡ drop a h
  unfolding slice
  next a b rest le e =
      let sum : a + (b - a) ≡ b = omega arith in
      rw e (
        ap (λ m. take (b - a) (drop a h) ++ drop m h) (sym sum)
        ∙ ap (λ ys. take (b - a) (drop a h) ++ ys) (sym (drop-drop a (b - a) h))
        ∙ take-drop (b - a) (drop a h))

  none_left : drop 32 h ≡ []
  none_left = empty (drop 32 h) (omega (arith, length-drop 32 h))
    where
      empty : (xs : Bytes) → length xs ≡ 0 → xs ≡ []
      empty [] e = refl
      empty (x ∷ xs) e = absurd (omega arith)

  concat-slices : concat slices ≡ h
  unfolding concat
  concat-slices = next 0 8 _ (omega arith) (
      next 8 12 _ (omega arith) (
        next 12 16 _ (omega arith)
          (next 16 20 _ (omega arith) (next 20 32 _ (omega arith) (sym none_left)))))

-- Every 16-byte UUID is what ParseUUID reads from the text that FormatUUID makes of it.
pub parse_uuid-format_uuid : (id : Bytes) → IsUuid id → parse_uuid (format_uuid id) ≡ ok id
unfolding parse_uuid format_uuid
parse_uuid-format_uuid id u =
    let n : length (encode_hex id) ≡ 32 = omega (arith, length-encode_hex id, u.0) in
    let p = encode_hex-no_dash id in
    rw (split-slices _ n p)
      (rw (slices-canonical _ n p, concat-slices _ n p, decode_hex-encode_hex id u.1) refl)
