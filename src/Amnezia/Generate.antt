-- ===== src/Amnezia/Generate.antt =====
-- services/amneziawg/types/config.go: drawing a fresh parameter set. The source of randomness is the
-- list of numbers that it yields: rand.Int takes one below its bound, here by the remainder, as
-- randomUint32 does in the code. A loop that redraws ends with the list at the latest.
pub mod Draws
use dvpnd.Prelude.{
  ℕ, zero, suc, ◌+◌, ◌-◌, ◌%◌, ◌^◌, Option, none, some, List, [], ◌∷◌, ◌==◌, if◌then◌else◌,
}
use dvpnd.Amnezia.{Obfuscation, seen}

-- randomUint16 and randomUint32, from one draw.
unfoldable pub random_uint : ℕ → ℕ → ℕ → ℕ
random_uint low high draw = low + draw % (high - low + 1)

-- The loop of randomHandshakePaddings; the draws that are left come along.
unfoldable pub second_padding : ℕ → ℕ → List ℕ → Option (ℕ × List ℕ)
unfolding random_uint
second_padding low s1 [] = none
second_padding low s1 (d ∷ ds) =
    let s2 = random_uint low 150 d in
    let again = second_padding low s1 ds in if s1 + 56 == s2 then again else some (s2, ds)

abbrev pub with_first : ℕ → Option (ℕ × List ℕ) → Option (ℕ × ℕ × List ℕ)
with_first s1 none = none
with_first s1 (some (s2, ds)) = some (s1, s2, ds)

-- randomHandshakePaddings
unfoldable pub random_handshake_paddings : ℕ → List ℕ → Option (ℕ × ℕ × List ℕ)
unfolding random_uint second_padding
random_handshake_paddings low [] = none
random_handshake_paddings low (d ∷ ds) =
    let s1 = random_uint low 150 d in with_first s1 (second_padding low s1 ds)

abbrev pub with_header : ℕ → Option (List ℕ) → Option (List ℕ)
with_header h none = none
with_header h (some hs) = some (h ∷ hs)

-- The loop of randomHeaders, with the headers still to find and those seen.
unfoldable pub more_headers : ℕ → List ℕ → List ℕ → Option (List ℕ)
unfolding random_uint seen
more_headers zero before ds = some []
more_headers (suc n) before [] = none
more_headers (suc n) before (d ∷ ds) =
    let h = random_uint 5 (2 ^ 31) d in
    let again = more_headers (suc n) before ds in
    let found = with_header h (more_headers n (h ∷ before) ds) in
    if seen h before then again else found

-- randomHeaders
unfoldable pub random_headers : List ℕ → Option (List ℕ)
unfolding more_headers
random_headers ds = more_headers 4 [] ds

abbrev pub generated : Obfuscation → ℕ → ℕ → Option (List ℕ) → Option Obfuscation
generated o s1 s2 none = none
generated o s1 s2 (some hs) =
    some (record o { jc = 4; jmin = 40; jmax = 70; s = s1 ∷ s2 ∷ 0 ∷ 0 ∷ []; h = hs })

abbrev pub with_paddings : Obfuscation → Option (ℕ × ℕ × List ℕ) → Option Obfuscation
with_paddings o none = none
with_paddings o (some (s1, s2, ds)) = generated o s1 s2 (random_headers ds)

-- Obfuscation's Generate
unfoldable pub generate : Obfuscation → List ℕ → Option Obfuscation
unfolding random_handshake_paddings random_headers
generate o ds = with_paddings o (random_handshake_paddings 15 ds)
