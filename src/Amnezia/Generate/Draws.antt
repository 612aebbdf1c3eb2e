-- ===== src/Amnezia/Generate/Draws.antt =====
-- Generated parameters satisfy the validation.
use dvpnd.Prelude.{
  ℕ, zero, suc, ◌+◌, ◌-◌, ◌%◌, ◌^◌, ◌≤◌, ◌<◌, ◌≡◌, refl, true, false, Option, none, some, List, [],
  ◌∷◌, ◌++◌, ◌==◌, if◌then◌else◌, All, Bool-cases, inl, inr, arith,
}
use dvpnd.Amnezia.{
  Obfuscation, seen, check_packets, validate_paddings, validate_obfuscation, within_limits,
  all_at_least,
}
use dvpnd.Amnezia.Parameters.{Fresh, validate_headers_iff}
use dvpnd.Amnezia.Generate.{
  random_uint, second_padding, with_first, random_handshake_paddings, with_header, more_headers,
  random_headers, generated, with_paddings, generate,
}

abbrev pub IfSome {ℓ} : {A : Type ℓ} → (A → Type 0) → Option A → Type 0
IfSome P none = Unit {0}
IfSome P (some a) = P a

-- Paddings that the validation accepts.
abbrev GoodPaddings : ℕ × ℕ × List ℕ → Type 0
GoodPaddings (s1, s2, ds) = (s1 ≤ 150) × (s2 ≤ 150) × ((s1 + 56 == s2) ≡ false)

second_good :
    (s1 : ℕ) (ds : List ℕ)
    → s1 ≤ 150
    → IfSome GoodPaddings (with_first s1 (second_padding 15 s1 ds))
unfolding second_padding random_uint
second_good s1 [] h = tt
second_good s1 (d ∷ ds) h = elim (Bool-cases (s1 + 56 == 15 + d % (150 - 15 + 1))) [
  | inl y ↦ rw y (second_good s1 ds h)
  | inr n ↦ rw n (h, omega arith, n)
]

paddings_good : (ds : List ℕ) → IfSome GoodPaddings (random_handshake_paddings 15 ds)
unfolding random_handshake_paddings random_uint
paddings_good [] = tt
paddings_good (d ∷ ds) = second_good (15 + d % (150 - 15 + 1)) ds (omega arith)

-- Headers that the validation accepts, after those seen.
abbrev GoodHeaders : List ℕ → List ℕ → Type 0
GoodHeaders before hs = All (λ v. 4 < v) hs × Fresh before hs

with_header_good :
    (h : ℕ) (before : List ℕ) (r : Option (List ℕ))
    → 4 < h
    → seen h before ≡ false
    → IfSome (GoodHeaders (h ∷ before)) r
    → IfSome (GoodHeaders before) (with_header h r)
with_header_good h before none a f k = tt
with_header_good h before (some hs) a f k = ((a, k.0), (f, k.1))

abbrev header : ℕ → ℕ
header d = random_uint 5 (2 ^ 31) d

header_above : (d : ℕ) → 4 < header d
unfolding random_uint
header_above d = omega arith

headers_good : (n : ℕ) (before ds : List ℕ) → IfSome (GoodHeaders before) (more_headers n before ds)
unfolding more_headers
headers_good zero before ds = (tt, tt)
headers_good (suc n) before [] = tt
headers_good (suc n) before (d ∷ ds) = elim (Bool-cases (seen (header d) before)) [
  | inl y ↦ rw y (headers_good (suc n) before ds)
  | inr f ↦ rw f (
      with_header_good (header d) before (more_headers n (header d ∷ before) ds) (header_above d) f
        (headers_good n (header d ∷ before) ds))
]

-- How many headers the draws give that are neither among those seen nor repeated.
unfoldable pub new_headers : List ℕ → List ℕ → ℕ
new_headers before [] = 0
new_headers before (d ∷ ds) =
    let rest = new_headers before ds in
    let more = suc (new_headers (header d ∷ before) ds) in
    if seen (header d) before then rest else more

abbrev IsSome {ℓ} : {A : Type ℓ} → Option A → Type 0
IsSome none = ⊥
IsSome (some a) = Unit {0}

with_header-IsSome : (h : ℕ) (r : Option (List ℕ)) → IsSome r → IsSome (with_header h r)
with_header-IsSome h none k = k
with_header-IsSome h (some hs) k = tt

headers-IsSome :
    (n : ℕ) (before ds : List ℕ) → n ≤ new_headers before ds → IsSome (more_headers n before ds)
unfolding more_headers new_headers
headers-IsSome zero before ds h = tt
headers-IsSome (suc n) before [] h = absurd (omega arith)
headers-IsSome (suc n) before (d ∷ ds) h = elim (Bool-cases (seen (header d) before)) [
  | inl y ↦ rw y (headers-IsSome (suc n) before ds (rw y at h))
  | inr f ↦ rw f (
      with_header-IsSome (header d) _
        (headers-IsSome n (header d ∷ before) ds (let k = rw f at h in omega (arith, k))))
]

-- Draws of the second padding that the loop passes over.
second_skips :
    (s1 : ℕ) (bad ds : List ℕ)
    → All (λ b. (s1 + 56 == random_uint 15 150 b) ≡ true) bad
    → second_padding 15 s1 (bad ++ ds) ≡ second_padding 15 s1 ds
unfolding second_padding
second_skips s1 [] ds h = refl
second_skips s1 (b ∷ bad) ds h = rw h.0 (second_skips s1 bad ds h.1)

generated_valid :
    (o : Obfuscation) (s1 s2 : ℕ) (ds : List ℕ) (r : Option (List ℕ))
    → check_packets o.i ≡ none
    → GoodPaddings (s1, s2, ds)
    → IfSome (GoodHeaders []) r
    → IfSome (λ g. validate_obfuscation g ≡ none) (generated o s1 s2 r)
unfolding validate_obfuscation validate_paddings within_limits all_at_least
generated_valid o s1 s2 ds none p g h = tt
generated_valid o s1 s2 ds (some hs) p g h =
    rw (g.2, p, (validate_headers_iff hs true).1 (inr h)) (ground (arith, g.0, g.1))

with_paddings_valid :
    (o : Obfuscation) (r : Option (ℕ × ℕ × List ℕ))
    → check_packets o.i ≡ none
    → IfSome GoodPaddings r
    → IfSome (λ g. validate_obfuscation g ≡ none) (with_paddings o r)
unfolding random_headers
with_paddings_valid o none p g = tt
with_paddings_valid o (some (s1, s2, ds)) p g =
    generated_valid o s1 s2 ds (random_headers ds) p g (headers_good 4 [] ds)

generate-IfSome :
    (o : Obfuscation) (ds : List ℕ)
    → check_packets o.i ≡ none
    → IfSome (λ g. validate_obfuscation g ≡ none) (generate o ds)
unfolding generate
generate-IfSome o ds p =
    with_paddings_valid o (random_handshake_paddings 15 ds) p (paddings_good ds)

generated-IsSome :
    (o : Obfuscation) (s1 s2 : ℕ) (r : Option (List ℕ)) → IsSome r → IsSome (generated o s1 s2 r)
generated-IsSome o s1 s2 none k = k
generated-IsSome o s1 s2 (some hs) k = tt

generate-IsSome :
    (o : Obfuscation) (d e : ℕ) (bad rest : List ℕ)
    → All (λ b. (random_uint 15 150 d + 56 == random_uint 15 150 b) ≡ true) bad
    → (random_uint 15 150 d + 56 == random_uint 15 150 e) ≡ false
    → 4 ≤ new_headers [] rest
    → IsSome (generate o (d ∷ (bad ++ (e ∷ rest))))
unfolding generate random_handshake_paddings random_headers
generate-IsSome o d e bad rest b g h = rw (second_skips (random_uint 15 150 d) bad (e ∷ rest) b) (
    unfold second_padding in
    rw g (generated-IsSome o _ _ (more_headers 4 [] rest) (headers-IsSome 4 [] rest h)))

some_valid :
    (P : Obfuscation → Type 0) (r : Option Obfuscation)
    → IsSome r
    → IfSome P r
    → (g : Obfuscation) × (r ≡ some g) × P g
some_valid P none k h = absurd k
some_valid P (some g) k h = (g, refl, h)

-- For empty or well-formed signature packets and draws in which some second padding is not s1 + 56
-- and four different headers follow it, Generate returns, and what it returns passes Validate.
pub generate_returns :
    (o : Obfuscation) (d e : ℕ) (bad rest : List ℕ)
    → check_packets o.i ≡ none
    → All (λ b. (random_uint 15 150 d + 56 == random_uint 15 150 b) ≡ true) bad
    → (random_uint 15 150 d + 56 == random_uint 15 150 e) ≡ false
    → 4 ≤ new_headers [] rest
    → (g : Obfuscation) × (generate o (d ∷ (bad ++ (e ∷ rest))) ≡ some g)
      × (validate_obfuscation g ≡ none)
generate_returns o d e bad rest p b g h =
    some_valid _ (generate o (d ∷ (bad ++ (e ∷ rest)))) (generate-IsSome o d e bad rest b g h)
      (generate-IfSome o (d ∷ (bad ++ (e ∷ rest))) p)
