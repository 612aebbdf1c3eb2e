-- ===== src/Prelude/Slices.antt =====
-- Slices of a list, and splitting text at a separator that the words do not hold.
use Prim.Native.Nat.{ℕ, zero, suc, ◌+◌, ◌-◌, ◌≤◌}
use mathlib.Core.Path.{◌≡◌, refl, ap}
use mathlib.Core.Bool.{Bool, true, false, ◌&&◌, ◌||◌}
use mathlib.Core.List.{List, [], ◌∷◌, ◌++◌}
use native.Mathlib.Omega.{arith}
use dvpnd.Prelude.Tests.{◌==◌, if◌then◌else◌}
use dvpnd.Prelude.Lists.{All, length}
use dvpnd.Prelude.Strings.{Bytes}
use dvpnd.Prelude.Numbers.{split}

module _ {ℓ} {A : Type ℓ} where
  abbrev pub take : ℕ → List A → List A
  take zero xs = []
  take (suc n) [] = []
  take (suc n) (x ∷ xs) = x ∷ take n xs

  abbrev pub drop : ℕ → List A → List A
  drop zero xs = xs
  drop (suc n) [] = []
  drop (suc n) (x ∷ xs) = drop n xs

  -- `xs[a:b]`
  unfoldable pub slice : ℕ → ℕ → List A → List A
  slice a b xs = take (b - a) (drop a xs)

  pub take-drop : (n : ℕ) (xs : List A) → take n xs ++ drop n xs ≡ xs
  take-drop zero xs = refl
  take-drop (suc n) [] = refl
  take-drop (suc n) (x ∷ xs) = ap (λ ys. x ∷ ys) (take-drop n xs)

  pub length-take : (n : ℕ) (xs : List A) → n ≤ length xs → length (take n xs) ≡ n
  length-take zero xs h = refl
  length-take (suc n) [] h = omega arith
  length-take (suc n) (x ∷ xs) h = omega (arith, length-take n xs (omega arith))

  pub length-drop : (n : ℕ) (xs : List A) → length (drop n xs) ≡ length xs - n
  length-drop zero xs = omega arith
  length-drop (suc n) [] = omega arith
  length-drop (suc n) (x ∷ xs) = omega (arith, length-drop n xs)

  pub take-all : (n : ℕ) (xs : List A) → length xs ≤ n → take n xs ≡ xs
  take-all zero [] h = refl
  take-all zero (x ∷ xs) h = absurd (omega arith)
  take-all (suc n) [] h = refl
  take-all (suc n) (x ∷ xs) h = ap (λ ys. x ∷ ys) (take-all n xs (omega arith))

  pub drop-append : (xs ys : List A) → drop (length xs) (xs ++ ys) ≡ ys
  drop-append [] ys = refl
  drop-append (x ∷ xs) ys = drop-append xs ys

  pub All-take {κ} : (P : A → Type κ) (n : ℕ) (xs : List A) → All P xs → All P (take n xs)
  All-take P zero xs h = tt
  All-take P (suc n) [] h = tt
  All-take P (suc n) (x ∷ xs) h = (h.0, All-take P n xs h.1)

  pub All-drop {κ} : (P : A → Type κ) (n : ℕ) (xs : List A) → All P xs → All P (drop n xs)
  All-drop P zero xs h = h
  All-drop P (suc n) [] h = tt
  All-drop P (suc n) (x ∷ xs) h = All-drop P n xs h.1

  drop_nil : (n : ℕ) → drop n [] ≡ []
  drop_nil zero = refl
  drop_nil (suc n) = refl

  pub drop-drop : (n m : ℕ) (xs : List A) → drop m (drop n xs) ≡ drop (n + m) xs
  drop-drop zero m xs = let e : 0 + m ≡ m = omega arith in rw e refl
  drop-drop (suc n) m [] = let e : suc n + m ≡ suc (n + m) = omega arith in rw e (drop_nil m)
  drop-drop (suc n) m (x ∷ xs) =
      let e : suc n + m ≡ suc (n + m) = omega arith in rw e (drop-drop n m xs)

-- `strings.Join(parts, "")`
unfoldable pub concat : List Bytes → Bytes
concat [] = []
concat (w ∷ ws) = w ++ concat ws

-- A word without the separator.
abbrev pub Plain : ℕ → Bytes → Type 0
Plain sep = All (λ c. (c == sep) ≡ false)

pub split-Plain : (sep : ℕ) (w : Bytes) → Plain sep w → split sep w ≡ w ∷ []
unfolding split
split-Plain sep [] h = refl
split-Plain sep (c ∷ w) h = rw (split-Plain sep w h.1, h.0) refl

sep_self : (sep : ℕ) → (sep == sep) ≡ true
sep_self sep = ground arith

pub split-word : (sep : ℕ) (w s : Bytes) → Plain sep w → split sep (w ++ sep ∷ s) ≡ w ∷ split sep s
unfolding split
split-word sep [] s h = rw (sep_self sep) refl
split-word sep (c ∷ w) s h = rw (split-word sep w s h.1, h.0) refl

-- `strings.HasPrefix(s, p)`
unfoldable pub has_prefix : Bytes → Bytes → Bool
has_prefix s [] = true
has_prefix [] (p ∷ ps) = false
has_prefix (c ∷ s) (p ∷ ps) = c == p && has_prefix s ps

-- `strings.Contains(s, p)`
unfoldable pub contains : Bytes → Bytes → Bool
unfolding has_prefix
contains [] p = has_prefix [] p
contains (c ∷ s) p = has_prefix (c ∷ s) p || contains s p

-- `strings.Cut(s, sep)`: what stands before the separator and behind it, and whether it is there.
abbrev pub cut_behind : ℕ → Bytes × Bytes × Bool → Bytes × Bytes × Bool
cut_behind c (before, after, found) = (c ∷ before, after, found)

unfoldable pub cut : ℕ → Bytes → Bytes × Bytes × Bool
cut sep [] = ([], [], false)
cut sep (c ∷ s) = let rest = cut sep s in if c == sep then ([], s, true) else cut_behind c rest

pub cut-word : (sep : ℕ) (w s : Bytes) → Plain sep w → cut sep (w ++ (sep ∷ s)) ≡ (w, s, true)
unfolding cut
cut-word sep [] s h = rw (sep_self sep) refl
cut-word sep (c ∷ w) s h = rw (h.0, cut-word sep w s h.1) refl
