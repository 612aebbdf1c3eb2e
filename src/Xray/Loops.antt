-- ===== src/Xray/Loops.antt =====
-- A `for len(b) > 0` loop over bytes, on fuel: an iteration leaves the bytes that it did not consume.
use dvpnd.Prelude.{
  ℕ, zero, suc, ◌≤◌, ◌<◌, ◌≡◌, refl, Option, none, some, [], ◌∷◌, length, Bytes, arith, inl, inr,
}
use dvpnd.Prelude.Results.{Result, ok, err, Result-cases}

module _ {S : Type 0} (step : Bytes → S → Result (Bytes × S)) where
  abbrev continue_with : (Bytes → S → Option (Result S)) → Result (Bytes × S) → Option (Result S)
  continue_with next (err e) = some (err e)
  continue_with next (ok (rest, acc)) = next rest acc

  -- None is the end of the fuel.
  unfoldable pub run_loop : ℕ → Bytes → S → Option (Result S)
  run_loop n [] acc = some (ok acc)
  run_loop zero (c ∷ b) acc = none
  run_loop (suc n) (c ∷ b) acc = continue_with (run_loop n) (step (c ∷ b) acc)

  -- Every iteration consumes a byte at least.
  abbrev pub Shortens : Type 0
  Shortens =
      (b : Bytes) (acc : S) (rest : Bytes) (next : S)
      → 0 < length b
      → step b acc ≡ ok (rest, next)
      → length rest < length b

  pub run_loop-returns :
      Shortens
      → (n : ℕ) (b : Bytes) (acc : S) → length b ≤ n
      → (r : Result S) × (run_loop n b acc ≡ some r)
  unfolding run_loop
  run_loop-returns sh n [] acc h = (ok acc, refl)
  run_loop-returns sh zero (c ∷ b) acc h = absurd (omega arith)
  run_loop-returns sh (suc n) (c ∷ b) acc h = elim (Result-cases (step (c ∷ b) acc)) [
    | inl (e, p) ↦ rw p (err e, refl)
    | inr ((rest, next), p) ↦
        rw p (
          run_loop-returns sh n rest next (omega (arith, sh (c ∷ b) acc rest next (omega arith) p)))
  ]

  -- More fuel than the bytes need changes nothing.
  run_loop-fuel :
      Shortens
      → (n m : ℕ) (b : Bytes) (acc : S) → length b ≤ n
      → length b ≤ m
      → run_loop n b acc ≡ run_loop m b acc
  unfolding run_loop
  run_loop-fuel sh n m [] acc h k = refl
  run_loop-fuel sh zero m (c ∷ b) acc h k = absurd (omega arith)
  run_loop-fuel sh (suc n) zero (c ∷ b) acc h k = absurd (omega arith)
  run_loop-fuel sh (suc n) (suc m) (c ∷ b) acc h k = elim (Result-cases (step (c ∷ b) acc)) [
    | inl (e, p) ↦ rw p refl
    | inr ((rest, next), p) ↦
        let shorter = sh (c ∷ b) acc rest next (omega arith) p in
        rw p (run_loop-fuel sh n m rest next (omega (arith, shorter)) (omega (arith, shorter)))
  ]

  pub run_loop-step :
      Shortens
      → (b rest : Bytes) (acc next : S) → 0 < length b
      → step b acc ≡ ok (rest, next)
      → run_loop (length b) b acc ≡ run_loop (length rest) rest next
  unfolding run_loop
  run_loop-step sh [] rest acc next h p = absurd (omega arith)
  run_loop-step sh (c ∷ b) rest acc next h p =
      let shorter = sh (c ∷ b) acc rest next h p in
      rw p
        (run_loop-fuel sh (length b) (length rest) rest next (omega (arith, shorter)) (omega arith))
