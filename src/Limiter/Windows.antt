-- ===== src/Limiter/Windows.antt =====
-- Over any run of attempts within one window, a client block is let through at most `limit` times.
use dvpnd.Prelude.{
  ◌⊎◌, not, leb→le, ℕ, suc, ◌+◌, ◌-◌, ◌≤◌, ◌<◌, ◌≡◌, refl, true, false, List, [], ◌∷◌, Bytes,
  bytes_eq, bytes_eq_iff, All, leb, if◌then◌else◌, arith, Bool-cases, inl, inr,
}
use dvpnd.Limiter.{RateLimiter, Verdict, count_of, roll, judge, allow}
use dvpnd.Limiter.Counts.{count_of-increment}

-- An attempt: the clock's reading and the client's block.
pub record Attempt : Type 0 where
  pub at : ℕ
  pub block : Bytes

unfoldable pub after_all : RateLimiter → List Attempt → RateLimiter
after_all l [] = l
after_all l (a ∷ as') = after_all (allow a.at a.block l).1 as'

-- How many attempts of a block were let through.
unfoldable pub passed : Bytes → RateLimiter → List Attempt → ℕ
passed key l [] = 0
passed key l (a ∷ as') =
    (if bytes_eq a.block key then (if (allow a.at a.block l).0.ok then 1 else 0) else 0)
    + passed key (allow a.at a.block l).1 as'

-- The attempts fall into the window that is open.
abbrev pub InWindow : RateLimiter → List Attempt → Type 0
InWindow l = All (λ a. a.at - l.start < l.window)

allow-in_window :
    (l : RateLimiter) (now : ℕ) (block key : Bytes)
    → now - l.start < l.window
    → count_of key l.counts ≤ l.limit
    → let (v, l') = allow now block l in
      (l'.start ≡ l.start)
      × (l'.window ≡ l.window)
      × (l'.limit ≡ l.limit)
      × (count_of key l'.counts ≤ l.limit)
      × (count_of key l'.counts
          ≡ (if bytes_eq block key then (if v.ok then 1 else 0) else 0) + count_of key l.counts)
unfolding allow
allow-in_window l now block key h k =
    ground (arith, count_of-increment block key l.counts, bytes_eq_iff block key)

InWindow-same :
    (l l' : RateLimiter) (as' : List Attempt)
    → l'.start ≡ l.start
    → l'.window ≡ l.window
    → InWindow l as'
    → InWindow l' as'
InWindow-same l l' [] e f h = tt
InWindow-same l l' (a ∷ as') e f h = (rw (e, f) h.0, InWindow-same l l' as' e f h.1)

-- For attempts within the window that is open and a count within the limit, what a block has passed
-- and what it still passes stay within the limit, whatever the other blocks try in between.
pub passed-le-limit :
    (key : Bytes) (l : RateLimiter) (as' : List Attempt)
    → InWindow l as'
    → count_of key l.counts ≤ l.limit
    → count_of key l.counts + passed key l as' ≤ l.limit
unfolding passed
passed-le-limit key l [] h k = omega arith
passed-le-limit key l (a ∷ as') h k =
    let (same, width, cap', kept, grown) = allow-in_window l a.at a.block key h.0 k in
    let later =
      passed-le-limit key (allow a.at a.block l).1 as'
        (InWindow-same l (allow a.at a.block l).1 as' same width h.1) (rw cap' kept) in
    omega (arith, rw cap' at later, grown)

-- The window that an attempt at `now` falls into: the one that is open, or, when that has lasted
-- its time, a new one from `now` on with no counts and no warning.
abbrev pub Opens : ℕ → RateLimiter → RateLimiter → Type 0
Opens now l m =
    ((now - l.start < l.window) × (m ≡ l))
    ⊎ ((l.window ≤ now - l.start) × (m ≡ record l { start = now; counts = []; warned = false }))

roll-Opens : (l : RateLimiter) (now : ℕ) → Opens now l (roll now l)
unfolding roll
roll-Opens l now = elim (Bool-cases (leb l.window (now - l.start))) [
  | inl y ↦ rw y (inr (leb→le _ _ y, refl))
  | inr n ↦ rw n (inl (ground arith, refl))
]

roll_ends : (l : RateLimiter) (now : ℕ) → now ≤ (roll now l).start + (roll now l).window
unfolding roll
roll_ends l now = ground arith

-- What a verdict says of the window `m` that is open.
abbrev pub Fair : ℕ → Bytes → RateLimiter → Verdict × RateLimiter → Type 0
Fair now block m (v, l') =
    (l'.limit ≡ m.limit)
    × (l'.window ≡ m.window)
    × (l'.start ≡ m.start)
    × (((v.ok ≡ false)
          × (m.limit ≤ count_of block m.counts)
          × (l'.counts ≡ m.counts)
          × (now + v.wait ≡ m.start + m.window)
          × (v.first ≡ not m.warned)
          × (l'.warned ≡ true))
        ⊎ ((v.ok ≡ true)
            × (count_of block m.counts < m.limit)
            × ((j : Bytes)
                → count_of j l'.counts
                  ≡ (if bytes_eq block j then suc (count_of j m.counts) else count_of j m.counts))
            × (l'.warned ≡ m.warned)))

judge-Fair :
    (now : ℕ) (block : Bytes) (l : RateLimiter)
    → now ≤ l.start + l.window
    → Fair now block l (judge now block l)
judge-Fair now block l h = elim (Bool-cases (leb l.limit (count_of block l.counts))) [
  | inl e ↦ rw e (refl, refl, refl, inl (refl, leb→le _ _ e, refl, omega arith, refl, refl))
  | inr e ↦
      rw e
        (refl, refl, refl, inr (refl, ground arith, λ j. count_of-increment block j l.counts, refl))
]

-- An attempt falls into the open window, or, when that has lasted its time, into a new one that
-- starts with it, without counts. It is refused exactly when its block has used the limit in that
-- window; a refusal tells the wait up to the window's end, changes no count and is marked first
-- once; an attempt that is let through counts for its block alone.
pub allow-Fair :
    (l : RateLimiter) (now : ℕ) (block : Bytes)
    → (m : RateLimiter) × Opens now l m × Fair now block m (allow now block l)
unfolding allow
allow-Fair l now block =
    (roll now l, roll-Opens l now, judge-Fair now block (roll now l) (roll_ends l now))
