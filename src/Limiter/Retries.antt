-- ===== src/Limiter/Retries.antt =====
-- A client that waits for Retry-After gets through.
use dvpnd.Prelude.{ℕ, ◌+◌, ◌*◌, ◌^◌, ◌≤◌, ◌<◌, ◌≡◌, true, Bytes, leb, Bool-cases, inl, inr, arith}
use dvpnd.Limiter.{
  RateLimiter, count_of, roll, judge, allow, Reply, pass, too_many, replied, limit_handshakes,
}

-- Once the window is over, an attempt passes.
over_pass :
    (later : ℕ) (block : Bytes) (l : RateLimiter)
    → 0 < l.limit
    → l.start + l.window ≤ later
    → (limit_handshakes later block l).0 ≡ pass
unfolding limit_handshakes allow roll count_of
over_pass later block l h k = ground arith

-- A refusal's client may come back after the seconds that it names.
abbrev pub Retriable : ℕ → Bytes → Reply × RateLimiter → Type 0
Retriable now block (pass, l) = Unit {0}
Retriable now block (too_many n, l) =
    (later : ℕ) → now + n * 10 ^ 9 ≤ later → (limit_handshakes later block l).0 ≡ pass

judge-Retriable :
    (now : ℕ) (block : Bytes) (l : RateLimiter)
    → 0 < l.limit
    → Retriable now block (replied (judge now block l))
judge-Retriable now block l h = elim (Bool-cases (leb l.limit (count_of block l.counts))) [
  | inr n ↦ rw n tt
  | inl y ↦
      rw y (λ later k. over_pass later block (record l { warned = true }) h (omega (arith, k)))
]

roll-limit : (now : ℕ) (l : RateLimiter) → (roll now l).limit ≡ l.limit
unfolding roll
roll-limit now l = ground arith

-- With a limit above zero, a client that is refused and comes back, with no attempt in between, no
-- sooner than the Retry-After seconds it was told gets through.
pub limit_handshakes-Retriable :
    (now : ℕ) (block : Bytes) (l : RateLimiter)
    → 0 < l.limit
    → Retriable now block (limit_handshakes now block l)
unfolding limit_handshakes allow
limit_handshakes-Retriable now block l h =
    judge-Retriable now block (roll now l) (rw (roll-limit now l) h)
