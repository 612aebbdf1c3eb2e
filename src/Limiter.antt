-- ===== src/Limiter.antt =====
-- api/session/guard.go: the rate limiter of the handshake endpoint. A time is a number of
-- nanoseconds on the limiter's clock; `counts`, a map from client blocks, is an association list.
pub mod Counts
pub mod Windows
pub mod Retries
use dvpnd.Prelude.{
  ℕ, suc, ◌+◌, ◌-◌, ◌/◌, ◌^◌, ◌≡◌, Bool, true, false, not, Option, none, some, List, [], ◌∷◌, Bytes,
  bytes_eq, ltb, leb, if◌then◌else◌,
}

pub record Entry : Type 0 where
  pub block : Bytes
  pub count : ℕ

pub record RateLimiter : Type 0 where
  pub limit : ℕ
  pub window : ℕ
  pub start : ℕ
  pub counts : List Entry
  pub warned : Bool

-- What allow returns: whether to go on, how long to wait, whether it is the window's first refusal.
pub record Verdict : Type 0 where
  pub ok : Bool
  pub wait : ℕ
  pub first : Bool

-- The zero time stands for the epoch, long before any window.
unfoldable pub new_rate_limiter : ℕ → ℕ → RateLimiter
new_rate_limiter limit window = record {
  limit = limit;
  window = window;
  start = 0;
  counts = [];
  warned = false;
}

-- `l.counts[key]`, 0 for a key that is not there.
unfoldable pub count_of : Bytes → List Entry → ℕ
count_of key [] = 0
count_of key (e ∷ es) = if bytes_eq e.block key then e.count else count_of key es

-- `l.counts[key]++`
unfoldable pub increment : Bytes → List Entry → List Entry
increment key [] = record { block = key; count = 1 } ∷ []
increment key (e ∷ es) =
    let rest = increment key es in
    if bytes_eq e.block key then record e { count = suc e.count } ∷ es else e ∷ rest

-- A new window drops the counts. `now - start` is exact: a clock that stepped back gives a negative
-- difference, which is below the window as 0 is.
unfoldable pub roll : ℕ → RateLimiter → RateLimiter
roll now l =
    if leb l.window (now - l.start)
    then record l { start = now; counts = []; warned = false }
    else l

abbrev judge : ℕ → Bytes → RateLimiter → Verdict × RateLimiter
judge now key l =
    if leb l.limit (count_of key l.counts)
    then (
      record { ok = false; wait = l.start + l.window - now; first = not l.warned },
      record l { warned = true },
    )
    else (
      record { ok = true; wait = 0; first = false },
      record l { counts = increment key l.counts },
    )

unfoldable pub allow : ℕ → Bytes → RateLimiter → Verdict × RateLimiter
unfolding roll
allow now key l = judge now key (roll now l)

-- What the middleware does with a request: the next handler, or a refusal with its Retry-After seconds.
pub data Reply : Type 0 where
  pass : Reply
  too_many : ℕ → Reply

abbrev pub replied : Verdict × RateLimiter → Reply × RateLimiter
replied (v, l) = (if v.ok then pass else too_many (v.wait / 10 ^ 9 + 1), l)

-- limitHandshakes, on the client's block
unfoldable pub limit_handshakes : ℕ → Bytes → RateLimiter → Reply × RateLimiter
unfolding allow
limit_handshakes now block l = replied (allow now block l)
