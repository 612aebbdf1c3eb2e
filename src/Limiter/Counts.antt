-- ===== src/Limiter/Counts.antt =====
-- The counts of the client blocks.
use dvpnd.Prelude.{
  suc, ◌≡◌, refl, bytes_eq, bytes_eq_iff, List, [], ◌∷◌, Bytes, if◌then◌else◌, arith,
}
use dvpnd.Limiter.{Entry, count_of, increment}

pub count_of-increment :
    (key j : Bytes) (es : List Entry)
    → count_of j (increment key es)
      ≡ (if bytes_eq key j then suc (count_of j es) else count_of j es)
unfolding count_of increment
count_of-increment key j [] = refl
count_of-increment key j (e ∷ es) = ground (
  arith,
  count_of-increment key j es,
  bytes_eq_iff e.block key,
  bytes_eq_iff key j,
  bytes_eq_iff e.block j,
)
