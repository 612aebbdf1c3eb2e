-- ===== src/Session.antt =====
-- types/session.go: a row of the local session table. Byte counts and durations are int64; a time is
-- its count of nanoseconds.
use dvpnd.Prelude.{ℕ, ◌-◌, ◌^◌, if◌then◌else◌, Bytes}
use dvpnd.Prelude.Int.{ℤ, pos, negsuc, ◌+ℤ◌, ◌-ℤ◌, ltb_ℤ, wrap64}

pub record Session : Type 0 where
  pub id : ℕ
  pub subscription : ℕ
  pub key : Bytes
  pub address : Bytes
  pub available : ℤ
  pub download : ℤ
  pub upload : ℤ
  pub base_download : ℤ
  pub base_upload : ℤ
  pub base_duration : ℤ
  pub created_at : ℤ
  pub updated_at : ℤ

unfoldable pub served_bytes : Session → ℤ
served_bytes s =
    wrap64 (wrap64 (s.download -ℤ s.base_download) +ℤ wrap64 (s.upload -ℤ s.base_upload))

-- The largest and the smallest int64.
abbrev pub max_i64 : ℤ
max_i64 = pos (2 ^ 63 - 1)

abbrev pub min_i64 : ℤ
min_i64 = negsuc (2 ^ 63 - 1)

-- time.Time's Sub, which saturates.
unfoldable pub sub_time : ℤ → ℤ → ℤ
sub_time a b =
    let d = a -ℤ b in if ltb_ℤ max_i64 d then max_i64 else if ltb_ℤ d min_i64 then min_i64 else d

-- What the node reports: the duration at admission and the time served since.
unfoldable pub duration : Session → ℤ
duration s = wrap64 (s.base_duration +ℤ sub_time s.updated_at s.created_at)
