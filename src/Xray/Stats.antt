-- ===== src/Xray/Stats.antt =====
-- Reading statistics: the loops end on whatever bytes come, and a reply's counters come back.
use dvpnd.Prelude.{
  ℕ, ◌==◌, ◌≤◌, ◌≡◌, ◌&&◌, Option, none, some, List, [], length, Bytes, arith, Bool-cases,
  Option-cases, inl, inr,
}
use dvpnd.Prelude.Slices.{drop, length-drop}
use dvpnd.Prelude.Results.{Result, ok, err}
use dvpnd.Xray.Loops.{Shortens, run_loop-returns}
use dvpnd.Xray.Fields.{Protowire, WireLaws, varint_type, bytes_type}
use dvpnd.Xray.Wire.{
  Stat, skipped, named, valued, at_tag, stat_field, stat_step, parse_stat, stored, stat_bytes,
  stats_field, stats_step, parse_query_stats_response,
}

-- A field's body leaves no more bytes than it was given.
abbrev Shrinks : {S : Type 0} → (ℕ → ℕ → Bytes → S → Result (Bytes × S)) → Type 0
Shrinks {S = S} field =
    (num typ : ℕ) (b : Bytes) (acc : S) (rest : Bytes) (next : S)
    → field num typ b acc ≡ ok (rest, next)
    → length rest ≤ length b

dropped : (n : ℕ) (b rest : Bytes) → drop n b ≡ rest → length rest ≤ length b
dropped n b rest h = rw (← h) (omega (arith, length-drop n b))

first_of :
    {S : Type 0}
    → (x y : Bytes) (a b : S) → ◌≡◌ {A = Result (Bytes × S)} (ok (x, a)) (ok (y, b))
    → x ≡ y
first_of x y a b h = cc

module _ (w : Protowire) (laws : WireLaws w) where
  at_tag-shorter :
      {S : Type 0} (field : ℕ → ℕ → Bytes → S → Result (Bytes × S))
      → Shrinks field
      → Shortens (λ b acc. at_tag w field b acc (w.consume_tag b))
  at_tag-shorter field sh b acc rest next some_left h = elim (Option-cases (w.consume_tag b)) [
    | inl e ↦ absurd (let k = rw e at h in cc)
    | inr ((num, typ, n), e) ↦ omega (
      arith,
      laws.tag-positive b num typ n e,
      length-drop n b,
      sh num typ (drop n b) acc rest next (rw e at h),
    )
  ]

  skipped-shrinks :
      {S : Type 0} (b : Bytes) (acc : S) (o : Option ℕ) (rest : Bytes) (next : S)
      → skipped w b acc o ≡ ok (rest, next)
      → length rest ≤ length b
  skipped-shrinks b acc none rest next h = cc
  skipped-shrinks b acc (some n) rest next h = dropped n b rest (first_of _ _ _ _ h)

  named-shrinks :
      (b : Bytes) (s : Stat) (o : Option (Bytes × ℕ)) (rest : Bytes) (next : Stat)
      → named w b s o ≡ ok (rest, next)
      → length rest ≤ length b
  named-shrinks b s none rest next h = cc
  named-shrinks b s (some (v, n)) rest next h = dropped n b rest (first_of _ _ _ _ h)

  valued-shrinks :
      (b : Bytes) (s : Stat) (o : Option (ℕ × ℕ)) (rest : Bytes) (next : Stat)
      → valued w b s o ≡ ok (rest, next)
      → length rest ≤ length b
  valued-shrinks b s none rest next h = cc
  valued-shrinks b s (some (v, n)) rest next h = dropped n b rest (first_of _ _ _ _ h)

  stat_field-Shrinks : Shrinks (stat_field w)
  stat_field-Shrinks num typ b s rest next h = elim (Bool-cases (num == 1 && typ == bytes_type)) [
    | inl y ↦ named-shrinks b s (w.consume_bytes b) rest next (rw y at h)
    | inr n ↦ elim (Bool-cases (num == 2 && typ == varint_type)) [
      | inl y ↦ valued-shrinks b s (w.consume_varint b) rest next (let k = rw n at h in rw y at k)
      | inr m ↦
          skipped-shrinks b s (w.consume_field_value num typ b) rest next
            (let k = rw n at h in rw m at k)
    ]
  ]

  pub stat_step-Shortens : Shortens (stat_step w)
  unfolding stat_step
  stat_step-Shortens = at_tag-shorter (stat_field w) stat_field-Shrinks

  stored-shrinks :
      (b : Bytes) (stats : List Stat) (o : Option (Result Stat)) (rest : Bytes) (next : List Stat)
      → stored w b stats o ≡ ok (rest, next)
      → length rest ≤ length b
  stored-shrinks b stats none rest next h = cc
  stored-shrinks b stats (some (err e)) rest next h = cc
  stored-shrinks b stats (some (ok s)) rest next h = rw (first_of _ _ _ _ h) (omega arith)

  stat_bytes-shrinks :
      (b : Bytes) (stats : List Stat) (o : Option (Bytes × ℕ)) (rest : Bytes) (next : List Stat)
      → stat_bytes w b stats o ≡ ok (rest, next)
      → length rest ≤ length b
  unfolding stat_bytes
  stat_bytes-shrinks b stats none rest next h = cc
  stat_bytes-shrinks b stats (some (v, n)) rest next h =
      omega (arith, length-drop n b, stored-shrinks (drop n b) stats (parse_stat w v) rest next h)

  stats_field-Shrinks : Shrinks (stats_field w)
  unfolding stats_field
  stats_field-Shrinks num typ b stats rest next h =
      elim (Bool-cases (num == 1 && typ == bytes_type)) [
        | inl y ↦ stat_bytes-shrinks b stats (w.consume_bytes b) rest next (rw y at h)
        | inr n ↦ skipped-shrinks b stats (w.consume_field_value num typ b) rest next (rw n at h)
      ]

  pub stats_step-Shortens : Shortens (stats_step w)
  unfolding stats_step
  stats_step-Shortens = at_tag-shorter (stats_field w) stats_field-Shrinks

  -- Under protowire's laws, parseQueryStatsResponse and each parseStat in it end on any bytes: with
  -- the length of the bytes as fuel the model gives a result, a map or an error.
  pub parse_query_stats_response-returns :
      (b s : Bytes)
      → ((r : Result (List Stat)) × (parse_query_stats_response w b ≡ some r))
        × ((r : Result Stat) × (parse_stat w s ≡ some r))
  unfolding parse_query_stats_response parse_stat
  parse_query_stats_response-returns b s = (
    run_loop-returns (stats_step w) stats_step-Shortens (length b) b [] (omega arith),
    run_loop-returns (stat_step w) stat_step-Shortens (length s) s _ (omega arith),
  )
