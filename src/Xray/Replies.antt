-- ===== src/Xray/Replies.antt =====
-- A reply of counters, written as protobuf writes it, is read back counter by counter.
use dvpnd.Prelude.{
  ℕ, ◌<◌, ◌^◌, ◌≡◌, refl, ap, ◌∙◌, some, List, [], ◌∷◌, ◌++◌, length, length-append, All, Bytes,
  arith, ◌==◌, bytes_eq, bytes_eq-true, ==_iff, Bool-cases, inl, inr, if◌then◌else◌,
}
use dvpnd.Prelude.Int.{pos, wrap64}
use dvpnd.Prelude.Slices.{drop-append}
use dvpnd.Prelude.Results.{Result, ok}
use dvpnd.Xray.Loops.{run_loop, run_loop-step}
use dvpnd.Xray.Fields.{Protowire, IsTag, WireLaws, varint_type, bytes_type}
use dvpnd.Xray.Wire.{
  Stat, put_stat, at_tag, stat_field, stat_step, parse_stat, stat_bytes, stats_field, stats_step,
  parse_query_stats_response,
}
use dvpnd.Xray.Stats.{stat_step-Shortens, stats_step-Shortens}

-- A counter as the server keeps it.
pub record Counter : Type 0 where
  pub name : Bytes
  pub count : ℕ

abbrev pub Counted : List Counter → Type 0
Counted = All (λ c. c.count < 2 ^ 64)

abbrev pub read_counter : Counter → Stat
read_counter c = record { name = c.name; value = wrap64 (pos c.count) }

-- The map after the counters in order: the last value of a name stands.
unfoldable pub read_all : List Counter → List Stat → List Stat
read_all [] stats = stats
read_all (c ∷ cs) stats = read_all cs (put_stat (read_counter c) stats)

module _ (w : Protowire) where
  -- A string field, which proto3 leaves out when it is empty.
  unfoldable pub name_field : Bytes → Bytes → Bytes
  name_field name rest =
      if bytes_eq name []
      then rest
      else w.append_tag [] 1 bytes_type ++ (w.append_bytes [] name ++ rest)

  -- A number's field, which proto3 leaves out when it is 0.
  unfoldable pub value_field : ℕ → Bytes
  value_field v =
      if v == 0 then [] else w.append_tag [] 2 varint_type ++ (w.append_varint [] v ++ [])

  -- Stat {name = 1, value = 2}
  unfoldable pub counter_message : Counter → Bytes
  unfolding name_field value_field
  counter_message c = name_field c.name (value_field c.count)

  -- QueryStatsResponse {stat = 1 repeated}
  unfoldable pub reply_message : List Counter → Bytes
  unfolding counter_message
  reply_message [] = []
  reply_message (c ∷ cs) =
      w.append_tag [] 1 bytes_type ++ (w.append_bytes [] (counter_message c) ++ reply_message cs)

module _ (w : Protowire) (laws : WireLaws w) where
  tag_taken :
      {S : Type 0} (field : ℕ → ℕ → Bytes → S → Result (Bytes × S))
      → (num typ : ℕ) (rest : Bytes) (acc : S) → IsTag num typ
      → at_tag w field
          (w.append_tag [] num typ ++ rest)
          acc
          (w.consume_tag (w.append_tag [] num typ ++ rest))
        ≡ field num typ rest acc
  tag_taken field num typ rest acc t =
      rw (laws.tag-back num typ rest t)
        (ap (λ b. field num typ b acc) (drop-append (w.append_tag [] num typ) rest))

  tag_not_empty :
      (num typ : ℕ) (rest : Bytes) → IsTag num typ → 0 < length (w.append_tag [] num typ ++ rest)
  tag_not_empty num typ rest t = omega (
    arith,
    laws.tag-positive _ num typ _ (laws.tag-back num typ rest t),
    length-append (w.append_tag [] num typ) rest,
  )

  name-IsTag : IsTag 1 bytes_type
  name-IsTag = (omega arith, omega arith, omega arith)

  value-IsTag : IsTag 2 varint_type
  value-IsTag = (omega arith, omega arith, omega arith)

  name_taken :
      (v rest : Bytes) (s : Stat)
      → stat_step w (w.append_tag [] 1 bytes_type ++ (w.append_bytes [] v ++ rest)) s
        ≡ ok (rest, record s { name = v })
  unfolding stat_step
  name_taken v rest s =
      tag_taken (stat_field w) 1 bytes_type (w.append_bytes [] v ++ rest) s name-IsTag
      ∙ rw (laws.bytes-back v rest)
          (ap (λ b. ok (b, record s { name = v })) (drop-append (w.append_bytes [] v) rest))

  value_taken :
      (v : ℕ) (rest : Bytes) (s : Stat)
      → v < 2 ^ 64
      → stat_step w (w.append_tag [] 2 varint_type ++ (w.append_varint [] v ++ rest)) s
        ≡ ok (rest, record s { value = wrap64 (pos v) })
  unfolding stat_step
  value_taken v rest s h =
      tag_taken (stat_field w) 2 varint_type (w.append_varint [] v ++ rest) s value-IsTag
      ∙ rw (laws.varint-back v rest h) (
          ap (λ b. ok (b, record s { value = wrap64 (pos v) }))
            (drop-append (w.append_varint [] v) rest))

  value_read :
      (name : Bytes) (v : ℕ)
      → v < 2 ^ 64
      → run_loop
          (stat_step w)
          (length (value_field w v))
          (value_field w v)
          (record { name = name; value = pos 0 })
        ≡ some (ok (record { name = name; value = wrap64 (pos v) }))
  unfolding value_field
  value_read name v h = elim (Bool-cases (v == 0)) [
    | inl y ↦ let e : v ≡ 0 = ground (arith, ==_iff v 0) in rw e (unfold run_loop wrap64 in refl)
    | inr n ↦ rw n (
        run_loop-step (stat_step w) (stat_step-Shortens w laws) _ _ _ _
          (tag_not_empty 2 varint_type _ value-IsTag) (value_taken v [] _ h)
        ∙ unfold run_loop in refl)
  ]

  name_read :
      (name rest : Bytes)
      → run_loop
          (stat_step w)
          (length (name_field w name rest))
          (name_field w name rest)
          (record { name = []; value = pos 0 })
        ≡ run_loop (stat_step w) (length rest) rest (record { name = name; value = pos 0 })
  unfolding name_field bytes_eq
  name_read name rest = elim (Bool-cases (bytes_eq name [])) [
    | inl y ↦ let e : name ≡ [] = bytes_eq-true name [] y in rw e refl
    | inr n ↦ rw n (
        run_loop-step (stat_step w) (stat_step-Shortens w laws) _ _ _ _
          (tag_not_empty 1 bytes_type _ name-IsTag) (name_taken name rest _))
  ]

  parse_stat-counter :
      (c : Counter)
      → c.count < 2 ^ 64
      → parse_stat w (counter_message w c) ≡ some (ok (read_counter c))
  unfolding parse_stat counter_message
  parse_stat-counter c h = name_read c.name (value_field w c.count) ∙ value_read c.name c.count h

  stat_taken :
      (c : Counter) (rest : Bytes) (stats : List Stat)
      → c.count < 2 ^ 64
      → stats_step w
          (w.append_tag [] 1 bytes_type ++ (w.append_bytes [] (counter_message w c) ++ rest))
          stats
        ≡ ok (rest, put_stat (read_counter c) stats)
  unfolding stats_step stats_field stat_bytes
  stat_taken c rest stats h =
      tag_taken (stats_field w) 1 bytes_type (w.append_bytes [] (counter_message w c) ++ rest) stats
        name-IsTag
      ∙ rw (laws.bytes-back (counter_message w c) rest) (
          rw (parse_stat-counter c h) (
            ap (λ b. ok (b, put_stat (read_counter c) stats))
              (drop-append (w.append_bytes [] (counter_message w c)) rest)))

  read_reply :
      (cs : List Counter) (stats : List Stat)
      → Counted cs
      → run_loop (stats_step w) (length (reply_message w cs)) (reply_message w cs) stats
        ≡ some (ok (read_all cs stats))
  unfolding reply_message read_all
  read_reply [] stats h = unfold run_loop in refl
  read_reply (c ∷ cs) stats h =
      run_loop-step (stats_step w) (stats_step-Shortens w laws) _ _ _ _
        (tag_not_empty 1 bytes_type _ name-IsTag) (stat_taken c (reply_message w cs) stats h.0)
      ∙ read_reply cs (put_stat (read_counter c) stats) h.1

  -- Under protowire's laws, a statistics reply of any list of counters, each below 2^64, is read back
  -- as the map in which the last value of each name stands, converted to int64.
  pub parse_query_stats_response-reply :
      (cs : List Counter)
      → Counted cs
      → parse_query_stats_response w (reply_message w cs) ≡ some (ok (read_all cs []))
  unfolding parse_query_stats_response
  parse_query_stats_response-reply cs h = read_reply cs [] h
