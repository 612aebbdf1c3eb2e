-- ===== src/Xray/Wire.antt =====
-- services/xray/wire.go: the requests to xray's control API and the reading of its statistics, in
-- protobuf's wire format.
use dvpnd.Prelude.{
  ℕ, ◌==◌, Bool, ◌&&◌, not, Option, none, some, List, [], ◌∷◌, length, Bytes, bytes_eq,
  if◌then◌else◌,
}
use dvpnd.Prelude.Text.{ascii}
use dvpnd.Prelude.Int.{ℤ, pos, wrap64}
use dvpnd.Prelude.Slices.{drop}
use dvpnd.Prelude.Table.{erase}
use dvpnd.Prelude.Results.{Err, Result, ok, err}
use dvpnd.Xray.Loops.{run_loop}
use dvpnd.Xray.Fields.{Protowire, varint_type, bytes_type}

abbrev pub parse_error : Err
parse_error = 1

-- One entry of the map from counter names to values.
pub record Stat : Type 0 where
  pub name : Bytes
  pub value : ℤ

abbrev pub name_of : Stat → Bytes
name_of s = s.name

-- `stats[name] = value`
unfoldable pub put_stat : Stat → List Stat → List Stat
put_stat s stats = s ∷ erase name_of s.name stats

abbrev pub type_add_user_operation : Bytes
unfolding ascii
type_add_user_operation = ascii "xray.app.proxyman.command.AddUserOperation"

abbrev pub type_remove_user_operation : Bytes
unfolding ascii
type_remove_user_operation = ascii "xray.app.proxyman.command.RemoveUserOperation"

abbrev pub type_vless_account : Bytes
unfolding ascii
type_vless_account = ascii "xray.proxy.vless.Account"

module _ (w : Protowire) where
  unfoldable pub append_string : Bytes → ℕ → Bytes → Bytes
  append_string b num s =
      if bytes_eq s [] then b else w.append_bytes (w.append_tag b num bytes_type) s

  unfoldable pub append_message : Bytes → ℕ → Bytes → Bytes
  append_message b num m = w.append_bytes (w.append_tag b num bytes_type) m

  unfoldable pub append_bool : Bytes → ℕ → Bool → Bytes
  append_bool b num v = if not v then b else w.append_varint (w.append_tag b num varint_type) 1

  unfoldable pub typed_message : Bytes → Bytes → Bytes
  unfolding append_string append_message
  typed_message type_name value = append_message (append_string [] 1 type_name) 2 value

  unfoldable pub vless_account : Bytes → Bytes → Bytes → Bytes
  unfolding append_string
  vless_account id flow encryption =
      append_string (append_string (append_string [] 1 id) 2 flow) 3 encryption

  unfoldable pub user : Bytes → Bytes → Bytes
  unfolding append_string append_message
  user email account = append_message (append_string [] 2 email) 3 account

  unfoldable pub alter_inbound_request : Bytes → Bytes → Bytes
  unfolding append_string append_message
  alter_inbound_request tag operation = append_message (append_string [] 1 tag) 2 operation

  unfoldable pub add_user_request : Bytes → Bytes → Bytes → Bytes → Bytes
  unfolding typed_message vless_account append_message user alter_inbound_request ascii
  add_user_request tag email uuid flow =
      let account = typed_message type_vless_account (vless_account uuid flow (ascii "none")) in
      let operation = append_message [] 1 (user email account) in
      alter_inbound_request tag (typed_message type_add_user_operation operation)

  unfoldable pub remove_user_request : Bytes → Bytes → Bytes
  unfolding append_string typed_message alter_inbound_request
  remove_user_request tag email =
      alter_inbound_request tag
        (typed_message type_remove_user_operation (append_string [] 1 email))

  unfoldable pub query_stats_request : Bytes → Bool → Bytes
  unfolding append_string append_bool
  query_stats_request pattern reset = append_bool (append_string [] 1 pattern) 2 reset

  -- What is left behind a field of `n` bytes; none is a consumer's error.
  abbrev pub skipped : {S : Type 0} → Bytes → S → Option ℕ → Result (Bytes × S)
  skipped b acc none = err parse_error
  skipped b acc (some n) = ok (drop n b, acc)

  abbrev pub named : Bytes → Stat → Option (Bytes × ℕ) → Result (Bytes × Stat)
  named b s none = err parse_error
  named b s (some (v, n)) = ok (drop n b, record s { name = v })

  abbrev pub valued : Bytes → Stat → Option (ℕ × ℕ) → Result (Bytes × Stat)
  valued b s none = err parse_error
  valued b s (some (v, n)) = ok (drop n b, record s { value = wrap64 (pos v) })

  -- The body of parseStat's loop behind the tag.
  abbrev pub stat_field : ℕ → ℕ → Bytes → Stat → Result (Bytes × Stat)
  stat_field num typ b s =
      if num == 1 && typ == bytes_type
      then named b s (w.consume_bytes b)
      else if num == 2 && typ == varint_type
      then valued b s (w.consume_varint b)
      else skipped b s (w.consume_field_value num typ b)

  abbrev pub at_tag :
      {S : Type 0}
      → (ℕ → ℕ → Bytes → S → Result (Bytes × S))
      → Bytes
      → S
      → Option (ℕ × ℕ × ℕ)
      → Result (Bytes × S)
  at_tag field b acc none = err parse_error
  at_tag field b acc (some (num, typ, n)) = field num typ (drop n b) acc

  unfoldable pub stat_step : Bytes → Stat → Result (Bytes × Stat)
  stat_step b s = at_tag stat_field b s (w.consume_tag b)

  unfoldable pub parse_stat : Bytes → Option (Result Stat)
  unfolding run_loop stat_step
  parse_stat b = run_loop stat_step (length b) b (record { name = []; value = pos 0 })

  -- None, the end of parse_stat's fuel, never comes.
  abbrev pub stored : Bytes → List Stat → Option (Result Stat) → Result (Bytes × List Stat)
  stored b stats none = err parse_error
  stored b stats (some (err e)) = err e
  stored b stats (some (ok s)) = ok (b, put_stat s stats)

  unfoldable pub stat_bytes : Bytes → List Stat → Option (Bytes × ℕ) → Result (Bytes × List Stat)
  unfolding parse_stat put_stat
  stat_bytes b stats none = err parse_error
  stat_bytes b stats (some (stat, n)) = stored (drop n b) stats (parse_stat stat)

  unfoldable pub stats_field : ℕ → ℕ → Bytes → List Stat → Result (Bytes × List Stat)
  unfolding stat_bytes
  stats_field num typ b stats =
      if not (num == 1 && typ == bytes_type)
      then skipped b stats (w.consume_field_value num typ b)
      else stat_bytes b stats (w.consume_bytes b)

  unfoldable pub stats_step : Bytes → List Stat → Result (Bytes × List Stat)
  unfolding stats_field
  stats_step b stats = at_tag stats_field b stats (w.consume_tag b)

  -- None is the end of the fuel, which the length of the bytes is enough to avoid.
  unfoldable pub parse_query_stats_response : Bytes → Option (Result (List Stat))
  unfolding run_loop stats_step
  parse_query_stats_response b = run_loop stats_step (length b) b []
