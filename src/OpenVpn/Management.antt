-- ===== src/OpenVpn/Management.antt =====
-- services/openvpn/management.go: the client of OpenVPN's management interface. Its reader takes one
-- line at a time: a line of an event, or a line of the reply to the first command that waits.
use dvpnd.Prelude.{
  ℕ, Bool, ◌&&◌, ◌||◌, not, Option, none, some, List, [], ◌∷◌, ◌++◌, Bytes, bytes_eq, if◌then◌else◌,
}
use dvpnd.Prelude.Text.{ascii}
use dvpnd.Prelude.Int.{ℤ}
use dvpnd.Prelude.Slices.{drop, has_prefix, cut}
use dvpnd.Prelude.Numbers.{parse_int_ignoring}
use dvpnd.Prelude.Table.{lookup}

-- pendingCommand: what waits for a reply, with the lines that have come.
pub record Pending : Type 0 where
  pub multi : Bool
  pub lines : List Bytes

pub data Kind : Type 0 where
  connect : Kind
  reauth : Kind
  established : Kind
  disconnect : Kind

-- An entry of the environment of an event; the newest entry of a name stands first.
pub record Variable : Type 0 where
  pub name : Bytes
  pub value : Bytes

abbrev pub variable_name : Variable → Bytes
variable_name v = v.name

-- clientEvent
pub record Event : Type 0 where
  pub kind : Kind
  pub cid : Bytes
  pub kid : Bytes
  pub env : List Variable

-- What a complete event makes the client do: send a command, or hand traffic to onDisconnect.
pub data Action : Type 0 where
  send : Bytes → Action
  bank : Bytes → ℤ → ℤ → Action

-- The commands that wait, and those whose reply is complete, in the order in which they were closed.
pub record Queue : Type 0 where
  pub pending : List Pending
  pub closed : List Pending

-- The reader's state: the commands, and the event whose block is being read.
pub record Management : Type 0 where
  pub queue : Queue
  pub current : Option Event

-- The part of `run` that queues a command behind the others.
unfoldable pub queue_command : Bool → Queue → Queue
queue_command multi q = record q {
  pending = q.pending ++ (record { multi = multi; lines = [] } ∷ []);
}

abbrev pub value_or_empty : Option Variable → Bytes
value_or_empty none = []
value_or_empty (some v) = v.value

-- `env[name]`
unfoldable pub env_value : Bytes → List Variable → Bytes
env_value name env = value_or_empty (lookup variable_name name env)

unfoldable pub event_name : Event → Bytes
unfolding env_value ascii
event_name ev =
    let cn = env_value (ascii "common_name") ev.env in
    if bytes_eq cn [] then env_value (ascii "X509_0_CN") ev.env else cn

abbrev space : ℕ
space = b' '

unfoldable pub auth_command : Bytes → Bytes → Bytes
unfolding ascii
auth_command cid kid = ascii "client-auth-nt " ++ (cid ++ (space ∷ kid))

unfoldable pub deny_command : Bytes → Bytes → Bytes
unfolding ascii
deny_command cid kid =
    ascii "client-deny " ++ (cid ++ (space ∷ (kid ++ ascii " \"not a registered peer\"")))

unfoldable pub decide : Bool → Bytes → Bytes → Action
decide b cid kid = if b then send (auth_command cid kid) else send (deny_command cid kid)

-- `ev.cid, ev.kid, _ = strings.Cut(rest, ",")`
unfoldable pub new_event : Kind → Bytes × Bytes × Bool → Event
new_event kind (cid, kid, found) = record { kind = kind; cid = cid; kid = kid; env = [] }

abbrev pub with_variable : Event → Bytes × Bytes × Bool → Event
with_variable ev (k, v, found) =
    if found then record ev { env = record { name = k; value = v } ∷ ev.env } else ev

-- Whether this line ends the reply to a command.
unfoldable pub ends_reply : Bool → Bytes → Bool
unfolding has_prefix ascii
ends_reply multi line =
    has_prefix line (ascii "SUCCESS:")
    || has_prefix line (ascii "ERROR:")
    || (multi && bytes_eq line (ascii "END"))

abbrev pub with_line : Pending → Bytes → Pending
with_line p line = record p { lines = p.lines ++ (line ∷ []) }

-- A line of a reply goes to the first command that waits.
unfoldable pub routed : Bytes → Queue → List Pending → Queue
unfolding ends_reply
routed line q [] = q
routed line q (p ∷ ps) =
    if ends_reply p.multi line
    then record { pending = ps; closed = q.closed ++ (with_line p line ∷ []) }
    else record q { pending = with_line p line ∷ ps }

unfoldable pub reply_line : Bytes → Queue → Queue
unfolding routed
reply_line line q = routed line q q.pending

module _ (on_connect : Bytes → Bool) where
  -- finishEvent
  unfoldable pub finish_event : Event → Kind → List Action
  unfolding event_name env_value decide ascii parse_int_ignoring
  finish_event ev connect = decide (on_connect (event_name ev)) ev.cid ev.kid ∷ []
  finish_event ev reauth = decide (on_connect (event_name ev)) ev.cid ev.kid ∷ []
  finish_event ev established = []
  finish_event ev disconnect =
      bank (event_name ev) (parse_int_ignoring (env_value (ascii "bytes_received") ev.env))
        (parse_int_ignoring (env_value (ascii "bytes_sent") ev.env))
      ∷ []

  -- One ENV line of the current event's block.
  unfoldable pub env_line : Bytes → Option Event → Option Event × List Action
  unfolding finish_event cut ascii
  env_line rest none = (none, [])
  env_line rest (some ev) =
      if bytes_eq rest (ascii "END")
      then (none, finish_event ev ev.kind)
      else (some (with_variable ev (cut b'=' rest)), [])

  unfoldable pub event_line : Bytes × Bytes × Bool → Option Event → Option Event × List Action
  unfolding env_line ascii new_event
  event_line (kind, rest, found) current =
      if bytes_eq kind (ascii "CONNECT")
      then (some (new_event connect (cut b',' rest)), [])
      else if bytes_eq kind (ascii "REAUTH")
      then (some (new_event reauth (cut b',' rest)), [])
      else if bytes_eq kind (ascii "ESTABLISHED")
      then (some (new_event established (cut b',' rest)), [])
      else if bytes_eq kind (ascii "DISCONNECT")
      then (some (new_event disconnect (cut b',' rest)), [])
      else if bytes_eq kind (ascii "ENV")
      then env_line rest current
      else (current, [])

  -- handleEvent
  unfoldable pub handle_event : Bytes → Option Event → Option Event × List Action
  unfolding event_line has_prefix ascii cut
  handle_event line current =
      if not (has_prefix line (ascii ">CLIENT:"))
      then (current, [])
      else event_line (cut b',' (drop 8 line)) current

  abbrev pub with_event : Management → Option Event × List Action → Management × List Action
  with_event m (ev, actions) = (record m { current = ev }, actions)

  -- One line of `read`.
  unfoldable pub read_line : Bytes → Management → Management × List Action
  unfolding handle_event reply_line has_prefix ascii
  read_line line m =
      if has_prefix line (ascii ">")
      then with_event m (handle_event line m.current)
      else (record m { queue = reply_line line m.queue }, [])

  -- `read`, over the lines that come; the commands that the actions send are queued by `run`.
  unfoldable pub read_lines : List Bytes → Management → Management × List Action
  unfolding read_line
  read_lines [] m = (m, [])
  read_lines (line ∷ lines) m =
      let first = read_line line m in
      let rest = read_lines lines first.0 in (rest.0, first.1 ++ rest.1)
