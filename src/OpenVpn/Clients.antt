-- ===== src/OpenVpn/Clients.antt =====
-- A connecting client, from the lines of its event to the command that lets it in or denies it.
use dvpnd.Prelude.{
  ◌≡◌, refl, ap, ◌∙◌, Bool, true, false, Option, none, some, List, [], ◌∷◌, ◌++◌, Bytes, All,
  bytes_eq, bytes_eq-true, if◌then◌else◌, Bool-cases, inl, inr,
}
use mathlib.Core.List.{append-nil}
use dvpnd.Prelude.Text.{ascii}
use dvpnd.Prelude.Slices.{has_prefix, cut, cut-word, Plain}
use dvpnd.Uuid.{format_uuid}
use dvpnd.Uuid.RoundTrip.{IsUuid}
use dvpnd.OpenVpn.{OpenVpn, admit, has_peer}
use dvpnd.OpenVpn.Admits.{Reach, admit-has_peer}
use dvpnd.OpenVpn.Management.{
  Management, Event, connect, Variable, Action, send, auth_command, deny_command, decide,
  event_name, finish_event, env_line, new_event, with_variable, event_line, handle_event, read_line,
  read_lines,
}

-- The lines that OpenVPN writes for a client that connects.
unfoldable pub connect_line : Bytes → Bytes → Bytes
unfolding ascii
connect_line cid kid = ascii ">CLIENT:CONNECT," ++ (cid ++ (b',' ∷ kid))

unfoldable pub variable_line : Variable → Bytes
unfolding ascii
variable_line v = ascii ">CLIENT:ENV," ++ (v.name ++ (b'=' ∷ v.value))

unfoldable pub end_line : Bytes
unfolding ascii
end_line = ascii ">CLIENT:ENV,END"

unfoldable pub variable_lines : List Variable → List Bytes
unfolding variable_line end_line
variable_lines [] = end_line ∷ []
variable_lines (v ∷ vs) = variable_line v ∷ variable_lines vs

-- The names hold no equals sign.
abbrev pub PlainNames : List Variable → Type 0
PlainNames = All (λ v. Plain b'=' v.name)

-- The event with the variables that have come.
unfoldable pub with_all : Event → List Variable → Event
with_all ev [] = ev
with_all ev (v ∷ vs) = with_all (record ev { env = v ∷ ev.env }) vs

module _ (on_connect : Bytes → Bool) where
  handle-connect :
      (cid kid : Bytes) (current : Option Event)
      → Plain b',' cid
      → handle_event on_connect (connect_line cid kid) current
        ≡ (some (new_event connect (cid, kid, true)), [])
  unfolding handle_event connect_line has_prefix ascii cut event_line bytes_eq
  handle-connect cid kid current h =
      ap (λ c. (some (new_event connect c), [])) (cut-word b',' cid kid h)

  not_end :
      (name value : Bytes)
      → Plain b'=' name
      → bytes_eq (name ++ (b'=' ∷ value)) (ascii "END") ≡ false
  not_end name value h = elim (Bool-cases (bytes_eq (name ++ (b'=' ∷ value)) (ascii "END"))) [
    | inr n ↦ n
    | inl y ↦
        let same = bytes_eq-true (name ++ (b'=' ∷ value)) (ascii "END") y in
        let found : (cut b'=' (name ++ (b'=' ∷ value))).2 ≡ true =
          ap (λ c. c.2) (cut-word b'=' name value h) in
        let absent : (cut b'=' (ascii "END")).2 ≡ false = unfold cut ascii in refl in
        absurd (cc (found, absent, ap (λ s. (cut b'=' s).2) same))
  ]

  handle-variable :
      (v : Variable) (ev : Event)
      → Plain b'=' v.name
      → handle_event on_connect (variable_line v) (some ev)
        ≡ (some (record ev { env = v ∷ ev.env }), [])
  unfolding handle_event variable_line has_prefix ascii cut event_line env_line bytes_eq
  handle-variable v ev h =
      rw (not_end v.name v.value h)
        (ap (λ c. (some (with_variable ev c), [])) (cut-word b'=' v.name v.value h))

  handle-end :
      (ev : Event)
      → handle_event on_connect end_line (some ev) ≡ (none, finish_event on_connect ev ev.kind)
  unfolding handle_event end_line has_prefix ascii cut event_line env_line bytes_eq
  handle-end ev = refl

  -- One line of an event, and the lines behind it.
  read-event :
      (line : Bytes) (lines : List Bytes) (m : Management) (r : Option Event × List Action)
      → has_prefix line (ascii ">") ≡ true
      → handle_event on_connect line m.current ≡ r
      → read_lines on_connect (line ∷ lines) m ≡ (
        (read_lines on_connect lines (record m { current = r.0 })).0,
        r.1 ++ (read_lines on_connect lines (record m { current = r.0 })).1,
      )
  unfolding read_lines read_line
  read-event line lines m r h e = rw h (rw e refl)

  variable-is_event : (v : Variable) → has_prefix (variable_line v) (ascii ">") ≡ true
  unfolding has_prefix variable_line ascii
  variable-is_event v = refl

  connect-is_event : (cid kid : Bytes) → has_prefix (connect_line cid kid) (ascii ">") ≡ true
  unfolding has_prefix connect_line ascii
  connect-is_event cid kid = refl

  end-is_event : has_prefix end_line (ascii ">") ≡ true
  unfolding has_prefix end_line ascii
  end-is_event = refl

  read-variables :
      (vs : List Variable) (m : Management) (ev : Event)
      → PlainNames vs
      → m.current ≡ some ev
      → read_lines on_connect (variable_lines vs) m ≡ (
        record m { current = none },
        finish_event on_connect (with_all ev vs) (with_all ev vs).kind,
      )
  unfolding read_lines variable_lines with_all
  read-variables [] m ev h c =
      read-event end_line [] m _ end-is_event
        (ap (handle_event on_connect end_line) c ∙ handle-end ev)
      ∙ ap (λ acts. (record m { current = none }, acts)) (append-nil _)
  read-variables (v ∷ vs) m ev h c =
      read-event (variable_line v) (variable_lines vs) m _ (variable-is_event v)
        (ap (handle_event on_connect (variable_line v)) c ∙ handle-variable v ev h.0)
      ∙ read-variables vs _ _ h.1 refl

  -- The kind and the ids of an event are those of its first line.
  with_all-first :
      (ev : Event) (vs : List Variable) → with_all ev vs ≡ record ev { env = (with_all ev vs).env }
  unfolding with_all
  with_all-first ev [] = refl
  with_all-first ev (v ∷ vs) = with_all-first (record ev { env = v ∷ ev.env }) vs

  finish-connect :
      (ev : Event) (cid kid : Bytes)
      → ev.kind ≡ connect
      → ev.cid ≡ cid
      → ev.kid ≡ kid
      → finish_event on_connect ev ev.kind ≡ decide (on_connect (event_name ev)) cid kid ∷ []
  unfolding finish_event
  finish-connect ev cid kid k c d = rw (← c, ← d) (ap (finish_event on_connect ev) k)

  read-connect :
      (cid kid : Bytes) (vs : List Variable) (m : Management)
      → Plain b',' cid
      → PlainNames vs
      → read_lines on_connect (connect_line cid kid ∷ variable_lines vs) m ≡ (
        record m { current = none },
        decide (on_connect (event_name (with_all (new_event connect (cid, kid, true)) vs))) cid kid
            ∷ [],
      )
  unfolding new_event
  read-connect cid kid vs m h k =
      let first = with_all-first (new_event connect (cid, kid, true)) vs in
      read-event (connect_line cid kid) (variable_lines vs) m _ (connect-is_event cid kid)
        (handle-connect cid kid m.current h)
      ∙ read-variables vs _ (new_event connect (cid, kid, true)) k refl
      ∙ ap (λ acts. (record m { current = none }, acts))
          (finish-connect (with_all (new_event connect (cid, kid, true)) vs) cid kid
            (ap (λ v. v.kind) first) (ap (λ v. v.cid) first) (ap (λ v. v.kid) first))

-- In a server whose service came about by any history of calls, the event block of a connecting
-- client whose certificate names a 16-byte UUID makes the reader send exactly one command and end
-- the event: the client is let in when HasPeer holds of that UUID, and denied otherwise. The client
-- id holds no comma and the variables' names no equals sign.
pub read_lines-connect :
    (s : OpenVpn) (m : Management) (d cid kid : Bytes) (vs : List Variable)
    → Reach s
    → IsUuid d
    → Plain b',' cid
    → PlainNames vs
    → event_name (with_all (new_event connect (cid, kid, true)) vs) ≡ format_uuid d
    → read_lines (λ name. admit name s) (connect_line cid kid ∷ variable_lines vs) m ≡ (
      record m { current = none },
      (if has_peer d s then send (auth_command cid kid) else send (deny_command cid kid)) ∷ [],
    )
unfolding decide
read_lines-connect s m d cid kid vs r u h k n =
    read-connect (λ name. admit name s) cid kid vs m h k ∙ rw n (rw (admit-has_peer s d r u) refl)
