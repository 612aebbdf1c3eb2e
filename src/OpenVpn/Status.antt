-- ===== src/OpenVpn/Status.antt =====
-- services/openvpn/management.go: the status table of the connected clients, and killing a client's
-- connections.
use dvpnd.Prelude.{
  ℕ, suc, leb, ◌||◌, not, Option, none, some, List, [], ◌∷◌, ◌++◌, length, Bytes, bytes_eq,
  if◌then◌else◌,
}
use dvpnd.Prelude.Text.{ascii}
use dvpnd.Prelude.Int.{ℤ}
use dvpnd.Prelude.Slices.{drop, has_prefix, contains}
use dvpnd.Prelude.Numbers.{split, parse_int_ignoring}
use dvpnd.Prelude.Results.{Err, Result, ok, err}

abbrev pub head_or_empty : List Bytes → Bytes
head_or_empty [] = []
head_or_empty (x ∷ xs) = x

-- clientStatus
pub record ClientStatus : Type 0 where
  pub common_name : Bytes
  pub received : ℤ
  pub sent : ℤ
  pub cid : Bytes

unfoldable pub field : ℕ → List Bytes → Bytes
field n fs = head_or_empty (drop n fs)

abbrev pub add_row : List Bytes → List ClientStatus → List ClientStatus
unfolding field ascii
add_row fs rows =
    if not (leb 11 (length fs)) || not (bytes_eq (field 0 fs) (ascii "CLIENT_LIST"))
    then rows
    else record {
      common_name = field 1 fs;
      received = parse_int_ignoring (field 5 fs);
      sent = parse_int_ignoring (field 6 fs);
      cid = field 10 fs;
    }
      ∷ rows

-- The rows of a "status 3" reply, as `status` reads them.
unfoldable pub status_rows : List Bytes → List ClientStatus
unfolding split add_row
status_rows [] = []
status_rows (line ∷ lines) = add_row (split 9 line) (status_rows lines)

abbrev pub management_failed : Err
management_failed = 10

-- What a command comes to: the lines of its reply, or no reply (a closed connection, a timeout).
pub data Ran : Type 0 where
  replied : List Bytes → Ran
  no_reply : Ran

-- The interface as the service meets it: what its n-th command comes to, how many have run, and which
-- those were, the last one first.
pub record Console : Type 0 where
  pub runs : ℕ → Ran
  pub count : ℕ
  pub commands : List Bytes

unfoldable pub last_line : List Bytes → Bytes
last_line [] = []
last_line (x ∷ []) = x
last_line (x ∷ y ∷ xs) = last_line (y ∷ xs)

-- The outcome of `run`: an ERROR line at the end is the error.
pub data Outcome : Type 0 where
  succeeded : List Bytes → Outcome
  rejected : Bytes → Outcome
  broken : Outcome

unfoldable pub outcome : Ran → Outcome
unfolding last_line has_prefix ascii
outcome no_reply = broken
outcome (replied lines) =
    if has_prefix (last_line lines) (ascii "ERROR:")
    then rejected (last_line lines)
    else succeeded lines

-- run
unfoldable pub run : Bytes → Console → Outcome × Console
unfolding outcome
run command c =
    (outcome (c.runs c.count), record c { count = suc c.count; commands = command ∷ c.commands })

abbrev pub status_of : Outcome × Console → Result (List ClientStatus) × Console
unfolding status_rows
status_of (succeeded lines, c) = (ok (status_rows lines), c)
status_of (rejected line, c) = (err management_failed, c)
status_of (broken, c) = (err management_failed, c)

-- status
unfoldable pub status : Console → Result (List ClientStatus) × Console
unfolding run status_of ascii
status c = status_of (run (ascii "status 3") c)

unfoldable pub kill_command : Bytes → Bytes
unfolding ascii
kill_command cid = ascii "client-kill " ++ (cid ++ ascii " RESTART,session-ended")

-- The error of `run`'s outcome that stops kill; a client that is gone already does not.
unfoldable pub kill_error : Outcome → Option Err
unfolding contains ascii
kill_error (succeeded lines) = none
kill_error (rejected line) =
    if contains line (ascii "not found") then none else some management_failed
kill_error broken = some management_failed

abbrev pub unless_failed :
    Option Err → (Console → Option Err × Console) → Console → Option Err × Console
unless_failed (some e) next c = (some e, c)
unless_failed none next c = next c

abbrev pub kill_row :
    ClientStatus → (Console → Option Err × Console) → Console → Option Err × Console
unfolding run kill_error kill_command
kill_row row next c =
    let r = run (kill_command row.cid) c in unless_failed (kill_error r.0) next r.1

unfoldable pub kill_rows : Bytes → List ClientStatus → Console → Option Err × Console
unfolding kill_row
kill_rows common_name [] c = (none, c)
kill_rows common_name (row ∷ rows) c =
    if bytes_eq row.common_name common_name
    then kill_row row (kill_rows common_name rows) c
    else kill_rows common_name rows c

abbrev pub kill_listed : Bytes → Result (List ClientStatus) × Console → Option Err × Console
unfolding kill_rows
kill_listed common_name (err e, c) = (some e, c)
kill_listed common_name (ok rows, c) = kill_rows common_name rows c

-- kill
unfoldable pub kill : Bytes → Console → Option Err × Console
unfolding status kill_listed
kill common_name c = kill_listed common_name (status c)
