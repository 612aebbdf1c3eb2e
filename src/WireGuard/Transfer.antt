-- ===== src/WireGuard/Transfer.antt =====
-- WireGuard.Peers: what "wg show <interface> transfer" prints, one line for each peer.
use dvpnd.Prelude.{Option, none, some, List, [], ◌∷◌, ◌++◌, Bytes}
use dvpnd.Prelude.Int.{ℤ}
use dvpnd.Prelude.Numbers.{split, parse_int}
use dvpnd.Prelude.Results.{Err, Result, ok, err, ◌>>=◌}
use dvpnd.Service.{Usage}
use dvpnd.WireGuard.{WireGuard}

abbrev bad_number : Err
bad_number = 3

abbrev or_bad_number : Option ℤ → Result ℤ
or_bad_number none = err bad_number
or_bad_number (some z) = ok z

-- One line's columns; a line without three of them is passed over.
unfoldable pub parse_columns : List Bytes → Result (List Usage)
parse_columns (key ∷ up ∷ down ∷ []) = do
  upload ← or_bad_number (parse_int up)
  download ← or_bad_number (parse_int down)
  ok (record { key = key; upload = upload; download = download } ∷ [])
parse_columns _ = ok []

unfoldable pub parse_lines : List Bytes → Result (List Usage)
unfolding parse_columns
parse_lines [] = ok []
parse_lines (line ∷ rest) = do
  here ← parse_columns (split 9 line)
  later ← parse_lines rest
  ok (here ++ later)

unfoldable pub parse_transfer : Bytes → Result (List Usage)
unfolding parse_lines
parse_transfer output = parse_lines (split 10 output)

unfoldable pub peers : WireGuard → Result (List Usage)
unfolding parse_transfer
peers s = s.transfer >>= parse_transfer
