-- ===== src/Context.antt =====
-- context/service.go: peers by their session key, base64 of the peer data.
use dvpnd.Prelude.{Bool, true, false, Option, none, some, Bytes}
use dvpnd.Prelude.Base64.{decode}
use dvpnd.Prelude.Results.{Err, Result, ok, err}
use dvpnd.Service.{Service}

abbrev pub bad_key : Err
bad_key = 4

module _ (S : Service) where
  abbrev pub remove_data : Option Bytes → S.State → Option Err × S.State
  remove_data none x = (some bad_key, x)
  remove_data (some d) x = S.remove_peer d x

  unfoldable pub remove_peer : Bytes → S.State → Option Err × S.State
  remove_peer key x = remove_data (decode key) x

  abbrev pub has_data : Option Bytes → S.State → Result Bool
  has_data none x = err bad_key
  has_data (some d) x = ok (S.has_peer d x)

  unfoldable pub has_peer : Bytes → S.State → Result Bool
  has_peer key x = has_data (decode key) x

  abbrev pub remove_found : Bytes → Result Bool → S.State → Option Err × S.State
  remove_found key (err e) x = (some e, x)
  remove_found key (ok false) x = (none, x)
  remove_found key (ok true) x = remove_peer key x

  unfoldable pub remove_peer_if_exists : Bytes → S.State → Option Err × S.State
  remove_peer_if_exists key x = remove_found key (has_peer key x) x
