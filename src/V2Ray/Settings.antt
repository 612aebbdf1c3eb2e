-- ===== src/V2Ray/Settings.antt =====
-- services/v2ray/types: the proxies, the transports by their numbers and names, and the checks of
-- the settings file.
use dvpnd.Prelude.{
  ℕ, zero, suc, ◌==◌, ◌≡◌, ◌≤◌, ◌<◌, refl, Bool, not, Option, none, some, [], Bytes, bytes_eq,
  if◌then◌else◌, arith,
}
use dvpnd.Prelude.Text.{ascii}
use dvpnd.Prelude.Results.{Err}

-- Proxy.String, which Tag is as well
unfoldable pub proxy_string : ℕ → Bytes
unfolding ascii
proxy_string p = if p == 1 then ascii "vmess" else []

-- Transport.String
unfoldable pub transport_string : ℕ → Bytes
unfolding ascii
transport_string t =
    if t == 1
    then ascii "tcp"
    else if t == 2
    then ascii "mkcp"
    else if t == 3
    then ascii "websocket"
    else if t == 4
    then ascii "http"
    else if t == 5
    then ascii "domainsocket"
    else if t == 6
    then ascii "quic"
    else if t == 7
    then ascii "gun"
    else if t == 8
    then ascii "grpc"
    else []

-- NewTransportFromString
unfoldable pub new_transport_from_string : Bytes → ℕ
unfolding ascii
new_transport_from_string v =
    if bytes_eq v (ascii "tcp")
    then 1
    else if bytes_eq v (ascii "mkcp")
    then 2
    else if bytes_eq v (ascii "websocket")
    then 3
    else if bytes_eq v (ascii "httpt")
    then 4
    else if bytes_eq v (ascii "domainsocket")
    then 5
    else if bytes_eq v (ascii "quic")
    then 6
    else if bytes_eq v (ascii "gun")
    then 7
    else if bytes_eq v (ascii "grpc")
    then 8
    else 0

-- Transport.IsValid
unfoldable pub transport_valid : ℕ → Bool
unfolding transport_string
transport_valid t = not (bytes_eq (transport_string t) [])

pub record Settings : Type 0 where
  pub listen_port : ℕ
  pub tls : Bool
  pub transport : Bytes
  pub api_port : ℕ

abbrev pub zero_listen_port : Err
zero_listen_port = 1

abbrev pub empty_transport : Err
empty_transport = 2

abbrev pub invalid_transport : Err
invalid_transport = 3

abbrev pub zero_api_port : Err
zero_api_port = 4

abbrev pub same_ports : Err
same_ports = 5

-- VMessConfig.Validate
unfoldable pub validate_vmess : Settings → Option Err
unfolding transport_valid new_transport_from_string
validate_vmess c =
    if c.listen_port == 0
    then some zero_listen_port
    else if bytes_eq c.transport []
    then some empty_transport
    else if not (transport_valid (new_transport_from_string c.transport))
    then some invalid_transport
    else none

-- APIConfig.Validate
unfoldable pub validate_api : Settings → Option Err
validate_api c = if c.api_port == 0 then some zero_api_port else none

abbrev pub or_else : Option Err → Option Err → Option Err
or_else (some e) o = some e
or_else none o = o

-- Config.Validate
unfoldable pub validate : Settings → Option Err
unfolding validate_vmess validate_api
validate c =
    or_else (validate_vmess c)
      (or_else (validate_api c) (if c.api_port == c.listen_port then some same_ports else none))

-- Of the eight
-- transports, each but the fourth is read back from the name that it prints; the name of the fourth,
-- "http", is refused as no transport.
pub transport_string-read :
    (t : ℕ)
    → 0 < t
    → t ≤ 8
    → new_transport_from_string (transport_string t) ≡ (if t == 4 then 0 else t)
unfolding new_transport_from_string transport_string ascii bytes_eq
transport_string-read zero h k = absurd (omega arith)
transport_string-read (suc zero) h k = refl
transport_string-read (suc (suc zero)) h k = refl
transport_string-read (suc (suc (suc zero))) h k = refl
transport_string-read (suc (suc (suc (suc zero)))) h k = refl
transport_string-read (suc (suc (suc (suc (suc zero))))) h k = refl
transport_string-read (suc (suc (suc (suc (suc (suc zero)))))) h k = refl
transport_string-read (suc (suc (suc (suc (suc (suc (suc zero))))))) h k = refl
transport_string-read (suc (suc (suc (suc (suc (suc (suc (suc zero)))))))) h k = refl
transport_string-read (suc (suc (suc (suc (suc (suc (suc (suc (suc t))))))))) h k =
    absurd (omega arith)
