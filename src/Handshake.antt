-- ===== src/Handshake.antt =====
-- api/session/handshake.go: a client's handshake, from its signed body to the signed reply. The curve,
-- the JSON codec and the URL parser are not the repository's: they are the fields of Front.
pub mod Binding
pub mod Authentic
use dvpnd.Prelude.{
  ℕ, ◌==◌, ◌/◌, ◌%◌, ◌^◌, Bool, true, false, ◌&&◌, not, Option, none, some, List, [], ◌∷◌, ◌++◌,
  length, Bytes, bytes_eq, if◌then◌else◌,
}
use dvpnd.Prelude.Text.{ascii}
use dvpnd.Prelude.Slices.{drop, has_prefix}
use dvpnd.Prelude.Base64.{encode, decode}
use dvpnd.Prelude.Results.{Err, Result, ok, err}
use dvpnd.Service.{Service}
use dvpnd.Database.{Database}
use dvpnd.Chain.{Chain}
use dvpnd.Admission.{
  ApiError, Answer, accept, refuse, AdmitRequest, AdmitResult, Settings, World, admit,
}

-- HandshakeBody
pub record Body : Type 0 where
  pub peer_request : Bytes
  pub id : ℕ
  pub pub_key : Bytes
  pub signature : Bytes

-- VerifySignature and Address of a 33-byte key; ParsePeerRequest of the service; HandshakePayload of
-- a peer as JSON bytes; the node's IPv4 address in text; the host of its remote_url, empty when that
-- does not parse; signReply's header.
pub record Front : Type 0 where
  pub verify_signature : Bytes → Bytes → Bytes → Bool
  pub address : Bytes → Bytes
  pub parse_peer_request : Bytes → Result Bytes
  pub payload : Bytes → Result Bytes
  pub ipv4 : Bytes
  pub remote_host : Bytes
  pub sign_reply : ℕ → Bytes → Bytes → List Bytes → Option Bytes

abbrev pub not_secp256k1 : Err
not_secp256k1 = 1

abbrev pub bad_pub_key : Err
bad_pub_key = 2

abbrev pub wrong_key_size : Err
wrong_key_size = 3

abbrev pub bad_data : Err
bad_data = 4

abbrev pub bad_signature : Err
bad_signature = 5

abbrev pub zero_id : Err
zero_id = 6

abbrev pub not_verified : Err
not_verified = 7

unfoldable pub pub_key_prefix : Bytes
unfolding ascii
pub_key_prefix = ascii "secp256k1:"

-- sdk.Uint64ToBigEndian
unfoldable pub big_endian64 : ℕ → Bytes
big_endian64 n =
    n / 2 ^ 56 % 256
    ∷ n / 2 ^ 48 % 256
    ∷ n / 2 ^ 40 % 256
    ∷ n / 2 ^ 32 % 256
    ∷ n / 2 ^ 24 % 256
    ∷ n / 2 ^ 16 % 256
    ∷ n / 2 ^ 8 % 256
    ∷ n % 256
    ∷ []

module _ (F : Front) where
  -- The end of verifyHandshake, with the key, the data and the signature decoded.
  abbrev pub check_signature : Body → Bytes → Bytes → Bytes → Result (Bytes × Bytes)
  unfolding big_endian64
  check_signature b key raw signature =
      if b.id == 0
      then err zero_id
      else if not (F.verify_signature key (big_endian64 b.id ++ raw) signature)
      then err not_verified
      else ok (F.address key, raw)

  abbrev pub decoded_signature : Body → Bytes → Bytes → Option Bytes → Result (Bytes × Bytes)
  unfolding check_signature
  decoded_signature b key raw none = err bad_signature
  decoded_signature b key raw (some signature) = check_signature b key raw signature

  abbrev pub decoded_data : Body → Bytes → Option Bytes → Result (Bytes × Bytes)
  unfolding decoded_signature decode
  decoded_data b key none = err bad_data
  decoded_data b key (some raw) = decoded_signature b key raw (decode b.signature)

  abbrev pub decoded_key : Body → Option Bytes → Result (Bytes × Bytes)
  unfolding decoded_data decode
  decoded_key b none = err bad_pub_key
  decoded_key b (some key) =
      if length key == 33 then decoded_data b key (decode b.peer_request) else err wrong_key_size

  -- verifyHandshake
  unfoldable pub verify_handshake : Body → Result (Bytes × Bytes)
  unfolding decoded_key has_prefix pub_key_prefix decode
  verify_handshake b =
      if has_prefix b.pub_key pub_key_prefix
      then decoded_key b (decode (drop 10 b.pub_key))
      else err not_secp256k1

  -- nodeAddrs
  unfoldable pub node_addrs : List Bytes
  node_addrs =
      if not (bytes_eq F.remote_host []) && not (bytes_eq F.remote_host F.ipv4)
      then F.ipv4 ∷ F.remote_host ∷ []
      else F.ipv4 ∷ []

-- The reply: an error's status and code, or the result with the signature header when there is one.
pub data Reply : Type 0 where
  http_error : ℕ → ℕ → Reply
  served : Bytes → List Bytes → Option Bytes → Reply

module _ (D : Database) (S : Service) (F : Front) (n : Settings) (c : Chain) where
  -- buildHandshakeResult and what follows it
  abbrev pub built : Body → Bytes → World D S → Result Bytes → Reply × World D S
  unfolding node_addrs
  built b raw w (err e) = (http_error 500 10, w)
  built b raw w (ok json) =
      (served (encode json) (node_addrs F) (F.sign_reply b.id raw (encode json) (node_addrs F)), w)

  abbrev pub admitted : Body → Bytes → Answer AdmitResult × World D S → Reply × World D S
  unfolding built
  admitted b raw (refuse e, w) = (http_error e.status e.code, w)
  admitted b raw (accept r, w) = built b raw w (F.payload r.peer)

  abbrev pub request : Body → Bytes → Bytes → AdmitRequest
  request b account peer_data = record { acc_address = account; id = b.id; peer_data = peer_data }

  abbrev pub parsed : Body → Bytes → Bytes → World D S → Result Bytes → Reply × World D S
  unfolding admitted admit
  parsed b account raw w (err e) = (http_error 400 2, w)
  parsed b account raw w (ok peer_data) =
      admitted b raw (admit D S n c (request b account peer_data) w)

  abbrev pub verified : Body → World D S → Result (Bytes × Bytes) → Reply × World D S
  unfolding parsed
  verified b w (err e) = (http_error 400 4, w)
  verified b w (ok (account, raw)) = parsed b account raw w (F.parse_peer_request raw)

  -- HandlerHandshake; none is a body that is no JSON of a HandshakeBody.
  unfoldable pub handler_handshake : Option Body → World D S → Reply × World D S
  unfolding verified verify_handshake
  handler_handshake none w = (http_error 400 2, w)
  handler_handshake (some b) w = verified b w (verify_handshake F b)
