-- ===== src/Uuid.antt =====
-- services/common/uuid.go: a peer's UUID in its canonical text form and in a peer request.
pub mod RoundTrip
pub mod Keys
pub mod Roster
pub mod Request
use dvpnd.Prelude.{
  ℕ, ◌==◌, ltb, ◌≡◌, Bool, true, false, ◌&&◌, ◌||◌, not, Option, none, some, List, [], ◌∷◌, ◌++◌,
  length, Bytes, if◌then◌else◌,
}
use dvpnd.Prelude.Base64.{decode}
use dvpnd.Prelude.Hex.{encode_hex, decode_hex}
use dvpnd.Prelude.Slices.{slice, concat}
use dvpnd.Prelude.Numbers.{split}
use dvpnd.Prelude.Results.{Err, Result, ok, err}

-- UUIDLen
abbrev pub uuid_len : ℕ
uuid_len = 16

abbrev pub bad_uuid : Err
bad_uuid = 1

abbrev pub uuid_missing : Err
uuid_missing = 2

abbrev pub wrong_length : Err
wrong_length = 3

abbrev pub wrong_kind : Err
wrong_kind = 4

abbrev pub sent_public_key : Err
sent_public_key = 5

abbrev pub bad_json : Err
bad_json = 6

abbrev dash : ℕ
dash = b'-'

unfoldable pub dashed : Bytes → Bytes
unfolding slice
dashed h =
    slice 0 8 h
    ++ (dash
        ∷ (slice 8 12 h
            ++ (dash ∷ (slice 12 16 h ++ (dash ∷ (slice 16 20 h ++ (dash ∷ slice 20 32 h)))))))

-- FormatUUID
unfoldable pub format_uuid : Bytes → Bytes
unfolding dashed encode_hex
format_uuid id = dashed (encode_hex id)

-- The five parts of a canonical UUID, by their lengths.
unfoldable pub canonical_parts : List Bytes → Bool
canonical_parts (a ∷ b ∷ c ∷ d ∷ e ∷ []) =
    length a == 8 && length b == 4 && length c == 4 && length d == 4 && length e == 12
canonical_parts _ = false

abbrev pub decoded : Option Bytes → Result Bytes
decoded none = err bad_uuid
decoded (some id) = ok id

-- ParseUUID
unfoldable pub parse_uuid : Bytes → Result Bytes
unfolding split canonical_parts concat
parse_uuid s =
    let parts = split dash s in
    if canonical_parts parts then decoded (decode_hex (concat parts)) else err bad_uuid

-- The "uuid" value of a request: an array of numbers, a string, or any other JSON value; null counts
-- as an empty byte slice.
pub data Json : Type 0 where
  null : Json
  numbers : List ℕ → Json
  text : Bytes → Json
  other : Json

-- json.Unmarshal into []byte: an array of bytes, a string in base64, or null.
abbrev bytes_if : Bool → List ℕ → Option Bytes
bytes_if b ns = if b then some ns else none

abbrev pub all_bytes : List ℕ → Bool
all_bytes [] = true
all_bytes (n ∷ ns) = ltb n 256 && all_bytes ns

unfoldable pub as_bytes : Json → Option Bytes
as_bytes null = some []
as_bytes (numbers ns) = bytes_if (all_bytes ns) ns
as_bytes (text s) = decode s
as_bytes other = none

abbrev pub from_text : Json → Result Bytes
from_text null = parse_uuid []
from_text (numbers ns) = err wrong_kind
from_text (text s) = parse_uuid s
from_text other = err wrong_kind

abbrev pub from_bytes : Json → Option Bytes → Result Bytes
from_bytes j none = from_text j
from_bytes j (some bs) = if length bs == uuid_len then ok bs else err wrong_length

-- UUIDFromJSON
unfoldable pub uuid_from_json : Option Json → Result Bytes
uuid_from_json none = err uuid_missing
uuid_from_json (some j) = from_bytes j (as_bytes j)

-- The decoded request: its "uuid" when there is one, and whether "public_key" holds a string.
pub record UuidRequest : Type 0 where
  pub uuid : Option Json
  pub public_key : Bool

abbrev pub no_uuid : Bool → Result Bytes
no_uuid true = err sent_public_key
no_uuid false = err uuid_missing

abbrev pub request_uuid : UuidRequest → Option Json → Result Bytes
request_uuid r none = no_uuid r.public_key
request_uuid r (some j) = uuid_from_json (some j)

-- UUIDPeerRequest, on what json.Unmarshal makes of the request; none is its error.
unfoldable pub uuid_peer_request : Option UuidRequest → Result Bytes
uuid_peer_request none = err bad_json
uuid_peer_request (some r) = request_uuid r r.uuid
