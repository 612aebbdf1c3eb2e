-- ===== src/Amnezia.antt =====
-- services/amneziawg/types/config.go and services/wireguard/types/config.go: the tiers' settings and
-- their validation. A uint16 or uint32 is its number, an array of four is a list, and an error has its number only.
pub mod Parameters
pub mod Generate
pub mod Networks
pub mod Overlap
pub mod Tiers
use dvpnd.Prelude.{
  ℕ, ◌+◌, ◌≡◌, Bool, true, false, not, ◌&&◌, ◌||◌, Option, none, some, List, [], ◌∷◌, Bytes,
  bytes_eq, length, ltb, leb, ◌==◌, if◌then◌else◌,
}
use dvpnd.Prelude.Base64.{decode}
use dvpnd.Prelude.Numbers.{split, parse_uint, is_digit}
use dvpnd.Prelude.Results.{Err, Result, ok, err}

pub record Obfuscation : Type 0 where
  pub jc : ℕ
  pub jmin : ℕ
  pub jmax : ℕ
  pub s : List ℕ
  pub h : List ℕ
  pub i : List Bytes

-- `if e; err != nil { return err }`, and what follows.
infixr 4 ◌orelse◌
abbrev pub ◌orelse◌ : Option Err → Option Err → Option Err
none orelse next = next
some e orelse next = some e

abbrev pub check : Bool → Err → Option Err
check true e = none
check false e = some e

-- Every limit of the first list holds for its element of the second.
unfoldable pub within_limits : List ℕ → List ℕ → Bool
within_limits (m ∷ ms) (v ∷ vs) = leb v m && within_limits ms vs
within_limits _ _ = true

unfoldable pub all_at_least : ℕ → List ℕ → Bool
all_at_least low [] = true
all_at_least low (v ∷ vs) = leb low v && all_at_least low vs

-- `uint32(s[0]) + 56 == uint32(s[1])`
abbrev pub same_size : List ℕ → Bool
same_size (s1 ∷ s2 ∷ _) = s1 + 56 == s2
same_size _ = false

-- validatePaddings
unfoldable pub validate_paddings : List ℕ → ℕ → Option Err
unfolding within_limits all_at_least
validate_paddings s low =
    check (within_limits (1132 ∷ 1188 ∷ 1132 ∷ 1132 ∷ []) s) 20
    orelse check (all_at_least low s) 21
    orelse check (not (same_size s)) 22

unfoldable pub all_zero : List ℕ → Bool
all_zero [] = true
all_zero (v ∷ vs) = v == 0 && all_zero vs

unfoldable pub seen : ℕ → List ℕ → Bool
seen v [] = false
seen v (x ∷ xs) = x == v || seen v xs

-- The loop of validateHeaders; `before` is the map of the values seen.
unfoldable pub check_headers : List ℕ → List ℕ → Option Err
unfolding seen
check_headers before [] = none
check_headers before (v ∷ vs) =
    check (ltb 4 v) 23 orelse check (not (seen v before)) 24 orelse check_headers (v ∷ before) vs

-- validateHeaders
unfoldable pub validate_headers : List ℕ → Bool → Option Err
unfolding all_zero check_headers
validate_headers h allow_zero = if allow_zero && all_zero h then none else check_headers [] h

-- What is left of a string after a prefix.
unfoldable pub strip : Bytes → Bytes → Option Bytes
strip [] s = some s
strip (p ∷ ps) [] = none
strip (p ∷ ps) (c ∷ s) = let rest = strip ps s in if c == p then rest else none

abbrev is_hex : ℕ → Bool
is_hex c = is_digit c || (leb b'a' c && leb c b'f') || (leb b'A' c && leb c b'F')

-- One or more characters of a class.
unfoldable pub run_of : (ℕ → Bool) → Bytes → Bool
run_of test [] = false
run_of test (c ∷ []) = test c
run_of test (c ∷ d ∷ s) = test c && run_of test (d ∷ s)

abbrev after_prefix : (ℕ → Bool) → Option Bytes → Bool
after_prefix test none = false
after_prefix test (some rest) = run_of test rest

-- One tag, without its brackets.
unfoldable pub is_tag : Bytes → Bool
unfolding strip run_of
is_tag s =
    after_prefix is_hex (strip (b'b' ∷ b' ' ∷ b'0' ∷ b'x' ∷ []) s)
    || bytes_eq s (b't' ∷ [])
    || after_prefix is_digit (strip (b'r' ∷ b' ' ∷ []) s)
    || after_prefix is_digit (strip (b'r' ∷ b'd' ∷ b' ' ∷ []) s)
    || after_prefix is_digit (strip (b'r' ∷ b'c' ∷ b' ' ∷ []) s)

abbrev is_opened : Bytes → Bool
is_opened [] = false
is_opened (c ∷ s) = c == b'<' && is_tag s

-- The pieces between the closing brackets: tags, and nothing after the last.
unfoldable pub are_tags : List Bytes → Bool
unfolding is_tag
are_tags [] = false
are_tags (last ∷ []) = bytes_eq last []
are_tags (tag ∷ next ∷ rest) = is_opened tag && are_tags (next ∷ rest)

-- iPacket's MatchString: `^(<(b 0x[0-9a-fA-F]+|t|r [0-9]+|rd [0-9]+|rc [0-9]+)>)+$`. No tag holds `>`.
unfoldable pub is_packet : Bytes → Bool
unfolding are_tags
is_packet s = not (bytes_eq s []) && are_tags (split b'>' s)

unfoldable pub check_packets : List Bytes → Option Err
unfolding is_packet
check_packets [] = none
check_packets (v ∷ vs) = check (bytes_eq v [] || is_packet v) 25 orelse check_packets vs

-- Obfuscation's Validate
unfoldable pub validate_obfuscation : Obfuscation → Option Err
unfolding validate_paddings validate_headers check_packets
validate_obfuscation o =
    check (leb o.jc 128) 26
    orelse check (leb o.jmax 1280 && leb o.jmin o.jmax) 27
    orelse validate_paddings o.s 0
    orelse validate_headers o.h true
    orelse check_packets o.i

abbrev same_value : Option ℕ → Result (ℕ × ℕ)
same_value none = err 28
same_value (some v) = ok (v, v)

abbrev two_values : Option ℕ → Option ℕ → Result (ℕ × ℕ)
two_values (some lo) (some hi) = ok (lo, hi)
two_values _ _ = err 28

abbrev range_of : List Bytes → Result (ℕ × ℕ)
range_of (a ∷ []) = same_value (parse_uint 32 a)
range_of (a ∷ b ∷ []) = two_values (parse_uint 32 a) (parse_uint 32 b)
range_of _ = err 28

-- ParseRange
unfoldable pub parse_range : Bytes → Result (ℕ × ℕ)
parse_range s = range_of (split b'-' s)

abbrev key_of : Option Bytes → Result Bytes
key_of none = err 29
key_of (some b) = if length b == 32 then ok b else err 30

-- KeyFromString
unfoldable pub key_from_string : Bytes → Result Bytes
key_from_string s = key_of (decode s)

abbrev pub failed {ℓ} : {A : Type ℓ} → Result A → Option Err
failed (ok a) = none
failed (err e) = some e

pub record V3 : Type 0 where
  pub enabled : Bool
  pub interface : Bytes
  pub listen_port : ℕ
  pub private_key : Bytes
  pub ipv4_subnet : Bytes
  pub ipv6_subnet : Bytes
  pub header_protection_key : Bytes
  pub s : List ℕ
  pub h : List ℕ
  pub random_trailers : Bool
  pub content_padding_addition : Bytes

abbrev check_range : Result (ℕ × ℕ) → Option Err
check_range (err e) = some e
check_range (ok (lo, hi)) = check (leb hi 256 && leb lo hi) 31

-- V3's Validate
unfoldable pub validate_v3 : V3 → Bytes → ℕ → Option Err
unfolding validate_paddings validate_headers key_from_string parse_range
validate_v3 v default_interface default_port =
    check (not (bytes_eq v.interface []) && not (bytes_eq v.interface default_interface)) 32
    orelse check (not (v.listen_port == 0) && not (v.listen_port == default_port)) 33
    orelse failed (key_from_string v.private_key)
    orelse failed (key_from_string v.header_protection_key)
    orelse validate_paddings v.s 12
    orelse validate_headers v.h false
    orelse check_range (parse_range v.content_padding_addition)

-- Config; an Obfuscation or V3 section that is a nil pointer is not modelled, since NewConfig makes both.
pub record Config : Type 0 where
  pub interface : Bytes
  pub listen_port : ℕ
  pub private_key : Bytes
  pub ipv4_subnet : Bytes
  pub ipv6_subnet : Bytes
  pub obfuscation : Obfuscation
  pub v3 : V3

-- The WireGuard service's Config Validate, on the part of the settings that it shares.
unfoldable pub validate_wireguard : Bytes → ℕ → Bytes → Option Err
unfolding key_from_string
validate_wireguard interface port key =
    check (not (bytes_eq interface [])) 34
    orelse check (not (port == 0)) 35
    orelse check (not (bytes_eq key [])) 36
    orelse failed (key_from_string key)
