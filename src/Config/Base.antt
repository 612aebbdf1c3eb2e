-- ===== src/Config/Base.antt =====
-- What the settings' checks take from other code: floating-point comparisons, and the parsers of URLs,
-- addresses, coins and account addresses. Text is read as bytes.
use dvpnd.Prelude.{
  ◌≡◌, refl, Bool, true, false, Option, none, some, List, [], ◌∷◌, Bytes, All, if◌then◌else◌,
  Bool-cases, inl, inr,
}
use dvpnd.Prelude.Int.{ℤ}
use dvpnd.Prelude.Results.{Err}

-- A parsed URL.
pub record Url : Type 0 where
  pub scheme : Bytes
  pub hostname : Bytes
  pub port : Bytes

-- A parsed IP address.
pub record Address : Type 0 where
  pub is_loopback : Bool
  pub is_v4 : Bool

pub record Libraries : Type 1 where
  pub Float : Type 0
  pub is_number : Float → Bool
  pub at_most : Float → ℤ → Bool
  pub below : Float → ℤ → Bool
  pub above : Float → ℤ → Bool
  pub parse_request_uri : Bytes → Option Url
  pub parse_ip : Bytes → Option Address
  pub equal_fold : Bytes → Bytes → Bool
  pub trim_space : Bytes → Bytes
  pub coins_parse : Bytes → Bool
  pub prices_parse : Bytes → Bool
  pub prices_of_coins : Bytes → Bool
  pub account_parses : Bytes → Bool
  -- nodeTypes: for each registered name, whether it allows the Handshake resolver.
  pub node_type : Bytes → Option Bool
  pub no_node_types : Bool

-- Guards in the order of the code: the first that holds is the error.
pub record Guard : Type 0 where
  pub fails : Bool
  pub error : Err

infix 4 ◌!◌
abbrev pub ◌!◌ : Bool → Err → Guard
b ! e = record { fails = b; error = e }

unfoldable pub first_error : List Guard → Option Err
first_error [] = none
first_error (g ∷ gs) = if g.fails then some g.error else first_error gs

pub first_error-none : (gs : List Guard) → first_error gs ≡ none → All (λ g. g.fails ≡ false) gs
unfolding first_error
first_error-none [] h = tt
first_error-none (g ∷ gs) h = elim (Bool-cases g.fails) [
  | inl y ↦ absurd (let k = rw y at h in cc)
  | inr n ↦ (n, first_error-none gs (rw n at h))
]

abbrev pub is_some {ℓ} : {A : Type ℓ} → Option A → Bool
is_some none = false
is_some (some a) = true

unfoldable pub or_else : Option Err → Option Err → Option Err
or_else (some e) o = some e
or_else none o = o

pub or_else-none : (a b : Option Err) → or_else a b ≡ none → (a ≡ none) × (b ≡ none)
unfolding or_else
or_else-none (some e) b h = cc
or_else-none none b h = (refl, h)
