-- ===== src/Config/Accepted.antt =====
-- What the node may rely on once its settings have passed Validate.
use dvpnd.Prelude.{
  ℕ, ◌≤◌, ◌≡◌, refl, Bool, true, false, ◌&&◌, not, Option, none, some, List, [], ◌∷◌, ◌⊎◌, inl, inr,
  length, Bytes, All, All-left, All-right, bytes_eq, bytes_eq-true, Bool-cases, arith, ◌*◌, ltb,
}
use dvpnd.Prelude.Text.{ascii}
use dvpnd.Prelude.Int.{ℤ, pos, ◌≤ℤ◌, ltb_ℤ}
use dvpnd.Prelude.Numbers.{split}
use dvpnd.Config.{
  validate, node_guards, qos_guards, cross_guards, handshake_guards, keyring_guards, second,
  allows_handshake_dns, redacted,
}
use dvpnd.Config.Base.{Url, Libraries, Guard, ◌!◌, first_error-none, or_else-none}
use dvpnd.Config.Sections.{blank, Config, GeoIp}
use dvpnd.Config.Links.{
  bandwidth_guards, chain_guards, geoip_guards, rpc_address, rpc_addresses, loopback_host,
  url_guards, token_guards,
}

-- No guard holds.
abbrev Clear : List Guard → Type 0
Clear = All (λ g. g.fails ≡ false)

not-false : (b : Bool) → not b ≡ false → b ≡ true
not-false true h = refl
not-false false h = cc

-- A duration or a count within its limits.
abbrev pub Bounded : ℤ → ℕ → ℕ → Type 0
Bounded d low high = (pos low ≤ℤ d) × (d ≤ℤ pos high)

bounded :
    (d : ℤ) (low high : ℕ)
    → ltb_ℤ d (pos low) ≡ false
    → ltb_ℤ (pos high) d ≡ false
    → Bounded d low high
bounded d low high g h = (ground arith, ground arith)

not_less : (m n : ℕ) → ltb n m ≡ false → m ≤ n
not_less m n h = ground arith

either_false : (a b : Bool) → a && b ≡ false → (a ≡ false) ⊎ (b ≡ false)
either_false true b h = inr h
either_false false b h = inl refl

either_true : (a b : Bool) → a && not b ≡ false → (a ≡ false) ⊎ (b ≡ true)
either_true true b h = inr (not-false b h)
either_true false b h = inl refl

module _ (lib : Libraries) where
  -- An address that the node may trust: TLS, or plain HTTP on this machine; with a port.
  abbrev pub Trusted : Bytes → Type 0
  Trusted item =
      (u : Url) × (lib.parse_request_uri item ≡ some u)
      × ((u.scheme ≡ ascii "https")
          ⊎ ((u.scheme ≡ ascii "http") × (loopback_host lib u.hostname ≡ true)))
      × (blank u.port ≡ false)

  scheme_rule :
      (u : Url)
      → not (bytes_eq u.scheme (ascii "http")) && not (bytes_eq u.scheme (ascii "https")) ≡ false
      → bytes_eq u.scheme (ascii "http") && not (loopback_host lib u.hostname) ≡ false
      → (u.scheme ≡ ascii "https")
        ⊎ ((u.scheme ≡ ascii "http") × (loopback_host lib u.hostname ≡ true))
  scheme_rule u h k = elim (Bool-cases (bytes_eq u.scheme (ascii "http"))) [
    | inl y ↦ inr (bytes_eq-true u.scheme (ascii "http") y, not-false _ (rw y at k))
    | inr n ↦ inl (bytes_eq-true u.scheme (ascii "https") (not-false _ (rw n at h)))
  ]

  rpc_address-Trusted :
      (item : Bytes) (o : Option Url)
      → lib.parse_request_uri item ≡ o
      → Clear (rpc_address lib o)
      → Trusted item
  unfolding rpc_address
  rpc_address-Trusted item none e h = cc
  rpc_address-Trusted item (some u) e h = (u, e, scheme_rule u h.0 h.1.0, h.1.1.0)

  rpc_addresses-Trusted : (items : List Bytes) → Clear (rpc_addresses lib items) → All Trusted items
  unfolding rpc_addresses
  rpc_addresses-Trusted [] h = tt
  rpc_addresses-Trusted (item ∷ items) h = (
    rpc_address-Trusted item _ refl (All-left _ (rpc_address lib (lib.parse_request_uri item)) _ h),
    rpc_addresses-Trusted items (All-right _ (rpc_address lib (lib.parse_request_uri item)) _ h),
  )

  token_rule :
      (c : GeoIp lib)
      → Clear (token_guards lib c)
      → (c.token ≡ []) ⊎ (c.provider ≡ ascii "ipinfo") ⊎ (c.provider ≡ ascii "ip2location")
  unfolding token_guards
  token_rule c h = elim (Bool-cases (bytes_eq c.provider (ascii "ipinfo"))) [
    | inl y ↦ inr (inl (bytes_eq-true c.provider _ y))
    | inr n ↦ elim (Bool-cases (bytes_eq c.provider (ascii "ip2location"))) [
      | inl y ↦ inr (inr (bytes_eq-true c.provider _ y))
      | inr m ↦
          let g : Clear ((not (blank c.token) ! 5) ∷ []) = (let k = rw n at h in rw m at k) in
          inl (bytes_eq-true c.token [] (not-false _ g.0))
    ]
  ]

  module _ (c : Config lib) (h : validate lib c ≡ none) where
    all-Clear :
        Clear (bandwidth_guards lib c.bandwidth)
        × Clear (chain_guards lib c.chain)
        × Clear (geoip_guards lib c.geoip)
        × Clear (handshake_guards lib c.handshake)
        × Clear (keyring_guards lib c.keyring)
        × Clear (node_guards lib c.node)
        × Clear (qos_guards lib c.max_peers)
        × Clear (cross_guards lib c)
    unfolding validate
    all-Clear =
        let g1 = or_else-none _ _ h in
        let g2 = or_else-none _ _ g1.1 in
        let g3 = or_else-none _ _ g2.1 in
        let g4 = or_else-none _ _ g3.1 in
        let g5 = or_else-none _ _ g4.1 in
        let g6 = or_else-none _ _ g5.1 in
        let g7 = or_else-none _ _ g6.1 in
        (
          first_error-none _ g1.0,
          first_error-none _ g2.0,
          first_error-none _ g3.0,
          first_error-none _ g4.0,
          first_error-none _ g5.0,
          first_error-none _ g6.0,
          first_error-none _ g7.0,
          first_error-none _ g7.1,
        )

    -- Under settings that pass Validate every comma-separated RPC address parses, has a port, and
    -- is reached over TLS unless it is plain HTTP to this machine's loopback.
    pub validate-Trusted : All Trusted (split b',' c.chain.rpc_addresses)
    unfolding chain_guards
    validate-Trusted = rpc_addresses-Trusted _ (
        All-left (λ g. g.fails ≡ false) (rpc_addresses lib (split b',' c.chain.rpc_addresses)) _
          all-Clear.1.1.1.1.1.1)

    -- Under settings that pass Validate the three intervals, max_peers and the moniker's length are
    -- within the limits that the code declares.
    pub validate-InBounds :
        Bounded c.node.interval_set_sessions (2 * second) (120 * second)
        × Bounded c.node.interval_update_sessions (10 * second) (6900 * second)
        × Bounded c.node.interval_update_status (10 * second) (3300 * second)
        × Bounded c.max_peers 1 250
        × (4 ≤ length c.node.moniker)
        × (length c.node.moniker ≤ 32)
    unfolding node_guards qos_guards
    validate-InBounds =
        let g = all-Clear.5 in
        (
          bounded c.node.interval_set_sessions (2 * second) (120 * second) g.0 g.1.0,
          bounded c.node.interval_update_sessions (10 * second) (6900 * second) g.1.1.0 g.1.1.1.0,
          bounded c.node.interval_update_status (10 * second) (3300 * second) g.1.1.1.1.0
              g.1.1.1.1.1.0,
          bounded c.max_peers 1 250 all-Clear.6.0 all-Clear.6.1.0,
          not_less 4 (length c.node.moniker) g.1.1.1.1.1.1.1.1.1.1.0,
          not_less (length c.node.moniker) 32 g.1.1.1.1.1.1.1.1.1.1.1.0,
        )

    -- Under settings that pass Validate a token is set for the providers ipinfo and ip2location
    -- only, the node is told its address when it asks no provider, and the Handshake resolver runs
    -- only next to a protocol that allows it.
    pub validate-Consistent :
        ((c.geoip.token ≡ [])
          ⊎ (c.geoip.provider ≡ ascii "ipinfo")
          ⊎ (c.geoip.provider ≡ ascii "ip2location"))
        × ((bytes_eq c.geoip.provider (ascii "none") ≡ false) ⊎ (blank c.node.ipv4_address ≡ false))
        × ((c.handshake.enable ≡ false) ⊎ (allows_handshake_dns lib c.node.node_type ≡ true))
    unfolding geoip_guards cross_guards
    validate-Consistent = (
      token_rule c.geoip (
          All-left (λ g. g.fails ≡ false) (token_guards lib c.geoip) _
            (All-right (λ g. g.fails ≡ false) (url_guards lib c.geoip) _ all-Clear.2.1)),
      either_false (bytes_eq c.geoip.provider (ascii "none")) (blank c.node.ipv4_address)
          all-Clear.7.0,
      either_true c.handshake.enable (allows_handshake_dns lib c.node.node_type) all-Clear.7.1.0,
    )

-- The settings with another token.
abbrev pub with_token : {lib : Libraries} → Config lib → Bytes → Config lib
with_token c token = record c { geoip = record (c.geoip) { token = token } }

-- What the node logs of its settings is the same for any two tokens that are set, and is the
-- settings but for the token.
pub redacted-hides :
    (lib : Libraries) (c : Config lib) (a b : Bytes)
    → blank a ≡ false
    → blank b ≡ false
    → (redacted lib (with_token c a) ≡ redacted lib (with_token c b))
      × (with_token (redacted lib (with_token c a)) a ≡ with_token c a)
unfolding redacted
redacted-hides lib c a b h k = rw (h, k) (refl, refl)
