-- ===== src/Config.antt =====
-- types/config.go and types/nodetype.go: the node's settings and the checks that they pass before the
-- node starts. An error's number counts the checks of a section from 1 in the code's order, and a
-- section's error is carried with the section's name left out.
pub mod Base
pub mod Sections
pub mod Links
pub mod Accepted
use dvpnd.Prelude.{
  ℕ, suc, ◌==◌, ltb, ◌*◌, ◌++◌, Bool, true, false, ◌&&◌, ◌||◌, not, Option, none, some, List, [],
  ◌∷◌, length, Bytes, bytes_eq, if◌then◌else◌,
}
use dvpnd.Prelude.Text.{ascii}
use dvpnd.Prelude.Int.{ℤ, pos, negsuc, ltb_ℤ}
use dvpnd.Prelude.Slices.{contains}
use dvpnd.Prelude.Numbers.{split}
use dvpnd.Prelude.Results.{Err}
use dvpnd.Config.Base.{Url, Address, Libraries, Guard, ◌!◌, first_error, is_some, or_else}
use dvpnd.Config.Sections.{blank, GeoIp, Handshake, Keyring, Node, Config}
use dvpnd.Config.Links.{bandwidth_guards, chain_guards, geoip_guards}

-- A second in nanoseconds
abbrev pub second : ℕ
second = 1000000000

module _ (lib : Libraries) where
  -- HandshakeConfig.Validate
  unfoldable pub handshake_guards : Handshake lib → List Guard
  handshake_guards c = (c.enable && c.peers == 0 ! 1) ∷ []

  -- KeyringConfig.Validate
  unfoldable pub keyring_guards : Keyring lib → List Guard
  unfolding ascii
  keyring_guards c =
      (blank c.backend ! 1)
      ∷ (not (bytes_eq c.backend (ascii "file")) && not (bytes_eq c.backend (ascii "test")) ! 2)
      ∷ (blank c.from ! 3)
      ∷ (not (blank c.granter) && not (lib.account_parses c.granter) ! 4)
      ∷ []

  abbrev pub not_v4 : Option Address → Bool
  not_v4 none = false
  not_v4 (some a) = not a.is_v4

  -- ParsePrices: whether it gives no error
  unfoldable pub prices_valid : Bytes → Bool
  unfolding contains
  prices_valid s =
      let t = lib.trim_space s in
      if blank t
      then true
      else if contains t (b':' ∷ [])
      then lib.prices_parse t
      else lib.coins_parse t && lib.prices_of_coins t

  -- nodeTypeKnown
  unfoldable pub node_type_known : Bytes → Bool
  node_type_known name = lib.no_node_types || is_some (lib.node_type name)

  abbrev pub allows : Option Bool → Bool
  allows none = true
  allows (some b) = b

  -- nodeTypeAllowsHandshakeDNS
  unfoldable pub allows_handshake_dns : Bytes → Bool
  allows_handshake_dns name = allows (lib.node_type name)

  unfoldable pub remote_url_guards : Option Url → List Guard
  unfolding ascii
  remote_url_guards none = (true ! 18) ∷ []
  remote_url_guards (some u) =
      (not (bytes_eq u.scheme (ascii "https")) ! 19) ∷ (blank u.port ! 20) ∷ []

  abbrev pub outside : ℤ → ℕ → ℕ → Err → List Guard
  outside d low high e = (ltb_ℤ d (pos low) ! e) ∷ (ltb_ℤ (pos high) d ! (suc e)) ∷ []

  -- NodeConfig.Validate
  unfoldable pub node_guards : Node lib → List Guard
  unfolding prices_valid node_type_known remote_url_guards
  node_guards c =
      outside c.interval_set_sessions (2 * second) (120 * second) 1
      ++ (outside c.interval_update_sessions (10 * second) (6900 * second) 3
          ++ (outside c.interval_update_status (10 * second) (3300 * second) 5
              ++ ((not (blank c.ipv4_address) && not (is_some (lib.parse_ip c.ipv4_address)) ! 7)
                  ∷ (not (blank c.ipv4_address) && not_v4 (lib.parse_ip c.ipv4_address) ! 8)
                  ∷ (blank c.listen_on ! 9)
                  ∷ (blank c.moniker ! 10)
                  ∷ (ltb (length c.moniker) 4 ! 11)
                  ∷ (ltb 32 (length c.moniker) ! 12)
                  ∷ (blank c.gigabyte_prices ! 13)
                  ∷ (not (prices_valid c.gigabyte_prices) ! 14)
                  ∷ (blank c.hourly_prices ! 15)
                  ∷ (not (prices_valid c.hourly_prices) ! 16)
                  ∷ (blank c.remote_url ! 17)
                  ∷ (remote_url_guards (lib.parse_request_uri c.remote_url)
                      ++ ((blank c.node_type ! 21)
                          ∷ (not (node_type_known c.node_type) ! 22)
                          ∷ [])))))

  -- QOSConfig.Validate
  unfoldable pub qos_guards : ℤ → List Guard
  qos_guards max_peers = outside max_peers 1 250 1

  -- What Config.Validate checks across the sections.
  unfoldable pub cross_guards : Config lib → List Guard
  unfolding allows_handshake_dns ascii
  cross_guards c =
      (bytes_eq c.geoip.provider (ascii "none") && blank c.node.ipv4_address ! 1)
      ∷ (c.handshake.enable && not (allows_handshake_dns c.node.node_type) ! 2)
      ∷ []

  -- Config.Validate; the section egress has nothing to check.
  unfoldable pub validate : Config lib → Option Err
  unfolding bandwidth_guards chain_guards geoip_guards handshake_guards keyring_guards node_guards
      qos_guards cross_guards
  validate c = or_else (first_error (bandwidth_guards lib c.bandwidth)) (
      or_else (first_error (chain_guards lib c.chain)) (
        or_else (first_error (geoip_guards lib c.geoip)) (
          or_else (first_error (handshake_guards c.handshake)) (
            or_else (first_error (keyring_guards c.keyring)) (
              or_else (first_error (node_guards c.node))
                (or_else (first_error (qos_guards c.max_peers)) (first_error (cross_guards c))))))))

  -- Config.Redacted
  unfoldable pub redacted : Config lib → Config lib
  unfolding ascii
  redacted c =
      if blank c.geoip.token
      then c
      else record c { geoip = record (c.geoip) { token = ascii "<redacted>" } }
