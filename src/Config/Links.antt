-- ===== src/Config/Links.antt =====
-- types/config.go: the checks of the sections bandwidth, chain and geoip.
use dvpnd.Prelude.{
  ◌==◌, ◌++◌, Bool, true, false, ◌&&◌, ◌||◌, not, Option, none, some, List, [], ◌∷◌, Bytes,
  bytes_eq, if◌then◌else◌,
}
use dvpnd.Prelude.Text.{ascii}
use dvpnd.Prelude.Int.{pos, negsuc}
use dvpnd.Prelude.Numbers.{split}
use dvpnd.Config.Base.{Url, Address, Libraries, Guard, ◌!◌, is_some}
use dvpnd.Config.Sections.{blank, Bandwidth, Chain, GeoIp}

module _ (lib : Libraries) where
  -- BandwidthConfig.Validate, the values in its order
  unfoldable pub bandwidth_value : lib.Float → List Guard
  bandwidth_value v =
      (not (lib.is_number v) ! 1) ∷ (lib.below v (pos 0) ! 2) ∷ (lib.above v (pos 1000000) ! 3) ∷ []

  abbrev pub differ : Bool → Bool → Bool
  differ true b = not b
  differ false b = b

  unfoldable pub bandwidth_guards : Bandwidth lib → List Guard
  unfolding bandwidth_value
  bandwidth_guards c =
      bandwidth_value c.download_mbps
      ++ (bandwidth_value c.upload_mbps
          ++ ((differ (lib.above c.download_mbps (pos 0)) (lib.above c.upload_mbps (pos 0)) ! 4)
              ∷ []))

  -- loopbackHost
  abbrev pub loopback_address : Option Address → Bool
  loopback_address none = false
  loopback_address (some a) = a.is_loopback

  unfoldable pub loopback_host : Bytes → Bool
  unfolding ascii
  loopback_host host =
      lib.equal_fold host (ascii "localhost") || loopback_address (lib.parse_ip host)

  -- One RPC address of ChainConfig.Validate.
  unfoldable pub rpc_address : Option Url → List Guard
  unfolding loopback_host ascii
  rpc_address none = (true ! 6) ∷ []
  rpc_address (some u) =
      (not (bytes_eq u.scheme (ascii "http")) && not (bytes_eq u.scheme (ascii "https")) ! 7)
      ∷ (bytes_eq u.scheme (ascii "http") && not (loopback_host u.hostname) ! 8)
      ∷ (blank u.port ! 9)
      ∷ []

  unfoldable pub rpc_addresses : List Bytes → List Guard
  unfolding rpc_address
  rpc_addresses [] = []
  rpc_addresses (item ∷ items) = rpc_address (lib.parse_request_uri item) ++ rpc_addresses items

  -- ChainConfig.Validate
  unfoldable pub chain_guards : Chain lib → List Guard
  unfolding rpc_addresses split
  chain_guards c =
      (c.gas == 0 ! 1)
      ∷ (lib.at_most c.gas_adjustment (pos 0) ! 2)
      ∷ (not (lib.coins_parse c.gas_prices) ! 3)
      ∷ (blank c.id ! 4)
      ∷ (blank c.rpc_addresses ! 5)
      ∷ (rpc_addresses (split b',' c.rpc_addresses)
          ++ ((c.rpc_query_timeout == 0 ! 10) ∷ (c.rpc_tx_timeout == 0 ! 11) ∷ []))

  -- The providers that libs/geoip names.
  unfoldable pub known_provider : Bytes → Bool
  unfolding ascii
  known_provider p =
      bytes_eq p (ascii "auto")
      || bytes_eq p (ascii "ipwhois")
      || bytes_eq p (ascii "ip2location")
      || bytes_eq p (ascii "cloudflare")
      || bytes_eq p (ascii "ipify")
      || bytes_eq p (ascii "ip-api")
      || bytes_eq p (ascii "ipinfo")
      || bytes_eq p (ascii "none")

  unfoldable pub url_guards : GeoIp lib → List Guard
  unfolding ascii
  url_guards c =
      if blank c.url
      then []
      else (bytes_eq c.provider (ascii "auto") || bytes_eq c.provider (ascii "none") ! 2)
        ∷ (not (is_some (lib.parse_request_uri c.url)) ! 3)
        ∷ []

  unfoldable pub token_guards : GeoIp lib → List Guard
  unfolding ascii
  token_guards c =
      if bytes_eq c.provider (ascii "ipinfo")
      then (blank c.token ! 4) ∷ []
      else if bytes_eq c.provider (ascii "ip2location")
      then []
      else (not (blank c.token) ! 5) ∷ []

  -- GeoIPConfig.Validate
  unfoldable pub geoip_guards : GeoIp lib → List Guard
  unfolding known_provider url_guards token_guards
  geoip_guards c =
      (not (known_provider c.provider) ! 1)
      ∷ (url_guards c
          ++ (token_guards c
              ++ ((lib.below c.latitude (negsuc 89) || lib.above c.latitude (pos 90) ! 6)
                  ∷ (lib.below c.longitude (negsuc 179) || lib.above c.longitude (pos 180) ! 7)
                  ∷ [])))
