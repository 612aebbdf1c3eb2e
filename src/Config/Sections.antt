-- ===== src/Config/Sections.antt =====
-- types/config.go: the sections of the settings file.
use dvpnd.Prelude.{ℕ, Bool, [], Bytes, bytes_eq}
use dvpnd.Prelude.Int.{ℤ}
use dvpnd.Config.Base.{Libraries}

-- A text setting that is missing.
abbrev pub blank : Bytes → Bool
blank s = bytes_eq s []

module _ (lib : Libraries) where
  pub record Bandwidth : Type 0 where
    pub download_mbps : lib.Float
    pub upload_mbps : lib.Float

  pub record Chain : Type 0 where
    pub gas : ℕ
    pub gas_adjustment : lib.Float
    pub gas_prices : Bytes
    pub id : Bytes
    pub rpc_addresses : Bytes
    pub rpc_query_timeout : ℕ
    pub rpc_tx_timeout : ℕ
    pub simulate_and_execute : Bool

  pub record GeoIp : Type 0 where
    pub provider : Bytes
    pub url : Bytes
    pub token : Bytes
    pub city : Bytes
    pub country : Bytes
    pub latitude : lib.Float
    pub longitude : lib.Float

  pub record Handshake : Type 0 where
    pub enable : Bool
    pub peers : ℕ

  pub record Keyring : Type 0 where
    pub backend : Bytes
    pub from : Bytes
    pub granter : Bytes

  -- The intervals are durations in nanoseconds.
  pub record Node : Type 0 where
    pub interval_set_sessions : ℤ
    pub interval_update_sessions : ℤ
    pub interval_update_status : ℤ
    pub ipv4_address : Bytes
    pub listen_on : Bytes
    pub moniker : Bytes
    pub gigabyte_prices : Bytes
    pub hourly_prices : Bytes
    pub remote_url : Bytes
    pub node_type : Bytes
    pub legacy_handshake : Bool

  pub record Config : Type 0 where
    pub bandwidth : Bandwidth
    pub chain : Chain
    pub allow_smtp : Bool
    pub geoip : GeoIp
    pub handshake : Handshake
    pub keyring : Keyring
    pub node : Node
    pub max_peers : ℤ
