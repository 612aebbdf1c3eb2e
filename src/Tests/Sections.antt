-- ===== src/Tests/Sections.antt =====
-- Settings of a node that are accepted, a hot key with its grants, and remotes of which one answers.
use dvpnd.Prelude.{
  ℕ, suc, ◌*◌, ◌≤◌, ◌≡◌, refl, ◌⊎◌, true, false, Option, none, some, [], ◌∷◌, All, Bytes, bytes_eq,
  length, arith,
}
use dvpnd.Prelude.Text.{ascii}
use dvpnd.Prelude.Int.{ℤ, pos, ltb_ℤ, leb_ℤ}
use dvpnd.Prelude.Slices.{contains, has_prefix}
use dvpnd.Prelude.Numbers.{split}
use dvpnd.Prelude.Results.{Result, ok, err}
use dvpnd.PeerSet.{among}
use dvpnd.Config.{
  validate, second, allows_handshake_dns, redacted, handshake_guards, keyring_guards, prices_valid,
  node_type_known, remote_url_guards, node_guards, qos_guards, cross_guards,
}
use dvpnd.Config.Base.{Libraries, first_error, or_else}
use dvpnd.Config.Sections.{Config, blank}
use dvpnd.Config.Links.{
  bandwidth_value, bandwidth_guards, loopback_host, rpc_address, rpc_addresses, chain_guards,
  known_provider, url_guards, token_guards, geoip_guards,
}
use dvpnd.Config.Accepted.{
  Trusted, Bounded, validate-Trusted, validate-InBounds, validate-Consistent, with_token,
  redacted-hides,
}
use dvpnd.Lite.Grants.{
  GrantState, Allowance, allowed_messages, evaluate_grants, all_grants, allowance_findings,
  limits_findings, inner_findings, spend_findings,
}
use dvpnd.Lite.Grants.Ready.{Unexpired, Allowed, evaluate_grants-Ready}
use dvpnd.Lite.Tx.{
  Network, TxResponse, wait_loop, wait_loop-returns, first_remote, Won, first_remote-Won,
}

abbrev lib : Libraries
unfolding ascii
lib = record {
  Float = ℤ;
  is_number = λ v. true;
  at_most = leb_ℤ;
  below = ltb_ℤ;
  above = λ a b. ltb_ℤ b a;
  parse_request_uri =
      λ s. some (record { scheme = ascii "https"; hostname = ascii "h"; port = ascii "443" });
  parse_ip = λ s. some (record { is_loopback = false; is_v4 = true });
  equal_fold = bytes_eq;
  trim_space = λ s. s;
  coins_parse = λ s. true;
  prices_parse = λ s. true;
  prices_of_coins = λ s. true;
  account_parses = λ s. true;
  node_type = λ s. some true;
  no_node_types = false;
}

abbrev config : Config lib
unfolding ascii
config = record {
  bandwidth = record { download_mbps = pos 0; upload_mbps = pos 0 };
  chain = record {
    gas = 200000;
    gas_adjustment = pos 1;
    gas_prices = ascii "0.1udvpn";
    id = ascii "sentinelhub-2";
    rpc_addresses = ascii "https://a:443,https://b:443";
    rpc_query_timeout = 10;
    rpc_tx_timeout = 30;
    simulate_and_execute = true;
  };
  allow_smtp = false;
  geoip = record {
    provider = ascii "ipinfo";
    url = [];
    token = ascii "secret";
    city = [];
    country = [];
    latitude = pos 0;
    longitude = pos 0;
  };
  handshake = record { enable = true; peers = 8 };
  keyring = record { backend = ascii "file"; from = ascii "operator"; granter = [] };
  node = record {
    interval_set_sessions = pos (10 * second);
    interval_update_sessions = pos (6900 * second);
    interval_update_status = pos (3300 * second);
    ipv4_address = [];
    listen_on = ascii "0.0.0.0:1";
    moniker = ascii "node";
    gigabyte_prices = ascii "1udvpn";
    hourly_prices = ascii "1udvpn";
    remote_url = ascii "https://h:1";
    node_type = ascii "wireguard";
    legacy_handshake = false;
  };
  max_peers = pos 250;
}

accepted : validate lib config ≡ none
unfolding validate bandwidth_value bandwidth_guards loopback_host rpc_address rpc_addresses
    chain_guards known_provider url_guards token_guards geoip_guards handshake_guards keyring_guards
    prices_valid node_type_known remote_url_guards node_guards qos_guards cross_guards
    allows_handshake_dns first_error or_else lib config ascii bytes_eq split contains has_prefix
accepted = refl

validate-Trusted_example : All (Trusted lib) (split b',' config.chain.rpc_addresses)
validate-Trusted_example = validate-Trusted lib config accepted

validate-InBounds_example :
    Bounded config.node.interval_set_sessions (2 * second) (120 * second)
    × Bounded config.node.interval_update_sessions (10 * second) (6900 * second)
    × Bounded config.node.interval_update_status (10 * second) (3300 * second)
    × Bounded config.max_peers 1 250
    × (4 ≤ length config.node.moniker)
    × (length config.node.moniker ≤ 32)
validate-InBounds_example = validate-InBounds lib config accepted

validate-Consistent_example :
    ((config.geoip.token ≡ [])
      ⊎ (config.geoip.provider ≡ ascii "ipinfo")
      ⊎ (config.geoip.provider ≡ ascii "ip2location"))
    × ((bytes_eq config.geoip.provider (ascii "none") ≡ false)
        ⊎ (blank config.node.ipv4_address ≡ false))
    × ((config.handshake.enable ≡ false) ⊎ (allows_handshake_dns lib config.node.node_type ≡ true))
validate-Consistent_example = validate-Consistent lib config accepted

not_blank : (c : ℕ) → blank (c ∷ []) ≡ false
unfolding bytes_eq
not_blank c = refl

redacted-hides_example :
    (redacted lib (with_token config (1 ∷ [])) ≡ redacted lib (with_token config (2 ∷ [])))
    × (with_token (redacted lib (with_token config (1 ∷ []))) (1 ∷ []) ≡ with_token config (1 ∷ []))
redacted-hides_example = redacted-hides lib config (1 ∷ []) (2 ∷ []) (not_blank 1) (not_blank 2)

abbrev grants : Bytes → GrantState
grants url = record { found = true; expiry = some 2000000000000000 }

abbrev allowance : Allowance
allowance =
    allowed_messages ((9 ∷ []) ∷ [])
      (some (record { expires_at = ok none; spend_limit = some (λ denom. 5) }))

no_problems : (evaluate_grants 100 ((1 ∷ []) ∷ []) (9 ∷ []) grants (some allowance) []).0 ≡ []
unfolding evaluate_grants all_grants allowance_findings limits_findings inner_findings
    spend_findings among bytes_eq
no_problems = refl

evaluate_grants-Ready_example :
    All (λ url. ((grants url).found ≡ true) × Unexpired 100 (grants url).expiry) ((1 ∷ []) ∷ [])
    × Allowed 100 (9 ∷ []) [] (some allowance)
evaluate_grants-Ready_example =
    evaluate_grants-Ready 100 ((1 ∷ []) ∷ []) (9 ∷ []) grants (some allowance) [] no_problems

abbrev network : Network
network = record {
  look = λ n hash. none;
  clock = λ n. n * 3;
  looks = 0;
  client = λ remote. true;
  broadcast = λ n remote tx. ok (record { code = 0; hash = [] });
  broadcasts = 0;
  sent = [];
}

wait_loop-returns_example : (r : Result TxResponse) × ((wait_loop 2 2 [] network).0 ≡ some r)
wait_loop-returns_example = wait_loop-returns 1 2 2 [] network (omega arith) (omega arith)

abbrev attempt : Bytes → ℕ → Option (Result ℕ) × ℕ
attempt [] n = (some (err 1), suc n)
attempt (x ∷ remote) n = (some (ok n), suc n)

second_answers : first_remote attempt ([] ∷ (7 ∷ []) ∷ []) [] 0 ≡ (some (ok (some 1)), 2)
unfolding first_remote
second_answers = refl

first_remote-Won_example : Won attempt ([] ∷ (7 ∷ []) ∷ []) 0 1 2
first_remote-Won_example = first_remote-Won attempt ([] ∷ (7 ∷ []) ∷ []) [] 0 2 1 second_answers
