-- ===== src/Lib.antt =====
-- Verification library of dvpnd, a node of a decentralised VPN: a client pays for a session on a
-- chain, shows it to the node in a handshake, and is served a tunnel until the session ends.
--
-- The parts and how they interact. api/session/admit.go admits a handshake: it asks the chain, and
-- under the node's admission lock checks the capacity, evicts earlier peers of the account, adds the
-- peer to the VPN service and writes a row of the session table. node/jobs.go meters the peers into
-- that table, retires sessions that the chain ended and reports use to the chain;
-- node/reconcile.go does so once after a restart. services/wireguard is a VPN service: a set of peers,
-- each with tunnel addresses from two pools. services/amneziawg adds obfuscation parameters and a
-- second tier with tunnel networks of its own. services/xray, v2ray, hysteria and openvpn are VPN
-- services around a server process: each keeps a set of peer keys and drives the server through its
-- API or its management console. api/session/handshake.go checks a client's signature before it
-- calls admit. types/config.go rejects unsafe settings, and lite broadcasts transactions over a list
-- of remotes and judges the grants that they need.
--
-- Which file models which part:
--   Prelude and below: numbers, int64 arithmetic, byte strings, base64, decimal numbers, key tables.
--   Address, Pool: services/wireguard/types/ip.go and ip_pool.go. IPv4.Next and IPv6.Next are `next`,
--     IPv4Pool.Get and IPv6Pool.Get are `get_v4` and `get_v6`, IPPool.Get and Release are `get` and
--     `release_pair`.
--   Service: types/service.go, the interface with the laws that its clients rely on. WireGuard, Xray
--     and V2Ray fill them; Hysteria and OpenVPN forget a peer before a call that may fail, so they do not,
--     and what rests on the laws leaves them out. Peers there gives no new state.
--   WireGuard: services/wireguard/wireguard.go and types/peer.go; WireGuard/Fills shows the laws.
--   Session, Chain, Database, Context: types/session.go, the chain's answers, the gorm calls on the
--     session table, and context/service.go.
--   Admission: api/session/admit.go; `admit` is split at the lock into its first check, the query and
--     `admit_locked`. Admission/Runs puts handshakes and removals in a sequence.
--   Limiter: the rate limiter of api/session/guard.go.
--   Jobs: node/jobs.go and, in Jobs/Restart, node/reconcile.go.
--   Amnezia: services/amneziawg/types/config.go and subnet.go.
--   Amnezia/Generate: the drawing of fresh parameters, from a list of random numbers.
--   Amnezia/Tiers: services/amneziawg/amneziawg.go, the peers of the two tiers.
--   PeerSet: services/common/peers.go. PeerSet/Proxies is what the services built on it share.
--   Uuid: services/common/uuid.go, the two forms of a peer's UUID in a request.
--   Xray: services/xray/xray.go, and in Xray/Wire the messages of wire.go. Xray/Fields is protowire,
--     with its laws; the loops of parseQueryStatsResponse and parseStat are `stats_step` and `stat_step`.
--   Hysteria: services/hysteria/hysteria.go: the auth hook, the peers and their counters.
--   OpenVpn: services/openvpn/openvpn.go. OpenVpn/Management and OpenVpn/Status are management.go:
--     read is `read_lines`, a queue of pending commands and the open client event are its state.
--   V2Ray: services/v2ray/v2ray.go and types/peer.go; V2Ray/Settings: types/config.go, proxy.go and
--     transport.go.
--   Handshake: api/session/handshake.go, with the body's fields and the signature check.
--   Config: types/config.go and nodetype.go. A Validate is a list of guards in the code's order, and
--     the first one that fails is the error.
--   Lite: lite/tx.go in Lite/Tx and lite/grants.go in Lite/Grants.
--   Tests: concrete states, and the theorems applied to them.
--
-- State is passed explicitly: a method of a Go type is a function from the old state to its results
-- and the new one. What runs under one lock is one step, and an interleaving is a sequence of
-- steps. A parameter stands for what is not in the repository: gorm's calls (Database, with the
-- laws in DatabaseLaws), the chain's answers (Chain, Outbox), the wg tool, SHA-256, X25519, the
-- signature curve, protowire, the answers of a server's API or console, and the parsing of CIDRs,
-- URLs and JSON. Numbers are naturals; an int64 is an integer whose arithmetic wraps by `wrap64`.
--
-- Fuel and bounds: the loop of IPv4Pool.Get that skips the edge addresses runs on three rounds,
-- which Pool/Edges shows to be enough; `big_bytes` has one byte more fuel than the address has
-- bytes. A loop that redraws random numbers ends with the list of draws; Amnezia/Generate/Draws
-- says which lists are enough. The loops of Xray/Wire take the length of the bytes as fuel, and
-- Xray/Stats shows that it is enough. The loop of waitForTx takes a number of looks, and Lite/Tx
-- shows that the looks up to the deadline are enough. The pools are assumed to end below the top of
-- the address space, as private networks do.
--
-- Not modelled: logging, tickers, and the HTTP, JSON and RPC libraries; Init, Start and Stop of the
-- services, which write files, set firewall rules and run processes; OpenVPN's PKI; the defaults and
-- the template of the settings; the queries, signing and simulation of the chain client; start-up,
-- the bandwidth test and GeoIP.
pub mod Prelude
pub mod Address
pub mod Pool
pub mod Service
pub mod WireGuard
pub mod Session
pub mod Uuid
pub mod Xray
pub mod Hysteria
pub mod OpenVpn
pub mod V2Ray
pub mod Config
pub mod Handshake
pub mod Lite
pub mod Chain
pub mod Database
pub mod Context
pub mod Admission
pub mod Limiter
pub mod Jobs
pub mod Amnezia
pub mod PeerSet
mod Tests
