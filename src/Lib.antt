-- ===== src/Lib.antt =====
-- Nullgate, a serverless peer-to-peer mesh network: a model of its core
-- (crates/ipn-core/src) and of parts of its daemon and desktop app, and the theorems about them.
--
-- The program. A daemon on each device keeps a signed roster of the network's members, an
-- append-only set of entries that every device folds into the same list of members, roles and
-- virtual addresses (roster.rs). A new device is admitted over a handshake that proves knowledge
-- of the network's secret and shows both people a short emoji code (admission.rs). The engine
-- (engine.rs) dials the members that it has no connection to, keeps one connection for each, and
-- moves IP packets between a TUN device and these connections. On the way it parses packet headers
-- and lowers the MSS of TCP handshakes (router.rs), and it lets only return traffic in when remote
-- access is disabled (conntrack.rs). iroh carries the connections; which of several paths it
-- takes, and over which relays, is decided by relays.rs. What is known of the other members, such
-- as when they were last seen, is kept by presence.rs.
--
-- Which file models which part:
-- * Roster (crates/ipn-core/src/roster.rs). Roster has the data. Roster.Signing is `Entry::id`,
--   `signing_bytes`, `verify_signature` and `sign`. Roster.Fold is the loop body of `Roster::build`
--   (`step`, `apply_op`), its role rules and the invite gate; Roster.Build is `Roster::build` as a
--   whole, with the `BTreeMap` of authentic entries and the sort. Roster.Addresses is `assign_ips`
--   and `lowest_free_host`. Roster.Queries is `is_member`, `role`, `check_invite` and the like.
-- * Packet (crates/ipn-core/src/router.rs). Packet has the readers of headers (`flow_key`,
--   `is_own_underlay`, `tcp_flags`), Packet.Checksum is `recompute_tcp_checksum`, and Packet.Mss is
--   `clamp_tcp_mss`.
-- * Routes (crates/ipn-core/src/router.rs): `RouteTable`, against the roster that it is built from.
-- * Presence (crates/ipn-core/src/presence.rs): `PresenceTracker`. Presence.History has the
--   histories of calls that it is compared with, and Presence.Messages is `Presence`, `Locations`
--   and their signatures.
-- * Conntrack (crates/ipn-core/src/conntrack.rs): `record_outbound`, `allows_inbound`, `sweep` and
--   `clear`; Conntrack.Flows has the histories of calls that they are compared with.
-- * Engine (crates/ipn-core/src/engine.rs). Engine.Backoff is the dial backoff, Engine.Dialing is
--   `spawn_dials` and its tasks, and Engine.Connections is `resolve_duplicate`, the decision of
--   `register_mesh`, and the watcher of a close. Engine.Pump is one packet through `spawn_tun_pump`
--   or through the inbound loop that `register_mesh` spawns; it puts Packet, Conntrack and Routes
--   together. Engine.Config is `load_config` and `save_config`. Engine.Session is the state of
--   `Inner` and `State` that the operations share, with `activate`, `soft_disconnect`, `teardown`,
--   `publish` and `refresh_roster`; Engine.Operations has the methods of `Engine`, from
--   `create_network` to `set_hidden`; Engine.Joining is both sides of the join protocol;
--   Engine.Recovery is `network_changed`, `health_check`, `rebuild_node` and `doc_reseed_targets`;
--   Engine.Tick is `tick`; Engine.Audit is `audit_log`, and Engine.Names is `set_nickname` and
--   `set_note`. They put the roster, its replica, the secrets and the trackers together.
--   Engine.Rename is `set_network_name`. Engine.Gossip is the two watcher tasks of `activate`,
--   Engine.Addresses is `split_local_public` and `conn_info`, Engine.Status is `status`, and
--   Engine.RelayApply is `set_relay_settings` with `apply_relay_map`, `rebind_for_relay_tokens`
--   and `settle_home_relay`.
-- * Network (crates/ipn-core/src/network.rs): the derived keys, the ticket and the recovery code.
-- * Secrets (crates/ipn-core/src/secrets.rs): `store`, `load` and `delete`.
-- * Membership (crates/ipn-core/src/membership.rs): `publish_entry`, `load_entries`, `build_roster`.
-- * Ipc (crates/ipn-ipc/src/lib.rs and transport.rs): frames, `read_frame`, `write_frame` and
--   `oneshot_request`.
-- * Daemon (crates/ipn-daemon/src/power.rs and watchdog.rs): the power handler and the watchdog.
--   Daemon.Dispatch is `handle_request` on Daemon.Requests, Daemon.Subscribe is `subscribe_loop`, and
--   Daemon.Connection is `handle_conn` (main.rs).
-- * Actions and Notify (crates/ipn-gui/src/actions.rs and notify.rs): the device actions of the
--   desktop app, and which peers its tray agent announces.
-- * Relays (crates/ipn-core/src/relays.rs). Relays.Settings is `relay_configs`,
--   `desired_relay_configs` and `token_change_needs_rebind`; Relays.Paths is `VirtualSubnet` and the
--   path selector.
-- * Admission (crates/ipn-core/src/admission.rs): `run` as `handshake`, `transcript`, and in
--   Admission.Sas `sas_emojis` with the tables of emojis and words.
-- * Common has the Boolean tests, lists measured by native numbers, ordered maps (`BTreeMap`), hash
--   maps as association lists, signed integers and bytes. Ip is `Ipv4Addr`. Tests has the runs and
--   the theorems at concrete inputs.
--
-- How the code is modelled. State that the code keeps behind a lock or in a cell is passed along:
-- a call holds the lock for as long as it runs, so calls are steps. Where tasks run concurrently,
-- as dials do, their steps are the constructors of a relation and come in any order; for the
-- appliers of relay settings and for a client's connection, a list of moves or inputs is one
-- order, and the theorems are about every list. A node id, a nonce and a content id are the
-- big-endian numbers of their bytes, so that they compare as the byte arrays do. Integers of a
-- fixed width keep their wrap-around or saturation. A clock is an argument, and so are random
-- bytes and what the operating system does in a call. An operation of the engine is a function on
-- the whole state that ends in a value or an error, and one runs at a time. A function that can
-- refuse returns an option or a sum with the reasons.
--
-- Parameters. ed25519, blake3 and CBOR are the records `Crypto` and `MessageCrypto`. The theorems
-- about signing assume that signatures have 64 bytes and verify under their key, and the one that
-- replicas build the same roster assumes that content ids of different entries differ.
-- Hexadecimal and base32 text and the CBOR of tickets, of the configuration and of frames are
-- parameters that read back what they write, where a theorem says so, and HKDF is one about which
-- nothing is assumed. HMAC-SHA256, iroh's URL parser, its list of public relays and its paths are
-- arguments about which nothing is assumed. Of iroh's relay map, `Iroh` says what is in it after an
-- insertion, a removal and a rebuild.
--
-- Bounds and fuel. The walk over TCP options has as fuel the offset at which the options end: each
-- round goes on by at least one byte, so it ends before the fuel does. A client that awaits a
-- response has as fuel one more than the bytes of the stream: a frame has at least the four bytes of
-- its length. A joiner looks at most 30 times at its replica, as in the source. Folding the carries
-- of a u32 has three rounds, after which there is no carry left. The probing of `assign_ips` is
-- bounded in the source, at 253 tries.
--
-- Not modelled: geolocation, the accept loops and the start of the engine; the log files of the
-- daemon; the CLI, the windows of the desktop app and the mobile facade, which are interfaces.
-- Files, sockets, the TUN device, iroh, iroh-docs and iroh-gossip are outside: which of their
-- calls succeed is an argument of the operations.
pub mod Actions
pub mod Admission
pub mod Common
pub mod Conntrack
pub mod Daemon
pub mod Engine
pub mod Ip
pub mod Ipc
pub mod Membership
pub mod Network
pub mod Notify
pub mod Packet
pub mod Presence
pub mod Relays
pub mod Roster
pub mod Routes
pub mod Secrets
pub mod Tests
