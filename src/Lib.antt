-- ===== src/Lib.antt =====
-- easynet: a VPN over TCP, UDP or web sockets. A client shakes hands with the server, gets a virtual
-- address and a TUN configuration, and then exchanges IP packets with it. On both sides a task stands
-- between the TUN device and the transport; it asks a rule engine whether a packet goes through the
-- tunnel, past it, or nowhere, and it learns domain names from the DNS answers that pass.
--
-- The parts and their files (paths from the repository's root):
-- - Prelude, Text, Assoc: lists, results, texts as lists of code points with the parts of Rust's
--   standard library that the program calls, and maps as association lists.
-- - Message, Codec: proto/message.proto, src/codec/codec.rs. `encode` and `decode` with the decoder's
--   state between calls.
-- - Rule: src/rules/action.rs, src/rules/rule.rs. `parse_compact` and the printed form of a rule.
-- - Net: the addresses of Rust's `std::net`.
-- - Context: src/rules/context.rs. `from_ip_packet`.
-- - Geoip: src/rules/geoip.rs. `matches` and `is_private_ip`.
-- - Config: src/config.rs. The list of rules, `validate` and `parse_port_range`.
-- - Matcher: src/rules/matcher.rs. Each condition, and `matches`.
-- - Engine: src/rules/engine.rs. `match_packet`, `from_config`, `from_file`.
-- - DomainCache: src/rules/domain_cache.rs. `insert_domain` is `insert`; `lookup`, `observe_packet`.
-- - Server: src/server.rs. `ServerState` holds the statics NEXT_CLIENT_ID and SESSIONS; the handlers
--   take it and return it. Server.Packets has what concerns packets, Server.Delivery where they go,
--   Server.Lifetime the cleanup and the match on a message that src/transport/tcp.rs and
--   src/transport/udp.rs share, Server.Runs the steps of the server as a
--   relation, Server.Interleaved those of handlers that run side by side, Server.Collision what
--   happens when the counter has gone round.
-- - Filter: src/transparent_proxy/filter.rs. `is_allowed`.
-- - Route: src/common.rs. `handle_packet_route` and the loop of `tun_io_task`.
-- - Connection: the loops of src/transport/tcp.rs, src/transport/udp.rs and src/transport/mod.rs:
--   `handle_tcp_connection`, `transport_io_task`, `client_transport_io_task`. Connection.Datagrams runs
--   the UDP task over datagrams and the codec.
-- - WebSocket: src/transport/ws.rs. `next`, `send`, `handle_ws_connection`, `parse_url`, `connect`;
--   WebSocket.Acceptor has `create_tls_acceptor`, `accept` and the choice of TLS by `run_ws_server`.
-- - Client: src/client.rs. `handshake_async`, `run_client_from_config`, `run_client_with_retry`.
-- - Settings: src/config.rs. `AppConfig` and its parts with their defaults, and the lists of DNS servers.
--   Settings.Document is what stands in a YAML document, Settings.Files the loading and saving over a
--   store of files, Settings.Restart and Settings.Serving the handshakes of src/client.rs and of
--   src/server.rs over that store.
-- - Launch: src/main.rs, the starts in src/server.rs and src/transport/. `main`,
--   `run_server_from_config`, `run_connected_client`.
-- - Proxy: src/transparent_proxy/mod.rs, src/transparent_proxy/tcp_proxy.rs,
--   src/transparent_proxy/udp_proxy.rs and src/transparent_proxy/icmp_proxy.rs. Proxy.Tcp is the relays
--   of TCP connections, Proxy.Sessions the table of sessions and their tasks as a step relation,
--   Proxy.Udp and Proxy.Icmp are the handlers and the loops of the sessions.
-- - Netmask: the prefix lengths in src/bin/transparent-proxy.rs and src/transparent_proxy/mod.rs.
--
-- How they meet: Route takes the context of a packet from Context, its domains from DomainCache and the
-- decision from Engine, which asks Matcher for each rule. Client sends the request that Server answers.
-- Config hands Engine the rules that Rule parses and Matcher reads. Launch loads the configuration by
-- Settings and starts the server or the client with it. The packets that a rule sends past the tunnel go
-- to Proxy.
--
-- Conventions. A byte, a code point, a port and a count are natural numbers; where the code cuts to
-- 8, 16 or 32 bits, the remainder is written out. Clocks, random ids, files, and the outcomes of
-- sends are arguments. The crates' parts stand as parameters: the protobuf code (`Prost`), the
-- packet slicer, the DNS parser, the network parser, the MaxMind reader, the YAML reader, the URL
-- parser, the framing of UDP datagrams, the packet views of smoltcp and the tables of Unicode. The
-- loops that wait for events take the list of the events that `select!` picks. No function runs on
-- fuel: each is structural.
--
-- In Server a handler is one step; Server.Interleaved takes a handshake apart at the wait for its
-- send, so that handlers run side by side; of several sessions at one address a disconnect there drops
-- any, since the order of a hash map is not fixed. Between two turns of a connection or of the UDP
-- task, another task may leave any state of the sessions.
--
-- Not modelled: the calls of sockets, of the TUN device and of TLS beyond their outcomes, the
-- channels and the spawning of tasks at the start, the command lines, logging, the accept loops of
-- the servers, the build script, and the route commands of src/bin/transparent-proxy.rs: they are
-- calls of crates and of the system in a row, with little or no decision of the program's own.
pub mod Prelude
pub mod Text
pub mod Assoc
pub mod Message
pub mod Codec
pub mod Rule
pub mod Net
pub mod Geoip
pub mod Context
pub mod Config
pub mod Settings
pub mod WebSocket
pub mod Launch
pub mod DomainCache
pub mod Matcher
pub mod Engine
pub mod Server
pub mod Filter
pub mod Route
pub mod Client
pub mod Connection
pub mod Netmask
pub mod Proxy
