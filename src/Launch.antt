-- ===== src/Launch.antt =====
-- The start of the program: `main` of src/main.rs, `run_server` and `run_server_from_config` of
-- src/server.rs, the starts of the servers in src/transport/, and `run_connected_client` of
-- src/transport/mod.rs. What runs then stands as the outcomes of the tasks.
pub mod Modes
pub mod Served
pub mod Dialled
pub mod Encryption
pub mod Tests
use easynet.Prelude.{
  ℕ, ◌%◌, ◌^◌, Bool, true, false, Option, none, some, Result, ok, err, ◌>>=◌, ◌>>◌, guard, map_err,
  if◌then◌else◌,
}
use easynet.Text.{Text, codes, text_eq, Unicode}
use easynet.Net.{IpAddr, SocketAddr}
use easynet.Rule
use easynet.Config.{RulesConfig, ConfigError, Parsers}
use easynet.Geoip.{Reader}
use easynet.Engine.{RulesEngine, from_config}
use easynet.Client.{TunArguments}
use easynet.WebSocket.{WsError}
use easynet.WebSocket.Acceptor.{TlsFiles, Acceptor, ws_acceptor}
use easynet.Settings.{ServerConfig, AppConfig, IpFormat, SettingsError}
use easynet.Settings.Document.{Yaml}
use easynet.Settings.Files.{Files, FileCalls, Done, load}

pub data LaunchError : Type 0 where
  not_loaded : SettingsError → LaunchError
  invalid_mode : Text → LaunchError
  tun_not_created not_bound : LaunchError
  rules_not_loaded : ConfigError → LaunchError
  tls_panics : WsError → LaunchError
  unknown_transport_type : Text → LaunchError

-- The server that listens, with the engine that its TUN task asks.
pub data Listening : Type 0 where
  tcp_server udp_server : RulesEngine → Listening
  ws_server : RulesEngine → Option Acceptor → Listening

-- What the start of a server meets: the crates of the rules, the files of TLS, and the outcomes of
-- the calls that make the device and bind the UDP socket.
pub record ServerCalls : Type 0 where
  pub parsers : Parsers
  pub open_readfile : Text → Option Reader
  pub tls_files : TlsFiles
  pub create_tun_device : TunArguments → Bool
  pub bind_udp : SocketAddr → Bool

-- The device's arguments, the MTU cut to 16 bits.
abbrev pub server_tun : ServerConfig → TunArguments
server_tun config = record {
  name = config.tun_name;
  address = config.tun_addr;
  netmask = config.tun_netmask;
  destination = config.tun_destination;
  dns = config.tun_dns_servers;
  mtu = config.tun_mtu % 2 ^ 16;
}

abbrev pub start_engine : ServerCalls → RulesConfig → Result RulesEngine LaunchError
start_engine calls rules =
    map_err rules_not_loaded (from_config calls.parsers calls.open_readfile rules)

abbrev pub run_tcp_server : ServerCalls → ServerConfig → RulesConfig → Result Listening LaunchError
run_tcp_server calls config rules = do engine ← start_engine calls rules; ok (tcp_server engine)

-- The socket is bound before the rules are loaded.
abbrev pub run_udp_server : ServerCalls → ServerConfig → RulesConfig → Result Listening LaunchError
run_udp_server calls config rules = do
  guard (calls.bind_udp config.bind_addr) not_bound
  engine ← start_engine calls rules
  ok (udp_server engine)

abbrev pub run_ws_server : ServerCalls → ServerConfig → RulesConfig → Result Listening LaunchError
run_ws_server calls config rules = do
  engine ← start_engine calls rules
  acceptor ←
      map_err tls_panics
        (ws_acceptor calls.tls_files config.transport_type config.cert_path config.key_path)
  ok (ws_server engine acceptor)

unfoldable pub run_server_from_config :
    Unicode → ServerCalls → AppConfig → Result Listening LaunchError
unfolding text_eq ws_acceptor
run_server_from_config uni calls app =
    let config = app.server in
    let kind = uni.to_lowercase config.transport_type in
    guard (calls.create_tun_device (server_tun config)) tun_not_created
    >> (if text_eq kind (codes "tcp")
        then run_tcp_server calls config app.rules
        else if text_eq kind (codes "udp")
        then run_udp_server calls config app.rules
        else if text_eq kind (codes "ws")
        then run_ws_server calls config app.rules
        else if text_eq kind (codes "wss")
        then run_ws_server calls config app.rules
        else err (unknown_transport_type config.transport_type))

-- What `main` runs, and with which configuration.
pub data Role : Type 0 where
  as_server as_client : AppConfig → Role

module _ (uni : Unicode) (ips : IpFormat) (yaml : Yaml) where
  -- `AppConfig::load` at the start of `run_server` and of `run_client`.
  abbrev pub load_again : FileCalls → FileCalls → Files → Result AppConfig LaunchError
  load_again calls state_calls files =
      map_err not_loaded (load ips yaml calls state_calls files).result

  -- `main`, over the calls of its own load and of the second one.
  unfoldable pub main :
      FileCalls → FileCalls → FileCalls → FileCalls → Files → Result Role LaunchError
  unfolding load text_eq
  main calls state_calls calls' state_calls' files =
      let first = load ips yaml calls state_calls files in
      map_err not_loaded first.result >>= λ app.
      (let mode = uni.to_lowercase (app.runtime).mode in
        if text_eq mode (codes "server")
        then (do again ← load_again calls' state_calls' first.files; ok (as_server again))
        else if text_eq mode (codes "client")
        then (do again ← load_again calls' state_calls' first.files; ok (as_client again))
        else err (invalid_mode mode))

-- How a task ends: well, with an error, or by a panic.
pub data TaskEnd : Type 0 where
  well failed panicked : TaskEnd

-- The task that ends first in `run_connected_client`.
pub data FirstToEnd : Type 0 where
  direct_proxy : FirstToEnd
  tun_task transport_task : TaskEnd → FirstToEnd

pub data ClientEnd : Type 0 where
  rules_refused : ConfigError → ClientEnd
  tun_failed tun_panicked transport_failed transport_panicked : ClientEnd

abbrev pub on_end : ClientEnd → ClientEnd → TaskEnd → Result (Unit {0}) ClientEnd
on_end on_failure on_panic well = ok tt
on_end on_failure on_panic failed = err on_failure
on_end on_failure on_panic panicked = err on_panic

abbrev pub after_first : FirstToEnd → Result (Unit {0}) ClientEnd
after_first direct_proxy = ok tt
after_first (tun_task e) = on_end tun_failed tun_panicked e
after_first (transport_task e) = on_end transport_failed transport_panicked e

unfoldable pub run_connected_client :
    Parsers → (Text → Option Reader) → RulesConfig → FirstToEnd → Result (Unit {0}) ClientEnd
run_connected_client ps open_readfile rules first = do
  engine ← map_err rules_refused (from_config ps open_readfile rules)
  after_first first
