-- ===== src/Launch/Tests.antt =====
-- The start of the program at concrete configurations.
use easynet.Prelude.{◌≡◌, ◌≢◌, ◌↔◌, ◌⊎◌, refl, true, false, none, some, [], ok, err, if◌then◌else◌}
use easynet.Text.{Text, codes, text_eq, to_ascii_lowercase, Unicode}
use easynet.Net.{socket_addr, v4, octets}
use easynet.Config
use easynet.Config.{default_rules}
use easynet.Geoip
use easynet.Engine.{RulesEngine, from_config}
use easynet.Client
use easynet.Client.{ws_to, choose_target}
use easynet.WebSocket.{
  Url, UrlParser, ConnectCalls, WsTransport, certificate, parse_url, wrap_with_tls, connect,
}
use easynet.WebSocket.Acceptor.{AcceptCalls, Accepted, accept, ws_acceptor}
use easynet.Settings.{AppConfig, default_app, default_server}
use easynet.Settings.Files.{all_well}
use easynet.Settings.Tests.{ips, shown, default_yaml, first_load}
use easynet.Launch.{
  ServerCalls, ws_server, run_server_from_config, as_server, as_client, main, invalid_mode,
}
use easynet.Launch.Dialled.{ParsesAddress}
use easynet.Launch.Encryption.{encryption_agrees_iff}
use easynet.Launch.Modes.{main-load}

abbrev unicode : Unicode
unicode = record { to_lowercase = to_ascii_lowercase; to_lowercase_ascii = λ s h. refl }

-- A server whose transport type is in capitals.
abbrev app : AppConfig
app = record default_app { server = record default_server { transport_type = codes "WSS" } }

abbrev calls : ServerCalls
calls = record {
  parsers = record { unicode = unicode; parse_network = λ s. none };
  open_readfile = λ s. none;
  tls_files = record {
    exists = λ s. true;
    readable = λ s. true;
    from_pkcs8 = λ c k. true;
    new_acceptor = λ c k. true;
  };
  create_tun_device = λ a. true;
  bind_udp = λ a. true;
}

abbrev engine : RulesEngine
engine = record { rules = []; geoip = Geoip.load (λ s. none) none }

started : run_server_from_config unicode calls app ≡ ok (ws_server engine none)
unfolding run_server_from_config ws_acceptor text_eq to_ascii_lowercase from_config Config.validate
    Config.validate_from
started = refl

abbrev accepting : AcceptCalls
accepting = record {
  peer = some (socket_addr (v4 (octets 192 0 2 9)) 5000);
  tls_accept = λ a. true;
  ws_accept = true;
}

abbrev plain : Accepted
plain = record { peer_addr = socket_addr (v4 (octets 192 0 2 9)) 5000; encrypted = false }

accepted_plain : accept accepting none ≡ ok plain
unfolding accept
accepted_plain = refl

abbrev client : Client.ClientConfig
client = record {
  token = [];
  session_id = [];
  transport_type = codes "WSS";
  server_addr = codes "192.0.2.1:80";
}

abbrev url_of : Text → Url
url_of scheme = record {
  host_str = some (codes "192.0.2.1");
  port_or_known_default = some 80;
  scheme = scheme;
}

abbrev parse : UrlParser
parse t =
    if text_eq t (codes "wss://192.0.2.1:80")
    then some (url_of (codes "wss"))
    else if text_eq t (codes "ws://192.0.2.1:80")
    then some (url_of (codes "ws"))
    else none

parses : ParsesAddress parse (codes "192.0.2.1:80")
unfolding text_eq
parses = record { host = codes "192.0.2.1"; port = 80; plain_url = refl; tls_url = refl }

abbrev connecting : ConnectCalls
connecting = record {
  tcp_connect = true;
  ca_file = certificate;
  build = true;
  tls_connect = λ c. true;
  parse_addr = λ h p. none;
  ws_handshake = true;
}

abbrev over_tls : WsTransport
over_tls = record {
  host = codes "192.0.2.1";
  port = 80;
  peer_addr = socket_addr (v4 (octets 127 0 0 1)) 80;
  encrypted = true;
}

chosen : choose_target unicode client ≡ ok (ws_to (codes "wss://192.0.2.1:80"))
unfolding choose_target text_eq to_ascii_lowercase
chosen = refl

connected : connect parse connecting (codes "wss://192.0.2.1:80") ≡ ok over_tls
unfolding connect parse_url wrap_with_tls text_eq
connected = refl

encryption_agrees_iff_example :
    ((plain.encrypted ≡ true) ↔ (codes "WSS" ≡ codes "wss"))
    × ((over_tls.encrypted ≡ true) ↔ (unicode.to_lowercase (codes "WSS") ≡ codes "wss"))
    × ((plain.encrypted ≡ over_tls.encrypted)
        ↔ ((codes "WSS" ≡ codes "wss") ⊎ (unicode.to_lowercase (codes "WSS") ≢ codes "wss")))
    × (codes "WSS" ≢ codes "wss"
        → unicode.to_lowercase (codes "WSS") ≡ codes "wss"
        → (plain.encrypted ≡ false) × (over_tls.encrypted ≡ true))
encryption_agrees_iff_example =
    encryption_agrees_iff unicode calls app engine none accepting plain client parse connecting
      (codes "wss://192.0.2.1:80") over_tls refl parses started accepted_plain chosen connected

main-load_example : main unicode ips default_yaml all_well all_well all_well all_well [] ≡ (
    if text_eq (unicode.to_lowercase (codes "client")) (codes "server")
    then ok (as_server default_app)
    else if text_eq (unicode.to_lowercase (codes "client")) (codes "client")
    then ok (as_client default_app)
    else err (invalid_mode (unicode.to_lowercase (codes "client"))))
unfolding text_eq
main-load_example =
    main-load unicode ips default_yaml all_well all_well [] default_app shown refl first_load
