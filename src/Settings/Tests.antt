-- ===== src/Settings/Tests.antt =====
-- The configuration's files and its lists of DNS servers, at concrete values.
use easynet.Prelude.{ℕ, ◌≡◌, refl, true, some, none, [], ◌∷◌, All, ok, Option, if◌then◌else◌}
use easynet.Text
use easynet.Text.{Text, codes, text_eq, split}
use easynet.Assoc
use easynet.Assoc.{get}
use easynet.Net.{
  socket_addr, Ipv4Addr, IpAddr, v4, v6, octets, SocketAddr, parse_ipv4, parse_octet, display_octet,
  display_ipv4,
}
use easynet.Rule.{new_rule, reject}
use easynet.Rule.Tests.{parse_match}
use easynet.Config.{default_rules, parse_rules, visit_seq}
use easynet.Server
use easynet.Server.{text_key, initial, Choice, Surroundings, acceptance, choose_session}
use easynet.Server.Lifetime.{provided, Handled}
use easynet.Server.Handshake.{stored}
use easynet.Client
use easynet.Client.Session.{serve}
use easynet.Settings.{
  AppConfig, default_app, default_client, default_server, default_client_state, IpFormat,
  push_servers, deserialize_tun_dns_servers,
}
use easynet.Settings.Dns.{IsShown}
use easynet.Settings.Document.{AppDoc, Yaml, app_of_doc, app_to_doc}
use easynet.Settings.Files.{
  Files, all_well, app_config_path, client_state_path, load, save, load_client_state,
  load_from_file, save_to_file, put_file,
}
use easynet.Settings.Reload.{loaded_as, load-save}
use easynet.Settings.Restart.{client_part, renamed, shake_hands, restart_keeps_address}

abbrev pub toy_parse : Option Ipv4Addr → Option IpAddr
toy_parse none = none
toy_parse (some ip) = some (v4 ip)

abbrev pub toy_show : IpAddr → Text
toy_show (v4 ip) = display_ipv4 ip
toy_show (v6 n) = []

abbrev pub ips : IpFormat
ips = record { parse_ip = λ t. toy_parse (parse_ipv4 t); show_ip = toy_show }

-- A reader and a writer that know one document.
abbrev pub yaml : AppDoc → Yaml
yaml d = record {
  read_app = λ t. if text_eq t (codes "app") then some d else none;
  write_app = λ d'. codes "app";
  read_state = λ t. some (some t);
  write_state = λ t. t;
}

pub shown : All (IsShown ips) default_server.tun_dns_servers
unfolding parse_ipv4 parse_octet display_octet display_ipv4 Text.trim Text.split
shown = ((refl, refl), ((refl, refl), tt))

abbrev app : AppConfig
app = record default_app {
  rules = record default_rules { rules = record (new_rule reject) { match_all = true } ∷ [] };
  client = record default_client { session_id = codes "old"; token = codes "secret" };
}

abbrev doc_yaml : Yaml
doc_yaml = yaml (app_to_doc ips app)

load-save_example :
    ((save ips doc_yaml all_well [] app).result ≡ ok tt)
    × ((load ips doc_yaml all_well all_well (save ips doc_yaml all_well [] app).files).result
        ≡ ok (loaded_as app default_client_state))
unfolding text_eq load_client_state Assoc.get
load-save_example =
    load-save ips doc_yaml [] app default_client_state ((codes "MATCH,drop", parse_match), tt) shown
      refl refl

abbrev pub default_yaml : Yaml
default_yaml = yaml (app_to_doc ips default_app)

pub first_load : (load ips default_yaml all_well all_well []).result ≡ ok default_app
unfolding load load_client_state load_from_file save_to_file put_file text_eq Assoc.get Assoc.insert
first_load = refl

abbrev plain : AppConfig
plain = record default_app { client = record default_client { token = codes "secret" } }

abbrev plain_yaml : Yaml
plain_yaml = yaml (app_to_doc ips plain)

abbrev files : Files
files = (app_config_path, codes "app") ∷ (client_state_path, codes "old") ∷ []

abbrev started : AppConfig
started = renamed plain (codes "old")

abbrev server : Server.ServerConfig
server = record {
  tun_name = codes "easynet";
  tun_netmask = v4 (octets 255 255 255 0);
  tun_destination = v4 (octets 10 0 0 0);
  tun_dns_servers = [];
  tun_mtu = 1400;
  token = codes "secret";
}

abbrev around : Surroundings
around = record {
  config = some server;
  show_v6 = λ n. [];
  fresh_id = codes "new";
  now = 1000;
  send_ok = true;
  forward_ok = true;
}

abbrev peer : ℕ → SocketAddr
peer n = socket_addr (v4 (octets 192 0 2 n)) 4000

abbrev config : Client.ClientConfig
config = client_part (λ a. []) started.client

abbrev chosen : Choice
chosen = choose_session around server initial (provided config.session_id)

abbrev again : Handled
again =
    serve (record around { now = 9000 }) (serve around initial (peer 7) 1 config).state (peer 8) 2
      (client_part (λ a. []) (renamed started chosen.session_id).client)

starts : (load ips plain_yaml all_well all_well files).result ≡ ok started
unfolding load load_client_state load_from_file text_eq Assoc.get app_of_doc app_to_doc visit_seq
    parse_rules deserialize_tun_dns_servers push_servers parse_ipv4 parse_octet display_octet
    display_ipv4 Text.trim Text.split
starts = refl

restart_keeps_address_example :
    ((load ips plain_yaml all_well all_well
        (shake_hands ips plain_yaml files config (acceptance server chosen))).result
      ≡ ok (renamed started chosen.session_id))
    × (again.sent ≡ (peer 8, acceptance server chosen) ∷ [])
    × ((again.state).next_client_id
        ≡ ((serve around initial (peer 7) 1 config).state).next_client_id)
    × (get chosen.session_id (again.state).sessions
        ≡ some (stored (record around { now = 9000 }) (peer 8) 2 chosen))
unfolding text_eq Assoc.get
restart_keeps_address_example =
    restart_keeps_address ips plain_yaml (λ a. []) files (codes "app") started around
      (record around { now = 9000 }) server initial (peer 7) (peer 8) 1 2 refl (λ id. refl) starts
      refl refl refl refl refl refl
