-- ===== src/Settings.antt =====
-- The application's configuration in src/config.rs: its records with their defaults, the lists of DNS
-- servers, and what stands of it in a YAML document.
pub mod Dns
pub mod Document
pub mod Files
pub mod Reload
pub mod Restart
pub mod Serving
pub mod Tests
use easynet.Prelude.{
  ℕ, Bool, true, false, Option, none, some, List, [], ◌∷◌, ◌++◌, map, if◌then◌else◌, is_empty,
  Result, ok, err, ◌>>=◌, ◌>>◌, map_err, ok_or,
}
use easynet.Text.{Text, codes, trim, split}
use easynet.Net.{socket_addr, octets, IpAddr, v4, SocketAddr}
use easynet.Rule.{display_rule, comma}
use easynet.Rule.Parse.{RuleError}
use easynet.Config.{RulesConfig, default_rules, visit_seq}

pub record RuntimeConfig : Type 0 where
  pub mode : Text
  pub log_level : Text

abbrev pub default_runtime : RuntimeConfig
default_runtime = record { mode = codes "client"; log_level = codes "info" }

pub record ClientConfig : Type 0 where
  pub transport_type : Text
  pub server_addr : SocketAddr
  pub ca_cert_path : Text
  pub session_id : Text
  pub token : Text

abbrev local_port : SocketAddr
local_port = socket_addr (v4 (octets 127 0 0 1)) 12345

abbrev pub default_client : ClientConfig
default_client = record {
  transport_type = codes "udp";
  server_addr = local_port;
  ca_cert_path = codes "certs/ca-cert.pem";
  session_id = [];
  token = [];
}

pub record ClientState : Type 0 where
  pub session_id : Text

abbrev pub default_client_state : ClientState
default_client_state = record { session_id = [] }

pub record ServerConfig : Type 0 where
  pub transport_type : Text
  pub bind_addr : SocketAddr
  pub tun_name : Text
  pub tun_addr : IpAddr
  pub tun_netmask : IpAddr
  pub tun_destination : IpAddr
  pub tun_dns_servers : List IpAddr
  pub tun_mtu : ℕ
  pub cert_path : Text
  pub key_path : Text
  pub token : Text

abbrev pub default_server : ServerConfig
default_server = record {
  transport_type = codes "udp";
  bind_addr = local_port;
  tun_name = codes "tun0";
  tun_addr = v4 (octets 10 0 0 1);
  tun_netmask = v4 (octets 255 255 255 0);
  tun_destination = v4 (octets 10 0 0 0);
  tun_dns_servers = v4 (octets 114 114 114 114) ∷ v4 (octets 8 8 8 8) ∷ [];
  tun_mtu = 1400;
  cert_path = codes "certs/server-cert.pem";
  key_path = codes "certs/server-key.pem";
  token = [];
}

pub record TransparentProxyConfig : Type 0 where
  pub interface : Text
  pub smoltcp_addr : IpAddr
  pub smoltcp_netmask : IpAddr
  pub smoltcp_gateway : IpAddr
  pub upstream_server : Option IpAddr

abbrev pub default_transparent_proxy : TransparentProxyConfig
default_transparent_proxy = record {
  interface = [];
  smoltcp_addr = v4 (octets 10 0 0 2);
  smoltcp_netmask = v4 (octets 255 255 255 0);
  smoltcp_gateway = v4 (octets 10 0 0 1);
  upstream_server = none;
}

pub record RuleSetConfig : Type 0 where
  pub geoip_path : Option Text

abbrev pub default_rule_sets : RuleSetConfig
default_rule_sets = record { geoip_path = none }

pub record AppConfig : Type 0 where
  pub runtime : RuntimeConfig
  pub client : ClientConfig
  pub server : ServerConfig
  pub rules : RulesConfig
  pub rule_sets : RuleSetConfig
  pub transparent_proxy : TransparentProxyConfig

abbrev pub default_app : AppConfig
default_app = record {
  runtime = default_runtime;
  client = default_client;
  server = default_server;
  rules = default_rules;
  rule_sets = default_rule_sets;
  transparent_proxy = default_transparent_proxy;
}

-- `parse` and `to_string` of an address, which are the standard library's.
pub record IpFormat : Type 0 where
  pub parse_ip : Text → Option IpAddr
  pub show_ip : IpAddr → Text

-- A DNS value in a document: one text, or a sequence of texts.
pub data DnsValue : Type 0 where
  str : Text → DnsValue
  seq : List Text → DnsValue

-- `AddrParseError`, and what else makes a document useless.
pub data SettingsError : Type 0 where
  bad_address : SettingsError
  bad_rule : RuleError → SettingsError
  bad_yaml cannot_create_dir cannot_read cannot_write : SettingsError

module _ (ips : IpFormat) where
  -- Trimmed, without the empty ones, and parsed up to the first failure.
  unfoldable pub parse_dns_servers : List Text → Result (List IpAddr) SettingsError
  parse_dns_servers [] = ok []
  parse_dns_servers (value ∷ values) =
      let rest = parse_dns_servers values in
      let here = (do
        ip ← ok_or bad_address (ips.parse_ip (trim value))
        ips' ← rest
        ok (ip ∷ ips')) in
      if is_empty (trim value) then rest else here

  -- The loop of `visit_seq`, with the servers that it has so far.
  unfoldable pub push_servers : List IpAddr → List Text → Result (List IpAddr) SettingsError
  push_servers dns_servers [] = ok dns_servers
  push_servers dns_servers (value ∷ values) =
      let skipped = push_servers dns_servers values in
      let pushed : Result (List IpAddr) SettingsError = elim (ips.parse_ip (trim value)) [
        | none ↦ err bad_address
        | some ip ↦ push_servers (dns_servers ++ ip ∷ []) values
      ] in
      if is_empty (trim value) then skipped else pushed

  -- `deserialize_tun_dns_servers`.
  unfoldable pub deserialize_tun_dns_servers : DnsValue → Result (List IpAddr) SettingsError
  unfolding parse_dns_servers push_servers
  deserialize_tun_dns_servers (str value) = parse_dns_servers (split comma value)
  deserialize_tun_dns_servers (seq values) = push_servers [] values
