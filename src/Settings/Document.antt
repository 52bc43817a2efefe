-- ===== src/Settings/Document.antt =====
-- What the derived and the written `Serialize` and `Deserialize` of src/config.rs make of a YAML
-- document: the sections that may be missing, and the values that are read in their own way.
use easynet.Prelude.{ℕ, ◌≡◌, Option, none, some, List, [], map, Result, ok, ◌>>=◌, map_err}
use easynet.Text.{Text}
use easynet.Net.{IpAddr, SocketAddr}
use easynet.Rule.{display_rule}
use easynet.Config.{RulesConfig, default_rules, visit_seq}
use easynet.Settings.{
  RuntimeConfig, default_runtime, ClientConfig, default_client, ServerConfig, default_server,
  TransparentProxyConfig, default_transparent_proxy, RuleSetConfig, default_rule_sets, AppConfig,
  IpFormat, DnsValue, seq, SettingsError, bad_rule, deserialize_tun_dns_servers,
}

-- `session_id` is read where it stands, and never written.
pub record ClientDoc : Type 0 where
  pub transport_type : Text
  pub server_addr : SocketAddr
  pub ca_cert_path : Text
  pub session_id : Option Text
  pub token : Text

pub record ServerDoc : Type 0 where
  pub transport_type : Text
  pub bind_addr : SocketAddr
  pub tun_name : Text
  pub tun_addr : IpAddr
  pub tun_netmask : IpAddr
  pub tun_destination : IpAddr
  pub tun_dns_servers : Option DnsValue
  pub tun_mtu : ℕ
  pub cert_path : Text
  pub key_path : Text
  pub token : Text

pub record AppDoc : Type 0 where
  pub runtime : Option RuntimeConfig
  pub client : Option ClientDoc
  pub server : Option ServerDoc
  pub rules : Option (List Text)
  pub rule_sets : Option RuleSetConfig
  pub transparent_proxy : Option TransparentProxyConfig

-- `#[serde(default)]`.
abbrev pub or_default {ℓ} : {T : Type ℓ} → T → Option T → T
or_default t none = t
or_default t (some u) = u

abbrev pub client_of_doc : Option ClientDoc → ClientConfig
client_of_doc none = default_client
client_of_doc (some d) = record {
  transport_type = d.transport_type;
  server_addr = d.server_addr;
  ca_cert_path = d.ca_cert_path;
  session_id = or_default [] d.session_id;
  token = d.token;
}

abbrev pub client_to_doc : ClientConfig → ClientDoc
client_to_doc c = record {
  transport_type = c.transport_type;
  server_addr = c.server_addr;
  ca_cert_path = c.ca_cert_path;
  session_id = none;
  token = c.token;
}

abbrev pub rules_of_doc : Option (List Text) → Result RulesConfig SettingsError
rules_of_doc none = ok default_rules
rules_of_doc (some raws) = map_err bad_rule (visit_seq raws)

-- `Serialize` of the rules, and of the addresses of the DNS servers.
abbrev pub rules_to_doc : RulesConfig → List Text
rules_to_doc config = map display_rule config.rules

module _ (ips : IpFormat) where
  -- A section that stands without its DNS servers has none.
  abbrev pub dns_of_doc : Option DnsValue → Result (List IpAddr) SettingsError
  dns_of_doc none = ok []
  dns_of_doc (some value) = deserialize_tun_dns_servers ips value

  abbrev pub server_of_doc : Option ServerDoc → Result ServerConfig SettingsError
  server_of_doc none = ok default_server
  server_of_doc (some d) = do
    dns ← dns_of_doc d.tun_dns_servers
    ok (record {
      transport_type = d.transport_type;
      bind_addr = d.bind_addr;
      tun_name = d.tun_name;
      tun_addr = d.tun_addr;
      tun_netmask = d.tun_netmask;
      tun_destination = d.tun_destination;
      tun_dns_servers = dns;
      tun_mtu = d.tun_mtu;
      cert_path = d.cert_path;
      key_path = d.key_path;
      token = d.token;
    })

  abbrev pub server_to_doc : ServerConfig → ServerDoc
  server_to_doc s = record {
    transport_type = s.transport_type;
    bind_addr = s.bind_addr;
    tun_name = s.tun_name;
    tun_addr = s.tun_addr;
    tun_netmask = s.tun_netmask;
    tun_destination = s.tun_destination;
    tun_dns_servers = some (seq (map ips.show_ip s.tun_dns_servers));
    tun_mtu = s.tun_mtu;
    cert_path = s.cert_path;
    key_path = s.key_path;
    token = s.token;
  }

  unfoldable pub app_of_doc : AppDoc → Result AppConfig SettingsError
  app_of_doc d = do
    server ← server_of_doc d.server
    rules ← rules_of_doc d.rules
    ok (record {
      runtime = or_default default_runtime d.runtime;
      client = client_of_doc d.client;
      server = server;
      rules = rules;
      rule_sets = or_default default_rule_sets d.rule_sets;
      transparent_proxy = or_default default_transparent_proxy d.transparent_proxy;
    })

  unfoldable pub app_to_doc : AppConfig → AppDoc
  app_to_doc config = record {
    runtime = some config.runtime;
    client = some (client_to_doc config.client);
    server = some (server_to_doc config.server);
    rules = some (rules_to_doc config.rules);
    rule_sets = some config.rule_sets;
    transparent_proxy = some config.transparent_proxy;
  }

-- `serde_yaml`: the text of a document is read back to the document.
pub record Yaml : Type 0 where
  pub read_app : Text → Option AppDoc
  pub write_app : AppDoc → Text
  pub read_state : Text → Option (Option Text)
  pub write_state : Text → Text

pub record IsLawful (yaml : Yaml) : Type 0 where
  pub app_read_back : (d : AppDoc) → yaml.read_app (yaml.write_app d) ≡ some d
  pub state_read_back : (id : Text) → yaml.read_state (yaml.write_state id) ≡ some (some id)
