-- ===== src/Settings/Serving.antt =====
-- The handshakes of src/server.rs over the files of src/config.rs: `ServerConfig::load` reads them
-- anew for each handshake.
pub mod Tests
use easynet.Prelude.{
  ℕ, ◌≡◌, ◌≢◌, refl, ap, ◌∙◌, Option, none, some, ◌∷◌, [], List, All, Result, ok, err, ◌>>=◌,
}
use easynet.Text.{Text}
use easynet.Assoc.{get}
use easynet.Net.{SocketAddr}
use easynet.Server
use easynet.Server.{
  text_key, ServerState, Surroundings, Outcome, refusal, handshake_with, handle_handshake,
}
use easynet.Server.Handshake.{handle_handshake_wrong_token}
use easynet.Settings.{AppConfig, ClientState, ServerConfig, IpFormat, SettingsError}
use easynet.Settings.Dns.{IsShown}
use easynet.Settings.Document.{Yaml, app_to_doc}
use easynet.Settings.Files.{
  Files, FileCalls, Done, all_well, app_config_path, load_found, read_app_file, load_from_file,
  load_client_state, load, save, apply_rule_set_paths, with_session,
}
use easynet.Settings.Reload.{WasParsed, load-save}

-- The fields that the sessions use.
abbrev pub server_part : ServerConfig → Server.ServerConfig
server_part c = record {
  tun_name = c.tun_name;
  tun_netmask = c.tun_netmask;
  tun_destination = c.tun_destination;
  tun_dns_servers = c.tun_dns_servers;
  tun_mtu = c.tun_mtu;
  token = c.token;
}

-- `ServerConfig::load`, of which the error is only logged.
abbrev pub of_loaded : Result AppConfig SettingsError → Option Server.ServerConfig
of_loaded (ok app) = some (server_part app.server)
of_loaded (err e) = none

never_loaded :
    (first : Result AppConfig SettingsError) (e : SettingsError)
    → of_loaded (first >>= λ config. (let r : Result AppConfig SettingsError = err e in r)) ≡ none
never_loaded (ok app) e = refl
never_loaded (err d) e = refl

module _ (ips : IpFormat) (yaml : Yaml) where
  -- What a handshake is given, with the configuration that the files give.
  unfoldable pub reading : FileCalls → FileCalls → Files → Surroundings → Surroundings
  unfolding load
  reading calls state_calls files w = record w {
    config = of_loaded (load ips yaml calls state_calls files).result;
  }

  -- A configuration that is saved, under the conditions of its reload, holds for the next handshake,
  -- with no restart: if its token is set, a handshake that brings another token is refused and
  -- changes nothing.
  pub saved_token_decides :
      (files : Files) (config : AppConfig) (state : ClientState) (w : Surroundings)
      (s : ServerState) (src : SocketAddr) (tx : ℕ) (id : Option Text) (token : Text)
      → All WasParsed (config.rules).rules
      → All (IsShown ips) (config.server).tun_dns_servers
      → yaml.read_app (yaml.write_app (app_to_doc ips config)) ≡ some (app_to_doc ips config)
      → load_client_state ips yaml all_well files ≡ ok state
      → (config.server).token ≢ []
      → token ≢ (config.server).token
      → let w' = reading all_well all_well (save ips yaml all_well files config).files w in
        handle_handshake w' s src tx id (some token)
        ≡ record { state = s; sent = (src, refusal) ∷ [] }
  unfolding reading
  saved_token_decides files config state w s src tx id token parsed shown back known is_set wrong =
      let saved = (save ips yaml all_well files config).files in
      let (written, loads) = load-save ips yaml files config state parsed shown back known in
      handle_handshake_wrong_token (reading all_well all_well saved w) (server_part config.server) s
        src tx id token (ap of_loaded loads) is_set wrong

  -- Where the configuration file is there, and the client's state file is there but does not read or
  -- does not parse, the server answers no handshake and changes nothing, whatever stands in its
  -- own configuration: loading it needs the state file.
  pub state_file_silences :
      (calls state_calls : FileCalls) (files : Files) (content : Text) (e : SettingsError)
      (w : Surroundings) (s : ServerState) (src : SocketAddr) (tx : ℕ) (id token : Option Text)
      → get app_config_path files ≡ some content
      → load_client_state ips yaml state_calls files ≡ err e
      → handle_handshake (reading calls state_calls files w) s src tx id token
        ≡ record { state = s; sent = [] }
  unfolding handle_handshake reading load load_from_file
  state_file_silences calls state_calls files content e w s src tx id token there broken =
      ap (λ o. handshake_with (reading calls state_calls files w) o s src tx id token) unconfigured
    where
      unconfigured : of_loaded (load ips yaml calls state_calls files).result ≡ none
      unconfigured =
          ap
            (λ (d : Done AppConfig). of_loaded (
              d.result >>= λ config. load_client_state ips yaml state_calls d.files >>= λ state.
              ok (apply_rule_set_paths (with_session config state))))
            (ap (load_found ips yaml calls files app_config_path) there)
          ∙ rw broken (never_loaded (read_app_file ips yaml calls content) e)
