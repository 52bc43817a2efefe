-- ===== src/Settings/Reload.antt =====
-- What src/config.rs saves is what it loads.
use easynet.Prelude.{
  ◌≡◌, refl, ap, ◌∙◌, Bool, true, false, Option, none, some, List, [], ◌∷◌, All, map, if◌then◌else◌,
  Result, ok, err, >>=-eq-ok,
}
use easynet.Text.{Text, text_eq}
use easynet.Assoc.{get, insert, get-insert}
use easynet.Server.{text_key}
use easynet.Rule.{Rule, display_rule}
use easynet.Rule.Parse.{parse_compact}
use easynet.Rule.RoundTrip.{parse_compact-display_rule}
use easynet.Config.{default_rules, parse_rules, visit_seq}
use easynet.Settings.{
  AppConfig, ClientState, default_app, default_server, IpFormat, SettingsError, cannot_create_dir,
}
use easynet.Settings.Dns.{IsShown, deserialize_tun_dns_servers-show_ip}
use easynet.Settings.Document.{Yaml, app_of_doc, app_to_doc}
use easynet.Settings.Files.{
  Files, FileCalls, Write, written, not_opened, broken_off, all_well, write_file, app_config_path,
  client_state_path, put_file, save_to_file, load_from_file, read_state_file, load_found,
  load_client_state, apply_rule_set_paths, with_session, load, save,
}

abbrev pub WasParsed : Rule → Type 0
WasParsed r = (s : Text) × (parse_compact s ≡ ok r)

parse_rules-display_rule :
    (rules : List Rule) → All WasParsed rules → parse_rules (map display_rule rules) ≡ ok rules
unfolding parse_rules
parse_rules-display_rule [] _ = refl
parse_rules-display_rule (r ∷ rules) ((s, e), h) =
    rw (parse_compact-display_rule s r e, parse_rules-display_rule rules h) refl

-- The configuration that a document of `config` gives.
abbrev pub reread : AppConfig → AppConfig
reread config = record config {
  client = record config.client { session_id = [] };
  rules = record default_rules { rules = (config.rules).rules };
}

module _ (ips : IpFormat) where
  pub app_of_doc-app_to_doc :
      (config : AppConfig)
      → All WasParsed (config.rules).rules
      → All (IsShown ips) (config.server).tun_dns_servers
      → app_of_doc ips (app_to_doc ips config) ≡ ok (reread config)
  unfolding app_of_doc app_to_doc visit_seq
  app_of_doc-app_to_doc config parsed shown =
      rw
        (
          deserialize_tun_dns_servers-show_ip ips (config.server).tun_dns_servers shown,
          parse_rules-display_rule (config.rules).rules parsed,
        )
        refl

paths_differ : text_eq app_config_path client_state_path ≡ false
unfolding text_eq
paths_differ = refl

only_then :
    {T : Type 0} (b : Bool) (r : Result T SettingsError) (e : SettingsError) {t : T}
    → (if b then r else err e) ≡ ok t
    → r ≡ ok t
only_then true r e h = h
only_then false r e h = cc

-- A file is put where that goes well.
put_file_well :
    (calls : FileCalls) (files : Files) (path content : Text) {u : Unit {0}}
    → (put_file calls files path content).result ≡ ok u
    → (put_file calls files path content).files ≡ insert path content files
unfolding put_file
put_file_well calls files path content h = go calls.create_dir_ok calls.write h
  where
    go :
        (b : Bool) (w : Write)
        → (if b
            then write_file files path content w
            else record { files = files; result = err cannot_create_dir }).result
          ≡ ok tt
        → (if b
            then write_file files path content w
            else record { files = files; result = err cannot_create_dir }).files
          ≡ insert path content files
    go true written k = refl
    go true not_opened k = cc
    go true (broken_off part) k = cc
    go false w k = cc

-- What `load` makes of it, next to the client's state.
abbrev pub loaded_as : AppConfig → ClientState → AppConfig
loaded_as config state = apply_rule_set_paths (with_session (reread config) state)

module _ (ips : IpFormat) (yaml : Yaml) where
  -- The client's state does not see the configuration file.
  load_client_state-insert :
      (calls : FileCalls) (files : Files) (content : Text)
      → load_client_state ips yaml calls (insert app_config_path content files)
        ≡ load_client_state ips yaml calls files
  unfolding load_client_state text_eq
  load_client_state-insert calls files content =
      ap (read_state_file ips yaml calls)
        (get-insert app_config_path client_state_path content files)

  -- The document of a configuration, read back from its file.
  reads_back :
      (files : Files) (config : AppConfig)
      → All WasParsed (config.rules).rules
      → All (IsShown ips) (config.server).tun_dns_servers
      → yaml.read_app (yaml.write_app (app_to_doc ips config)) ≡ some (app_to_doc ips config)
      → let files' = insert app_config_path (yaml.write_app (app_to_doc ips config)) files in
        load_from_file ips yaml all_well files' app_config_path
        ≡ record { files = files'; result = ok (reread config) }
  unfolding load_from_file text_eq
  reads_back files config parsed shown back =
      let content = yaml.write_app (app_to_doc ips config) in
      ap (load_found ips yaml all_well (insert app_config_path content files) app_config_path)
        (get-insert app_config_path app_config_path content files)
      ∙ rw (back, app_of_doc-app_to_doc ips config parsed shown) refl

  -- A configuration whose rules were parsed and whose DNS servers are written as they are read, where
  -- the document reads back from its text: once it is saved, and where the client's state can be
  -- read, loading gives it back, with the session id of the client's state, rejection as the
  -- default action, and the GeoIP path of the rule sets.
  pub load-save :
      (files : Files) (config : AppConfig) (state : ClientState)
      → All WasParsed (config.rules).rules
      → All (IsShown ips) (config.server).tun_dns_servers
      → yaml.read_app (yaml.write_app (app_to_doc ips config)) ≡ some (app_to_doc ips config)
      → load_client_state ips yaml all_well files ≡ ok state
      → let saved = save ips yaml all_well files config in
        (saved.result ≡ ok tt)
        × ((load ips yaml all_well all_well saved.files).result ≡ ok (loaded_as config state))
  unfolding save load put_file save_to_file
  load-save files config state parsed shown back known = (
    refl,
    rw
        (
          reads_back files config parsed shown back,
          load_client_state-insert all_well files (yaml.write_app (app_to_doc ips config)),
          known,
        )
        refl,
  )

  load_client_state_well :
      (calls : FileCalls) (files : Files) (state : ClientState)
      → load_client_state ips yaml calls files ≡ ok state
      → load_client_state ips yaml all_well files ≡ ok state
  unfolding load_client_state
  load_client_state_well calls files state h = go (get client_state_path files) h
    where
      go :
          (found : Option Text)
          → read_state_file ips yaml calls found ≡ ok state
          → read_state_file ips yaml all_well found ≡ ok state
      go none k = k
      go (some content) k = only_then calls.read_ok _ _ k

  -- What stands in the files once `load_from_file` has gone well is read again.
  load_from_file_well :
      (calls : FileCalls) (files : Files) (config : AppConfig)
      → All (IsShown ips) default_server.tun_dns_servers
      → yaml.read_app (yaml.write_app (app_to_doc ips default_app))
        ≡ some (app_to_doc ips default_app)
      → (load_from_file ips yaml calls files app_config_path).result ≡ ok config
      → let files' = (load_from_file ips yaml calls files app_config_path).files in
        load_from_file ips yaml all_well files' app_config_path
        ≡ record { files = files'; result = ok config }
  unfolding load_from_file save_to_file
  load_from_file_well calls files config shown back h = go (get app_config_path files) refl h
    where
      go :
          (found : Option Text)
          → get app_config_path files ≡ found
          → (load_found ips yaml calls files app_config_path found).result ≡ ok config
          → let files' = (load_found ips yaml calls files app_config_path found).files in
            load_from_file ips yaml all_well files' app_config_path
            ≡ record { files = files'; result = ok config }
      go none missing k =
          let (u, saved, same) = >>=-eq-ok _ _ k in
          rw
            (put_file_well calls files app_config_path (yaml.write_app (app_to_doc ips default_app))
              saved)
            (reads_back files default_app tt shown back
              ∙ ap
                  (λ r. record {
                    files =
                        insert app_config_path (yaml.write_app (app_to_doc ips default_app)) files;
                    result = r;
                  })
                  same)
      go (some content) there k =
          rw there (ap (λ r. record { files = files; result = r }) (only_then calls.read_ok _ _ k))

  -- A load that goes well, the missing file written or not, is repeated: where the DNS servers of the
  -- defaults are written as they are read and the document of the defaults reads back from its
  -- text, a second load over the files that the first left, its calls going well, gives the same
  -- configuration and leaves the files as they are.
  pub load-load :
      (calls state_calls : FileCalls) (files : Files) (config : AppConfig)
      → All (IsShown ips) default_server.tun_dns_servers
      → yaml.read_app (yaml.write_app (app_to_doc ips default_app))
        ≡ some (app_to_doc ips default_app)
      → (load ips yaml calls state_calls files).result ≡ ok config
      → let files' = (load ips yaml calls state_calls files).files in
        load ips yaml all_well all_well files' ≡ record { files = files'; result = ok config }
  unfolding load
  load-load calls state_calls files config shown back h =
      let (first, loaded, h') = >>=-eq-ok _ _ h in
      let (state, known, same) = >>=-eq-ok _ _ h' in
      rw
        (
          load_from_file_well calls files first shown back loaded,
          load_client_state_well state_calls _ state known,
          same,
        )
        refl
