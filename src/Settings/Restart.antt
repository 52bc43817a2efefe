-- ===== src/Settings/Restart.antt =====
-- The client of src/client.rs over the files of src/config.rs: the session id that a handshake brings
-- stands in the state file, and the next start of the client uses it.
use easynet.Prelude.{
  ℕ, ◌≡◌, refl, sym, ap, ◌∙◌, true, false, Option, none, some, [], ◌∷◌, is_ok, is_empty, Result, ok,
  err, ◌>>=◌, Bool-cases, inl, inr, >>=-eq-ok,
}
use easynet.Text.{Text, text_eq, text_eq_iff}
use easynet.Assoc.{get, insert, get-insert}
use easynet.Net.{SocketAddr}
use easynet.Message.{Message}
use easynet.Server
use easynet.Server.{
  ServerState, Surroundings, Choice, text_key, acceptance, choose_session, new_session,
  known_or_new, admits,
}
use easynet.Server.Handshake.{stored, handle_handshake_accepted, handle_handshake_reconnect}
use easynet.Server.Lifetime.{provided, handle_message}
use easynet.Client
use easynet.Client.{Reply, answered, Shaken, HandshakeCalls, handshake_async}
use easynet.Client.Session.{serve, own_token}
use easynet.Settings.{AppConfig, ClientState, IpFormat, SettingsError}
use easynet.Settings
use easynet.Settings.Document.{Yaml}
use easynet.Settings.Files.{
  Files, Done, all_well, client_state_path, app_config_path, load_found, put_file, load_from_file,
  apply_rule_set_paths, with_session, read_app_file, read_state_file, load_client_state,
  save_client_state, load,
}

-- The fields that the handshake and the choice of the transport use, the address in its printed form.
abbrev pub client_part : (SocketAddr → Text) → Settings.ClientConfig → Client.ClientConfig
client_part show_addr c = record {
  token = c.token;
  session_id = c.session_id;
  transport_type = c.transport_type;
  server_addr = show_addr c.server_addr;
}

abbrev loaded_by :
    Result AppConfig SettingsError
    → Result ClientState SettingsError
    → Result AppConfig SettingsError
loaded_by first known = do
  config ← first
  state ← known
  ok (apply_rule_set_paths (with_session config state))

abbrev pub renamed : AppConfig → Text → AppConfig
renamed app id = record app { client = record app.client { session_id = id } }

renames :
    (first : Result AppConfig SettingsError) (known : Result ClientState SettingsError)
    {app : AppConfig} {id : Text}
    → loaded_by first known ≡ ok app
    → loaded_by first (ok (record { session_id = id })) ≡ ok (renamed app id)
renames (err e) known h = cc
renames (ok config) (err e) h = cc
renames (ok config) (ok state) {id = id} h =
    ap (λ (r : Result AppConfig SettingsError). r >>= λ app. ok (renamed app id)) h

provided_full : (id : Text) → is_empty id ≡ false → provided id ≡ some id
provided_full id full = rw full refl

-- The session that is chosen has an id, if a new one has.
chosen_full :
    (w : Surroundings) (sc : Server.ServerConfig) (s : ServerState) (id : Text)
    → is_empty w.fresh_id ≡ false
    → is_empty (choose_session w sc s (provided id)).session_id ≡ false
unfolding choose_session new_session
chosen_full w sc s [] fresh = fresh
chosen_full w sc s (x ∷ id) fresh = go (get (x ∷ id) s.sessions)
  where
    go :
        (known : Option Server.Client)
        → is_empty (known_or_new w sc s (x ∷ id) known).session_id ≡ false
    go none = fresh
    go (some client) = refl

module _ (ips : IpFormat) (yaml : Yaml) where
  -- The state file behind a handshake.
  abbrev pub keep_session : Files → Option Text → Files
  keep_session files none = files
  keep_session files (some id) =
      (save_client_state ips yaml all_well files (record { session_id = id })).files

  -- The calls of `handshake_async` on the state, where the file system works.
  abbrev pub state_calls : Files → Message → HandshakeCalls
  state_calls files m = record {
    send_ok = true;
    reply = answered m;
    load_ok = is_ok (load_client_state ips yaml all_well files);
    save_ok = true;
  }

  -- The files behind a handshake whose reply is `m`.
  unfoldable pub shake_hands : Files → Client.ClientConfig → Message → Files
  unfolding handshake_async save_client_state load_client_state
  shake_hands files config m =
      keep_session files (handshake_async config (state_calls files m)).saved

  -- A load where the configuration file is there.
  load_there :
      (files : Files) (content : Text)
      → get app_config_path files ≡ some content
      → (load ips yaml all_well all_well files).result
        ≡ loaded_by
            (read_app_file ips yaml all_well content)
            (load_client_state ips yaml all_well files)
  unfolding load load_from_file
  load_there files content there =
      ap
        (λ (d : Done AppConfig). d.result >>= λ config.
          load_client_state ips yaml all_well d.files >>= λ state.
          ok (apply_rule_set_paths (with_session config state)))
        (ap (load_found ips yaml all_well files app_config_path) there)

  load_client_state-save :
      (files : Files) (state : ClientState)
      → yaml.read_state (yaml.write_state state.session_id) ≡ some (some state.session_id)
      → (load_client_state ips yaml all_well
          (save_client_state ips yaml all_well files state).files)
        ≡ ok state
  unfolding load_client_state save_client_state put_file text_eq
  load_client_state-save files state back =
      ap (read_state_file ips yaml all_well)
        (get-insert client_state_path client_state_path (yaml.write_state state.session_id) files)
      ∙ rw back refl

  -- A load behind a save of the state differs in the session id alone.
  load-save_client_state :
      (files : Files) (content : Text) (app : AppConfig) (id : Text)
      → get app_config_path files ≡ some content
      → yaml.read_state (yaml.write_state id) ≡ some (some id)
      → (load ips yaml all_well all_well files).result ≡ ok app
      → (load ips yaml all_well all_well
          (save_client_state ips yaml all_well files (record { session_id = id })).files).result
        ≡ ok (renamed app id)
  unfolding save_client_state put_file text_eq
  load-save_client_state files content app id there back h =
      let files' = insert client_state_path (yaml.write_state id) files in
      let there' =
        get-insert client_state_path app_config_path (yaml.write_state id) files ∙ there in
      load_there files' content there'
      ∙ rw (load_client_state-save files (record { session_id = id }) back) (
          renames (read_app_file ips yaml all_well content)
            (load_client_state ips yaml all_well files) (sym (load_there files content there) ∙ h))

  state_loads :
      (files : Files) (content : Text) (app : AppConfig)
      → get app_config_path files ≡ some content
      → (load ips yaml all_well all_well files).result ≡ ok app
      → (state : ClientState) × (load_client_state ips yaml all_well files ≡ ok state)
  state_loads files content app there h =
      let (first, loaded, h') =
        >>=-eq-ok (read_app_file ips yaml all_well content)
          (λ config. load_client_state ips yaml all_well files >>= λ state.
            ok (apply_rule_set_paths (with_session config state)))
          (sym (load_there files content there) ∙ h) in
      let (state, known, same) =
        >>=-eq-ok (load_client_state ips yaml all_well files)
          (λ state. ok (apply_rule_set_paths (with_session first state))) h' in
      (state, known)

  -- The session id that a client takes from a reply is the one that its files then give.
  keeps_id :
      (files : Files) (content : Text) (app : AppConfig) (config : Client.ClientConfig)
      (sc : Server.ServerConfig) (c : Choice)
      → get app_config_path files ≡ some content
      → yaml.read_state (yaml.write_state c.session_id) ≡ some (some c.session_id)
      → (load ips yaml all_well all_well files).result ≡ ok app
      → (app.client).session_id ≡ config.session_id
      → sc.token ≡ config.token
      → (load ips yaml all_well all_well (shake_hands files config (acceptance sc c))).result
        ≡ ok (renamed app c.session_id)
  unfolding shake_hands handshake_async save_client_state put_file
  keeps_id files content app config sc c there back h own same =
      let (state, known) = state_loads files content app there h in
      rw ((text_eq_iff sc.token config.token).1 same, known)
        (elim (Bool-cases (text_eq c.session_id config.session_id)) [
          | inl e ↦ rw e (h ∙ ap (λ id. ok (renamed app id)) (own ∙ sym ((text_eq_iff _ _).0 e)))
          | inr e ↦ rw e (load-save_client_state files content app c.session_id there back h)
        ])

  -- A client whose configuration file is there and loads shakes hands with a server that has its
  -- token, whose configuration loads, whose reply can be sent and whose new session ids are not
  -- empty, and a state file reads back what was written. Then the next load of the client's
  -- configuration differs from the first in the session id alone, which is that of the server's
  -- session; and a second handshake with that configuration, from whatever address, is answered
  -- with the same session, address and TUN configuration, and takes no new address.
  pub restart_keeps_address :
      (show_addr : SocketAddr → Text) (files : Files) (content : Text) (app : AppConfig)
      (w w' : Surroundings) (sc : Server.ServerConfig) (s : ServerState) (peer peer' : SocketAddr)
      (tx tx' : ℕ)
      → get app_config_path files ≡ some content
      → ((id : Text) → yaml.read_state (yaml.write_state id) ≡ some (some id))
      → (load ips yaml all_well all_well files).result ≡ ok app
      → w.config ≡ some sc
      → w.send_ok ≡ true
      → is_empty w.fresh_id ≡ false
      → w'.config ≡ some sc
      → w'.send_ok ≡ true
      → sc.token ≡ (app.client).token
      → let config = client_part show_addr app.client in
        let c = choose_session w sc s (provided config.session_id) in
        let met = (serve w s peer tx config).state in
        let app' = renamed app c.session_id in
        let again = serve w' met peer' tx' (client_part show_addr app'.client) in
        ((load ips yaml all_well all_well (shake_hands files config (acceptance sc c))).result
          ≡ ok app')
        × (again.sent ≡ (peer', acceptance sc c) ∷ [])
        × ((again.state).next_client_id ≡ met.next_client_id)
        × (get c.session_id (again.state).sessions ≡ some (stored w' peer' tx' c))
  unfolding handle_message
  restart_keeps_address show_addr files content app w w' sc s peer peer' tx tx' there back h loaded
        sent fresh loaded' sent' same =
      let config = client_part show_addr app.client in
      let c = choose_session w sc s (provided config.session_id) in
      let (replies, stores) =
        handle_handshake_accepted w sc s peer tx (provided config.session_id)
          (provided config.token) loaded sent (own_token sc config.token same) in
      let full = provided_full c.session_id (chosen_full w sc s config.session_id fresh) in
      let (kept, counter, answered_so) =
        handle_handshake_reconnect w' sc (serve w s peer tx config).state peer' tx' c.session_id
          (provided config.token) (stored w peer tx c) c.session_id loaded' sent'
          (own_token sc config.token same) stores in
      (
        keeps_id files content app config sc c there (back c.session_id) h refl same,
        rw full answered_so,
        rw full counter,
        rw full (kept ∙ rw ((text_eq_iff c.session_id c.session_id).1 refl) refl),
      )
