-- ===== src/Settings/Files.antt =====
-- The reading and writing of the configuration and of the client's state in src/config.rs, over a
-- store of files by their paths. Each call to the file system goes well or not.
use easynet.Prelude.{
  Bool, true, Option, none, some, List, [], if◌then◌else◌, Result, ok, err, ◌>>=◌, ok_or,
}
use easynet.Text.{Text, codes}
use easynet.Assoc.{get, insert}
use easynet.Server.{text_key}
use easynet.Settings.{
  ClientState, default_client_state, AppConfig, default_app, IpFormat, SettingsError, bad_yaml,
  cannot_create_dir, cannot_read, cannot_write,
}
use easynet.Settings.Document.{Yaml, or_default, app_of_doc, app_to_doc}

abbrev pub app_config_path : Text
app_config_path = codes "config/easynet.yaml"

abbrev pub client_state_path : Text
client_state_path = codes "config/client_state.yaml"

-- The contents of the files, by their paths.
abbrev pub Files : Type 0
Files = List (Text × Text)

-- A write goes well, or leaves the file as it was, or breaks off and leaves a part.
pub data Write : Type 0 where
  written not_opened : Write
  broken_off : Text → Write

-- What the calls that read, make the directory and write meet.
pub record FileCalls : Type 0 where
  pub read_ok : Bool
  pub create_dir_ok : Bool
  pub write : Write

abbrev pub all_well : FileCalls
all_well = record { read_ok = true; create_dir_ok = true; write = written }

-- The files behind a call, and its result.
pub record Done (T : Type 0) : Type 0 where
  pub files : Files
  pub result : Result T SettingsError

abbrev pub write_file : Files → Text → Text → Write → Done (Unit {0})
write_file files path content written = record { files = insert path content files; result = ok tt }
write_file files path content not_opened = record { files = files; result = err cannot_write }
write_file files path content (broken_off part) = record {
  files = insert path part files;
  result = err cannot_write;
}

-- `create_dir_all` of the parent, and `write`.
unfoldable pub put_file : FileCalls → Files → Text → Text → Done (Unit {0})
put_file calls files path content =
    if calls.create_dir_ok
    then write_file files path content calls.write
    else record { files = files; result = err cannot_create_dir }

abbrev pub apply_rule_set_paths : AppConfig → AppConfig
apply_rule_set_paths config = record config {
  rules = record config.rules { geoip_path = (config.rule_sets).geoip_path };
}

abbrev pub with_session : AppConfig → ClientState → AppConfig
with_session config state = record config {
  client = record config.client { session_id = state.session_id };
}

module _ (ips : IpFormat) (yaml : Yaml) where
  unfoldable pub save_to_file : FileCalls → Files → AppConfig → Text → Done (Unit {0})
  unfolding put_file
  save_to_file calls files config path =
      put_file calls files path (yaml.write_app (app_to_doc ips config))

  abbrev pub read_app_file : FileCalls → Text → Result AppConfig SettingsError
  read_app_file calls content =
      if calls.read_ok
      then (do d ← ok_or bad_yaml (yaml.read_app content); app_of_doc ips d)
      else err cannot_read

  -- The missing file is written with the defaults.
  abbrev pub load_found : FileCalls → Files → Text → Option Text → Done AppConfig
  load_found calls files path none =
      let saved = save_to_file calls files default_app path in
      record { files = saved.files; result = (do u ← saved.result; ok default_app) }
  load_found calls files path (some content) = record {
    files = files;
    result = read_app_file calls content;
  }

  unfoldable pub load_from_file : FileCalls → Files → Text → Done AppConfig
  unfolding save_to_file
  load_from_file calls files path = load_found calls files path (get path files)

  abbrev pub read_state_file : FileCalls → Option Text → Result ClientState SettingsError
  read_state_file calls none = ok default_client_state
  read_state_file calls (some content) =
      if calls.read_ok
      then (do
        d ← ok_or bad_yaml (yaml.read_state content)
        ok (record { session_id = or_default [] d }))
      else err cannot_read

  unfoldable pub load_client_state : FileCalls → Files → Result ClientState SettingsError
  load_client_state calls files = read_state_file calls (get client_state_path files)

  unfoldable pub save_client_state : FileCalls → Files → ClientState → Done (Unit {0})
  unfolding put_file
  save_client_state calls files state =
      put_file calls files client_state_path (yaml.write_state state.session_id)

  -- `AppConfig::load`. The calls are those on the configuration, then those on the state.
  unfoldable pub load : FileCalls → FileCalls → Files → Done AppConfig
  unfolding load_from_file load_client_state
  load calls state_calls files =
      let loaded = load_from_file calls files app_config_path in
      record {
        files = loaded.files;
        result = (do
          config ← loaded.result
          state ← load_client_state state_calls loaded.files
          ok (apply_rule_set_paths (with_session config state)));
      }

  -- `AppConfig::save`.
  unfoldable pub save : FileCalls → Files → AppConfig → Done (Unit {0})
  unfolding save_to_file
  save calls files config = save_to_file calls files config app_config_path
