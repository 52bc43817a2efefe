-- ===== src/Settings/Serving/Tests.antt =====
-- Handshakes over concrete files.
use easynet.Prelude.{◌≡◌, refl, true, none, some, [], ◌∷◌, err}
use easynet.Text.{codes, text_eq}
use easynet.Assoc
use easynet.Net.{socket_addr, v4, octets, SocketAddr}
use easynet.Server.{Surroundings, initial, text_key, refusal, handle_handshake}
use easynet.Settings.{AppConfig, default_app, default_server, default_client_state, bad_yaml}
use easynet.Settings.Document.{Yaml, app_to_doc}
use easynet.Settings.Files.{
  Files, all_well, app_config_path, client_state_path, load_client_state, save,
}
use easynet.Settings.Tests.{ips, yaml, shown}
use easynet.Settings.Serving.{reading, saved_token_decides, state_file_silences}

abbrev guarded : AppConfig
guarded = record default_app { server = record default_server { token = codes "secret" } }

abbrev guarded_yaml : Yaml
guarded_yaml = yaml (app_to_doc ips guarded)

abbrev around : Surroundings
around = record {
  config = none;
  show_v6 = λ n. [];
  fresh_id = codes "n";
  now = 0;
  send_ok = true;
  forward_ok = true;
}

abbrev peer : SocketAddr
peer = socket_addr (v4 (octets 192 0 2 7)) 4000

saved_token_decides_example :
    handle_handshake
      (reading ips guarded_yaml all_well all_well
        (save ips guarded_yaml all_well [] guarded).files
        around)
      initial
      peer
      1
      none
      (some (codes "guess"))
    ≡ record { state = initial; sent = (peer, refusal) ∷ [] }
unfolding text_eq load_client_state Assoc.get
saved_token_decides_example =
    saved_token_decides ips guarded_yaml [] guarded default_client_state around initial peer 1 none
      (codes "guess") tt shown refl refl (λ e. cc) (λ e. cc)

-- The state file holds what does not parse.
abbrev torn_yaml : Yaml
torn_yaml = record guarded_yaml { read_state = λ t. none }

abbrev torn : Files
torn = (app_config_path, codes "app") ∷ (client_state_path, codes "{") ∷ []

torn_state : load_client_state ips torn_yaml all_well torn ≡ err bad_yaml
unfolding load_client_state text_eq Assoc.get
torn_state = refl

state_file_silences_example :
    handle_handshake (reading ips torn_yaml all_well all_well torn around) initial peer 1 none none
    ≡ record { state = initial; sent = [] }
unfolding text_eq Assoc.get
state_file_silences_example =
    state_file_silences ips torn_yaml all_well all_well torn (codes "app") bad_yaml around initial
      peer 1 none none refl torn_state
