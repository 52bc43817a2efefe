-- ===== src/Launch/Modes.antt =====
-- The mode that `main` of src/main.rs starts in, and the configuration that it runs with.
use easynet.Prelude.{◌≡◌, refl, ap, some, ok, err, All, if◌then◌else◌}
use easynet.Text.{codes, text_eq, Unicode}
use easynet.Settings.{AppConfig, default_app, default_server, IpFormat}
use easynet.Settings.Dns.{IsShown}
use easynet.Settings.Document.{Yaml, app_to_doc}
use easynet.Settings.Files.{Files, FileCalls, Done, all_well, load}
use easynet.Settings.Reload.{load-load}
use easynet.Launch.{invalid_mode, as_server, as_client, main}

-- The configuration is loaded twice, by `main` and by the mode's start. If the first load goes well,
-- the missing file written or not, and the calls of the second do too, then, where the defaults are
-- written as they are read, the mode is decided by the first load and runs with the very same
-- configuration: as a server or as a client if its mode is one of these words, in whatever
-- letters; any other mode is refused.
pub main-load :
    (uni : Unicode) (ips : IpFormat) (yaml : Yaml) (calls state_calls : FileCalls) (files : Files)
    (app : AppConfig)
    → All (IsShown ips) default_server.tun_dns_servers
    → yaml.read_app (yaml.write_app (app_to_doc ips default_app))
      ≡ some (app_to_doc ips default_app)
    → (load ips yaml calls state_calls files).result ≡ ok app
    → let mode = uni.to_lowercase (app.runtime).mode in
      main uni ips yaml calls state_calls all_well all_well files ≡ (
        if text_eq mode (codes "server")
        then ok (as_server app)
        else if text_eq mode (codes "client")
        then ok (as_client app)
        else err (invalid_mode mode))
unfolding main
main-load uni ips yaml calls state_calls files app shown back loaded =
    rw
      (
        loaded,
        ap (λ (d : Done AppConfig). d.result)
            (load-load ips yaml calls state_calls files app shown back loaded),
      )
      refl
