-- ===== src/Launch/Served.antt =====
-- Whether the web sockets that a server accepts are encrypted: `run_server_from_config` of
-- src/server.rs, `run_ws_server` and `accept` of src/transport/ws.rs.
use easynet.Prelude.{
  ◌≡◌, ◌≢◌, ◌↔◌, sym, ap, ◌∙◌, subst, Bool, true, false, Option, none, some, Result, ok, err, ◌>>=◌,
  guard, map_err, if◌then◌else◌, ok_inj, >>=-eq-ok,
}
use easynet.Text.{Text, codes, text_eq, text_eq_iff, Unicode}
use easynet.Net.{SocketAddr}
use easynet.Config.{RulesConfig}
use easynet.Engine.{RulesEngine}
use easynet.WebSocket.{WsError, not_accepted, ws_handshake_failed}
use easynet.WebSocket.Acceptor.{
  TlsFiles, Acceptor, create_tls_acceptor, AcceptCalls, Accepted, over_tls, accept_from, accept,
  ws_acceptor,
}
use easynet.Settings.{ServerConfig, AppConfig}
use easynet.Launch.{
  LaunchError, tls_panics, tun_not_created, not_bound, server_tun, Listening, tcp_server,
  udp_server, ws_server, ServerCalls, start_engine, run_tcp_server, run_udp_server, run_ws_server,
  run_server_from_config,
}

abbrev is_set : Option Acceptor → Bool
is_set none = false
is_set (some a) = true

ws_acceptor-is_set :
    (files : TlsFiles) (t cert key : Text) (a : Option Acceptor)
    → ws_acceptor files t cert key ≡ ok a
    → is_set a ≡ text_eq t (codes "wss")
unfolding ws_acceptor
ws_acceptor-is_set files t cert key a h = go (text_eq t (codes "wss")) h
  where
    go :
        (b : Bool)
        → (if b
            then (create_tls_acceptor files cert key >>= λ acceptor. ok (some acceptor))
            else ok none)
          ≡ ok a
        → is_set a ≡ b
    go false k = sym (ap is_set (ok_inj k))
    go true k =
        let (acceptor, made, same) =
          >>=-eq-ok (create_tls_acceptor files cert key) (λ acceptor. ok (some acceptor)) k in
        sym (ap is_set (ok_inj same))

accept-is_set :
    (calls : AcceptCalls) (a : Option Acceptor) (conn : Accepted)
    → accept calls a ≡ ok conn
    → conn.encrypted ≡ is_set a
unfolding accept
accept-is_set calls a conn h = go calls.peer a h
  where
    go :
        (peer : Option SocketAddr) (a : Option Acceptor)
        → accept_from calls a peer ≡ ok conn
        → conn.encrypted ≡ is_set a
    go none a k = cc
    go (some addr) none k =
        let (u, sound, same) =
          >>=-eq-ok (guard calls.ws_accept ws_handshake_failed)
            (λ v. ok (record { peer_addr = addr; encrypted = false })) k in
        sym (ap (λ (c : Accepted). c.encrypted) (ok_inj same))
    go (some addr) (some acceptor) k =
        let (e, encrypted, k') =
          >>=-eq-ok (over_tls calls (some acceptor))
            (λ e. guard calls.ws_accept ws_handshake_failed >>= λ v.
              ok (record { peer_addr = addr; encrypted = e }))
            k in
        let (u, sound, same) =
          >>=-eq-ok (guard calls.ws_accept ws_handshake_failed)
            (λ v. ok (record { peer_addr = addr; encrypted = e })) k' in
        let (u', accepted, same') =
          >>=-eq-ok (guard (calls.tls_accept acceptor) not_accepted) (λ v. ok true) encrypted in
        sym (ap (λ (c : Accepted). c.encrypted) (ok_inj same)) ∙ sym (ok_inj same')

-- The arms of the transports, of which those of web sockets alone give a web socket server.
picked :
    {tcp udp ws : Result Listening LaunchError} {l : Listening} (e : LaunchError) (b c d f : Bool)
    → tcp ≢ ok l
    → udp ≢ ok l
    → (if b then tcp else if c then udp else if d then ws else if f then ws else err e) ≡ ok l
    → ws ≡ ok l
picked e true c d f no_tcp no_udp h = absurd (no_tcp h)
picked e false true d f no_tcp no_udp h = absurd (no_udp h)
picked e false false true f no_tcp no_udp h = h
picked e false false false true no_tcp no_udp h = h
picked e false false false false no_tcp no_udp h = cc

ws_server_from :
    (uni : Unicode) (calls : ServerCalls) (app : AppConfig) (engine : RulesEngine)
    (a : Option Acceptor)
    → run_server_from_config uni calls app ≡ ok (ws_server engine a)
    → run_ws_server calls app.server app.rules ≡ ok (ws_server engine a)
unfolding run_server_from_config
ws_server_from uni calls app engine a h =
    let (u, made, k) =
      >>=-eq-ok (guard (calls.create_tun_device (server_tun app.server)) tun_not_created) _ h in
    picked _ _ _ _ _ no_tcp no_udp k
  where
    no_tcp : run_tcp_server calls app.server app.rules ≢ ok (ws_server engine a)
    no_tcp k =
        let (started, loads, same) =
          >>=-eq-ok (start_engine calls app.rules) (λ e. ok (tcp_server e)) k in
        cc

    no_udp : run_udp_server calls app.server app.rules ≢ ok (ws_server engine a)
    no_udp k =
        let (u, bound, k') =
          >>=-eq-ok (guard (calls.bind_udp (app.server).bind_addr) not_bound)
            (λ v. start_engine calls app.rules >>= λ e. ok (udp_server e)) k in
        let (started, loads, same) =
          >>=-eq-ok (start_engine calls app.rules) (λ e. ok (udp_server e)) k' in
        cc

acceptor_inj : {e e' : RulesEngine} {a b : Option Acceptor} → ws_server e a ≡ ws_server e' b → a ≡ b
acceptor_inj h = cc

map_err-ok :
    {T : Type 0} (r : Result T WsError) {t : T}
    → ◌≡◌ {A = Result T LaunchError} (map_err tls_panics r) (ok t)
    → r ≡ ok t
map_err-ok (ok s) h = ap ok (ok_inj h)
map_err-ok (err e) h = cc

ws_server-acceptor :
    (calls : ServerCalls) (config : ServerConfig) (rules : RulesConfig) (engine : RulesEngine)
    (a : Option Acceptor)
    → run_ws_server calls config rules ≡ ok (ws_server engine a)
    → ws_acceptor calls.tls_files config.transport_type config.cert_path config.key_path ≡ ok a
ws_server-acceptor calls config rules engine a h =
    let chosen =
      ws_acceptor calls.tls_files config.transport_type config.cert_path config.key_path in
    let (e, loads, h') =
      >>=-eq-ok (start_engine calls rules)
        (λ e. map_err tls_panics chosen >>= λ b. ok (ws_server e b)) h in
    let (b, made, same) = >>=-eq-ok (map_err tls_panics chosen) (λ b. ok (ws_server e b)) h' in
    subst (λ c. chosen ≡ ok c) (acceptor_inj (ok_inj same)) (map_err-ok chosen made)

-- An accepted web socket of a server that has started is encrypted exactly if its transport type is
-- written "wss", in small letters.
pub accepted_encrypted_iff :
    (uni : Unicode) (calls : ServerCalls) (app : AppConfig) (engine : RulesEngine)
    (a : Option Acceptor) (ac : AcceptCalls) (conn : Accepted)
    → run_server_from_config uni calls app ≡ ok (ws_server engine a)
    → accept ac a ≡ ok conn
    → (conn.encrypted ≡ true) ↔ ((app.server).transport_type ≡ codes "wss")
accepted_encrypted_iff uni calls app engine a ac conn started accepted =
    let t = (app.server).transport_type in
    let chosen =
      ws_server-acceptor calls app.server app.rules engine a
        (ws_server_from uni calls app engine a started) in
    let e : conn.encrypted ≡ text_eq t (codes "wss") =
      accept-is_set ac a conn accepted
      ∙ ws_acceptor-is_set calls.tls_files t (app.server).cert_path (app.server).key_path a
          chosen in
    subst (λ b. (b ≡ true) ↔ (t ≡ codes "wss")) (sym e) (text_eq_iff t (codes "wss"))
