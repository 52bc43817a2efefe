-- ===== src/WebSocket/Acceptor.antt =====
-- The server's side of TLS in src/transport/ws.rs: `create_tls_acceptor`, `accept`, and the choice of
-- `run_ws_server` between plain and encrypted connections.
use easynet.Prelude.{
  Bool, true, false, Option, none, some, ◌||◌, not, Result, ok, err, ◌>>=◌, ◌>>◌, guard,
  if◌then◌else◌,
}
use easynet.Text.{Text, codes, text_eq}
use easynet.Net.{SocketAddr}
use easynet.WebSocket.{
  WsError, no_certificate, unreadable_certificate, unreadable_key, bad_identity, no_acceptor,
  not_connected, not_accepted, ws_handshake_failed,
}

-- The files, and what `native_tls` makes of them.
pub record TlsFiles : Type 0 where
  pub exists : Text → Bool
  pub readable : Text → Bool
  pub from_pkcs8 : Text → Text → Bool
  pub new_acceptor : Text → Text → Bool

-- An acceptor, by the paths of its certificate and its key.
pub record Acceptor : Type 0 where
  pub cert_path : Text
  pub key_path : Text

unfoldable pub resolve_path : TlsFiles → Text → Text → Text
resolve_path files path default = if files.exists path then path else default

unfoldable pub create_tls_acceptor : TlsFiles → Text → Text → Result Acceptor WsError
unfolding resolve_path
create_tls_acceptor files cert key =
    let cert_path = resolve_path files cert (codes "certs/server-cert.pem") in
    let key_path = resolve_path files key (codes "certs/server-key.pem") in
    guard (not (not (files.exists cert_path) || not (files.exists key_path))) no_certificate
    >> guard (files.readable cert_path) unreadable_certificate
    >> guard (files.readable key_path) unreadable_key
    >> guard (files.from_pkcs8 cert_path key_path) bad_identity
    >> guard (files.new_acceptor cert_path key_path) no_acceptor
    >> ok (record { cert_path = cert_path; key_path = key_path })

-- The outcomes of the calls of `accept`.
pub record AcceptCalls : Type 0 where
  pub peer : Option SocketAddr
  pub tls_accept : Acceptor → Bool
  pub ws_accept : Bool

-- A connection: its peer, and whether it is encrypted.
pub record Accepted : Type 0 where
  pub peer_addr : SocketAddr
  pub encrypted : Bool

abbrev pub over_tls : AcceptCalls → Option Acceptor → Result Bool WsError
over_tls calls none = ok false
over_tls calls (some acceptor) = do guard (calls.tls_accept acceptor) not_accepted; ok true

abbrev pub accept_from : AcceptCalls → Option Acceptor → Option SocketAddr → Result Accepted WsError
accept_from calls tls_acceptor none = err not_connected
accept_from calls tls_acceptor (some addr) = do
  encrypted ← over_tls calls tls_acceptor
  guard calls.ws_accept ws_handshake_failed
  ok (record { peer_addr = addr; encrypted = encrypted })

unfoldable pub accept : AcceptCalls → Option Acceptor → Result Accepted WsError
accept calls tls_acceptor = accept_from calls tls_acceptor calls.peer

-- The acceptor of `run_ws_server`, whose `unwrap` panics on an error.
unfoldable pub ws_acceptor : TlsFiles → Text → Text → Text → Result (Option Acceptor) WsError
unfolding create_tls_acceptor text_eq
ws_acceptor files transport_type cert key =
    if text_eq transport_type (codes "wss")
    then (do acceptor ← create_tls_acceptor files cert key; ok (some acceptor))
    else ok none
