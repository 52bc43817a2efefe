-- ===== src/Launch/Dialled.antt =====
-- Whether the web socket that a client opens is encrypted: `run_client_from_config` of src/client.rs,
-- `connect` of src/transport/ws.rs.
use easynet.Prelude.{
  ℕ, ◌≡◌, ◌≢◌, ◌⊎◌, refl, sym, ap, ◌∙◌, Bool, true, false, some, ◌++◌, ok, err, ◌>>◌, guard,
  if◌then◌else◌, inl, inr, ok_inj, >>=-eq-ok,
}
use easynet.Text.{Text, codes, text_eq, text_eq_iff, Unicode}
use easynet.Client
use easynet.Client.{ClientError, Target, ws_to, choose_target}
use easynet.WebSocket.{
  not_connected, ws_handshake_failed, UrlParser, ConnectCalls, WsTransport, or_local, parse_url,
  connect, wrap_with_tls,
}

-- The URLs that a client is given are parsed as URLs of their schemes.
pub record ParsesAddress (parse : UrlParser) (addr : Text) : Type 0 where
  pub host : Text
  pub port : ℕ
  pub plain_url :
      parse (codes "ws://" ++ addr)
      ≡ some
          (record { host_str = some host; port_or_known_default = some port; scheme = codes "ws" })
  pub tls_url :
      parse (codes "wss://" ++ addr)
      ≡ some
          (record { host_str = some host; port_or_known_default = some port; scheme = codes "wss" })

connect-scheme :
    (parse : UrlParser) (calls : ConnectCalls) (url host : Text) (port : ℕ) (scheme : Text)
    (tr : WsTransport)
    → parse url
      ≡ some (record { host_str = some host; port_or_known_default = some port; scheme = scheme })
    → connect parse calls url ≡ ok tr
    → tr.encrypted ≡ text_eq scheme (codes "wss")
unfolding connect parse_url
connect-scheme parse calls url host port scheme tr parsed h =
    let b = text_eq scheme (codes "wss") in
    let ready = ok (record {
      host = host;
      port = port;
      peer_addr = or_local (calls.parse_addr host port);
      encrypted = b;
    }) in
    let k : (guard calls.tcp_connect not_connected
          >> ((if b then wrap_with_tls calls else ok tt)
              >> (guard calls.ws_handshake ws_handshake_failed >> ready)))
        ≡ ok tr =
      rw parsed at h in
    let (u, k1, k2) = >>=-eq-ok (guard calls.tcp_connect not_connected) _ k in
    let (v, k3, k4) = >>=-eq-ok (if b then wrap_with_tls calls else ok tt) _ k2 in
    let (w, k5, k6) = >>=-eq-ok (guard calls.ws_handshake ws_handshake_failed) _ k4 in
    sym (ap (λ (t : WsTransport). t.encrypted) (ok_inj k6))

ws_to_inj : {t u : Text} → ws_to t ≡ ws_to u → t ≡ u
ws_to_inj e = cc

client_picks :
    (e : ClientError) {tcp udp : Target} (plain tls url : Text) (b c d f : Bool)
    → ((u : Text) → tcp ≢ ws_to u)
    → ((u : Text) → udp ≢ ws_to u)
    → (if b
        then ok tcp
        else if c
        then ok udp
        else if d
        then ok (ws_to plain)
        else if f
        then ok (ws_to tls)
        else err e)
      ≡ ok (ws_to url)
    → ((d ≡ true) × (url ≡ plain)) ⊎ ((f ≡ true) × (url ≡ tls))
client_picks e plain tls url true c d f no_tcp no_udp h = absurd (no_tcp url (ok_inj h))
client_picks e plain tls url false true d f no_tcp no_udp h = absurd (no_udp url (ok_inj h))
client_picks e plain tls url false false true f no_tcp no_udp h =
    inl (refl, sym (ws_to_inj (ok_inj h)))
client_picks e plain tls url false false false true no_tcp no_udp h =
    inr (refl, sym (ws_to_inj (ok_inj h)))
client_picks e plain tls url false false false false no_tcp no_udp h = cc

-- A client's web socket is encrypted exactly if its transport type, in small letters, is "wss".
pub connected_encrypted :
    (uni : Unicode) (config : Client.ClientConfig) (parse : UrlParser) (calls : ConnectCalls)
    (url : Text) (tr : WsTransport)
    → ParsesAddress parse config.server_addr
    → choose_target uni config ≡ ok (ws_to url)
    → connect parse calls url ≡ ok tr
    → tr.encrypted ≡ text_eq (uni.to_lowercase config.transport_type) (codes "wss")
unfolding choose_target text_eq
connected_encrypted uni config parse calls url tr parses chosen h =
    let kind = uni.to_lowercase config.transport_type in
    elim (client_picks _ (codes "ws://" ++ config.server_addr)
      (codes "wss://" ++ config.server_addr) url (text_eq kind (codes "tcp"))
      (text_eq kind (codes "udp")) (text_eq kind (codes "ws")) (text_eq kind (codes "wss"))
      (λ u e. cc) (λ u e. cc) chosen) [
        | inl (plain, same) ↦
            connect-scheme parse calls url parses.host parses.port (codes "ws") tr
              (ap parse same ∙ parses.plain_url) h
            ∙ ap (λ t. text_eq t (codes "wss")) (sym ((text_eq_iff kind (codes "ws")).0 plain))
        | inr (tls, same) ↦
            connect-scheme parse calls url parses.host parses.port (codes "wss") tr
              (ap parse same ∙ parses.tls_url) h
            ∙ ap (λ t. text_eq t (codes "wss")) (sym ((text_eq_iff kind (codes "wss")).0 tls))
      ]
