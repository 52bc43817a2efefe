-- ===== src/Launch/Encryption.antt =====
-- Whether the web sockets of a server and of a client are encrypted: src/server.rs, src/client.rs and
-- src/transport/ws.rs together.
use easynet.Prelude.{
  ◌≡◌, ◌≢◌, ◌↔◌, ◌⊎◌, sym, ap, ◌∙◌, subst, arith, Bool, true, false, Option, ok, Bool-cases, inl,
  inr,
}
use easynet.Text.{Text, codes, text_eq, text_eq_iff, to_ascii_lowercase, Unicode}
use easynet.Engine.{RulesEngine}
use easynet.Client
use easynet.Client.{ClientError, Target, ws_to, choose_target}
use easynet.WebSocket.{UrlParser, ConnectCalls, WsTransport, connect}
use easynet.WebSocket.Acceptor.{Acceptor, AcceptCalls, Accepted, accept}
use easynet.Settings.{AppConfig}
use easynet.Launch.{ws_server, ServerCalls, run_server_from_config}
use easynet.Launch.Served.{accepted_encrypted_iff}
use easynet.Launch.Dialled.{ParsesAddress, connected_encrypted}

lowercase_wss : (uni : Unicode) → uni.to_lowercase (codes "wss") ≡ codes "wss"
unfolding to_ascii_lowercase
lowercase_wss uni = uni.to_lowercase_ascii (codes "wss") (omega arith)

agreement :
    (uni : Unicode) (t : Text) (b c : Bool)
    → (b ≡ true) ↔ (t ≡ codes "wss")
    → (c ≡ true) ↔ (uni.to_lowercase t ≡ codes "wss")
    → (b ≡ c) ↔ ((t ≡ codes "wss") ⊎ (uni.to_lowercase t ≢ codes "wss"))
agreement uni t b c hb hc = (λ e. forth e (Bool-cases b), back)
  where
    forth :
        b ≡ c → (b ≡ true) ⊎ (b ≡ false) → (t ≡ codes "wss") ⊎ (uni.to_lowercase t ≢ codes "wss")
    forth e (inl k) = inl (hb.0 k)
    forth e (inr k) = inr (λ l. let h : false ≡ true = sym k ∙ e ∙ hc.1 l in cc)

    back : (t ≡ codes "wss") ⊎ (uni.to_lowercase t ≢ codes "wss") → b ≡ c
    back (inl k) = hb.1 k ∙ sym (hc.1 (ap (λ u. uni.to_lowercase u) k ∙ lowercase_wss uni))
    back (inr k) =
        let small : b ≡ true → c ≡ true =
          λ e. hc.1 (ap (λ u. uni.to_lowercase u) (hb.0 e) ∙ lowercase_wss uni) in
        let never : c ≡ true → ⊥ = λ e. k (hc.0 e) in
        (elim (Bool-cases b) [
          | inl e ↦ absurd (never (small e))
          | inr e ↦ elim (Bool-cases c) [ inl d ↦ absurd (never d) | inr d ↦ e ∙ sym d ]
        ])

-- A server that has started and a client, with the same transport type, of which web sockets are
-- up, where the crate parses the client's URLs as URLs of their schemes: the server's is encrypted
-- exactly if the type is written "wss", and the client's exactly if the type in small letters is
-- "wss". So they agree exactly if the type is written "wss" or is not "wss" in small letters either,
-- and with any other writing of "wss" the server speaks plainly and the client TLS.
pub encryption_agrees_iff :
    (uni : Unicode) (calls : ServerCalls) (app : AppConfig) (engine : RulesEngine)
    (a : Option Acceptor) (ac : AcceptCalls) (conn : Accepted) (config : Client.ClientConfig)
    (parse : UrlParser) (met : ConnectCalls) (url : Text) (tr : WsTransport)
    → config.transport_type ≡ (app.server).transport_type
    → ParsesAddress parse config.server_addr
    → run_server_from_config uni calls app ≡ ok (ws_server engine a)
    → accept ac a ≡ ok conn
    → choose_target uni config ≡ ok (ws_to url)
    → connect parse met url ≡ ok tr
    → let t = (app.server).transport_type in
      ((conn.encrypted ≡ true) ↔ (t ≡ codes "wss"))
      × ((tr.encrypted ≡ true) ↔ (uni.to_lowercase t ≡ codes "wss"))
      × ((conn.encrypted ≡ tr.encrypted) ↔ ((t ≡ codes "wss") ⊎ (uni.to_lowercase t ≢ codes "wss")))
      × (t ≢ codes "wss"
          → uni.to_lowercase t ≡ codes "wss"
          → (conn.encrypted ≡ false) × (tr.encrypted ≡ true))
encryption_agrees_iff uni calls app engine a ac conn config parse met url tr same parses started
      accepted chosen connected =
    let t = (app.server).transport_type in
    let e =
      connected_encrypted uni config parse met url tr parses chosen connected
      ∙ ap (λ u. text_eq (uni.to_lowercase u) (codes "wss")) same in
    let serves = accepted_encrypted_iff uni calls app engine a ac conn started accepted in
    let dials =
      subst (λ b. (b ≡ true) ↔ (uni.to_lowercase t ≡ codes "wss")) (sym e)
        (text_eq_iff (uni.to_lowercase t) (codes "wss")) in
    (
      serves,
      dials,
      agreement uni t conn.encrypted tr.encrypted serves dials,
      λ other small. (
        elim (Bool-cases conn.encrypted) [
          | inl tls ↦ absurd (other (serves.0 tls))
          | inr plain ↦ plain
        ],
        dials.1 small,
      ),
    )
