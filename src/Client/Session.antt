-- ===== src/Client/Session.antt =====
-- The handshake of src/client.rs with the server of src/server.rs.
use easynet.Prelude.{
  ℕ, ◌≡◌, ◌≢◌, refl, ap, sym, ◌∙◌, true, false, Option, none, some, [], ◌∷◌, ok, err, Bool-cases,
  inl, inr,
}
use easynet.Text.{Text, text_eq, text_eq_iff}
use easynet.Assoc.{get}
use easynet.Net.{SocketAddr}
use easynet.Message.{Message, Handshake, handshake, handshake_message}
use easynet.Server.{
  ServerState, ServerConfig, Surroundings, Outcome, Choice, text_key, validate_token,
  choose_session, admits, acceptance, handle_handshake,
}
use easynet.Server.Handshake.{stored, handle_handshake_accepted, handle_handshake_wrong_token}
use easynet.Server.Lifetime.{provided, handle_message, Handled}
use easynet.Client.{ClientConfig, invalid_token, answered, HandshakeCalls, request, handshake_async}

-- Every call goes well, and the message comes back.
abbrev pub replied : Message → HandshakeCalls
replied m = record { send_ok = true; reply = answered m; load_ok = true; save_ok = true }

-- The server's answer to the client's request.
abbrev pub serve : Surroundings → ServerState → SocketAddr → ℕ → ClientConfig → Handled
serve w s peer tx config = handle_message w s peer peer tx (some (handshake (request config)))

pub own_token : (sc : ServerConfig) (t : Text) → sc.token ≡ t → admits sc (provided t) ≡ true
unfolding validate_token
own_token sc [] same = refl
own_token sc (c ∷ t) same = rw (same, (text_eq_iff (c ∷ t) (c ∷ t)).1 refl)

accepted :
    (sc : ServerConfig) (config : ClientConfig) (c : Choice)
    → sc.token ≡ config.token
    → let got = handshake_async config (replied (acceptance sc c)) in
      (got.result ≡ ok c.tun_config) × ((got.config).session_id ≡ c.session_id)
unfolding handshake_async
accepted sc config c same =
    rw ((text_eq_iff sc.token config.token).1 same)
      (elim (Bool-cases (text_eq c.session_id config.session_id)) [
        | inl known ↦ rw known (refl, sym ((text_eq_iff _ _).0 known))
        | inr fresh ↦ rw fresh (refl, refl)
      ])

-- A client and a server with the same token, which may be empty, where the server's configuration
-- loads and its reply can be sent: the server sends one reply, which names the session that it
-- chose, and it stores the client under it; the client, whose calls go well, takes that reply, and
-- ends with the session's id and the TUN configuration that the server stored.
pub handshake_succeeds :
    (w : Surroundings) (sc : ServerConfig) (s : ServerState) (peer : SocketAddr) (tx : ℕ)
    (config : ClientConfig)
    → w.config ≡ some sc
    → w.send_ok ≡ true
    → sc.token ≡ config.token
    → let out = serve w s peer tx config in
      (c : Choice) × (out.sent ≡ (peer, acceptance sc c) ∷ [])
      × (get c.session_id (out.state).sessions ≡ some (stored w peer tx c))
      × ((handshake_async config (replied (acceptance sc c))).result ≡ ok c.tun_config)
      × (((handshake_async config (replied (acceptance sc c))).config).session_id ≡ c.session_id)
unfolding handle_message
handshake_succeeds w sc s peer tx config loaded sent same =
    let c = choose_session w sc s (provided config.session_id) in
    let (replies, stores) =
      handle_handshake_accepted w sc s peer tx (provided config.session_id) (provided config.token)
        loaded sent (own_token sc config.token same) in
    let (takes, adopts) = accepted sc config c same in (c, replies, stores, takes, adopts)

refused :
    (config : ClientConfig) (h : Handshake)
    → h.token ≢ config.token
    → (handshake_async config (replied (handshake_message h))).result ≡ err invalid_token
unfolding handshake_async
refused config h wrong = rw other
  where
    other : text_eq h.token config.token ≡ false
    other = elim (Bool-cases (text_eq h.token config.token)) [
      | inl e ↦ absurd (wrong ((text_eq_iff _ _).0 e))
      | inr e ↦ e
    ]

no_server_token : (sc : ServerConfig) (t : Text) → sc.token ≡ [] → admits sc (some t) ≡ true
unfolding validate_token
no_server_token sc t none_set = rw none_set

-- Whatever the token of the client, the reply to another token holds a third or the server's.
reply_to :
    (w : Surroundings) (sc : ServerConfig) (s : ServerState) (peer : SocketAddr) (tx : ℕ)
    (id : Option Text) (t u : Text)
    → w.config ≡ some sc
    → w.send_ok ≡ true
    → sc.token ≡ u
    → u ≢ t
    → (h : Handshake) × ((handle_handshake w s peer tx id (provided t)).sent
        ≡ (peer, handshake_message h) ∷ [])
      × (h.token ≢ t)
reply_to w sc s peer tx id [] u loaded sent set wrong =
    (_, (handle_handshake_accepted w sc s peer tx id none loaded sent refl).0, rw set wrong)
reply_to w sc s peer tx id (c ∷ t) [] loaded sent set wrong = (
  _,
  (handle_handshake_accepted w sc s peer tx id (some (c ∷ t)) loaded sent
      (no_server_token sc (c ∷ t) set)).0,
  rw set wrong,
)
reply_to w sc s peer tx id (c ∷ t) (d ∷ u) loaded sent set wrong = (
  _,
  ap (λ (o : Outcome). o.sent)
      (handle_handshake_wrong_token w sc s peer tx id (c ∷ t) loaded (λ e. cc)
        (λ e. wrong (sym (e ∙ set)))),
  λ e. cc,
)

-- A client whose token is not that of a server whose configuration loads and whose reply can be
-- sent ends its handshake with the error of a wrong token, on the one reply that the server sends.
-- This holds too where the server admits it, because it brings no token or the server has none.
pub handshake_fails :
    (w : Surroundings) (sc : ServerConfig) (s : ServerState) (peer : SocketAddr) (tx : ℕ)
    (config : ClientConfig)
    → w.config ≡ some sc
    → w.send_ok ≡ true
    → sc.token ≢ config.token
    → (m : Message) × ((serve w s peer tx config).sent ≡ (peer, m) ∷ [])
      × ((handshake_async config (replied m)).result ≡ err invalid_token)
unfolding handle_message
handshake_fails w sc s peer tx config loaded sent wrong =
    let (h, replies, other) =
      reply_to w sc s peer tx (provided config.session_id) config.token sc.token loaded sent refl
        wrong in
    (handshake_message h, replies, refused config h other)
