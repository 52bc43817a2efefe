-- ===== src/Server/Handshake.antt =====
-- `handle_handshake` of src/server.rs: who is let in, and with which session.
use easynet.Prelude.{
  ℕ, ◌+◌, ◌%◌, ◌^◌, ◌≡◌, ◌≢◌, refl, ap, ◌∙◌, true, false, Option, none, some, [], ◌∷◌, arith,
  if◌then◌else◌, is_empty_of_ne,
}
use easynet.Text.{Text, text_eq, text_eq_iff}
use easynet.Assoc.{get, get-insert}
use easynet.Net.{SocketAddr}
use easynet.Server.{
  Client, ServerState, ServerConfig, Surroundings, Choice, text_key, validate_token, client_address,
  build_tun_config, new_session, known_or_new, choose_session, refusal, acceptance, answer, admits,
  handshake_with, handle_handshake,
}

validate_token_wrong :
    (token server_token : Text)
    → server_token ≢ []
    → token ≢ server_token
    → validate_token token server_token ≡ false
unfolding validate_token
validate_token_wrong token server_token some_token wrong =
    ground (arith, is_empty_of_ne server_token some_token, text_eq_iff token server_token)

-- With the configuration loaded and a server token set, a handshake that brings another token
-- changes nothing and is answered by a handshake without token, session or TUN configuration.
pub handle_handshake_wrong_token :
    (w : Surroundings) (config : ServerConfig) (s : ServerState) (src : SocketAddr) (tx : ℕ)
    (id : Option Text) (token : Text)
    → w.config ≡ some config
    → config.token ≢ []
    → token ≢ config.token
    → handle_handshake w s src tx id (some token) ≡ record { state = s; sent = (src, refusal) ∷ [] }
unfolding handle_handshake
handle_handshake_wrong_token w config s src tx id token loaded some_token wrong =
    ap (λ o. handshake_with w o s src tx id (some token)) loaded
    ∙ rw (validate_token_wrong token config.token some_token wrong)

-- The session that is stored under an accepted handshake.
abbrev pub stored : Surroundings → SocketAddr → ℕ → Choice → Client
stored w src tx c = record {
  addr = src;
  virtual_ip = c.virtual_ip;
  tx = tx;
  tun_config = c.tun_config;
  last_seen = w.now;
}

answer_sessions :
    (w : Surroundings) (config : ServerConfig) (src : SocketAddr) (tx : ℕ) (c : Choice) (j : Text)
    → w.send_ok ≡ true
    → get j ((answer w config src tx c).state).sessions
      ≡ (if text_eq c.session_id j then some (stored w src tx c) else get j (c.state).sessions)
unfolding answer
answer_sessions w config src tx c j sent =
    rw sent (get-insert c.session_id j (stored w src tx c) (c.state).sessions)

answer_counter :
    (w : Surroundings) (config : ServerConfig) (src : SocketAddr) (tx : ℕ) (c : Choice)
    → ((answer w config src tx c).state).next_client_id ≡ (c.state).next_client_id
unfolding answer
answer_counter w config src tx c = ground arith

-- An accepted handshake is the answer with the session chosen.
pub handle_handshake_admitted :
    (w : Surroundings) (config : ServerConfig) (s : ServerState) (src : SocketAddr) (tx : ℕ)
    (id token : Option Text)
    → w.config ≡ some config
    → admits config token ≡ true
    → handle_handshake w s src tx id token ≡ answer w config src tx (choose_session w config s id)
unfolding handle_handshake
handle_handshake_admitted w config s src tx id token loaded good =
    ap (λ o. handshake_with w o s src tx id token) loaded ∙ rw good

-- The reply and the session of an accepted handshake.
pub handle_handshake_accepted :
    (w : Surroundings) (config : ServerConfig) (s : ServerState) (src : SocketAddr) (tx : ℕ)
    (id token : Option Text)
    → w.config ≡ some config
    → w.send_ok ≡ true
    → admits config token ≡ true
    → let out = handle_handshake w s src tx id token in
      let c = choose_session w config s id in
      (out.sent ≡ (src, acceptance config c) ∷ [])
      × (get c.session_id (out.state).sessions ≡ some (stored w src tx c))
handle_handshake_accepted w config s src tx id token loaded sent good =
    rw (handle_handshake_admitted w config s src tx id token loaded good) (replied, found)
  where
    c : Choice
    c = choose_session w config s id

    replied : (answer w config src tx c).sent ≡ (src, acceptance config c) ∷ []
    replied = unfold answer in refl

    found : get c.session_id ((answer w config src tx c).state).sessions ≡ some (stored w src tx c)
    found =
        answer_sessions w config src tx c c.session_id sent
        ∙ rw ((text_eq_iff c.session_id c.session_id).1 refl)

-- With the configuration loaded and a reply that can be sent, a handshake without a token is
-- accepted whatever token the server has set: the reply goes to the peer and holds the server's
-- own token, and a session for the peer is stored under the id that the reply names.
pub handle_handshake_no_token :
    (w : Surroundings) (config : ServerConfig) (s : ServerState) (src : SocketAddr) (tx : ℕ)
    (id : Option Text)
    → w.config ≡ some config
    → w.send_ok ≡ true
    → let out = handle_handshake w s src tx id none in
      let c = choose_session w config s id in
      (out.sent ≡ (src, acceptance config c) ∷ [])
      × (get c.session_id (out.state).sessions ≡ some (stored w src tx c))
handle_handshake_no_token w config s src tx id loaded sent =
    handle_handshake_accepted w config s src tx id none loaded sent refl

-- With the configuration loaded, a token that is admitted and a reply that can be sent, a client
-- that names a session of the server gets that session back: the address and the TUN configuration
-- stay, the peer, its channel and the time of contact are new, no address is taken, no other
-- session changes, and the reply names the session and its configuration.
pub handle_handshake_reconnect :
    (w : Surroundings) (config : ServerConfig) (s : ServerState) (src : SocketAddr) (tx : ℕ)
    (id : Text) (token : Option Text) (client : Client) (j : Text)
    → w.config ≡ some config
    → w.send_ok ≡ true
    → admits config token ≡ true
    → get id s.sessions ≡ some client
    → let out = handle_handshake w s src tx (some id) token in
      (get j (out.state).sessions ≡ (
        if text_eq id j
        then some (record client { addr = src; tx = tx; last_seen = w.now })
        else get j s.sessions))
      × ((out.state).next_client_id ≡ s.next_client_id)
      × (out.sent
          ≡ (
            src,
            acceptance config (record {
              session_id = id;
              virtual_ip = client.virtual_ip;
              tun_config = client.tun_config;
              state = s;
            }),
          )
            ∷ [])
unfolding choose_session
handle_handshake_reconnect w config s src tx id token client j loaded sent good known =
    rw
      (
        handle_handshake_admitted w config s src tx (some id) token loaded good,
        choose_session,
        known,
      )
      (
        answer_sessions w config src tx c j sent,
        answer_counter w config src tx c,
        unfold answer in refl,
      )
  where
    c : Choice
    c = known_or_new w config s id (some client)

-- No session is named, or one that the server does not hold.
abbrev pub IsUnknown : ServerState → Option Text → Type 0
IsUnknown s none = Unit
IsUnknown s (some id) = get id s.sessions ≡ none

choose_unknown :
    (w : Surroundings) (config : ServerConfig) (s : ServerState) (id : Option Text)
    → IsUnknown s id
    → choose_session w config s id ≡ new_session w config s
unfolding choose_session
choose_unknown w config s none u = refl
choose_unknown w config s (some id) u = rw u

-- With the configuration loaded, a token that is admitted and a reply that can be sent, a client
-- that names no session, or one that the server does not hold, gets the fresh id, the next address
-- and the configuration built for it; the counter goes on by one, modulo 2^32, and no other
-- session changes.
pub handle_handshake_new :
    (w : Surroundings) (config : ServerConfig) (s : ServerState) (src : SocketAddr) (tx : ℕ)
    (id token : Option Text) (j : Text)
    → w.config ≡ some config
    → w.send_ok ≡ true
    → admits config token ≡ true
    → IsUnknown s id
    → let out = handle_handshake w s src tx id token in
      let ip = client_address s.next_client_id in
      (get j (out.state).sessions ≡ (
        if text_eq w.fresh_id j
        then some (record {
          addr = src;
          virtual_ip = ip;
          tx = tx;
          tun_config = build_tun_config w.show_v6 config ip;
          last_seen = w.now;
        })
        else get j s.sessions))
      × ((out.state).next_client_id ≡ (s.next_client_id + 1) % 2 ^ 32)
unfolding new_session
handle_handshake_new w config s src tx id token j loaded sent good fresh =
    rw
      (
        handle_handshake_admitted w config s src tx id token loaded good,
        choose_unknown w config s id fresh,
      )
      (
        answer_sessions w config src tx (new_session w config s) j sent,
        answer_counter w config src tx (new_session w config s),
      )
