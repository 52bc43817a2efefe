-- ===== src/Server/Collision.antt =====
-- The addresses of src/server.rs once the counter has gone round its last eight bits.
use easynet.Prelude.{
  ℕ, ◌+◌, ◌≡◌, ◌≢◌, refl, sym, ap, ◌∙◌, true, false, Option, some, Bool-cases, inl, inr,
}
use easynet.Text.{Text, text_eq, text_eq_iff}
use easynet.Assoc.{get}
use easynet.Net.{SocketAddr}
use easynet.Server.{
  Client, ServerState, ServerConfig, Surroundings, text_key, client_address, build_tun_config,
  admits, handle_handshake,
}
use easynet.Server.Handshake.{IsUnknown, handle_handshake_new}
use easynet.Server.Addresses.{DistinctAddresses, DiffersBut, All-found, get-DiffersBut}
use easynet.Server.Runs.{client_address_wraps}

-- Addresses are given out again while they are in use. Where a session that is still held got its
-- address from the counter's value i, the counter stands at i + 256, the configuration loads, the
-- token is admitted, the reply can be sent and the new id is not that session's: a client that
-- names no known session is given the same address, the older session keeps it, and the sessions
-- no longer have distinct addresses.
pub new_session_collides :
    (w : Surroundings) (config : ServerConfig) (s : ServerState) (src : SocketAddr) (tx : ℕ)
    (id token : Option Text) (j : Text) (client : Client) (i : ℕ)
    → w.config ≡ some config
    → w.send_ok ≡ true
    → admits config token ≡ true
    → IsUnknown s id
    → get j s.sessions ≡ some client
    → client.virtual_ip ≡ client_address i
    → s.next_client_id ≡ i + 256
    → w.fresh_id ≢ j
    → let m = ((handle_handshake w s src tx id token).state).sessions in
      (get j m ≡ some client)
      × ((c : Client) × (get w.fresh_id m ≡ some c) × (c.virtual_ip ≡ client.virtual_ip))
      × (¬ DistinctAddresses m)
new_session_collides w config s src tx id token j client i loaded sent good unknown held given round
      other =
    let old = (handle_handshake_new w config s src tx id token j loaded sent good unknown).0 in
    let new =
      (handle_handshake_new w config s src tx id token w.fresh_id loaded sent good unknown).0 in
    let ip = client_address s.next_client_id in
    let mine : Client = record {
      addr = src;
      virtual_ip = ip;
      tx = tx;
      tun_config = build_tun_config w.show_v6 config ip;
      last_seen = w.now;
    } in
    let m = ((handle_handshake w s src tx id token).state).sessions in
    let apart : text_eq w.fresh_id j ≡ false = differs in
    let kept : get j m ≡ some client = old ∙ rw apart held in
    let stored : get w.fresh_id m ≡ some mine =
      new ∙ rw ((text_eq_iff w.fresh_id w.fresh_id).1 refl) refl in
    let same : ip ≡ client.virtual_ip =
      ap (λ n. client_address n) round ∙ client_address_wraps i ∙ sym given in
    (
      kept,
      (mine, stored, same),
      λ d.
          All-found (DiffersBut w.fresh_id ip) j client m
            (get-DiffersBut w.fresh_id mine m d stored) kept (λ e. other (sym e)) (sym same),
    )
  where
    differs : text_eq w.fresh_id j ≡ false
    differs = elim (Bool-cases (text_eq w.fresh_id j)) [
      | inl e ↦ absurd (other ((text_eq_iff w.fresh_id j).0 e))
      | inr e ↦ e
    ]
