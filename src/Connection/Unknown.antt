-- ===== src/Connection/Unknown.antt =====
-- A peer without a session on a connection of src/transport/tcp.rs.
use easynet.Prelude.{
  ℕ, ◌≡◌, refl, ap, false, none, some, List, [], ◌∷◌, map, find, All, retain, Bool-cases, inl, inr,
}
use easynet.Text.{Text}
use easynet.Net.{SocketAddr, socket_eq}
use easynet.Message.{Bytes, payload}
use easynet.Server.{Client, ServerState, Surroundings, handle_disconnect}
use easynet.Server.Lifetime.{handle_message}
use easynet.Connection.{Event, received, closed, handle_tcp_connection}

-- No session has the address.
abbrev pub IsUnknownPeer : SocketAddr → ServerState → Type 0
IsUnknownPeer peer s = All (λ (e : Text × Client). socket_eq (e.1).addr peer ≡ false) s.sessions

-- Data messages, and then the end of the stream.
abbrev pub only_data : List (Surroundings × Bytes) → List Event
only_data [] = closed ∷ []
only_data ((w, packet) ∷ ps) = received w (some (payload packet)) ∷ only_data ps

find-none :
    (peer : SocketAddr) (m : List (Text × Client))
    → All (λ (e : Text × Client). socket_eq (e.1).addr peer ≡ false) m
    → find (λ (e : Text × Client). socket_eq (e.1).addr peer) m ≡ none
find-none peer [] h = refl
find-none peer (e ∷ m) h = rw h.0 (find-none peer m h.1)

handle_disconnect_unknown :
    (s : ServerState) (peer : SocketAddr) → IsUnknownPeer peer s → handle_disconnect s peer ≡ s
unfolding handle_disconnect
handle_disconnect_unknown s peer h = rw (find-none peer s.sessions h, handle_disconnect)

-- Data from a peer that has no session, because it never shook hands or was refused, is handed to the
-- TUN task all the same: every packet that the channel to the task takes, in order, without a reply
-- or a change of the sessions.
pub unknown_peer_forwards :
    (s : ServerState) (peer : SocketAddr) (tx : ℕ) (packets : List (Surroundings × Bytes))
    → IsUnknownPeer peer s
    → let out = handle_tcp_connection s peer tx (only_data packets) in
      (out.forwarded
        ≡ map
            (λ (p : Surroundings × Bytes). p.1)
            (retain (λ (p : Surroundings × Bytes). (p.0).forward_ok) packets))
      × (out.sent ≡ [])
      × (out.state ≡ s)
unfolding handle_tcp_connection handle_message
unknown_peer_forwards s peer tx [] h = (refl, refl, handle_disconnect_unknown s peer h)
unknown_peer_forwards s peer tx ((w, packet) ∷ ps) h =
    let (forwards, silent, keeps) = unknown_peer_forwards s peer tx ps h in
    elim (Bool-cases w.forward_ok) [
      | inl taken ↦ rw taken (ap (λ l. packet ∷ l) forwards, silent, keeps)
      | inr refused ↦ rw refused (forwards, silent, keeps)
    ]
