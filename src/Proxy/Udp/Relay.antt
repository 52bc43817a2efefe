-- ===== src/Proxy/Udp/Relay.antt =====
-- What a session of src/transparent_proxy/udp_proxy.rs relays.
use easynet.Prelude.{
  Bool, true, false, List, [], ◌∷◌, map, Delivers, Delivers-start, Delivers-ended, Delivers-next,
}
use easynet.Message.{Bytes}
use easynet.Net.{SocketAddr}
use easynet.Proxy.{UpstreamServer, translate_socket}
use easynet.Proxy.Udp.{
  UdpEvent, requested, channel_closed, replied, receive_failed, idle, delivered, failed, timed_out,
  UdpSession, udp_turn, udp_loop, handle_udp_session,
}

-- The client's datagrams, and the replies that the TUN stack took.
abbrev pub requests : List UdpEvent → List Bytes
requests [] = []
requests (requested packet sent ∷ es) = packet ∷ requests es
requests (_ ∷ es) = requests es

abbrev pub replies : List UdpEvent → List Bytes
replies [] = []
replies (replied packet delivered ∷ es) = packet ∷ replies es
replies (_ ∷ es) = replies es

module _ (client target to : SocketAddr) where
  abbrev pub outgoing : Bytes → SocketAddr × Bytes
  outgoing packet = (to, packet)

  abbrev pub incoming : Bytes → SocketAddr × SocketAddr × Bytes
  incoming packet = (target, client, packet)

  abbrev pub RelaysBoth : List UdpEvent → UdpSession → Type 0
  RelaysBoth es session =
      Delivers session.outbound (map outgoing (requests es)) session.ending
      × Delivers session.inbound (map incoming (replies es)) session.ending

  udp_turn-RelaysBoth :
      (e : UdpEvent) (es : List UdpEvent) (rest : UdpSession)
      → RelaysBoth es rest
      → RelaysBoth (e ∷ es) (udp_turn client target to e rest)
  udp_turn-RelaysBoth (requested packet true) es rest h = (Delivers-next _ _ _ _ h.0, h.1)
  udp_turn-RelaysBoth (requested packet false) es rest h = (Delivers-ended _ _, Delivers-ended _ _)
  udp_turn-RelaysBoth channel_closed es rest h = (Delivers-ended _ _, Delivers-ended _ _)
  udp_turn-RelaysBoth (replied packet delivered) es rest h = (h.0, Delivers-next _ _ _ _ h.1)
  udp_turn-RelaysBoth (replied packet failed) es rest h = (Delivers-ended _ _, Delivers-ended _ _)
  udp_turn-RelaysBoth (replied packet timed_out) es rest h = h
  udp_turn-RelaysBoth receive_failed es rest h = (Delivers-ended _ _, Delivers-ended _ _)
  udp_turn-RelaysBoth idle es rest h = (Delivers-ended _ _, Delivers-ended _ _)

  udp_loop-RelaysBoth : (es : List UdpEvent) → RelaysBoth es (udp_loop client target to es)
  unfolding udp_loop
  udp_loop-RelaysBoth [] = (Delivers-start, Delivers-start)
  udp_loop-RelaysBoth (e ∷ es) =
      udp_turn-RelaysBoth e es (udp_loop client target to es) (udp_loop-RelaysBoth es)

-- A session sends the client's datagrams to the translated target, and the replies that the TUN stack
-- takes from the original target to the client, each once and in order: all of them while it runs,
-- and the first of them when it has ended.
pub handle_udp_session-RelaysBoth :
    (upstream : UpstreamServer) (client target : SocketAddr) (bound : Bool) (es : List UdpEvent)
    → RelaysBoth client target
        (translate_socket upstream target)
        es
        (handle_udp_session upstream client target bound es)
unfolding handle_udp_session
handle_udp_session-RelaysBoth upstream client target true es =
    udp_loop-RelaysBoth client target (translate_socket upstream target) es
handle_udp_session-RelaysBoth upstream client target false es =
    (Delivers-ended _ _, Delivers-ended _ _)
