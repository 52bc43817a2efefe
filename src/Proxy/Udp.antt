-- ===== src/Proxy/Udp.antt =====
-- src/transparent_proxy/udp_proxy.rs: the datagrams from the TUN side, and the loop of one session.
pub mod Relay
use easynet.Prelude.{
  ℕ, Bool, true, false, ◌&&◌, Option, none, some, List, [], ◌∷◌, if◌then◌else◌, ◌≡◌, ◌↔◌, and_split,
  arith,
}
use easynet.Message.{Bytes}
use easynet.Assoc.{Key}
use easynet.Net.{SocketAddr, socket_eq, socket_eq_iff}
use easynet.Filter.{IpFilters, is_allowed}
use easynet.Proxy.{UpstreamServer, translate_socket}
use easynet.Proxy.Sessions.{Table, take_channel}

-- The client and the target.
abbrev pub UdpKey : Type 0
UdpKey = SocketAddr × SocketAddr

abbrev pub udp_key_eq : UdpKey → UdpKey → Bool
udp_key_eq (a, b) (c, d) = socket_eq a c && socket_eq b d

pub udp_key_eq_iff : (x y : UdpKey) → (udp_key_eq x y ≡ true) ↔ (x ≡ y)
udp_key_eq_iff (a, b) (c, d) = ground (arith, socket_eq_iff a c, socket_eq_iff b d)

instance abbrev pub udp_key : Key UdpKey
udp_key = record { beq = udp_key_eq; beq_iff = udp_key_eq_iff }

-- The body of the loop of `handle_inbound_datagram`, up to the send on the channel: `none` is a
-- failed receive, and the sender and the destination of a datagram come with it.
unfoldable pub handle_inbound_datagram :
    IpFilters → Table UdpKey → Option (SocketAddr × SocketAddr) → Table UdpKey
unfolding is_allowed take_channel
handle_inbound_datagram filters t none = t
handle_inbound_datagram filters t (some (remote, local)) =
    if is_allowed filters remote.ip local.ip then take_channel t (remote, local) else t

-- How the reply went into the TUN stack.
pub data TunSend : Type 0 where
  delivered failed timed_out : TunSend

-- A turn of a session: a datagram of the client and whether its send succeeds, the end of the
-- channel, a reply and its delivery, a failed receive, and 30 seconds without any of these.
pub data UdpEvent : Type 0 where
  requested : Bytes → Bool → UdpEvent
  channel_closed : UdpEvent
  replied : Bytes → TunSend → UdpEvent
  receive_failed : UdpEvent
  idle : UdpEvent

-- How a session ended, if it did.
pub data Ending : Type 0 where
  finished io_error : Ending

-- The datagrams to the outbound target, those to the client with their source and destination, and
-- the ending.
pub record UdpSession : Type 0 where
  pub outbound : List (SocketAddr × Bytes)
  pub inbound : List (SocketAddr × SocketAddr × Bytes)
  pub ending : Option Ending

abbrev pub ends : Ending → UdpSession
ends e = record { outbound = []; inbound = []; ending = some e }

abbrev pub after_reply : SocketAddr → SocketAddr → Bytes → TunSend → UdpSession → UdpSession
after_reply client target packet delivered rest = record rest {
  inbound = (target, client, packet) ∷ rest.inbound;
}
after_reply client target packet failed rest = ends io_error
after_reply client target packet timed_out rest = rest

-- What a turn makes of the run behind it.
abbrev pub udp_turn : SocketAddr → SocketAddr → SocketAddr → UdpEvent → UdpSession → UdpSession
udp_turn client target to (requested packet sent) rest =
    if sent then record rest { outbound = (to, packet) ∷ rest.outbound } else ends io_error
udp_turn client target to channel_closed rest = ends finished
udp_turn client target to (replied packet sent) rest = after_reply client target packet sent rest
udp_turn client target to receive_failed rest = ends io_error
udp_turn client target to idle rest = ends finished

unfoldable pub udp_loop : SocketAddr → SocketAddr → SocketAddr → List UdpEvent → UdpSession
udp_loop client target to [] = record { outbound = []; inbound = []; ending = none }
udp_loop client target to (e ∷ es) =
    let rest = udp_loop client target to es in udp_turn client target to e rest

-- `handle_udp_session` from its start: `bound` is the outcome of `new_udp_packet`.
unfoldable pub handle_udp_session :
    UpstreamServer → SocketAddr → SocketAddr → Bool → List UdpEvent → UdpSession
unfolding translate_socket udp_loop
handle_udp_session upstream client target bound es =
    let run = udp_loop client target (translate_socket upstream target) es in
    if bound then run else ends io_error
