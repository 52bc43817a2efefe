-- ===== src/Connection.antt =====
-- The loops of the transports: `handle_tcp_connection` of src/transport/tcp.rs,
-- `transport_io_task` of src/transport/udp.rs, and `client_transport_io_task` of src/transport/mod.rs. Each takes the events that its `select!`
-- picks, in their order.
pub mod Unknown
pub mod Tunnel
pub mod Datagrams
pub mod Oversized
pub mod Tests
use easynet.Prelude.{
  ℕ, Bool, true, false, Option, none, some, List, [], ◌∷◌, ◌++◌, if◌then◌else◌, ◌&&◌, ltb,
}
use easynet.Text.{Text}
use easynet.Net.{Ipv4Addr, SocketAddr}
use easynet.Message.{
  Bytes, Message, MessageType, handshake, payload, keepalive, disconnect, data_message,
  keepalive_message,
}
use easynet.Server.{ServerState, Surroundings, handle_disconnect}
use easynet.Server.Packets.{get_destination_ip, send_to_client}
use easynet.Server.Lifetime.{handle_message}

-- A turn of a connection of the server: a message, a failed read, the end of the stream, or a packet
-- from the client's channel with the outcome of its send. Between two turns the other tasks may leave
-- another state of the sessions.
pub data Event : Type 0 where
  received : Surroundings → Option MessageType → Event
  read_failed closed : Event
  to_client : Bytes → Bool → Event
  elsewhere : ServerState → Event

pub record Served : Type 0 where
  pub state : ServerState
  pub sent : List (SocketAddr × Message)
  pub forwarded : List Bytes
  pub is_open : Bool

abbrev hang_up : ServerState → SocketAddr → Served
hang_up s peer = record {
  state = handle_disconnect s peer;
  sent = [];
  forwarded = [];
  is_open = false;
}

-- What one turn adds to a run.
abbrev pub after : List (SocketAddr × Message) → List Bytes → Served → Served
after sent forwarded rest = record rest {
  sent = sent ++ rest.sent;
  forwarded = forwarded ++ rest.forwarded;
}

unfoldable pub handle_tcp_connection : ServerState → SocketAddr → ℕ → List Event → Served
unfolding handle_message handle_disconnect
handle_tcp_connection s peer tx [] = record { state = s; sent = []; forwarded = []; is_open = true }
handle_tcp_connection s peer tx (received w m ∷ es) =
    let out = handle_message w s peer peer tx m in
    after out.sent out.forwarded (handle_tcp_connection out.state peer tx es)
handle_tcp_connection s peer tx (read_failed ∷ es) = hang_up s peer
handle_tcp_connection s peer tx (closed ∷ es) = hang_up s peer
handle_tcp_connection s peer tx (to_client packet send_ok ∷ es) =
    let rest = after ((peer, data_message packet) ∷ []) [] (handle_tcp_connection s peer tx es) in
    if send_ok then rest else hang_up s peer
handle_tcp_connection s peer tx (elsewhere t ∷ es) = handle_tcp_connection t peer tx es

-- A turn of the UDP task: a message with its sender, a failed or ended read, a packet from the TUN
-- task, the end of that channel, or another state of the sessions left by other tasks.
pub data UdpEvent : Type 0 where
  datagram : Surroundings → SocketAddr → Option MessageType → UdpEvent
  read_ended : UdpEvent
  from_tun : Bytes → UdpEvent
  tun_closed : UdpEvent
  other_tasks : ServerState → UdpEvent

abbrev to_destination : ServerState → Bytes → Option Ipv4Addr → List (SocketAddr × Message)
to_destination s packet none = []
to_destination s packet (some ip) = send_to_client s packet ip

-- The channel of a UDP client is a dummy, here the number 0. No session is dropped at the end.
unfoldable pub transport_io_task : ServerState → List UdpEvent → Served
unfolding handle_message get_destination_ip send_to_client
transport_io_task s [] = record { state = s; sent = []; forwarded = []; is_open = true }
transport_io_task s (datagram w src m ∷ es) =
    let out = handle_message w s src src 0 m in
    after out.sent out.forwarded (transport_io_task out.state es)
transport_io_task s (read_ended ∷ es) = record {
  state = s;
  sent = [];
  forwarded = [];
  is_open = false;
}
transport_io_task s (from_tun packet ∷ es) =
    after (to_destination s packet (get_destination_ip packet)) [] (transport_io_task s es)
transport_io_task s (tun_closed ∷ es) = record {
  state = s;
  sent = [];
  forwarded = [];
  is_open = false;
}
transport_io_task s (other_tasks t ∷ es) = transport_io_task t es

pub data LinkError : Type 0 where
  tun_send_failed receive_failed connection_closed send_failed channel_disconnected : LinkError
  keepalive_failed latency_overflow : LinkError
  server_disconnected : Text → LinkError

-- What a message meets: whether the TUN task takes a packet, the milliseconds of the clock as a `u64`,
-- and whether the build checks for overflow, as a debug build does.
pub record Receipt : Type 0 where
  pub taken : Bool
  pub now : ℕ
  pub overflow_checks : Bool

-- A turn of the client's loop: a message with what it meets, a failed read,
-- the end of the transport, a packet from the TUN task with the outcome of its send, the end of that
-- channel, or a tick with its timestamp.
pub data ClientEvent : Type 0 where
  message : Option MessageType → Receipt → ClientEvent
  failed ended : ClientEvent
  tun_packet : Bytes → Bool → ClientEvent
  tun_ended : ClientEvent
  ticked : ℕ → Bool → ClientEvent

pub record Link : Type 0 where
  pub sent : List Message
  pub forwarded : List Bytes
  pub error : Option LinkError

abbrev pub broken : LinkError → Link
broken e = record { sent = []; forwarded = []; error = some e }

abbrev pub sending : Message → Link → Link
sending m rest = record rest { sent = m ∷ rest.sent }

abbrev pub forwarding : Bytes → Link → Link
forwarding packet rest = record rest { forwarded = packet ∷ rest.forwarded }

-- The latency of a keepalive, `received_timestamp - (sent_timestamp as u64)`, is only logged; but of a
-- timestamp ahead of the clock the subtraction panics where overflow is checked, and the task ends.
abbrev pub on_message : Option MessageType → Receipt → Link → Link
on_message (some (payload packet)) r rest =
    if r.taken then forwarding packet rest else broken tun_send_failed
on_message (some (keepalive timestamp)) r rest =
    if r.overflow_checks && ltb r.now timestamp then broken latency_overflow else rest
on_message (some (disconnect reason)) r rest = broken (server_disconnected reason)
on_message (some (handshake h)) r rest = rest
on_message none r rest = rest

-- What a turn makes of the run behind it.
abbrev pub client_turn : ClientEvent → Link → Link
client_turn (message m r) rest = on_message m r rest
client_turn failed rest = broken receive_failed
client_turn ended rest = broken connection_closed
client_turn (tun_packet packet send_ok) rest =
    if send_ok then sending (data_message packet) rest else broken send_failed
client_turn tun_ended rest = broken channel_disconnected
client_turn (ticked timestamp send_ok) rest =
    if send_ok then sending (keepalive_message timestamp) rest else broken keepalive_failed

unfoldable pub client_transport_io_task : List ClientEvent → Link
client_transport_io_task [] = record { sent = []; forwarded = []; error = none }
client_transport_io_task (e ∷ es) = let rest = client_transport_io_task es in client_turn e rest
