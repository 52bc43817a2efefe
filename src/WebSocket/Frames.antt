-- ===== src/WebSocket/Frames.antt =====
-- A connection of src/transport/ws.rs does with frames what one of src/transport/tcp.rs does with
-- messages.
use easynet.Prelude.{ℕ, ◌≡◌, refl, Bool, Option, some, none, List, [], ◌∷◌, All}
use easynet.Net.{SocketAddr}
use easynet.Message.{
  Bytes, Message, MessageType, handshake, payload, keepalive, disconnect, Prost, Decodes,
}
use easynet.Server.{ServerState, Surroundings}
use easynet.Server.Lifetime.{handle_message}
use easynet.Connection.{
  Event, received, read_failed, closed, to_client, elsewhere, handle_tcp_connection,
}
use easynet.WebSocket.{
  binary, unsupported, stream_error, ended, send, WsEvent, item, packet, other_tasks, next,
  handle_ws_message, leave_ws, on_read, handle_ws_connection,
}

-- What happens on a connection: the peer sends a message, a frame of another kind, or bytes that are
-- no message; the stream fails or ends; the server has a packet for the peer; another task changes
-- the sessions.
pub data Happening : Type 0 where
  says : Surroundings → Message → Happening
  pings : Surroundings → Happening
  garbles : Surroundings → Bytes → Happening
  breaks hangs_up : Surroundings → Happening
  is_sent : Bytes → Bool → Happening
  meanwhile : ServerState → Happening

module _ (p : Prost) where
  -- A message reads back from its bytes, and what is garbled is no message.
  abbrev pub IsTrue : Happening → Type 0
  IsTrue (says w m) = Decodes p m
  IsTrue (garbles w bytes) = p.decode bytes ≡ none
  IsTrue _ = Unit

  abbrev pub on_web_socket : List Happening → List WsEvent
  on_web_socket [] = []
  on_web_socket (says w m ∷ hs) = item w (send p m) ∷ on_web_socket hs
  on_web_socket (pings w ∷ hs) = item w unsupported ∷ on_web_socket hs
  on_web_socket (garbles w bytes ∷ hs) = item w (binary bytes) ∷ on_web_socket hs
  on_web_socket (breaks w ∷ hs) = item w stream_error ∷ on_web_socket hs
  on_web_socket (hangs_up w ∷ hs) = item w ended ∷ on_web_socket hs
  on_web_socket (is_sent bytes send_ok ∷ hs) = packet bytes send_ok ∷ on_web_socket hs
  on_web_socket (meanwhile s ∷ hs) = other_tasks s ∷ on_web_socket hs

-- The same on a TCP connection: other frames are nothing, and what is garbled ends the stream.
abbrev pub on_tcp : List Happening → List Event
on_tcp [] = []
on_tcp (says w m ∷ hs) = received w m.msg ∷ on_tcp hs
on_tcp (pings w ∷ hs) = on_tcp hs
on_tcp (garbles w bytes ∷ hs) = closed ∷ on_tcp hs
on_tcp (breaks w ∷ hs) = read_failed ∷ on_tcp hs
on_tcp (hangs_up w ∷ hs) = closed ∷ on_tcp hs
on_tcp (is_sent bytes send_ok ∷ hs) = to_client bytes send_ok ∷ on_tcp hs
on_tcp (meanwhile s ∷ hs) = elsewhere s ∷ on_tcp hs

handle_ws_message-handle_message :
    (w : Surroundings) (s : ServerState) (peer : SocketAddr) (tx : ℕ) (m : Option MessageType)
    → handle_ws_message w s peer tx m ≡ handle_message w s peer peer tx m
unfolding handle_ws_message handle_message
handle_ws_message-handle_message w s peer tx none = refl
handle_ws_message-handle_message w s peer tx (some (handshake h)) = refl
handle_ws_message-handle_message w s peer tx (some (payload bytes)) = refl
handle_ws_message-handle_message w s peer tx (some (keepalive timestamp)) = refl
handle_ws_message-handle_message w s peer tx (some (disconnect reason)) = refl

-- Whatever happens on a web socket, where messages read back from their bytes, the server ends with
-- the state, the replies and the forwarded packets of the TCP connection on which the same
-- happens, frames of other kinds left out and a frame that is no message taken for the end of the
-- stream.
pub handle_ws_connection-handle_tcp_connection :
    (p : Prost) (s : ServerState) (peer : SocketAddr) (tx : ℕ) (hs : List Happening)
    → All (IsTrue p) hs
    → handle_ws_connection p s peer tx (on_web_socket p hs)
      ≡ handle_tcp_connection s peer tx (on_tcp hs)
unfolding handle_ws_connection handle_tcp_connection next on_read leave_ws
handle_ws_connection-handle_tcp_connection p s peer tx [] h = refl
handle_ws_connection-handle_tcp_connection p s peer tx (says w m ∷ hs) (decodes, h) =
    let out = handle_message w s peer peer tx m.msg in
    rw
      (
        decodes,
        handle_ws_message-handle_message w s peer tx m.msg,
        handle_ws_connection-handle_tcp_connection p out.state peer tx hs h,
      )
      refl
handle_ws_connection-handle_tcp_connection p s peer tx (pings w ∷ hs) (_, h) =
    handle_ws_connection-handle_tcp_connection p s peer tx hs h
handle_ws_connection-handle_tcp_connection p s peer tx (garbles w bytes ∷ hs) (garbled, h) =
    rw garbled refl
handle_ws_connection-handle_tcp_connection p s peer tx (breaks w ∷ hs) h = refl
handle_ws_connection-handle_tcp_connection p s peer tx (hangs_up w ∷ hs) h = refl
handle_ws_connection-handle_tcp_connection p s peer tx (is_sent bytes send_ok ∷ hs) (_, h) =
    rw (handle_ws_connection-handle_tcp_connection p s peer tx hs h) refl
handle_ws_connection-handle_tcp_connection p s peer tx (meanwhile t ∷ hs) (_, h) =
    handle_ws_connection-handle_tcp_connection p t peer tx hs h
