-- ===== src/WebSocket/Tests.antt =====
-- A web socket connection at concrete frames.
use easynet.Prelude.{◌≡◌, refl, true, none, some, [], ◌∷◌, List}
use easynet.Net.{socket_addr, v4, octets, SocketAddr}
use easynet.Message.{Prost, Message, keepalive_message}
use easynet.Server.{Surroundings, initial}
use easynet.Connection.{handle_tcp_connection}
use easynet.WebSocket.{handle_ws_connection}
use easynet.WebSocket.Frames.{
  Happening, says, pings, garbles, is_sent, on_web_socket, on_tcp,
  handle_ws_connection-handle_tcp_connection,
}

abbrev hello : Message
hello = keepalive_message 7

-- A toy code for one message.
abbrev prost : Prost
prost = record {
  encode_to_vec = λ m. 1 ∷ [];
  decode = λ bytes. elim bytes [ [] ↦ none | b ∷ bs ↦ some hello ];
}

abbrev around : Surroundings
around = record {
  config = none;
  show_v6 = λ n. [];
  fresh_id = [];
  now = 0;
  send_ok = true;
  forward_ok = true;
}

abbrev peer : SocketAddr
peer = socket_addr (v4 (octets 203 0 113 5)) 5555

abbrev happenings : List Happening
happenings =
    pings around
    ∷ says around hello
    ∷ is_sent (69 ∷ []) true
    ∷ garbles around []
    ∷ says around hello
    ∷ []

handle_ws_connection-handle_tcp_connection_example :
    handle_ws_connection prost initial peer 1 (on_web_socket prost happenings)
    ≡ handle_tcp_connection initial peer 1 (on_tcp happenings)
handle_ws_connection-handle_tcp_connection_example =
    handle_ws_connection-handle_tcp_connection prost initial peer 1 happenings
      (tt, (refl, (tt, (refl, (refl, tt)))))
