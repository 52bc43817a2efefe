-- ===== src/WebSocket.antt =====
-- src/transport/ws.rs: the messages of a web socket, the connection of the server, the URL and the
-- TLS of a client, and the certificate of the server. The crates `url`, `native_tls` and
-- `tokio_tungstenite` stand as parameters and as the outcomes of the calls of them.
pub mod Frames
pub mod Acceptor
pub mod Tests
use easynet.Prelude.{
  ℕ, Bool, true, false, Option, none, some, List, [], ◌∷◌, ◌++◌, map, ◌&&◌, not, Result, ok, err,
  ◌>>=◌, ◌>>◌, guard, ok_or, if◌then◌else◌,
}
use easynet.Text.{Text, codes, text_eq}
use easynet.Net.{socket_addr, SocketAddr, v4, octets}
use easynet.Message.{
  Bytes, Message, MessageType, handshake, payload, keepalive, disconnect, Prost, data_message,
}
use easynet.Server.{ServerState, Surroundings, handle_handshake, handle_disconnect}
use easynet.Server.Packets.{handle_data, handle_keepalive}
use easynet.Server.Lifetime.{Handled, provided}
use easynet.Connection.{Served, after}

-- What the stream of the crate yields: a binary frame, a frame of another kind, or an error. A stream
-- that has ended yields `ended`.
pub data Item : Type 0 where
  binary : Bytes → Item
  unsupported stream_error ended : Item

-- `WsTransport::send` puts a message into one binary frame.
abbrev pub send : Prost → Message → Item
send p m = binary (p.encode_to_vec m)

-- What `WsTransport::next` gives: a message, `Some(Err)`, or `None`.
pub data Next : Type 0 where
  message : Message → Next
  failed nothing : Next

-- `Message::decode` and `.ok()`.
abbrev pub of_decoded : Option Message → Next
of_decoded none = nothing
of_decoded (some m) = message m

-- The loop of `WsTransport::next` over what is left of the stream, or none while it waits.
unfoldable pub next : Prost → List Item → Option (Next × List Item)
next p [] = none
next p (binary bytes ∷ items) = some (of_decoded (p.decode bytes), items)
next p (unsupported ∷ items) = next p items
next p (stream_error ∷ items) = some (failed, items)
next p (ended ∷ items) = some (nothing, items)

-- A turn of `handle_ws_connection`: an item of the stream, a packet from the client's channel with the
-- outcome of its send, or another state of the sessions left by other tasks. The channel does not end,
-- since the function holds a sender of it.
pub data WsEvent : Type 0 where
  item : Surroundings → Item → WsEvent
  packet : Bytes → Bool → WsEvent
  other_tasks : ServerState → WsEvent

-- The match on a message, which comes from the peer.
unfoldable pub handle_ws_message :
    Surroundings → ServerState → SocketAddr → ℕ → Option MessageType → Handled
handle_ws_message w s peer tx (some (handshake h)) =
    let out = handle_handshake w s peer tx (provided h.session_id) (provided h.token) in
    record { state = out.state; sent = out.sent; forwarded = [] }
handle_ws_message w s peer tx (some (payload bytes)) = record {
  state = s;
  sent = [];
  forwarded = handle_data w.forward_ok bytes;
}
handle_ws_message w s peer tx (some (keepalive timestamp)) = record {
  state = s;
  sent = handle_keepalive peer timestamp;
  forwarded = [];
}
handle_ws_message w s peer tx (some (disconnect reason)) = record {
  state = handle_disconnect s peer;
  sent = [];
  forwarded = [];
}
handle_ws_message w s peer tx none = record { state = s; sent = []; forwarded = [] }

-- Behind the loop the session of the peer is dropped.
unfoldable pub leave_ws : ServerState → SocketAddr → Served
leave_ws s peer = record {
  state = handle_disconnect s peer;
  sent = [];
  forwarded = [];
  is_open = false;
}

-- The match on what `next` gives, with the loop behind it. While `next` waits the loop waits.
unfoldable pub on_read :
    Surroundings
    → ServerState
    → SocketAddr
    → ℕ
    → (ServerState → Served)
    → Option (Next × List Item)
    → Served
unfolding handle_ws_message leave_ws
on_read w s peer tx go none = go s
on_read w s peer tx go (some (message m, items)) =
    let out = handle_ws_message w s peer tx m.msg in after out.sent out.forwarded (go out.state)
on_read w s peer tx go (some (failed, items)) = leave_ws s peer
on_read w s peer tx go (some (nothing, items)) = leave_ws s peer

unfoldable pub handle_ws_connection : Prost → ServerState → SocketAddr → ℕ → List WsEvent → Served
unfolding next on_read leave_ws
handle_ws_connection p s peer tx [] = record {
  state = s;
  sent = [];
  forwarded = [];
  is_open = true;
}
handle_ws_connection p s peer tx (item w i ∷ es) =
    on_read w s peer tx (λ t. handle_ws_connection p t peer tx es) (next p (i ∷ []))
handle_ws_connection p s peer tx (packet bytes send_ok ∷ es) =
    let rest = after ((peer, data_message bytes) ∷ []) [] (handle_ws_connection p s peer tx es) in
    if send_ok then rest else leave_ws s peer
handle_ws_connection p s peer tx (other_tasks t ∷ es) = handle_ws_connection p t peer tx es

pub data WsError : Type 0 where
  bad_url missing_host missing_port not_connected ws_handshake_failed : WsError
  unreadable_ca bad_ca no_connector tls_handshake_failed : WsError
  no_certificate unreadable_certificate unreadable_key bad_identity no_acceptor not_accepted :
      WsError

-- What the crate `url` finds in a URL.
pub record Url : Type 0 where
  pub host_str : Option Text
  pub port_or_known_default : Option ℕ
  pub scheme : Text

abbrev pub UrlParser : Type 0
UrlParser = Text → Option Url

unfoldable pub parse_url : UrlParser → Text → Result (Text × ℕ × Bool) WsError
unfolding text_eq
parse_url parse url = do
  parsed_url ← ok_or bad_url (parse url)
  host ← ok_or missing_host parsed_url.host_str
  port ← ok_or missing_port parsed_url.port_or_known_default
  ok (host, port, text_eq parsed_url.scheme (codes "wss"))

-- A certificate of an authority: no file, or one that is not read, is no certificate, or is one.
pub data CaFile : Type 0 where
  absent unreadable not_pem certificate : CaFile

abbrev pub add_root : CaFile → Result (Unit {0}) WsError
add_root absent = ok tt
add_root unreadable = err unreadable_ca
add_root not_pem = err bad_ca
add_root certificate = ok tt

-- The connector accepts certificates and host names that do not check.
pub record Connector : Type 0 where
  pub accept_invalid_certs : Bool
  pub accept_invalid_hostnames : Bool

abbrev pub lax : Connector
lax = record { accept_invalid_certs = true; accept_invalid_hostnames = true }

-- The outcomes of the calls of `connect`, and the parse of a host and a port to an address, which is the
-- standard library's.
pub record ConnectCalls : Type 0 where
  pub tcp_connect : Bool
  pub ca_file : CaFile
  pub build : Bool
  pub tls_connect : Connector → Bool
  pub parse_addr : Text → ℕ → Option SocketAddr
  pub ws_handshake : Bool

unfoldable pub wrap_with_tls : ConnectCalls → Result (Unit {0}) WsError
wrap_with_tls calls = do
  add_root calls.ca_file
  guard calls.build no_connector
  guard (calls.tls_connect lax) tls_handshake_failed

-- A client's web socket: whom it reaches, and whether over TLS.
pub record WsTransport : Type 0 where
  pub host : Text
  pub port : ℕ
  pub peer_addr : SocketAddr
  pub encrypted : Bool

-- `unwrap_or_else`.
abbrev pub or_local : Option SocketAddr → SocketAddr
or_local none = socket_addr (v4 (octets 127 0 0 1)) 80
or_local (some addr) = addr

unfoldable pub connect : UrlParser → ConnectCalls → Text → Result WsTransport WsError
unfolding parse_url wrap_with_tls
connect parse calls url = do
  target ← parse_url parse url
  guard calls.tcp_connect not_connected
  if target.2 then wrap_with_tls calls else ok tt
  guard calls.ws_handshake ws_handshake_failed
  ok (record {
    host = target.0;
    port = target.1;
    peer_addr = or_local (calls.parse_addr target.0 target.1);
    encrypted = target.2;
  })
